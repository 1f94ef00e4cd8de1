-- ===== src/Numbers.antt =====
-- Python's int and float, as config/runtime.py, publishing/eitaa.py and api/pagination.py compare them.
use yasin_press_rewrite.Base.{ℕ, zero, suc, Bool, true, false, not}

pub data ℤ : Type 0 where
  pos negsuc : ℕ → ℤ

-- A float that is a number is `m * 2 ** e`.
pub data Float : Type 0 where
  finite : ℤ → ℤ → Float
  infinity minus_infinity not_a_number : Float

-- `n > 0`, which is `n >= 1` for a whole number
unfoldable pub is_positive : ℤ → Bool
is_positive (pos zero) = false
is_positive (pos (suc n)) = true
is_positive (negsuc n) = false

-- `x <= 0`, which is false of the float that is not a number
unfoldable pub is_at_most_zero : Float → Bool
unfolding is_positive
is_at_most_zero (finite m e) = not (is_positive m)
is_at_most_zero infinity = false
is_at_most_zero minus_infinity = true
is_at_most_zero not_a_number = false
