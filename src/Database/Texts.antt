-- ===== src/Database/Texts.antt =====
-- Python's `str` methods on the texts of SQL statements, as lists of code points.
use Prim.Native.Char.{code}
use Prim.Native.String as Native
use yasin_press_rewrite.Base.{
  ℕ, zero, suc, ◌+◌, ◌-◌, String, Bool, true, false, ◌&&◌, List, [], ◌∷◌, Option, none, some, take,
  ◌==◌, nat_eq, if◌then◌else◌,
}

abbrev pub Text : Type 0
Text = List ℕ

unfoldable pub codes : String → Text
codes Native.String.[] = []
codes (Native.String.◌∷◌ c s) = code c ∷ codes s

abbrev pub drop : {A : Type 0} → ℕ → List A → List A
drop zero xs = xs
drop (suc n) [] = []
drop (suc n) (x ∷ xs) = drop n xs

-- `text.startswith(needle)`
unfoldable pub starts_with : Text → Text → Bool
starts_with [] text = true
starts_with (a ∷ needle) [] = false
starts_with (a ∷ needle) (c ∷ text) = (a == c) && starts_with needle text

abbrev pub plus : ℕ → Option ℕ → Option ℕ
plus n none = none
plus n (some i) = some (n + i)

-- `text.find(needle)`, where -1 is `none`, and `text.find(needle, start)`
unfoldable pub find : Text → Text → Option ℕ
unfolding starts_with
find needle [] = if starts_with needle [] then some 0 else none
find needle (c ∷ text) =
    let rest = find needle text in if starts_with needle (c ∷ text) then some 0 else plus 1 rest

unfoldable pub find_from : Text → ℕ → Text → Option ℕ
unfolding find
find_from needle start text = plus start (find needle (drop start text))

-- `text.rfind(needle)`, and `text.rfind(needle, start, end)`
unfoldable pub rfind : Text → Text → Option ℕ
unfolding starts_with
rfind needle [] = if starts_with needle [] then some 0 else none
rfind needle (c ∷ text) = elim (rfind needle text) [
  | some i ↦ some (1 + i)
  | none ↦ if starts_with needle (c ∷ text) then some 0 else none
]

unfoldable pub rfind_between : Text → ℕ → ℕ → Text → Option ℕ
unfolding rfind
rfind_between needle start end text =
    plus start (rfind needle (take (end - start) (drop start text)))

module _ (is_space : ℕ → Bool) where
  -- `text.rstrip()`
  unfoldable pub rstrip : Text → Text
  rstrip [] = []
  rstrip (c ∷ text) = elim (rstrip text) [
    | [] ↦ if is_space c then [] else c ∷ []
    | d ∷ rest ↦ c ∷ d ∷ rest
  ]

  -- The number of spaces at the start.
  unfoldable pub spaces : Text → ℕ
  spaces [] = 0
  spaces (c ∷ text) = let rest = spaces text in if is_space c then suc rest else 0
