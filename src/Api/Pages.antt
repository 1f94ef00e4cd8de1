-- ===== src/Api/Pages.antt =====
-- api/pagination.py: the page that a query asks for, and the number of pages. What `int` reads is a
-- parameter, where `none` is a ValueError.
use native.Mathlib.Nat.{le-div_iff_mul-le, suc-mul}
use yasin_press_rewrite.Base.{
  ℕ, zero, suc, ◌+◌, ◌-◌, ◌*◌, ◌/◌, ◌≤◌, ◌<◌, ◌≡◌, ap, ◌∙◌, ◌↔◌, String, Option, none, some, min,
  max, arith, ◌==◌, string_eq, if◌then◌else◌,
}
use yasin_press_rewrite.Numbers.{ℤ, pos, negsuc}

pub record Page : Type 0 where
  pub number : ℕ
  pub size : ℕ

unfoldable pub offset : Page → ℕ
offset p = (p.number - 1) * p.size

-- `int(value or default)`, or the default, and `max(1, n)`
abbrev pub number_or : (String → Option ℤ) → ℕ → Option String → ℤ
number_or read_int default none = pos default
number_or read_int default (some s) =
    if s == "" then pos default else elim (read_int s) [ none ↦ pos default | some n ↦ n ]

abbrev pub at_least_one : ℤ → ℕ
at_least_one (pos n) = max 1 n
at_least_one (negsuc n) = 1

unfoldable pub from_query : (String → Option ℤ) → Option String → Option String → ℕ → Page
from_query read_int page size max_size = record {
  number = at_least_one (number_or read_int 1 page);
  size = min max_size (at_least_one (number_or read_int 25 size));
}

-- The number of pages of as_dict.
unfoldable pub pages : ℕ → Page → ℕ
pages total p = (total + p.size - 1) / p.size

at_least_one-le : (z : ℤ) → 1 ≤ at_least_one z
at_least_one-le (pos n) = omega arith
at_least_one-le (negsuc n) = omega arith

last_page : (n s : ℕ) → 1 ≤ n → n * s ≡ (n - 1) * s + s
last_page zero s h = absurd (omega (arith, h))
last_page (suc k) s h = suc-mul k s ∙ ap (λ x. x * s + s) (omega arith)

within : (total n s : ℕ) → 1 ≤ n → 1 ≤ s → ((n - 1) * s < total) ↔ (n ≤ (total + s - 1) / s)
within total n s one h =
    let (to, back) = le-div_iff_mul-le {k = s} {x = n} {y = total + s - 1} h in
    (
      λ e. back (omega (arith, e, last_page n s one, h)),
      λ e. omega (arith, to e, last_page n s one, h),
    )

-- A page of a query has a number of one at least and a size between one and max_size, and it
-- starts within the collection exactly if its number is one of the pages that as_dict counts.
pub from_query-pages :
    (read_int : String → Option ℤ) (page size : Option String) (max_size total : ℕ)
    → 1 ≤ max_size
    → (1 ≤ (from_query read_int page size max_size).number)
      × (1 ≤ (from_query read_int page size max_size).size)
      × ((from_query read_int page size max_size).size ≤ max_size)
      × ((offset (from_query read_int page size max_size) < total) ↔ (
          (from_query read_int page size max_size).number
          ≤ pages total (from_query read_int page size max_size)))
unfolding from_query offset pages
from_query-pages read_int page size max_size total h =
    let n = at_least_one (number_or read_int 1 page) in
    let m = at_least_one (number_or read_int 25 size) in
    let one = at_least_one-le (number_or read_int 1 page) in
    let many = at_least_one-le (number_or read_int 25 size) in
    (
      one,
      omega (arith, many, h),
      omega arith,
      within total n (min max_size m) one (omega (arith, many, h)),
    )
