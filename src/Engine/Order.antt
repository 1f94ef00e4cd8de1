-- ===== src/Engine/Order.antt =====
-- The grouping of claim_next, by priority and source, keeps the eligible jobs.
use yasin_press_rewrite.Base.{
  ℕ, inl, inr, Bool, List, [], ◌∷◌, leb, In, In-append, In-append_left, In-append_right, In-sort_by,
  In-sort_by_of, sort_by, Dict, group_into, items, Filed, group_into-Filed, In-group_into,
  In-group_into_of, In-items, In-items_of, All, string_eq, nat_eq,
}
use yasin_press_rewrite.Models.{PublicationJob}
use yasin_press_rewrite.Engine.Claim.{
  Level, by_age, age_sources, level_of, levels_of, levels, in_order,
}

In-by_age : (j : PublicationJob) (l : List PublicationJob) → In j (by_age l) → In j l
unfolding by_age
In-by_age j l h = In-sort_by _ j l h

In-by_age_of : (j : PublicationJob) (l : List PublicationJob) → In j l → In j (by_age l)
unfolding by_age
In-by_age_of j l h = In-sort_by_of _ j l h

In-age_sources : (j : PublicationJob) (d : Level) → In j (items (age_sources d)) → In j (items d)
unfolding age_sources items
In-age_sources j [] h = h
In-age_sources j ((s, l) ∷ d) h = elim (In-append j (by_age l) (items (age_sources d)) h) [
  | inl m ↦ In-append_left j l (items d) (In-by_age j l m)
  | inr m ↦ In-append_right j l (items d) (In-age_sources j d m)
]

In-age_sources_of : (j : PublicationJob) (d : Level) → In j (items d) → In j (items (age_sources d))
unfolding age_sources items
In-age_sources_of j [] h = h
In-age_sources_of j ((s, l) ∷ d) h = elim (In-append j l (items d) h) [
  | inl m ↦ In-append_left j (by_age l) (items (age_sources d)) (In-by_age_of j l m)
  | inr m ↦ In-append_right j (by_age l) (items (age_sources d)) (In-age_sources_of j d m)
]

In-level_of : (j : PublicationJob) (l : List PublicationJob) → In j (items (level_of l)) → In j l
unfolding level_of items
In-level_of j l h =
    elim (In-group_into (λ i. i.source) j [] l
      (In-age_sources j (group_into (λ i. i.source) [] l) h)) [ inl m ↦ m | inr z ↦ elim z [ ] ]

In-level_of_of : (j : PublicationJob) (l : List PublicationJob) → In j l → In j (items (level_of l))
unfolding level_of items
In-level_of_of j l h =
    In-age_sources_of j (group_into (λ i. i.source) [] l)
      (In-group_into_of (λ i. i.source) j [] l (inl h))

In-levels_of :
    (j : PublicationJob) (d : Dict ℕ (List PublicationJob))
    → In j (in_order (levels_of d))
    → In j (items d)
unfolding in_order levels_of items
In-levels_of j [] h = h
In-levels_of j ((p, l) ∷ d) h = elim (In-append j (items (level_of l)) (in_order (levels_of d)) h) [
  | inl m ↦ In-append_left j l (items d) (In-level_of j l m)
  | inr m ↦ In-append_right j l (items d) (In-levels_of j d m)
]

In-levels_of_of :
    (j : PublicationJob) (d : Dict ℕ (List PublicationJob))
    → In j (items d)
    → In j (in_order (levels_of d))
unfolding in_order levels_of items
In-levels_of_of j [] h = h
In-levels_of_of j ((p, l) ∷ d) h = elim (In-append j l (items d) h) [
  | inl m ↦ In-append_left j (items (level_of l)) (in_order (levels_of d)) (In-level_of_of j l m)
  | inr m ↦ In-append_right j (items (level_of l)) (in_order (levels_of d)) (In-levels_of_of j d m)
]

module _ (j : PublicationJob) (xs : List PublicationJob) where
  abbrev grouped : Dict ℕ (List PublicationJob)
  grouped = group_into (λ i. i.priority) [] xs

  abbrev higher : ℕ × List PublicationJob → ℕ × List PublicationJob → Bool
  higher p q = leb (q.0) (p.0)

  -- The nested loops reach exactly the eligible jobs.
  pub In-levels : In j (in_order (levels xs)) → In j xs
  unfolding levels items
  In-levels h =
      let (p, i, m) =
        In-items j (sort_by higher grouped) (In-levels_of j (sort_by higher grouped) h) in
      elim (In-group_into (λ i. i.priority) j [] xs
        (In-items_of j grouped p (In-sort_by higher p grouped i) m)) [
          | inl n ↦ n
          | inr z ↦ elim z [ ]
        ]

  pub In-levels_all : In j xs → In j (in_order (levels xs))
  unfolding levels items
  In-levels_all h =
      let (p, i, m) = In-items j grouped (In-group_into_of (λ i. i.priority) j [] xs (inl h)) in
      In-levels_of_of j (sort_by higher grouped)
        (In-items_of j (sort_by higher grouped) p (In-sort_by_of higher p grouped i) m)

age_sources-Filed : (d : Level) → Filed (λ i. i.source) d → Filed (λ i. i.source) (age_sources d)
unfolding age_sources
age_sources-Filed [] h = tt
age_sources-Filed ((s, l) ∷ d) h = (λ a m. h.0 a (In-by_age a l m), age_sources-Filed d h.1)

pub levels_of-Filed : (d : Dict ℕ (List PublicationJob)) → All (Filed (λ i. i.source)) (levels_of d)
unfolding levels_of level_of
levels_of-Filed [] = tt
levels_of-Filed ((p, l) ∷ d) =
    (age_sources-Filed _ (group_into-Filed (λ i. i.source) [] l tt), levels_of-Filed d)
