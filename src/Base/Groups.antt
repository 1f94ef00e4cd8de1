-- ===== src/Base/Groups.antt =====
-- What grouping a list by a key keeps.
use mathlib.Core.Path.{◌≡◌, refl, ap, ◌∙◌, subst}
use mathlib.Core.Logic.{◌⊎◌, inl, inr}
use mathlib.Core.List.{List, [], ◌∷◌, ◌++◌}
use package.yasin_press_rewrite.Base.Tests.{Eq, ◌==◌, ==_iff, if◌then◌else◌, Bool-cases}
use package.yasin_press_rewrite.Base.Lists.{In, In-append, In-append_left, In-append_right}
use package.yasin_press_rewrite.Base.Sorting.{Dict, push, group_into, items}

module _ {A : Type 0} where
  In-append_cases : (b a : A) (l m : List A) → In b ((l ++ a ∷ []) ++ m) → (b ≡ a) ⊎ In b (l ++ m)
  In-append_cases b a [] m h = h
  In-append_cases b a (x ∷ l) m (inl h) = inr (inl h)
  In-append_cases b a (x ∷ l) m (inr h) = elim (In-append_cases b a l m h) [
    | inl p ↦ inl p
    | inr q ↦ inr (inr q)
  ]

  In-append_cases_of :
      (b a : A) (l m : List A) → (b ≡ a) ⊎ In b (l ++ m) → In b ((l ++ a ∷ []) ++ m)
  In-append_cases_of b a [] m h = h
  In-append_cases_of b a (x ∷ l) m (inl h) = inr (In-append_cases_of b a l m (inl h))
  In-append_cases_of b a (x ∷ l) m (inr (inl h)) = inl h
  In-append_cases_of b a (x ∷ l) m (inr (inr h)) = inr (In-append_cases_of b a l m (inr h))

  In-beside :
      (b a : A) (l xs ys : List A)
      → ((b ≡ a) ⊎ In b xs → In b ys)
      → (b ≡ a) ⊎ In b (l ++ xs)
      → In b (l ++ ys)
  In-beside b a l xs ys f (inl p) = In-append_right b l ys (f (inl p))
  In-beside b a l xs ys f (inr q) = elim (In-append b l xs q) [
    | inl m ↦ In-append_left b l ys m
    | inr m ↦ In-append_right b l ys (f (inr m))
  ]

module _ {K A : Type 0} ⦃e : Eq K⦄ where
  In-push :
      (b : A) (k : K) (a : A) (d : Dict K (List A))
      → In b (items (push k a d))
      → (b ≡ a) ⊎ In b (items d)
  unfolding items push
  In-push b k a [] h = h
  In-push b k a ((j, l) ∷ d) h = elim (Bool-cases (k == j)) [
    | inl hit ↦ In-append_cases b a l (items d) (rw (hit, if◌then◌else◌) at h)
    | inr miss ↦ elim (In-append b l (items (push k a d)) (rw (miss, if◌then◌else◌) at h)) [
      | inl m ↦ inr (In-append_left b l (items d) m)
      | inr m ↦ elim (In-push b k a d m) [
        | inl p ↦ inl p
        | inr q ↦ inr (In-append_right b l (items d) q)
      ]
    ]
  ]

  In-push_of :
      (b : A) (k : K) (a : A) (d : Dict K (List A))
      → (b ≡ a) ⊎ In b (items d)
      → In b (items (push k a d))
  unfolding items push
  In-push_of b k a [] h = h
  In-push_of b k a ((j, l) ∷ d) h = elim (Bool-cases (k == j)) [
    | inl hit ↦ rw (hit, if◌then◌else◌) (In-append_cases_of b a l (items d) h)
    | inr miss ↦
        rw (miss, if◌then◌else◌)
          (In-beside b a l (items d) (items (push k a d)) (In-push_of b k a d) h)
  ]

  -- Grouping keeps exactly the items.
  pub In-group_into :
      (key : A → K) (b : A) (d : Dict K (List A)) (xs : List A)
      → In b (items (group_into key d xs))
      → In b xs ⊎ In b (items d)
  unfolding group_into
  In-group_into key b d [] h = inr h
  In-group_into key b d (a ∷ xs) h = elim (In-group_into key b (push (key a) a d) xs h) [
    | inl m ↦ inl (inr m)
    | inr m ↦ elim (In-push b (key a) a d m) [ inl p ↦ inl (inl p) | inr q ↦ inr q ]
  ]

  pub In-group_into_of :
      (key : A → K) (b : A) (d : Dict K (List A)) (xs : List A)
      → In b xs ⊎ In b (items d)
      → In b (items (group_into key d xs))
  unfolding group_into
  In-group_into_of key b d [] (inl h) = elim h [ ]
  In-group_into_of key b d [] (inr h) = h
  In-group_into_of key b d (a ∷ xs) (inl (inl p)) =
      In-group_into_of key b (push (key a) a d) xs (inr (In-push_of b (key a) a d (inl p)))
  In-group_into_of key b d (a ∷ xs) (inl (inr m)) =
      In-group_into_of key b (push (key a) a d) xs (inl m)
  In-group_into_of key b d (a ∷ xs) (inr m) =
      In-group_into_of key b (push (key a) a d) xs (inr (In-push_of b (key a) a d (inr m)))

  -- Every item stands under its own key.
  abbrev pub Filed : (A → K) → Dict K (List A) → Type 0
  Filed key [] = Unit
  Filed key ((k, l) ∷ d) = ((a : A) → In a l → key a ≡ k) × Filed key d

  snoc_key :
      (key : A → K) (k : K) (a b : A) (l : List A)
      → ((c : A) → In c l → key c ≡ k)
      → key a ≡ k
      → In b (l ++ a ∷ [])
      → key b ≡ k
  snoc_key key k a b l f p h = elim (In-append b l (a ∷ []) h) [
    | inl m ↦ f b m
    | inr m ↦ elim m [ inl q ↦ ap key q ∙ p | inr z ↦ elim z [ ] ]
  ]

  push-Filed :
      (key : A → K) (a : A) (d : Dict K (List A)) → Filed key d → Filed key (push (key a) a d)
  unfolding push
  push-Filed key a [] h = (λ b m. elim m [ inl q ↦ ap key q | inr z ↦ elim z [ ] ], tt)
  push-Filed key a ((j, l) ∷ d) h = elim (Bool-cases (key a == j)) [
    | inl hit ↦
        rw (hit, if◌then◌else◌) (λ b m. snoc_key key j a b l h.0 ((==_iff (key a) j).0 hit) m, h.1)
    | inr miss ↦ rw (miss, if◌then◌else◌) (h.0, push-Filed key a d h.1)
  ]

  pub group_into-Filed :
      (key : A → K) (d : Dict K (List A)) (xs : List A)
      → Filed key d
      → Filed key (group_into key d xs)
  unfolding group_into
  group_into-Filed key d [] h = h
  group_into-Filed key d (a ∷ xs) h =
      group_into-Filed key (push (key a) a d) xs (push-Filed key a d h)

module _ {K A : Type 0} ⦃e : Eq K⦄ where
  -- An item of a dictionary of lists stands in the list of one of its entries.
  pub In-items :
      (b : A) (d : Dict K (List A)) → In b (items d) → (p : K × List A) × In p d × In b p.1
  unfolding items
  In-items b [] h = elim h [ ]
  In-items b ((k, l) ∷ d) h = elim (In-append b l (items d) h) [
    | inl m ↦ ((k, l), inl refl, m)
    | inr m ↦ let (p, i, n) = In-items b d m in (p, inr i, n)
  ]

  pub In-items_of :
      (b : A) (d : Dict K (List A)) (p : K × List A) → In p d → In b p.1 → In b (items d)
  unfolding items
  In-items_of b ((k, l) ∷ d) p (inl q) m =
      In-append_left b l (items d) (subst (λ (r : K × List A). In b r.1) q m)
  In-items_of b ((k, l) ∷ d) p (inr i) m = In-append_right b l (items d) (In-items_of b d p i m)
  In-items_of b [] p i m = elim i [ ]
