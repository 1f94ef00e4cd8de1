-- ===== src/Pipeline/Similar.antt =====
-- compare_title of processing/duplicates.py. The normalized text of a title and the similarity of two texts are
-- parameters; a similarity is a number of equal parts of one.
use yasin_press_rewrite.Base.{
  ◌⊎◌, ◌↔◌, sym, ◌∙◌, ℕ, suc, ◌≤◌, String, Bool, true, false, List, [], ◌∷◌, Option, none, some,
  ltb, leb, arith, In, inl, inr, ap, ◌==◌, string_eq, if◌then◌else◌, ◌≡◌, refl,
}

pub record DuplicateMatch : Type 0 where
  pub is_duplicate : Bool
  pub score : ℕ
  pub matched_index : Option ℕ

module _ (normalize : String → String) (ratio : String → String → ℕ) (threshold : ℕ) where
  -- One round of the loop.
  unfoldable pub better : String → String → ℕ → ℕ × Option ℕ → ℕ × Option ℕ
  better title existing index best =
      if normalize existing == ""
      then best
      else if ltb best.0 (ratio title (normalize existing))
      then (ratio title (normalize existing), some index)
      else best

  -- The loop over the titles from the `index`-th on.
  unfoldable pub best_match : String → List String → ℕ → ℕ × Option ℕ → ℕ × Option ℕ
  unfolding better
  best_match title [] index best = best
  best_match title (existing ∷ titles) index best =
      best_match title titles (suc index) (better title existing index best)

  unfoldable pub compare_title : String → List String → DuplicateMatch
  unfolding best_match
  compare_title title titles =
      if normalize title == ""
      then record { is_duplicate = false; score = 0; matched_index = none }
      else (let (score, at) = best_match (normalize title) titles 0 (0, none) in
          record { is_duplicate = leb threshold score; score = score; matched_index = at })

  better-grows :
      (title existing : String) (index : ℕ) (best : ℕ × Option ℕ)
      → best.0 ≤ (better title existing index best).0
  unfolding better
  better-grows title existing index best = ground arith

  better-covers :
      (title existing : String) (index : ℕ) (best : ℕ × Option ℕ)
      → (normalize existing == "") ≡ false
      → ratio title (normalize existing) ≤ (better title existing index best).0
  unfolding better
  better-covers title existing index best h = ground arith

  -- A title that is not blank, whose similarity reaches the score.
  abbrev pub Reaches : String → ℕ → List String → Type 0
  Reaches title score titles =
      (x : String) × In x titles
      × ((normalize x == "") ≡ false)
      × (score ≤ ratio title (normalize x))

  better-from :
      (title existing : String) (index : ℕ) (best : ℕ × Option ℕ)
      → ((better title existing index best).0 ≡ best.0)
        ⊎ (((normalize existing == "") ≡ false)
            × ((better title existing index best).0 ≤ ratio title (normalize existing)))
  unfolding better
  better-from title existing index best =
      by_tests (normalize existing == "") (ltb best.0 (ratio title (normalize existing))) refl
    where
      by_tests :
          (p q : Bool)
          → (normalize existing == "") ≡ p
          → ((if p
                then best
                else if q
                then (ratio title (normalize existing), some index)
                else best).0
              ≡ best.0)
            ⊎ ((p ≡ false)
                × ((if p
                      then best
                      else if q
                      then (ratio title (normalize existing), some index)
                      else best).0
                    ≤ ratio title (normalize existing)))
      by_tests true q e = inl refl
      by_tests false true e = inr (refl, omega arith)
      by_tests false false e = inl refl

  best_match-grows :
      (title : String) (titles : List String) (index : ℕ) (best : ℕ × Option ℕ)
      → best.0 ≤ (best_match title titles index best).0
  unfolding best_match
  best_match-grows title [] index best = omega arith
  best_match-grows title (existing ∷ titles) index best = omega (
    arith,
    better-grows title existing index best,
    best_match-grows title titles (suc index) (better title existing index best),
  )

  best_match-covers :
      (title : String) (titles : List String) (index : ℕ) (best : ℕ × Option ℕ) (x : String)
      → In x titles
      → (normalize x == "") ≡ false
      → ratio title (normalize x) ≤ (best_match title titles index best).0
  unfolding best_match
  best_match-covers title [] index best x m h = absurd m
  best_match-covers title (existing ∷ titles) index best x (inl e) h = rw e (
      omega (
        arith,
        better-covers title existing index best (ap (λ y. normalize y == "") (sym e) ∙ h),
        best_match-grows title titles (suc index) (better title existing index best),
      ))
  best_match-covers title (existing ∷ titles) index best x (inr m) h =
      best_match-covers title titles (suc index) (better title existing index best) x m h

  best_match-from :
      (title : String) (titles : List String) (index : ℕ) (best : ℕ × Option ℕ)
      → ((best_match title titles index best).0 ≡ best.0)
        ⊎ Reaches title (best_match title titles index best).0 titles
  unfolding best_match
  best_match-from title [] index best = inl refl
  best_match-from title (existing ∷ titles) index best =
      elim (best_match-from title titles (suc index) (better title existing index best)) [
        | inr (x, m, h, r) ↦ inr (x, inr m, h, r)
        | inl e ↦ elim (better-from title existing index best) [
          | inl f ↦ inl (e ∙ f)
          | inr (h, r) ↦ inr (existing, inl refl, h, omega (arith, e, r))
        ]
      ]

  -- With a positive threshold, a title that is not blank is a near duplicate exactly if one of the
  -- given titles that are not blank has a similarity to it of the threshold at least.
  pub compare_title-Reaches :
      (title : String) (titles : List String)
      → 1 ≤ threshold
      → (normalize title == "") ≡ false
      → ((compare_title title titles).is_duplicate ≡ true)
        ↔ Reaches (normalize title) threshold titles
  unfolding compare_title
  compare_title-Reaches title titles positive shown = rw (shown, if◌then◌else◌) (to, back)
    where
      to :
          leb threshold (best_match (normalize title) titles 0 (0, none)).0 ≡ true
          → Reaches (normalize title) threshold titles
      to e = elim (best_match-from (normalize title) titles 0 (0, none)) [
        | inl z ↦ absurd (ground (arith, e, z, positive))
        | inr (x, m, h, r) ↦ (x, m, h, ground (arith, e, r))
      ]

      back :
          Reaches (normalize title) threshold titles
          → leb threshold (best_match (normalize title) titles 0 (0, none)).0 ≡ true
      back (x, m, h, r) =
          ground (arith, r, best_match-covers (normalize title) titles 0 (0, none) x m h)
