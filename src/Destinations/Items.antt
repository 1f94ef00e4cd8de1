-- ===== src/Destinations/Items.antt =====
-- The items of a feed file: a new one goes to the head, and the file holds the first `max_items`.
use yasin_press_rewrite.Base.{
  ℕ, zero, suc, ◌≡◌, refl, ap, sym, inl, inr, String, false, not, List, [], ◌∷◌, arith, take, map,
  select, contains, Distinct, string_eq, ◌==◌, ==_iff, ==_refl, ◌&&◌, if◌then◌else◌, Bool-cases,
}

module _ {A : Type 0} (key : A → String) where
  -- `items = [item for item in items if item.id != new.id]; items.insert(0, new)`
  unfoldable pub insert_item : A → List A → List A
  insert_item new items = new ∷ select (λ old. not (key old == key new)) items

  abbrev others : String → List A → List A
  others k items = select (λ old. not (key old == k)) items

  others-absent :
      (k : String) (items : List A) → contains k (map key items) ≡ false → others k items ≡ items
  unfolding select contains
  others-absent k [] h = refl
  others-absent k (x ∷ items) h =
      ground (arith, ==_iff k (key x), ==_iff (key x) k, others-absent k items)

  others-take :
      (k : String) (n : ℕ) (items : List A)
      → contains k (map key items) ≡ false
      → others k (take n items) ≡ take n items
  unfolding select contains
  others-take k zero items h = refl
  others-take k (suc n) [] h = refl
  others-take k (suc n) (x ∷ items) h =
      ground (arith, ==_iff k (key x), ==_iff (key x) k, others-take k n items)

  take-take : (n : ℕ) (items : List A) → take n (take n items) ≡ take n items
  take-take zero items = refl
  take-take (suc n) [] = refl
  take-take (suc n) (x ∷ items) = ap (λ l. x ∷ l) (take-take n items)

  take-others :
      (k : String) (n : ℕ) (items : List A)
      → Distinct (map key items)
      → take n (others k (take (suc n) items)) ≡ take n (others k items)
  unfolding select
  take-others k zero items d = refl
  take-others k (suc n) [] d = refl
  take-others k (suc n) (x ∷ items) d = elim (Bool-cases (key x == k)) [
    | inl hit ↦
        let gone : contains k (map key items) ≡ false = rw (sym ((==_iff (key x) k).0 hit)) d.0 in
        rw (hit, if◌then◌else◌, others-take k (suc n) items gone, others-absent k items gone)
          (take-take (suc n) items)
    | inr miss ↦ rw (miss, if◌then◌else◌) (ap (λ l. x ∷ l) (take-others k n items d.1))
  ]

  -- Cutting the list off before an insertion loses nothing that the file would hold after it.
  pub take-insert_item :
      (n : ℕ) (new : A) (items : List A)
      → Distinct (map key items)
      → take n (insert_item new (take n items)) ≡ take n (insert_item new items)
  unfolding insert_item
  take-insert_item zero new items d = refl
  take-insert_item (suc n) new items d = ap (λ l. new ∷ l) (take-others (key new) n items d)

  contains-others :
      (k j : String) (items : List A)
      → contains j (map key (others k items)) ≡ (contains j (map key items) && not (j == k))
  unfolding select contains
  contains-others k j [] = refl
  contains-others k j (x ∷ items) =
      ground (arith, contains-others k j items, ==_iff j (key x), ==_iff (key x) k, ==_iff j k)

  others-Distinct :
      (k : String) (items : List A) → Distinct (map key items) → Distinct (map key (others k items))
  unfolding select
  others-Distinct k [] d = tt
  others-Distinct k (x ∷ items) d =
      ground (arith, others-Distinct k items d.1, contains-others k (key x) items, d.0)

  pub insert_item-Distinct :
      (new : A) (items : List A)
      → Distinct (map key items)
      → Distinct (map key (insert_item new items))
  unfolding insert_item
  insert_item-Distinct new items d = (
    rw (contains-others (key new) (key new) items, ==_refl (key new)) (ground arith),
    others-Distinct (key new) items d,
  )

  -- What was published, the newest first and each key once.
  unfoldable pub newest : List A → List A → List A
  newest [] items = items
  newest (new ∷ more) items = newest more (insert_item new items)
