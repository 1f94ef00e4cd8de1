-- ===== src/Database/Table.antt =====
-- Rows of a table, and the statement that inserts a row or updates the one it conflicts with.
use yasin_press_rewrite.Base.{
  Bool, true, false, List, [], ◌∷◌, none, some, ◌≡◌, ◌⊎◌, inl, inr, if◌then◌else◌, In, arith, refl,
  first, Bool-cases, Eq, ◌==◌, ==_iff, map, add, contains, Distinct, contains-map_of, ap, ==_refl,
}

module _ {A : Type 0} where
  -- `same old row`: the row conflicts with `old`; `merge old row`: what `DO UPDATE SET` makes of it.
  unfoldable pub upsert : (A → A → Bool) → (A → A → A) → A → List A → List A
  upsert same merge row [] = row ∷ []
  upsert same merge row (old ∷ rows) =
      if same old row then merge old row ∷ rows else old ∷ upsert same merge row rows

  -- Where a row of the table comes from: the old rows, the new one, or an update.
  abbrev pub Origin : (A → A → Bool) → (A → A → A) → A → List A → A → Type 0
  Origin same merge row rows a =
      In a rows
      ⊎ ((a ≡ row) ⊎ ((old : A) × In old rows × (same old row ≡ true) × (a ≡ merge old row)))

  Origin-cons :
      (same : A → A → Bool) (merge : A → A → A) (row old a : A) (rows : List A)
      → Origin same merge row rows a
      → Origin same merge row (old ∷ rows) a
  Origin-cons same merge row old a rows (inl h) = inl (inr h)
  Origin-cons same merge row old a rows (inr (inl h)) = inr (inl h)
  Origin-cons same merge row old a rows (inr (inr (o, i, s, m))) = inr (inr (o, inr i, s, m))

  pub In-upsert :
      (same : A → A → Bool) (merge : A → A → A) (row a : A) (rows : List A)
      → In a (upsert same merge row rows)
      → Origin same merge row rows a
  unfolding upsert
  In-upsert same merge row a [] (inl e) = inr (inl e)
  In-upsert same merge row a [] (inr h) = elim h [ ]
  In-upsert same merge row a (old ∷ rows) h = elim (Bool-cases (same old row)) [
    | inl hit ↦ elim (rw (hit, if◌then◌else◌) at h) [
      | inl e ↦ inr (inr (old, inl refl, hit, e))
      | inr m ↦ inl (inr m)
    ]
    | inr miss ↦ elim (rw (miss, if◌then◌else◌) at h) [
      | inl e ↦ inl (inl e)
      | inr m ↦ Origin-cons same merge row old a rows (In-upsert same merge row a rows m)
    ]
  ]

  -- A search that finds exactly the rows that conflict with `row` finds what the upsert wrote.
  pub first-upsert_self :
      (same : A → A → Bool) (merge : A → A → A) (test : A → Bool) (row : A)
      → ((o : A) → test o ≡ same o row)
      → test row ≡ true
      → ((o : A) → same o row ≡ true → test (merge o row) ≡ true)
      → (rows : List A)
      → first test (upsert same merge row rows)
        ≡ some (elim (first test rows) [ none ↦ row | some old ↦ merge old row ])
  unfolding upsert first
  first-upsert_self same merge test row agree self keep [] = ground (arith, self)
  first-upsert_self same merge test row agree self keep (o ∷ rows) =
      ground (arith, agree o, keep o, first-upsert_self same merge test row agree self keep rows)

  -- A search that finds none of the rows that conflict with `row` is not changed.
  pub first-upsert_other :
      (same : A → A → Bool) (merge : A → A → A) (test : A → Bool) (row : A)
      → test row ≡ false
      → ((o : A) → same o row ≡ true → (test o ≡ false) × (test (merge o row) ≡ false))
      → (rows : List A) → first test (upsert same merge row rows) ≡ first test rows
  unfolding upsert first
  first-upsert_other same merge test row self keep [] = ground arith
  first-upsert_other same merge test row self keep (o ∷ rows) =
      ground (arith, keep o, first-upsert_other same merge test row self keep rows)

  -- The keys of the table: an upsert adds the row's key, and keeps the order of the others.
  module _ {K : Type 0} ⦃e : Eq K⦄ (key : A → K) (same : A → A → Bool) (merge : A → A → A) (row : A)
      (agree : (o : A) → same o row ≡ (key row == key o))
      (kept : (o : A) → key (merge o row) ≡ key o) where
    pub map-upsert :
        (rows : List A) → map key (upsert same merge row rows) ≡ add (key row) (map key rows)
    unfolding upsert add contains
    map-upsert [] = refl
    map-upsert (o ∷ rows) = ground (arith, agree o, kept o, map-upsert rows)

module _ {A K : Type 0} ⦃e : Eq K⦄ (key : A → K) where
  -- In a table with distinct keys a row is found by its key.
  pub first-key :
      (a : A) (rows : List A)
      → Distinct (map key rows)
      → In a rows
      → first (λ r. key r == key a) rows ≡ some a
  unfolding first contains
  first-key a [] d h = elim h [ ]
  first-key a (o ∷ rows) d (inl h) = rw (h, ==_refl (key o)) refl
  first-key a (o ∷ rows) d (inr h) = ground (
    arith,
    contains-map_of key (key a) a rows h refl,
    first-key a rows d.1 h,
    ==_iff (key o) (key a),
    ap (λ (k : K). contains k (map key rows)),
  )

  -- Two rows with one key are one row.
  pub unique_row :
      (a b : A) (rows : List A)
      → Distinct (map key rows)
      → In a rows
      → In b rows
      → key a ≡ key b
      → a ≡ b
  unique_row a b rows d ha hb h =
      cc (
        first-key a rows d ha,
        first-key b rows d hb,
        ap (λ (k : K). first (λ r. key r == k) rows) h,
      )
