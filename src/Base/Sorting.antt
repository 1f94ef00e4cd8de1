-- ===== src/Base/Sorting.antt =====
-- Stable sorting by a key, and dictionaries as association lists in the order of insertion.
use Prim.Native.Nat.{◌+◌}
use mathlib.Core.Path.{◌≡◌, refl}
use mathlib.Core.Logic.{◌⊎◌, inl, inr}
use mathlib.Core.Bool.{Bool}
use mathlib.Core.Option.{Option, none, some}
use mathlib.Core.List.{List, [], ◌∷◌, ◌++◌}
use native.Mathlib.Omega.{arith}
use package.yasin_press_rewrite.Base.Tests.{Eq, ◌==◌, ==_iff, if◌then◌else◌}
use package.yasin_press_rewrite.Base.Lists.{length, In}

module _ {A : Type 0} where
  -- `before x y`: x goes in front of an equal or later y that stands behind it.
  unfoldable pub insert_by : (A → A → Bool) → A → List A → List A
  insert_by before x [] = x ∷ []
  insert_by before x (y ∷ ys) = if before x y then x ∷ y ∷ ys else y ∷ insert_by before x ys

  unfoldable pub sort_by : (A → A → Bool) → List A → List A
  unfolding insert_by
  sort_by before [] = []
  sort_by before (x ∷ xs) = insert_by before x (sort_by before xs)

  pub In-insert_by :
      (before : A → A → Bool) (a x : A) (xs : List A)
      → In a (insert_by before x xs)
      → (a ≡ x) ⊎ In a xs
  unfolding insert_by
  In-insert_by before a x [] h = h
  In-insert_by before a x (y ∷ ys) h = ground (arith, In-insert_by before a x ys)

  pub In-sort_by :
      (before : A → A → Bool) (a : A) (xs : List A) → In a (sort_by before xs) → In a xs
  unfolding sort_by
  In-sort_by before a [] h = h
  In-sort_by before a (x ∷ xs) h = elim (In-insert_by before a x (sort_by before xs) h) [
    | inl e ↦ inl e
    | inr m ↦ inr (In-sort_by before a xs m)
  ]

  pub In-insert_by_of :
      (before : A → A → Bool) (a x : A) (xs : List A)
      → (a ≡ x) ⊎ In a xs
      → In a (insert_by before x xs)
  unfolding insert_by
  In-insert_by_of before a x [] h = h
  In-insert_by_of before a x (y ∷ ys) h = ground (arith, In-insert_by_of before a x ys)

  pub In-sort_by_of :
      (before : A → A → Bool) (a : A) (xs : List A) → In a xs → In a (sort_by before xs)
  unfolding sort_by
  In-sort_by_of before a [] h = h
  In-sort_by_of before a (x ∷ xs) (inl e) = In-insert_by_of before a x (sort_by before xs) (inl e)
  In-sort_by_of before a (x ∷ xs) (inr m) =
      In-insert_by_of before a x (sort_by before xs) (inr (In-sort_by_of before a xs m))

  pub length-insert_by :
      (before : A → A → Bool) (x : A) (xs : List A) → length (insert_by before x xs) ≡ length xs + 1
  unfolding insert_by
  length-insert_by before x [] = omega arith
  length-insert_by before x (y ∷ ys) = ground (arith, length-insert_by before x ys)

  pub length-sort_by :
      (before : A → A → Bool) (xs : List A) → length (sort_by before xs) ≡ length xs
  unfolding sort_by
  length-sort_by before [] = refl
  length-sort_by before (x ∷ xs) =
      omega (arith, length-insert_by before x (sort_by before xs), length-sort_by before xs)

-- A Python dictionary: keys in the order of their first insertion.
abbrev pub Dict : Type 0 → Type 0 → Type 0
Dict K V = List (K × V)

module _ {K V : Type 0} ⦃e : Eq K⦄ where
  -- `d.get(k)`
  unfoldable pub lookup : K → Dict K V → Option V
  lookup k [] = none
  lookup k ((j, v) ∷ d) = if k == j then some v else lookup k d

  -- `d[k] = v`
  unfoldable pub put : K → V → Dict K V → Dict K V
  put k v [] = (k, v) ∷ []
  put k v ((j, w) ∷ d) = if k == j then (j, v) ∷ d else (j, w) ∷ put k v d

  pub lookup-put :
      (i k : K) (v : V) (d : Dict K V)
      → lookup i (put k v d) ≡ (if i == k then some v else lookup i d)
  unfolding lookup put
  lookup-put i k v [] = refl
  lookup-put i k v ((j, w) ∷ d) =
      ground (arith, lookup-put i k v d, ==_iff i j, ==_iff k j, ==_iff i k)

module _ {K A : Type 0} ⦃e : Eq K⦄ where
  -- `d.setdefault(k, []).append(a)`
  unfoldable pub push : K → A → Dict K (List A) → Dict K (List A)
  push k a [] = (k, a ∷ []) ∷ []
  push k a ((j, l) ∷ d) = if k == j then (j, l ++ a ∷ []) ∷ d else (j, l) ∷ push k a d

  unfoldable pub group_into : (A → K) → Dict K (List A) → List A → Dict K (List A)
  group_into key d [] = d
  group_into key d (a ∷ xs) = group_into key (push (key a) a d) xs

  -- All the items of the groups, group by group.
  unfoldable pub items : Dict K (List A) → List A
  items [] = []
  items ((k, l) ∷ d) = l ++ items d
