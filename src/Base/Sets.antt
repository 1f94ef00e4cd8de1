-- ===== src/Base/Sets.antt =====
-- Python's sets, as lists without repetition in the order of insertion.
use Prim.Native.Nat.{◌+◌, ◌≤◌}
use mathlib.Core.Path.{◌≡◌, refl, ap, ◌∙◌}
use mathlib.Core.Logic.{inl, inr}
use mathlib.Core.Bool.{Bool, true, false, ◌||◌}
use mathlib.Core.List.{List, [], ◌∷◌, ◌++◌, map}
use native.Mathlib.Omega.{arith}
use package.yasin_press_rewrite.Base.Tests.{Eq, ◌==◌, ==_iff, ==_refl, if◌then◌else◌, or-true}
use package.yasin_press_rewrite.Base.Lists.{length, length-append, In}

module _ {A : Type 0} ⦃e : Eq A⦄ where
  -- `a in s`
  unfoldable pub contains : A → List A → Bool
  contains a [] = false
  contains a (x ∷ xs) = (a == x) || contains a xs

  -- `s.add(a)`
  unfoldable pub add : A → List A → List A
  add a s = if contains a s then s else s ++ a ∷ []

  -- `s | t`
  unfoldable pub union : List A → List A → List A
  union s [] = s
  union s (a ∷ t) = union (add a s) t

  -- `{x for x in xs}`
  unfoldable pub to_set : List A → List A
  to_set xs = union [] xs

  abbrev pub Distinct : List A → Type 0
  Distinct [] = Unit
  Distinct (x ∷ xs) = (contains x xs ≡ false) × Distinct xs

  pub contains-append :
      (a : A) (s t : List A) → contains a (s ++ t) ≡ (contains a s || contains a t)
  unfolding contains
  contains-append a [] t = refl
  contains-append a (x ∷ s) t = ground (arith, contains-append a s t)

  pub contains-add : (b a : A) (s : List A) → contains b (add a s) ≡ (contains b s || (b == a))
  unfolding add contains
  contains-add b a s = ground (arith, contains-append b s (a ∷ []), ==_iff b a)

  pub contains-union :
      (b : A) (s t : List A) → contains b (union s t) ≡ (contains b s || contains b t)
  unfolding union contains
  contains-union b s [] = ground arith
  contains-union b s (a ∷ t) = ground (arith, contains-union b (add a s) t, contains-add b a s)

  pub contains-to_set : (b : A) (xs : List A) → contains b (to_set xs) ≡ contains b xs
  unfolding to_set contains
  contains-to_set b xs = contains-union b [] xs

  Distinct-snoc : (a : A) (s : List A) → contains a s ≡ false → Distinct s → Distinct (s ++ a ∷ [])
  unfolding contains
  Distinct-snoc a [] h d = (refl, tt)
  Distinct-snoc a (x ∷ s) h d =
      ground (arith, Distinct-snoc a s, contains-append x s (a ∷ []), ==_iff a x, ==_iff x a)

  pub Distinct-add : (a : A) (s : List A) → Distinct s → Distinct (add a s)
  unfolding add
  Distinct-add a s d = ground (arith, Distinct-snoc a s)

  pub Distinct-union : (s t : List A) → Distinct s → Distinct (union s t)
  unfolding union
  Distinct-union s [] d = d
  Distinct-union s (a ∷ t) d = Distinct-union (add a s) t (Distinct-add a s d)

  pub Distinct-to_set : (xs : List A) → Distinct (to_set xs)
  unfolding to_set
  Distinct-to_set xs = Distinct-union [] xs tt

  pub length-add :
      (a : A) (s : List A) → length (add a s) ≡ (if contains a s then length s else length s + 1)
  unfolding add
  length-add a s = ground (arith, length-append s (a ∷ []))

  pub length-union : (s t : List A) → length (union s t) ≤ length s + length t
  unfolding union
  length-union s [] = omega arith
  length-union s (a ∷ t) = ground (arith, length-union (add a s) t, length-add a s)

  unfoldable pub discard : A → List A → List A
  discard a [] = []
  discard a (x ∷ xs) = if a == x then xs else x ∷ discard a xs

  length-discard : (a : A) (s : List A) → contains a s ≡ true → length (discard a s) + 1 ≡ length s
  unfolding discard contains
  length-discard a [] h = ground arith
  length-discard a (x ∷ s) h = ground (arith, length-discard a s)

  contains-discard :
      (b a : A) (s : List A)
      → contains b s ≡ true
      → (b == a) ≡ false
      → contains b (discard a s) ≡ true
  unfolding discard contains
  contains-discard b a [] h n = ground arith
  contains-discard b a (x ∷ s) h n =
      ground (arith, contains-discard b a s, ==_iff b x, ==_iff a x, ==_iff b a)

  -- Another element of `s` is in `t` after `x` is discarded.
  subset-discard :
      (x a : A) (s t : List A)
      → contains x s ≡ false
      → contains a s ≡ true
      → contains a t ≡ true
      → contains a (discard x t) ≡ true
  subset-discard x a s t out inside h =
      contains-discard a x t h (ground (arith, ==_iff a x, ap (λ (y : A). contains y s)))

  -- A set inside another has no more elements.
  pub length-le_of_subset :
      (s t : List A)
      → Distinct s
      → ((a : A) → contains a s ≡ true → contains a t ≡ true)
      → length s ≤ length t
  unfolding contains
  length-le_of_subset [] t d h = omega arith
  length-le_of_subset (x ∷ s) t d h = omega (
    arith,
    length-discard x t (h x (rw (==_refl x) refl)),
    length-le_of_subset s (discard x t) d.1
        λ a m. subset-discard x a s t d.0 m (h a (ground arith)),
  )

module _ {A K : Type 0} ⦃e : Eq K⦄ (key : A → K) where
  pub contains-map :
      (k : K) (xs : List A) → contains k (map key xs) ≡ true → (x : A) × In x xs × (k ≡ key x)
  unfolding contains
  contains-map k [] h = absurd (ground arith)
  contains-map k (x ∷ xs) h = elim (or-true (k == key x) (contains k (map key xs)) h) [
    | inl p ↦ (x, inl refl, (==_iff k (key x)).0 p)
    | inr q ↦ let (y, i, p) = contains-map k xs q in (y, inr i, p)
  ]

  pub contains-map_of :
      (k : K) (x : A) (xs : List A) → In x xs → k ≡ key x → contains k (map key xs) ≡ true
  unfolding contains
  contains-map_of k x [] i p = elim i [ ]
  contains-map_of k x (y ∷ xs) (inl q) p = rw ((==_iff k (key y)).1 (p ∙ ap key q)) refl
  contains-map_of k x (y ∷ xs) (inr i) p = rw (contains-map_of k x xs i p) (ground arith)
