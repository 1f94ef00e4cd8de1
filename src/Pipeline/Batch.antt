-- ===== src/Pipeline/Batch.antt =====
-- The size of a fair batch.
use yasin_press_rewrite.Base.{
  ℕ, zero, suc, ◌+◌, ◌-◌, ◌≤◌, ◌<◌, ◌≡◌, ◌⊎◌, inl, inr, refl, String, List, [], ◌∷◌, ◌++◌, arith,
  min, length, length-append, length-sort_by, group_into, push, string_eq, items,
}
use yasin_press_rewrite.Models.{Article}
use yasin_press_rewrite.Pipeline.FairBatch.{
  Buckets, newest_first, turn, turns, weight, fair_turns, select_fair_batch,
}

-- A turn hands out articles of the buckets, stops at the limit, and takes weight away.
turn-weight :
    (left : ℕ) (buckets : Buckets)
    → (length (turn left buckets).0 ≤ left)
      × (length (turn left buckets).0 + length (items (turn left buckets).1)
          ≡ length (items buckets))
      × (weight (turn left buckets).1 + length (turn left buckets).0 ≤ weight buckets)
unfolding turn weight items
turn-weight zero buckets = (omega arith, omega arith, omega arith)
turn-weight (suc left) [] = (omega arith, omega arith, omega arith)
turn-weight (suc left) ((source, []) ∷ buckets) =
    let (a, b, c) = turn-weight (suc left) buckets in (a, b, omega (arith, c))
turn-weight (suc left) ((source, x ∷ more) ∷ buckets) =
    let (a, b, c) = turn-weight left buckets in
    (
      omega (arith, a),
      omega (
        arith,
        b,
        length-append more (items (turn left buckets).1),
        length-append more (items buckets),
      ),
      omega (arith, c),
    )

turn-less :
    (left : ℕ) (b : String × List Article) (buckets : Buckets)
    → weight (turn (suc left) (b ∷ buckets)).1 < weight (b ∷ buckets)
unfolding turn weight
turn-less left (source, []) buckets =
    let (a, b, c) = turn-weight (suc left) buckets in omega (arith, c)
turn-less left (source, x ∷ more) buckets =
    let (a, b, c) = turn-weight left buckets in omega (arith, c)

-- The test of the loop is false.
abbrev pub IsOver : ℕ × Buckets → Type 0
IsOver (left, buckets) = (left ≡ 0) ⊎ (buckets ≡ [])

-- Fuel of the weight is enough for the loop to end by itself.
turns-IsOver :
    (fuel left : ℕ) (buckets : Buckets)
    → weight buckets ≤ fuel
    → IsOver (turns fuel left buckets).1
      × (length (turns fuel left buckets).0 ≡ min left (length (items buckets)))
unfolding turns weight items
turns-IsOver zero left [] h = (inr refl, omega arith)
turns-IsOver zero left ((source, articles) ∷ buckets) h = absurd (omega (arith, h))
turns-IsOver (suc fuel) zero buckets h = (inl refl, omega arith)
turns-IsOver (suc fuel) (suc left) [] h = (inr refl, omega arith)
turns-IsOver (suc fuel) (suc left) (b ∷ buckets) h =
    let (given, kept, lighter) = turn-weight (suc left) (b ∷ buckets) in
    let (over, count) =
      turns-IsOver fuel (suc left - length (turn (suc left) (b ∷ buckets)).0)
        (turn (suc left) (b ∷ buckets)).1 (omega (arith, h, turn-less left b buckets)) in
    (
      over,
      omega (
        arith,
        given,
        kept,
        length-append (turn (suc left) (b ∷ buckets)).0
            (turns fuel (suc left - length (turn (suc left) (b ∷ buckets)).0)
              (turn (suc left) (b ∷ buckets)).1).0,
        count,
      ),
    )

length-push :
    (k : String) (a : Article) (d : Buckets) → length (items (push k a d)) ≡ suc (length (items d))
unfolding push items
length-push k a [] = omega arith
length-push k a ((j, l) ∷ d) = ground (
  arith,
  length-push k a d,
  length-append l (items d),
  length-append l (a ∷ []),
  length-append (l ++ a ∷ []) (items d),
  length-append l (items (push k a d)),
)

length-group_into :
    (key : Article → String) (d : Buckets) (articles : List Article)
    → length (items (group_into key d articles)) ≡ length (items d) + length articles
unfolding group_into
length-group_into key d [] = omega arith
length-group_into key d (a ∷ articles) =
    omega (arith, length-group_into key (push (key a) a d) articles, length-push (key a) a d)

-- The loop of the fair batch ends by itself, with as many articles selected as the limit or no
-- source left, and the batch holds as many articles as there are, up to the limit.
pub length-select_fair_batch :
    (limit : ℕ) (articles : List Article)
    → IsOver (fair_turns limit articles).1
      × (length (select_fair_batch limit articles) ≡ min limit (length articles))
unfolding select_fair_batch fair_turns newest_first items
length-select_fair_batch limit articles =
    let grouped : Buckets = group_into (λ (a : Article). a.source) [] (newest_first articles) in
    let (over, count) = turns-IsOver (weight grouped) limit grouped (omega arith) in
    (
      over,
      omega (
        arith,
        count,
        length-group_into (λ (a : Article). a.source) [] (newest_first articles),
        length-sort_by _ articles,
      ),
    )
