-- ===== src/Pipeline/FairBatch.antt =====
-- ProcessingService._select_fair_batch: the newest articles, in turns of the sources.
use yasin_press_rewrite.Base.{
  ℕ, zero, suc, ◌+◌, ◌-◌, String, List, [], ◌∷◌, ◌++◌, none, some, leb, length, sort_by, Dict,
  group_into, string_eq,
}
use yasin_press_rewrite.Models.{Article, news_timestamp}

-- The sources, each with its articles that are left.
abbrev pub Buckets : Type 0
Buckets = Dict String (List Article)

-- get_sort_key: an article without a timestamp is the oldest.
unfoldable pub sort_key : Article → ℕ
sort_key a = elim (news_timestamp a) [ none ↦ 0 | some t ↦ t ]

unfoldable pub newest_first : List Article → List Article
unfolding sort_key
newest_first articles = sort_by (λ a b. leb (sort_key b) (sort_key a)) articles

-- One turn of the `for` loop, with `left` articles still to select: every source gives one, and an
-- empty source is deleted. The loop breaks when no article is left to select.
unfoldable pub turn : ℕ → Buckets → List Article × Buckets
turn zero buckets = ([], buckets)
turn (suc left) [] = ([], [])
turn (suc left) ((source, []) ∷ buckets) = turn (suc left) buckets
turn (suc left) ((source, a ∷ more) ∷ buckets) =
    let (given, rest) = turn left buckets in (a ∷ given, (source, more) ∷ rest)

-- The `while` loop, on fuel: the selected articles, and the state that it ends in.
unfoldable pub turns : ℕ → ℕ → Buckets → List Article × (ℕ × Buckets)
turns zero left buckets = ([], (left, buckets))
turns (suc fuel) zero buckets = ([], (zero, buckets))
turns (suc fuel) (suc left) [] = ([], (suc left, []))
turns (suc fuel) (suc left) (b ∷ buckets) =
    let (given, rest) = turn (suc left) (b ∷ buckets) in
    let (more, end) = turns fuel (suc left - length given) rest in (given ++ more, end)

-- The articles of the buckets and the buckets themselves, of which each turn takes one away.
unfoldable pub weight : Buckets → ℕ
weight [] = 0
weight ((source, articles) ∷ buckets) = length articles + 1 + weight buckets

-- The loop on the buckets of the articles.
unfoldable pub fair_turns : ℕ → List Article → List Article × (ℕ × Buckets)
unfolding newest_first turns weight
fair_turns limit articles =
    let buckets : Buckets = group_into (λ a. a.source) [] (newest_first articles) in
    turns (weight buckets) limit buckets

unfoldable pub select_fair_batch : ℕ → List Article → List Article
unfolding fair_turns
select_fair_batch limit articles = (fair_turns limit articles).0
