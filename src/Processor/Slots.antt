-- ===== src/Processor/Slots.antt =====
-- The bound on the articles that a cycle takes up.
use yasin_press_rewrite.Base.{
  ℕ, zero, suc, ◌+◌, ◌-◌, ◌≤◌, String, List, [], ◌∷◌, arith, length, length-append, Dict, put,
  string_eq,
}
use yasin_press_rewrite.Models.{PublicationJob}
use yasin_press_rewrite.Engine.Consumed.{count_of}
use yasin_press_rewrite.Processor.Select.{
  Sources, pick, picks, pick_levels, new_articles, priorities, load, select_new_articles,
}

module _ (limit : ℕ) (base : Dict String ℕ) where
  length-pick :
      (left : ℕ) (active : Sources) (counts : Dict String ℕ)
      → length (pick limit base left active counts).given ≤ left
  unfolding pick
  length-pick zero active counts = omega arith
  length-pick (suc left) [] counts = omega arith
  length-pick (suc left) ((source, []) ∷ active) counts = length-pick (suc left) active counts
  length-pick (suc left) ((source, id ∷ ids) ∷ active) counts = ground (
    arith,
    length-pick (suc left) active counts,
    length-pick left active (put source (count_of source counts + 1) counts),
  )

  length-picks :
      (fuel left : ℕ) (active : Sources) (counts : Dict String ℕ)
      → length (picks fuel limit base left active counts).0 ≤ left
  unfolding picks
  length-picks zero left active counts = omega arith
  length-picks (suc fuel) zero active counts = omega arith
  length-picks (suc fuel) (suc left) [] counts = omega arith
  length-picks (suc fuel) (suc left) (s ∷ active) counts =
      let t = pick limit base (suc left) (s ∷ active) counts in
      omega (
        arith,
        length-pick (suc left) (s ∷ active) counts,
        length-picks fuel (suc left - length t.given) t.active t.counts,
        length-append t.given
            (picks fuel limit base (suc left - length t.given) t.active t.counts).0,
      )

  length-pick_levels :
      (left : ℕ) (levels : List Sources) (counts : Dict String ℕ)
      → length (pick_levels limit base left levels counts) ≤ left
  unfolding pick_levels
  length-pick_levels left [] counts = omega arith
  length-pick_levels left (sources ∷ rest) counts =
      let (ids, after) = picks (load sources) limit base left sources counts in
      omega (
        arith,
        length-picks (load sources) left sources counts,
        length-pick_levels (left - length ids) rest after,
        length-append ids (pick_levels limit base (left - length ids) rest after),
      )

  -- A cycle selects at most as many new articles as there are slots.
  pub length-select_new_articles :
      (eligible : List PublicationJob) (published : List String) (available : ℕ)
      → length (select_new_articles limit eligible published base available) ≤ available
  unfolding select_new_articles
  length-select_new_articles eligible published available =
      length-pick_levels available (priorities (new_articles eligible published)) []
