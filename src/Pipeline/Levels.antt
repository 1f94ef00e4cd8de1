-- ===== src/Pipeline/Levels.antt =====
-- The levels of calculate_priority as process reads them.
use yasin_press_rewrite.Base.{
  ℕ, ◌≡◌, refl, String, Bool, true, false, ◌||◌, ltb, leb, ◌==◌, string_eq, nat_eq, if◌then◌else◌,
}
use yasin_press_rewrite.Models.{Article}
use yasin_press_rewrite.Pipeline.Queueing.{Signals, calculate_priority, queue_priority}

abbrev level_if : Bool → Bool → Bool → String
level_if x y z =
    if x then "breaking" else if y then "urgent" else if z then "important" else "normal"

-- Only breaking news has a priority of its own in the queue: whatever level calculate_priority
-- gives, every other article is queued as normal.
pub queue_priority-calculate_priority :
    (signals : Signals) (a : Article) (b : Bool)
    → queue_priority b (calculate_priority signals a)
      ≡ (if b then ("breaking", 40) else ("normal", 10))
unfolding queue_priority calculate_priority
queue_priority-calculate_priority signals a b =
    by_level (calculate_priority signals a).score
      (signals.says_breaking a || leb 2 (signals.high_hits a)) (signals.high_hits a == 1)
      (ltb 0 (signals.medium_hits a)) b
  where
    by_level :
        (n : ℕ) (x y z b : Bool)
        → queue_priority b (record { score = n; level = level_if x y z })
          ≡ (if b then ("breaking", 40) else ("normal", 10))
    by_level n x y z true = refl
    by_level n true y z false = refl
    by_level n false true z false = refl
    by_level n false false true false = refl
    by_level n false false false false = refl
