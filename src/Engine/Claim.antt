-- ===== src/Engine/Claim.antt =====
-- The second half of claim_next: which eligible job is taken, and how it is leased.
use mathlib.Core.List.{reverse}
use yasin_press_rewrite.Base.{
  ℕ, ◌+◌, String, Bool, ◌&&◌, List, [], ◌∷◌, ◌++◌, Option, none, some, ◌==◌, string_eq, nat_eq,
  if◌then◌else◌, ltb, leb, first, contains, sort_by, Dict, group_into, items, some_and, none_or,
}
use yasin_press_rewrite.Models.{Instant, PublicationJob, DeliveryRecord, processing}
use yasin_press_rewrite.Database.{Db}
use yasin_press_rewrite.Database.Queue.{get_eligible_jobs, put_progress}
use yasin_press_rewrite.Engine.Config.{QueueConfig}
use yasin_press_rewrite.Engine.Consumed.{
  recent_successes, consumed, available_slots, source_counts, count_of,
}

-- One priority: the sources in the order of their first job, each with its jobs by age.
abbrev pub Level : Type 0
Level = Dict String (List PublicationJob)

unfoldable pub by_age : List PublicationJob → List PublicationJob
by_age jobs = sort_by (λ a b. leb a.created_at b.created_at) jobs

unfoldable pub age_sources : Level → Level
age_sources [] = []
age_sources ((source, jobs) ∷ level) = (source, by_age jobs) ∷ age_sources level

unfoldable pub level_of : List PublicationJob → Level
level_of jobs = age_sources (group_into (λ j. j.source) [] jobs)

unfoldable pub levels_of : Dict ℕ (List PublicationJob) → List Level
levels_of [] = []
levels_of ((priority, jobs) ∷ rest) = level_of jobs ∷ levels_of rest

-- `by_priority`, walked by `sorted(by_priority, reverse=True)`
unfoldable pub levels : List PublicationJob → List Level
levels eligible =
    levels_of (sort_by (λ p q. leb (q.0) (p.0)) (group_into (λ j. j.priority) [] eligible))

-- `delivery_by_key.get((job.article_id, job.destination))`: the last record of a key stays.
unfoldable pub delivery_of : List DeliveryRecord → PublicationJob → Option DeliveryRecord
delivery_of recent j =
    first (λ r. (r.article_id == j.article_id) && (r.destination == j.destination)) (reverse recent)

-- `record is None or job.created_at > record.created_at`
unfoldable pub is_newer_version : List DeliveryRecord → PublicationJob → Bool
is_newer_version recent j = none_or (delivery_of recent j) (λ r. ltb r.created_at j.created_at)

-- Every job of the levels, in the order in which the nested loops reach it.
unfoldable pub in_order : List Level → List PublicationJob
in_order [] = []
in_order (level ∷ rest) = items level ++ in_order rest

-- Fan-out: the first job of an article that already takes a slot.
unfoldable pub fan_out : List DeliveryRecord → List String → List Level → Option PublicationJob
fan_out recent taken ls =
    first (λ j. contains j.article_id taken && is_newer_version recent j) (in_order ls)

-- `record is not None and job.created_at <= record.created_at`
unfoldable pub is_delivered : List DeliveryRecord → PublicationJob → Bool
is_delivered recent j = some_and (delivery_of recent j) (λ r. leb j.created_at r.created_at)

-- One pass over the active sources of a level. Each source gives its oldest job. The `while` loop
-- around it always ends after one pass: `progressed` is set only together with `selected_job`.
unfoldable pub one_pass :
    QueueConfig → Dict String ℕ → List DeliveryRecord → List String → Level → Option PublicationJob
one_pass c counts recent taken [] = none
one_pass c counts recent taken ((source, []) ∷ level) = one_pass c counts recent taken level
one_pass c counts recent taken ((source, job ∷ jobs) ∷ level) =
    let rest = one_pass c counts recent taken level in
    if leb c.source_limit (count_of source counts)
    then rest
    else if is_delivered recent job
    then rest
    else if contains job.article_id taken
    then rest
    else some job

unfoldable pub round_robin :
    QueueConfig
    → Dict String ℕ
    → List DeliveryRecord
    → List String
    → List Level
    → Option PublicationJob
round_robin c counts recent taken [] = none
round_robin c counts recent taken (level ∷ rest) =
    let later = round_robin c counts recent taken rest in
    elim (one_pass c counts recent taken level) [ some job ↦ some job | none ↦ later ]

-- selected_job, before it is leased.
unfoldable pub select_job : QueueConfig → Instant → Db → Option PublicationJob
select_job c now db =
    let ls = levels (get_eligible_jobs now db.queue) in
    let recent = recent_successes now db in
    let taken = consumed now db in
    elim (fan_out recent taken ls) [
      | some job ↦ some job
      | none ↦
          if ltb 0 (available_slots c now db)
          then round_robin c (source_counts now db) recent taken ls
          else none
    ]

unfoldable pub leased : QueueConfig → Instant → PublicationJob → PublicationJob
leased c now j = record j {
  status = processing;
  lease_expires_at = some (now + c.lease);
  attempts = j.attempts + 1;
}

unfoldable pub claim_next : QueueConfig → Instant → Db → Option PublicationJob × Db
unfolding leased
claim_next c now db = elim (select_job c now db) [
  | none ↦ (none, db)
  | some j ↦ (some (leased c now j), record db { queue = put_progress (leased c now j) db.queue })
]
