-- ===== src/Engine/Claims.antt =====
-- claim_next: what it takes, when it takes nothing, and that a job is not taken twice.
use yasin_press_rewrite.Base.{
  ◌≡◌, ◌≢◌, refl, sym, ap, ◌∙◌, subst, true, false, ◌&&◌, Option, none, some, In, contains,
  string_eq, Option-cases, inl, inr,
}
use yasin_press_rewrite.Models.{Instant, PublicationJob, is_waiting}
use yasin_press_rewrite.Database.{Db}
use yasin_press_rewrite.Database.Queue.{put_progress, is_eligible, get_job}
use yasin_press_rewrite.Database.Keyed.{IsKeyed, job_key, In-get_job, put_progress-IsKeyed}
use yasin_press_rewrite.Database.Table.{unique_row}
use yasin_press_rewrite.Engine.Config.{QueueConfig}
use yasin_press_rewrite.Engine.Consumed.{consumed, recent_successes}
use yasin_press_rewrite.Engine.Claim.{is_newer_version, select_job, leased, claim_next}
use yasin_press_rewrite.Engine.Selection.{IsAdmitted, select_job-IsAdmitted, select_job-none}
use yasin_press_rewrite.Engine.Capacity.{claimed, claim_next-none, claim_next-some, get_job-claimed}

-- What claim_next returned, by the job that is selected.
abbrev Claim : Type 0
Claim = Option PublicationJob × Db

job_of : {p q : Claim} → p ≡ q → p.0 ≡ q.0
job_of h = ap (λ (p : Claim). p.0) h

db_of : {p q : Claim} → p ≡ q → p.1 ≡ q.1
db_of h = ap (λ (p : Claim). p.1) h

module _ (c : QueueConfig) (now : Instant) (db : Db) where
  claim_next_cases :
      {j' : PublicationJob} {after : Db}
      → claim_next c now db ≡ (some j', after)
      → (j : PublicationJob) × (select_job c now db ≡ some j)
        × (j' ≡ leased c now j)
        × (after ≡ claimed c now db j)
  claim_next_cases h = elim (Option-cases (select_job c now db)) [
    | inl e ↦ absurd (cc (job_of (sym (claim_next-none c now db e) ∙ h)))
    | inr (j, e) ↦
        let same = sym (claim_next-some c now db j e) ∙ h in
        (j, e, cc (job_of same), sym (db_of same))
  ]

  -- A claimed job is a row that was eligible and admitted: it continues the fan-out of an article
  -- that takes a slot already, or it is of a new article for which the hour and the source have
  -- room; the queue after is the one with that row leased.
  pub claim_next_sound :
      {j' : PublicationJob} {after : Db}
      → claim_next c now db ≡ (some j', after)
      → (j : PublicationJob) × IsAdmitted c now db j
        × (j' ≡ leased c now j)
        × (after ≡ record db { queue = put_progress (leased c now j) db.queue })
  claim_next_sound h =
      let (j, e, p, q) = claim_next_cases h in (j, select_job-IsAdmitted c now db j e, p, q)

  -- Where claim_next takes nothing, no eligible job of the queue is a newer version for an article
  -- that takes a slot, and the database is as before.
  pub claim_next_idle :
      (j : PublicationJob) {after : Db}
      → claim_next c now db ≡ (none, after)
      → In j db.queue
      → is_eligible now j ≡ true
      → ((contains j.article_id (consumed now db) && is_newer_version (recent_successes now db) j)
          ≡ false)
        × (after ≡ db)
  claim_next_idle j {after} h m e = elim (Option-cases (select_job c now db)) [
    | inl s ↦ (select_job-none c now db j s m e, sym (db_of (sym (claim_next-none c now db s) ∙ h)))
    | inr (i, s) ↦ absurd (cc (job_of (sym (claim_next-some c now db i s) ∙ h)))
  ]

leased_not_waiting :
    (c : QueueConfig) (now later : Instant) (j : PublicationJob)
    → is_eligible later (leased c now j) ≡ false
unfolding is_eligible leased is_waiting
leased_not_waiting c now later j = refl

-- On a queue with distinct ids, a job claimed by one call is not the one claimed by the next call,
-- at whatever time, on the database that the first call left.
pub claim_next_once :
    (c : QueueConfig) (now later : Instant) (db : Db) (j i : PublicationJob) (mid after : Db)
    → IsKeyed db.queue
    → claim_next c now db ≡ (some j, mid)
    → claim_next c later mid ≡ (some i, after)
    → i.id ≢ j.id
unfolding leased
claim_next_once c now later db j i mid after keyed first_claim second_claim same =
    let (x, ok, p, q) = claim_next_sound c now db first_claim in
    let (y, ok', p', q') = claim_next_sound c later mid second_claim in
    let rows : IsKeyed mid.queue =
      subst (λ (d : Db). IsKeyed d.queue) (sym q)
        (put_progress-IsKeyed (leased c now x) db.queue keyed) in
    let found : get_job x.id mid.queue ≡ some (leased c now x) =
      subst (λ (d : Db). get_job x.id d.queue ≡ some (leased c now x)) (sym q)
        (get_job-claimed c now db x keyed ok.queued) in
    let ids : y.id ≡ x.id =
      sym (ap (λ (k : PublicationJob). k.id) p') ∙ same ∙ ap (λ (k : PublicationJob). k.id) p in
    let held : y ≡ leased c now x =
      unique_row job_key y (leased c now x) mid.queue rows ok'.queued
        (In-get_job x.id mid.queue (leased c now x) found).0 ids in
    cc (ok'.eligible, leased_not_waiting c now later x, ap (is_eligible later) held)
