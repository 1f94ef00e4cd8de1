-- ===== src/Engine/Capacity.antt =====
-- The hourly limit on articles: what one call of run_once can do to its usage.
use native.Mathlib.Nat.{le_trans}
use yasin_press_rewrite.Base.{
  ◌≤◌, ◌≡◌, refl, ap, ◌∙◌, inl, inr, String, Option, none, some, arith, In, string_eq, ==_iff,
  length, length-add, add, max, Option-cases,
}
use yasin_press_rewrite.Models.{Instant, PublicationJob, Publisher}
use yasin_press_rewrite.Database.{Db}
use yasin_press_rewrite.Database.Queue.{get_job, put_progress}
use yasin_press_rewrite.Database.Keyed.{
  IsKeyed, job_key, get_job-In, get_job-put_progress_self, In-put_progress,
}
use yasin_press_rewrite.Database.Table.{unique_row}
use yasin_press_rewrite.Engine.Config.{QueueConfig}
use yasin_press_rewrite.Engine.Consumed.{consumed, available_slots}
use yasin_press_rewrite.Engine.Claim.{select_job, leased, claim_next}
use yasin_press_rewrite.Engine.Run.{idle, run_job, run_once}
use yasin_press_rewrite.Engine.Selection.{IsAdmitted, select_job-IsAdmitted}
use yasin_press_rewrite.Engine.Usage.{length-consumed-add}
use yasin_press_rewrite.Engine.Grows.{Grows, run_job-Grows}

-- The row of a claimed job, and the usage that the claim adds.
abbrev pub claimed : QueueConfig → Instant → Db → PublicationJob → Db
claimed c now db j = record db { queue = put_progress (leased c now j) db.queue }

module _ (c : QueueConfig) (now : Instant) (db : Db) (j : PublicationJob) (keyed : IsKeyed db.queue)
    (queued : In j db.queue) where
  pub get_job-claimed : get_job j.id (claimed c now db j).queue ≡ some (leased c now j)
  unfolding leased
  get_job-claimed =
      rw (get_job-put_progress_self (leased c now j) db.queue, get_job-In j db.queue keyed queued)
        refl

  claimed-Grows : Grows now db j.article_id (claimed c now db j)
  unfolding leased
  claimed-Grows a (inl h) = inr (inl h)
  claimed-Grows a (inr (x, m, t, e)) = elim (In-put_progress (leased c now j) db.queue x m) [
    | inl old ↦ inr (inr (x, old, t, e))
    | inr (inl new) ↦ inl (rw new at e)
    | inr (inr (o, i, s, new)) ↦ inl (
        (rw new at e)
        ∙ ap (λ (y : PublicationJob). y.article_id)
            (unique_row job_key o j db.queue keyed i queued ((==_iff o.id j.id).0 s)))
  ]

Grows-trans :
    (now : Instant) (b : String) (db mid db' : Db)
    → Grows now db b mid
    → Grows now mid b db'
    → Grows now db b db'
Grows-trans now b db mid db' h k a u = elim (k a u) [ inl e ↦ inl e | inr v ↦ h a v ]

-- An admitted job's article fits.
admitted_fits :
    (c : QueueConfig) (now : Instant) (db : Db) (j : PublicationJob)
    → IsAdmitted c now db j
    → length (add j.article_id (consumed now db)) ≤ max (length (consumed now db)) c.global_limit
unfolding available_slots
admitted_fits c now db j ok = ground (arith, ok.slot, length-add j.article_id (consumed now db))

pub claim_next-none :
    (c : QueueConfig) (now : Instant) (db : Db)
    → select_job c now db ≡ none
    → claim_next c now db ≡ (none, db)
unfolding claim_next
claim_next-none c now db e = rw (e, claim_next)

pub claim_next-some :
    (c : QueueConfig) (now : Instant) (db : Db) (j : PublicationJob)
    → select_job c now db ≡ some j
    → claim_next c now db ≡ (some (leased c now j), claimed c now db j)
unfolding claim_next
claim_next-some c now db j e = rw (e, claim_next)

-- A claim keeps the usage at the limit at most, or as it was.
pub claim_next-usage :
    (c : QueueConfig) (now : Instant) (db : Db)
    → IsKeyed db.queue
    → length (consumed now (claim_next c now db).1) ≤ max (length (consumed now db)) c.global_limit
claim_next-usage c now db keyed = elim (Option-cases (select_job c now db)) [
  | inl e ↦ rw (claim_next-none c now db e) (omega arith)
  | inr (j, e) ↦
      let ok = select_job-IsAdmitted c now db j e in
      rw (claim_next-some c now db j e) (
        le_trans
          (length-consumed-add now now db (claimed c now db j) j.article_id
            (claimed-Grows c now db j keyed ok.queued))
          (admitted_fits c now db j ok))
]

module _ (iso : Instant → String) (c : QueueConfig) (publishers : String → Option Publisher)
    (now : Instant) (db : Db) where
  -- run_once by the job that is selected.
  pub run_once-none : select_job c now db ≡ none → run_once iso c publishers now db ≡ (idle, db)
  unfolding run_once
  run_once-none e = rw (claim_next-none c now db e, run_once) (rw (claim_next-none c now db e))

  pub run_once-some :
      (j : PublicationJob)
      → select_job c now db ≡ some j
      → run_once iso c publishers now db
        ≡ run_job iso c publishers now (leased c now j) (claimed c now db j)
  unfolding run_once
  run_once-some j e =
      rw (claim_next-some c now db j e, run_once) (rw (claim_next-some c now db j e))

  run_claimed-Grows :
      (j : PublicationJob)
      → IsKeyed db.queue
      → In j db.queue
      → Grows now db j.article_id
          (run_job iso c publishers now (leased c now j) (claimed c now db j)).1
  unfolding leased
  run_claimed-Grows j keyed q =
      Grows-trans now j.article_id db (claimed c now db j)
        (run_job iso c publishers now (leased c now j) (claimed c now db j)).1
        (claimed-Grows c now db j keyed q)
        (run_job-Grows iso c now (claimed c now db j) (leased c now j) (leased c now j)
          (get_job-claimed c now db j keyed q) publishers)

  -- Where the queue's ids are distinct, one call of run_once, with any publishers, leaves the
  -- articles that use up the hour at most global_limit many, or as many as they were.
  pub run_once-usage :
      IsKeyed db.queue
      → length (consumed now (run_once iso c publishers now db).1)
        ≤ max (length (consumed now db)) c.global_limit
  run_once-usage keyed = elim (Option-cases (select_job c now db)) [
    | inl e ↦ rw (run_once-none e) (omega arith)
    | inr (j, e) ↦
        let ok = select_job-IsAdmitted c now db j e in
        rw (run_once-some j e) (
          le_trans
            (length-consumed-add now now db
              (run_job iso c publishers now (leased c now j) (claimed c now db j)).1 j.article_id
              (run_claimed-Grows j keyed ok.queued))
            (admitted_fits c now db j ok))
  ]
