-- ===== src/Engine/Reach.antt =====
-- The engine over time: every history of its operations keeps the hourly limit.
use native.Mathlib.Nat.{le_trans}
use yasin_press_rewrite.Base.{
  ◌≤◌, ◌≡◌, refl, String, true, false, List, [], ◌∷◌, Option, some, arith, length, inl, inr, ◌⊎◌,
  contains-union, length-le_of_subset, Distinct-to_set, map, string_eq,
}
use yasin_press_rewrite.Models.{
  Instant, Article, PublicationJob, DeliveryRecord, PublishResult, Publisher, is_processing,
}
use yasin_press_rewrite.Database.{Db}
use yasin_press_rewrite.Database.Queue.{get_job, get_stale_leased_jobs, put_progress}
use yasin_press_rewrite.Database.Keyed.{IsKeyed, In-get_job, add_job-IsKeyed}
use yasin_press_rewrite.Engine.Config.{QueueConfig}
use yasin_press_rewrite.Engine.Consumed.{is_active, consumed, recent_ids, recent_successes}
use yasin_press_rewrite.Engine.Claim.{claim_next}
use yasin_press_rewrite.Engine.Finish.{enqueue, recovered, recover_each, recover_expired_leases}
use yasin_press_rewrite.Engine.Run.{bury, buried, settle, run_once}
use yasin_press_rewrite.Engine.Usage.{Uses, length-consumed-le}
use yasin_press_rewrite.Engine.Frames.{add_job-Uses, put_progress-Uses, Uses-later}
use yasin_press_rewrite.Engine.Grows.{settle-Grows, bury-Uses}
use yasin_press_rewrite.Engine.Keys.{
  recover_each-IsKeyed, settle-IsKeyed, claim_next-IsKeyed, run_once-IsKeyed,
}
use yasin_press_rewrite.Engine.Capacity.{claim_next-usage, run_once-usage}

recovered_idle : (j : PublicationJob) → is_processing (recovered j).status ≡ false
unfolding recovered is_processing
recovered_idle j = ground arith

pub recover_each-Uses :
    (now : Instant) (db : Db) (stale rows : List PublicationJob) (a : String)
    → Uses now (record db { queue = recover_each stale rows }) a
    → Uses now (record db { queue = rows }) a
unfolding recover_each
recover_each-Uses now db [] rows a u = u
recover_each-Uses now db (j ∷ stale) rows a u =
    put_progress-Uses now (record db { queue = rows }) (recovered j) (recovered_idle j) a
      (recover_each-Uses now db stale (put_progress (recovered j) rows) a u)

-- An article whose job is under a lease takes its slot already.
within_lease :
    (now : Instant) (db : Db) (job row : PublicationJob)
    → get_job job.id db.queue ≡ some row
    → is_active now row ≡ true
    → (b : String) → (b ≡ row.article_id) ⊎ Uses now db b
    → Uses now db b
within_lease now db job row held active b (inl e) =
    inr (row, (In-get_job job.id db.queue row held).0, active, e)
within_lease now db job row held active b (inr u) = u

-- The clock and the shared database.
pub record World : Type 0 where
  pub now : Instant
  pub db : Db

-- What may happen to them: the clock goes on, articles are stored, a job that is not in processing
-- is queued, expired leases are recovered, and a worker runs once, with any publishers. Workers that
-- interleave claim a job in one step, and in a later one, while the job's lease lasts, settle it with
-- whatever result the publisher gave for whatever article was read, or bury it.
pub data Step (iso : Instant → String) (c : QueueConfig) : World → World → Type 0 where
  wait : (w : World) (t : Instant) → w.now ≤ t → Step iso c w (record w { now = t })
  store :
      (w : World) (rows : List Article)
      → Step iso c w (record w { db = record w.db { articles = rows } })
  submit :
      (w : World) (job : PublicationJob)
      → is_processing job.status ≡ false
      → Step iso c w (record w { db = enqueue job w.db })
  recover : (w : World) → Step iso c w (record w { db = (recover_expired_leases w.now w.db).1 })
  work :
      (w : World) (publishers : String → Option Publisher)
      → Step iso c w (record w { db = (run_once iso c publishers w.now w.db).1 })
  claim : (w : World) → Step iso c w (record w { db = (claim_next c w.now w.db).1 })
  finish :
      (w : World) (job row : PublicationJob) (a : Article) (r : PublishResult)
      → get_job job.id w.db.queue ≡ some row
      → is_active w.now row ≡ true
      → Step iso c w (record w { db = (settle iso c w.now job a r w.db).1 })
  give_up :
      (w : World) (job : PublicationJob) (reason : String)
      → Step iso c w (record w { db = bury reason job w.db })

pub data Reach (iso : Instant → String) (c : QueueConfig) (s : World) : World → Type 0 where
  here : Reach iso c s s
  next : {t u : World} → Reach iso c s t → Step iso c t u → Reach iso c s u

pub record IsWithin (c : QueueConfig) (w : World) : Type 0 where
  pub keyed : IsKeyed w.db.queue
  pub within : length (consumed w.now w.db) ≤ c.global_limit

module _ (iso : Instant → String) (c : QueueConfig) where
  Step-IsWithin : {w v : World} → Step iso c w v → IsWithin c w → IsWithin c v
  Step-IsWithin (wait w t le) h = record {
    keyed = h.keyed;
    within = omega (
      arith,
      length-consumed-le w.now t w.db w.db (λ a u. Uses-later w.now t w.db a le u),
      h.within,
    );
  }
  Step-IsWithin (store w rows) h = record {
    keyed = h.keyed;
    within = omega (
      arith,
      length-consumed-le w.now w.now w.db (record w.db { articles = rows }) (λ a u. u),
      h.within,
    );
  }
  Step-IsWithin (submit w job idle) h =
      unfold enqueue in
      record {
        keyed = add_job-IsKeyed job w.db.queue h.keyed;
        within = omega (
          arith,
          length-consumed-le w.now w.now w.db (enqueue job w.db) (add_job-Uses w.now w.db job idle),
          h.within,
        );
      }
  Step-IsWithin (recover w) h =
      unfold recover_expired_leases in
      record {
        keyed = recover_each-IsKeyed (get_stale_leased_jobs w.now w.db.queue) w.db.queue h.keyed;
        within = omega (
          arith,
          length-consumed-le w.now w.now w.db (recover_expired_leases w.now w.db).1
              (recover_each-Uses w.now w.db (get_stale_leased_jobs w.now w.db.queue) w.db.queue),
          h.within,
        );
      }
  Step-IsWithin (work w publishers) h = record {
    keyed = run_once-IsKeyed iso c publishers w.now w.db h.keyed;
    within = omega (arith, run_once-usage iso c publishers w.now w.db h.keyed, h.within);
  }
  Step-IsWithin (claim w) h = record {
    keyed = claim_next-IsKeyed c w.now w.db h.keyed;
    within = omega (arith, claim_next-usage c w.now w.db h.keyed, h.within);
  }
  Step-IsWithin (finish w job row a r held active) h = record {
    keyed = settle-IsKeyed iso c w.now job a r w.db h.keyed;
    within = omega (
      arith,
      length-consumed-le w.now w.now w.db (settle iso c w.now job a r w.db).1 (λ b u.
          within_lease w.now w.db job row held active b
            (settle-Grows iso c w.now w.db job row held a r b u)),
      h.within,
    );
  }
  Step-IsWithin (give_up w job reason) h =
      unfold bury in
      record {
        keyed = add_job-IsKeyed (buried reason job) w.db.queue h.keyed;
        within = omega (
          arith,
          length-consumed-le w.now w.now w.db (bury reason job w.db)
              (bury-Uses w.now reason job w.db),
          h.within,
        );
      }

  Reach-IsWithin : {s w : World} → IsWithin c s → Reach iso c s w → IsWithin c w
  Reach-IsWithin h here = h
  Reach-IsWithin h (next r st) = Step-IsWithin st (Reach-IsWithin h r)

  pub recent_ids-le :
      (now : Instant) (db : Db) → length (recent_ids now db) ≤ length (consumed now db)
  unfolding consumed recent_ids
  recent_ids-le now db =
      length-le_of_subset (recent_ids now db) (consumed now db)
        (Distinct-to_set (map (λ (r : DeliveryRecord). r.article_id) (recent_successes now db)))
        λ a m. rw (contains-union, m) refl

  -- From a state in which the queue's ids are distinct and the articles in use are at most
  -- global_limit many, every sequence of clock ticks, stored articles, submissions of jobs not in
  -- processing, lease recoveries, run_once calls, interleaved claims and settlements of jobs under
  -- a running lease, and buried jobs leads to a state in which the articles delivered in the last
  -- hour, and those delivered or under a lease, are at most global_limit many.
  pub hourly_limit :
      (s w : World)
      → IsWithin c s
      → Reach iso c s w
      → (length (recent_ids w.now w.db) ≤ c.global_limit)
        × (length (consumed w.now w.db) ≤ c.global_limit)
  hourly_limit s w h r =
      let ok = Reach-IsWithin h r in (le_trans (recent_ids-le w.now w.db) ok.within, ok.within)
