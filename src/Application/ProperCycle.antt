-- ===== src/Application/ProperCycle.antt =====
-- The cycle of the queue (publishing/queue_processor.py) keeps the tables of the process proper.
use yasin_press_rewrite.Base.{
  ◌≡◌, refl, ap, ◌∙◌, inl, inr, String, Bool, true, false, List, [], ◌∷◌, Option, some, In, arith,
  In-first, In-select, Option-cases, if◌then◌else◌, string_eq,
}
use yasin_press_rewrite.Models.{
  Instant, Article, PublicationJob, DeliveryRecord, PublishResult, Publisher,
}
use yasin_press_rewrite.Database.{Db}
use yasin_press_rewrite.Database.Articles
use yasin_press_rewrite.Database.History
use yasin_press_rewrite.Engine.Keys.{recover_each-IsKeyed}
use yasin_press_rewrite.Database.Queue.{add_job, get_stale_leased_jobs, is_stale}
use yasin_press_rewrite.Database.Keyed.{add_job-IsKeyed}
use yasin_press_rewrite.Engine.Config.{QueueConfig}
use yasin_press_rewrite.Engine.Finish.{succeeded_job, recover_expired_leases}
use yasin_press_rewrite.Engine.Run.{bury, buried}
use yasin_press_rewrite.Processor.Cycle.{
  select_jobs, lease_each, lease_all, cycle_failed, cycle_success, cycle_deliver, settle_job,
  handle_job, handle_jobs, cycle_record, process_cycle, Handled, raised_error, buried_job, sent,
  Cycle,
}
use yasin_press_rewrite.Processor.Leases.{In-select_jobs}
use yasin_press_rewrite.Processor.Hourly.{In-lease_all}
use yasin_press_rewrite.Application.Proper.{
  IsPointing, IsProper, add_job-IsPointing, save-IsTelling, recover_each-IsPointing,
  lease_each-IsPointing, lease_each-IsKeyed,
}

module _ (is_absolute : String → Bool) where
  module _ (iso : Instant → String) (c : QueueConfig) (now : Instant) where
    cycle_success-IsProper :
        (job : PublicationJob) (a : Article) (destination : String) (db : Db)
        → In a db.articles
        → is_absolute job.article_id ≡ false
        → IsProper is_absolute db
        → IsProper is_absolute (cycle_success iso now job a destination db).1
    unfolding cycle_success
    cycle_success-IsProper job a destination db m p h =
        elim (Option-cases
          (Articles.save (record a { published_to_channel_at = some now }) db.articles)) [
            | inl e ↦
                rw (e, cycle_success)
                  (record { articles = h.articles; jobs = h.jobs; keyed = h.keyed })
            | inr (rows, e) ↦
                rw (e, cycle_success)
                  (record {
                    articles =
                        save-IsTelling is_absolute (record a { published_to_channel_at = some now })
                          db.articles rows (h.articles a m).0 (h.articles a m).1 h.articles e;
                    jobs = add_job-IsPointing is_absolute (succeeded_job job) db.queue p h.jobs;
                    keyed = add_job-IsKeyed (succeeded_job job) db.queue h.keyed;
                  })
          ]

    added-IsProper :
        (j : PublicationJob) (history : List DeliveryRecord) (db : Db)
        → is_absolute j.article_id ≡ false
        → IsProper is_absolute db
        → IsProper is_absolute (record db { history = history; queue = add_job j db.queue })
    added-IsProper j history db p h = record {
      articles = h.articles;
      jobs = add_job-IsPointing is_absolute j db.queue p h.jobs;
      keyed = add_job-IsKeyed j db.queue h.keyed;
    }

    cycle_failed-article :
        (r : PublishResult) (job : PublicationJob)
        → (cycle_failed c now r job).article_id ≡ job.article_id
    unfolding cycle_failed
    cycle_failed-article r job = ground arith

    settle_job-IsProper :
        (job : PublicationJob) (a : Article) (p : Publisher) (r : PublishResult) (db : Db)
        → In a db.articles
        → is_absolute job.article_id ≡ false
        → IsProper is_absolute db
        → IsProper is_absolute (settle_job iso c now job a p r db).1
    unfolding settle_job
    settle_job-IsProper job a p r db m q h = by_success r.success
      where
        recorded : Db
        recorded = record db { history = History.add (cycle_record now job a p r) db.history }

        by_success :
            (b : Bool)
            → IsProper is_absolute
                (if◌then◌else◌ {A = Handled × Db} b
                  (let (saved, after) = cycle_success iso now job a p.name recorded in
                    (if saved then sent r else raised_error, after))
                  (
                    sent r,
                    record recorded { queue = add_job (cycle_failed c now r job) db.queue },
                  )).1
        by_success true =
            cycle_success-IsProper job a p.name recorded m q
              (record { articles = h.articles; jobs = h.jobs; keyed = h.keyed })
        by_success false =
            added-IsProper (cycle_failed c now r job) recorded.history db
              (ap is_absolute (cycle_failed-article r job) ∙ q) h

    module _ (publishers : String → Option Publisher) where
      handle_job-IsProper :
          (job : PublicationJob) (db : Db)
          → is_absolute job.article_id ≡ false
          → IsProper is_absolute db
          → IsProper is_absolute (handle_job iso c publishers now job db).1
      unfolding handle_job bury Articles.get
      handle_job-IsProper job db q h =
          elim (Option-cases (Articles.get job.article_id db.articles)) [
            | inl e ↦ rw (e, handle_job) (added-IsProper (buried _ job) db.history db q h)
            | inr (a, e) ↦ elim (Option-cases (publishers job.destination)) [
              | inl f ↦ rw (e, f, handle_job) (added-IsProper (buried _ job) db.history db q h)
              | inr (p, f) ↦
                  rw (e, f, handle_job)
                    (settle_job-IsProper job a p (cycle_deliver iso p a db) db
                      (In-first _ db.articles a e).0 q h)
            ]
          ]

      handle_jobs-IsProper :
          (jobs : List PublicationJob) (db : Db)
          → IsPointing is_absolute jobs
          → IsProper is_absolute db
          → IsProper is_absolute (handle_jobs iso c publishers now jobs db).db
      unfolding handle_jobs
      handle_jobs-IsProper [] db p h = h
      handle_jobs-IsProper (job ∷ jobs) db p h =
          by_handled (handle_job iso c publishers now job db).0 mid
            (handle_jobs-IsProper jobs _ (λ i k. p i (inr k)) mid)
        where
          mid : IsProper is_absolute (handle_job iso c publishers now job db).1
          mid = handle_job-IsProper job db (p job (inl refl)) h

          by_handled :
              (r : Handled)
              → IsProper is_absolute (handle_job iso c publishers now job db).1
              → IsProper is_absolute
                  (handle_jobs iso c publishers now jobs
                    (handle_job iso c publishers now job db).1).db
              → IsProper is_absolute
                  (elim r as (λ _. Cycle) [
                    | raised_error ↦ record {
                      results = [];
                      raised = true;
                      db = (handle_job iso c publishers now job db).1;
                    }
                    | buried_job ↦
                        handle_jobs iso c publishers now jobs
                          (handle_job iso c publishers now job db).1
                    | sent r ↦
                        record (handle_jobs iso c publishers now jobs
                          (handle_job iso c publishers now job db).1) {
                            results =
                                r
                                ∷ (handle_jobs iso c publishers now jobs
                                    (handle_job iso c publishers now job db).1).results;
                          }
                  ]).db
          by_handled raised_error x y = x
          by_handled buried_job x y = y
          by_handled (sent r) x y = y

      -- A cycle of the queue keeps the ids and the URLs apart and the ids of its jobs distinct.
      pub process_cycle-IsProper :
          (at_most : String → String → Bool) (db : Db)
          → IsProper is_absolute db
          → IsProper is_absolute (process_cycle iso at_most c publishers now db).db
      unfolding process_cycle recover_expired_leases get_stale_leased_jobs
      process_cycle-IsProper at_most db h =
          let start : Db = (recover_expired_leases now db).1 in
          let stale = get_stale_leased_jobs now db.queue in
          let pointing =
            recover_each-IsPointing is_absolute stale db.queue
              (λ j m. h.jobs j (In-select (is_stale now) j db.queue m).0) h.jobs in
          let chosen : List PublicationJob = select_jobs at_most c now start in
          let chosen_pointing : IsPointing is_absolute chosen =
            λ j m. pointing j (In-select_jobs at_most c now start j m).0 in
          handle_jobs-IsProper (lease_all c now chosen)
            (record start { queue = lease_each c now chosen start.queue })
            (λ x m. let (j, k, e) = In-lease_all c now x chosen m in rw e (chosen_pointing j k))
            (record {
              articles = h.articles;
              jobs =
                  lease_each-IsPointing is_absolute c now chosen start.queue chosen_pointing
                    pointing;
              keyed =
                  lease_each-IsKeyed is_absolute c now chosen start.queue
                    (recover_each-IsKeyed stale db.queue h.keyed);
            })
