-- ===== src/Processor/Limit.antt =====
-- The hourly limit over a whole cycle: recovery, leases, deliveries.
use yasin_press_rewrite.Base.{
  ◌≡◌, refl, ap, ◌∙◌, subst, ◌⊎◌, inl, inr, String, Bool, true, false, List, [], ◌∷◌, Option, none,
  some, arith, In, In-first, or-true, string_eq, ◌==◌, ==_iff, Option-cases, if◌then◌else◌,
}
use yasin_press_rewrite.Models.{
  Instant, Article, PublicationJob, DeliveryRecord, PublishResult, Publisher, is_processing,
}
use yasin_press_rewrite.Database.{Db}
use yasin_press_rewrite.Database.Articles
use yasin_press_rewrite.Database.History
use yasin_press_rewrite.Database.Table.{In-upsert}
use yasin_press_rewrite.Database.Queue.{add_job}
use yasin_press_rewrite.Engine.Config.{QueueConfig}
use yasin_press_rewrite.Engine.Finish.{succeeded_job}
use yasin_press_rewrite.Engine.Run.{bury}
use yasin_press_rewrite.Engine.Usage.{Uses}
use yasin_press_rewrite.Engine.Frames.{add_job-Uses, add-Uses}
use yasin_press_rewrite.Engine.Grows.{Grows, bury-Uses}
use yasin_press_rewrite.Processor.Cycle.{
  cycle_record, cycle_failed, cycle_success, cycle_deliver, settle_job, handle_job, handle_jobs,
  Handled, buried_job, raised_error, sent, Cycle,
}

-- No article's URL is the key.
abbrev pub NoUrl : String → List Article → Type 0
NoUrl key rows = (x : Article) → In x rows → (x.url == key) ≡ false

-- An article that is found under such a key is found by its id.
get-id :
    (key : String) (rows : List Article) (a : Article)
    → NoUrl key rows
    → Articles.get key rows ≡ some a
    → (a.id ≡ key) × In a rows
unfolding Articles.get
get-id key rows a h e =
    let (m, t) = In-first _ rows a e in
    (
      elim (or-true (a.id == key) (a.url == key) t) [
        | inl same ↦ (==_iff a.id key).0 same
        | inr url ↦ absurd (cc (url, h a m))
      ],
      m,
    )

pub some_of : {A : Type 0} (b : Bool) (x y : A) → (if b then none else some x) ≡ some y → y ≡ x
some_of b x y e = ground arith

save-NoUrl :
    (key : String) (t : Option Instant) (a : Article) (rows after : List Article)
    → NoUrl key rows
    → In a rows
    → Articles.save (record a { published_to_channel_at = t }) rows ≡ some after
    → NoUrl key after
unfolding Articles.save Articles.stored
save-NoUrl key t a rows after h m e x k =
    let row : Article = Articles.stored (record a { published_to_channel_at = t }) in
    elim (In-upsert _ _ row x rows (subst (λ l. In x l) (some_of _ _ after e) k)) [
      | inl old ↦ h x old
      | inr (inl new) ↦ ap (λ (y : Article). y.url == key) new ∙ h a m
      | inr (inr (_, _, _, new)) ↦ ap (λ (y : Article). y.url == key) new ∙ h a m
    ]

cycle_failed_idle :
    (c : QueueConfig) (now : Instant) (r : PublishResult) (job : PublicationJob)
    → is_processing (cycle_failed c now r job).status ≡ false
unfolding cycle_failed is_processing
cycle_failed_idle c now r job = ground arith

-- The articles that use up the limit grow by `b` at most, and no key becomes a URL.
abbrev Moves : Instant → Db → String → Db → Type 0
Moves now db b after =
    Grows now db b after × ((key : String) → NoUrl key db.articles → NoUrl key after.articles)

module _ (iso : Instant → String) (c : QueueConfig) (now : Instant) where
  -- A record of the job's article, and a job that is not in processing.
  recorded-Grows :
      (b : String) (d : DeliveryRecord) (j : PublicationJob) (db : Db)
      → d.article_id ≡ b
      → is_processing j.status ≡ false
      → Grows now db b
          (record db { history = History.add d db.history; queue = add_job j db.queue })
  recorded-Grows b d j db same idle a u =
      elim (add-Uses now (record db { queue = add_job j db.queue }) d a u) [
        | inl e ↦ inl (e ∙ same)
        | inr v ↦ inr (add_job-Uses now db j idle a v)
      ]

  settle_job-Moves :
      (job : PublicationJob) (a : Article) (p : Publisher) (r : PublishResult) (db : Db)
      → a.id ≡ job.article_id
      → In a db.articles
      → Moves now db job.article_id (settle_job iso c now job a p r db).1
  unfolding settle_job cycle_success cycle_record is_processing
  settle_job-Moves job a p r db same m = by_success r.success
    where
      recorded : Db
      recorded = record db { history = History.add (cycle_record now job a p r) db.history }

      by_success :
          (b : Bool)
          → Moves now db job.article_id
              (if◌then◌else◌ {A = Handled × Db} b
                (let (saved, after) = cycle_success iso now job a p.name recorded in
                  (if saved then sent r else raised_error, after))
                (sent r, record recorded { queue = add_job (cycle_failed c now r job) db.queue })).1
      by_success true =
          elim (Option-cases
            (Articles.save (record a { published_to_channel_at = some now }) db.articles)) [
              | inl e ↦
                  rw (e, cycle_success)
                    (
                      λ b u. elim (add-Uses now db (cycle_record now job a p r) b u) [
                        | inl f ↦ inl (f ∙ same)
                        | inr v ↦ inr v
                      ],
                      λ k h. h,
                    )
              | inr (rows, e) ↦
                  rw (e, cycle_success)
                    (
                      recorded-Grows job.article_id (cycle_record now job a p r) (succeeded_job job)
                          db same refl,
                      λ k h. save-NoUrl k (some now) a db.articles rows h m e,
                    )
            ]
      by_success false = (
        recorded-Grows job.article_id (cycle_record now job a p r) (cycle_failed c now r job) db
            same (cycle_failed_idle c now r job),
        λ k h. h,
      )

  handle_job-Moves :
      (publishers : String → Option Publisher) (job : PublicationJob) (db : Db)
      → NoUrl job.article_id db.articles
      → Moves now db job.article_id (handle_job iso c publishers now job db).1
  unfolding handle_job bury
  handle_job-Moves publishers job db safe =
      elim (Option-cases (Articles.get job.article_id db.articles)) [
        | inl e ↦
            rw (e, handle_job) (λ b u. inr (bury-Uses now "Article not found" job db b u), λ k h. h)
        | inr (a, e) ↦ elim (Option-cases (publishers job.destination)) [
          | inl f ↦ rw (e, f, handle_job) (λ b u. inr (bury-Uses now _ job db b u), λ k h. h)
          | inr (p, f) ↦
              let (same, m) = get-id job.article_id db.articles a safe e in
              rw (e, f, handle_job) (settle_job-Moves job a p (cycle_deliver iso p a db) db same m)
        ]
      ]

  -- The articles of the jobs.
  abbrev Covers : List PublicationJob → Db → Db → Type 0
  Covers jobs db after =
      (a : String)
      → Uses now after a
      → ((j : PublicationJob) × In j jobs × (a ≡ j.article_id)) ⊎ Uses now db a

  abbrev Safe : List PublicationJob → Db → Type 0
  Safe jobs db = (j : PublicationJob) → In j jobs → NoUrl j.article_id db.articles

  Covers-cons :
      (job : PublicationJob) (jobs : List PublicationJob) (db mid after : Db)
      → Grows now db job.article_id mid
      → Covers jobs mid after
      → Covers (job ∷ jobs) db after
  Covers-cons job jobs db mid after g k a u = elim (k a u) [
    | inl (j, m, e) ↦ inl (j, inr m, e)
    | inr v ↦ elim (g a v) [ inl e ↦ inl (job, inl refl, e) | inr w ↦ inr w ]
  ]

  pub handle_jobs-Covers :
      (publishers : String → Option Publisher) (jobs : List PublicationJob) (db : Db)
      → Safe jobs db
      → Covers jobs db (handle_jobs iso c publishers now jobs db).db
  unfolding handle_jobs
  handle_jobs-Covers publishers [] db safe = λ a u. inr u
  handle_jobs-Covers publishers (job ∷ jobs) db safe =
      by_handled (handle_job iso c publishers now job db).0
        (handle_job-Moves publishers job db (safe job (inl refl)))
        (handle_jobs-Covers publishers jobs (handle_job iso c publishers now job db).1 λ j m.
          (handle_job-Moves publishers job db (safe job (inl refl))).1 j.article_id
            (safe j (inr m)))
    where
      mid : Db
      mid = (handle_job iso c publishers now job db).1

      rest : Cycle
      rest = handle_jobs iso c publishers now jobs mid

      by_handled :
          (h : Handled)
          → Moves now db job.article_id mid
          → Covers jobs mid rest.db
          → Covers
              (job ∷ jobs)
              db
              (elim h as (λ _. Cycle) [
                | raised_error ↦ record { results = []; raised = true; db = mid }
                | buried_job ↦ rest
                | sent r ↦ record rest { results = r ∷ rest.results }
              ]).db
      by_handled raised_error g k = Covers-cons job jobs db mid mid g.0 λ a u. inr u
      by_handled buried_job g k = Covers-cons job jobs db mid rest.db g.0 k
      by_handled (sent r) g k = Covers-cons job jobs db mid rest.db g.0 k
