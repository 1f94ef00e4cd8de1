-- ===== src/Application/Proper.antt =====
-- The tables of the process: the id of an article is no absolute URL, and its URL is one. The cycle of the
-- queue keeps that.
use yasin_press_rewrite.Base.{
  ◌≡◌, refl, ap, inl, inr, String, Bool, true, false, List, [], ◌∷◌, some, In, subst, ◌==◌, ==_iff,
  string_eq,
}
use yasin_press_rewrite.Models.{Instant, Article, PublicationJob}
use yasin_press_rewrite.Database.{Db}
use yasin_press_rewrite.Database.Articles
use yasin_press_rewrite.Database.Table.{In-upsert}
use yasin_press_rewrite.Database.Queue.{add_job, put_progress}
use yasin_press_rewrite.Database.Keyed.{IsKeyed, In-add_job, In-put_progress, put_progress-IsKeyed}
use yasin_press_rewrite.Engine.Config.{QueueConfig}
use yasin_press_rewrite.Engine.Claim.{leased}
use yasin_press_rewrite.Engine.Finish.{recovered, recover_each}
use yasin_press_rewrite.Processor.Cycle.{lease_each}
use yasin_press_rewrite.Processor.Limit.{some_of}
use yasin_press_rewrite.Processor.Hourly.{IsNamed}

module _ (is_absolute : String → Bool) where
  abbrev pub IsTelling : List Article → Type 0
  IsTelling rows =
      (a : Article) → In a rows → (is_absolute a.url ≡ true) × (is_absolute a.id ≡ false)

  abbrev pub IsPointing : List PublicationJob → Type 0
  IsPointing rows = (j : PublicationJob) → In j rows → is_absolute j.article_id ≡ false

  pub record IsProper (db : Db) : Type 0 where
    pub articles : IsTelling db.articles
    pub jobs : IsPointing db.queue
    pub keyed : IsKeyed db.queue

  pub IsProper-IsNamed : (db : Db) → IsProper db → IsNamed db.queue db.articles
  IsProper-IsNamed db h j m a n = by_test (a.url == j.article_id) refl
    where
      by_test : (b : Bool) → (a.url == j.article_id) ≡ b → b ≡ false
      by_test false e = refl
      by_test true e =
          absurd
            (cc (ap is_absolute ((==_iff a.url j.article_id).0 e), (h.articles a n).0, h.jobs j m))

  pub add_job-IsPointing :
      (job : PublicationJob) (rows : List PublicationJob)
      → is_absolute job.article_id ≡ false
      → IsPointing rows
      → IsPointing (add_job job rows)
  add_job-IsPointing job rows h k x m = elim (In-add_job job rows x m) [
    | inl old ↦ k x old
    | inr (inl new) ↦ rw new h
    | inr (inr (o, i, s, new)) ↦ rw new (k o i)
  ]

  put_progress-IsPointing :
      (job : PublicationJob) (rows : List PublicationJob)
      → is_absolute job.article_id ≡ false
      → IsPointing rows
      → IsPointing (put_progress job rows)
  put_progress-IsPointing job rows h k x m = elim (In-put_progress job rows x m) [
    | inl old ↦ k x old
    | inr (inl new) ↦ rw new h
    | inr (inr (o, i, s, new)) ↦ rw new (k o i)
  ]

  pub recover_each-IsPointing :
      (stale rows : List PublicationJob)
      → IsPointing stale
      → IsPointing rows
      → IsPointing (recover_each stale rows)
  unfolding recover_each recovered
  recover_each-IsPointing [] rows s h = h
  recover_each-IsPointing (j ∷ stale) rows s h =
      recover_each-IsPointing stale (put_progress (recovered j) rows) (λ i k. s i (inr k))
        (put_progress-IsPointing (recovered j) rows (s j (inl refl)) h)

  pub lease_each-IsPointing :
      (c : QueueConfig) (now : Instant) (jobs rows : List PublicationJob)
      → IsPointing jobs
      → IsPointing rows
      → IsPointing (lease_each c now jobs rows)
  unfolding lease_each leased
  lease_each-IsPointing c now [] rows s h = h
  lease_each-IsPointing c now (j ∷ jobs) rows s h =
      lease_each-IsPointing c now jobs (put_progress (leased c now j) rows) (λ i k. s i (inr k))
        (put_progress-IsPointing (leased c now j) rows (s j (inl refl)) h)

  pub lease_each-IsKeyed :
      (c : QueueConfig) (now : Instant) (jobs rows : List PublicationJob)
      → IsKeyed rows
      → IsKeyed (lease_each c now jobs rows)
  unfolding lease_each
  lease_each-IsKeyed c now [] rows h = h
  lease_each-IsKeyed c now (j ∷ jobs) rows h =
      lease_each-IsKeyed c now jobs (put_progress (leased c now j) rows)
        (put_progress-IsKeyed (leased c now j) rows h)

  pub save-IsTelling :
      (a : Article) (rows after : List Article)
      → is_absolute a.url ≡ true
      → is_absolute a.id ≡ false
      → IsTelling rows
      → Articles.save a rows ≡ some after
      → IsTelling after
  unfolding Articles.save Articles.stored
  save-IsTelling a rows after u i h e x m =
      elim (In-upsert _ _ (Articles.stored a) x rows
        (subst (λ l. In x l) (some_of _ _ after e) m)) [
          | inl old ↦ h x old
          | inr (inl new) ↦ rw new (u, i)
          | inr (inr (_, _, _, new)) ↦ rw new (u, i)
        ]
