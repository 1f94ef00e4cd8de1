-- ===== src/Engine/Frames.antt =====
-- How each write of the engine changes which articles use up the limit.
use yasin_press_rewrite.Base.{
  ◌-◌, ◌≤◌, ◌≡◌, refl, ap, ◌∙◌, ◌⊎◌, inl, inr, String, true, false, arith, leb, and-true, string_eq,
  ==_iff,
}
use yasin_press_rewrite.Models.{Instant, one_hour, PublicationJob, DeliveryRecord, is_processing}
use yasin_press_rewrite.Database.{Db}
use yasin_press_rewrite.Database.Table.{In-upsert}
use yasin_press_rewrite.Database.Queue.{progress, renewed, add_job, put_progress}
use yasin_press_rewrite.Database.Keyed.{In-add_job, In-put_progress}
use yasin_press_rewrite.Database.History
use yasin_press_rewrite.Database.History.{same_delivery}
use yasin_press_rewrite.Engine.Consumed.{is_recent, is_active}
use yasin_press_rewrite.Engine.Usage.{Uses}

-- A row that an update has made inactive does not count.
update_inactive :
    (now : Instant) (x old job : PublicationJob) (merged : PublicationJob)
    → x ≡ merged
    → merged.status ≡ job.status
    → is_processing job.status ≡ false
    → is_active now x ≡ false
unfolding is_active
update_inactive now x old job merged e s h = rw (e, s, h) refl

module _ (now : Instant) (db : Db) (job : PublicationJob)
    (idle : is_processing job.status ≡ false) where
  -- Saving a job that is not in processing gives no article a slot.
  pub add_job-Uses :
      (a : String) → Uses now (record db { queue = add_job job db.queue }) a → Uses now db a
  add_job-Uses a (inl h) = inl h
  add_job-Uses a (inr (x, m, t, e)) = elim (In-add_job job db.queue x m) [
    | inl old ↦ inr (x, old, t, e)
    | inr (inl new) ↦ absurd (cc (t, update_inactive now x job job job new refl idle))
    | inr (inr (o, _, _, new)) ↦
        absurd (cc (t, update_inactive now x o job (renewed o job) new refl idle))
  ]

  pub put_progress-Uses :
      (a : String) → Uses now (record db { queue = put_progress job db.queue }) a → Uses now db a
  put_progress-Uses a (inl h) = inl h
  put_progress-Uses a (inr (x, m, t, e)) = elim (In-put_progress job db.queue x m) [
    | inl old ↦ inr (x, old, t, e)
    | inr (inl new) ↦ absurd (cc (t, update_inactive now x job job job new refl idle))
    | inr (inr (o, _, _, new)) ↦
        absurd (cc (t, update_inactive now x o job (progress o job) new refl idle))
  ]

module _ (now : Instant) (db : Db) (r : DeliveryRecord) where
  -- A delivery record adds its own article at most.
  pub add-Uses :
      (a : String)
      → Uses now (record db { history = History.add r db.history }) a
      → (a ≡ r.article_id) ⊎ Uses now db a
  unfolding History.add
  add-Uses a (inr h) = inr (inr h)
  add-Uses a (inl (x, m, t, e)) = elim (In-upsert same_delivery _ r x db.history m) [
    | inl old ↦ inr (inl (x, old, t, e))
    | inr (inl new) ↦ inl (rw new at e)
    | inr (inr (o, _, s, new)) ↦
        inl ((rw new at e) ∙ (==_iff o.article_id r.article_id).0 (and-true _ _ s).0)
  ]

  succeeded_of : (x : DeliveryRecord) → is_recent now x ≡ true → x.success ≡ true
  unfolding is_recent
  succeeded_of x t = (and-true x.success (leb (now - one_hour) x.created_at) t).0

  -- A failed delivery gives no article a slot.
  pub add_failure-Uses :
      r.success ≡ false
      → (a : String) → Uses now (record db { history = History.add r db.history }) a
      → Uses now db a
  unfolding History.add
  add_failure-Uses f a (inr h) = inr h
  add_failure-Uses f a (inl (x, m, t, e)) = elim (In-upsert same_delivery _ r x db.history m) [
    | inl old ↦ inl (x, old, t, e)
    | inr (inl new) ↦ absurd (cc (f, succeeded_of x t, ap (λ (y : DeliveryRecord). y.success) new))
    | inr (inr (o, _, s, new)) ↦
        absurd (cc (f, succeeded_of x t, ap (λ (y : DeliveryRecord). y.success) new))
  ]

-- Time alone frees slots and takes none.
pub Uses-later :
    (now now' : Instant) (db : Db) (a : String) → now ≤ now' → Uses now' db a → Uses now db a
unfolding is_recent is_active
Uses-later now now' db a le (inl (r, m, t, e)) = inl (r, m, ground arith, e)
Uses-later now now' db a le (inr (j, m, t, e)) = inr (j, m, ground arith, e)
