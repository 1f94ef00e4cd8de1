-- ===== src/Processor/Leases.antt =====
-- The hourly limit while a cycle holds its leases.
use yasin_press_rewrite.Base.{
  ◌≤◌, ◌≡◌, refl, sym, ap, ◌∙◌, ◌⊎◌, inl, inr, String, Bool, true, List, [], ◌∷◌, arith, In,
  In-select, In-sort_by, and-true, contains, contains-union, union, length, length-union, max,
  string_eq, ==_iff,
}
use yasin_press_rewrite.Models.{Instant, PublicationJob}
use yasin_press_rewrite.Database.{Db}
use yasin_press_rewrite.Database.Queue.{put_progress, get_eligible_jobs, is_eligible}
use yasin_press_rewrite.Database.Keyed.{IsKeyed, job_key, In-put_progress}
use yasin_press_rewrite.Database.Table.{unique_row}
use yasin_press_rewrite.Engine.Config.{QueueConfig}
use yasin_press_rewrite.Engine.Consumed.{consumed, available_slots}
use yasin_press_rewrite.Engine.Claim.{leased}
use yasin_press_rewrite.Engine.Usage.{Uses, Uses-consumed, consumed-Uses, Distinct-consumed}
use yasin_press_rewrite.Base.{length-le_of_subset}
use yasin_press_rewrite.Processor.Select.{cycle_counts, select_new_articles}
use yasin_press_rewrite.Processor.Cycle.{select_jobs, lease_each}
use yasin_press_rewrite.Processor.Slots.{length-select_new_articles}

-- The rows are those of `start`, by id and article.
abbrev IsKept : List PublicationJob → List PublicationJob → Type 0
IsKept start rows =
    (x : PublicationJob)
    → In x rows
    → (o : PublicationJob) × In o start × (o.id ≡ x.id) × (o.article_id ≡ x.article_id)

module _ (c : QueueConfig) (now : Instant) (start : List PublicationJob)
    (keyed : IsKeyed start) where
  put_progress-IsKept :
      (j : PublicationJob) (rows : List PublicationJob)
      → In j start
      → IsKept start rows
      → IsKept start (put_progress (leased c now j) rows)
  unfolding leased
  put_progress-IsKept j rows m kept x h = elim (In-put_progress (leased c now j) rows x h) [
    | inl old ↦ kept x old
    | inr (inl new) ↦ (
      j,
      m,
      ap (λ (y : PublicationJob). y.id) (sym new),
      ap (λ (y : PublicationJob). y.article_id) (sym new),
    )
    | inr (inr (o, i, s, new)) ↦
        let (p, q, e, f) = kept o i in
        (
          p,
          q,
          e ∙ ap (λ (y : PublicationJob). y.id) (sym new),
          f ∙ ap (λ (y : PublicationJob). y.article_id) (sym new),
        )
  ]

  -- A row after a lease is an old one, or of the leased job's article.
  leased_row :
      (j : PublicationJob) (rows : List PublicationJob)
      → In j start
      → IsKept start rows
      → (x : PublicationJob) → In x (put_progress (leased c now j) rows)
      → In x rows ⊎ (x.article_id ≡ j.article_id)
  unfolding leased
  leased_row j rows m kept x h = elim (In-put_progress (leased c now j) rows x h) [
    | inl old ↦ inl old
    | inr (inl new) ↦ inr (ap (λ (y : PublicationJob). y.article_id) new)
    | inr (inr (o, i, s, new)) ↦
        let (p, q, e, f) = kept o i in
        inr (
          ap (λ (y : PublicationJob). y.article_id) new
          ∙ sym f
          ∙ ap (λ (y : PublicationJob). y.article_id)
              (unique_row job_key p j start keyed q m (e ∙ (==_iff o.id j.id).0 s)))
  ]

  lease_each_row :
      (jobs rows : List PublicationJob)
      → ((j : PublicationJob) → In j jobs → In j start)
      → IsKept start rows
      → (x : PublicationJob) → In x (lease_each c now jobs rows)
      → In x rows ⊎ ((j : PublicationJob) × In j jobs × (x.article_id ≡ j.article_id))
  unfolding lease_each
  lease_each_row [] rows m kept x h = inl h
  lease_each_row (j ∷ jobs) rows m kept x h =
      elim (lease_each_row jobs (put_progress (leased c now j) rows) (λ i k. m i (inr k))
        (put_progress-IsKept j rows (m j (inl refl)) kept) x h) [
          | inl k ↦ elim (leased_row j rows (m j (inl refl)) kept x k) [
            | inl old ↦ inl old
            | inr e ↦ inr (j, inl refl, e)
          ]
          | inr (i, k, e) ↦ inr (i, inr k, e)
        ]

module _ (at_most : String → String → Bool) (c : QueueConfig) (now : Instant) (db : Db) where
  abbrev pub chosen : List String
  chosen =
      select_new_articles c.source_limit (get_eligible_jobs now db.queue) (consumed now db)
        (cycle_counts now db) (available_slots c now db)

  abbrev pub leased_db : Db
  leased_db = record db { queue = lease_each c now (select_jobs at_most c now db) db.queue }

  pub In-select_jobs :
      (j : PublicationJob)
      → In j (select_jobs at_most c now db)
      → In j db.queue × (contains j.article_id (union (consumed now db) chosen) ≡ true)
  unfolding select_jobs get_eligible_jobs
  In-select_jobs j h =
      let (m, t) = In-select _ j (get_eligible_jobs now db.queue) (In-sort_by _ j _ h) in
      ((In-select (is_eligible now) j db.queue (In-sort_by _ j _ m)).0, (and-true _ _ t).0)

  pub leased_db-Uses :
      IsKeyed db.queue
      → (a : String) → Uses now leased_db a
      → contains a (union (consumed now db) chosen) ≡ true
  leased_db-Uses keyed a (inl u) = rw (contains-union, Uses-consumed now db a (inl u)) refl
  leased_db-Uses keyed a (inr (x, m, t, e)) =
      elim (lease_each_row c now db.queue keyed (select_jobs at_most c now db) db.queue
        (λ j k. (In-select_jobs j k).0) (λ y k. (y, k, refl, refl)) x m) [
          | inl old ↦ rw (contains-union, Uses-consumed now db a (inr (x, old, t, e))) refl
          | inr (j, k, f) ↦ rw (e, f) (In-select_jobs j k).1
        ]

  -- Where the queue's ids are distinct, the leases that a cycle takes on all its selected jobs
  -- leave the articles that use up the hour at most global_limit many, or as many as they were.
  pub lease_each-usage :
      IsKeyed db.queue
      → length (
          consumed now
            (record db { queue = lease_each c now (select_jobs at_most c now db) db.queue }))
        ≤ max (length (consumed now db)) c.global_limit
  unfolding available_slots
  lease_each-usage keyed = omega (
    arith,
    length-le_of_subset (consumed now leased_db) (union (consumed now db) chosen)
        (Distinct-consumed now leased_db)
        (λ a m. leased_db-Uses keyed a (consumed-Uses now leased_db a m)),
    length-union (consumed now db) chosen,
    length-select_new_articles c.source_limit (cycle_counts now db) (get_eligible_jobs now db.queue)
        (consumed now db) (available_slots c now db),
  )
