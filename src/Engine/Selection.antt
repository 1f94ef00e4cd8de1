-- ===== src/Engine/Selection.antt =====
-- What the selection loops of claim_next can pick.
use yasin_press_rewrite.Base.{
  ℕ, ◌<◌, ◌≡◌, refl, ◌⊎◌, inl, inr, String, true, false, ◌&&◌, List, [], ◌∷◌, Option, none, some,
  arith, Option-cases, and-true, In, In-append_left, In-append_right, In-sort_by, In-sort_by_of,
  In-select, In-select_of, In-first, first-none, Dict, items, Filed, All, contains, string_eq,
  nat_eq,
}
use yasin_press_rewrite.Models.{Instant, PublicationJob, DeliveryRecord}
use yasin_press_rewrite.Database.{Db}
use yasin_press_rewrite.Database.Queue.{get_eligible_jobs, is_eligible, urgent_first}
use yasin_press_rewrite.Engine.Config.{QueueConfig}
use yasin_press_rewrite.Engine.Consumed.{
  recent_successes, consumed, available_slots, source_counts, count_of,
}
use yasin_press_rewrite.Engine.Order.{In-levels, In-levels_all, levels_of-Filed}
use yasin_press_rewrite.Engine.Claim.{
  Level, levels, is_newer_version, in_order, fan_out, is_delivered, one_pass, round_robin,
  select_job,
}

-- What a job that takes a new slot satisfies.
pub record IsFresh (c : QueueConfig) (counts : Dict String ℕ) (recent : List DeliveryRecord)
    (taken : List String) (j : PublicationJob) : Type 0 where
  pub within_source : count_of j.source counts < c.source_limit
  pub undelivered : is_delivered recent j ≡ false
  pub new_article : contains j.article_id taken ≡ false

module _ (c : QueueConfig) (counts : Dict String ℕ) (recent : List DeliveryRecord)
    (taken : List String) where
  -- A source's oldest job is picked, or the pass goes on.
  one_pass_cases :
      (j i : PublicationJob) (s : String) (l : List PublicationJob) (level : Level)
      → one_pass c counts recent taken ((s, i ∷ l) ∷ level) ≡ some j
      → ((j ≡ i)
          × (count_of s counts < c.source_limit)
          × (is_delivered recent i ≡ false)
          × (contains i.article_id taken ≡ false))
        ⊎ (one_pass c counts recent taken level ≡ some j)
  unfolding one_pass
  one_pass_cases j i s l level h = ground arith

  one_pass_lem :
      (j : PublicationJob) (level : Level)
      → Filed (λ i. i.source) level
      → one_pass c counts recent taken level ≡ some j
      → In j (items level) × IsFresh c counts recent taken j
  unfolding items
  one_pass_lem j [] f h = absurd (unfold one_pass in (ground arith))
  one_pass_lem j ((s, []) ∷ level) f h = one_pass_lem j level f.1 (unfold one_pass in h)
  one_pass_lem j ((s, i ∷ l) ∷ level) f h = elim (one_pass_cases j i s l level h) [
    | inl (e, within, undelivered, new) ↦ (
      inl e,
      rw e (record {
        within_source = rw (f.0 i (inl refl)) within;
        undelivered = undelivered;
        new_article = new;
      }),
    )
    | inr later ↦
        let (m, fresh) = one_pass_lem j level f.1 later in
        (inr (In-append_right j l (items level) m), fresh)
  ]

  round_robin_lem :
      (j : PublicationJob) (ls : List Level)
      → All (Filed (λ i. i.source)) ls
      → round_robin c counts recent taken ls ≡ some j
      → In j (in_order ls) × IsFresh c counts recent taken j
  unfolding round_robin in_order
  round_robin_lem j [] f h = ground arith
  round_robin_lem j (level ∷ ls) f h = elim (Option-cases (one_pass c counts recent taken level)) [
    | inl e ↦
        let (m, fresh) = round_robin_lem j ls f.1 (ground arith) in
        (In-append_right j (items level) (in_order ls) m, fresh)
    | inr (i, e) ↦
        let (m, fresh) = one_pass_lem j level f.0 (ground arith) in
        (In-append_left j (items level) (in_order ls) m, fresh)
  ]

module _ (recent : List DeliveryRecord) (taken : List String) where
  fan_out_lem :
      (j : PublicationJob) (ls : List Level)
      → fan_out recent taken ls ≡ some j
      → In j (in_order ls)
        × (contains j.article_id taken ≡ true)
        × (is_newer_version recent j ≡ true)
  unfolding fan_out
  fan_out_lem j ls h =
      let (m, t) = In-first _ (in_order ls) j h in let (a, b) = and-true _ _ t in (m, a, b)

-- Why a job was selected: it continues the fan-out of an article that already takes a slot, or it
-- takes a new slot, of which the hour and its source have one left.
pub record IsAdmitted (c : QueueConfig) (now : Instant) (db : Db) (j : PublicationJob)
    : Type 0 where
  pub queued : In j db.queue
  pub eligible : is_eligible now j ≡ true
  pub slot :
      ((contains j.article_id (consumed now db) ≡ true)
        × (is_newer_version (recent_successes now db) j ≡ true))
      ⊎ ((0 < available_slots c now db)
          × IsFresh c (source_counts now db) (recent_successes now db) (consumed now db) j)

In-eligible :
    (now : Instant) (db : Db) (j : PublicationJob)
    → In j (get_eligible_jobs now db.queue)
    → In j db.queue × (is_eligible now j ≡ true)
unfolding get_eligible_jobs
In-eligible now db j h = In-select (is_eligible now) j db.queue (In-sort_by urgent_first j _ h)

In-eligible_of :
    (now : Instant) (db : Db) (j : PublicationJob)
    → In j db.queue
    → is_eligible now j ≡ true
    → In j (get_eligible_jobs now db.queue)
unfolding get_eligible_jobs
In-eligible_of now db j h e =
    In-sort_by_of urgent_first j _ (In-select_of (is_eligible now) j db.queue h e)

module _ (c : QueueConfig) (now : Instant) (db : Db) (j : PublicationJob) where
  admitted :
      In j (in_order (levels (get_eligible_jobs now db.queue)))
      → ((contains j.article_id (consumed now db) ≡ true)
          × (is_newer_version (recent_successes now db) j ≡ true))
        ⊎ ((0 < available_slots c now db)
            × IsFresh c (source_counts now db) (recent_successes now db) (consumed now db) j)
      → IsAdmitted c now db j
  admitted m slot =
      let (q, e) = In-eligible now db j (In-levels j (get_eligible_jobs now db.queue) m) in
      record { queued = q; eligible = e; slot = slot }

  abbrev ls : List Level
  ls = levels (get_eligible_jobs now db.queue)

  abbrev continued : Option PublicationJob
  continued = fan_out (recent_successes now db) (consumed now db) ls

  abbrev begun : Option PublicationJob
  begun = round_robin c (source_counts now db) (recent_successes now db) (consumed now db) ls

  select_job_cases :
      select_job c now db ≡ some j
      → (continued ≡ some j) ⊎ ((0 < available_slots c now db) × (begun ≡ some j))
  unfolding select_job
  select_job_cases h = ground arith

  pub select_job-IsAdmitted : select_job c now db ≡ some j → IsAdmitted c now db j
  select_job-IsAdmitted h = elim (select_job_cases h) [
    | inl e ↦
        let (m, taken, newer) = fan_out_lem (recent_successes now db) (consumed now db) j ls e in
        admitted m (inl (taken, newer))
    | inr (room, e) ↦
        let (m, fresh) =
          round_robin_lem c (source_counts now db) (recent_successes now db) (consumed now db) j ls
            (unfold levels in levels_of-Filed _) e in
        admitted m (inr (room, fresh))
  ]

  -- Nothing is selected only if no eligible job continues a fan-out.
  pub select_job-none :
      select_job c now db ≡ none
      → In j db.queue
      → is_eligible now j ≡ true
      → (contains j.article_id (consumed now db) && is_newer_version (recent_successes now db) j)
        ≡ false
  unfolding select_job fan_out
  select_job-none h m e =
      first-none
        (λ i.
          contains i.article_id (consumed now db) && is_newer_version (recent_successes now db) i)
        (in_order ls) j (ground arith)
        (In-levels_all j (get_eligible_jobs now db.queue) (In-eligible_of now db j m e))
