-- ===== src/Engine/Usage.antt =====
-- What it means that an article uses up the hourly limit, and how the number of such articles grows.
use yasin_press_rewrite.Base.{
  ◌≤◌, ◌≡◌, refl, ◌⊎◌, inl, inr, String, true, arith, In, In-sort_by, In-sort_by_of, In-select,
  In-select_of, contains, contains-map, contains-map_of, contains-union, contains-to_set,
  contains-add, add, length, Distinct, Distinct-union, Distinct-to_set, length-le_of_subset,
  or-true, map, string_eq, ==_refl,
}
use yasin_press_rewrite.Models.{Instant, PublicationJob, DeliveryRecord}
use yasin_press_rewrite.Database.{Db}
use yasin_press_rewrite.Database.Queue.{get_all_jobs}
use yasin_press_rewrite.Engine.Consumed.{
  is_recent, recent_successes, is_active, processing_jobs, recent_ids, active_ids, consumed,
}

-- The article was delivered within the hour, or is being delivered under a lease.
abbrev pub Uses : Instant → Db → String → Type 0
Uses now db a =
    ((r : DeliveryRecord) × In r db.history × (is_recent now r ≡ true) × (a ≡ r.article_id))
    ⊎ ((j : PublicationJob) × In j db.queue × (is_active now j ≡ true) × (a ≡ j.article_id))

contains-recent_ids :
    (now : Instant) (db : Db) (a : String)
    → contains a (recent_ids now db)
      ≡ contains a (map (λ (r : DeliveryRecord). r.article_id) (recent_successes now db))
unfolding recent_ids
contains-recent_ids now db a =
    contains-to_set a (map (λ (r : DeliveryRecord). r.article_id) (recent_successes now db))

contains-active_ids :
    (now : Instant) (db : Db) (a : String)
    → contains a (active_ids now db)
      ≡ contains a (map (λ (j : PublicationJob). j.article_id) (processing_jobs now db))
unfolding active_ids
contains-active_ids now db a =
    contains-to_set a (map (λ (j : PublicationJob). j.article_id) (processing_jobs now db))

contains-consumed :
    (now : Instant) (db : Db) (a : String)
    → contains a (consumed now db) ≡ true
    → (contains a (recent_ids now db) ≡ true) ⊎ (contains a (active_ids now db) ≡ true)
unfolding consumed
contains-consumed now db a h = or-true _ _ (rw contains-union at h)

pub consumed-Uses :
    (now : Instant) (db : Db) (a : String) → contains a (consumed now db) ≡ true → Uses now db a
unfolding recent_successes processing_jobs get_all_jobs
consumed-Uses now db a h = elim (contains-consumed now db a h) [
  | inl p ↦
      let (r, i, e) =
        contains-map (λ (r : DeliveryRecord). r.article_id) a (recent_successes now db)
          (rw contains-recent_ids at p) in
      let (m, t) = In-select (is_recent now) r db.history i in inl (r, m, t, e)
  | inr p ↦
      let (j, i, e) =
        contains-map (λ (j : PublicationJob). j.article_id) a (processing_jobs now db)
          (rw contains-active_ids at p) in
      let (m, t) = In-select (is_active now) j (get_all_jobs db.queue) i in
      inr (j, In-sort_by _ j db.queue m, t, e)
]

pub Uses-consumed :
    (now : Instant) (db : Db) (a : String) → Uses now db a → contains a (consumed now db) ≡ true
unfolding consumed recent_successes processing_jobs get_all_jobs
Uses-consumed now db a (inl (r, m, t, e)) =
    rw
      (
        contains-union,
        contains-recent_ids,
        contains-map_of (λ (r : DeliveryRecord). r.article_id) a r (recent_successes now db)
            (In-select_of (is_recent now) r db.history m t) e,
      )
      refl
Uses-consumed now db a (inr (j, m, t, e)) =
    rw
      (
        contains-union,
        contains-active_ids,
        contains-map_of (λ (j : PublicationJob). j.article_id) a j (processing_jobs now db)
            (In-select_of (is_active now) j (get_all_jobs db.queue) (In-sort_by_of _ j db.queue m)
              t)
            e,
      )
      (ground arith)

pub Distinct-consumed : (now : Instant) (db : Db) → Distinct (consumed now db)
unfolding consumed recent_ids
Distinct-consumed now db =
    Distinct-union (recent_ids now db) (active_ids now db)
      (Distinct-to_set (map (λ (r : DeliveryRecord). r.article_id) (recent_successes now db)))

module _ (now now' : Instant) (db db' : Db) where
  -- Without a new article the usage does not grow.
  pub length-consumed-le :
      ((a : String) → Uses now' db' a → Uses now db a)
      → length (consumed now' db') ≤ length (consumed now db)
  length-consumed-le h =
      length-le_of_subset (consumed now' db') (consumed now db) (Distinct-consumed now' db')
        λ a m. Uses-consumed now db a (h a (consumed-Uses now' db' a m))

  -- With one article it grows by one at most, and not at all if the article is in use.
  pub length-consumed-add :
      (b : String)
      → ((a : String) → Uses now' db' a → (a ≡ b) ⊎ Uses now db a)
      → length (consumed now' db') ≤ length (add b (consumed now db))
  length-consumed-add b h =
      length-le_of_subset (consumed now' db') (add b (consumed now db)) (Distinct-consumed now' db')
        λ a m. inside a (h a (consumed-Uses now' db' a m))
    where
      inside : (a : String) → (a ≡ b) ⊎ Uses now db a → contains a (add b (consumed now db)) ≡ true
      inside a (inl e) = rw (contains-add, e, ==_refl b) (ground arith)
      inside a (inr u) = rw (contains-add, Uses-consumed now db a u) (ground arith)
