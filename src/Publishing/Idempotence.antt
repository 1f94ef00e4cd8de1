-- ===== src/Publishing/Idempotence.antt =====
-- A second publish of an article whose deliveries all succeeded calls no publisher.
use yasin_press_rewrite.Base.{
  ◌≡◌, refl, inl, inr, String, true, ◌||◌, List, [], ◌∷◌, arith, map, All, Bool-cases, Option-cases,
  string_eq, ◌==◌, ==_refl, contains-add, if◌then◌else◌,
}
use yasin_press_rewrite.Models.{Instant, Article, PublishResult, delivery_key}
use yasin_press_rewrite.Database.{Db}
use yasin_press_rewrite.Database.Keys
use yasin_press_rewrite.Engine.Run.{skip}
use yasin_press_rewrite.Publishing.Reliability.{RetryPolicy}
use yasin_press_rewrite.Publishing.Orchestrator.{
  Destination, update_key, is_published, mark_delivered, publish_to, publish_all,
}

seen-mark :
    (k l : String) (keys : List String)
    → Keys.seen k (Keys.mark l keys) ≡ (Keys.seen k keys || (k == l))
unfolding Keys.seen Keys.mark
seen-mark k l keys = contains-add k l keys

module _ (iso : Instant → String) (a : Article) where
  seen-mark_delivered :
      (k destination : String) (keys : List String)
      → Keys.seen k keys ≡ true
      → Keys.seen k (mark_delivered iso a destination keys) ≡ true
  unfolding mark_delivered
  seen-mark_delivered k destination keys h = elim (Option-cases (update_key iso a destination)) [
    | inl e ↦ rw (e, mark_delivered, seen-mark, h) refl
    | inr (key, e) ↦ rw (e, mark_delivered, seen-mark, seen-mark, h) refl
  ]

  -- What is published stays published.
  is_published-keys :
      (destination : String) (keys keys' : List String)
      → ((k : String) → Keys.seen k keys ≡ true → Keys.seen k keys' ≡ true)
      → is_published iso a destination keys ≡ true
      → is_published iso a destination keys' ≡ true
  unfolding is_published
  is_published-keys destination keys keys' h = elim (Option-cases (update_key iso a destination)) [
    | inl e ↦ rw (e, is_published) (h (delivery_key a.id destination))
    | inr (key, e) ↦ rw (e, is_published) (h key)
  ]

  is_published-mark_delivered :
      (destination : String) (keys : List String)
      → is_published iso a destination (mark_delivered iso a destination keys) ≡ true
  unfolding is_published mark_delivered
  is_published-mark_delivered destination keys =
      elim (Option-cases (update_key iso a destination)) [
        | inl e ↦
            rw (e, is_published, mark_delivered, seen-mark, ==_refl (delivery_key a.id destination))
              (ground arith)
        | inr (key, e) ↦
            rw (e, is_published)
              (rw (seen-mark, e, mark_delivered) (rw (seen-mark, ==_refl key) (ground arith)))
      ]

  module _ (policy : RetryPolicy) (now : Instant) where
    publish_to-seen :
        (d : Destination) (db : Db) (k : String)
        → Keys.seen k db.keys ≡ true
        → Keys.seen k (publish_to iso policy now a d db).1.keys ≡ true
    unfolding publish_to
    publish_to-seen d db k h = ground (arith, h, seen-mark_delivered k d.name db.keys h)

    publish_to-is_published :
        (d : Destination) (db : Db)
        → (publish_to iso policy now a d db).0.success ≡ true
        → is_published iso a d.name (publish_to iso policy now a d db).1.keys ≡ true
    unfolding publish_to
    publish_to-is_published d db h = elim (Bool-cases (is_published iso a d.name db.keys)) [
      | inl p ↦ rw (p, if◌then◌else◌) p
      | inr p ↦ ground (arith, is_published-mark_delivered d.name db.keys)
    ]

    publish_all-seen :
        (ds : List Destination) (db : Db) (k : String)
        → Keys.seen k db.keys ≡ true
        → Keys.seen k (publish_all iso policy now a ds db).1.keys ≡ true
    unfolding publish_all
    publish_all-seen [] db k h = h
    publish_all-seen (d ∷ ds) db k h =
        publish_all-seen ds (publish_to iso policy now a d db).1 k (publish_to-seen d db k h)

    -- Every destination whose delivery succeeded is published after the run.
    publish_all-is_published :
        (ds : List Destination) (db : Db)
        → All (λ (r : PublishResult). r.success ≡ true) (publish_all iso policy now a ds db).0
        → All
            (λ (d : Destination).
              is_published iso a d.name (publish_all iso policy now a ds db).1.keys ≡ true)
            ds
    unfolding publish_all
    publish_all-is_published [] db h = tt
    publish_all-is_published (d ∷ ds) db h = (
      is_published-keys d.name (publish_to iso policy now a d db).1.keys _
          (λ k. publish_all-seen ds (publish_to iso policy now a d db).1 k)
          (publish_to-is_published d db h.0),
      publish_all-is_published ds (publish_to iso policy now a d db).1 h.1,
    )

    publish_all-skip :
        (ds : List Destination) (db : Db)
        → All (λ (d : Destination). is_published iso a d.name db.keys ≡ true) ds
        → publish_all iso policy now a ds db ≡ (map (λ (d : Destination). skip d.name a.id) ds, db)
    unfolding publish_all publish_to
    publish_all-skip [] db h = refl
    publish_all-skip (d ∷ ds) db h = rw (h.0, if◌then◌else◌) (rw (publish_all-skip ds db h.1) refl)

  -- Where every delivery of an article by the orchestrator succeeded, publishing it again, later
  -- and under whatever retry policy, calls no publisher: every result is a skip and the stores are
  -- unchanged.
  pub publish_again :
      (policy policy' : RetryPolicy) (now later : Instant) (ds : List Destination) (db : Db)
      → All (λ (r : PublishResult). r.success ≡ true) (publish_all iso policy now a ds db).0
      → publish_all iso policy' later a ds (publish_all iso policy now a ds db).1
        ≡ (map (λ (d : Destination). skip d.name a.id) ds, (publish_all iso policy now a ds db).1)
  publish_again policy policy' now later ds db h =
      publish_all-skip policy' later ds (publish_all iso policy now a ds db).1
        (publish_all-is_published policy now ds db h)
