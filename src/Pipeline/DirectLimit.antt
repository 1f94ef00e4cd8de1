-- ===== src/Pipeline/DirectLimit.antt =====
-- Publishing at once keeps the hourly limit.
use yasin_press_rewrite.Base.{
  ℕ, ◌+◌, ◌-◌, ◌≤◌, ◌≡◌, refl, ◌⊎◌, inl, inr, String, Bool, true, false, List, [], ◌∷◌, ◌++◌,
  Option, none, some, arith, any, take, map, total, length, length-take, select, to_set, max,
  length-union, length-le_of_subset, contains, contains-union, union, string_eq, ==_refl,
  if◌then◌else◌, Bool-cases,
}
use yasin_press_rewrite.Models.{Instant, Article, DeliveryRecord, PublishResult}
use yasin_press_rewrite.Database.{Db}
use yasin_press_rewrite.Database.Articles
use yasin_press_rewrite.Engine.Consumed.{
  consumed, recent_ids, active_ids, recent_successes, is_recent,
}
use yasin_press_rewrite.Engine.Usage.{Uses, Uses-consumed, consumed-Uses, Distinct-consumed}
use yasin_press_rewrite.Engine.Frames.{add-Uses}
use yasin_press_rewrite.Engine.Grows.{Grows}
use yasin_press_rewrite.Publishing.Reliability.{RetryPolicy}
use yasin_press_rewrite.Publishing.Orchestrator.{
  Destination, is_published, send, sent_record, publish_to, publish_all,
}
use yasin_press_rewrite.Pipeline.Queueing.{undelivered}
use yasin_press_rewrite.Pipeline.FairBatch.{select_fair_batch}
use yasin_press_rewrite.Pipeline.Direct.{
  Published, published_last_hour, publish_selected, process_direct,
}

abbrev ids : List Article → List String
ids articles = map (λ (a : Article). a.id) articles

length-map : {A B : Type 0} (f : A → B) (xs : List A) → length (map f xs) ≡ length xs
length-map f [] = refl
length-map f (x ∷ xs) = omega (arith, length-map f xs)

length-select-total :
    {A : Type 0} (test : A → Bool) (xs : List A)
    → length (select test xs) ≡ total (λ x. if test x then 1 else 0) xs
unfolding select total
length-select-total test [] = refl
length-select-total test (x ∷ xs) = ground (arith, length-select-total test xs)

length-to_set-le : (xs : List String) → length (to_set xs) ≤ length xs
unfolding to_set
length-to_set-le xs = omega (arith, length-union [] xs)

-- Of the articles in use, those that were delivered are counted by the delivery records at least once.
length-consumed-published :
    (now : Instant) (db : Db)
    → length (consumed now db) ≤ published_last_hour now db.history + length (active_ids now db)
unfolding consumed recent_ids recent_successes published_last_hour
length-consumed-published now db = omega (
  arith,
  length-union (recent_ids now db) (active_ids now db),
  length-to_set-le (map (λ (r : DeliveryRecord). r.article_id) (recent_successes now db)),
  length-map (λ (r : DeliveryRecord). r.article_id) (recent_successes now db),
  length-select-total (is_recent now) db.history,
)

module _ (iso : Instant → String) (policy : RetryPolicy) (now : Instant) where
  publish_to-Grows :
      (a : Article) (d : Destination) (db : Db)
      → Grows now db a.id (publish_to iso policy now a d db).1
  unfolding publish_to sent_record
  publish_to-Grows a d db = elim (Bool-cases (is_published iso a d.name db.keys)) [
    | inl e ↦ rw (e, if◌then◌else◌) (λ b u. inr u)
    | inr e ↦ rw (e, if◌then◌else◌) (add-Uses now db (sent_record now a (send policy a d)))
  ]

  publish_all-Grows :
      (a : Article) (ds : List Destination) (db : Db)
      → Grows now db a.id (publish_all iso policy now a ds db).1
  unfolding publish_all
  publish_all-Grows a [] db b u = inr u
  publish_all-Grows a (d ∷ ds) db b u =
      elim (publish_all-Grows a ds (publish_to iso policy now a d db).1 b u) [
        | inl e ↦ inl e
        | inr v ↦ publish_to-Grows a d db b v
      ]

  -- The articles in use are the given ones and those that were before.
  abbrev Covered : List Article → Db → Db → Type 0
  Covered articles db after =
      (b : String) → Uses now after b → (contains b (ids articles) ≡ true) ⊎ Uses now db b

  Covered-cons :
      (a : Article) (more : List Article) (db mid after : Db)
      → Grows now db a.id mid
      → Covered more mid after
      → Covered (a ∷ more) db after
  unfolding contains
  Covered-cons a more db mid after g k b u = elim (k b u) [
    | inl m ↦ inl (rw m (ground arith))
    | inr v ↦ elim (g b v) [ inl e ↦ inl (rw (e, ==_refl a.id) refl) | inr w ↦ inr w ]
  ]

  publish_selected-Covered :
      (ds : List Destination) (articles : List Article) (db : Db)
      → Covered articles db (publish_selected iso policy now ds articles db).db
  unfolding publish_selected
  publish_selected-Covered ds [] db = λ b u. inr u
  publish_selected-Covered ds (a ∷ more) db =
      by_success (any (λ (r : PublishResult). r.success) results)
        (Articles.save (record a { published_to_channel_at = some now }) mid.articles)
        (publish_selected-Covered ds more mid)
        (λ rows. publish_selected-Covered ds more (record mid { articles = rows }))
    where
      results : List PublishResult
      results = (publish_all iso policy now a ds db).0

      mid : Db
      mid = (publish_all iso policy now a ds db).1

      rest : Db → Published
      rest next = publish_selected iso policy now ds more next

      by_success :
          (b : Bool) (saved : Option (List Article))
          → Covered more mid (rest mid).db
          → ((rows : List Article)
              → Covered more
                  (record mid { articles = rows })
                  (rest (record mid { articles = rows })).db)
          → Covered
              (a ∷ more)
              db
              (if◌then◌else◌ {A = Published} b
                (elim saved as (λ _. Published) [
                  | none ↦ record { results = results; updated = []; raised = true; db = mid }
                  | some rows ↦ record (rest (record mid { articles = rows })) {
                    results = results ++ (rest (record mid { articles = rows })).results;
                    updated =
                        record a { published_to_channel_at = some now }
                        ∷ (rest (record mid { articles = rows })).updated;
                  }
                ])
                (record (rest mid) { results = results ++ (rest mid).results })).db
      by_success true none h k =
          Covered-cons a more db mid mid (publish_all-Grows a ds db) (λ b u. inr u)
      by_success true (some rows) h k =
          Covered-cons a more db mid (rest (record mid { articles = rows })).db
            (publish_all-Grows a ds db) (k rows)
      by_success false saved h k =
          Covered-cons a more db mid (rest mid).db (publish_all-Grows a ds db) h

  publish_selected-usage :
      (ds : List Destination) (articles : List Article) (db : Db)
      → length (consumed now (publish_selected iso policy now ds articles db).db)
        ≤ length (consumed now db) + length articles
  publish_selected-usage ds articles db = omega (
    arith,
    length-le_of_subset (consumed now (publish_selected iso policy now ds articles db).db)
        (union (consumed now db) (ids articles))
        (Distinct-consumed now (publish_selected iso policy now ds articles db).db)
        (λ b m. inside b (
          publish_selected-Covered ds articles db b
            (consumed-Uses now (publish_selected iso policy now ds articles db).db b m))),
    length-union (consumed now db) (ids articles),
    length-map (λ (a : Article). a.id) articles,
  )
    where
      inside :
          (b : String)
          → (contains b (ids articles) ≡ true) ⊎ Uses now db b
          → contains b (union (consumed now db) (ids articles)) ≡ true
      inside b (inl m) = rw (contains-union, m) (ground arith)
      inside b (inr u) = rw (contains-union, Uses-consumed now db b u) (ground arith)

  -- Publishing at once, without a queue, leaves at most as many articles in use as the hourly
  -- limit, or the deliveries of the last hour if they are more, and the articles under a lease,
  -- whatever the destinations answer.
  pub process_direct-usage :
      (enrich : Article → Article) (max_age limit : ℕ) (ds : List Destination)
      (articles : List Article) (db : Db)
      → length
          (consumed now (process_direct iso policy enrich now max_age limit ds articles db).1.db)
        ≤ max limit (published_last_hour now db.history) + length (active_ids now db)
  unfolding process_direct
  process_direct-usage enrich max_age limit ds articles db =
      let available : ℕ = limit - published_last_hour now db.history in
      let left : List Article =
        undelivered enrich now max_age (map (λ (d : Destination). d.name) ds) db.keys articles in
      omega (
        arith,
        publish_selected-usage ds (take available (select_fair_batch limit left)) db,
        length-take available (select_fair_batch limit left),
        length-consumed-published now db,
      )
