-- ===== src/Application/Intake.antt =====
-- process_items keeps the tables of the process proper, where the ids that normalize makes are no absolute
-- URLs and the AI provider changes neither id nor URL.
use yasin_press_rewrite.Base.{
  ℕ, ◌≡◌, ◌+◌, refl, ap, ◌∙◌, inl, inr, sym, subst, String, Bool, true, false, List, [], ◌∷◌,
  Option, none, some, In, In-first, In-select, Option-cases, and-true, if◌then◌else◌, string_eq,
  lookup, map, not, Dict, put, lookup-put, ◌==◌, arith,
}
use yasin_press_rewrite.Models.{Instant, Article, PublicationJob}
use yasin_press_rewrite.Database.Articles
use yasin_press_rewrite.Database.Queue.{get_job, add_job}
use yasin_press_rewrite.Database.Keyed.{IsKeyed, add_job-IsKeyed}
use yasin_press_rewrite.Pipeline.Articles.{FeedItem, normalize, incoming_news, fresh}
use yasin_press_rewrite.Pipeline.Items.{
  Cleaning, PipelineResult, normalized, cleaned, process_feed, is_valid,
}
use yasin_press_rewrite.Pipeline.Queueing.{
  Signals, news, process, new_job, needs_queue, queue_article, queue_articles, undelivered,
}
use yasin_press_rewrite.Engine.Reach.{World}
use yasin_press_rewrite.Application.Calls.{
  by_id, all_articles, Application, FeedSettings, names, normalized_articles, process_items,
}
use yasin_press_rewrite.Application.Proper.{
  IsTelling, IsPointing, IsProper, add_job-IsPointing, save-IsTelling,
}

In-map :
    (f : Article → Article) (y : Article) (xs : List Article)
    → In y (map f xs)
    → (x : Article) × In x xs × (y ≡ f x)
In-map f y [] h = elim h [ ]
In-map f y (x ∷ xs) (inl e) = (x, inl refl, e)
In-map f y (x ∷ xs) (inr h) = let (z, m, e) = In-map f y xs h in (z, inr m, e)

same_some : (a x : Article) → some a ≡ some x → a ≡ x
same_some a x e = ground arith

module _ (is_absolute : String → Bool) where
  save_many-IsTelling :
      (kept rows : List Article)
      → IsTelling is_absolute kept
      → IsTelling is_absolute rows
      → IsTelling is_absolute (Articles.save_many kept rows).0
  unfolding Articles.save_many
  save_many-IsTelling [] rows k h = h
  save_many-IsTelling (a ∷ kept) rows k h = elim (Option-cases (Articles.save a rows)) [
    | inl e ↦ rw (e, Articles.save_many) h
    | inr (after, e) ↦
        rw (e, Articles.save_many)
          (save_many-IsTelling kept after (λ x m. k x (inr m))
            (save-IsTelling is_absolute a rows after (k a (inl refl)).0 (k a (inl refl)).1 h e))
  ]

  module _ (signals : Signals) (now : Instant) (max_attempts : ℕ) where
    queue_article-kept :
        (a : Article) (names : List String) (rows : List PublicationJob)
        → is_absolute a.id ≡ false
        → IsPointing is_absolute rows
        → IsKeyed rows
        → IsPointing is_absolute (queue_article signals now max_attempts a names rows).1
          × IsKeyed (queue_article signals now max_attempts a names rows).1
    unfolding queue_article new_job
    queue_article-kept a [] rows i h k = (h, k)
    queue_article-kept a (name ∷ names) rows i h k =
        by_need _ _ (needs_queue a (get_job _ rows))
          (queue_article-kept a names (add_job (new_job signals now max_attempts a name) rows) i
            (add_job-IsPointing is_absolute (new_job signals now max_attempts a name) rows i h)
            (add_job-IsKeyed (new_job signals now max_attempts a name) rows k))
          (queue_article-kept a names rows i h k)
      where
        by_need :
            (x y : ℕ × List PublicationJob) (b : Bool)
            → IsPointing is_absolute x.1 × IsKeyed x.1
            → IsPointing is_absolute y.1 × IsKeyed y.1
            → IsPointing is_absolute (if b then (x.0 + 1, x.1) else y).1
              × IsKeyed (if b then (x.0 + 1, x.1) else y).1
        by_need x y true p q = p
        by_need x y false p q = q

    queue_articles-kept :
        (all_names : List String) (articles : List Article) (rows : List PublicationJob)
        → ((a : Article) → In a articles → is_absolute a.id ≡ false)
        → IsPointing is_absolute rows
        → IsKeyed rows
        → IsPointing is_absolute (queue_articles signals now max_attempts all_names articles rows).1
          × IsKeyed (queue_articles signals now max_attempts all_names articles rows).1
    unfolding queue_articles
    queue_articles-kept all_names [] rows i h k = (h, k)
    queue_articles-kept all_names (a ∷ articles) rows i h k =
        let (p, q) = queue_article-kept a all_names rows (i a (inl refl)) h k in
        queue_articles-kept all_names articles _ (λ x m. i x (inr m)) p q

  -- The ids of process_feed are those of stored articles, or new ones.
  normalized-id :
      (c : Cleaning) (source : String) (rows : List Article) (item : FeedItem)
      → ((t : Instant) (url : String) → is_absolute (c.texts.news_id t url) ≡ false)
      → IsTelling is_absolute rows
      → is_absolute (normalized c source rows item).id ≡ false
  unfolding normalized normalize Articles.get
  normalized-id c source rows item fresh_ids h =
      elim (Option-cases (Articles.get (cleaned c item).url rows)) [
        | inl e ↦ rw e (by_news (incoming_news (cleaned c item) none))
        | inr (a, e) ↦ rw e (h a (In-first _ rows a e).0).1
      ]
    where
      by_news :
          (t : Option Instant)
          → is_absolute (elim t as (λ _. String) [
            | some t ↦ c.texts.news_id t (cleaned c item).url
            | none ↦ c.texts.news_id item.fetched_at (cleaned c item).url
          ])
            ≡ false
      by_news none = fresh_ids item.fetched_at (cleaned c item).url
      by_news (some t) = fresh_ids t (cleaned c item).url

  process_feed-IsTelling :
      (c : Cleaning) (duplicate : Article → Bool) (now : Instant) (source : String)
      (rows : List Article) (items : List FeedItem)
      → c.is_absolute ≡ is_absolute
      → ((t : Instant) (url : String) → is_absolute (c.texts.news_id t url) ≡ false)
      → IsTelling is_absolute rows
      → IsTelling is_absolute (process_feed c duplicate now source rows items).articles
  unfolding process_feed is_valid
  process_feed-IsTelling c duplicate now source rows [] same fresh_ids h = λ x m. elim m [ ]
  process_feed-IsTelling c duplicate now source rows (item ∷ items) same fresh_ids h =
      by_tests (duplicate a) (is_valid c a) refl
        (process_feed-IsTelling c duplicate now source rows items same fresh_ids h)
    where
      a : Article
      a = normalized c source rows item

      rest : PipelineResult
      rest = process_feed c duplicate now source rows items

      by_tests :
          (d v : Bool)
          → is_valid c a ≡ v
          → IsTelling is_absolute rest.articles
          → IsTelling is_absolute
              (if d
                then rest
                else if not v
                then record rest { rejected = rest.rejected + 1 }
                else record {
                  processed = rest.processed + 1;
                  rejected = rest.rejected;
                  articles = record a { processed_at = some now } ∷ rest.articles;
                }).articles
      by_tests true v e k = k
      by_tests false false e k = k
      by_tests false true e k = λ x m. elim m [
        | inl new ↦
            rw new (rw (← same) ((and-true _ _ e).1), normalized-id c source rows item fresh_ids h)
        | inr old ↦ k x old
      ]

  news-IsTelling :
      (enrich : Article → Article) (now : Instant) (max_age : ℕ) (articles : List Article)
      → ((a : Article) → ((enrich a).url ≡ a.url) × ((enrich a).id ≡ a.id))
      → IsTelling is_absolute articles
      → IsTelling is_absolute (news enrich now max_age articles)
  unfolding news
  news-IsTelling enrich now max_age articles keeps h x m =
      let (a, i, e) = In-map enrich x _ m in
      let told = h a (In-select (fresh now max_age) a articles i).0 in
      rw e (ap is_absolute (keeps a).0 ∙ told.0, ap is_absolute (keeps a).1 ∙ told.1)

  -- What stands in a dictionary of articles satisfies what all of them do.
  by_id-holds :
      (enriched : List Article) (d : Dict String Article) (P : Article → Type 0)
      → ((x : Article) → In x enriched → P x)
      → ((key : String) (x : Article) → lookup key d ≡ some x → P x)
      → (key : String) (x : Article) → lookup key (by_id enriched d) ≡ some x
      → P x
  unfolding by_id
  by_id-holds [] d P h k = k
  by_id-holds (a ∷ more) d P h k =
      by_id-holds more (put a.id a d) P (λ x m. h x (inr m))
        λ key x e. put_or (key == a.id) (lookup key d) x (k key x) (rw (lookup-put) at e)
    where
      put_or :
          (b : Bool) (old : Option Article) (x : Article)
          → (old ≡ some x → P x)
          → (if b then some a else old) ≡ some x
          → P x
      put_or true old x f e = subst P (same_some a x e) (h a (inl refl))
      put_or false old x f e = f e

  all_articles-IsTelling :
      (enriched articles : List Article)
      → IsTelling is_absolute enriched
      → IsTelling is_absolute articles
      → IsTelling is_absolute (all_articles enriched articles)
  unfolding all_articles lookup
  all_articles-IsTelling enriched articles k h x m =
      let (a, i, e) = In-map _ x articles m in
      subst (λ y. (is_absolute y.url ≡ true) × (is_absolute y.id ≡ false)) (sym e)
        (by_entry a (h a i) (lookup a.id (by_id enriched [])) (
          by_id-holds enriched [] (λ y. (is_absolute y.url ≡ true) × (is_absolute y.id ≡ false)) k
            in_empty a.id))
    where
      in_empty :
          (key : String) (y : Article)
          → lookup key [] ≡ some y
          → (is_absolute y.url ≡ true) × (is_absolute y.id ≡ false)
      in_empty key y f = absurd (ground (arith, f))

      by_entry :
          (a : Article)
          → (is_absolute a.url ≡ true) × (is_absolute a.id ≡ false)
          → (b : Option Article)
          → ((y : Article) → b ≡ some y → (is_absolute y.url ≡ true) × (is_absolute y.id ≡ false))
          → (is_absolute (elim b as (λ _. Article) [ none ↦ a | some c ↦ c ]).url ≡ true)
            × (is_absolute (elim b as (λ _. Article) [ none ↦ a | some c ↦ c ]).id ≡ false)
      by_entry a t none f = t
      by_entry a t (some c) f = f c refl

  -- The whole of process_items, on the tables.
  pub process_items-IsProper :
      (iso : Instant → String) (app : Application) (f : FeedSettings) (signals : Signals)
      (enrich : Article → Article) (items : List FeedItem) (w : World)
      → f.cleaning.is_absolute ≡ is_absolute
      → ((t : Instant) (url : String) → is_absolute (f.cleaning.texts.news_id t url) ≡ false)
      → ((a : Article) → ((enrich a).url ≡ a.url) × ((enrich a).id ≡ a.id))
      → IsProper is_absolute w.db
      → IsProper is_absolute (process_items iso app f signals enrich items w).1.db
  unfolding process_items process normalized_articles undelivered
  process_items-IsProper iso app f signals enrich items w same fresh_ids keeps h =
      let normal : List Article = (normalized_articles f items w).articles in
      let told : IsTelling is_absolute normal =
        process_feed-IsTelling f.cleaning _ w.now f.source w.db.articles _ same fresh_ids
          h.articles in
      let enriched = news-IsTelling enrich w.now app.max_age normal keeps told in
      let (pointing, keyed) =
        queue_articles-kept signals w.now app.max_attempts (names iso app)
          (undelivered enrich w.now app.max_age (names iso app) w.db.keys normal) w.db.queue
          (λ a m. (enriched a (In-select _ a _ m).0).1) h.jobs h.keyed in
      record {
        articles =
            save_many-IsTelling _ w.db.articles
              (all_articles-IsTelling (news enrich w.now app.max_age normal) normal enriched told)
              h.articles;
        jobs = pointing;
        keyed = keyed;
      }
