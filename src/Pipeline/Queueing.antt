-- ===== src/Pipeline/Queueing.antt =====
-- ProcessingService: which fresh articles are queued, and with what priority. What the lists of
-- Persian terms find in a text is a parameter.
use yasin_press_rewrite.Base.{
  ℕ, ◌+◌, ◌*◌, String, Bool, true, ◌&&◌, ◌||◌, not, List, [], ◌∷◌, Option, none, some, ltb, leb,
  min, any, all, total, if◌then◌else◌, some_and, select, nat_eq, string_eq, ◌==◌, map,
}
use yasin_press_rewrite.Models.{
  Instant, Article, PublicationJob, pending, seconds, news_timestamp, job_id, delivery_key,
}
use yasin_press_rewrite.Database.Keys
use yasin_press_rewrite.Database.Queue.{add_job, get_job}
use yasin_press_rewrite.Pipeline.Articles.{fresh}

-- processing/priority.py
pub record PriorityResult : Type 0 where
  pub score : ℕ
  pub level : String

-- What the term lists find in an article's text: how many of the high and of the medium terms are in
-- it, whether "breaking" is, and whether its title has a term for a severe event.
pub record Signals : Type 0 where
  pub high_hits : Article → ℕ
  pub medium_hits : Article → ℕ
  pub says_breaking : Article → Bool
  pub severe : Article → Bool

unfoldable pub calculate_priority : Signals → Article → PriorityResult
calculate_priority signals a = record {
  score = min 100 (signals.high_hits a * 60 + min (signals.medium_hits a) 2 * 10);
  level =
      if signals.says_breaking a || leb 2 (signals.high_hits a)
      then "breaking"
      else if signals.high_hits a == 1
      then "urgent"
      else if ltb 0 (signals.medium_hits a)
      then "important"
      else "normal";
}

-- processing/breaking.py: is_breaking, for an age of twelve hours at most, where a future time has
-- the age 0.
unfoldable pub is_breaking : Instant → Option Instant → Bool → Bool
is_breaking now published severe = some_and published (λ t. leb now (t + seconds 43_200)) && severe

-- The level and priority of process.
unfoldable pub queue_priority : Bool → PriorityResult → String × ℕ
queue_priority is_breaking result =
    if is_breaking
    then ("breaking", 40)
    else if result.level == "high"
    then ("urgent", 30)
    else if result.level == "medium"
    then ("important", 20)
    else ("normal", 10)

-- `self.publisher.publishers`, by their names.
unfoldable pub fully_delivered : Article → List String → List String → Bool
fully_delivered a publishers keys = some_and a.published_to_channel_at (λ p.
    not (some_and (news_timestamp a) (λ t. ltb (p + seconds 5) t))
    && (any (λ name. true) publishers
        && all (λ name. Keys.seen (delivery_key a.id name) keys) publishers))

-- The article's news is more than five seconds after its last publication.
unfoldable pub is_updated : Article → Bool
is_updated a =
    some_and a.published_to_channel_at
      (λ p. some_and (news_timestamp a) (λ t. ltb (p + seconds 5) t))

unfoldable pub needs_queue : Article → Option PublicationJob → Bool
unfolding is_updated
needs_queue a none = true
needs_queue a (some job) = elim a.published_to_channel_at [ none ↦ true | some p ↦ is_updated a ]

unfoldable pub new_job : Signals → Instant → ℕ → Article → String → PublicationJob
unfolding queue_priority is_breaking
new_job signals now max_attempts a destination =
    let (level, priority) =
      queue_priority (is_breaking now a.published_at (signals.severe a))
        (calculate_priority signals a) in
    record {
      id = job_id a.id destination;
      article_id = a.id;
      destination = destination;
      status = pending;
      priority = priority;
      priority_level = level;
      source = a.source;
      attempts = 0;
      max_attempts = max_attempts;
      last_error = none;
      lease_expires_at = none;
      next_attempt_at = none;
      created_at = now;
    }

-- The loop over the publishers for one article: the number of queued jobs, and the queue.
unfoldable pub queue_article :
    Signals → Instant → ℕ → Article → List String → List PublicationJob → ℕ × List PublicationJob
unfolding new_job needs_queue
queue_article signals now max_attempts a [] rows = (0, rows)
queue_article signals now max_attempts a (name ∷ names) rows =
    if needs_queue a (get_job (job_id a.id name) rows)
    then (let (n, after) =
          queue_article signals now max_attempts a names
            (add_job (new_job signals now max_attempts a name) rows) in
        (n + 1, after))
    else queue_article signals now max_attempts a names rows

unfoldable pub queue_articles :
    Signals
    → Instant
    → ℕ
    → List String
    → List Article
    → List PublicationJob
    → ℕ × List PublicationJob
unfolding queue_article
queue_articles signals now max_attempts names [] rows = (0, rows)
queue_articles signals now max_attempts names (a ∷ articles) rows =
    let (n, mid) = queue_article signals now max_attempts a names rows in
    let (m, after) = queue_articles signals now max_attempts names articles mid in (n + m, after)

-- The enriched fresh articles.
unfoldable pub news : (Article → Article) → Instant → ℕ → List Article → List Article
news enrich now max_age articles = map enrich (select (fresh now max_age) articles)

unfoldable pub undelivered :
    (Article → Article) → Instant → ℕ → List String → List String → List Article → List Article
unfolding news fully_delivered
undelivered enrich now max_age names keys articles =
    select (λ a. not (fully_delivered a names keys)) (news enrich now max_age articles)

-- The counts of a ProcessingReport.
pub record Report : Type 0 where
  pub old_count : ℕ
  pub queued_count : ℕ
  pub duplicate_count : ℕ

-- process with a publication queue, from the normalized articles on; `enrich` is what the AI provider
-- makes of an article.
unfoldable pub process :
    Signals
    → (Article → Article)
    → Instant
    → ℕ
    → ℕ
    → List String
    → List String
    → List Article
    → List PublicationJob
    → Report × List PublicationJob
unfolding queue_articles undelivered
process signals enrich now max_age max_attempts names keys articles rows =
    let (n, after) =
      queue_articles signals now max_attempts names
        (undelivered enrich now max_age names keys articles) rows in
    (
      record {
        old_count = total (λ a. if fresh now max_age a then 0 else 1) articles;
        queued_count = n;
        duplicate_count =
            total (λ a. if fully_delivered a names keys then 1 else 0)
              (news enrich now max_age articles);
      },
      after,
    )
