-- ===== src/Application/Production.antt =====
-- The hourly limit over any number of ticks of the process that build_runtime makes.
use yasin_press_rewrite.Base.{
  ℕ, zero, suc, ◌+◌, ◌≤◌, ◌≡◌, refl, String, Bool, true, false, List, [], ◌∷◌, Option, arith,
  length, lookup, string_eq, if◌then◌else◌,
}
use yasin_press_rewrite.Models.{Instant, Article}
use yasin_press_rewrite.Engine.Consumed.{consumed, recent_ids}
use yasin_press_rewrite.Engine.Usage.{length-consumed-le}
use yasin_press_rewrite.Engine.Frames.{Uses-later}
use yasin_press_rewrite.Engine.Reach.{World, recent_ids-le}
use yasin_press_rewrite.Processor.Cycle.{process_cycle}
use yasin_press_rewrite.Processor.Hourly.{process_cycle-usage}
use yasin_press_rewrite.Pipeline.Articles.{FeedItem}
use yasin_press_rewrite.Pipeline.Queueing.{process}
use yasin_press_rewrite.Pipeline.Submission.{process-within}
use yasin_press_rewrite.Application.Calls.{
  ApplicationReport, names, normalized_articles, process_items, publisher_map,
}
use yasin_press_rewrite.Application.Proper.{IsProper, IsProper-IsNamed}
use yasin_press_rewrite.Application.ProperCycle.{process_cycle-IsProper}
use yasin_press_rewrite.Application.Intake.{process_items-IsProper}
use yasin_press_rewrite.Application.Factory.{
  Setup, Production, FeedCall, TickInput, fetch_attempts, work_once, tick, run_ticks,
}

-- No id of an article is an absolute URL, and the AI provider keeps the id and the URL.
pub record IsSound (s : Setup) : Type 0 where
  pub new_ids :
      (t : Instant) (url : String)
      → s.feed.cleaning.is_absolute (s.feed.cleaning.texts.news_id t url) ≡ false
  pub keeps :
      (t : Instant) (a : Article) → ((s.enrich t a).url ≡ a.url) × ((s.enrich t a).id ≡ a.id)

-- The tables, and the articles that use up the hour.
pub record IsSafe (s : Setup) (w : World) : Type 0 where
  pub proper : IsProper s.feed.cleaning.is_absolute w.db
  pub within : length (consumed w.now w.db) ≤ s.limits.global_limit

module _ (s : Setup) (sound : IsSound s) where
  later-IsSafe : (pause : ℕ) (w : World) → IsSafe s w → IsSafe s (record w { now = w.now + pause })
  later-IsSafe pause w h = record {
    proper = h.proper;
    within = omega (
      arith,
      length-consumed-le w.now (w.now + pause) w.db w.db
          (λ a u. Uses-later w.now (w.now + pause) w.db a (omega arith) u),
      h.within,
    );
  }

  fed-IsSafe :
      (items : List FeedItem) (w : World)
      → IsSafe s w
      → IsSafe s (process_items s.iso s.app s.feed s.signals (s.enrich w.now) items w).1
  unfolding process_items
  fed-IsSafe items w h = record {
    proper =
        process_items-IsProper s.feed.cleaning.is_absolute s.iso s.app s.feed s.signals
          (s.enrich w.now) items w refl sound.new_ids (sound.keeps w.now) h.proper;
    within = omega (
      arith,
      length-consumed-le w.now w.now
          (record w.db {
            queue =
                (process s.signals (s.enrich w.now) w.now s.app.max_age s.app.max_attempts
                  (names s.iso s.app) w.db.keys (normalized_articles s.feed items w).articles
                  w.db.queue).1;
          })
          (process_items s.iso s.app s.feed s.signals (s.enrich w.now) items w).1.db (λ a u. u),
      process-within s.iso s.limits s.signals w.now s.app.max_attempts (s.enrich w.now)
          s.app.max_age (names s.iso s.app) (normalized_articles s.feed items w).articles w.db
          (record { keyed = h.proper.keyed; within = h.within }),
    );
  }

  cycle-IsSafe :
      (w : World)
      → IsSafe s w
      → IsSafe s (record w {
        db =
            (process_cycle s.iso s.at_most s.limits
              (λ name. lookup name (publisher_map s.app.publishers []))
              w.now
              w.db).db;
      })
  cycle-IsSafe w h = record {
    proper =
        process_cycle-IsProper s.feed.cleaning.is_absolute s.iso s.limits w.now
          (λ name. lookup name (publisher_map s.app.publishers [])) s.at_most w.db h.proper;
    within = omega (
      arith,
      process_cycle-usage s.iso s.at_most s.limits
          (λ name. lookup name (publisher_map s.app.publishers [])) w.now w.db h.proper.keyed
          (IsProper-IsNamed s.feed.cleaning.is_absolute w.db h.proper),
      h.within,
    );
  }

  fetch_attempts-IsSafe :
      (fetched : ℕ → FeedCall) (left attempt : ℕ) (w : World)
      → IsSafe s w
      → IsSafe s (fetch_attempts s fetched left attempt w).1
  unfolding fetch_attempts
  fetch_attempts-IsSafe fetched zero attempt w h = h
  fetch_attempts-IsSafe fetched (suc left) attempt w h =
      by_persisted _ _ _ mid (fetch_attempts-IsSafe fetched left (suc attempt) _ mid)
    where
      paused : World
      paused = record w { now = w.now + (fetched attempt).pause }

      mid :
          IsSafe s
            (process_items s.iso s.app s.feed s.signals
              (s.enrich paused.now)
              (fetched attempt).items
              paused).1
      mid = fed-IsSafe (fetched attempt).items paused (later-IsSafe (fetched attempt).pause w h)

      by_persisted :
          (b : Bool) (x y : Option ApplicationReport × World)
          → IsSafe s x.1
          → IsSafe s y.1
          → IsSafe s (if b then x else y).1
      by_persisted true x y p q = p
      by_persisted false x y p q = q

  work_once-IsSafe :
      (fetched : ℕ → FeedCall) (waiting : ℕ) (w : World)
      → IsSafe s w
      → IsSafe s (work_once s fetched waiting w).1
  unfolding work_once
  work_once-IsSafe fetched zero w h = h
  work_once-IsSafe fetched (suc waiting) w h =
      fetch_attempts-IsSafe fetched s.app.max_attempts 0 w h

  tick-IsSafe :
      (input : TickInput) (p : Production)
      → IsSafe s p.world
      → IsSafe s (tick s input p).after.world
  unfolding tick
  tick-IsSafe input p h = cycle-IsSafe _ (
      later-IsSafe input.settling _
        (work_once-IsSafe input.fetched _ _ (later-IsSafe input.pause p.world h)))

  run_ticks-IsSafe :
      (inputs : List TickInput) (p : Production)
      → IsSafe s p.world
      → IsSafe s (run_ticks s inputs p).world
  unfolding run_ticks
  run_ticks-IsSafe [] p h = h
  run_ticks-IsSafe (input ∷ inputs) p h =
      run_ticks-IsSafe inputs (tick s input p).after (tick-IsSafe input p h)

  -- Where no id that normalize makes is an absolute URL and the AI provider keeps ids and URLs,
  -- and the process starts with distinct job ids, articles and jobs to match, and at most as many
  -- articles in use as the configured hourly limit, that many articles at most are delivered in
  -- the last hour, or under a lease, after any number of ticks, whatever the feeds give, however
  -- often the fetch job fails and is tried again, and whatever the publishers answer; the tables
  -- still match.
  pub run_ticks-limit :
      (inputs : List TickInput) (p : Production)
      → IsSafe s p.world
      → IsSafe s (run_ticks s inputs p).world
        × (length (recent_ids (run_ticks s inputs p).world.now (run_ticks s inputs p).world.db)
            ≤ s.limits.global_limit)
  run_ticks-limit inputs p h =
      let safe = run_ticks-IsSafe inputs p h in
      (
        safe,
        omega (
          arith,
          recent_ids-le s.iso s.limits (run_ticks s inputs p).world.now
              (run_ticks s inputs p).world.db,
          safe.within,
        ),
      )
