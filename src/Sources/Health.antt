-- ===== src/Sources/Health.antt =====
-- The health of a source over the rounds of its ingestion.
use yasin_press_rewrite.Base.{
  ℕ, ◌<◌, ◌≤◌, ◌≡◌, refl, String, Bool, true, false, not, List, [], ◌∷◌, Option, none, some, arith,
  All, if◌then◌else◌,
}
use yasin_press_rewrite.Models.{Instant}
use yasin_press_rewrite.Pipeline.Articles.{FeedItem}
use yasin_press_rewrite.Sources.Manager.{
  Source, failed, Fetched, payload, raised, responded, judged, fetch_failed, take_items,
  ingest_source,
}

-- One call of ingest_source.
pub record Ingestion : Type 0 where
  pub now : Instant
  pub elapsed : ℕ
  pub threshold : ℕ
  pub fetched : Fetched

-- An enabled source has fewer than three failures in a row, and a failed one is not enabled.
pub record IsSound (s : Source) : Type 0 where
  pub alive : s.enabled ≡ true → s.consecutive_failures < 3
  pub stopped : s.status ≡ failed → s.enabled ≡ false

module _ (parse_rss : String → Option (List FeedItem)) where
  abbrev pub ingest : Ingestion → Source → Source
  ingest r s = (ingest_source parse_rss r.now r.elapsed r.threshold r.fetched s).1

  -- The calls, one after the other.
  unfoldable pub after_rounds : List Ingestion → Source → Source
  after_rounds [] s = s
  after_rounds (r ∷ rounds) s = after_rounds rounds (ingest r s)

  fetch_failed-IsSound :
      (now : Instant) (elapsed : ℕ) (s : Source) → IsSound (fetch_failed now elapsed s)
  unfolding fetch_failed
  fetch_failed-IsSound now elapsed s = record { alive = ground arith; stopped = ground arith }

  judged-IsSound :
      (now : Instant) (threshold : ℕ) (items : List FeedItem) (s : Source)
      → s.consecutive_failures ≡ 0
      → IsSound (judged now threshold items s)
  unfolding judged
  judged-IsSound now threshold [] s h = record { alive = ground arith; stopped = ground arith }
  judged-IsSound now threshold (i ∷ items) s h = record {
    alive = ground arith;
    stopped = ground arith;
  }

  take_items-IsSound :
      (now : Instant) (elapsed threshold : ℕ) (items : Option (List FeedItem)) (s : Source)
      → IsSound (take_items now elapsed threshold items s).1
  unfolding take_items responded
  take_items-IsSound now elapsed threshold none s =
      fetch_failed-IsSound now elapsed (responded now elapsed s)
  take_items-IsSound now elapsed threshold (some items) s =
      judged-IsSound now threshold items (responded now elapsed s) refl

  ingest-IsSound : (r : Ingestion) (s : Source) → IsSound s → IsSound (ingest r s)
  unfolding ingest_source
  ingest-IsSound r s sound = by_enabled s.enabled r.fetched
    where
      by_enabled :
          (b : Bool) (f : Fetched)
          → IsSound
              (if◌then◌else◌ {A = List FeedItem × Source}
                (not b)
                ([], s)
                (elim f [
                  | payload text ↦ take_items r.now r.elapsed r.threshold (parse_rss text) s
                  | raised ↦ ([], fetch_failed r.now r.elapsed s)
                ])).1
      by_enabled false f = sound
      by_enabled true (payload text) =
          take_items-IsSound r.now r.elapsed r.threshold (parse_rss text) s
      by_enabled true raised = fetch_failed-IsSound r.now r.elapsed s

  ingest-disabled : (r : Ingestion) (s : Source) → s.enabled ≡ false → ingest r s ≡ s
  unfolding ingest_source
  ingest-disabled r s off = rw (off, if◌then◌else◌) refl

  -- After any calls of ingest_source an enabled source has fewer than three failures in a row and
  -- a failed source is disabled, if that held before; and a disabled source is never changed
  -- again, so that nothing enables it.
  pub after_rounds-IsSound :
      (rounds : List Ingestion) (s : Source)
      → IsSound s
      → IsSound (after_rounds rounds s) × (s.enabled ≡ false → after_rounds rounds s ≡ s)
  unfolding after_rounds
  after_rounds-IsSound [] s sound = (sound, λ off. refl)
  after_rounds-IsSound (r ∷ rounds) s sound = (
    (after_rounds-IsSound rounds (ingest r s) (ingest-IsSound r s sound)).0,
    λ off. rw (ingest-disabled r s off) ((after_rounds-IsSound rounds s sound).1 off),
  )

  -- Every payload is there and cannot be parsed.
  abbrev pub Unparsed : Ingestion → Type 0
  Unparsed r = (text : String) × (r.fetched ≡ payload text) × (parse_rss text ≡ none)

  ingest_garbled :
      (r : Ingestion) (s : Source)
      → s.enabled ≡ true
      → Unparsed r
      → ((ingest r s).enabled ≡ true) × ((ingest r s).consecutive_failures ≡ 1)
  unfolding ingest_source take_items fetch_failed responded
  ingest_garbled r s on (text, got, bad) = rw (on, got, bad) (refl, refl)

  -- An enabled source with one failure in a row at most, whose every payload cannot be parsed,
  -- stays enabled however often it is ingested, with at most one failure in a row.
  pub after_rounds_garbled :
      (rounds : List Ingestion) (s : Source)
      → s.enabled ≡ true
      → s.consecutive_failures ≤ 1
      → All Unparsed rounds
      → ((after_rounds rounds s).enabled ≡ true)
        × ((after_rounds rounds s).consecutive_failures ≤ 1)
  unfolding after_rounds
  after_rounds_garbled [] s on few bad = (on, few)
  after_rounds_garbled (r ∷ rounds) s on few bad =
      let (still, one) = ingest_garbled r s on bad.0 in
      after_rounds_garbled rounds (ingest r s) still (omega (arith, one)) bad.1
