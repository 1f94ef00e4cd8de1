-- ===== src/Sources/Tests.antt =====
-- Sources at concrete payloads.
use yasin_press_rewrite.Base.{
  ◌≤◌, ◌≡◌, refl, String, true, false, [], ◌∷◌, Option, none, List, arith,
}
use yasin_press_rewrite.Samples.{noon}
use yasin_press_rewrite.Pipeline.Articles.{FeedItem}
use yasin_press_rewrite.Sources.Manager.{Source, healthy, payload, raised}
use yasin_press_rewrite.Sources.Health.{
  Ingestion, IsSound, after_rounds, after_rounds-IsSound, after_rounds_garbled,
}

abbrev feed : Source
feed = record {
  name = "irna";
  url = "https://example.org/rss";
  enabled = true;
  status = healthy;
  last_success = none;
  last_failure = none;
  response_time = none;
  consecutive_failures = 0;
  success_count = 0;
  failure_count = 0;
  stale_count = 0;
}

abbrev broken : Ingestion
broken = record { now = noon; elapsed = 1; threshold = 86_400_000_000; fetched = payload "<rss" }

abbrev offline : Ingestion
offline = record { now = noon; elapsed = 1; threshold = 86_400_000_000; fetched = raised }

abbrev no_parse : String → Option (List FeedItem)
no_parse text = none

feed-IsSound : IsSound feed
feed-IsSound = record { alive = ground arith; stopped = ground arith }

after_rounds-IsSound_example :
    IsSound (after_rounds no_parse (offline ∷ offline ∷ offline ∷ broken ∷ []) feed)
    × (feed.enabled ≡ false
        → after_rounds no_parse (offline ∷ offline ∷ offline ∷ broken ∷ []) feed ≡ feed)
after_rounds-IsSound_example =
    after_rounds-IsSound no_parse (offline ∷ offline ∷ offline ∷ broken ∷ []) feed feed-IsSound

after_rounds_garbled_example :
    ((after_rounds no_parse (broken ∷ broken ∷ broken ∷ []) feed).enabled ≡ true)
    × ((after_rounds no_parse (broken ∷ broken ∷ broken ∷ []) feed).consecutive_failures ≤ 1)
after_rounds_garbled_example =
    after_rounds_garbled no_parse (broken ∷ broken ∷ broken ∷ []) feed refl (omega arith)
      (("<rss", refl, refl), (("<rss", refl, refl), (("<rss", refl, refl), tt)))
