-- ===== src/Pipeline/Updates.antt =====
-- Updates of stored articles.
use yasin_press_rewrite.Base.{
  ◌≡◌, refl, ap, ◌+◌, ◌||◌, ltb, some_and, none_or, if◌then◌else◌, not, Option, none, some, arith,
  List, String,
}
use yasin_press_rewrite.Models.{
  Instant, Article, valid_timestamp, first_timestamp, seconds, news_timestamp,
}
use yasin_press_rewrite.Database.Articles as Table
use yasin_press_rewrite.Pipeline.Articles.{
  FeedItem, Texts, is_missing, kept_updated, incoming_news, is_valid_update, kept_published,
  normalize, is_duplicate,
}

abbrev Stamp : Type 0
Stamp = Option Instant

-- The news timestamp of a normalized article is more than five seconds newer just for an update.
newer-news :
    (updated published old_updated old_published : Stamp)
    → some_and
        (first_timestamp
          (elim old_updated as (λ _. Stamp) [
            | none ↦ updated
            | some old ↦
                if is_missing updated || some_and updated (λ u. ltb u old)
                then some old
                else updated
          ])
          (elim old_published as (λ _. Stamp) [
            | none ↦ published
            | some old ↦ if is_missing published then some old else published
          ]))
        (λ t. none_or (first_timestamp old_updated old_published) (λ old. ltb (old + seconds 5) t))
      ≡ some_and
          (elim (first_timestamp
              (elim old_updated as (λ _. Stamp) [
                | none ↦ updated
                | some old ↦
                    if is_missing updated || some_and updated (λ u. ltb u old)
                    then some old
                    else updated
              ])
              published)
            as (λ _. Stamp) [ some t ↦ some t | none ↦ first_timestamp updated published ])
          (λ t.
            none_or (first_timestamp old_updated old_published) (λ old. ltb (old + seconds 5) t))
unfolding is_missing first_timestamp valid_timestamp
newer-news none none none none = ground arith
newer-news none none none (some q) = ground arith
newer-news none none (some v) none = ground arith
newer-news none none (some v) (some q) = ground arith
newer-news none (some p) none none = ground arith
newer-news none (some p) none (some q) = ground arith
newer-news none (some p) (some v) none = ground arith
newer-news none (some p) (some v) (some q) = ground arith
newer-news (some u) none none none = ground arith
newer-news (some u) none none (some q) = ground arith
newer-news (some u) none (some v) none = ground arith
newer-news (some u) none (some v) (some q) = ground arith
newer-news (some u) (some p) none none = ground arith
newer-news (some u) (some p) none (some q) = ground arith
newer-news (some u) (some p) (some v) none = ground arith
newer-news (some u) (some p) (some v) (some q) = ground arith

module _ (texts : Texts) (item : FeedItem) (source : String) (event : Option String) (e : Article)
    (rows : List Article) where
  -- For an item whose stored article is found under its id, the normalized article keeps that id
  -- and is a duplicate for the detector exactly when normalize does not take it for an update.
  pub is_duplicate-normalize :
      Table.get e.id rows ≡ some e
      → (is_duplicate (normalize texts item source event (some e)) rows
          ≡ not (is_valid_update item (some e)))
        × ((normalize texts item source event (some e)).id ≡ e.id)
  unfolding is_duplicate normalize is_valid_update incoming_news kept_updated kept_published
      is_missing news_timestamp first_timestamp valid_timestamp
  is_duplicate-normalize found = (
    rw (found, is_duplicate)
        (ap not (newer-news item.updated_at item.published_at e.updated_at e.published_at)),
    refl,
  )
