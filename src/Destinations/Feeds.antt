-- ===== src/Destinations/Feeds.antt =====
-- A feed file as the history of what was published, cut off at its length.
use yasin_press_rewrite.Base.{
  ◌≡◌, refl, String, true, List, [], ◌∷◌, Option, none, some, take, map, Distinct, string_eq,
}
use yasin_press_rewrite.Models.{Instant, Article, PublishResult}
use yasin_press_rewrite.Destinations.Items.{
  insert_item, take-insert_item, insert_item-Distinct, newest,
}
use yasin_press_rewrite.Destinations.Rss.{
  RssItem, RssPublisher, rss_item, rss_channel, last_build_of, RssFile, publish_rss,
  accepted_result, read_items,
}
use yasin_press_rewrite.Destinations.Rss as R
use yasin_press_rewrite.Destinations.Pwa.{
  PwaItem, PwaPublisher, pwa_item, pwa_feed, PwaFile, publish_pwa, existing_items,
}
use yasin_press_rewrite.Destinations.Pwa as W

module _ {A : Type 0} (item_of : Article → Option A) where
  -- The articles have these items: they all have a date.
  abbrev pub IsItems : List Article → List A → Type 0
  IsItems [] [] = Unit
  IsItems (a ∷ articles) (i ∷ items) = (item_of a ≡ some i) × IsItems articles items
  IsItems _ _ = ⊥

module _ {File : Type 0} (publish : Article → File → Option (PublishResult × File)) where
  -- The calls of `publish`, one after the other; `none` is an exception.
  unfoldable pub publish_each : List Article → File → Option File
  publish_each [] file = some file
  publish_each (a ∷ articles) file = elim (publish a file) [
    | none ↦ none
    | some (result, after) ↦ publish_each articles after
  ]

-- A publisher of items into a file: what it makes of an article, and the file that holds a history.
module _ {A File : Type 0} (key : A → String) (item_of : Article → Option A)
    (publish : Article → File → Option (PublishResult × File)) (file_of : List A → File) where
  -- One call adds the article's item to the history.
  abbrev pub Implements : Type 0
  Implements =
      (a : Article) (i : A) (items : List A)
      → item_of a ≡ some i
      → Distinct (map key items)
      → (r : PublishResult) × (publish a (file_of items)
          ≡ some (r, file_of (insert_item key i items)))

  publish_each-newest :
      Implements
      → (articles : List Article) (new items : List A) → IsItems item_of articles new
      → Distinct (map key items)
      → (publish_each publish articles (file_of items) ≡ some (file_of (newest key new items)))
        × Distinct (map key (newest key new items))
  unfolding publish_each newest
  publish_each-newest one [] [] items e d = (refl, d)
  publish_each-newest one [] (i ∷ new) items e d = absurd e
  publish_each-newest one (a ∷ articles) [] items e d = absurd e
  publish_each-newest one (a ∷ articles) (i ∷ new) items e d =
      let (r, sent) = one a i items e.0 d in
      rw (sent, publish_each)
        (publish_each-newest one articles new (insert_item key i items) e.1
          (insert_item-Distinct key i items d))

abbrev pub guid : RssItem → String
guid item = item.guid

abbrev pub news_id : PwaItem → String
news_id item = item.id

abbrev pub rss_file : RssPublisher → List RssItem → RssFile
rss_file p items = R.holds (rss_channel p items)

abbrev pub pwa_file : PwaPublisher → List PwaItem → PwaFile
pwa_file q items = W.holds (pwa_feed q items)

module _ (rfc iso : Instant → String) (p : RssPublisher) (q : PwaPublisher) where
  build-head :
      (i : RssItem) (l m : List RssItem)
      → last_build_of (insert_item guid i l) ≡ last_build_of (insert_item guid i m)
  unfolding last_build_of insert_item
  build-head i l m = refl

  rss_once : p.has_output ≡ true → Implements guid (rss_item rfc) (publish_rss rfc p) (rss_file p)
  unfolding publish_rss read_items rss_channel
  rss_once on a i items e d = (
    accepted_result "rss" a.url,
    rw
        (
          on,
          e,
          take-insert_item guid p.max_items i items d,
          build-head i (take p.max_items items) items,
        )
        refl,
  )

  pwa_once :
      q.has_output ≡ true → Implements news_id (pwa_item iso) (publish_pwa iso q) (pwa_file q)
  unfolding publish_pwa existing_items pwa_feed
  pwa_once on a i items e d =
      (accepted_result "pwa" a.id, rw (on, e, take-insert_item news_id q.max_items i items d) refl)

  -- Where both feeds have an output file, every article has a date and the stored keys are
  -- distinct, publishing articles one after the other into files cut off at max_items leaves the
  -- RSS file and the PWA file that the whole uncut history gives: the newest article first, each
  -- URL and each id once, and the first max_items of them kept.
  pub feeds_newest :
      (articles : List Article) (new items : List RssItem) (fresh stored : List PwaItem)
      → p.has_output ≡ true
      → q.has_output ≡ true
      → IsItems (rss_item rfc) articles new
      → IsItems (pwa_item iso) articles fresh
      → Distinct (map guid items)
      → Distinct (map news_id stored)
      → (publish_each (publish_rss rfc p) articles (rss_file p items)
          ≡ some (rss_file p (newest guid new items)))
        × (publish_each (publish_pwa iso q) articles (pwa_file q stored)
            ≡ some (pwa_file q (newest news_id fresh stored)))
        × Distinct (map guid (newest guid new items))
        × Distinct (map news_id (newest news_id fresh stored))
  feeds_newest articles new items fresh stored to_rss to_pwa e f d g =
      let (r, rd) =
        publish_each-newest guid (rss_item rfc) (publish_rss rfc p) (rss_file p) (rss_once to_rss)
          articles new items e d in
      let (w, wd) =
        publish_each-newest news_id (pwa_item iso) (publish_pwa iso q) (pwa_file q)
          (pwa_once to_pwa) articles fresh stored f g in
      (r, w, rd, wd)
