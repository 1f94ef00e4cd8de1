-- ===== src/Database/History.antt =====
-- SQLiteDeliveryHistory: the table `delivery_history`, one row for each article and destination.
use yasin_press_rewrite.Base.{String, Bool, ◌&&◌, List, ◌==◌, string_eq, select}
use yasin_press_rewrite.Models.{DeliveryRecord}
use yasin_press_rewrite.Database.Table.{upsert}

abbrev pub same_delivery : DeliveryRecord → DeliveryRecord → Bool
same_delivery old new = (old.article_id == new.article_id) && (old.destination == new.destination)

-- The update sets every column but the key, so the row is the new record at the old place.
unfoldable pub add : DeliveryRecord → List DeliveryRecord → List DeliveryRecord
add r rows =
    upsert same_delivery
      (λ old new. record old {
        success = new.success;
        attempts = new.attempts;
        external_id = new.external_id;
        error = new.error;
        created_at = new.created_at;
      })
      r rows

-- `ORDER BY rowid`
unfoldable pub for_article : String → List DeliveryRecord → List DeliveryRecord
for_article article rows = select (λ r. r.article_id == article) rows
