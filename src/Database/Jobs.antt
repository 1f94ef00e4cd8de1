-- ===== src/Database/Jobs.antt =====
-- database/jobs.py and database/delivery.py: the tables of the scheduler's jobs and of deliveries.
use yasin_press_rewrite.Base.{
  String, Bool, ◌&&◌, List, Option, leb, sort_by, first, some_and, ◌==◌, string_eq,
}
use yasin_press_rewrite.Models.{DeliveryRecord}
use yasin_press_rewrite.Database.Table.{upsert}
use yasin_press_rewrite.Scheduling.Jobs.{Job}

-- SQLiteJobRepository.save, which keeps the first creation time of a job.
unfoldable pub save_job : Job → List Job → List Job
save_job job rows =
    upsert (λ old new. old.id == new.id)
      (λ old new. record new { id = old.id; created_at = old.created_at }) job rows

unfoldable pub find_job : String → List Job → Option Job
find_job id rows = first (λ (j : Job). j.id == id) rows

-- `ORDER BY created_at`
unfoldable pub all_jobs : List Job → List Job
all_jobs rows = sort_by (λ (a b : Job). leb a.created_at b.created_at) rows

-- SQLiteDeliveryRepository.get and delivered; record is the `add` of the delivery history.
unfoldable pub find_delivery : String → String → List DeliveryRecord → Option DeliveryRecord
find_delivery article destination rows =
    first (λ (r : DeliveryRecord). (r.article_id == article) && (r.destination == destination)) rows

unfoldable pub was_delivered : String → String → List DeliveryRecord → Bool
unfolding find_delivery
was_delivered article destination rows =
    some_and (find_delivery article destination rows) (λ r. r.success)
