-- ===== src/Engine/Tests.antt =====
-- The engine at concrete inputs: three jobs of two articles, with one destination that accepts.
use yasin_press_rewrite.Samples.{noon, iso, article}
use yasin_press_rewrite.Base.{
  ◌≤◌, ◌≡◌, ◌≢◌, refl, String, true, false, ◌&&◌, [], ◌∷◌, Option, none, some, arith, ltb, leb, ◌+◌,
  ◌*◌, ◌^◌, length, first, sort_by, group_into, push, items, add, to_set, union, insert_by, lookup,
  put, select, inl, if◌then◌else◌, contains, string_eq,
}
use yasin_press_rewrite.Models.{
  PublicationJob, returns, Publisher, pending, is_processing, is_waiting, job_id,
}
use yasin_press_rewrite.Database.{Db, empty}
use yasin_press_rewrite.Database.Articles
use yasin_press_rewrite.Database.Queue.{
  get_job, get_all_jobs, get_eligible_jobs, is_eligible, put_progress,
}
use yasin_press_rewrite.Database.Keyed.{IsKeyed}
use yasin_press_rewrite.Database.Table.{upsert}
use yasin_press_rewrite.Engine.Config.{QueueConfig, default_config}
use yasin_press_rewrite.Engine.Consumed.{
  consumed, recent_ids, recent_successes, active_ids, available_slots, count_job, count_jobs,
  count_of, count_record, count_records, is_active, is_recent, processing_jobs, source_counts,
  tally,
}
use yasin_press_rewrite.Engine.Claim.{
  claim_next, select_job, leased, is_newer_version, fan_out, in_order, levels, levels_of, level_of,
  age_sources, by_age, delivery_of, is_delivered, one_pass, round_robin,
}
use yasin_press_rewrite.Engine.Finish.{enqueue, failed_job, finish_success, recover_expired_leases}
use yasin_press_rewrite.Engine.Run.{run_once, deliver, skip}
use yasin_press_rewrite.Engine.Selection.{IsAdmitted}
use yasin_press_rewrite.Engine.Reach.{World, here, next, submit, work, IsWithin, hourly_limit}
use yasin_press_rewrite.Engine.Claims.{claim_next_sound, claim_next_idle, claim_next_once}
use yasin_press_rewrite.Engine.Outcomes.{failed_job-is_eligible, delivered_once}
use yasin_press_rewrite.Engine.Recovery.{has_run_out, put_back, get_job-recover}

abbrev job : String → String → PublicationJob
job id article_id = record {
  id = id;
  article_id = article_id;
  destination = "rss";
  status = pending;
  priority = 10;
  priority_level = "normal";
  source = "irna";
  attempts = 0;
  max_attempts = 3;
  last_error = none;
  lease_expires_at = none;
  next_attempt_at = none;
  created_at = 43_160_000_000;
}

abbrev accepts : Publisher
accepts = record {
  name = "rss";
  publish = λ a. returns (record {
    success = true;
    destination = "rss";
    external_id = some a.id;
    error = none;
    skipped = false;
  });
}

abbrev publishers : String → Option Publisher
publishers name = some accepts

abbrev two_jobs : Db
two_jobs = record {
  articles = article "a" ∷ [];
  history = [];
  keys = [];
  queue = job "a:rss" "a" ∷ job "b:rss" "b" ∷ [];
}

two_jobs-IsKeyed : IsKeyed two_jobs.queue
unfolding contains
two_jobs-IsKeyed = (refl, (refl, tt))

abbrev start : World
start = record { now = noon; db = empty }

start-IsWithin : IsWithin default_config start
unfolding consumed union active_ids to_set processing_jobs select get_all_jobs sort_by recent_ids
    recent_successes
start-IsWithin = record { keyed = tt; within = omega arith }

abbrev submitted : World
submitted = record start { db = enqueue (job "a:rss" "a") empty }

abbrev worked : World
worked = record submitted { db = (run_once iso default_config publishers noon submitted.db).1 }

hourly_limit_example :
    (length (recent_ids worked.now worked.db) ≤ 10) × (length (consumed worked.now worked.db) ≤ 10)
unfolding is_processing
hourly_limit_example =
    hourly_limit iso default_config start worked start-IsWithin
      (next (next here (submit start (job "a:rss" "a") refl)) (work submitted publishers))

abbrev first_job : PublicationJob
first_job = leased default_config noon (job "a:rss" "a")

abbrev second_job : PublicationJob
second_job = leased default_config noon (job "b:rss" "b")

abbrev mid : Db
mid = record two_jobs { queue = put_progress first_job two_jobs.queue }

abbrev after : Db
after = record mid { queue = put_progress second_job mid.queue }

first_claim : claim_next default_config noon two_jobs ≡ (some first_job, mid)
unfolding claim_next select_job fan_out first in_order levels levels_of sort_by group_into
    get_eligible_jobs select is_waiting push items level_of age_sources by_age contains add to_set
    union insert_by lookup put get_all_jobs get_job is_eligible put_progress upsert delivery_of
    is_delivered is_newer_version leased one_pass round_robin active_ids available_slots consumed
    count_job count_jobs count_of count_record count_records is_active is_recent processing_jobs
    recent_ids recent_successes source_counts tally job_id is_processing
first_claim = refl

second_claim : claim_next default_config noon mid ≡ (some second_job, after)
unfolding claim_next select_job fan_out first in_order levels levels_of sort_by group_into
    get_eligible_jobs select is_waiting push items level_of age_sources by_age contains add to_set
    union insert_by lookup put get_all_jobs get_job is_eligible put_progress upsert delivery_of
    is_delivered is_newer_version leased one_pass round_robin active_ids available_slots consumed
    count_job count_jobs count_of count_record count_records is_active is_recent processing_jobs
    recent_ids recent_successes source_counts tally job_id is_processing
second_claim = refl

-- With no article left in the hour the pending jobs wait.
abbrev closed : QueueConfig
closed = record default_config { global_limit = 0 }

no_claim : claim_next closed noon two_jobs ≡ (none, two_jobs)
unfolding claim_next select_job fan_out first in_order levels levels_of sort_by group_into
    get_eligible_jobs select is_waiting push items level_of age_sources by_age contains add to_set
    union insert_by lookup put get_all_jobs get_job is_eligible put_progress upsert delivery_of
    is_delivered is_newer_version leased one_pass round_robin active_ids available_slots consumed
    count_job count_jobs count_of count_record count_records is_active is_recent processing_jobs
    recent_ids recent_successes source_counts tally job_id is_processing
no_claim = refl

claim_next_sound_example :
    (j : PublicationJob) × IsAdmitted default_config noon two_jobs j
    × (first_job ≡ leased default_config noon j)
    × (mid ≡ record two_jobs { queue = put_progress (leased default_config noon j) two_jobs.queue })
claim_next_sound_example = claim_next_sound default_config noon two_jobs first_claim

claim_next_idle_example :
    ((contains "a" (consumed noon two_jobs)
        && is_newer_version (recent_successes noon two_jobs) (job "a:rss" "a"))
      ≡ false)
    × (two_jobs ≡ two_jobs)
unfolding is_eligible is_waiting
claim_next_idle_example =
    claim_next_idle closed noon two_jobs (job "a:rss" "a") no_claim (inl refl) refl

claim_next_once_example : second_job.id ≢ first_job.id
claim_next_once_example =
    claim_next_once default_config noon noon two_jobs first_job second_job mid after
      two_jobs-IsKeyed first_claim second_claim

failed_job-is_eligible_example :
    is_eligible
      (noon + 2_000_000)
      (failed_job default_config noon "HTTP 500" (record (job "a:rss" "a") { attempts = 1 }))
    ≡ (ltb 1 3 && leb (noon + 2_000_000 * 2 ^ 0) (noon + 2_000_000))
failed_job-is_eligible_example =
    failed_job-is_eligible default_config noon (noon + 2_000_000) "HTTP 500"
      (record (job "a:rss" "a") { attempts = 1 }) 0 refl

delivered_once_example :
    deliver iso accepts
      (record (article "a") { published_to_channel_at = some noon })
      (finish_success iso noon (job "a:rss" "a") two_jobs)
    ≡ skip "rss" "a"
unfolding Articles.get first
delivered_once_example =
    delivered_once iso noon (job "a:rss" "a") two_jobs (article "a") accepts refl refl refl

get_job-recover_example :
    get_job "a:rss" (recover_expired_leases (noon + 60_000_000) mid).1.queue
    ≡ elim (get_job "a:rss" mid.queue) [
      | none ↦ none
      | some j ↦
          some
            (if has_run_out (noon + 60_000_000) j.status j.lease_expires_at then put_back j else j)
    ]
unfolding contains put_progress upsert leased
get_job-recover_example = get_job-recover (noon + 60_000_000) mid "a:rss" (refl, (refl, tt))
