-- ===== src/Scheduling/Persistence.antt =====
-- scheduler/persistence.py and database/jobs.py: jobs in a JSON file and in a table. The texts of JSON
-- and of ISO times are parameters.
use yasin_press_rewrite.Base.{
  ℕ, String, List, [], ◌∷◌, Option, none, some, put, map, ◌==◌, ◌>>=◌, string_eq, if◌then◌else◌,
}
use yasin_press_rewrite.Models.{Instant}
use yasin_press_rewrite.Scheduling.Jobs.{
  JobStatus, pending, running, succeeded, failed, Job, Store, save,
}

-- `status.value`, and `JobStatus(value)`, which raises a ValueError for another text.
unfoldable pub status_value : JobStatus → String
status_value pending = "pending"
status_value running = "running"
status_value succeeded = "succeeded"
status_value failed = "failed"

unfoldable pub status_of : String → Option JobStatus
status_of s =
    if s == "pending"
    then some pending
    else if s == "running"
    then some running
    else if s == "succeeded"
    then some succeeded
    else if s == "failed"
    then some failed
    else none

-- One object of the file.
pub record JobEntry : Type 0 where
  pub id : String
  pub name : String
  pub status : String
  pub attempts : ℕ
  pub created_at : String
  pub started_at : Option String
  pub finished_at : Option String
  pub error : Option String

-- How times and the list of objects are written and read, where `T` is what the file holds; `none` is an
-- exception of the reader.
pub record Format (T : Type 0) : Type 0 where
  pub iso : Instant → String
  pub from_iso : String → Option Instant
  pub dumps : List JobEntry → T
  pub loads : T → Option (List JobEntry)

module _ {T : Type 0} (f : Format T) where
  -- `value.isoformat() if value else None`
  abbrev pub iso_or_none : Option Instant → Option String
  iso_or_none none = none
  iso_or_none (some t) = some (f.iso t)

  unfoldable pub job_entry : Job → JobEntry
  unfolding status_value
  job_entry j = record {
    id = j.id;
    name = j.name;
    status = status_value j.status;
    attempts = j.attempts;
    created_at = f.iso j.created_at;
    started_at = iso_or_none j.started_at;
    finished_at = iso_or_none j.finished_at;
    error = j.error;
  }

  -- `datetime.fromisoformat(text) if text else None`: `none` is an exception.
  abbrev pub time_of : Option String → Option (Option Instant)
  time_of none = some none
  time_of (some s) =
      if s == "" then some none else elim (f.from_iso s) [ none ↦ none | some t ↦ some (some t) ]

  unfoldable pub entry_job : JobEntry → Option Job
  unfolding status_of
  entry_job e = do
    status ← status_of e.status
    created ← f.from_iso e.created_at
    started ← time_of e.started_at
    finished ← time_of e.finished_at
    some (record {
      id = e.id;
      name = e.name;
      status = status;
      attempts = e.attempts;
      created_at = created;
      started_at = started;
      finished_at = finished;
      error = e.error;
    })

  -- JsonJobStore.save: the jobs in memory, and the content of the file.
  unfoldable pub save_json : Job → Store → Store × T
  unfolding job_entry
  save_json job store =
      let after : Store = save job store in
      (after, f.dumps (map (λ (e : String × Job). job_entry e.1) after))

  -- The loop of _load.
  unfoldable pub load_entries : List JobEntry → Store → Option Store
  unfolding entry_job
  load_entries [] store = some store
  load_entries (e ∷ more) store = elim (entry_job e) [
    | none ↦ none
    | some j ↦ load_entries more (put e.id j store)
  ]

  -- _load, where the content is `none` for a missing file.
  unfoldable pub load_json : Option T → Option Store
  unfolding load_entries
  load_json none = some []
  load_json (some s) = elim (f.loads s) [ none ↦ none | some es ↦ load_entries es [] ]
