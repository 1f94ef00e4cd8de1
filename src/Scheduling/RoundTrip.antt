-- ===== src/Scheduling/RoundTrip.antt =====
-- Jobs that are read back from the file are those that were saved.
use yasin_press_rewrite.Base.{
  ◌≡◌, refl, sym, ap, inl, inr, String, false, ◌||◌, List, [], ◌∷◌, ◌++◌, Option, none, some, arith,
  put, map, contains, All, string_eq, ◌==◌, ==_iff, if◌then◌else◌, Bool-cases,
}
use yasin_press_rewrite.Models.{Instant}
use yasin_press_rewrite.Scheduling.Jobs.{
  JobStatus, pending, running, succeeded, failed, Job, Store, save,
}
use yasin_press_rewrite.Scheduling.Persistence.{
  status_value, status_of, JobEntry, Format, iso_or_none, job_entry, time_of, entry_job, save_json,
  load_entries, load_json,
}

-- What the libraries promise: a text is read as what was written, and the text of a time is not empty.
pub record IsFormat {T : Type 0} (f : Format T) : Type 0 where
  pub iso_back : (t : Instant) → f.from_iso (f.iso t) ≡ some t
  pub iso_given : (t : Instant) → (f.iso t == "") ≡ false
  pub json_back : (es : List JobEntry) → f.loads (f.dumps es) ≡ some es

abbrev pub ids : Store → List String
ids store = map (λ (e : String × Job). e.0) store

-- Every job stands under its own id, and once.
abbrev pub IsFiled : Store → Type 0
IsFiled [] = Unit
IsFiled ((k, j) ∷ store) = (j.id ≡ k) × (contains k (ids store) ≡ false) × IsFiled store

status_of-status_value : (s : JobStatus) → status_of (status_value s) ≡ some s
unfolding status_of status_value
status_of-status_value pending = refl
status_of-status_value running = refl
status_of-status_value succeeded = refl
status_of-status_value failed = refl

module _ {T : Type 0} (f : Format T) (good : IsFormat f) where
  time_of-iso_or_none : (t : Option Instant) → time_of f (iso_or_none f t) ≡ some t
  time_of-iso_or_none none = refl
  time_of-iso_or_none (some t) = rw (good.iso_given t, good.iso_back t) refl

  entry_job-job_entry : (j : Job) → entry_job f (job_entry f j) ≡ some j
  unfolding entry_job job_entry
  entry_job-job_entry j =
      rw
        (
          status_of-status_value j.status,
          good.iso_back j.created_at,
          time_of-iso_or_none j.started_at,
          time_of-iso_or_none j.finished_at,
        )
        refl

contains-put :
    (i k : String) (j : Job) (store : Store)
    → contains i (ids (put k j store)) ≡ (contains i (ids store) || (i == k))
unfolding contains put
contains-put i k j [] = ground arith
contains-put i k j ((l, o) ∷ store) =
    ground (arith, contains-put i k j store, ==_iff i k, ==_iff i l, ==_iff k l)

save-IsFiled : (job : Job) (store : Store) → IsFiled store → IsFiled (save job store)
unfolding save put contains
save-IsFiled job [] h = (refl, refl, tt)
save-IsFiled job ((k, j) ∷ store) h = elim (Bool-cases (job.id == k)) [
  | inl hit ↦ rw (hit, if◌then◌else◌) ((==_iff job.id k).0 hit, h.1, h.2)
  | inr miss ↦
      rw (miss, if◌then◌else◌)
        (
          h.0,
          ground
              (arith, contains-put k job.id job store, ==_iff k job.id, ==_iff job.id k, h.1, miss),
          save-IsFiled job store h.2,
        )
]

-- None of the ids of `more` is one of `store`.
abbrev Fresh : Store → Store → Type 0
Fresh more store = All (λ (e : String × Job). contains e.0 (ids store) ≡ false) more

put-absent :
    (k : String) (j : Job) (store : Store)
    → contains k (ids store) ≡ false
    → put k j store ≡ store ++ (k, j) ∷ []
unfolding put contains
put-absent k j [] h = refl
put-absent k j ((l, o) ∷ store) h = ground (arith, put-absent k j store)

contains-snoc :
    (i k : String) (j : Job) (store : Store)
    → contains i (ids (store ++ (k, j) ∷ [])) ≡ (contains i (ids store) || (i == k))
unfolding contains
contains-snoc i k j [] = ground arith
contains-snoc i k j ((l, o) ∷ store) = ground (arith, contains-snoc i k j store)

Fresh-snoc :
    (k : String) (j : Job) (more store : Store)
    → Fresh more store
    → contains k (ids more) ≡ false
    → Fresh more (store ++ (k, j) ∷ [])
unfolding contains
Fresh-snoc k j [] store h absent = tt
Fresh-snoc k j ((l, o) ∷ more) store h absent = (
  ground (arith, contains-snoc l k j store, ==_iff l k, ==_iff k l, h.0, absent),
  Fresh-snoc k j more store h.1 (ground (arith, absent)),
)

append-snoc :
    (e : String × Job) (store more : Store) → (store ++ e ∷ []) ++ more ≡ store ++ e ∷ more
append-snoc e [] more = refl
append-snoc e (o ∷ store) more = ap (λ l. o ∷ l) (append-snoc e store more)

append_nil : (store : Store) → store ++ [] ≡ store
append_nil [] = refl
append_nil (e ∷ store) = ap (λ l. e ∷ l) (append_nil store)

module _ {T : Type 0} (f : Format T) (good : IsFormat f) where
  entry_id : (k : String) (j : Job) → j.id ≡ k → (job_entry f j).id ≡ k
  unfolding job_entry
  entry_id k j e = e

  load_entries-append :
      (more store : Store)
      → IsFiled more
      → Fresh more store
      → load_entries f (map (λ (e : String × Job). job_entry f e.1) more) store
        ≡ some (store ++ more)
  unfolding load_entries
  load_entries-append [] store h fresh = ap some (sym (append_nil store))
  load_entries-append ((k, j) ∷ more) store h fresh =
      rw
        (
          entry_job-job_entry f good j,
          load_entries,
          entry_id k j h.0,
          put-absent k j store fresh.0,
          load_entries-append more (store ++ (k, j) ∷ []) h.2
              (Fresh-snoc k j more store fresh.1 h.1),
        )
        (ap some (append-snoc (k, j) store more))

  nothing_stored : (store : Store) → Fresh store []
  unfolding contains
  nothing_stored [] = tt
  nothing_stored (e ∷ store) = (refl, nothing_stored store)

  -- Where times and JSON are read back as they were written, the text of a time is not empty, and
  -- every stored job stands under its own id, once, the same holds after a job is saved, and
  -- loading the file that JsonJobStore.save wrote gives the jobs of the store, in their order.
  pub load_json-save_json :
      (job : Job) (store : Store)
      → IsFiled store
      → IsFiled (save_json f job store).0
        × (load_json f (some (save_json f job store).1) ≡ some (save_json f job store).0)
  unfolding save_json load_json
  load_json-save_json job store h =
      let after = save-IsFiled job store h in
      (
        after,
        rw (good.json_back, load_json)
            (load_entries-append (save job store) [] after (nothing_stored (save job store))),
      )
