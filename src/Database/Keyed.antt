-- ===== src/Database/Keyed.antt =====
-- The tables as finite maps: what a row's key finds after an upsert, and that keys stay distinct.
use yasin_press_rewrite.Base.{
  String, true, false, List, none, some, ◌≡◌, refl, ◌⊎◌, inl, inr, arith, map, if◌then◌else◌, ◌==◌,
  ==_iff, ==_refl, string_eq, In, In-first, Distinct, Distinct-add, Bool-cases,
}
use yasin_press_rewrite.Models.{PublicationJob}
use yasin_press_rewrite.Database.Table.{
  In-upsert, first-upsert_self, first-upsert_other, map-upsert, first-key,
}
use yasin_press_rewrite.Database.Queue.{same_job, progress, renewed, add_job, put_progress, get_job}

abbrev pub job_key : PublicationJob → String
job_key j = j.id

-- PRIMARY KEY of publication_queue.
abbrev pub IsKeyed : List PublicationJob → Type 0
IsKeyed rows = Distinct (map job_key rows)

==_comm : (a b : String) → (a == b) ≡ (b == a)
==_comm a b = ground (arith, ==_iff a b, ==_iff b a)

pub add_job-IsKeyed :
    (j : PublicationJob) (rows : List PublicationJob) → IsKeyed rows → IsKeyed (add_job j rows)
unfolding add_job
add_job-IsKeyed j rows h =
    rw (map-upsert job_key same_job renewed j (λ o. ==_comm o.id j.id) (λ o. refl) rows)
      (Distinct-add j.id (map job_key rows) h)

pub put_progress-IsKeyed :
    (j : PublicationJob) (rows : List PublicationJob) → IsKeyed rows → IsKeyed (put_progress j rows)
unfolding put_progress
put_progress-IsKeyed j rows h =
    rw (map-upsert job_key same_job progress j (λ o. ==_comm o.id j.id) (λ o. refl) rows)
      (Distinct-add j.id (map job_key rows) h)

pub In-get_job :
    (id : String) (rows : List PublicationJob) (j : PublicationJob)
    → get_job id rows ≡ some j
    → In j rows × (j.id ≡ id)
unfolding get_job
In-get_job id rows j h =
    let (m, t) = In-first (λ (i : PublicationJob). i.id == id) rows j h in (m, (==_iff j.id id).0 t)

-- The row of an id is found by it.
pub get_job-In :
    (j : PublicationJob) (rows : List PublicationJob)
    → IsKeyed rows
    → In j rows
    → get_job j.id rows ≡ some j
unfolding get_job
get_job-In j rows h m = first-key job_key j rows h m

module _ (job : PublicationJob) (rows : List PublicationJob) where
  -- What the queue holds under the written job's id: the job, or the update of the row before.
  pub get_job-add_job_self :
      get_job job.id (add_job job rows)
      ≡ some (elim (get_job job.id rows) [ none ↦ job | some old ↦ renewed old job ])
  unfolding get_job add_job
  get_job-add_job_self =
      first-upsert_self same_job renewed (λ o. o.id == job.id) job (λ o. refl) (==_refl job.id)
        (λ o h. h) rows

  pub get_job-put_progress_self :
      get_job job.id (put_progress job rows)
      ≡ some (elim (get_job job.id rows) [ none ↦ job | some old ↦ progress old job ])
  unfolding get_job put_progress
  get_job-put_progress_self =
      first-upsert_self same_job progress (λ o. o.id == job.id) job (λ o. refl) (==_refl job.id)
        (λ o h. h) rows

  other_id :
      (id : String) (o : PublicationJob)
      → (job.id == id) ≡ false
      → same_job o job ≡ true
      → (o.id == id) ≡ false
  other_id id o h s = rw ((==_iff o.id job.id).0 s) h

  pub get_job-add_job_other :
      (id : String) → (job.id == id) ≡ false → get_job id (add_job job rows) ≡ get_job id rows
  unfolding get_job add_job
  get_job-add_job_other id h =
      first-upsert_other same_job renewed (λ o. o.id == id) job h
        (λ o s. (other_id id o h s, other_id id o h s)) rows

  pub get_job-put_progress_other :
      (id : String) → (job.id == id) ≡ false → get_job id (put_progress job rows) ≡ get_job id rows
  unfolding get_job put_progress
  get_job-put_progress_other id h =
      first-upsert_other same_job progress (λ o. o.id == id) job h
        (λ o s. (other_id id o h s, other_id id o h s)) rows

  -- Where the rows after an upsert come from.
  pub In-add_job :
      (a : PublicationJob)
      → In a (add_job job rows)
      → In a rows
        ⊎ ((a ≡ job)
            ⊎ ((old : PublicationJob) × In old rows
                × (same_job old job ≡ true)
                × (a ≡ renewed old job)))
  unfolding add_job
  In-add_job a h = In-upsert same_job renewed job a rows h

  pub In-put_progress :
      (a : PublicationJob)
      → In a (put_progress job rows)
      → In a rows
        ⊎ ((a ≡ job)
            ⊎ ((old : PublicationJob) × In old rows
                × (same_job old job ≡ true)
                × (a ≡ progress old job)))
  unfolding put_progress
  In-put_progress a h = In-upsert same_job progress job a rows h

-- add_job writes under the job's id only: a new id gets the job, a present one the update of its
-- row, and every other id keeps its row.
pub get_job-add_job :
    (id : String) (job : PublicationJob) (rows : List PublicationJob)
    → get_job id (add_job job rows) ≡ (
        if job.id == id
        then some (elim (get_job id rows) [ none ↦ job | some old ↦ renewed old job ])
        else get_job id rows)
get_job-add_job id job rows = elim (Bool-cases (job.id == id)) [
  | inl same ↦ rw (same, ← (==_iff job.id id).0 same) (get_job-add_job_self job rows)
  | inr other ↦ rw other (get_job-add_job_other job rows id other)
]
