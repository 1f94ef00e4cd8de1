-- ===== src/Engine/Recovery.antt =====
-- recover_expired_leases, as a map from the rows before to the rows after.
use yasin_press_rewrite.Base.{
  ◌≡◌, refl, ℕ, zero, suc, ◌&&◌, leb, ltb, some_and, Option, String, Bool, true, false, List, [],
  ◌∷◌, none, some, arith, ◌==◌, ==_iff, string_eq, if◌then◌else◌, select, first, map, contains, In,
  Bool-cases, inl, inr, contains-map, contains-map_of, In-select, In-select_of, subst, first-none,
  Option-cases, ◌⊎◌, ap, sym, ◌∙◌, contains-map,
}
use yasin_press_rewrite.Models.{
  Instant, PublicationJob, Status, pending, processing, retrying, failed, dead_letter, succeeded,
  is_processing,
}
use yasin_press_rewrite.Database.{Db}
use yasin_press_rewrite.Database.Queue.{
  is_stale, get_job, get_stale_leased_jobs, put_progress, progress,
}
use yasin_press_rewrite.Database.Keyed.{
  IsKeyed, job_key, In-get_job, get_job-In, get_job-put_progress_self, get_job-put_progress_other,
}
use yasin_press_rewrite.Database.Table.{unique_row}
use yasin_press_rewrite.Engine.Finish.{recovered, recover_each, recover_expired_leases}

get_job-cons :
    (id : String) (j : PublicationJob) (rows : List PublicationJob)
    → get_job id (j ∷ rows) ≡ (if j.id == id then some j else get_job id rows)
unfolding get_job first
get_job-cons id j rows = refl

progress-recovered : (j : PublicationJob) → progress j (recovered j) ≡ recovered j
unfolding recovered
progress-recovered j = refl

id-recovered : (j : PublicationJob) → (recovered j).id ≡ j.id
unfolding recovered
id-recovered j = refl

get_job-nil : (id : String) → get_job id [] ≡ none
unfolding get_job first
get_job-nil id = refl

-- A job that is not among the stale ones keeps its row.
get_job-recover_each_other :
    (id : String) (stale rows : List PublicationJob)
    → get_job id stale ≡ none
    → get_job id (recover_each stale rows) ≡ get_job id rows
unfolding recover_each
get_job-recover_each_other id [] rows h = refl
get_job-recover_each_other id (j ∷ stale) rows h = elim (Bool-cases (j.id == id)) [
  | inl e ↦ absurd (ground (arith, get_job-cons id j stale))
  | inr e ↦
      get_job-recover_each_other id stale (put_progress (recovered j) rows)
        (ground (arith, get_job-cons id j stale))
      ∙ get_job-put_progress_other (recovered j) rows id (rw id-recovered e)
]

get_job-absent :
    (id : String) (rows : List PublicationJob)
    → contains id (map job_key rows) ≡ false
    → get_job id rows ≡ none
unfolding contains
get_job-absent id [] h = get_job-nil id
get_job-absent id (j ∷ rows) h =
    rw get_job-cons (ground (arith, get_job-absent id rows, ==_iff id j.id, ==_iff j.id id))

written :
    (j x : PublicationJob) (rows : List PublicationJob)
    → j ≡ x
    → get_job j.id rows ≡ some x
    → get_job j.id (put_progress (recovered j) rows) ≡ some (recovered x)
unfolding recovered
written j x rows same h =
    get_job-put_progress_self (recovered j) rows
    ∙ rw h (
        subst (λ (y : PublicationJob). some (progress y (recovered j)) ≡ some (recovered y)) same
          refl)

-- A stale job gets the row that the loop gives it.
get_job-recover_each_self :
    (id : String) (stale rows : List PublicationJob) (x : PublicationJob)
    → IsKeyed stale
    → get_job id stale ≡ some x
    → get_job id rows ≡ some x
    → get_job id (recover_each stale rows) ≡ some (recovered x)
unfolding recover_each
get_job-recover_each_self id [] rows x d h g = absurd (cc (get_job-nil id))
get_job-recover_each_self id (j ∷ stale) rows x d h g = elim (Bool-cases (j.id == id)) [
  | inl e ↦
      let named : j.id ≡ id = (==_iff j.id id).0 e in
      let same : j ≡ x = ground (arith, get_job-cons id j stale) in
      get_job-recover_each_other id stale (put_progress (recovered j) rows) (
        get_job-absent id stale
          (subst (λ (k : String). contains k (map job_key stale) ≡ false) named d.0))
      ∙ subst
          (λ (k : String).
            get_job k rows ≡ some x
            → get_job k (put_progress (recovered j) rows) ≡ some (recovered x))
          named (λ at. written j x rows same at) g
  | inr e ↦
      get_job-recover_each_self id stale (put_progress (recovered j) rows) x d.1
        (ground (arith, get_job-cons id j stale))
        (get_job-put_progress_other (recovered j) rows id (rw id-recovered e) ∙ g)
]

select-IsKeyed :
    (test : PublicationJob → Bool) (rows : List PublicationJob)
    → IsKeyed rows
    → IsKeyed (select test rows)
unfolding select contains
select-IsKeyed test [] h = tt
select-IsKeyed test (j ∷ rows) h = elim (Bool-cases (test j)) [
  | inl e ↦
      rw (e, if◌then◌else◌)
        (
          absent (Bool-cases (contains j.id (map job_key (select test rows)))),
          select-IsKeyed test rows h.1,
        )
  | inr e ↦ rw (e, if◌then◌else◌) (select-IsKeyed test rows h.1)
]
  where
    absent :
        (contains j.id (map job_key (select test rows)) ≡ true)
          ⊎ (contains j.id (map job_key (select test rows)) ≡ false)
        → contains j.id (map job_key (select test rows)) ≡ false
    absent (inr out) = out
    absent (inl inside) =
        let (y, m, e) = contains-map job_key j.id (select test rows) inside in
        absurd (cc (h.0, contains-map_of job_key j.id y rows (In-select test y rows m).0 e))

-- What the stale rows hold under an id.
get_job-stale :
    (now : Instant) (rows : List PublicationJob) (id : String) (j : PublicationJob)
    → IsKeyed rows
    → get_job id rows ≡ some j
    → get_job id (get_stale_leased_jobs now rows) ≡ (if is_stale now j then some j else none)
unfolding get_stale_leased_jobs
get_job-stale now rows id j keyed h = elim (Bool-cases (is_stale now j)) [
  | inl t ↦ rw t (
      rw (← (In-get_job id rows j h).1) (
        get_job-In j (select (is_stale now) rows) (select-IsKeyed (is_stale now) rows keyed)
          (In-select_of (is_stale now) j rows (In-get_job id rows j h).0 t)))
  | inr t ↦ rw t (absent t (Option-cases (get_job id (select (is_stale now) rows))))
]
  where
    absent :
        is_stale now j ≡ false
        → (get_job id (select (is_stale now) rows) ≡ none)
          ⊎ ((y : PublicationJob) × (get_job id (select (is_stale now) rows) ≡ some y))
        → get_job id (select (is_stale now) rows) ≡ none
    absent t (inl e) = e
    absent t (inr (y, e)) =
        let (m, named) = In-get_job id (select (is_stale now) rows) y e in
        let (m', t') = In-select (is_stale now) y rows m in
        let (n, named') = In-get_job id rows j h in
        absurd (
          cc (
            t,
            t',
            ap (is_stale now) (unique_row job_key y j rows keyed m' n (named ∙ sym named')),
          ))

not-In-get_job :
    (id : String) (rows : List PublicationJob) (y : PublicationJob)
    → get_job id rows ≡ none
    → In y rows
    → ¬ (y.id ≡ id)
unfolding get_job
not-In-get_job id rows y h m named =
    cc (first-none (λ (j : PublicationJob). j.id == id) rows y h m, (==_iff y.id id).1 named)

get_job-stale_none :
    (now : Instant) (rows : List PublicationJob) (id : String)
    → get_job id rows ≡ none
    → get_job id (get_stale_leased_jobs now rows) ≡ none
unfolding get_stale_leased_jobs
get_job-stale_none now rows id h = absent (Option-cases (get_job id (select (is_stale now) rows)))
  where
    absent :
        (get_job id (select (is_stale now) rows) ≡ none)
          ⊎ ((y : PublicationJob) × (get_job id (select (is_stale now) rows) ≡ some y))
        → get_job id (select (is_stale now) rows) ≡ none
    absent (inl e) = e
    absent (inr (y, e)) =
        let (m, named) = In-get_job id (select (is_stale now) rows) y e in
        absurd (not-In-get_job id rows y h (In-select (is_stale now) y rows m).0 named)

get_job-recover_rows :
    (now : Instant) (db : Db) (id : String)
    → IsKeyed db.queue
    → get_job id (recover_expired_leases now db).1.queue ≡ elim (get_job id db.queue) [
      | none ↦ none
      | some j ↦ some (if is_stale now j then recovered j else j)
    ]
unfolding recover_expired_leases
get_job-recover_rows now db id keyed = elim (Option-cases (get_job id db.queue)) [
  | inl e ↦ rw e (
      get_job-recover_each_other id (get_stale_leased_jobs now db.queue) db.queue
        (get_job-stale_none now db.queue id e)
      ∙ e)
  | inr (j, e) ↦ rw e (by_staleness j e (Bool-cases (is_stale now j)))
]
  where
    by_staleness :
        (j : PublicationJob)
        → get_job id db.queue ≡ some j
        → (is_stale now j ≡ true) ⊎ (is_stale now j ≡ false)
        → get_job id (recover_each (get_stale_leased_jobs now db.queue) db.queue)
          ≡ some (if is_stale now j then recovered j else j)
    by_staleness j e (inl t) = rw t (
        get_job-recover_each_self id (get_stale_leased_jobs now db.queue) db.queue j
          (unfold get_stale_leased_jobs in select-IsKeyed (is_stale now) db.queue keyed)
          (ground (arith, get_job-stale now db.queue id j keyed e)) e)
    by_staleness j e (inr t) = rw t (
        get_job-recover_each_other id (get_stale_leased_jobs now db.queue) db.queue
          (ground (arith, get_job-stale now db.queue id j keyed e))
        ∙ e)

-- The job is in processing, and its lease has run out.
abbrev pub has_run_out : Instant → Status → Option Instant → Bool
has_run_out now processing (some t) = leb t now
has_run_out now _ _ = false

-- The row of a job that is put back: pending if no attempt was made, else retrying.
abbrev pub put_back : PublicationJob → PublicationJob
put_back j = record j {
  status = elim j.attempts as (λ _. Status) [ zero ↦ pending | suc n ↦ retrying ];
  lease_expires_at = none;
  last_error = some "Lease expired (worker crash recovery)";
}

is_stale-has_run_out :
    (now : Instant) (j : PublicationJob)
    → is_stale now j ≡ has_run_out now j.status j.lease_expires_at
unfolding is_stale is_processing
is_stale-has_run_out now j = by_fields j.status j.lease_expires_at
  where
    by_fields :
        (s : Status) (lease : Option Instant)
        → (is_processing s && some_and lease (λ t. leb t now)) ≡ has_run_out now s lease
    by_fields pending lease = refl
    by_fields processing none = refl
    by_fields processing (some t) = refl
    by_fields retrying lease = refl
    by_fields failed lease = refl
    by_fields dead_letter lease = refl
    by_fields succeeded lease = refl

-- recovered and put_back, apart from the status.
abbrev with_status : PublicationJob → Status → PublicationJob
with_status j status = record j {
  status = status;
  lease_expires_at = none;
  last_error = some "Lease expired (worker crash recovery)";
}

status_put_back :
    (n : ℕ)
    → (if ltb 0 n then retrying else pending)
      ≡ (elim n as (λ _. Status) [ zero ↦ pending | suc n ↦ retrying ])
status_put_back zero = ground arith
status_put_back (suc n) = ground arith

recovered-put_back : (j : PublicationJob) → recovered j ≡ put_back j
unfolding recovered
recovered-put_back j = ap (with_status j) (status_put_back j.attempts)

-- On a queue with distinct ids, recover_expired_leases turns the row of a job in processing whose
-- lease has run out into retrying, or pending with no attempt made, without a lease and with the
-- text of the recovery as its error, and leaves every other row as it was.
pub get_job-recover :
    (now : Instant) (db : Db) (id : String)
    → IsKeyed db.queue
    → get_job id (recover_expired_leases now db).1.queue ≡ elim (get_job id db.queue) [
      | none ↦ none
      | some j ↦ some (if has_run_out now j.status j.lease_expires_at then put_back j else j)
    ]
get_job-recover now db id keyed =
    get_job-recover_rows now db id keyed ∙ by_row (get_job id db.queue)
  where
    by_row :
        (row : Option PublicationJob)
        → (elim row as (λ _. Option PublicationJob) [
          | none ↦ none
          | some j ↦ some (if is_stale now j then recovered j else j)
        ])
          ≡ (elim row as (λ _. Option PublicationJob) [
            | none ↦ none
            | some j ↦ some (if has_run_out now j.status j.lease_expires_at then put_back j else j)
          ])
    by_row none = refl
    by_row (some j) = rw (is_stale-has_run_out now j, recovered-put_back j) refl
