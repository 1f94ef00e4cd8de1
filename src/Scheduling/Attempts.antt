-- ===== src/Scheduling/Attempts.antt =====
-- What a worker leaves of a job, and what a restart makes of interrupted ones.
use yasin_press_rewrite.Base.{
  ℕ, zero, suc, ◌+◌, ◌<◌, ◌≡◌, refl, sym, ap, ◌∙◌, ◌⊎◌, inl, inr, String, List, [], ◌∷◌, Option,
  none, some, arith, length, lookup, lookup-put, ==_refl, string_eq, Option-cases, if◌then◌else◌,
}
use yasin_press_rewrite.Models.{Instant}
use yasin_press_rewrite.Scheduling.Jobs.{
  Call, Job, succeeded, failed, running, Store, save, attempts_from, work, interrupted,
  recover_jobs,
}

-- A job that ended: it succeeded with its last attempt, or every one of the attempts failed.
pub record IsTried (task : ℕ → Call) (start limit before : ℕ) (job : Job) : Type 0 where
  pub made : ℕ
  pub count : job.attempts ≡ before + suc made
  pub end :
      ((job.status ≡ succeeded)
        × (job.error ≡ none)
        × (task (start + made) ≡ none)
        × (made < limit))
      ⊎ ((job.status ≡ failed) × (job.error ≡ task (start + made)) × (suc made ≡ limit))
  pub before_failed : (k : ℕ) → k < made → (e : String) × (task (start + k) ≡ some e)

module _ (task : ℕ → Call) where
  at_once :
      (start limit before : ℕ) (job : Job)
      → job.attempts ≡ before
      → 0 < limit
      → task start ≡ none
      → IsTried task start limit before
          (record job { attempts = job.attempts + 1; status = succeeded; error = none })
  at_once start limit before job b l e = record {
    made = 0;
    count = omega (arith, b);
    end = inl (refl, refl, ap task (omega arith) ∙ e, l);
    before_failed = λ k h. absurd (omega (arith, h));
  }

  at_last :
      (start before : ℕ) (job : Job) (e : String)
      → job.attempts ≡ before
      → task start ≡ some e
      → IsTried task start 1 before
          (record job { attempts = job.attempts + 1; error = some e; status = failed })
  at_last start before job e b h = record {
    made = 0;
    count = omega (arith, b);
    end = inr (refl, sym (ap task (omega arith) ∙ h), refl);
    before_failed = λ k i. absurd (omega (arith, i));
  }

  later_on :
      (start limit before : ℕ) (job : Job) (e : String)
      → task start ≡ some e
      → IsTried task (suc start) limit (before + 1) job
      → IsTried task start (suc limit) before job
  later_on start limit before job e h r = record {
    made = suc r.made;
    count = omega (arith, r.count);
    end = elim r.end [
      | inl (s, o, t, l) ↦ inl (s, o, ap task (omega arith) ∙ t, omega (arith, l))
      | inr (s, o, l) ↦ inr (s, o ∙ ap task (omega arith), omega (arith, l))
    ];
    before_failed = λ k i. earlier k i;
  }
    where
      earlier : (k : ℕ) → k < suc r.made → (e : String) × (task (start + k) ≡ some e)
      earlier zero i = (e, ap task (omega arith) ∙ h)
      earlier (suc k) i =
          let (f, g) = r.before_failed k (omega (arith, i)) in (f, ap task (omega arith) ∙ g)

  attempts_from-IsTried :
      (left start before : ℕ) (job : Job)
      → job.attempts ≡ before
      → IsTried task start (suc left) before (attempts_from task (suc left) start job).0
  unfolding attempts_from
  attempts_from-IsTried zero start before job b = elim (Option-cases (task start)) [
    | inl e ↦ rw (e, attempts_from) (at_once start 1 before job b (omega arith) e)
    | inr (f, e) ↦ rw (e, attempts_from) (at_last start before job f b e)
  ]
  attempts_from-IsTried (suc left) start before job b = elim (Option-cases (task start)) [
    | inl e ↦ rw (e, attempts_from) (at_once start (suc (suc left)) before job b (omega arith) e)
    | inr (f, e) ↦
        rw (e, attempts_from)
          (later_on start (suc left) before _ f e (
            attempts_from-IsTried left (suc start) (before + 1)
              (record job { attempts = job.attempts + 1; error = some f }) (omega (arith, b))))
  ]

  pub attempts_from-id :
      (left start : ℕ) (job : Job) → (attempts_from task left start job).0.id ≡ job.id
  unfolding attempts_from
  attempts_from-id zero start job = refl
  attempts_from-id (suc left) start job =
      by_call left (task start) (λ j. attempts_from-id left (suc start) j)
    where
      by_call :
          (left : ℕ) (t : Call)
          → ((j : Job) → (attempts_from task left (suc start) j).0.id ≡ j.id)
          → (elim t as (λ _. Job × List ℕ) [
            | none ↦
                (record job { attempts = job.attempts + 1; status = succeeded; error = none }, [])
            | some e ↦ elim left as (λ _. Job × List ℕ) [
              | zero ↦
                  (record job { attempts = job.attempts + 1; error = some e; status = failed }, [])
              | suc more ↦ (
                (attempts_from task left
                    (suc start)
                    (record job { attempts = job.attempts + 1; error = some e })).0,
                start
                    ∷ (attempts_from task left
                        (suc start)
                        (record job { attempts = job.attempts + 1; error = some e })).1,
              )
            ]
          ]).0.id
            ≡ job.id
      by_call left none f = refl
      by_call zero (some e) f = refl
      by_call (suc more) (some e) f = f (record job { attempts = job.attempts + 1; error = some e })

  finished :
      (limit before : ℕ) (t : Option Instant) (job : Job)
      → IsTried task 0 limit before job
      → IsTried task 0 limit before (record job { finished_at = t })
  finished limit before t job h = record {
    made = h.made;
    count = h.count;
    end = h.end;
    before_failed = h.before_failed;
  }

  saved :
      (id : String) (job : Job) (store : Store)
      → job.id ≡ id
      → lookup id (save job store) ≡ some job
  unfolding save
  saved id job store e = rw (lookup-put, e, ==_refl id, if◌then◌else◌) refl

  -- A worker under a policy of at least one attempt ends the job: it succeeded with its last
  -- attempt and without an error, or all attempts were made and failed and the last error is kept;
  -- every earlier attempt failed; and the store has the job as it ended.
  pub work-IsTried :
      (begin finish : Instant) (retries : ℕ) (job : Job) (store : Store)
      → IsTried task 0 (suc retries) job.attempts (work begin finish (suc retries) task job store).0
        × (lookup job.id (work begin finish (suc retries) task job store).1
            ≡ some (work begin finish (suc retries) task job store).0)
  unfolding work save
  work-IsTried begin finish retries job store = (
    finished (suc retries) job.attempts (some finish) _ (
        attempts_from-IsTried retries 0 job.attempts
          (record job { status = running; started_at = some begin }) refl),
    saved job.id _ _ (
        attempts_from-id (suc retries) 0
          (record job { status = running; started_at = some begin })),
  )

-- recover_jobs counts every job once, as recovered or as skipped.
pub recover_jobs-count :
    (jobs : List Job) (store : Store)
    → (recover_jobs jobs store).0.recovered + (recover_jobs jobs store).0.skipped ≡ length jobs
unfolding recover_jobs
recover_jobs-count [] store = refl
recover_jobs-count (job ∷ jobs) store =
    ground
      (arith, recover_jobs-count jobs (save (interrupted job) store), recover_jobs-count jobs store)
