-- ===== src/Support/Expiry.antt =====
-- What stays and what does not happen again: cached values, due tasks, and unique items.
use yasin_press_rewrite.Base.{
  ℕ, ◌+◌, ◌<◌, ◌≡◌, refl, ap, inl, inr, String, Bool, true, false, ◌||◌, List, [], ◌∷◌, Option,
  none, some, arith, All, In, map, contains, contains-add, add, Distinct, lookup-put, string_eq,
  ◌==◌, ==_iff, ==_refl, if◌then◌else◌, ltb, Bool-cases,
}
use yasin_press_rewrite.Models.{Instant}
use yasin_press_rewrite.Support.Cache.{Entries, set, alive, cached, span, remember}
use yasin_press_rewrite.Support.Reports.{Dispatcher, due, dispatch}
use yasin_press_rewrite.Support.Intervals.{ScheduledTask, JobExecution, execute, run_due}
use yasin_press_rewrite.Support.Dedup.{unique_from, unique_items}
use yasin_press_rewrite.Pipeline.Articles.{FeedItem}

cached-set :
    (now later ttl : ℕ) (key made : String) (entries : Entries)
    → later < now + ttl
    → cached later key (set now key made ttl entries) ≡ some made
unfolding cached set alive
cached-set now later ttl key made entries soon =
    rw (lookup-put, cached, set, ==_refl key, if◌then◌else◌) (ground (arith, soon))

remember-miss :
    (now default_ttl : ℕ) (key made : String) (ttl : Option ℕ) (entries : Entries)
    → cached now key entries ≡ none
    → remember now default_ttl key made ttl entries
      ≡ (made, set now key made (span default_ttl ttl) entries)
unfolding remember
remember-miss now default_ttl key made ttl entries miss = rw (miss, remember) refl

-- Where nothing is cached under a key, a value that is made for it is returned, and not made
-- again, by every later call before it expires.
pub remember_again :
    (now later default_ttl : ℕ) (key made made' : String) (ttl ttl' : Option ℕ) (entries : Entries)
    → cached now key entries ≡ none
    → later < now + span default_ttl ttl
    → remember later default_ttl key made' ttl' (remember now default_ttl key made ttl entries).1
      ≡ (made, (remember now default_ttl key made ttl entries).1)
unfolding remember
remember_again now later default_ttl key made made' ttl ttl' entries miss soon =
    rw (remember-miss now default_ttl key made ttl entries miss)
      (rw (cached-set now later (span default_ttl ttl) key made entries soon, remember) refl)

-- The positive intervals that add_interval asks for.
abbrev pub IsPositive : List ScheduledTask → Type 0
IsPositive tasks = All (λ (t : ScheduledTask). 0 < t.interval) tasks

run_due-later :
    (now : Instant) (tasks : List ScheduledTask)
    → IsPositive tasks
    → All (λ (t : ScheduledTask). now < t.next_run_at) (run_due now tasks).1
unfolding run_due
run_due-later now [] h = tt
run_due-later now (t ∷ tasks) h = by_due (ltb now t.next_run_at) refl (run_due-later now tasks h.1)
  where
    by_due :
        (b : Bool)
        → ltb now t.next_run_at ≡ b
        → All (λ (u : ScheduledTask). now < u.next_run_at) (run_due now tasks).1
        → All
            (λ (u : ScheduledTask). now < u.next_run_at)
            (if◌then◌else◌ {A = List JobExecution × List ScheduledTask} b
              ((run_due now tasks).0, t ∷ (run_due now tasks).1)
              (
                execute now t.name (t.handler now) ∷ (run_due now tasks).0,
                record t { next_run_at = now + t.interval } ∷ (run_due now tasks).1,
              )).1
    by_due true e k = (ground (arith, e), k)
    by_due false e k = (omega (arith, h.0), k)

run_due-idle :
    (now : Instant) (tasks : List ScheduledTask)
    → All (λ (t : ScheduledTask). now < t.next_run_at) tasks
    → run_due now tasks ≡ ([], tasks)
unfolding run_due
run_due-idle now [] h = refl
run_due-idle now (t ∷ tasks) h = ground (arith, h.0, run_due-idle now tasks h.1)

-- With positive intervals, no task is due a second time at the same time.
pub run_due_again :
    (now : Instant) (tasks : List ScheduledTask)
    → IsPositive tasks
    → run_due now (run_due now tasks).1 ≡ ([], (run_due now tasks).1)
run_due_again now tasks h = run_due-idle now (run_due now tasks).1 (run_due-later now tasks h)

-- A report that was due and sent is followed by no other one before the interval is over.
pub dispatch_pause :
    {P : Type 0} (now later : Instant) (payload payload' : P) (call : Option String)
    (d : Dispatcher P)
    → due now d ≡ true
    → later < now + d.interval
    → dispatch later payload' call (dispatch now payload none d).1
      ≡ (none, (dispatch now payload none d).1)
unfolding dispatch due
dispatch_pause now later payload payload' call d h soon =
    rw (h, if◌then◌else◌) (ground (arith, soon))

other_key :
    (k l : String) (seen : List String)
    → contains k seen ≡ true
    → contains l seen ≡ false
    → (k == l) ≡ false
other_key k l seen h e = elim (Bool-cases (k == l)) [
  | inl t ↦ absurd (cc (h, e, (==_iff k l).0 t))
  | inr t ↦ t
]

module _ (key : FeedItem → String) where
  unique_from-fresh :
      (seen : List String) (items : List FeedItem) (k : String)
      → contains k seen ≡ true
      → contains k (map key (unique_from key seen items)) ≡ false
  unfolding unique_from contains
  unique_from-fresh seen [] k h = refl
  unique_from-fresh seen (item ∷ items) k h = elim (Bool-cases (contains (key item) seen)) [
    | inl e ↦ rw (e, if◌then◌else◌) (unique_from-fresh seen items k h)
    | inr e ↦
        rw (e, if◌then◌else◌)
          (ground (
            arith,
            other_key k (key item) seen h e,
            unique_from-fresh (add (key item) seen) items k (rw (contains-add, h) refl),
          ))
  ]

  unique_from-Distinct :
      (seen : List String) (items : List FeedItem) → Distinct (map key (unique_from key seen items))
  unfolding unique_from
  unique_from-Distinct seen [] = tt
  unique_from-Distinct seen (item ∷ items) = elim (Bool-cases (contains (key item) seen)) [
    | inl e ↦ rw (e, if◌then◌else◌) (unique_from-Distinct seen items)
    | inr e ↦
        rw (e, if◌then◌else◌)
          (
            unique_from-fresh (add (key item) seen) items (key item)
                (rw (contains-add, ==_refl (key item)) (ground arith)),
            unique_from-Distinct (add (key item) seen) items,
          )
  ]

  unique_from_complete :
      (seen : List String) (items : List FeedItem) (item : FeedItem)
      → In item items
      → (contains (key item) seen || contains (key item) (map key (unique_from key seen items)))
        ≡ true
  unfolding unique_from contains
  unique_from_complete seen [] item m = elim m [ ]
  unique_from_complete seen (i ∷ items) item m = elim (Bool-cases (contains (key i) seen)) [
    | inl e ↦
        rw (e, if◌then◌else◌)
          (elim m [
            | inl same ↦ ground (arith, e, ap key same)
            | inr more ↦ unique_from_complete seen items item more
          ])
    | inr e ↦
        rw (e, if◌then◌else◌)
          (elim m [
            | inl same ↦ ground (arith, ap key same, ==_refl (key i))
            | inr more ↦ ground (
              arith,
              unique_from_complete (add (key i) seen) items item more,
              contains-add (key item) (key i) seen,
            )
          ])
  ]

  -- unique_items keeps one item of each key: no key is there twice, and every item's key is there.
  pub unique_items-keys :
      (items : List FeedItem)
      → Distinct (map key (unique_items key items))
        × ((item : FeedItem)
            → In item items
            → contains (key item) (map key (unique_items key items)) ≡ true)
  unfolding unique_items contains
  unique_items-keys items =
      (unique_from-Distinct [] items, λ item m. unique_from_complete [] items item m)
