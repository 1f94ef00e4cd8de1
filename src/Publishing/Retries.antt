-- ===== src/Publishing/Retries.antt =====
-- How many attempts a retried publisher makes, and what it returns.
use yasin_press_rewrite.Base.{
  ℕ, zero, suc, ◌+◌, ◌-◌, ◌≤◌, ◌<◌, ◌≡◌, refl, subst, Bool, ◌⊎◌, inl, inr, true, false, [], ◌∷◌,
  arith, All, length, max, if◌then◌else◌,
}
use yasin_press_rewrite.Models.{PublishResult}
use yasin_press_rewrite.Publishing.Reliability.{RetryPolicy, delay, Sent, retry, publish}

-- A run of the loop from `first` on that may go up to `last`.
pub record IsRun (policy : RetryPolicy) (call : ℕ → PublishResult) (start last : ℕ) (s : Sent)
    : Type 0 where
  pub from : start ≤ s.attempts
  pub upto : s.attempts ≤ last
  pub answer : s.result ≡ call s.attempts
  pub failed : (k : ℕ) → start ≤ k → k < s.attempts → (call k).success ≡ false
  pub finished : (s.result.success ≡ true) ⊎ (s.attempts ≡ last)
  pub naps : length s.slept + start ≡ s.attempts
  pub bounded : All (λ d. d ≤ policy.max_delay) s.slept

delay-le : (policy : RetryPolicy) (n : ℕ) → delay policy n ≤ policy.max_delay
unfolding delay
delay-le policy n = omega arith

module _ (policy : RetryPolicy) (call : ℕ → PublishResult) where
  one :
      (start last : ℕ)
      → start ≤ last
      → ((call start).success ≡ true) ⊎ (start ≡ last)
      → IsRun policy call start last (record { result = call start; attempts = start; slept = [] })
  one start last le e = record {
    from = omega arith;
    upto = le;
    answer = refl;
    failed = λ k h i. absurd (omega arith);
    finished = e;
    naps = omega arith;
    bounded = tt;
  }

  again :
      (start last : ℕ) (s : Sent)
      → (call start).success ≡ false
      → IsRun policy call (suc start) last s
      → IsRun policy call start last (record s { slept = delay policy start ∷ s.slept })
  again start last s e h = record {
    from = omega (arith, h.from);
    upto = h.upto;
    answer = h.answer;
    failed = λ k i j. elim (compare_start k i) [
      | inl same ↦ rw (← same) e
      | inr later ↦ h.failed k later j
    ];
    finished = h.finished;
    naps = omega (arith, h.naps);
    bounded = (delay-le policy start, h.bounded);
  }
    where
      compare_start : (k : ℕ) → start ≤ k → (start ≡ k) ⊎ (suc start ≤ k)
      compare_start k i = omega arith

  retry-IsRun :
      (left start : ℕ) → IsRun policy call start (start + left) (retry policy call left start)
  unfolding retry
  retry-IsRun zero start = one start (start + 0) (omega arith) (inr (omega arith))
  retry-IsRun (suc left) start = by_success (call start).success refl (retry-IsRun left (suc start))
    where
      later : Sent
      later = retry policy call left (suc start)

      by_success :
          (b : Bool)
          → (call start).success ≡ b
          → IsRun policy call (suc start) (suc start + left) later
          → IsRun policy call start (start + suc left) (
              if b
              then record { result = call start; attempts = start; slept = [] }
              else record later { slept = delay policy start ∷ later.slept })
      by_success true e h = one start (start + suc left) (omega arith) (inl e)
      by_success false e h =
          again start (start + suc left) later e
            (subst (λ n. IsRun policy call (suc start) n later) (omega arith) h)

  -- A retried delivery makes at least one attempt and at most max_attempts many (one if that is
  -- 0), returns what its last attempt answered, every attempt before failed, it stops early only
  -- on a success, and it sleeps once between two attempts, for max_delay at most.
  pub publish-IsRun : IsRun policy call 1 (max 1 policy.max_attempts) (publish policy call)
  unfolding publish
  publish-IsRun =
      subst (λ n. IsRun policy call 1 n (publish policy call)) (omega arith)
        (retry-IsRun (max 1 policy.max_attempts - 1) 1)
