-- ===== src/Transport/Retries.antt =====
-- `execute_with_retry` ends, and how.
use product_feed_protocol.Prelude.{
  ℕ, zero, suc, ◌+◌, ◌≤◌, ◌<◌, String, ◌≡◌, ◌⊎◌, refl, sym, ap, ◌∙◌, arith, Bool, true, false,
  Option, some, ltb, leb, le→leb, if◌then◌else◌, Bool-cases, inl, inr,
}
use product_feed_protocol.Transport.{
  Policy, is_retryable_category, Attempt, returned, raised, Outcome, succeeded, reraised, exhausted,
  Run, ended, retry_loop, after_raise, pause, execute_with_retry,
}

pub Attempt-cases :
    {A E : Type 0} (x : Attempt A E) → ((a : A) × (x ≡ returned a)) ⊎ ((e : E) × (x ≡ raised e))
Attempt-cases (returned a) = inl (a, refl)
Attempt-cases (raised e) = inr (e, refl)

leb_over : (limit i : ℕ) → i < limit → leb limit i ≡ false
leb_over limit i h = ground (arith, h)

module _ {A E : Type 0} (policy : Policy) (classify_error : E → String)
    (operation : ℕ → Attempt A E) where
  -- A call that raises what is worth another try.
  unfoldable pub is_transient : Attempt A E → Bool
  is_transient (returned a) = false
  is_transient (raised e) = is_retryable_category (classify_error e)

  abbrev pub outcome_of : Attempt A E → Outcome A E
  outcome_of (returned a) = succeeded a
  outcome_of (raised e) =
      if is_retryable_category (classify_error e) then exhausted e else reraised e

  -- The number of the last call, from a call on, with some retries left: the first that is not transient, or
  -- the last that the retries allow.
  unfoldable pub last_call : ℕ → ℕ → ℕ
  unfolding is_transient
  last_call zero i = i
  last_call (suc left) i =
      let next = last_call left (i + 1) in if is_transient (operation i) then next else i

  -- The pauses before a call.
  unfoldable pub pauses_before : ℕ → ℕ
  pauses_before i = if ltb 0 policy.retry_backoff_seconds then i else 0

  pause-pauses_before :
      (i : ℕ) → pause policy classify_error operation (pauses_before i) ≡ pauses_before (i + 1)
  unfolding pauses_before pause
  pause-pauses_before i = ground arith

  -- The run whose last call is the given one.
  abbrev pub run_to : ℕ → Run A E
  run_to n = ended n (pauses_before n) (outcome_of (operation n))

  after_raise-last :
      (e : E) (i : ℕ) (again : Option (Run A E))
      → operation i ≡ raised e
      → policy.max_retries ≤ i
      → after_raise policy classify_error operation e i (pauses_before i) again ≡ some (run_to i)
  unfolding after_raise
  after_raise-last e i again k h = elim (Bool-cases (is_retryable_category (classify_error e))) [
    | inl t ↦ rw (after_raise, k, t, le→leb policy.max_retries i h) refl
    | inr f ↦ rw (after_raise, k, f) refl
  ]

  after_raise-run_to :
      (e : E) (i n : ℕ)
      → operation i ≡ raised e
      → i < policy.max_retries
      → after_raise policy classify_error operation e i (pauses_before i) (some (run_to n))
        ≡ some (run_to (if is_transient (operation i) then n else i))
  unfolding after_raise is_transient
  after_raise-run_to e i n k h = elim (Bool-cases (is_retryable_category (classify_error e))) [
    | inl t ↦ rw (after_raise, is_transient, k, t, leb_over policy.max_retries i h) refl
    | inr f ↦ rw (after_raise, is_transient, k, f, k, f) refl
  ]

  loop_raised :
      (e : E) (fuel i p : ℕ)
      → operation i ≡ raised e
      → retry_loop policy classify_error operation (suc fuel) i p
        ≡ after_raise policy classify_error operation e i p (
            retry_loop policy classify_error operation fuel
              (i + 1)
              (pause policy classify_error operation p))
  unfolding retry_loop
  loop_raised e fuel i p k = rw (retry_loop, k) refl

  retry_loop-last_call :
      (left i : ℕ)
      → i + left ≡ policy.max_retries
      → retry_loop policy classify_error operation (suc left) i (pauses_before i)
        ≡ some (run_to (last_call left i))
  unfolding retry_loop last_call is_transient
  retry_loop-last_call zero i h = elim (Attempt-cases (operation i)) [
    | inl (a, k) ↦ rw (retry_loop, k) refl
    | inr (e, k) ↦
        loop_raised e 0 i (pauses_before i) k ∙ after_raise-last e i _ k (omega (arith, h))
  ]
  retry_loop-last_call (suc left) i h = elim (Attempt-cases (operation i)) [
    | inl (a, k) ↦ rw (retry_loop, is_transient, k, k) refl
    | inr (e, k) ↦
        loop_raised e (suc left) i (pauses_before i) k
        ∙ ap (after_raise policy classify_error operation e i (pauses_before i)) (
            ap (retry_loop policy classify_error operation (suc left) (i + 1))
              (pause-pauses_before i)
            ∙ retry_loop-last_call left (i + 1) (omega (arith, h)))
        ∙ after_raise-run_to e i (last_call left (i + 1)) k (omega (arith, h))
  ]

  -- The retries end: with one call and as many retries as the policy allows, the loop comes to a result. It makes
  -- the calls up to the first that succeeds or raises what is not worth a retry, or up to the last that the policy
  -- allows, and pauses before each call but the first if the policy asks for pauses. It ends as that last call does: with its
  -- result, with its exception, or with the error of exhausted retries.
  pub execute_with_retry-last_call :
      execute_with_retry policy classify_error operation
      ≡ some (
          ended
            (last_call policy.max_retries 0)
            (pauses_before (last_call policy.max_retries 0))
            (outcome_of (operation (last_call policy.max_retries 0))))
  unfolding execute_with_retry pauses_before
  execute_with_retry-last_call =
      let loop = retry_loop policy classify_error operation in
      let none_yet : pauses_before 0 ≡ 0 = ground arith in
      let fuel : policy.max_retries + 1 ≡ suc policy.max_retries = omega arith in
      ap (λ n. loop n 0 0) fuel
      ∙ ap (loop (suc policy.max_retries) 0) (sym none_yet)
      ∙ retry_loop-last_call policy.max_retries 0 (omega arith)

  last_call-le : (left i : ℕ) → last_call left i ≤ i + left
  unfolding last_call
  last_call-le zero i = omega arith
  last_call-le (suc left) i = ground (arith, last_call-le left (i + 1))

  before_last_call :
      (left i j : ℕ) → i ≤ j → j < last_call left i → is_transient (operation j) ≡ true
  unfolding last_call
  before_last_call zero i j le lt = ground (arith, le, lt)
  before_last_call (suc left) i j le lt = ground (arith, le, lt, before_last_call left (i + 1) j)
