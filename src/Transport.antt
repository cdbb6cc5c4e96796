-- ===== src/Transport.antt =====
-- pfp_runtime/publishing/support/transport_policy.py: bounded retries and the categories of errors.
pub mod Http
pub mod HttpClient
pub mod Deliveries
pub mod Statuses
pub mod Retries
pub mod Categories
mod Tests
use product_feed_protocol.Prelude.{
  ℕ, zero, suc, ◌+◌, String, Bool, true, false, ◌&&◌, ◌||◌, Option, none, some, List, [], ◌∷◌, map,
  ◌==◌, nat_eq, string_eq, any, ltb, leb, if◌then◌else◌,
}
use product_feed_protocol.Text.{codes, strip, lower, lower_code, is_one_of, same_codes}

-- What the executor reads of a `TransportPolicy`.
pub record Policy : Type 0 where
  pub max_retries : ℕ
  pub retry_backoff_seconds : ℕ

-- `is_retryable_category`
unfoldable pub is_retryable_category : String → Bool
is_retryable_category category =
    any (λ c. c == category)
      ("timeout" ∷ "network" ∷ "transient_service_failure" ∷ "remote_5xx" ∷ "remote_429" ∷ [])

-- A call of the operation returns or raises.
pub data Attempt (A E : Type 0) : Type 0 where
  returned : A → Attempt A E
  raised : E → Attempt A E

-- How the executor ends: the result, the exception raised again, or `TransportRetryExhaustedError`
-- from the last exception.
pub data Outcome (A E : Type 0) : Type 0 where
  succeeded : A → Outcome A E
  reraised : E → Outcome A E
  exhausted : E → Outcome A E

-- How many calls were made and how many pauses.
pub record Run (A E : Type 0) : Type 0 where
  pub outcome : Outcome A E
  pub calls : ℕ
  pub pauses : ℕ

abbrev pub ended : {A E : Type 0} → ℕ → ℕ → Outcome A E → Run A E
ended attempts pauses outcome = record { outcome = outcome; calls = attempts + 1; pauses = pauses }

module _ {A E : Type 0} (policy : Policy) (classify_error : E → String)
    (operation : ℕ → Attempt A E) where
  -- The `except` clause: what follows a call that raised, where `again` is the rest of the loop.
  unfoldable pub after_raise : E → ℕ → ℕ → Option (Run A E) → Option (Run A E)
  unfolding is_retryable_category
  after_raise e attempts pauses again =
      if is_retryable_category (classify_error e)
      then if leb policy.max_retries attempts
        then some (ended attempts pauses (exhausted e))
        else again
      else some (ended attempts pauses (reraised e))

  -- `time.sleep`, if the policy asks for it.
  unfoldable pub pause : ℕ → ℕ
  pause pauses = if ltb 0 policy.retry_backoff_seconds then pauses + 1 else pauses

  -- The `while` loop, on fuel: none is out of fuel. The operation's calls are numbered from 0.
  unfoldable pub retry_loop : ℕ → ℕ → ℕ → Option (Run A E)
  unfolding after_raise pause
  retry_loop zero attempts pauses = none
  retry_loop (suc fuel) attempts pauses = elim (operation attempts) [
    | returned a ↦ some (ended attempts pauses (succeeded a))
    | raised e ↦ after_raise e attempts pauses (retry_loop fuel (attempts + 1) (pause pauses))
  ]

  -- `execute_with_retry`, with fuel for the first call and each retry.
  unfoldable pub execute_with_retry : Option (Run A E)
  unfolding retry_loop
  execute_with_retry = retry_loop (policy.max_retries + 1) 0 0

-- `word in message`
unfoldable pub starts_with : List ℕ → List ℕ → Bool
starts_with [] cs = true
starts_with (a ∷ as') [] = false
starts_with (a ∷ as') (c ∷ cs) = (a == c) && starts_with as' cs

unfoldable pub occurs : List ℕ → List ℕ → Bool
unfolding starts_with
occurs word [] = starts_with word []
occurs word (c ∷ cs) = starts_with word (c ∷ cs) || occurs word cs

abbrev pub mentions : List ℕ → List String → Bool
mentions message words = any (λ word. occurs (codes word) message) words

-- The rest of `classify_transport_error`, on the lower-case message.
unfoldable pub classify_message : List ℕ → String → String
unfolding occurs
classify_message message transport =
    if mentions message ("timed out" ∷ "timeout" ∷ [])
    then "timeout"
    else if mentions message ("tls" ∷ "ssl" ∷ "certificate" ∷ [])
    then "tls_failure"
    else if mentions message ("host key" ∷ [])
    then "ssh_host_key_failure"
    else if mentions message ("algorithm" ∷ "cipher" ∷ [])
    then "ssh_algorithm_failure"
    else if mentions message ("auth" ∷ "credentials" ∷ "forbidden" ∷ [])
    then "auth_failure"
    else if mentions message ("access denied" ∷ "permission denied" ∷ [])
    then "access_denied"
    else if mentions message ("endpoint" ∷ "region" ∷ [])
    then "endpoint_region_mismatch"
    else if mentions message ("remote 4xx" ∷ "status 4" ∷ [])
    then "remote_4xx"
    else if mentions message ("remote 5xx" ∷ "status 5" ∷ [])
    then "remote_5xx"
    else if mentions message ("connection" ∷ "network" ∷ [])
    then "network"
    else if (transport == "s3") || (transport == "s3_compat")
    then "transient_service_failure"
    else "network"
