-- ===== src/Transport/Statuses.antt =====
-- The statuses that the HTTP transport accepts and retries.
use product_feed_protocol.Prelude.{
  ℕ, String, ◌≡◌, ◌≤◌, ◌<◌, refl, arith, Bool, true, false, ◌||◌, Option, none, some, List, ◌==◌,
  nat_eq, string_eq, if◌then◌else◌,
}
use product_feed_protocol.Transport.{
  Policy, Attempt, returned, raised, Outcome, succeeded, reraised, exhausted, Run,
  is_retryable_category,
}
use product_feed_protocol.Transport.Retries.{last_call, outcome_of, execute_with_retry-last_call}
use product_feed_protocol.Transport.Http.{
  HttpFailure, marked, network_failure, is_in, check_status, check_status_no_retry, classify_http,
  checked, request, execute,
}

abbrev pub is_transient_status : Option String → Bool
is_transient_status none = false
is_transient_status (some category) = is_retryable_category category

-- Both checks refuse the same statuses with the same category, and a refused status is worth a retry exactly when it is 429
-- or from 500 to 599.
pub check_status-agrees :
    (status : ℕ)
    → (check_status status ≡ check_status_no_retry status)
      × (is_transient_status (check_status status) ≡ (is_in 500 600 status || (status == 429)))
unfolding check_status check_status_no_retry is_retryable_category
check_status-agrees status = (ground arith, ground arith)

check_status-none : (status : ℕ) → check_status status ≡ none → (200 ≤ status) × (status < 300)
unfolding check_status
check_status-none status h = ground (arith, h)

-- A status that is accepted is from 200 to 299.
abbrev pub IsAccepted : {E : Type 0} → Outcome ℕ E → Type 0
IsAccepted (succeeded status) = (200 ≤ status) × (status < 300)
IsAccepted _ = Unit

module _ (policy : Policy) (operation : ℕ → Attempt ℕ HttpFailure) where
  IsAccepted-raise :
      (b : Bool) (e : HttpFailure)
      → IsAccepted {E = HttpFailure} (if b then exhausted e else reraised e)
  IsAccepted-raise true e = tt
  IsAccepted-raise false e = tt

  IsAccepted-checked :
      (status : ℕ) (category : Option String)
      → (category ≡ none → (200 ≤ status) × (status < 300))
      → IsAccepted (outcome_of policy classify_http operation (checked status category))
  IsAccepted-checked status none h = h refl
  IsAccepted-checked status (some category) h = IsAccepted-raise _ (marked category)

  IsAccepted-request :
      (answer : Attempt ℕ (List ℕ))
      → IsAccepted (outcome_of policy classify_http operation (request answer))
  unfolding request
  IsAccepted-request (raised message) = IsAccepted-raise _ (network_failure message)
  IsAccepted-request (returned status) =
      IsAccepted-checked status (check_status status) (check_status-none status)

-- However the server answers, the transport ends, and if it ends with a status then that status is from 200 to 299.
pub execute-IsAccepted :
    (policy : Policy) (server : ℕ → Attempt ℕ (List ℕ))
    → (run : Run ℕ HttpFailure) × (execute policy server ≡ some run) × IsAccepted run.outcome
unfolding execute
execute-IsAccepted policy server =
    let operation : ℕ → Attempt ℕ HttpFailure = λ i. request (server i) in
    (
      _,
      execute_with_retry-last_call policy classify_http operation,
      IsAccepted-request policy operation
          (server (last_call policy classify_http operation policy.max_retries 0)),
    )
