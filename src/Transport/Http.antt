-- ===== src/Transport/Http.antt =====
-- pfp_runtime/publishing/support/http_transport.py: the status checks and `_execute`. The server is a parameter: the
-- request of a number is answered with a status, or raises.
use product_feed_protocol.Prelude.{
  ℕ, String, Bool, ◌&&◌, Option, none, some, List, ◌==◌, nat_eq, string_eq, leb, ltb, if◌then◌else◌,
}
use product_feed_protocol.Transport.{
  Policy, Attempt, returned, raised, Run, classify_message, execute_with_retry,
}

-- The exceptions of a request: the marker of a status, or one of the network with its message in small letters.
pub data HttpFailure : Type 0 where
  marked : String → HttpFailure
  network_failure : List ℕ → HttpFailure

abbrev pub is_in : ℕ → ℕ → ℕ → Bool
is_in low high status = leb low status && ltb status high

-- `_check_status`: the category that it raises.
unfoldable pub check_status : ℕ → Option String
check_status status =
    if is_in 200 300 status
    then none
    else if is_in 500 600 status
    then some "remote_5xx"
    else if status == 429
    then some "remote_429"
    else if is_in 400 500 status
    then some "remote_4xx"
    else some "remote_non2xx"

-- `_check_status_no_retry`: the category in the message that it raises.
unfoldable pub check_status_no_retry : ℕ → Option String
check_status_no_retry status =
    if is_in 200 300 status
    then none
    else if status == 429
    then some "remote_429"
    else if is_in 400 500 status
    then some "remote_4xx"
    else if is_in 500 600 status
    then some "remote_5xx"
    else some "remote_non2xx"

-- `classify_transport_error(exc, transport="http")`, where a marker has a category of its own.
unfoldable pub classify_http : HttpFailure → String
unfolding classify_message
classify_http (marked category) = category
classify_http (network_failure message) = classify_message message "http"

abbrev pub checked : ℕ → Option String → Attempt ℕ HttpFailure
checked status none = returned status
checked status (some category) = raised (marked category)

-- `_do_post` and `_do_get`: the request, and the check of its answer.
unfoldable pub request : Attempt ℕ (List ℕ) → Attempt ℕ HttpFailure
unfolding check_status
request (raised message) = raised (network_failure message)
request (returned status) = checked status (check_status status)

-- `_execute` with retries. `_wrap_error` makes an `HttpTransportError` of what is raised.
unfoldable pub execute : Policy → (ℕ → Attempt ℕ (List ℕ)) → Option (Run ℕ HttpFailure)
unfolding execute_with_retry classify_http request
execute policy server = execute_with_retry policy classify_http (λ i. request (server i))
