-- ===== src/Transport/HttpClient.antt =====
-- pfp_runtime/publishing/clients/http_client.py: `HttpDeliveryClient`. Bytes are numbers, the position of the buffer is its
-- length, and the server is a parameter: the request of a number, with a body, is answered with a status, or raises.
use product_feed_protocol.Prelude.{
  ℕ, ◌+◌, String, Bool, true, false, Option, none, some, List, [], ◌++◌, length, ltb, if◌then◌else◌,
}
use product_feed_protocol.Text.{codes}
use product_feed_protocol.Transport.{
  Policy, Attempt, returned, raised, Outcome, succeeded, reraised, exhausted, execute_with_retry,
}
use product_feed_protocol.Transport.Http.{
  HttpFailure, network_failure, is_in, classify_http, checked,
}

abbrev pub Bytes : Type 0
Bytes = List ℕ

abbrev pub Server : Type 0
Server = Bytes → ℕ → Attempt ℕ (List ℕ)

-- `injected`: whether `_injected_httpx` is given.
pub record Config : Type 0 where
  pub injected : Bool
  pub max_body_bytes : ℕ
  pub policy : Policy

-- `connected`: whether `_httpx_client` is not None.
pub record HttpClient : Type 0 where
  pub connected : Bool
  pub buffer : Option Bytes
  pub finalized : Bool

-- The causes of an `HttpClientError`.
pub data ClientError : Type 0 where
  sent_after_finalize sent_before_open finalized_again finalized_before_open : ClientError
  payload_too_large : ℕ → ClientError
  delivery_failed : String → ClientError

pub data Reply : Type 0 where
  sent : Reply
  delivered : ℕ → Reply
  rejected : ClientError → Reply

pub record Step : Type 0 where
  pub client : HttpClient
  pub reply : Reply

abbrev pub step : HttpClient → Reply → Step
step client reply = record { client = client; reply = reply }

-- `__init__`
unfoldable pub new : Config → HttpClient
new config = record { connected = config.injected; buffer = none; finalized = false }

-- `open`
unfoldable pub open_client : Config → HttpClient → HttpClient
open_client config client = record {
  connected = if config.injected then client.connected else true;
  buffer = some [];
  finalized = false;
}

-- `send_chunk`, the test of the size and the write.
unfoldable pub append_chunk : Config → Bytes → HttpClient → Bytes → Step
append_chunk config chunk client current =
    if ltb config.max_body_bytes (length current + length chunk)
    then step client (rejected (payload_too_large (length current + length chunk)))
    else step (record client { buffer = some (current ++ chunk) }) sent

-- `send_chunk`
unfoldable pub send_chunk : Config → Bytes → HttpClient → Step
unfolding append_chunk
send_chunk config chunk client =
    if client.finalized then step client (rejected sent_after_finalize) else elim client.buffer [
      | none ↦ step client (rejected sent_before_open)
      | some current ↦ append_chunk config chunk client current
    ]

-- `_post`, the test of the status: the category that it raises.
unfoldable pub refusal : ℕ → Option String
refusal status =
    if is_in 500 600 status
    then some "remote_5xx"
    else if is_in 400 500 status
    then some "remote_4xx"
    else none

unfoldable pub answered : Attempt ℕ (List ℕ) → Attempt ℕ HttpFailure
unfolding refusal
answered (raised message) = raised (network_failure message)
answered (returned status) = checked status (refusal status)

-- `_post`. Without a client, the attribute `post` of None raises.
unfoldable pub post : Server → Bool → Bytes → ℕ → Attempt ℕ HttpFailure
unfolding answered
post server connected body i =
    if connected
    then answered (server body i)
    else raised (network_failure (codes "'nonetype' object has no attribute 'post'"))

-- `finalize`, after the retries: its `except` clause, or the close of a client of its own.
unfoldable pub conclude : Config → HttpClient → Outcome ℕ HttpFailure → Step
unfolding classify_http
conclude config client (succeeded status) =
    step
      (record client {
        finalized = true;
        connected = if config.injected then client.connected else false;
      })
      (delivered status)
conclude config client (reraised e) = step client (rejected (delivery_failed (classify_http e)))
conclude config client (exhausted e) = step client (rejected (delivery_failed "retry_exhausted"))

-- `finalize`, from the POST on. None is out of fuel.
unfoldable pub post_body : Config → Server → HttpClient → Bytes → Option Step
unfolding execute_with_retry post conclude classify_http
post_body config server client body =
    elim (execute_with_retry config.policy classify_http (post server client.connected body)) [
      | none ↦ none
      | some run ↦ some (conclude config (record client { buffer = none }) run.outcome)
    ]

-- `finalize`
unfoldable pub finalize : Config → Server → HttpClient → Option Step
unfolding post_body
finalize config server client =
    if client.finalized then some (step client (rejected finalized_again)) else elim client.buffer [
      | none ↦ some (step client (rejected finalized_before_open))
      | some body ↦ post_body config server client body
    ]
