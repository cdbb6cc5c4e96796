-- ===== src/Transport/Tests.antt =====
-- An operation that times out twice, then works.
use product_feed_protocol.Prelude.{
  Option, none, List, ℕ, ◌<◌, String, ◌≡◌, refl, arith, true, false, some, [], ◌∷◌, any, ltb,
  if◌then◌else◌,
}
use product_feed_protocol.Text.{codes}
use product_feed_protocol.Transport.{
  Run, Policy, Attempt, returned, raised, ended, succeeded, execute_with_retry,
  is_retryable_category, mentions, classify_message,
}
use product_feed_protocol.Transport.Retries.{
  last_call, pauses_before, outcome_of, execute_with_retry-last_call,
}
use product_feed_protocol.Transport.Http.{HttpFailure, execute}
use product_feed_protocol.Transport.Statuses.{IsAccepted, execute-IsAccepted}
use product_feed_protocol.Transport.HttpClient.{
  Server, Config, HttpClient, Reply, Step, delivered, rejected, payload_too_large, new,
}
use product_feed_protocol.Transport.Deliveries.{deliver, posted, HasReply, deliver-joined}
use product_feed_protocol.Transport.Categories.{permanent_words, retryable-classify_message}

abbrev three_retries : Policy
three_retries = record { max_retries = 3; retry_backoff_seconds = 1 }

abbrev classify : String → String
classify e = e

abbrev operation : ℕ → Attempt ℕ String
operation i = if ltb i 2 then raised "timeout" else returned 200

third_works : execute_with_retry three_retries classify operation ≡ some (ended 2 2 (succeeded 200))
unfolding execute_with_retry
third_works = refl

execute_with_retry-last_call_example :
    execute_with_retry three_retries classify operation
    ≡ some (
        ended
          (last_call three_retries classify operation 3 0)
          (pauses_before three_retries classify operation
            (last_call three_retries classify operation 3 0))
          (outcome_of three_retries classify operation
            (operation (last_call three_retries classify operation 3 0))))
execute_with_retry-last_call_example = execute_with_retry-last_call three_retries classify operation

one_before : 1 < last_call three_retries classify operation 3 0
unfolding last_call is_retryable_category
one_before = omega arith

retryable-classify_message_example :
    is_retryable_category (classify_message (codes "tls handshake: timeout") "http") ≡ (
      if mentions (codes "tls handshake: timeout") ("timed out" ∷ "timeout" ∷ [])
      then true
      else if any (mentions (codes "tls handshake: timeout")) permanent_words
      then false
      else true)
retryable-classify_message_example =
    retryable-classify_message (codes "tls handshake: timeout") "http"

abbrev server : ℕ → Attempt ℕ (List ℕ)
server i = if ltb i 2 then returned 503 else returned 201

execute-IsAccepted_example :
    (run : Run ℕ HttpFailure) × (execute three_retries server ≡ some run) × IsAccepted run.outcome
execute-IsAccepted_example = execute-IsAccepted three_retries server

abbrev config : Config
config = record { injected = false; max_body_bytes = 5; policy = three_retries }

-- It is overloaded twice, then stores the body.
abbrev store : Server
store body i = server i

abbrev redirecting : Server
redirecting body i = returned 302

abbrev reply_of : Server → List (List ℕ) → HttpClient → Option Reply
reply_of s chunks client = elim (deliver config s chunks client) [
  | none ↦ none
  | some answer ↦ some answer.reply
]

stored : reply_of store ((1 ∷ 2 ∷ []) ∷ (3 ∷ []) ∷ []) (new config) ≡ some (delivered 201)
unfolding deliver new
stored = refl

-- An answer from 300 to 399 is taken for a delivery.
redirected : reply_of redirecting ((1 ∷ []) ∷ []) (new config) ≡ some (delivered 302)
unfolding deliver new
redirected = refl

too_large :
    reply_of store ((1 ∷ 2 ∷ 3 ∷ []) ∷ (4 ∷ 5 ∷ 6 ∷ []) ∷ []) (new config)
    ≡ some (rejected (payload_too_large 6))
unfolding deliver new
too_large = refl

deliver-joined_example :
    (s : Step) × (deliver config store ((1 ∷ 2 ∷ []) ∷ (3 ∷ []) ∷ []) (new config) ≡ some s)
    × HasReply (posted config store (1 ∷ 2 ∷ 3 ∷ [])) s
deliver-joined_example =
    deliver-joined config store ((1 ∷ 2 ∷ []) ∷ (3 ∷ []) ∷ []) (new config) (λ given. cc)
