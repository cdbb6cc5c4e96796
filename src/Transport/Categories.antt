-- ===== src/Transport/Categories.antt =====
-- The categories that `classify_transport_error` gives by the message.
use product_feed_protocol.Prelude.{
  ℕ, String, ◌≡◌, refl, Bool, true, false, ◌||◌, List, [], ◌∷◌, string_eq, any, if◌then◌else◌,
}
use product_feed_protocol.Transport.{is_retryable_category, mentions, classify_message}

-- The words of the errors that cannot be mended by another try.
abbrev pub permanent_words : List (List String)
permanent_words =
    ("tls" ∷ "ssl" ∷ "certificate" ∷ [])
    ∷ ("host key" ∷ [])
    ∷ ("algorithm" ∷ "cipher" ∷ [])
    ∷ ("auth" ∷ "credentials" ∷ "forbidden" ∷ [])
    ∷ ("access denied" ∷ "permission denied" ∷ [])
    ∷ ("endpoint" ∷ "region" ∷ [])
    ∷ ("remote 4xx" ∷ "status 4" ∷ [])
    ∷ []

retryable_choice :
    (timeout tls host algorithm auth access region r4 r5 network s3 : Bool)
    → is_retryable_category (
        if timeout
        then "timeout"
        else if tls
        then "tls_failure"
        else if host
        then "ssh_host_key_failure"
        else if algorithm
        then "ssh_algorithm_failure"
        else if auth
        then "auth_failure"
        else if access
        then "access_denied"
        else if region
        then "endpoint_region_mismatch"
        else if r4
        then "remote_4xx"
        else if r5
        then "remote_5xx"
        else if network
        then "network"
        else if s3
        then "transient_service_failure"
        else "network")
      ≡ (if timeout
          then true
          else if tls || (host || (algorithm || (auth || (access || (region || (r4 || false))))))
          then false
          else true)
unfolding is_retryable_category
retryable_choice true _ _ _ _ _ _ _ _ _ _ = refl
retryable_choice false true _ _ _ _ _ _ _ _ _ = refl
retryable_choice false false true _ _ _ _ _ _ _ _ = refl
retryable_choice false false false true _ _ _ _ _ _ _ = refl
retryable_choice false false false false true _ _ _ _ _ _ = refl
retryable_choice false false false false false true _ _ _ _ _ = refl
retryable_choice false false false false false false true _ _ _ _ = refl
retryable_choice false false false false false false false true _ _ _ = refl
retryable_choice false false false false false false false false true _ _ = refl
retryable_choice false false false false false false false false false true _ = refl
retryable_choice false false false false false false false false false false true = refl
retryable_choice false false false false false false false false false false false = refl

-- An error without a category of its own is retried exactly when its message speaks of a timeout, or of none of the
-- things that another try cannot mend, whatever else it says and whatever the transport.
pub retryable-classify_message :
    (message : List ℕ) (transport : String)
    → is_retryable_category (classify_message message transport) ≡ (
        if mentions message ("timed out" ∷ "timeout" ∷ [])
        then true
        else if any (mentions message) permanent_words
        then false
        else true)
unfolding classify_message
retryable-classify_message message transport = retryable_choice _ _ _ _ _ _ _ _ _ _ _
