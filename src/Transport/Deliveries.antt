-- ===== src/Transport/Deliveries.antt =====
-- A delivery by the HTTP client: it is opened, the chunks are sent, and it is finalized.
use mathlib.Core.List.{append-nil, append_assoc}
use product_feed_protocol.Prelude.{
  ℕ, ◌+◌, ◌≤◌, ◌<◌, ◌≡◌, ◌⊎◌, inl, inr, refl, ap, ◌∙◌, arith, Bool, true, false, Option, none, some,
  List, [], ◌∷◌, ◌++◌, length, length-append, Bool-cases, leb, String, if◌then◌else◌,
}
use product_feed_protocol.ChunkBuffer.Contents.{joined}
use product_feed_protocol.Transport.{
  Attempt, returned, raised, Outcome, succeeded, reraised, exhausted,
}
use product_feed_protocol.Transport.Http.{
  HttpFailure, marked, network_failure, classify_http, is_in, checked,
}
use product_feed_protocol.Transport.Retries.{last_call, outcome_of, execute_with_retry-last_call}
use product_feed_protocol.Transport.HttpClient.{
  Bytes, Server, Config, HttpClient, payload_too_large, delivery_failed, sent, delivered, refusal,
  answered, rejected, Step, step, open_client, append_chunk, send_chunk, post, conclude, post_body,
  finalize,
}

-- An open client that holds the bytes sent so far.
abbrev holding : Bytes → HttpClient
holding current = record { connected = true; buffer = some current; finalized = false }

le_or_lt : (a b : ℕ) → (a ≤ b) ⊎ (b < a)
le_or_lt a b = omega arith

-- What follows a call: the rest, unless it raised.
unfoldable resume : (HttpClient → Option Step) → Step → Option Step
resume again answer = elim answer.reply [
  | sent ↦ again answer.client
  | delivered status ↦ some answer
  | rejected e ↦ some answer
]

-- The end of a delivery: a status outside 400 to 599 is delivered, and the error of any other end is raised by a client that
-- can be opened again.
abbrev pub HasReply : Outcome ℕ HttpFailure → Step → Type 0
HasReply (succeeded status) s =
    (s.reply ≡ delivered status) × (s.client.finalized ≡ true) × (is_in 400 600 status ≡ false)
HasReply (reraised e) s =
    (s.reply ≡ rejected (delivery_failed (classify_http e))) × (s.client.finalized ≡ false)
HasReply (exhausted e) s =
    (s.reply ≡ rejected (delivery_failed "retry_exhausted")) × (s.client.finalized ≡ false)

module _ (config : Config) (server : Server) where
  -- The calls of `send_chunk`, and of `finalize` unless one raises.
  unfoldable pub send_all : List Bytes → HttpClient → Option Step
  unfolding resume send_chunk finalize
  send_all [] client = finalize config server client
  send_all (chunk ∷ chunks) client = resume (send_all chunks) (send_chunk config chunk client)

  unfoldable pub deliver : List Bytes → HttpClient → Option Step
  unfolding send_all open_client
  deliver chunks client = send_all chunks (open_client config client)

  -- The end of the one POST of a body, with its retries.
  unfoldable pub posted : Bytes → Outcome ℕ HttpFailure
  posted body =
      let operation = post server true body in
      outcome_of config.policy classify_http operation
        (operation (last_call config.policy classify_http operation config.policy.max_retries 0))

  finalize-holding :
      (body : Bytes)
      → finalize config server (holding body)
        ≡ some (conclude config (record (holding body) { buffer = none }) (posted body))
  unfolding finalize post_body posted
  finalize-holding body =
      rw
        (
          finalize,
          post_body,
          execute_with_retry-last_call config.policy classify_http (post server true body),
        )
        refl

  send_chunk-fits :
      (chunk current : Bytes)
      → length current + length chunk ≤ config.max_body_bytes
      → send_chunk config chunk (holding current) ≡ step (holding (current ++ chunk)) sent
  unfolding send_chunk append_chunk
  send_chunk-fits chunk current h = ground (arith, h)

  send_chunk-exceeds :
      (chunk current : Bytes)
      → config.max_body_bytes < length current + length chunk
      → send_chunk config chunk (holding current)
        ≡ step (holding current) (rejected (payload_too_large (length current + length chunk)))
  unfolding send_chunk append_chunk
  send_chunk-exceeds chunk current h = ground (arith, h)

  send_all-fits :
      (chunks : List Bytes) (current : Bytes)
      → length (current ++ joined chunks) ≤ config.max_body_bytes
      → send_all chunks (holding current)
        ≡ some (
            conclude config
              (record (holding current) { buffer = none })
              (posted (current ++ joined chunks)))
  unfolding send_all resume
  send_all-fits [] current h = rw (append-nil current) (finalize-holding current)
  send_all-fits (chunk ∷ chunks) current h =
      let assoc : (current ++ chunk) ++ joined chunks ≡ current ++ (chunk ++ joined chunks) =
        append_assoc current chunk (joined chunks) in
      let fits : length current + length chunk ≤ config.max_body_bytes = omega (
        arith,
        h,
        length-append current (chunk ++ joined chunks),
        length-append chunk (joined chunks),
      ) in
      ap (resume (send_all chunks)) (send_chunk-fits chunk current fits)
      ∙ rw (← assoc) (send_all-fits chunks (current ++ chunk) (rw assoc h))

  send_all-exceeds :
      (chunks : List Bytes) (current : Bytes)
      → length current ≤ config.max_body_bytes
      → config.max_body_bytes < length (current ++ joined chunks)
      → (s : Step) × (size : ℕ) × (send_all chunks (holding current) ≡ some s)
        × (s.reply ≡ rejected (payload_too_large size))
        × (config.max_body_bytes < size)
  unfolding send_all resume
  send_all-exceeds [] current k h = absurd (omega (arith, k, h, ap length (append-nil current)))
  send_all-exceeds (chunk ∷ chunks) current k h =
      elim (le_or_lt (length current + length chunk) config.max_body_bytes) [
        | inl fits ↦
            let (s, size, e, r, big) =
              send_all-exceeds chunks (current ++ chunk)
                (omega (arith, fits, length-append current chunk))
                (rw (append_assoc current chunk (joined chunks)) h) in
            (
              s,
              size,
              ap (resume (send_all chunks)) (send_chunk-fits chunk current fits) ∙ e,
              r,
              big,
            )
        | inr over ↦ (
          _,
          _,
          ap (resume (send_all chunks)) (send_chunk-exceeds chunk current over),
          refl,
          over,
        )
      ]

  is_in-refusal : (status : ℕ) → refusal status ≡ none → is_in 400 600 status ≡ false
  unfolding refusal
  is_in-refusal status h = ground (arith, h)

  open_client-holding :
      (client : HttpClient)
      → (config.injected ≡ true → client.connected ≡ true)
      → open_client config client ≡ holding []
  unfolding open_client
  open_client-holding client h = elim (Bool-cases config.injected) [
    | inl given ↦ rw (open_client, given, h given) refl
    | inr missing ↦ rw (open_client, missing) refl
  ]

  -- The client that waits for the answer of the POST.
  abbrev waiting : HttpClient
  waiting = record { connected = true; buffer = none; finalized = false }

  HasReply-raise :
      (b : Bool) (e : HttpFailure)
      → let outcome : Outcome ℕ HttpFailure = if b then exhausted e else reraised e in
        HasReply outcome (conclude config waiting outcome)
  unfolding conclude
  HasReply-raise true e = (refl, refl)
  HasReply-raise false e = (refl, refl)

  HasReply-checked :
      (operation : ℕ → Attempt ℕ HttpFailure) (status : ℕ) (category : Option String)
      → (category ≡ none → is_in 400 600 status ≡ false)
      → let outcome = outcome_of config.policy classify_http operation (checked status category) in
        HasReply outcome (conclude config waiting outcome)
  unfolding conclude
  HasReply-checked operation status none h = (refl, refl, h refl)
  HasReply-checked operation status (some category) h = HasReply-raise _ (marked category)

  HasReply-answered :
      (operation : ℕ → Attempt ℕ HttpFailure) (answer : Attempt ℕ (List ℕ))
      → let outcome = outcome_of config.policy classify_http operation (answered answer) in
        HasReply outcome (conclude config waiting outcome)
  unfolding answered
  HasReply-answered operation (raised message) = HasReply-raise _ (network_failure message)
  HasReply-answered operation (returned status) =
      HasReply-checked operation status (refusal status) (is_in-refusal status)

  HasReply-posted : (body : Bytes) → HasReply (posted body) (conclude config waiting (posted body))
  unfolding posted post
  HasReply-posted body =
      let operation = post server true body in
      HasReply-answered operation
        (server body (last_call config.policy classify_http operation config.policy.max_retries 0))

  -- Whatever a client did before, if it has a connection when one was given to it, then a delivery ends. If the chunks fit in the
  -- limit then the server is asked with all their bytes in order and nothing else, and the delivery ends as the last of
  -- the bounded tries does, with no status from 400 to 599. Otherwise it ends with the error of the size, which is over the limit.
  pub deliver-joined :
      (chunks : List Bytes) (client : HttpClient)
      → (config.injected ≡ true → client.connected ≡ true)
      → (s : Step) × (deliver chunks client ≡ some s)
        × (if leb (length (joined chunks)) config.max_body_bytes
            then HasReply (posted (joined chunks)) s
            else (size : ℕ) × (s.reply ≡ rejected (payload_too_large size))
              × (config.max_body_bytes < size))
  unfolding deliver
  deliver-joined chunks client h =
      elim (Bool-cases (leb (length (joined chunks)) config.max_body_bytes)) [
        | inl fits ↦ (
          _,
          ap (send_all chunks) (open_client-holding client h)
              ∙ send_all-fits chunks [] (ground (arith, fits)),
          rw fits (HasReply-posted (joined chunks)),
        )
        | inr over ↦
            let (s, size, e, r, big) =
              send_all-exceeds chunks [] (omega arith) (ground (arith, over)) in
            (s, ap (send_all chunks) (open_client-holding client h) ∙ e, rw over (size, r, big))
      ]
