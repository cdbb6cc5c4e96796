-- ===== src/Publisher.antt =====
-- pfp_runtime/publishing/contracts/publisher_contract.py: `Publisher.publish`. The archiver and the delivery
-- client are instruments with a state, given as parameters; a call of one returns or raises, and changes its
-- state in either case.
pub mod Delivery
mod Tests
use product_feed_protocol.Prelude.{Option, none, some, List, [], ◌∷◌, ◌++◌}
use product_feed_protocol.ChunkBuffer.{Bytes}
use product_feed_protocol.Transport.{Attempt, returned, raised}

-- `open`, `write_chunk` or `send_chunk`, and `finalize`.
pub record Instrument (S R E : Type 0) : Type 0 where
  pub begin : S → Option E × S
  pub write_chunk : Bytes → S → Option E × S
  pub finalize : S → Attempt R E × S

-- The payload: its chunks and, unless it ends well, what its iteration raises after them.
pub record Payload (E : Type 0) : Type 0 where
  pub chunks : List Bytes
  pub failure : Option E

-- How the call ended, and the states that it leaves.
pub record Published (A C T E : Type 0) : Type 0 where
  pub outcome : Attempt T E
  pub archiver : A
  pub client : C

abbrev pub failing : {A C T E : Type 0} → E → A → C → Published A C T E
failing e a c = record { outcome = raised e; archiver = a; client = c }

-- What a successful call returns: the chunks of the artifact, and the results for its metadata.
abbrev pub Artifact : Type 0 → Type 0 → Type 0
Artifact RA RC = List Bytes × RA × RC

module _ {A C RA RC E : Type 0} (archiver : Instrument A RA E) (client : Instrument C RC E) where
  -- The two calls of `finalize`.
  unfoldable pub finalize_client :
      List Bytes → RA → A → Attempt RC E × C → Published A C (Artifact RA RC) E
  finalize_client chunks archived a (raised e, c) = failing e a c
  finalize_client chunks archived a (returned delivered, c) = record {
    outcome = returned (chunks, archived, delivered);
    archiver = a;
    client = c;
  }

  unfoldable pub finalize_both :
      List Bytes → C → Attempt RA E × A → Published A C (Artifact RA RC) E
  unfolding finalize_client
  finalize_both chunks c (raised e, a) = failing e a c
  finalize_both chunks c (returned archived, a) =
      finalize_client chunks archived a (client.finalize c)

  -- The end of the payload.
  unfoldable pub finish : Option E → List Bytes → A → C → Published A C (Artifact RA RC) E
  unfolding finalize_both
  finish (some e) sent a c = failing e a c
  finish none sent a c = finalize_both sent c (archiver.finalize a)

  -- The loop over the chunks, after those that were sent.
  unfoldable pub send_chunks :
      Option E → List Bytes → List Bytes → A → C → Published A C (Artifact RA RC) E
  unfolding finish
  send_chunks failure [] sent a c = finish failure sent a c
  send_chunks failure (chunk ∷ chunks) sent a c =
      let wrote = archiver.write_chunk chunk a in
      let passed = client.write_chunk chunk c in
      let rest = send_chunks failure chunks (sent ++ chunk ∷ []) wrote.1 passed.1 in
      elim wrote.0 [
        | some e ↦ failing e wrote.1 c
        | none ↦ elim passed.0 [ some e ↦ failing e wrote.1 passed.1 | none ↦ rest ]
      ]

  -- `publish`, without its log records.
  unfoldable pub publish : Payload E → A → C → Published A C (Artifact RA RC) E
  unfolding send_chunks
  publish payload a c =
      let ready = archiver.begin a in
      let open' = client.begin c in
      elim ready.0 [
        | some e ↦ failing e ready.1 c
        | none ↦ elim open'.0 [
          | some e ↦ failing e ready.1 open'.1
          | none ↦ send_chunks payload.failure payload.chunks [] ready.1 open'.1
        ]
      ]
