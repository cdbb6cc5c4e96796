-- ===== src/Publisher/Delivery.antt =====
-- `publish` interleaves two instruments; each of them sees what it would see alone.
use mathlib.Core.List.{append_assoc, append-nil}
use product_feed_protocol.Prelude.{
  ◌≡◌, refl, sym, ap, ◌∙◌, Option, none, some, List, [], ◌∷◌, ◌++◌, Option-cases, inl, inr,
}
use product_feed_protocol.ChunkBuffer.{Bytes}
use product_feed_protocol.Transport.{Attempt, returned, raised}
use product_feed_protocol.Publisher.{
  Instrument, Payload, Published, Artifact, finalize_client, finalize_both, finish, send_chunks,
  publish,
}

-- An instrument alone, given the chunks from a state on: none when a call raises.
module _ {S R E : Type 0} (instrument : Instrument S R E) where
  unfoldable pub write_all : List Bytes → S → Option S
  write_all [] s = some s
  write_all (chunk ∷ chunks) s =
      let rest = write_all chunks (instrument.write_chunk chunk s).1 in
      elim (instrument.write_chunk chunk s).0 [ some e ↦ none | none ↦ rest ]

  abbrev pub completed : Attempt R E × S → Option (R × S)
  completed (returned r, s) = some (r, s)
  completed (raised e, s) = none

  abbrev pub finalized : Option S → Option (R × S)
  finalized none = none
  finalized (some s) = completed (instrument.finalize s)

  -- `begin`, all chunks in order, and `finalize`.
  unfoldable pub deliver : List Bytes → S → Option (R × S)
  unfolding write_all
  deliver chunks s = elim (instrument.begin s).0 [
    | some e ↦ none
    | none ↦ finalized (write_all chunks (instrument.begin s).1)
  ]

module _ {A C RA RC E : Type 0} (archiver : Instrument A RA E) (client : Instrument C RC E) where
  -- What `publish` comes to when both instruments deliver the chunks.
  abbrev pub both : List Bytes → Option (RA × A) → Option (RC × C) → Option (Artifact RA RC × A × C)
  both chunks (some (ra, a)) (some (rc, c)) = some ((chunks, ra, rc), a, c)
  both chunks _ _ = none

  abbrev pub success_of : Published A C (Artifact RA RC) E → Option (Artifact RA RC × A × C)
  success_of p = elim p.outcome [ returned t ↦ some (t, p.archiver, p.client) | raised e ↦ none ]

  client-finalized :
      (chunks : List Bytes) (ra : RA) (a : A) (y : Attempt RC E × C)
      → success_of (finalize_client archiver client chunks ra a y)
        ≡ both chunks (some (ra, a)) (completed client y)
  unfolding finalize_client
  client-finalized chunks ra a (returned r, c) = refl
  client-finalized chunks ra a (raised e, c) = refl

  both-finalized :
      (chunks : List Bytes) (c : C) (x : Attempt RA E × A)
      → success_of (finalize_both archiver client chunks c x)
        ≡ both chunks (completed archiver x) (completed client (client.finalize c))
  unfolding finalize_both
  both-finalized chunks c (returned r, a) = client-finalized chunks r a (client.finalize c)
  both-finalized chunks c (raised e, a) = refl

  -- The success that is promised: none if the payload fails, and else both deliveries.
  abbrev pub promised :
      Option E → List Bytes → Option (RA × A) → Option (RC × C) → Option (Artifact RA RC × A × C)
  promised (some e) chunks x y = none
  promised none chunks x y = both chunks x y

  promised-none :
      (f : Option E) (chunks : List Bytes) (y : Option (RC × C)) → promised f chunks none y ≡ none
  promised-none (some e) chunks y = refl
  promised-none none chunks y = refl

  promised_without :
      (f : Option E) (chunks : List Bytes) (x : Option (RA × A)) → promised f chunks x none ≡ none
  promised_without (some e) chunks x = refl
  promised_without none chunks none = refl
  promised_without none chunks (some (r, a)) = refl

  success_of-finish :
      (f : Option E) (sent : List Bytes) (a : A) (c : C)
      → success_of (finish archiver client f sent a c)
        ≡ promised f sent
            (completed archiver (archiver.finalize a))
            (completed client (client.finalize c))
  unfolding finish
  success_of-finish (some e) sent a c = refl
  success_of-finish none sent a c = both-finalized sent c (archiver.finalize a)

  success_of-send_chunks :
      (f : Option E) (chunks sent : List Bytes) (a : A) (c : C)
      → success_of (send_chunks archiver client f chunks sent a c)
        ≡ promised f
            (sent ++ chunks)
            (finalized archiver (write_all archiver chunks a))
            (finalized client (write_all client chunks c))
  unfolding send_chunks write_all
  success_of-send_chunks f [] sent a c =
      success_of-finish f sent a c
      ∙ ap
          (λ (ts : List Bytes).
            promised f ts (completed archiver (archiver.finalize a))
              (completed client (client.finalize c)))
          (sym (append-nil sent))
  success_of-send_chunks f (chunk ∷ chunks) sent a c =
      elim (Option-cases (archiver.write_chunk chunk a).0) [
        | inr (e, h) ↦
            rw (send_chunks, write_all, h) (sym (promised-none f (sent ++ chunk ∷ chunks) _))
        | inl h ↦ elim (Option-cases (client.write_chunk chunk c).0) [
          | inr (e, k) ↦
              rw (send_chunks, write_all, h, k)
                (sym (promised_without f (sent ++ chunk ∷ chunks) _))
          | inl k ↦
              rw (send_chunks, write_all, h, k)
                (success_of-send_chunks f chunks (sent ++ chunk ∷ [])
                    (archiver.write_chunk chunk a).1 (client.write_chunk chunk c).1
                  ∙ ap
                      (λ (ts : List Bytes).
                        promised f ts
                          (finalized archiver
                            (write_all archiver chunks (archiver.write_chunk chunk a).1))
                          (finalized client
                            (write_all client chunks (client.write_chunk chunk c).1)))
                      (append_assoc sent (chunk ∷ []) chunks))
        ]
      ]

  -- The call succeeds exactly when the payload ends well and the archiver and the client, each alone, deliver all its
  -- chunks in order. It returns then the chunks and both results, and leaves both as each alone would be.
  pub publish-promised :
      (payload : Payload E) (a : A) (c : C)
      → success_of (publish archiver client payload a c)
        ≡ promised payload.failure payload.chunks
            (deliver archiver payload.chunks a)
            (deliver client payload.chunks c)
  unfolding publish deliver
  publish-promised payload a c = elim (Option-cases (archiver.begin a).0) [
    | inr (e, h) ↦ rw (publish, deliver, h) (sym (promised-none payload.failure payload.chunks _))
    | inl h ↦ elim (Option-cases (client.begin c).0) [
      | inr (e, k) ↦
          rw (publish, deliver, h, k) (sym (promised_without payload.failure payload.chunks _))
      | inl k ↦
          rw (publish, deliver, h, k)
            (success_of-send_chunks payload.failure payload.chunks [] (archiver.begin a).1
              (client.begin c).1)
    ]
  ]
