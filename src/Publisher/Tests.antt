-- ===== src/Publisher/Tests.antt =====
-- A publication to two instruments that join their chunks.
use product_feed_protocol.Prelude.{ℕ, ◌≡◌, refl, none, some, [], ◌∷◌, ◌++◌, length}
use product_feed_protocol.ChunkBuffer.{Bytes}
use product_feed_protocol.Transport.{returned}
use product_feed_protocol.Publisher.{Instrument, Payload, publish}
use product_feed_protocol.Publisher.Delivery.{deliver, promised, success_of, publish-promised}

abbrev store : Instrument Bytes ℕ ℕ
store = record {
  begin = λ s. (none, []);
  write_chunk = λ chunk s. (none, s ++ chunk);
  finalize = λ s. (returned (length s), s);
}

abbrev payload : Payload ℕ
payload = record { chunks = (1 ∷ 2 ∷ []) ∷ (3 ∷ []) ∷ []; failure = none }

stored :
    success_of store store (publish store store payload [] [])
    ≡ some ((payload.chunks, 3, 3), 1 ∷ 2 ∷ 3 ∷ [], 1 ∷ 2 ∷ 3 ∷ [])
unfolding publish
stored = refl

publish-promised_example :
    success_of store store (publish store store payload [] [])
    ≡ promised store store payload.failure payload.chunks
        (deliver store payload.chunks [])
        (deliver store payload.chunks [])
publish-promised_example = publish-promised store store payload [] []
