-- ===== src/ChunkBuffer/Tests.antt =====
-- A buffer of at most four bytes.
use product_feed_protocol.Prelude.{◌≡◌, refl, arith, List, [], ◌∷◌, map, inr}
use product_feed_protocol.ChunkBuffer.{
  done, body, refused, before_open, too_large, after_body, new, take_body, Call, call_open,
  call_write, call_get_body, call_size, responses, after,
}
use product_feed_protocol.ChunkBuffer.Phases.{specified, fresh, responses-specified}
use product_feed_protocol.ChunkBuffer.Contents.{joined, take_body-writes}

abbrev calls : List Call
calls =
    call_size
    ∷ call_open
    ∷ call_write (1 ∷ 2 ∷ 3 ∷ [])
    ∷ call_write (4 ∷ 5 ∷ [])
    ∷ call_write (4 ∷ [])
    ∷ call_get_body
    ∷ call_write (5 ∷ [])
    ∷ []

run_calls :
    responses calls (new 4)
    ≡ refused before_open
      ∷ done
      ∷ done
      ∷ refused too_large
      ∷ done
      ∷ body (1 ∷ 2 ∷ 3 ∷ 4 ∷ [])
      ∷ refused after_body
      ∷ []
unfolding responses
run_calls = refl

responses-specified_example : responses calls (new 4) ≡ specified 4 calls fresh
responses-specified_example = responses-specified 4 calls

take_body-writes_example :
    (take_body (after (call_open ∷ map call_write ((1 ∷ 2 ∷ []) ∷ (3 ∷ []) ∷ [])) (new 4))).0
    ≡ body (joined ((1 ∷ 2 ∷ []) ∷ (3 ∷ []) ∷ []))
take_body-writes_example =
    take_body-writes (new 4) ((1 ∷ 2 ∷ []) ∷ (3 ∷ []) ∷ []) (inr (omega arith))
