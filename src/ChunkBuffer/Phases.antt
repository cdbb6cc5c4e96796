-- ===== src/ChunkBuffer/Phases.antt =====
-- The buffer as a machine with four phases, and its size limit.
use product_feed_protocol.Prelude.{
  ℕ, ◌+◌, ◌≡◌, refl, arith, Bool, true, false, not, ◌||◌, Option, none, some, List, [], ◌∷◌, ◌++◌,
  length, if◌then◌else◌,
}
use product_feed_protocol.ChunkBuffer.{
  Bytes, Buffer, after_close, after_body, before_open, too_large, Response, done, body, count,
  refused, new, reopen, close, is_over, write, get_body, take_body, size, Call, call_open,
  call_write, call_get_body, call_take_body, call_size, call_close, perform, responses,
}

-- Not opened yet, open for writing, read but not released, and released.
pub data Phase : Type 0 where
  fresh released : Phase
  collecting sealed : Bytes → Phase

unfoldable pub phase : Buffer → Phase
phase s = if s.closed then released else elim s.buffer [
  | none ↦ fresh
  | some bytes ↦ if s.frozen then sealed bytes else collecting bytes
]

-- The specification: a transition for each phase and call.
unfoldable pub transition : ℕ → Call → Phase → Response × Phase
transition limit call_open p = (done, collecting [])
transition limit call_close p = (done, released)
transition limit (call_write chunk) fresh = (refused before_open, fresh)
transition limit (call_write chunk) released = (refused after_close, released)
transition limit (call_write chunk) (sealed bytes) = (refused after_body, sealed bytes)
transition limit (call_write chunk) (collecting bytes) =
    if is_over limit (length bytes + length chunk)
    then (refused too_large, collecting bytes)
    else (done, collecting (bytes ++ chunk))
transition limit call fresh = (refused before_open, fresh)
transition limit call released = (refused after_close, released)
transition limit call_get_body (collecting bytes) = (body bytes, sealed bytes)
transition limit call_get_body (sealed bytes) = (body bytes, sealed bytes)
transition limit call_take_body (collecting bytes) = (body bytes, released)
transition limit call_take_body (sealed bytes) = (body bytes, released)
transition limit call_size (collecting bytes) = (count (length bytes), collecting bytes)
transition limit call_size (sealed bytes) = (count (length bytes), sealed bytes)

unfoldable pub specified : ℕ → List Call → Phase → List Response
specified limit [] p = []
specified limit (c ∷ cs) p = (transition limit c p).0 ∷ specified limit cs (transition limit c p).1

abbrev is_some : Option Bytes → Bool
is_some none = false
is_some (some _) = true

-- A buffer that is not closed is frozen only if it holds bytes.
abbrev pub IsValid : Buffer → Type 0
IsValid s = s.closed || (not s.frozen || is_some s.buffer) ≡ true

perform-IsValid : (c : Call) (s : Buffer) → IsValid s → IsValid (perform c s).1
unfolding perform write get_body take_body size close reopen
perform-IsValid call_open s v = refl
perform-IsValid (call_write chunk) s v = ground (arith, v)
perform-IsValid call_get_body s v = ground (arith, v)
perform-IsValid call_take_body s v = ground (arith, v)
perform-IsValid call_size s v = ground (arith, v)
perform-IsValid call_close s v = refl

max_bytes-perform : (c : Call) (s : Buffer) → (perform c s).1.max_bytes ≡ s.max_bytes
unfolding perform write get_body take_body size close reopen
max_bytes-perform call_open s = refl
max_bytes-perform (call_write chunk) s = ground arith
max_bytes-perform call_get_body s = ground arith
max_bytes-perform call_take_body s = ground arith
max_bytes-perform call_size s = ground arith
max_bytes-perform call_close s = refl

-- A call does what its phase allows.
perform-transition :
    (c : Call) (s : Buffer)
    → IsValid s
    → ((perform c s).0 ≡ (transition s.max_bytes c (phase s)).0)
      × (phase (perform c s).1 ≡ (transition s.max_bytes c (phase s)).1)
unfolding perform write get_body take_body size close reopen transition phase
perform-transition call_open s v = (refl, refl)
perform-transition (call_write chunk) s v = ground (arith, v)
perform-transition call_get_body s v = ground (arith, v)
perform-transition call_take_body s v = ground (arith, v)
perform-transition call_size s v = ground (arith, v)
perform-transition call_close s v = (refl, refl)

responses_from :
    (cs : List Call) (s : Buffer) → IsValid s → responses cs s ≡ specified s.max_bytes cs (phase s)
unfolding responses specified
responses_from [] s v = refl
responses_from (c ∷ cs) s v = ground (
  arith,
  perform-transition c s v,
  max_bytes-perform c s,
  responses_from cs (perform c s).1 (perform-IsValid c s v),
)

-- Whatever is called on a new buffer and in whatever order, each call answers what the machine with four phases
-- answers: it depends on the phase and on the bytes collected since the last `open`, not on the flags.
pub responses-specified :
    (limit : ℕ) (cs : List Call) → responses cs (new limit) ≡ specified limit cs fresh
unfolding phase
responses-specified limit cs = responses_from cs (new limit) refl
