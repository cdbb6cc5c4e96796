-- ===== src/ChunkBuffer.antt =====
-- pfp_runtime/publishing/support/chunk_buffer.py. Bytes are numbers; the position of the `BytesIO` is
-- its length, since it is only appended to.
pub mod Phases
pub mod Contents
mod Tests
use product_feed_protocol.Prelude.{
  ℕ, ◌+◌, Bool, true, false, not, ◌&&◌, Option, none, some, List, [], ◌∷◌, ◌++◌, length, leb,
  if◌then◌else◌,
}

abbrev pub Bytes : Type 0
Bytes = List ℕ

-- `ChunkBuffer`: `closed` and `frozen` are its `_closed` and `_frozen`.
pub record Buffer : Type 0 where
  pub max_bytes : ℕ
  pub buffer : Option Bytes
  pub closed : Bool
  pub frozen : Bool

-- The four causes of a `ChunkBufferError`.
pub data Refusal : Type 0 where
  after_close after_body before_open too_large : Refusal

pub data Response : Type 0 where
  done : Response
  body : Bytes → Response
  count : ℕ → Response
  refused : Refusal → Response

abbrev pub new : ℕ → Buffer
new max_bytes = record { max_bytes = max_bytes; buffer = none; closed = false; frozen = false }

-- `open`
unfoldable pub reopen : Buffer → Buffer
reopen s = record s { buffer = some []; closed = false; frozen = false }

-- `close`
unfoldable pub close : Buffer → Buffer
close s = record s { buffer = none; closed = true }

-- Whether a size is over the limit; 0 is no limit.
abbrev pub is_over : ℕ → ℕ → Bool
is_over max_bytes size = not (leb max_bytes 0) && not (leb size max_bytes)

unfoldable pub write : Bytes → Buffer → Response × Buffer
write chunk s =
    if s.closed
    then (refused after_close, s)
    else if s.frozen
    then (refused after_body, s)
    else elim s.buffer [
      | none ↦ (refused before_open, s)
      | some bytes ↦
          if is_over s.max_bytes (length bytes + length chunk)
          then (refused too_large, s)
          else (done, record s { buffer = some (bytes ++ chunk) })
    ]

unfoldable pub get_body : Buffer → Response × Buffer
get_body s = if s.closed then (refused after_close, s) else elim s.buffer [
  | none ↦ (refused before_open, s)
  | some bytes ↦ (body bytes, record s { frozen = true })
]

unfoldable pub take_body : Buffer → Response × Buffer
unfolding close
take_body s =
    if s.closed
    then (refused after_close, s)
    else elim s.buffer [ none ↦ (refused before_open, s) | some bytes ↦ (body bytes, close s) ]

unfoldable pub size : Buffer → Response × Buffer
size s =
    if s.closed
    then (refused after_close, s)
    else elim s.buffer [ none ↦ (refused before_open, s) | some bytes ↦ (count (length bytes), s) ]

pub data Call : Type 0 where
  call_open : Call
  call_write : Bytes → Call
  call_get_body call_take_body call_size call_close : Call

unfoldable pub perform : Call → Buffer → Response × Buffer
unfolding reopen write get_body take_body size close
perform call_open s = (done, reopen s)
perform (call_write chunk) s = write chunk s
perform call_get_body s = get_body s
perform call_take_body s = take_body s
perform call_size s = size s
perform call_close s = (done, close s)

-- The responses to a sequence of calls.
unfoldable pub responses : List Call → Buffer → List Response
unfolding perform
responses [] s = []
responses (c ∷ cs) s = (perform c s).0 ∷ responses cs (perform c s).1

unfoldable pub after : List Call → Buffer → Buffer
unfolding perform
after [] s = s
after (c ∷ cs) s = after cs (perform c s).1
