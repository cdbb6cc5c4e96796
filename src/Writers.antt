-- ===== src/Writers.antt =====
-- pfp_core/writers/impl: the writers, run to the end of the records that they are given.
pub mod Csv
pub mod Jsonl
mod Tests
use product_feed_protocol.Prelude.{String, Option, List}

-- The chunks that a writer yields and, unless it ends well, the message of its error.
pub record Written (B : Type 0) : Type 0 where
  pub chunks : List B
  pub failure : Option String

-- What a row or a line becomes: a chunk, or an exception of `csv` or of the encoding, with its message.
pub data Encoded (B : Type 0) : Type 0 where
  encoded : B → Encoded B
  refused : String → Encoded B
