-- ===== src/Writers/Jsonl.antt =====
-- jsonl_writer.py: `JSONLWriter`. `json.dumps` is a parameter, which raises a `ValueError` or returns a text, and so is
-- the encoding of a line, which may raise.
pub mod Fields
use product_feed_protocol.Prelude.{
  String, Bool, true, false, ◌&&◌, Option, none, some, List, [], ◌∷◌, string_eq, if◌then◌else◌,
}
use product_feed_protocol.Dict.{Dict, insert}
use product_feed_protocol.Text.{◌⧺◌}
use product_feed_protocol.Writers.{Written, Encoded, encoded, refused}

-- A value of a record: `MISSING`, `None`, or an object.
pub data JsonValue (J : Type 0) : Type 0 where
  missing none' : JsonValue J
  other : J → JsonValue J

-- The items of a mapping, whose keys are texts or not, or an object that is no mapping.
pub data JsonRecord (J : Type 0) : Type 0 where
  mapping : List (Option String × JsonValue J) → JsonRecord J
  object : JsonRecord J

-- Whether the value is left out.
unfoldable pub is_left_out : {J : Type 0} → Bool → JsonValue J → Bool
is_left_out omit_nulls missing = true
is_left_out omit_nulls none' = omit_nulls
is_left_out omit_nulls (other j) = false

-- `_filter_record`, after some output: none is its `ValueError`.
unfoldable pub filter_record :
    {J : Type 0}
    → Bool
    → List (Option String × JsonValue J)
    → Dict String (JsonValue J)
    → Option (Dict String (JsonValue J))
unfolding insert is_left_out
filter_record omit_nulls [] output = some output
filter_record omit_nulls ((none, v) ∷ items) output = none
filter_record omit_nulls ((some key, v) ∷ items) output =
    filter_record omit_nulls items
      (if is_left_out omit_nulls v then output else insert key v output)

module _ {J B : Type 0} (dumps : Dict String (JsonValue J) → Option String)
    (message_of : Dict String (JsonValue J) → String) (encode : String → Encoded B)
    (omit_nulls : Bool) (line_terminator : String) where
  abbrev failed : String → Written B
  failed message = record { chunks = []; failure = some message }

  -- From `json.dumps` to the end of the loop; the message of its error is told by `message_of`.
  unfoldable pub write_filtered : Option (Dict String (JsonValue J)) → Written B → Written B
  write_filtered none rest = failed "JSONLWriter object keys must be strings."
  write_filtered (some output) rest = elim (dumps output) [
    | none ↦ failed ("JSONL serialization failed: " ⧺ message_of output)
    | some payload ↦ elim (encode (payload ⧺ line_terminator)) [
      | refused message ↦ failed message
      | encoded chunk ↦ record { chunks = chunk ∷ rest.chunks; failure = rest.failure }
    ]
  ]

  -- `_write_iter`
  unfoldable pub write : List (JsonRecord J) → Written B
  unfolding filter_record write_filtered
  write [] = record { chunks = []; failure = none }
  write (object ∷ rs) = failed "JSONLWriter record must be a mapping object."
  write (mapping items ∷ rs) = write_filtered (filter_record omit_nulls items []) (write rs)
