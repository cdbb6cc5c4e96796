-- ===== src/Writers/Csv.antt =====
-- csv_writer.py: `CSVWriter`. The `csv` module with the encoding, which make a chunk of a row of texts or raise, and `repr` are
-- parameters.
pub mod Markers
use product_feed_protocol.Prelude.{
  ℕ, String, Bool, true, false, not, ◌&&◌, ◌||◌, Option, none, some, List, [], ◌∷◌, ◌==◌, nat_eq,
  string_eq, length, if◌then◌else◌,
}
use product_feed_protocol.Text.{◌⧺◌, show}
use product_feed_protocol.Writers.{Written, Encoded, encoded, refused}

-- A value of a row; any other object is known by its `str`.
pub data Cell : Type 0 where
  missing none' : Cell
  bool : Bool → Cell
  other : String → Cell

-- A record: a tuple, or an object that is none.
pub data Row : Type 0 where
  tuple : List Cell → Row
  object : Row

pub record Config : Type 0 where
  pub include_header : Bool
  pub columns : Option (List String)
  pub missing_value_marker : String
  pub null_value_marker : String

-- The constructor's last check: none is its `ValueError`.
unfoldable pub checked : Config → Option Config
checked config = elim config.columns [
  | some _ ↦ some config
  | none ↦ if config.include_header then none else some config
]

-- What was seen so far.
pub record Seen : Type 0 where
  pub saw_missing : Bool
  pub saw_none : Bool

abbrev pub nothing_seen : Seen
nothing_seen = record { saw_missing = false; saw_none = false }

abbrev pub is_missing : Cell → Bool
is_missing missing = true
is_missing _ = false

abbrev pub is_none : Cell → Bool
is_none none' = true
is_none _ = false

unfoldable pub see : Cell → Seen → Seen
see cell s = record {
  saw_missing = is_missing cell || s.saw_missing;
  saw_none = is_none cell || s.saw_none;
}

-- `_validate_marker_distinction`: whether it raises.
unfoldable pub is_conflict : Config → Seen → Bool
is_conflict config s =
    s.saw_missing && (s.saw_none && (config.missing_value_marker == config.null_value_marker))

-- `_serialize_value`
unfoldable pub serialize_value : Config → Cell → String
serialize_value config missing = config.missing_value_marker
serialize_value config none' = config.null_value_marker
serialize_value config (bool true) = "true"
serialize_value config (bool false) = "false"
serialize_value config (other s) = s

abbrev pub then_cell : String → Option (List String × Seen) → Option (List String × Seen)
then_cell text none = none
then_cell text (some (texts, s)) = some (text ∷ texts, s)

-- `_serialize_row`: none is its `ValueError`.
unfoldable pub serialize_row : Config → List Cell → Seen → Option (List String × Seen)
unfolding see is_conflict serialize_value
serialize_row config [] s = some ([], s)
serialize_row config (cell ∷ cells) s =
    let s' = see cell s in
    let rest = serialize_row config cells s' in
    if is_conflict config s' then none else then_cell (serialize_value config cell) rest

abbrev pub size_matches : Option (List String) → List Cell → Bool
size_matches none cells = true
size_matches (some columns) cells = length cells == length columns

abbrev pub count_of : Option (List String) → ℕ
count_of none = 0
count_of (some columns) = length columns

-- `writer.writerow` and `_consume_buffer`, and what follows them.
abbrev pub then_write : {B : Type 0} → Encoded B → Written B → Written B
then_write (encoded chunk) rest = record { chunks = chunk ∷ rest.chunks; failure = rest.failure }
then_write (refused message) rest = record { chunks = []; failure = some message }

module _ {B : Type 0} (write_row : List String → Encoded B) (repr : String → String)
    (config : Config) where
  abbrev failed : String → Written B
  failed message = record { chunks = []; failure = some ("csv writer error: " ⧺ message) }

  abbrev size_mismatch : List Cell → String
  unfolding show
  size_mismatch cells =
      "row_size_mismatch expected=" ⧺ show (count_of config.columns) ⧺ " got=" ⧺ show (length cells)

  abbrev marker_conflict : String
  marker_conflict =
      "marker_conflict missing_value_marker="
      ⧺ repr config.missing_value_marker
      ⧺ " null_value_marker="
      ⧺ repr config.null_value_marker

  -- The rest of the loop, after a row was serialised.
  unfoldable pub write_serialized : Option (List String × Seen) → (Seen → Written B) → Written B
  write_serialized none rest = failed marker_conflict
  write_serialized (some (texts, s)) rest = then_write (write_row texts) (rest s)

  -- The loop over the records.
  unfoldable pub write_rows : List Row → Seen → Written B
  unfolding serialize_row write_serialized show
  write_rows [] s = record { chunks = []; failure = none }
  write_rows (object ∷ rows) s = failed "row_type expected=tuple"
  write_rows (tuple cells ∷ rows) s =
      let written = write_serialized (serialize_row config cells s) (λ s'. write_rows rows s') in
      if size_matches config.columns cells then written else failed (size_mismatch cells)

  -- `_write_iter`
  unfoldable pub write : List Row → Written B
  unfolding write_rows
  write rows =
      if config.include_header
      then elim config.columns [
        | some columns ↦ then_write (write_row columns) (write_rows rows nothing_seen)
        | none ↦ write_rows rows nothing_seen
      ]
      else write_rows rows nothing_seen
