-- ===== src/Mapping.antt =====
-- pfp_core/engine/mapping/runtime_values.py: a field's source value and its transforms. The catalog
-- of operations is a parameter: a name finds no operation (`KeyError`), or one whose call raises or
-- returns.
pub mod Fields
pub mod Executor
pub mod Emissions
pub mod Outputs
pub mod Rows
pub mod Operations
pub mod TaxCodes
mod Tests
use product_feed_protocol.Prelude.{
  ℕ, zero, suc, ◌+◌, ◌-◌, ◌*◌, String, ◌≡◌, refl, Bool, true, false, ◌&&◌, Option, none, some, List,
  [], ◌∷◌, ◌==◌, nat_eq, string_eq, leb, get_elem?, if◌then◌else◌,
}
use product_feed_protocol.Dict.{Dict, lookup}
use product_feed_protocol.Text.{◌⧺◌, codes, strip, split, show}
use product_feed_protocol.Value.{TypeId, Value, missing, list, mapping, items, fields, Record}

-- `EmissionSemantics` of a `FieldPresencePlan`.
pub data Presence : Type 0 where
  omit_missing emit_null_if_missing error_if_missing : Presence

pub data OnMissing : Type 0 where
  omit pass default error : OnMissing

-- `MappingOpCall`
pub record OpCall : Type 0 where
  pub op_id : String
  pub args : Option Record
  pub on_missing : Option OnMissing
  pub input_type : Option TypeId
  pub output_type : Option TypeId

-- `FieldMappingPlan`
pub record FieldPlan : Type 0 where
  pub field_id : String
  pub source_path : String
  pub transforms : List OpCall
  pub presence : Presence
  pub final_type : Option TypeId
  pub is_required_source : Bool

-- `MappingExecutionIssue`
pub record Issue : Type 0 where
  pub code : String
  pub path : String
  pub message : String

-- The value and the arguments; `none` when the call raises.
abbrev pub MappingOp : Type 0
MappingOp = Value → Record → Option Value

abbrev pub Catalog : Type 0
Catalog = String → Option MappingOp

pub data CharKind : Type 0 where
  digit : ℕ → CharKind
  underscore other : CharKind

abbrev pub kind : ℕ → CharKind
kind c =
    if leb b'0' c && leb c b'9' then digit (c - b'0') else if c == b'_' then underscore else other

-- Digits with single underscores between them, for `int`; the Boolean says that a digit came last.
unfoldable pub read_digits : Bool → ℕ → List ℕ → Option ℕ
read_digits after total [] = if after then some total else none
read_digits after total (c ∷ cs) = elim (kind c) [
  | digit n ↦ read_digits true (total * 10 + n) cs
  | underscore ↦ elim after [ true ↦ read_digits false total cs | false ↦ none ]
  | other ↦ none
]

-- A negative index is refused, unless it is `-0`.
abbrev pub natural_of_negated : Option ℕ → Option ℕ
natural_of_negated (some zero) = some zero
natural_of_negated _ = none

abbrev pub read_signed : List ℕ → Option ℕ
read_signed [] = none
read_signed (c ∷ cs) =
    if c == b'-'
    then natural_of_negated (read_digits false 0 cs)
    else if c == b'+'
    then read_digits false 0 cs
    else read_digits false 0 (c ∷ cs)

-- `int(segment)`, with none where it raises or is below 0. Digits are ASCII digits.
unfoldable pub read_index : String → Option ℕ
unfolding strip read_digits
read_index segment = read_signed (strip (codes segment))

-- One round of the loop of `_extract_by_source_path`: none returns MISSING.
unfoldable pub extract_segment : String → Value → Option Value
unfolding lookup read_index
extract_segment segment (mapping fs) = lookup segment (fields fs)
extract_segment segment (list vs) = elim (read_index segment) [
  | none ↦ none
  | some i ↦ get_elem? (items vs) i
]
extract_segment segment _ = none

unfoldable pub extract_segments : List String → Value → Value
unfolding extract_segment
extract_segments [] current = current
extract_segments (segment ∷ segments) current = elim (extract_segment segment current) [
  | none ↦ missing
  | some next ↦ extract_segments segments next
]

-- `_extract_by_source_path`
unfoldable pub extract_by_source_path : Value → String → Value
unfolding extract_segments split
extract_by_source_path input source_path =
    if source_path == "" then missing else extract_segments (split b'.' source_path) input

-- What `_apply_transform` returns, and the issues that it appends.
pub record Applied : Type 0 where
  pub current : Value
  pub should_break : Bool
  pub issues : List Issue

abbrev pub broken : List Issue → Applied
broken issues = record { current = missing; should_break = true; issues = issues }

abbrev pub passed : Value → Applied
passed v = record { current = v; should_break = false; issues = [] }

abbrev pub issue : String → String → String → Issue
issue code path message = record { code = code; path = path; message = message }

unfoldable pub path_prefix : FieldPlan → ℕ → String
unfolding show
path_prefix plan index = "mapping.fields." ⧺ plan.field_id ⧺ ".transforms[" ⧺ show index ⧺ "]"

-- The call of the operation.
unfoldable pub call_op : Catalog → Value → OpCall → FieldPlan → ℕ → Applied
unfolding path_prefix
call_op catalog current op plan index = elim (catalog op.op_id) [
  | none ↦ broken (
      issue "EXEC_MAPPING_OP_NOT_FOUND" (path_prefix plan index ⧺ ".op")
        ("Mapping op '" ⧺ op.op_id ⧺ "' was not found in catalog.")
      ∷ [])
  | some f ↦ elim (f current (elim op.args [ none ↦ [] | some args ↦ args ])) [
    | some v ↦ passed v
    | none ↦ broken (
        issue "EXEC_MAPPING_OP_FAILED" (path_prefix plan index)
          ("Mapping op '" ⧺ op.op_id ⧺ "' failed during execution.")
        ∷ [])
  ]
]

unfoldable pub default_of : Option Record → Option Value
unfolding lookup
default_of none = none
default_of (some args) = lookup "default" args

unfoldable pub apply_on_missing : OnMissing → OpCall → FieldPlan → ℕ → Applied
unfolding path_prefix default_of
apply_on_missing omit op plan index = broken []
apply_on_missing pass op plan index = passed missing
apply_on_missing default op plan index = elim (default_of op.args) [
  | some v ↦ passed v
  | none ↦ broken (
      issue "EXEC_MAPPING_ON_MISSING_DEFAULT_REQUIRED" (path_prefix plan index ⧺ ".args.default")
        "on_missing=default requires args.default value."
      ∷ [])
]
apply_on_missing error op plan index = broken (
    issue "EXEC_MAPPING_MISSING_ERROR" (path_prefix plan index)
      "on_missing=error triggered on missing input."
    ∷ [])

-- `_apply_transform`
unfoldable pub apply_transform : Catalog → Value → OpCall → FieldPlan → ℕ → Applied
unfolding apply_on_missing call_op
apply_transform catalog missing op plan index = elim op.on_missing [
  | none ↦ call_op catalog missing op plan index
  | some on_missing ↦ apply_on_missing on_missing op plan index
]
apply_transform catalog current op plan index = call_op catalog current op plan index

index_with_underscore : read_index " +1_0 " ≡ some 10
unfolding read_index
index_with_underscore = refl

index_negative : read_index "-1" ≡ none
unfolding read_index
index_negative = refl
