-- ===== src/Producer.antt =====
-- pfp_core/artifact_production/artifact_producer.py: the loop over the items of a feed. The two
-- executors are parameters, as the prepared schema may bring its own: none where one raises.
-- `str` of an object is a parameter too.
pub mod Streams
pub mod Decisions
mod Tests
use Prim.Native.String
use Prim.Native.Char.{code}
use product_feed_protocol.Prelude.{
  String, Bool, true, false, ◌&&◌, ◌||◌, Option, none, some, List, [], ◌∷◌, ◌++◌, map, ◌==◌,
  string_eq, if◌then◌else◌,
}
use product_feed_protocol.Dict.{Dict, lookup}
use product_feed_protocol.Text.{codes, is_space, upper, upper_code, is_one_of, is_empty, same_codes}
use product_feed_protocol.Value.{Emission, value, omit, null, Value, none', Record}
use product_feed_protocol.Diagnostics.{Severity, error, warn, info, Diagnostic}
use product_feed_protocol.Validation.{ItemSeverity, Decision, pass, ReportItem}
use product_feed_protocol.Validation.Executor.{ExecutionResult}
use product_feed_protocol.Mapping.{Issue}
use product_feed_protocol.Mapping.Executor.{Output, row, object}

-- What a writer is given: `MISSING`, `None`, or a text.
pub data WriterValue : Type 0 where
  absent empty : WriterValue
  text : String → WriterValue

pub data WriterRecord : Type 0 where
  cells : List WriterValue → WriterRecord
  members : Dict String WriterValue → WriterRecord

-- `_emission_to_writer_value`
unfoldable pub emission_to_writer_value : Emission → WriterValue
emission_to_writer_value omit = absent
emission_to_writer_value null = empty
emission_to_writer_value (value s) = text s

abbrev put_member : String → WriterValue → Dict String WriterValue → Dict String WriterValue
put_member key absent d = d
put_member key v d = (key, v) ∷ d

-- The keys of the output are the keys of the record, each once.
unfoldable pub writer_members : Dict String Emission → Dict String WriterValue
unfolding emission_to_writer_value
writer_members [] = []
writer_members ((key, e) ∷ d) = put_member key (emission_to_writer_value e) (writer_members d)

-- `_mapped_output_to_writer_record`
unfoldable pub mapped_output_to_writer_record : Output → WriterRecord
unfolding emission_to_writer_value writer_members
mapped_output_to_writer_record (row es) = cells (map emission_to_writer_value es)
mapped_output_to_writer_record (object d) = members (writer_members d)

-- `_normalize_compile_severity` and `_normalize_validation_severity`, which are alike.
unfoldable pub normalize_severity : String → Severity
unfolding upper_code same_codes
normalize_severity token =
    if is_one_of ("ERROR" ∷ "ERR" ∷ "E" ∷ []) (upper (codes token))
    then error
    else if is_one_of ("WARN" ∷ "WARNING" ∷ "W" ∷ []) (upper (codes token))
    then warn
    else info

abbrev pub severity_token : ItemSeverity → String
severity_token ItemSeverity.fail = "FAIL"
severity_token ItemSeverity.warn = "WARN"
severity_token ItemSeverity.drop = "DROP"

abbrev pub decision_token : Decision → String
decision_token pass = "PASS"
decision_token Decision.warn = "WARN"
decision_token Decision.drop = "DROP"
decision_token Decision.fail = "FAIL"

strip_left : String → String
strip_left String.[] = ""
strip_left (String.◌∷◌ c s) =
    let rest = strip_left s in if is_space (code c) then rest else String.◌∷◌ c s

strip_right : String → String
strip_right String.[] = ""
strip_right (String.◌∷◌ c s) =
    let rest = strip_right s in if (rest == "") && is_space (code c) then "" else String.◌∷◌ c rest

-- `text.strip()`
unfoldable pub strip_text : String → String
unfolding strip_left strip_right is_space
strip_text s = strip_left (strip_right s)

abbrev ref_at : (Value → String) → Record → String → Option String
ref_at show_value item key = elim (lookup key item) [
  | none ↦ none
  | some none' ↦ none
  | some v ↦ (let s = strip_text (show_value v) in if s == "" then none else some s)
]

ref_from : (Value → String) → Record → List String → String
unfolding lookup strip_text
ref_from show_value item [] = "unknown"
ref_from show_value item (key ∷ keys) = elim (ref_at show_value item key) [
  | some s ↦ s
  | none ↦ ref_from show_value item keys
]

-- `_extract_item_ref`
unfoldable pub extract_item_ref : (Value → String) → Record → String
unfolding ref_from
extract_item_ref show_value item =
    ref_from show_value item ("id" ∷ "sku" ∷ "pk" ∷ "uuid" ∷ "_id" ∷ [])

abbrev pub diagnostic : Severity → String → String → String → String → String → Diagnostic
diagnostic severity code' message path item_ref action = record {
  severity = severity;
  code = code';
  message = message;
  path = some path;
  item_ref = some item_ref;
  metadata = ("action", action) ∷ [];
}

-- The loop over the items of a validation, and the loop over the issues of a mapping.
unfoldable pub validation_diagnostics : String → ExecutionResult → List Diagnostic
unfolding normalize_severity
validation_diagnostics item_ref validation =
    map
      (λ (i : ReportItem).
        diagnostic (normalize_severity (severity_token i.severity)) i.code i.message i.path item_ref
          (decision_token validation.decision))
      validation.items

unfoldable pub mapping_diagnostics : String → List Issue → List Diagnostic
mapping_diagnostics item_ref issues =
    map (λ (i : Issue). diagnostic error i.code i.message i.path item_ref "DROP") issues

abbrev pub invalid_item : Diagnostic
invalid_item =
    diagnostic error "VALIDATION.INVALID_ITEM_TYPE" "Invalid item type: expected mapping."
      "build:producer" "unknown" "DROP"

abbrev pub fail_stop : String → Diagnostic
fail_stop item_ref =
    diagnostic error "BUILD.FAIL_STOP" "Build stopped due to FAIL validation decision."
      "build:validation" item_ref "FAIL"

-- How a round leaves the loop, and how the loop ended.
pub data Flow : Type 0 where
  go_on stop raise : Flow

pub record Round : Type 0 where
  pub yielded : Option WriterRecord
  pub diagnostics : List Diagnostic
  pub flow : Flow

pub data Ending : Type 0 where
  exhausted stopped raised : Ending

pub record Production : Type 0 where
  pub records : List WriterRecord
  pub diagnostics : List Diagnostic
  pub ending : Ending

-- The strategies of `FaultIsolationPolicy`: only FAIL_FAST raises again.
pub data Isolation : Type 0 where
  skip_item fail_fast ignore : Isolation

unfoldable pub handle_error : Option Isolation → Flow
handle_error none = raise
handle_error (some fail_fast) = raise
handle_error (some _) = go_on

abbrev pub round : Option WriterRecord → List Diagnostic → Flow → Round
round r ds f = record { yielded = r; diagnostics = ds; flow = f }

-- An item is a mapping, or none when it is another object.
abbrev pub Item : Type 0
Item = Option Record

abbrev pub yields : Option WriterRecord → List WriterRecord → List WriterRecord
yields none rs = rs
yields (some r) rs = r ∷ rs

abbrev pub ended : Round → Ending → Production
ended r e = record { records = yields r.yielded []; diagnostics = r.diagnostics; ending = e }

abbrev pub followed : Round → Production → Production
followed r p = record {
  records = yields r.yielded p.records;
  diagnostics = r.diagnostics ++ p.diagnostics;
  ending = p.ending;
}

unfoldable pub continue : Round → Production → Production
continue r rest = elim r.flow [
  | go_on ↦ followed r rest
  | stop ↦ ended r stopped
  | raise ↦ ended r raised
]

module _ (show_value : Value → String) (validate : Record → Option ExecutionResult)
    (convert : Record → Option (Output × List Issue)) (isolation : Option Isolation) where
  -- From the call of the mapping executor to the `yield`, after some diagnostics.
  unfoldable pub map_item : String → Record → List Diagnostic → Round
  unfolding mapping_diagnostics mapped_output_to_writer_record handle_error
  map_item item_ref item ds = elim (convert item) [
    | none ↦ round none ds (handle_error isolation)
    | some mapped ↦
        round (some (mapped_output_to_writer_record mapped.0))
          (ds ++ mapping_diagnostics item_ref mapped.1) go_on
  ]

  -- What follows a validation.
  unfoldable pub decide : String → Record → List Diagnostic → Decision → Round
  unfolding map_item
  decide item_ref item ds Decision.drop = round none ds go_on
  decide item_ref item ds Decision.fail = round none (ds ++ fail_stop item_ref ∷ []) stop
  decide item_ref item ds _ = map_item item_ref item ds

  -- One round of `_records`.
  unfoldable pub produce_item : Item → Round
  unfolding validation_diagnostics decide handle_error extract_item_ref
  produce_item none = round none (invalid_item ∷ []) go_on
  produce_item (some item) = elim (validate item) [
    | none ↦ round none [] (handle_error isolation)
    | some validation ↦
        (let item_ref = extract_item_ref show_value item in
          decide item_ref item (validation_diagnostics item_ref validation) validation.decision)
  ]

  -- `_records`, run to its end.
  unfoldable pub produce : List Item → Production
  unfolding produce_item continue
  produce [] = record { records = []; diagnostics = []; ending = exhausted }
  produce (item ∷ items) = continue (produce_item item) (produce items)
