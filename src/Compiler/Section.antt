-- ===== src/Compiler/Section.antt =====
-- pfp_core/engine/mapping_compiler.py: `compile_mapping`. The operations are found in a catalog that is a parameter.
pub mod Plans
use product_feed_protocol.Prelude.{
  String, Bool, true, false, Option, none, some, List, [], ◌∷◌, map, ◌==◌, string_eq, if◌then◌else◌,
}
use product_feed_protocol.Dict.{Dict, lookup, insert}
use product_feed_protocol.Dict.Keys.{keys}
use product_feed_protocol.Sorting.{sorted}
use product_feed_protocol.Text.{◌⧺◌, str_le}
use product_feed_protocol.Value.{TypeId, Value, str, Record}
use product_feed_protocol.Mapping.{Presence, FieldPlan}
use product_feed_protocol.Mapping.Executor.{OutputKind, csv_row, json_object, Plan}
use product_feed_protocol.Compiler.{Compiled, give, refuse, ◌>>=◌, as_mapping, OpCatalog}
use product_feed_protocol.Compiler.Presence.{read_global_presence}
use product_feed_protocol.Compiler.Fields.{compile_field_mapping}
use product_feed_protocol.Compiler.Outputs.{compile_output_order, Tombstone, read_delete_tombstone}

abbrev refuse_kind : Compiled OutputKind
refuse_kind =
    refuse json_object "COMPILER_MAPPING_OUTPUT_KIND_INVALID" "mapping.output_kind"
      "mapping.output_kind must be one of: csv_row, json_object."

unfoldable pub read_output_kind : Option Value → Compiled OutputKind
read_output_kind (some (str s)) =
    if s == "csv_row"
    then give csv_row
    else if s == "json_object"
    then give json_object
    else refuse_kind
read_output_kind _ = refuse_kind

unfoldable pub read_fields : Option Record → Compiled Record
read_fields (some d) = give d
read_fields none =
    refuse [] "COMPILER_MAPPING_FIELDS_INVALID" "mapping.fields" "mapping.fields must be an object."

-- One round of the loop over the fields: `fields` after it.
unfoldable pub compile_field :
    OpCatalog
    → String
    → String
    → Option Record
    → Dict String FieldPlan
    → Compiled (Dict String FieldPlan)
unfolding compile_field_mapping insert
compile_field catalog global_default field_id none compiled =
    refuse compiled "COMPILER_MAPPING_FIELD_INVALID" ("mapping.fields." ⧺ field_id)
      ("mapping.fields." ⧺ field_id ⧺ " must be an object.")
compile_field catalog global_default field_id (some field_mapping) compiled = do
  plan ←
      compile_field_mapping catalog field_id ("mapping.fields." ⧺ field_id) global_default
        field_mapping
  give (insert field_id plan compiled)

-- The loop over the fields.
unfoldable pub compile_fields :
    OpCatalog
    → String
    → Record
    → List String
    → Dict String FieldPlan
    → Compiled (Dict String FieldPlan)
unfolding compile_field as_mapping lookup
compile_fields catalog global_default fields_obj [] compiled = give compiled
compile_fields catalog global_default fields_obj (field_id ∷ ids) compiled = do
  grown ←
      compile_field catalog global_default field_id (as_mapping (lookup field_id fields_obj))
        compiled
  compile_fields catalog global_default fields_obj ids grown

abbrev empty_plan : Plan
empty_plan = record {
  output_kind = json_object;
  output_order = none;
  fields = [];
  delete_tombstone_enabled = false;
  delete_tombstone_flag_path = "delete";
  delete_tombstone_id_field = "id";
}

-- `compile_mapping`, of a mapping section.
unfoldable pub compile_section : OpCatalog → Record → Compiled Plan
unfolding read_global_presence read_output_kind read_fields compile_fields compile_output_order
    read_delete_tombstone as_mapping sorted lookup
compile_section catalog section = do
  global_default ← read_global_presence section
  output_kind ← read_output_kind (lookup "output_kind" section)
  fields_obj ← read_fields (as_mapping (lookup "fields" section))
  fields ← compile_fields catalog global_default fields_obj (sorted str_le (keys fields_obj)) []
  output_order ← compile_output_order output_kind section (keys fields)
  tombstone ← read_delete_tombstone (lookup "delete_tombstone" section)
  give (record {
    output_kind = output_kind;
    output_order = output_order;
    fields = fields;
    delete_tombstone_enabled = tombstone.enabled;
    delete_tombstone_flag_path = tombstone.flag_path;
    delete_tombstone_id_field = tombstone.id_field;
  })

-- `compile_mapping`
unfoldable pub compile_mapping : OpCatalog → Record → Compiled Plan
unfolding compile_section as_mapping lookup
compile_mapping catalog schema_doc = elim (as_mapping (lookup "mapping" schema_doc)) [
  | none ↦
      refuse empty_plan "COMPILER_MAPPING_OUTPUT_KIND_INVALID" "mapping"
        "mapping must be an object."
  | some section ↦ compile_section catalog section
]

-- The dictionaries that `compile_mapping` fills beside `fields`, with the same keys: the final types and the presence.
abbrev pub final_types : Dict String FieldPlan → Dict String (Option TypeId)
final_types fields = map (λ (f : String × FieldPlan). (f.0, f.1.final_type)) fields

abbrev pub presences : Dict String FieldPlan → Dict String Presence
presences fields = map (λ (f : String × FieldPlan). (f.0, f.1.presence)) fields
