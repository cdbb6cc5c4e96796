-- ===== src/Compiler/Outputs.antt =====
-- pfp_core/engine/mapping/output.py and pfp_core/engine/mapping_compiler.py: the mapping section of a schema.
pub mod Orders
use product_feed_protocol.Prelude.{
  ℕ, ◌+◌, String, Bool, true, false, not, ◌&&◌, Option, none, some, List, [], ◌∷◌, ◌==◌, string_eq,
  if◌then◌else◌,
}
use product_feed_protocol.Dict.{Dict, lookup, insert}
use product_feed_protocol.Dict.Keys.{keys, contains}
use product_feed_protocol.Sorting.{sorted}
use product_feed_protocol.Text.{◌⧺◌, show, is_empty, str_le}
use product_feed_protocol.Value.{Value, none', bool, str, list, items, Record}
use product_feed_protocol.Mapping.{FieldPlan}
use product_feed_protocol.Mapping.Executor.{OutputKind, csv_row, json_object, Plan}
use product_feed_protocol.Compiler.{
  Compiled, give, refuse, refuse_if, ◌>>=◌, ◌>>◌, as_mapping, get_or, mapping_or_empty,
}
use product_feed_protocol.Compiler.Presence.{read_global_presence}
use product_feed_protocol.Compiler.Fields.{compile_field_mapping}

-- The items of a list, if all are texts.
unfoldable pub texts_of : List Value → Option (List String)
texts_of [] = some []
texts_of (str s ∷ vs) = elim (texts_of vs) [ none ↦ none | some ss ↦ some (s ∷ ss) ]
texts_of (_ ∷ vs) = none

unfoldable pub text_list_of : Option Value → Option (List String)
unfolding texts_of
text_list_of (some (list vs)) = texts_of (items vs)
text_list_of _ = none

abbrev order_path : ℕ → String
order_path index = "mapping.output_order[" ⧺ show index ⧺ "]"

-- `seen[field_id] = index`, or the diagnostic of a duplicate.
unfoldable pub note_field : String → ℕ → Dict String ℕ → Compiled (Dict String ℕ)
unfolding lookup insert show
note_field field_id index seen = elim (lookup field_id seen) [
  | some first ↦
      refuse seen "COMPILER_MAPPING_OUTPUT_ORDER_INVALID" (order_path index)
        ("Duplicate field in output_order: '" ⧺ field_id ⧺ "' (first index " ⧺ show first ⧺ ").")
  | none ↦ give (insert field_id index seen)
]

-- The loop over `output_order`, from an index on: `seen` at its end.
unfoldable pub check_order :
    List String → ℕ → Dict String ℕ → List String → Compiled (Dict String ℕ)
unfolding note_field show
check_order known index seen [] = give seen
check_order known index seen (field_id ∷ order) = do
  refuse_if (not (contains field_id known)) "COMPILER_FIELD_UNDEFINED" (order_path index)
      ("Unknown field in output_order: '" ⧺ field_id ⧺ "'.")
  noted ← note_field field_id index seen
  check_order known (index + 1) noted order

-- The loop over the known fields: those that are not in `seen`.
unfoldable pub check_all_seen : Dict String ℕ → List String → Compiled (Unit {0})
check_all_seen seen [] = give tt
check_all_seen seen (field_id ∷ fields) = do
  refuse_if (not (contains field_id (keys seen))) "COMPILER_MAPPING_OUTPUT_ORDER_INVALID"
      ("mapping.fields." ⧺ field_id)
      ("Field '" ⧺ field_id ⧺ "' is missing in mapping.output_order for csv_row.")
  check_all_seen seen fields

-- `compile_output_order`, for `csv_row`.
unfoldable pub compile_csv_order :
    Option (List String) → List String → Compiled (Option (List String))
unfolding check_order check_all_seen sorted
compile_csv_order none known =
    refuse none "COMPILER_MAPPING_OUTPUT_ORDER_INVALID" "mapping.output_order"
      "mapping.output_order must be list[str] for csv_row."
compile_csv_order (some order) known = do
  seen ← check_order known 0 [] order
  check_all_seen seen (sorted str_le known)
  give (some order)

-- `compile_output_order`
unfoldable pub compile_output_order :
    OutputKind → Record → List String → Compiled (Option (List String))
unfolding compile_csv_order text_list_of lookup
compile_output_order json_object section known = give none
compile_output_order csv_row section known =
    compile_csv_order (text_list_of (lookup "output_order" section)) known

abbrev tombstone_path : String → String
tombstone_path name = "mapping.delete_tombstone" ⧺ name

unfoldable pub read_enabled : Value → Compiled Bool
read_enabled (bool b) = give b
read_enabled _ =
    refuse false "COMPILER_MAPPING_DELETE_TOMBSTONE_INVALID" (tombstone_path ".enabled")
      "mapping.delete_tombstone.enabled must be a boolean."

-- `flag_path` and `id_field`, with the default that stands for a text that is refused.
unfoldable pub read_name : String → String → Value → Compiled String
read_name name default (str s) =
    if is_empty s
    then refuse default "COMPILER_MAPPING_DELETE_TOMBSTONE_INVALID" (tombstone_path name)
        (tombstone_path name ⧺ " must be a non-empty string.")
    else give s
read_name name default _ =
    refuse default "COMPILER_MAPPING_DELETE_TOMBSTONE_INVALID" (tombstone_path name)
      (tombstone_path name ⧺ " must be a non-empty string.")

-- Whether the projection is enabled, `flag_path` and `id_field`.
pub record Tombstone : Type 0 where
  pub enabled : Bool
  pub flag_path : String
  pub id_field : String

abbrev pub no_tombstone : Tombstone
no_tombstone = record { enabled = false; flag_path = "delete"; id_field = "id" }

unfoldable pub read_tombstone : Option Record → Compiled Tombstone
unfolding read_enabled read_name lookup
read_tombstone none =
    refuse no_tombstone "COMPILER_MAPPING_DELETE_TOMBSTONE_INVALID" (tombstone_path "")
      "mapping.delete_tombstone must be an object."
read_tombstone (some config) = do
  enabled ← read_enabled (get_or "enabled" (bool false) config)
  flag_path ← read_name ".flag_path" "delete" (get_or "flag_path" (str "delete") config)
  id_field ← read_name ".id_field" "id" (get_or "id_field" (str "id") config)
  give (record { enabled = enabled; flag_path = flag_path; id_field = id_field })

-- `read_delete_tombstone_settings`, on what `get` found.
unfoldable pub read_delete_tombstone : Option Value → Compiled Tombstone
unfolding read_tombstone as_mapping
read_delete_tombstone none = give no_tombstone
read_delete_tombstone (some none') = give no_tombstone
read_delete_tombstone (some v) = read_tombstone (as_mapping (some v))
