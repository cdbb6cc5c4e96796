-- ===== src/Mapping/Executor.antt =====
-- `MappingExecutor.run_one` and pfp_core/engine/mapping/runtime_tombstone.py.
use product_feed_protocol.Prelude.{
  String, Bool, false, not, ◌&&◌, Option, none, some, List, [], ◌∷◌, ◌++◌, ◌==◌, string_eq,
  if◌then◌else◌,
}
use product_feed_protocol.Dict.{Dict, lookup, insert}
use product_feed_protocol.Dict.Keys.{keys}
use product_feed_protocol.Text.{◌⧺◌, codes, strip, lower, lower_code, is_one_of, same_codes, str_le}
use product_feed_protocol.Text.Order.{texts_le}
use product_feed_protocol.Sorting.{sorted}
use product_feed_protocol.Value.{Emission, omit, Value, bool, str, mapping, to_fields, Record}
use product_feed_protocol.Mapping.{FieldPlan, Issue, Catalog, issue, extract_by_source_path}
use product_feed_protocol.Mapping.Fields.{execute_field}

pub data OutputKind : Type 0 where
  csv_row json_object : OutputKind

-- `MappingPlan`
pub record Plan : Type 0 where
  pub output_kind : OutputKind
  pub output_order : Option (List String)
  pub fields : Dict String FieldPlan
  pub delete_tombstone_enabled : Bool
  pub delete_tombstone_flag_path : String
  pub delete_tombstone_id_field : String

-- `_is_delete_intent`
unfoldable pub is_delete_intent : Value → Bool
unfolding strip lower_code same_codes
is_delete_intent (bool b) = b
is_delete_intent (str s) = is_one_of ("true" ∷ "1" ∷ "yes" ∷ "y" ∷ []) (lower (strip (codes s)))
is_delete_intent _ = false

abbrev pub delete_flag : Plan → Record → Value
delete_flag plan input =
    extract_by_source_path (mapping (to_fields input)) plan.delete_tombstone_flag_path

-- `_should_project_delete_tombstone`
unfoldable pub should_project_delete_tombstone : Plan → Record → Bool
unfolding is_delete_intent
should_project_delete_tombstone plan input =
    if plan.delete_tombstone_enabled then is_delete_intent (delete_flag plan input) else false

-- `detect_delete_unsupported`, as the issues that `run_one` appends for it.
unfoldable pub detect_delete_unsupported : Plan → Record → String → List Issue
unfolding is_delete_intent
detect_delete_unsupported plan input profile =
    if not (is_delete_intent (delete_flag plan input))
    then []
    else if plan.delete_tombstone_enabled
    then []
    else issue "CONTRACT.DELETE_UNSUPPORTED" "build:contract"
        ("Delete tombstone is unsupported for artifact_profile " ⧺ profile ⧺ ".")
      ∷ []

abbrev pub sorted_fields : Plan → List String
sorted_fields plan = sorted str_le (keys plan.fields)

-- `_ordered_csv_fields`
unfoldable pub ordered_csv_fields : Plan → List String × List Issue
unfolding sorted
ordered_csv_fields plan = elim plan.output_order [
  | some order ↦ (order, [])
  | none ↦ (
    sorted_fields plan,
    issue "EXEC_MAPPING_OUTPUT_ORDER_MISSING" "mapping.output_order"
          "mapping.output_order is required for csv_row output."
        ∷ [],
  )
]

abbrev pub issue_key : Issue → List String
issue_key i = i.code ∷ i.path ∷ i.message ∷ []

abbrev pub issue_le : Issue → Issue → Bool
issue_le a b = texts_le (issue_key a) (issue_key b)

-- `_ordered_issues`
unfoldable pub ordered_issues : List Issue → List Issue
unfolding sorted texts_le
ordered_issues = sorted issue_le

-- `MappingExecutionResult.output`
pub data Output : Type 0 where
  row : List Emission → Output
  object : Dict String Emission → Output

-- `object_output[field_id] = emission`, unless it is omitted.
unfoldable pub put_emission : String → Emission → Dict String Emission → Dict String Emission
unfolding insert
put_emission field_id omit d = d
put_emission field_id e d = insert field_id e d

module _ (catalog : Catalog) (str : Value → String) (plan : Plan) (input : Record) where
  -- One round of the loop over the CSV fields.
  unfoldable pub csv_field : Bool → String → Emission × List Issue
  unfolding lookup execute_field
  csv_field tombstone field_id = elim (lookup field_id plan.fields) [
    | none ↦ (
      omit,
      issue "EXEC_MAPPING_FIELD_NOT_FOUND" ("mapping.fields." ⧺ field_id)
            ("Field '" ⧺ field_id ⧺ "' is missing in mapping plan fields.")
          ∷ [],
    )
    | some field_plan ↦
        if tombstone && not (field_id == plan.delete_tombstone_id_field)
        then (omit, [])
        else execute_field catalog str field_plan input
  ]

  unfoldable pub csv_fields : Bool → List String → List Emission × List Issue
  unfolding csv_field
  csv_fields tombstone [] = ([], [])
  csv_fields tombstone (field_id ∷ field_ids) =
      let emitted = csv_field tombstone field_id in
      let rest = csv_fields tombstone field_ids in (emitted.0 ∷ rest.0, emitted.1 ++ rest.1)

  -- One round of the loop over the JSON fields. A field that is iterated over is a key.
  unfoldable pub json_field : String → Dict String Emission → Dict String Emission × List Issue
  unfolding lookup execute_field put_emission
  json_field field_id d = elim (lookup field_id plan.fields) [
    | none ↦ (d, [])
    | some field_plan ↦
        let emitted = execute_field catalog str field_plan input in
        (put_emission field_id emitted.0 d, emitted.1)
  ]

  unfoldable pub json_fields :
      List String → Dict String Emission → Dict String Emission × List Issue
  unfolding json_field
  json_fields [] d = (d, [])
  json_fields (field_id ∷ field_ids) d =
      let emitted = json_field field_id d in
      let rest = json_fields field_ids emitted.0 in (rest.0, emitted.1 ++ rest.1)

  -- The two branches of `run_one`, with the issues in the order in which it appends them.
  unfoldable pub run_kind : OutputKind → String → Output × List Issue
  unfolding ordered_csv_fields detect_delete_unsupported should_project_delete_tombstone csv_fields
      json_fields sorted
  run_kind csv_row profile =
      let ordered = ordered_csv_fields plan in
      let emitted = csv_fields (should_project_delete_tombstone plan input) ordered.0 in
      (row emitted.0, ordered.1 ++ detect_delete_unsupported plan input profile ++ emitted.1)
  run_kind json_object profile =
      let emitted = json_fields (sorted_fields plan) [] in (object emitted.0, emitted.1)

  unfoldable pub run_fields : String → Output × List Issue
  unfolding run_kind
  run_fields profile = run_kind plan.output_kind profile

  -- `run_one`
  unfoldable pub run_one : String → Output × List Issue
  unfolding run_fields ordered_issues
  run_one profile = let result = run_fields profile in (result.0, ordered_issues result.1)
