-- ===== src/Mapping/Fields.antt =====
-- `_execute_field` of pfp_core/engine/mapping_executor.py and pfp_core/engine/mapping/
-- runtime_presence.py. `str(value)` of an object is a parameter.
use product_feed_protocol.Prelude.{ℕ, suc, String, true, false, List, [], ◌∷◌, ◌++◌}
use product_feed_protocol.Text.{◌⧺◌}
use product_feed_protocol.Value.{
  Emission, value, omit, null, Value, missing, none', emission, mapping, to_fields, Record,
}
use product_feed_protocol.Mapping.{
  omit_missing, emit_null_if_missing, error_if_missing, OpCall, FieldPlan, Issue, Catalog, issue,
  extract_by_source_path, apply_transform,
}

-- The loop over the transforms, from an index.
unfoldable pub run_transforms : Catalog → FieldPlan → ℕ → List OpCall → Value → Value × List Issue
unfolding apply_transform
run_transforms catalog plan index [] current = (current, [])
run_transforms catalog plan index (op ∷ ops) current =
    let applied = apply_transform catalog current op plan index in
    elim applied.should_break [
      | true ↦ (applied.current, applied.issues)
      | false ↦
          let rest = run_transforms catalog plan (suc index) ops applied.current in
          (rest.0, applied.issues ++ rest.1)
    ]

-- `_apply_presence`, with the issues that it appends.
unfoldable pub apply_presence : (Value → String) → Value → FieldPlan → Emission × List Issue
apply_presence str (emission e) plan = (e, [])
apply_presence str missing plan = elim plan.presence [
  | omit_missing ↦ (omit, [])
  | emit_null_if_missing ↦ (null, [])
  | error_if_missing ↦ (
    omit,
    issue "EXEC_MAPPING_PRESENCE_ERROR" ("mapping.fields." ⧺ plan.field_id ⧺ ".presence")
          "error_if_missing triggered for missing field value."
        ∷ [],
  )
]
apply_presence str none' plan = (null, [])
apply_presence str current plan = (value (str current), [])

-- `_execute_field`
unfoldable pub execute_field :
    Catalog → (Value → String) → FieldPlan → Record → Emission × List Issue
unfolding extract_by_source_path run_transforms apply_presence
execute_field catalog str plan input =
    let source = extract_by_source_path (mapping (to_fields input)) plan.source_path in
    let transformed = run_transforms catalog plan 0 plan.transforms source in
    let emitted = apply_presence str transformed.0 plan in (emitted.0, transformed.1 ++ emitted.1)
