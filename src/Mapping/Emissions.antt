-- ===== src/Mapping/Emissions.antt =====
-- What `_extract_by_source_path` and `_execute_field` promise of one field.
use product_feed_protocol.Prelude.{
  ℕ, suc, String, ◌≡◌, refl, arith, true, false, ◌⊎◌, inl, inr, Option, none, some, List, [], ◌∷◌,
  ◌++◌, Option-cases, Bool-cases,
}
use product_feed_protocol.Value.{
  Emission, omit, null, Value, missing, none', bool, int, float, decimal, date, datetime, str, list,
  mapping, emission, to_fields, Record,
}
use product_feed_protocol.Mapping.{
  Presence, omit_missing, emit_null_if_missing, error_if_missing, OnMissing, OpCall, FieldPlan,
  Issue, Catalog, extract_by_source_path, call_op, apply_on_missing, apply_transform, Applied,
  default_of,
}
use product_feed_protocol.Mapping.Fields.{run_transforms, apply_presence, execute_field}

-- The codes of the issues that a transform reports.
abbrev pub IsTransformCode : String → Type 0
IsTransformCode code =
    (code ≡ "EXEC_MAPPING_OP_NOT_FOUND")
    ⊎ ((code ≡ "EXEC_MAPPING_OP_FAILED")
        ⊎ ((code ≡ "EXEC_MAPPING_ON_MISSING_DEFAULT_REQUIRED")
            ⊎ (code ≡ "EXEC_MAPPING_MISSING_ERROR")))

-- A single issue, of a transform.
abbrev pub IsTransformIssue : List Issue → Type 0
IsTransformIssue issues = (i : Issue) × (issues ≡ i ∷ []) × IsTransformCode i.code

-- Whether the loop ended without a value because of the issues that it reported.
abbrev pub Silent : Value × List Issue → Type 0
Silent (current, issues) = (issues ≡ []) ⊎ ((current ≡ missing) × IsTransformIssue issues)

abbrev pub Stopped : Applied → Type 0
Stopped applied =
    (applied.issues ≡ [])
    ⊎ ((applied.should_break ≡ true)
        × (applied.current ≡ missing)
        × IsTransformIssue applied.issues)

call_op-Stopped :
    (catalog : Catalog) (current : Value) (op : OpCall) (plan : FieldPlan) (index : ℕ)
    → Stopped (call_op catalog current op plan index)
unfolding call_op
call_op-Stopped catalog current op plan index = elim (Option-cases (catalog op.op_id)) [
  | inl h ↦ rw (call_op, h) (inr (refl, refl, (_, refl, inl refl)))
  | inr (f, h) ↦ elim (Option-cases (f current (elim op.args [ none ↦ [] | some args ↦ args ]))) [
    | inl k ↦ rw (call_op, h, k) (inr (refl, refl, (_, refl, inr (inl refl))))
    | inr (v, k) ↦ rw (call_op, h, k) (inl refl)
  ]
]

apply_on_missing-Stopped :
    (on_missing : OnMissing) (op : OpCall) (plan : FieldPlan) (index : ℕ)
    → Stopped (apply_on_missing on_missing op plan index)
unfolding apply_on_missing
apply_on_missing-Stopped OnMissing.omit op plan index = inl refl
apply_on_missing-Stopped OnMissing.pass op plan index = inl refl
apply_on_missing-Stopped OnMissing.error op plan index =
    inr (refl, refl, (_, refl, inr (inr (inr refl))))
apply_on_missing-Stopped OnMissing.default op plan index =
    elim (Option-cases (default_of op.args)) [
      | inl h ↦ rw (apply_on_missing, h) (inr (refl, refl, (_, refl, inr (inr (inl refl)))))
      | inr (v, h) ↦ rw (apply_on_missing, h) (inl refl)
    ]

missing-Stopped :
    (catalog : Catalog) (op : OpCall) (plan : FieldPlan) (index : ℕ) (on_missing : Option OnMissing)
    → Stopped (elim on_missing [
      | none ↦ call_op catalog missing op plan index
      | some m ↦ apply_on_missing m op plan index
    ])
missing-Stopped catalog op plan index none = call_op-Stopped catalog missing op plan index
missing-Stopped catalog op plan index (some m) = apply_on_missing-Stopped m op plan index

pub apply_transform-Stopped :
    (catalog : Catalog) (current : Value) (op : OpCall) (plan : FieldPlan) (index : ℕ)
    → Stopped (apply_transform catalog current op plan index)
unfolding apply_transform
apply_transform-Stopped catalog missing op plan index =
    missing-Stopped catalog op plan index op.on_missing
apply_transform-Stopped catalog none' op plan index = call_op-Stopped catalog none' op plan index
apply_transform-Stopped catalog (bool b) op plan index =
    call_op-Stopped catalog (bool b) op plan index
apply_transform-Stopped catalog (int s) op plan index =
    call_op-Stopped catalog (int s) op plan index
apply_transform-Stopped catalog (float s) op plan index =
    call_op-Stopped catalog (float s) op plan index
apply_transform-Stopped catalog (decimal s) op plan index =
    call_op-Stopped catalog (decimal s) op plan index
apply_transform-Stopped catalog (date s) op plan index =
    call_op-Stopped catalog (date s) op plan index
apply_transform-Stopped catalog (datetime s) op plan index =
    call_op-Stopped catalog (datetime s) op plan index
apply_transform-Stopped catalog (str s) op plan index =
    call_op-Stopped catalog (str s) op plan index
apply_transform-Stopped catalog (list vs) op plan index =
    call_op-Stopped catalog (list vs) op plan index
apply_transform-Stopped catalog (mapping fs) op plan index =
    call_op-Stopped catalog (mapping fs) op plan index
apply_transform-Stopped catalog (emission e) op plan index =
    call_op-Stopped catalog (emission e) op plan index

-- A round that goes on has reported nothing.
went_on : (applied : Applied) → Stopped applied → applied.should_break ≡ false → applied.issues ≡ []
went_on applied (inl none_reported) h = none_reported
went_on applied (inr (b, _, _)) h = ground (arith, b, h)

ended : (applied : Applied) → Stopped applied → Silent (applied.current, applied.issues)
ended applied (inl h) = inl h
ended applied (inr (b, c, n)) = inr (c, n)

run_transforms-Silent :
    (catalog : Catalog) (plan : FieldPlan) (index : ℕ) (ops : List OpCall) (current : Value)
    → Silent (run_transforms catalog plan index ops current)
unfolding run_transforms
run_transforms-Silent catalog plan index [] current = inl refl
run_transforms-Silent catalog plan index (op ∷ ops) current =
    let applied = apply_transform catalog current op plan index in
    let stopped = apply_transform-Stopped catalog current op plan index in
    elim (Bool-cases applied.should_break) [
      | inl h ↦ rw (run_transforms, h) (ended applied stopped)
      | inr h ↦
          rw (run_transforms, h, went_on applied stopped h)
            (run_transforms-Silent catalog plan (suc index) ops applied.current)
    ]

-- The issues of the transforms: one at most, and then the field has no value.
abbrev pub ByTransform : Emission → List Issue → Type 0
ByTransform e issues = (issues ≡ []) ⊎ (IsTransformIssue issues × ((e ≡ omit) ⊎ (e ≡ null)))

-- The issues of the presence rule: one at most, and only where the rule is that a missing value is an error.
abbrev pub ByPresence : FieldPlan → Emission → List Issue → Type 0
ByPresence plan e issues =
    (issues ≡ [])
    ⊎ ((plan.presence ≡ error_if_missing)
        × (e ≡ omit)
        × ((i : Issue) × (issues ≡ i ∷ []) × (i.code ≡ "EXEC_MAPPING_PRESENCE_ERROR")))

abbrev pub IsAccounted : FieldPlan → Emission × List Issue → Type 0
IsAccounted plan (e, issues) =
    (of_transforms : List Issue) × (of_presence : List Issue) × (issues
      ≡ of_transforms ++ of_presence)
    × ByTransform e of_transforms
    × ByPresence plan e of_presence

Presence-cases :
    (p : Presence) → (p ≡ omit_missing) ⊎ ((p ≡ emit_null_if_missing) ⊎ (p ≡ error_if_missing))
Presence-cases omit_missing = inl refl
Presence-cases emit_null_if_missing = inr (inl refl)
Presence-cases error_if_missing = inr (inr refl)

presence_of_missing :
    (show_value : Value → String) (plan : FieldPlan)
    → (let emitted = apply_presence show_value missing plan in
        ((emitted.0 ≡ omit) ⊎ (emitted.0 ≡ null)) × ByPresence plan emitted.0 emitted.1)
unfolding apply_presence
presence_of_missing show_value plan = elim (Presence-cases plan.presence) [
  | inl h ↦ rw (apply_presence, h) (inl refl, inl refl)
  | inr (inl h) ↦ rw (apply_presence, h) (inr refl, inl refl)
  | inr (inr h) ↦ rw (apply_presence, h) (inl refl, inr (refl, refl, (_, refl, refl)))
]

apply_presence-ByPresence :
    (show_value : Value → String) (plan : FieldPlan) (v : Value)
    → (let emitted = apply_presence show_value v plan in ByPresence plan emitted.0 emitted.1)
unfolding apply_presence
apply_presence-ByPresence show_value plan missing = (presence_of_missing show_value plan).1
apply_presence-ByPresence show_value plan _ = inl refl

emitted_with_issues :
    (show_value : Value → String) (plan : FieldPlan) (v : Value) (issues : List Issue)
    → Silent (v, issues)
    → (let emitted = apply_presence show_value v plan in
        IsAccounted plan (emitted.0, issues ++ emitted.1))
emitted_with_issues show_value plan v issues (inl h) =
    (issues, _, refl, inl h, apply_presence-ByPresence show_value plan v)
emitted_with_issues show_value plan v issues (inr (h, issue)) =
    let (no_value, of_presence) = presence_of_missing show_value plan in
    rw h (issues, _, refl, inr (issue, no_value), of_presence)

-- The issues of a field are those of its transforms and then those of its presence rule. A transform reports one issue at most,
-- with one of its four codes, and then the field is left out or null; the presence rule reports one at most, only if the rule is
-- error_if_missing, and then the field is left out.
pub execute_field-IsAccounted :
    (catalog : Catalog) (show_value : Value → String) (plan : FieldPlan) (input : Record)
    → IsAccounted plan (execute_field catalog show_value plan input)
unfolding execute_field
execute_field-IsAccounted catalog show_value plan input =
    let source = extract_by_source_path (mapping (to_fields input)) plan.source_path in
    let transformed = run_transforms catalog plan 0 plan.transforms source in
    emitted_with_issues show_value plan transformed.0 transformed.1
      (run_transforms-Silent catalog plan 0 plan.transforms source)
