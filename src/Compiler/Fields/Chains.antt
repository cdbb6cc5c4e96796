-- ===== src/Compiler/Fields/Chains.antt =====
-- The transforms of a compiled field: how the types of its calls follow one another, and where the calls come from.
use product_feed_protocol.Prelude.{
  ℕ, ◌+◌, String, ◌≡◌, refl, arith, eq_iff, false, Option, none, some, List, [], ◌∷◌, string_eq,
  inl, inr, Bool-cases, Option-cases,
}
use product_feed_protocol.Dict.{lookup}
use product_feed_protocol.Text.{◌⧺◌, is_empty}
use product_feed_protocol.Value.{TypeId, Value, Record, text_of, list, nil}
use product_feed_protocol.Mapping.{OnMissing, OpCall, FieldPlan}
use product_feed_protocol.Compiler.{
  give, as_mapping, get_or, is_in, is_unsupported, to_plan_type_id, is_type_mismatch, OpSpec,
  OpCatalog, mapping_op_allowlist,
}
use product_feed_protocol.Compiler.Clean.{
  Clean, Clean-bind, Clean-refuse, Clean-refuse_if, Any, Clean-Any,
}
use product_feed_protocol.Compiler.Presence.{compile_field_presence}
use product_feed_protocol.Compiler.Fields.{
  Kept, Chain, resolve_args, chain_call, check_types, compile_call, try_get_mapping_op,
  call_if_found, link_op, compile_transform, type_after, kept_before, compile_transforms,
  compile_field_mapping, read_args, read_on_missing, read_transforms, read_source,
}

-- Two types agree if both are known and equal, or one is not known.
abbrev pub Agree : Option TypeId → Option TypeId → Type 0
Agree (some t) (some u) = t ≡ u
Agree _ _ = Unit

-- From a type on, each call takes what the call before it gives, and the last gives the final type.
abbrev pub IsChained : Option TypeId → List OpCall → Option TypeId → Type 0
IsChained current [] final = current ≡ final
IsChained current (call ∷ calls) final =
    Agree current call.input_type × IsChained call.output_type calls final

Agree-is_type_mismatch : (t u : Option TypeId) → is_type_mismatch t u ≡ false → Agree t u
unfolding is_type_mismatch
Agree-is_type_mismatch none u h = tt
Agree-is_type_mismatch (some t) none h = tt
Agree-is_type_mismatch (some t) (some u) h = ground (arith, eq_iff t u)

-- A transform that is kept, and a call that agrees with the type before it.
abbrev KeptAfter : Option TypeId → Kept → Type 0
KeptAfter current none = ⊥
KeptAfter current (some call) = Agree current call.input_type

Clean-chain_call :
    (spec : OpSpec) (op_id op_path : String) (current : Option TypeId) (args : Option Record)
    (on_missing : Option OnMissing)
    → Clean (KeptAfter current) (chain_call spec op_id op_path current args on_missing)
unfolding chain_call
Clean-chain_call spec op_id op_path current args on_missing =
    Clean-bind (λ _. is_type_mismatch current (to_plan_type_id spec.input_type) ≡ false)
      (KeptAfter current) _ _
      (Clean-refuse_if (is_type_mismatch current (to_plan_type_id spec.input_type)) _ _ _)
      (λ _ match.
        Clean-bind Any (KeptAfter current) (resolve_args spec args) _
          (Clean-Any (resolve_args spec args))
          (λ resolved _ e. Agree-is_type_mismatch current (to_plan_type_id spec.input_type) match))

Clean-check_types :
    (spec : OpSpec) (op_id op_path : String) (current : Option TypeId) (args : Option Record)
    (on_missing : Option OnMissing)
    → Clean (KeptAfter current) (check_types spec op_id op_path current args on_missing)
unfolding check_types
Clean-check_types spec op_id op_path current args on_missing =
    elim (Bool-cases (is_unsupported spec.input_type)) [
      | inl h ↦ rw h (Clean-refuse (KeptAfter current) none _ _ _)
      | inr h ↦ elim (Bool-cases (is_unsupported spec.output_type)) [
        | inl k ↦ rw (h, k) (Clean-refuse (KeptAfter current) none _ _ _)
        | inr k ↦ rw (h, k) (Clean-chain_call spec op_id op_path current args on_missing)
      ]
    ]

Clean-compile_call :
    (spec : OpSpec) (op_id op_path : String) (transform : Record) (current : Option TypeId)
    → Clean (KeptAfter current) (compile_call spec op_id op_path transform current)
unfolding compile_call
Clean-compile_call spec op_id op_path transform current =
    Clean-bind Any (KeptAfter current) (read_args op_path (lookup "args" transform)) _ (Clean-Any _)
      (λ args _.
        Clean-bind Any (KeptAfter current) (read_on_missing op_path (lookup "on_missing" transform))
          _ (Clean-Any _)
          (λ on_missing _. Clean-check_types spec op_id op_path current args on_missing))

abbrev IsFound : Option OpSpec → Type 0
IsFound none = ⊥
IsFound (some spec) = Unit

Clean-try_get_mapping_op :
    (catalog : OpCatalog) (op_id path : String)
    → Clean IsFound (try_get_mapping_op catalog op_id path)
unfolding try_get_mapping_op
Clean-try_get_mapping_op catalog op_id path = elim (Option-cases (catalog op_id)) [
  | inl absent ↦ rw (try_get_mapping_op, absent) (Clean-refuse IsFound none _ _ _)
  | inr (spec, found) ↦ rw (try_get_mapping_op, found) (λ e. tt)
]

Clean-call_if_found :
    (op_id op_path : String) (transform : Record) (current : Option TypeId) (found : Option OpSpec)
    → IsFound found
    → Clean (KeptAfter current) (call_if_found op_id op_path transform current found)
Clean-call_if_found op_id op_path transform current none h = elim h [ ]
Clean-call_if_found op_id op_path transform current (some spec) h =
    Clean-compile_call spec op_id op_path transform current

Clean-link_op :
    (catalog : OpCatalog) (op_id op_path : String) (transform : Record) (current : Option TypeId)
    → Clean (KeptAfter current) (link_op catalog op_id op_path transform current)
unfolding link_op
Clean-link_op catalog op_id op_path transform current =
    elim (Bool-cases (is_in op_id mapping_op_allowlist)) [
      | inl h ↦ rw h (
          Clean-bind IsFound (KeptAfter current) _ _
            (Clean-try_get_mapping_op catalog op_id (op_path ⧺ ".op"))
            (Clean-call_if_found op_id op_path transform current))
      | inr h ↦ rw h (Clean-refuse (KeptAfter current) none _ _ _)
    ]

Clean-compile_transform :
    (catalog : OpCatalog) (op_path : String) (current : Option TypeId) (raw : Value)
    → Clean (KeptAfter current) (compile_transform catalog op_path current raw)
unfolding compile_transform
Clean-compile_transform catalog op_path current raw = elim (Option-cases (as_mapping (some raw))) [
  | inl h ↦ rw (compile_transform, h) (Clean-refuse (KeptAfter current) none _ _ _)
  | inr (transform, h) ↦ elim (Option-cases (text_of (lookup "op" transform))) [
    | inl k ↦ rw (compile_transform, h, k) (Clean-refuse (KeptAfter current) none _ _ _)
    | inr (op_id, k) ↦ elim (Bool-cases (is_empty op_id)) [
      | inl m ↦ rw (compile_transform, h, k, m) (Clean-refuse (KeptAfter current) none _ _ _)
      | inr m ↦
          rw (compile_transform, h, k, m) (Clean-link_op catalog op_id op_path transform current)
    ]
  ]
]

abbrev ChainedFrom : Option TypeId → Chain → Type 0
ChainedFrom current (calls, final) = IsChained current calls final

Clean-compile_transforms :
    (catalog : OpCatalog) (field_path : String) (index : ℕ) (current : Option TypeId)
    (raws : List Value)
    → Clean (ChainedFrom current) (compile_transforms catalog field_path index current raws)
unfolding compile_transforms
Clean-compile_transforms catalog field_path index current [] = λ e. refl
Clean-compile_transforms catalog field_path index current (raw ∷ raws) =
    Clean-bind (KeptAfter current) (ChainedFrom current) _ _
      (Clean-compile_transform catalog _ current raw)
      (λ kept h.
        Clean-bind (ChainedFrom (type_after kept current)) (ChainedFrom current) _ _
          (Clean-compile_transforms catalog field_path (index + 1) (type_after kept current) raws)
          (extend current kept h))
  where
    extend :
        (current : Option TypeId) (kept : Kept)
        → KeptAfter current kept
        → (chain : Chain) → ChainedFrom (type_after kept current) chain
        → Clean (ChainedFrom current) (give (kept_before kept chain))
    extend current none h chain k = elim h [ ]
    extend current (some call) h chain k = λ e. (h, k)

-- A field whose calls follow one another by their types.
abbrev pub IsTyped : FieldPlan → Type 0
IsTyped plan = IsChained none plan.transforms plan.final_type

pub Clean-compile_field_mapping :
    (catalog : OpCatalog) (field_id field_path global_default : String) (field_mapping : Record)
    → Clean IsTyped (compile_field_mapping catalog field_id field_path global_default field_mapping)
unfolding compile_field_mapping
Clean-compile_field_mapping catalog field_id field_path global_default field_mapping =
    Clean-bind Any IsTyped (read_source field_path (as_mapping (lookup "source" field_mapping))) _
      (Clean-Any _)
      (λ source _.
        Clean-bind Any IsTyped (compile_field_presence field_mapping field_path global_default) _
          (Clean-Any _)
          (λ presence _.
            Clean-bind Any IsTyped
              (read_transforms field_path (get_or "transforms" (list nil) field_mapping)) _
              (Clean-Any _)
              (λ raws _.
                Clean-bind (ChainedFrom none) IsTyped
                  (compile_transforms catalog field_path 0 none raws) _
                  (Clean-compile_transforms catalog field_path 0 none raws) (λ chain h e. h))))
