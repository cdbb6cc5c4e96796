-- ===== src/Compiler/Fields/Links.antt =====
-- The calls of a compiled field are of operations that the catalog has, whatever is reported.
use product_feed_protocol.Prelude.{
  ℕ, ◌+◌, String, ◌≡◌, refl, true, Option, none, some, List, [], ◌∷◌, string_eq, All, inl, inr,
  Bool-cases, Option-cases,
}
use product_feed_protocol.Dict.{lookup}
use product_feed_protocol.Text.{◌⧺◌, is_empty}
use product_feed_protocol.Value.{TypeId, Value, Record, text_of, list, nil}
use product_feed_protocol.Mapping.{OnMissing, OpCall, FieldPlan}
use product_feed_protocol.Compiler.{
  give, refuse_if, as_mapping, get_or, is_in, is_unsupported, is_type_mismatch, to_plan_type_id,
  OpSpec, OpCatalog, mapping_op_allowlist,
}
use product_feed_protocol.Compiler.Clean.{Always, Always-bind, Any, Always-Any}
use product_feed_protocol.Compiler.Presence.{compile_field_presence}
use product_feed_protocol.Compiler.Fields.{
  Kept, Chain, resolve_args, chain_call, check_types, compile_call, try_get_mapping_op,
  call_if_found, link_op, compile_transform, type_after, kept_before, compile_transforms,
  compile_field_mapping, read_args, read_on_missing, read_transforms, read_source,
}

-- A call of an operation that is allowed and in the catalog, with the types of the operation.
abbrev pub IsLinked : OpCatalog → OpCall → Type 0
IsLinked catalog call =
    (spec : OpSpec) × (catalog call.op_id ≡ some spec)
    × (is_in call.op_id mapping_op_allowlist ≡ true)
    × (call.input_type ≡ to_plan_type_id spec.input_type)
    × (call.output_type ≡ to_plan_type_id spec.output_type)

module _ (catalog : OpCatalog) where
  abbrev KeptLinked : Kept → Type 0
  KeptLinked none = Unit
  KeptLinked (some call) = IsLinked catalog call

  module _ (spec : OpSpec) (op_id : String) (found : catalog op_id ≡ some spec)
      (allowed : is_in op_id mapping_op_allowlist ≡ true) where
    Always-chain_call :
        (op_path : String) (current : Option TypeId) (args : Option Record)
        (on_missing : Option OnMissing)
        → Always KeptLinked (chain_call spec op_id op_path current args on_missing)
    unfolding chain_call
    Always-chain_call op_path current args on_missing =
        Always-bind Any KeptLinked
          (refuse_if (is_type_mismatch current (to_plan_type_id spec.input_type)) _ _ _) _
          (Always-Any _)
          (λ _ _.
            Always-bind Any KeptLinked (resolve_args spec args) _ (Always-Any _)
              (λ resolved _. (spec, found, allowed, refl, refl)))

    Always-check_types :
        (op_path : String) (current : Option TypeId) (args : Option Record)
        (on_missing : Option OnMissing)
        → Always KeptLinked (check_types spec op_id op_path current args on_missing)
    unfolding check_types
    Always-check_types op_path current args on_missing =
        elim (Bool-cases (is_unsupported spec.input_type)) [
          | inl h ↦ rw h tt
          | inr h ↦ elim (Bool-cases (is_unsupported spec.output_type)) [
            | inl k ↦ rw (h, k) tt
            | inr k ↦ rw (h, k) (Always-chain_call op_path current args on_missing)
          ]
        ]

    Always-compile_call :
        (op_path : String) (transform : Record) (current : Option TypeId)
        → Always KeptLinked (compile_call spec op_id op_path transform current)
    unfolding compile_call
    Always-compile_call op_path transform current =
        Always-bind Any KeptLinked (read_args op_path (lookup "args" transform)) _ (Always-Any _)
          (λ args _.
            Always-bind Any KeptLinked (read_on_missing op_path (lookup "on_missing" transform)) _
              (Always-Any _) (λ on_missing _. Always-check_types op_path current args on_missing))

  abbrev FoundFor : String → Option OpSpec → Type 0
  FoundFor op_id none = Unit
  FoundFor op_id (some spec) = catalog op_id ≡ some spec

  Always-try_get_mapping_op :
      (op_id path : String) → Always (FoundFor op_id) (try_get_mapping_op catalog op_id path)
  unfolding try_get_mapping_op
  Always-try_get_mapping_op op_id path = elim (Option-cases (catalog op_id)) [
    | inl absent ↦ rw (try_get_mapping_op, absent) tt
    | inr (spec, found) ↦ rw (try_get_mapping_op, found) found
  ]

  Always-call_if_found :
      (op_id op_path : String) (transform : Record) (current : Option TypeId)
      → is_in op_id mapping_op_allowlist ≡ true
      → (found : Option OpSpec) → FoundFor op_id found
      → Always KeptLinked (call_if_found op_id op_path transform current found)
  Always-call_if_found op_id op_path transform current allowed none h = tt
  Always-call_if_found op_id op_path transform current allowed (some spec) h =
      Always-compile_call spec op_id h allowed op_path transform current

  Always-link_op :
      (op_id op_path : String) (transform : Record) (current : Option TypeId)
      → Always KeptLinked (link_op catalog op_id op_path transform current)
  unfolding link_op
  Always-link_op op_id op_path transform current =
      elim (Bool-cases (is_in op_id mapping_op_allowlist)) [
        | inl allowed ↦ rw allowed (
            Always-bind (FoundFor op_id) KeptLinked _ _
              (Always-try_get_mapping_op op_id (op_path ⧺ ".op"))
              (Always-call_if_found op_id op_path transform current allowed))
        | inr refused ↦ rw refused tt
      ]

  Always-compile_transform :
      (op_path : String) (current : Option TypeId) (raw : Value)
      → Always KeptLinked (compile_transform catalog op_path current raw)
  unfolding compile_transform
  Always-compile_transform op_path current raw = elim (Option-cases (as_mapping (some raw))) [
    | inl h ↦ rw (compile_transform, h) tt
    | inr (transform, h) ↦ elim (Option-cases (text_of (lookup "op" transform))) [
      | inl k ↦ rw (compile_transform, h, k) tt
      | inr (op_id, k) ↦ elim (Bool-cases (is_empty op_id)) [
        | inl m ↦ rw (compile_transform, h, k, m) tt
        | inr m ↦ rw (compile_transform, h, k, m) (Always-link_op op_id op_path transform current)
      ]
    ]
  ]

  abbrev ChainLinked : Chain → Type 0
  ChainLinked (calls, final) = All (IsLinked catalog) calls

  extend :
      (kept : Kept)
      → KeptLinked kept
      → (chain : Chain) → ChainLinked chain
      → Always ChainLinked (give (kept_before kept chain))
  extend none h chain k = k
  extend (some call) h chain k = (h, k)

  Always-compile_transforms :
      (field_path : String) (index : ℕ) (current : Option TypeId) (raws : List Value)
      → Always ChainLinked (compile_transforms catalog field_path index current raws)
  unfolding compile_transforms
  Always-compile_transforms field_path index current [] = tt
  Always-compile_transforms field_path index current (raw ∷ raws) =
      Always-bind KeptLinked ChainLinked _ _ (Always-compile_transform _ current raw) (λ kept h.
        Always-bind ChainLinked ChainLinked _ _
          (Always-compile_transforms field_path (index + 1) (type_after kept current) raws)
          (extend kept h))

  -- All calls of a field are linked.
  abbrev pub IsLinkedField : FieldPlan → Type 0
  IsLinkedField plan = All (IsLinked catalog) plan.transforms

  pub Always-compile_field_mapping :
      (field_id field_path global_default : String) (field_mapping : Record)
      → Always IsLinkedField
          (compile_field_mapping catalog field_id field_path global_default field_mapping)
  unfolding compile_field_mapping
  Always-compile_field_mapping field_id field_path global_default field_mapping =
      Always-bind Any IsLinkedField
        (read_source field_path (as_mapping (lookup "source" field_mapping))) _ (Always-Any _)
        (λ source _.
          Always-bind Any IsLinkedField
            (compile_field_presence field_mapping field_path global_default) _ (Always-Any _)
            (λ presence _.
              Always-bind Any IsLinkedField
                (read_transforms field_path (get_or "transforms" (list nil) field_mapping)) _
                (Always-Any _)
                (λ raws _.
                  Always-bind ChainLinked IsLinkedField
                    (compile_transforms catalog field_path 0 none raws) _
                    (Always-compile_transforms field_path 0 none raws) (λ chain h. h))))
