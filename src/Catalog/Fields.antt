-- ===== src/Catalog/Fields.antt =====
-- The transforms of a compiled field, run over the built-in operations.
use mathlib.Core.Path.{subst}
use product_feed_protocol.Prelude.{
  ℕ, suc, String, ◌≡◌, ◌⊎◌, inl, inr, refl, sym, ap, ◌∙◌, true, false, Option, none, some, List, [],
  ◌∷◌, string_eq, All, Bool-cases, Option-cases,
}
use product_feed_protocol.Dict.{lookup}
use product_feed_protocol.Value.{
  TypeId, Value, missing, none', bool, int, float, decimal, date, datetime, str, list, mapping,
  emission, Record,
}
use product_feed_protocol.Mapping.{
  Applied, OpCall, FieldPlan, OnMissing, default, pass, omit, error, apply_transform, call_op,
  apply_on_missing, default_of,
}
use product_feed_protocol.Mapping.Fields.{run_transforms}
use product_feed_protocol.Compiler.Schema.{CompiledSchema, compile}
use product_feed_protocol.Compiler.Schema.Validity.{compile-IsCoherent, compile-AreLinked}
use product_feed_protocol.Compiler.{ModuleCatalog, OpSpec, OpCatalog, to_plan_type_id}
use product_feed_protocol.Compiler.Fields.Chains.{IsChained, IsTyped}
use product_feed_protocol.Compiler.Fields.Links.{IsLinked, IsLinkedField}
use product_feed_protocol.Catalog.{get_mapping_op_spec, call_of}
use product_feed_protocol.Catalog.Typing.{fits, Returns, IsSound}
use product_feed_protocol.Catalog.Registry.{lookup-All, get_mapping_op_spec-IsSound}

fits-any : (v : Value) → fits none v ≡ true
unfolding fits
fits-any v = refl

fits-missing : (t : Option TypeId) → fits t missing ≡ true
unfolding fits
fits-missing none = refl
fits-missing (some t) = refl

-- A round of the transforms gives a value of the call's output type, and stops on MISSING only.
abbrev Fitting : OpCall → Applied → Type 0
Fitting op applied =
    (fits op.output_type applied.current ≡ true)
    × ((applied.should_break ≡ false) ⊎ (applied.current ≡ missing))

-- The default that a call gives on a missing value has its output type.
abbrev pub HasFittingDefault : OpCall → Type 0
HasFittingDefault op = (v : Value) → default_of op.args ≡ some v → fits op.output_type v ≡ true

module _ (catalog : OpCatalog) where
  -- Every operation is sound.
  abbrev pub AreSound : Type 0
  AreSound = (op_id : String) (op : OpSpec) → catalog op_id ≡ some op → IsSound op

  module _ (sound : AreSound) (plan : FieldPlan) where
    call_op-Fitting :
        (v : Value) (op : OpCall) (index : ℕ)
        → IsLinked catalog op
        → Fitting op (call_op (call_of catalog) v op plan index)
    unfolding call_op call_of
    call_op-Fitting v op index (spec, found, allowed, input, output) =
        let args : Record = elim op.args [ none ↦ [] | some args ↦ args ] in
        elim (Option-cases (spec.call v args)) [
          | inl raised ↦
              rw (call_op, call_of, found, raised) (fits-missing op.output_type, inr refl)
          | inr (w, returned) ↦
              rw (call_op, call_of, found, returned)
                (
                  ap (λ t. fits t w) output
                      ∙ subst (Returns (to_plan_type_id spec.output_type)) returned
                          (sound op.op_id spec found v args),
                  inl refl,
                )
        ]

    apply_on_missing-Fitting :
        (on_missing : OnMissing) (op : OpCall) (index : ℕ)
        → HasFittingDefault op
        → Fitting op (apply_on_missing on_missing op plan index)
    unfolding apply_on_missing
    apply_on_missing-Fitting omit op index h = (fits-missing op.output_type, inr refl)
    apply_on_missing-Fitting pass op index h = (fits-missing op.output_type, inl refl)
    apply_on_missing-Fitting error op index h = (fits-missing op.output_type, inr refl)
    apply_on_missing-Fitting default op index h = elim (Option-cases (default_of op.args)) [
      | inl absent ↦ rw (apply_on_missing, absent) (fits-missing op.output_type, inr refl)
      | inr (v, found) ↦ rw (apply_on_missing, found) (h v found, inl refl)
    ]

    missing-Fitting :
        (op : OpCall) (index : ℕ) (on_missing : Option OnMissing)
        → IsLinked catalog op
        → HasFittingDefault op
        → Fitting op (elim on_missing [
          | none ↦ call_op (call_of catalog) missing op plan index
          | some m ↦ apply_on_missing m op plan index
        ])
    missing-Fitting op index none linked h = call_op-Fitting missing op index linked
    missing-Fitting op index (some m) linked h = apply_on_missing-Fitting m op index h

    apply_transform-Fitting :
        (v : Value) (op : OpCall) (index : ℕ)
        → IsLinked catalog op
        → HasFittingDefault op
        → Fitting op (apply_transform (call_of catalog) v op plan index)
    unfolding apply_transform
    apply_transform-Fitting missing op index linked h =
        missing-Fitting op index op.on_missing linked h
    apply_transform-Fitting none' op index linked h = call_op-Fitting none' op index linked
    apply_transform-Fitting (bool b) op index linked h = call_op-Fitting (bool b) op index linked
    apply_transform-Fitting (int n) op index linked h = call_op-Fitting (int n) op index linked
    apply_transform-Fitting (float s) op index linked h = call_op-Fitting (float s) op index linked
    apply_transform-Fitting (decimal s) op index linked h =
        call_op-Fitting (decimal s) op index linked
    apply_transform-Fitting (date s) op index linked h = call_op-Fitting (date s) op index linked
    apply_transform-Fitting (datetime s) op index linked h =
        call_op-Fitting (datetime s) op index linked
    apply_transform-Fitting (str s) op index linked h = call_op-Fitting (str s) op index linked
    apply_transform-Fitting (list vs) op index linked h = call_op-Fitting (list vs) op index linked
    apply_transform-Fitting (mapping fs) op index linked h =
        call_op-Fitting (mapping fs) op index linked
    apply_transform-Fitting (emission e) op index linked h =
        call_op-Fitting (emission e) op index linked

    run_transforms-fits :
        (ops : List OpCall) (type final : Option TypeId) (index : ℕ) (v : Value)
        → IsChained type ops final
        → All (IsLinked catalog) ops
        → All HasFittingDefault ops
        → fits type v ≡ true
        → fits final (run_transforms (call_of catalog) plan index ops v).0 ≡ true
    unfolding run_transforms
    run_transforms-fits [] type final index v chained linked defaults h =
        sym (ap (λ t. fits t v) chained) ∙ h
    run_transforms-fits (op ∷ ops) type final index v (agree, chained) (linked, links)
          (default', defaults) h =
        let applied = apply_transform (call_of catalog) v op plan index in
        let (fitting, ends) = apply_transform-Fitting v op index linked default' in
        let rest =
          run_transforms-fits ops op.output_type final (suc index) applied.current chained links
            defaults fitting in
        elim ends [
          | inl goes ↦ rw (run_transforms, goes) rest
          | inr absent ↦ elim (Bool-cases applied.should_break) [
            | inr goes ↦ rw (run_transforms, goes) rest
            | inl stops ↦ rw (run_transforms, stops, absent) (fits-missing final)
          ]
        ]

module _ (show_value : Value → String) (modules : ModuleCatalog) (doc : Record) (c : CompiledSchema)
    (compiled : compile show_value (get_mapping_op_spec show_value) modules doc ≡ some c)
    (valid : c.is_valid ≡ true) where
  -- If a schema is compiled with the built-in operations and is valid, and the defaults of a field's calls have the types of their
  -- calls, then what the transforms of the field give fits the final type of the field, whatever value the record has for it.
  pub compile-fits :
      (field_id : String) (plan : FieldPlan)
      → lookup field_id c.mapping_plan.fields ≡ some plan
      → All HasFittingDefault plan.transforms
      → (input : Value)
      → fits plan.final_type
          (run_transforms (call_of (get_mapping_op_spec show_value)) plan 0 plan.transforms input).0
        ≡ true
  compile-fits field_id plan found defaults input =
      let operations = get_mapping_op_spec show_value in
      let coherent = compile-IsCoherent show_value operations modules doc c compiled valid in
      let linked = compile-AreLinked show_value operations modules doc c compiled in
      run_transforms-fits operations (get_mapping_op_spec-IsSound show_value) plan plan.transforms
        none plan.final_type 0 input
        (lookup-All IsTyped field_id c.mapping_plan.fields coherent.0.0 plan found)
        (lookup-All (IsLinkedField operations) field_id c.mapping_plan.fields linked.0 plan found)
        defaults (fits-any input)
