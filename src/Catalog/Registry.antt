-- ===== src/Catalog/Registry.antt =====
-- All entries of the registry of operations keep to their types.
use mathlib.Core.Path.{subst}
use product_feed_protocol.Prelude.{
  String, ◌≡◌, ◌≢◌, inl, inr, refl, sym, ap, ◌∙◌, arith, true, none, some, [], ◌∷◌, ◌==◌, string_eq,
  All, Bool-cases, some_inj, if◌then◌else◌,
}
use product_feed_protocol.Dict.{Dict, lookup}
use product_feed_protocol.Text.{strip_text, lower_text, upper_text, collapse_whitespace}
use product_feed_protocol.Value.{
  Value, missing, none', bool, int, float, decimal, date, datetime, str, list, mapping, emission,
  Record,
}
use product_feed_protocol.Mapping.Operations.{
  trim, upper, lower, normalize_whitespace, emit_null_if_missing, omit_if_missing, to_str, map_text,
}
use product_feed_protocol.Compiler.{OpSpec, to_plan_type_id}
use product_feed_protocol.Catalog.{operation_specs, get_mapping_op_spec}
use product_feed_protocol.Catalog.Typing.{
  IsSound, Returns-any, Returns-map_shown, Returns-map_text, bool_to_availability-Returns,
  emit_if_present-Returns, fits, format_price-Returns, int_to_availability-Returns,
  strip_suffix-Returns, to_bool-Returns, to_int-Returns, truncate-Returns,
}

-- One proof after another, for the entries of a registry.
infixr 5 ◌▹◌
abbrev ◌▹◌ : {A B : Type 0} → A → B → A × B
a ▹ b = (a, b)

pub lookup-All :
    {A : Type 0} (P : A → Type 0) (k : String) (d : Dict String A)
    → All (λ (e : String × A). P e.1) d
    → (v : A) → lookup k d ≡ some v
    → P v
unfolding lookup
lookup-All P k [] h v found = ground arith
lookup-All P k ((j, w) ∷ d) (here, rest) v found = elim (Bool-cases (j == k)) [
  | inl same ↦
      subst P (some_inj (sym (ap (λ b. if b then some w else lookup k d) same) ∙ found)) here
  | inr other ↦
      lookup-All P k d rest v (sym (ap (λ b. if b then some w else lookup k d) other) ∙ found)
]

-- A value that fits a text type is a text or absent, so that an operation on texts returns.
map_text-returns :
    (f : String → String) (v : Value) (args : Record)
    → fits (some "string") v ≡ true
    → map_text f v args ≢ none
unfolding fits
map_text-returns f missing args h e = ground arith
map_text-returns f none' args h e = ground arith
map_text-returns f (str s) args h e = ground arith
map_text-returns f (bool b) args h e = ground arith
map_text-returns f (int n) args h e = ground arith
map_text-returns f (float s) args h e = ground arith
map_text-returns f (decimal s) args h e = ground arith
map_text-returns f (date s) args h e = ground arith
map_text-returns f (datetime s) args h e = ground arith
map_text-returns f (list vs) args h e = ground arith
map_text-returns f (mapping fs) args h e = ground arith
map_text-returns f (emission x) args h e = ground arith

-- An operation takes any value, or returns on all values of its type.
abbrev pub Takes : OpSpec → Type 0
Takes op =
    op.input_type ≢ "any"
    → (v : Value) (args : Record) → fits (to_plan_type_id op.input_type) v ≡ true
    → op.call v args ≢ none

takes_any : {A : Type 0} (t : String) → t ≢ t → A
takes_any t known = absurd (known refl)

module _ (show_value : Value → String) where
  operation_specs-AreSound : All (λ (e : String × OpSpec). IsSound e.1) (operation_specs show_value)
  unfolding operation_specs fits to_plan_type_id trim lower upper normalize_whitespace to_str
      emit_null_if_missing omit_if_missing
  operation_specs-AreSound =
      (λ v args. Returns-any _)
      ▹ (λ v args. Returns-any _)
      ▹ (λ v args. Returns-map_shown show_value (λ s. s) v)
      ▹ to_int-Returns
      ▹ to_bool-Returns
      ▹ bool_to_availability-Returns
      ▹ int_to_availability-Returns
      ▹ Returns-map_text strip_text
      ▹ Returns-map_text lower_text
      ▹ Returns-map_text upper_text
      ▹ Returns-map_text (λ s. strip_text (collapse_whitespace s))
      ▹ strip_suffix-Returns show_value
      ▹ truncate-Returns show_value
      ▹ format_price-Returns show_value
      ▹ emit_if_present-Returns show_value
      ▹ (λ v args. refl)
      ▹ (λ v args. refl)
      ▹ tt

  operation_specs-Take : All (λ (e : String × OpSpec). Takes e.1) (operation_specs show_value)
  unfolding operation_specs to_plan_type_id trim lower upper normalize_whitespace
  operation_specs-Take =
      takes_any "any"
      ▹ takes_any "any"
      ▹ takes_any "any"
      ▹ takes_any "any"
      ▹ takes_any "any"
      ▹ takes_any "any"
      ▹ takes_any "any"
      ▹ (λ known. map_text-returns strip_text)
      ▹ (λ known. map_text-returns lower_text)
      ▹ (λ known. map_text-returns upper_text)
      ▹ (λ known. map_text-returns (λ s. strip_text (collapse_whitespace s)))
      ▹ takes_any "any"
      ▹ takes_any "any"
      ▹ takes_any "any"
      ▹ takes_any "any"
      ▹ takes_any "any"
      ▹ takes_any "any"
      ▹ tt

  pub get_mapping_op_spec-IsSound :
      (op_id : String) (op : OpSpec) → get_mapping_op_spec show_value op_id ≡ some op → IsSound op
  unfolding get_mapping_op_spec
  get_mapping_op_spec-IsSound op_id op found =
      lookup-All IsSound op_id (operation_specs show_value) operation_specs-AreSound op found

  -- What a built-in operation returns fits its declared output type, if it returns; and it returns on each value that fits its
  -- declared input type, if that is not the type of all values.
  pub get_mapping_op_spec-IsTyped :
      (op_id : String) (op : OpSpec)
      → get_mapping_op_spec show_value op_id ≡ some op
      → IsSound op × Takes op
  unfolding get_mapping_op_spec
  get_mapping_op_spec-IsTyped op_id op found = (
    get_mapping_op_spec-IsSound op_id op found,
    lookup-All Takes op_id (operation_specs show_value) operation_specs-Take op found,
  )
