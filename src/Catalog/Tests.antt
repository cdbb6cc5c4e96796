-- ===== src/Catalog/Tests.antt =====
-- A schema with built-in operations and modules, compiled and run.
use mathlib.Core.Path.{subst}
use product_feed_protocol.Prelude.{
  String, ◌≡◌, ◌≢◌, refl, true, none, some, [], ◌∷◌, All, inl, string_eq, some_inj,
}
use product_feed_protocol.Dict.{lookup}
use product_feed_protocol.Value.{
  pos, Value, missing, int, str, list, nil, cons, mapping, end, field, Record,
}
use product_feed_protocol.Mapping.{FieldPlan, default_of}
use product_feed_protocol.Mapping.Fields.{run_transforms}
use product_feed_protocol.Mapping.Operations.{
  normalize_whitespace, to_int, strip_suffix, truncate, format_price,
}
use product_feed_protocol.Validation.{RulePlan, run_rule, resolve_rule_value}
use product_feed_protocol.Validation.Modules.{normalize_profiles}
use product_feed_protocol.Compiler.Profiles.{extract_profile_filters}
use product_feed_protocol.Text.{lower_text, strip_text}
use product_feed_protocol.Compiler.{OpSpec}
use product_feed_protocol.Compiler.Schema.{CompiledSchema, compile}
use product_feed_protocol.Catalog.{
  get_mapping_op_spec, call_of, get_validation_module, get_module_type,
}
use product_feed_protocol.Catalog.Typing.{fits, IsSound}
use product_feed_protocol.Catalog.Registry.{Takes, get_mapping_op_spec-IsTyped}
use product_feed_protocol.Catalog.Fields.{HasFittingDefault, compile-fits}
use product_feed_protocol.Catalog.Requirements.{IsRequired, run_rule-violated}

abbrev show_value : Value → String
show_value (str s) = s
show_value _ = "?"

stripped :
    strip_suffix show_value
      (str "SKU-1/b-2")
      (("delimiters", list (cons (str "/") (cons (str "-") nil))) ∷ [])
    ≡ some (str "SKU-1/b")
unfolding strip_suffix
stripped = refl

truncated : truncate show_value (str "title") (("max_length", int (pos 3)) ∷ []) ≡ some (str "tit")
unfolding truncate
truncated = refl

normalized_text : normalize_whitespace (str "  a \n b ") [] ≡ some (str "a b")
unfolding normalize_whitespace
normalized_text = refl

parsed : to_int (str " 1_000 ") [] ≡ some (int (pos 1000))
unfolding to_int
parsed = refl

trim_spec : (op : OpSpec) × (get_mapping_op_spec show_value "trim" ≡ some op)
unfolding get_mapping_op_spec
trim_spec = (_, refl)

get_mapping_op_spec-IsTyped_example : IsSound trim_spec.0 × Takes trim_spec.0
get_mapping_op_spec-IsTyped_example =
    get_mapping_op_spec-IsTyped show_value "trim" trim_spec.0 trim_spec.1

priced :
    format_price show_value (str " 9.50 ") (("currency", str "EUR") ∷ []) ≡ some (str "9.50 EUR")
unfolding format_price
priced = refl

-- A stock level, 0 if it is missing.
abbrev stock : Value
stock = mapping (
    field "source" (mapping (field "path" (str "stock") end)) (
      field "transforms"
        (list (
          cons
            (mapping (
              field "op" (str "to_int") (
                field "on_missing" (str "default")
                  (field "args" (mapping (field "default" (int (pos 0)) end)) end))))
            nil))
        end))

abbrev document : Record
document =
    ("header", mapping (field "artifact_profile" (str "full") end))
    ∷ (
      "output",
      mapping (
          field "writer_id" (str "csv") (
            field "artifact"
              (mapping
                (field "content_type" (str "text/csv") (field "file_extension" (str ".csv") end)))
              end)),
    )
    ∷ (
      "mapping",
      mapping (
          field "output_kind" (str "csv_row") (
            field "output_order" (list (cons (str "stock") nil))
              (field "fields" (mapping (field "stock" stock end)) end))),
    )
    ∷ ("validation", mapping (field "rules" (list nil) end))
    ∷ []

compiled :
    (c : CompiledSchema) × (compile show_value
        (get_mapping_op_spec show_value)
        get_module_type
        document
      ≡ some c)
    × (c.is_valid ≡ true)
unfolding compile get_mapping_op_spec
compiled = (_, refl, refl)

stock_plan :
    (plan : FieldPlan) × (lookup "stock" compiled.0.mapping_plan.fields ≡ some plan)
    × All HasFittingDefault plan.transforms
unfolding lookup compile get_mapping_op_spec compiled default_of fits
stock_plan = (_, refl, ((λ v e. subst (λ w. fits (some "int") w ≡ true) (some_inj e) refl), tt))

compile-fits_example :
    fits stock_plan.0.final_type
      (run_transforms
        (call_of (get_mapping_op_spec show_value))
        stock_plan.0
        0
        stock_plan.0.transforms
        (str " 12 ")).0
    ≡ true
compile-fits_example =
    compile-fits show_value get_module_type document compiled.0 compiled.1 compiled.2 "stock"
      stock_plan.0 stock_plan.1 stock_plan.2 (str " 12 ")

stock_run :
    run_transforms
      (call_of (get_mapping_op_spec show_value))
      stock_plan.0
      0
      stock_plan.0.transforms
      missing
    ≡ (int (pos 0), [])
unfolding run_transforms call_of get_mapping_op_spec stock_plan compile
stock_run = refl

abbrev price_rule : RulePlan
price_rule = record {
  module_id = "required_if_profile";
  rule_id = none;
  applies_to_field = some "price";
  config = ("artifact_profiles", list (cons (str " Full ") nil)) ∷ [];
  on_fail_code = none;
  on_fail_message = none;
  severity_hint = none;
  expected_value_type = none;
}

full_in_filters :
    IsRequired (extract_profile_filters price_rule.config) (lower_text (strip_text "FULL"))
unfolding extract_profile_filters lower_text strip_text
full_in_filters = refl

price_absent : resolve_rule_value price_rule [] ≡ missing
unfolding resolve_rule_value
price_absent = refl

run_rule-violated_example : run_rule get_validation_module [] "FULL" price_rule ≢ none
run_rule-violated_example =
    run_rule-violated price_rule [] "FULL" refl full_in_filters (inl price_absent)

-- With no name in `artifact_profiles`, the compiler reads `artifact_profile`, and the module requires the field for all profiles.
abbrev empty_list_rule : RulePlan
empty_list_rule = record price_rule {
  config = ("artifact_profiles", list nil) ∷ ("artifact_profile", str "full") ∷ [];
}

compiler_reads : extract_profile_filters empty_list_rule.config ≡ some ("full" ∷ [])
unfolding extract_profile_filters
compiler_reads = refl

module_reads : normalize_profiles empty_list_rule.config ≡ none
unfolding normalize_profiles
module_reads = refl
