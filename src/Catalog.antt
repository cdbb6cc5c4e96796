-- ===== src/Catalog.antt =====
-- pfp_core/ext/mapping/mapping_contract.py and validation/validation_contract.py: the registries, without the operations that are
-- not modelled, `map_tax_code`, whose codes are those of a file, and the module `range`.
pub mod Typing
pub mod Registry
pub mod Fields
pub mod Requirements
mod Tests
use product_feed_protocol.Prelude.{
  String, Bool, true, false, Option, none, some, List, [], ◌∷◌, ◌==◌, string_eq, if◌then◌else◌,
}
use product_feed_protocol.Dict.{Dict, lookup}
use product_feed_protocol.Value.{Value, Record}
use product_feed_protocol.Mapping as Mapping
use product_feed_protocol.Mapping.{MappingOp}
use product_feed_protocol.Mapping.Operations.{
  trim, upper, lower, normalize_whitespace, default_value, emit_null_if_missing, omit_if_missing,
  bool_to_availability, int_to_availability, to_bool, to_int, get_path, to_str, emit_if_present,
  truncate, strip_suffix, format_price,
}
use product_feed_protocol.Validation as Validation
use product_feed_protocol.Validation.Modules.{required, required_if_profile, enum_check, type_check}
use product_feed_protocol.Compiler.{OpSpec, OpCatalog, ModuleCatalog}

-- A `MappingOpSpec` without `prepare`.
abbrev spec : String → String → MappingOp → OpSpec
spec input output call = record {
  input_type = input;
  output_type = output;
  prepare = none;
  call = call;
}

-- `MAPPING_OP_REGISTRY`, its types those of the `get_spec` of each operation.
unfoldable pub operation_specs : (Value → String) → Dict String OpSpec
operation_specs show_value =
    ("default_value", spec "any" "any" default_value)
    ∷ ("get_path", spec "any" "any" get_path)
    ∷ ("to_str", spec "any" "string" (to_str show_value))
    ∷ ("to_int", spec "any" "int" to_int)
    ∷ ("to_bool", spec "any" "bool" to_bool)
    ∷ ("bool_to_availability", spec "any" "string" bool_to_availability)
    ∷ ("int_to_availability", spec "any" "string" int_to_availability)
    ∷ ("trim", spec "string" "string" trim)
    ∷ ("lower", spec "string" "string" lower)
    ∷ ("upper", spec "string" "string" upper)
    ∷ ("normalize_whitespace", spec "string" "string" normalize_whitespace)
    ∷ ("strip_suffix", spec "any" "string" (strip_suffix show_value))
    ∷ ("truncate", spec "any" "string" (truncate show_value))
    ∷ ("format_price", spec "any" "string" (format_price show_value))
    ∷ ("emit_if_present", spec "any" "object" (emit_if_present show_value))
    ∷ ("emit_null_if_missing", spec "any" "object" emit_null_if_missing)
    ∷ ("omit_if_missing", spec "any" "object" omit_if_missing)
    ∷ []

-- `get_mapping_op_spec`, with none for its `ValueError`.
unfoldable pub get_mapping_op_spec : (Value → String) → OpCatalog
unfolding operation_specs lookup
get_mapping_op_spec show_value op_id = lookup op_id (operation_specs show_value)

-- What the executor calls.
unfoldable pub call_of : OpCatalog → Mapping.Catalog
call_of catalog op_id = elim (catalog op_id) [ none ↦ none | some op ↦ some op.call ]

-- `VALIDATION_MODULE_REGISTRY`
unfoldable pub modules : Dict String Validation.Module
modules =
    ("required", required)
    ∷ ("required_if_profile", required_if_profile)
    ∷ ("type", type_check)
    ∷ ("enum", enum_check)
    ∷ []

-- `get_validation_module_spec`, its call.
unfoldable pub get_validation_module : Validation.Catalog
unfolding modules lookup
get_validation_module module_id = lookup module_id modules

-- The types of the values of these modules.
unfoldable pub module_types : Dict String String
module_types =
    ("required", "any") ∷ ("required_if_profile", "any") ∷ ("type", "any") ∷ ("enum", "string") ∷ []

unfoldable pub get_module_type : ModuleCatalog
unfolding module_types lookup
get_module_type module_id = lookup module_id module_types
