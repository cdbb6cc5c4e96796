-- ===== src/Compiler.antt =====
-- pfp_core/engine: the compiler of schemas. What a function appends to the list of diagnostics is returned with its result, and
-- none stands for an exception that leaves the compiler. A schema document is what YAML gives, with texts as keys.
pub mod Presence
pub mod Fields
pub mod Outputs
pub mod Section
pub mod Profiles
pub mod Clean
pub mod Sets
pub mod Rules
pub mod Schema
mod Tests
use product_feed_protocol.Prelude.{
  String, Bool, true, false, not, ◌&&◌, ◌||◌, Option, none, some, List, [], ◌∷◌, ◌++◌, ◌==◌,
  string_eq, any, if◌then◌else◌,
}
use product_feed_protocol.Dict.{lookup}
use product_feed_protocol.Text.{◌⧺◌, is_empty}
use product_feed_protocol.Value.{TypeId, Value, mapping, fields, Record}
use product_feed_protocol.Mapping as Mapping

-- What `add_error` is called with, which is all that appends to the list.
pub record Diag : Type 0 where
  pub code : String
  pub path : String
  pub message : String

-- A result with the diagnostics that were appended, in order, or an exception.
abbrev pub Compiled : Type 0 → Type 0
Compiled A = Option (A × List Diag)

abbrev pub give : {A : Type 0} → A → Compiled A
give a = some (a, [])

abbrev pub after : {A : Type 0} → List Diag → Compiled A → Compiled A
after ds none = none
after ds (some (a, es)) = some (a, ds ++ es)

infixl 5 ◌>>=◌ ◌>>◌
abbrev pub ◌>>=◌ : {A B : Type 0} → Compiled A → (A → Compiled B) → Compiled B
none >>= f = none
some (a, ds) >>= f = after ds (f a)

abbrev pub ◌>>◌ : {B : Type 0} → Compiled (Unit {0}) → Compiled B → Compiled B
m >> k = m >>= λ _. k

-- `add_error`
abbrev pub diag : String → String → String → Diag
diag code path message = record { code = code; path = path; message = message }

-- `add_error`, and then a value in place of the one that is refused.
abbrev pub refuse : {A : Type 0} → A → String → String → String → Compiled A
refuse a code path message = some (a, diag code path message ∷ [])

abbrev pub refuse_if : Bool → String → String → String → Compiled (Unit {0})
refuse_if true code path message = refuse tt code path message
refuse_if false code path message = give tt

-- `as_mapping`, of what `get` found.
unfoldable pub as_mapping : Option Value → Option Record
as_mapping (some (mapping fs)) = some (fields fs)
as_mapping _ = none

-- `d.get(key, default)`
abbrev pub get_or : String → Value → Record → Value
get_or key default d = elim (lookup key d) [ none ↦ default | some v ↦ v ]

-- `as_mapping(d.get(key)) or {}`
abbrev pub mapping_or_empty : Option Record → Record
mapping_or_empty none = []
mapping_or_empty (some d) = d

abbrev pub is_in : String → List String → Bool
is_in s names = any (λ name. name == s) names

abbrev pub is_none : {A : Type 0} → Option A → Bool
is_none none = true
is_none (some a) = false

-- `ALLOWED_TYPE_IDS`
abbrev pub allowed_type_ids : List TypeId
allowed_type_ids =
    "string" ∷ "int" ∷ "decimal" ∷ "bool" ∷ "date" ∷ "datetime" ∷ "array[string]" ∷ "object" ∷ []

-- `to_plan_type_id`
unfoldable pub to_plan_type_id : String → Option TypeId
to_plan_type_id raw = if is_in raw allowed_type_ids then some raw else none

-- The test with which the compiler refuses a type of an operation or of a module.
unfoldable pub is_unsupported : String → Bool
unfolding to_plan_type_id
is_unsupported raw = is_none (to_plan_type_id raw) && not (raw == "any")

-- `is_type_mismatch`
unfoldable pub is_type_mismatch : Option TypeId → Option TypeId → Bool
is_type_mismatch none expected = false
is_type_mismatch (some current) none = false
is_type_mismatch (some current) (some expected) = not (current == expected)

-- `is_validation_type_mismatch`
unfoldable pub is_validation_type_mismatch : Option TypeId → TypeId → Bool
is_validation_type_mismatch none expected = false
is_validation_type_mismatch (some field_type) expected = not (field_type == expected)

-- What the compiler reads of a `MappingOpSpec`, and its function. `prepare`, where there is one, is given the arguments and the
-- context, which is the same for a whole schema; none is its exception.
pub record OpSpec : Type 0 where
  pub input_type : String
  pub output_type : String
  pub prepare : Option (Record → Option Record)
  pub call : Mapping.MappingOp

-- `catalog.get_mapping_op`, with none for its `KeyError`.
abbrev pub OpCatalog : Type 0
OpCatalog = String → Option OpSpec

-- `catalog.get_validation_module`: the type id of the values.
abbrev pub ModuleCatalog : Type 0
ModuleCatalog = String → Option String

abbrev pub mapping_op_allowlist : List String
mapping_op_allowlist =
    "get_path" ∷ "to_str" ∷ "to_int" ∷ "to_decimal" ∷ "to_bool" ∷ "trim" ∷ "lower" ∷ "upper"
    ∷ "normalize_whitespace" ∷ "parse_date" ∷ "format_date" ∷ "format_datetime_utc"
    ∷ "round_decimal" ∷ "format_money" ∷ "map_enum" ∷ "coalesce" ∷ "default_if_missing" ∷ "concat"
    ∷ "join" ∷ "emit_if_present" ∷ "emit_null_if_missing" ∷ "omit_if_missing" ∷ "default_value"
    ∷ "regex_extract" ∷ "strip_suffix" ∷ "truncate" ∷ "format_shipping" ∷ "bool_to_str_lower"
    ∷ "digits_only" ∷ "country_list_to_iso3166_alpha2" ∷ "url_list_to_comma_separated" ∷ "first_url"
    ∷ "validate_url" ∷ "date_to_iso" ∷ "price_to_string" ∷ "validate_iso8601_date_range"
    ∷ "disallow_newlines" ∷ "disallow_all_caps" ∷ "plain_text_only" ∷ "lowercase_required"
    ∷ "object_string_values_only" ∷ "normalize_category_path" ∷ "assert_max_len" ∷ "assert_min"
    ∷ "assert_len_exact" ∷ "assert_len_range" ∷ "strip_html" ∷ "bool_to_availability"
    ∷ "int_to_availability" ∷ "format_price" ∷ "map_tax_code" ∷ []

abbrev pub validation_module_allowlist : List String
validation_module_allowlist =
    "required" ∷ "type" ∷ "enum" ∷ "range" ∷ "regex" ∷ "min_length" ∷ "max_length"
    ∷ "required_if_profile" ∷ "forbid_if_mode" ∷ "mode_forbid" ∷ "require_if_present"
    ∷ "require_if_equals" ∷ "forbid_if_equals" ∷ "dependency_if_present" ∷ "dependency_if_equals"
    ∷ "dependency_if_any_present" ∷ "numeric_compare_money" ∷ []
