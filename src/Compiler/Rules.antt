-- ===== src/Compiler/Rules.antt =====
-- pfp_core/engine/validation_compiler.py and pfp_core/engine/validation: rule_order.py, linking.py and semantics.py. The modules
-- are found in a catalog that is a parameter.
pub mod Links
pub mod Requirements
use product_feed_protocol.Prelude.{
  ℕ, ◌+◌, String, Bool, true, false, not, Option, none, some, List, [], ◌∷◌, map, ◌==◌, string_eq,
  leb, if◌then◌else◌,
}
use product_feed_protocol.Dict.{Dict, lookup, insert}
use product_feed_protocol.Dict.Keys.{keys, contains, add_key}
use product_feed_protocol.Sorting.{sorted}
use product_feed_protocol.Text.{◌⧺◌, show, is_empty, str_le}
use product_feed_protocol.Text.Order.{texts_le}
use product_feed_protocol.Value.{
  TypeId, Value, str, list, nil, mapping, end, items, fields, Record, text_of,
}
use product_feed_protocol.Validation.{RulePlan}
use product_feed_protocol.Compiler.Profiles.{Sources, update_sources}
use product_feed_protocol.Compiler.{
  Compiled, give, refuse, refuse_if, ◌>>=◌, ◌>>◌, as_mapping, get_or, mapping_or_empty, is_in,
  is_none, is_unsupported, to_plan_type_id, is_validation_type_mismatch, ModuleCatalog,
  validation_module_allowlist,
}

-- The texts of a key, with the index that ends it.
pub record Indexed : Type 0 where
  pub index : ℕ
  pub rule : Value
  pub key : List String

abbrev texts_or_empty : Option String → String
texts_or_empty none = ""
texts_or_empty (some s) = s

abbrev applies_to : Record → Record
applies_to rule = mapping_or_empty (as_mapping (some (get_or "applies_to" (mapping end) rule)))

abbrev fallback_key : Record → List String
fallback_key rule =
    "1"
    ∷ texts_or_empty (text_of (lookup "module_id" rule))
    ∷ texts_or_empty (text_of (lookup "field" (applies_to rule)))
    ∷ []

-- The key of a rule, less its index.
unfoldable pub rule_key : Option Record → List String
unfolding as_mapping lookup
rule_key none = "2" ∷ "" ∷ "" ∷ []
rule_key (some rule) = elim (text_of (lookup "id" rule)) [
  | none ↦ fallback_key rule
  | some id ↦ if is_empty id then fallback_key rule else "0" ∷ id ∷ "" ∷ []
]

unfoldable pub same_texts : List String → List String → Bool
same_texts [] [] = true
same_texts (x ∷ xs) (y ∷ ys) = if x == y then same_texts xs ys else false
same_texts _ _ = false

-- The order of tuples: the texts, then the indices.
unfoldable pub indexed_le : Indexed → Indexed → Bool
unfolding same_texts texts_le
indexed_le a b = if same_texts a.key b.key then leb a.index b.index else texts_le a.key b.key

unfoldable pub index_rules : ℕ → List Value → List Indexed
unfolding rule_key as_mapping
index_rules index [] = []
index_rules index (rule ∷ rules) =
    record { index = index; rule = rule; key = rule_key (as_mapping (some rule)) }
    ∷ index_rules (index + 1) rules

-- `ordered_rules`
unfoldable pub ordered_rules : List Value → List Indexed
unfolding index_rules sorted indexed_le
ordered_rules rules = sorted indexed_le (index_rules 0 rules)

-- `link_validation_module`: none if it is not linked, else the expected type.
unfoldable pub link_module : ModuleCatalog → String → String → Compiled (Option (Option TypeId))
unfolding is_unsupported to_plan_type_id
link_module catalog module_id rule_path =
    if is_in module_id validation_module_allowlist
    then elim (catalog module_id) [
      | none ↦
          refuse none "SCHEMA_LINK_MODULE_NOT_FOUND" (rule_path ⧺ ".module_id")
            ("Validation module '" ⧺ module_id ⧺ "' is allowed but not found in catalog.")
      | some type_id ↦
          if is_unsupported type_id
          then refuse none "SCHEMA_TYPE_INVALID_TYPE_ID" (rule_path ⧺ ".module_id")
              ("Validation module value_type is not a supported TypeId: " ⧺ type_id)
          else give (some (to_plan_type_id type_id))
    ]
    else refuse none "SCHEMA_LINK_MODULE_NOT_ALLOWED" (rule_path ⧺ ".module_id")
        ("Validation module '" ⧺ module_id ⧺ "' is not in allowlist.")

abbrev type_name : Option TypeId → String
type_name none = "None"
type_name (some t) = t

-- The types of the field and of the module, if both are there to compare.
abbrev is_mismatch : Option (Option TypeId) → Option TypeId → Bool
is_mismatch none expected = false
is_mismatch (some field_type) none = false
is_mismatch (some field_type) (some expected) = is_validation_type_mismatch field_type expected

abbrev type_found : Option (Option TypeId) → String
type_found none = "None"
type_found (some t) = type_name t

-- `check_validation_field_semantics`
unfoldable pub check_field :
    Option String
    → Dict String (Option TypeId)
    → Option TypeId
    → String
    → String
    → Compiled (Unit {0})
unfolding is_validation_type_mismatch lookup
check_field none final_types expected module_id rule_path = give tt
check_field (some field) final_types expected module_id rule_path = do
  refuse_if (not (contains field (keys final_types))) "COMPILER_FIELD_UNDEFINED"
      (rule_path ⧺ ".applies_to.field") ("Unknown field in validation rule: '" ⧺ field ⧺ "'.")
  refuse_if (is_mismatch (lookup field final_types) expected) "SCHEMA_TYPE_VALIDATION_MISMATCH"
      (rule_path ⧺ ".module_id")
      ("Validation module '"
        ⧺ module_id
        ⧺ "' expects '"
        ⧺ type_name expected
        ⧺ "', but field '"
        ⧺ field
        ⧺ "' has '"
        ⧺ type_found (lookup field final_types)
        ⧺ "'.")

abbrev read_config : String → Option Record → Compiled Record
read_config rule_path (some config) = give config
read_config rule_path none =
    refuse [] "COMPILER_VALIDATION_INVALID" (rule_path ⧺ ".config")
      (rule_path ⧺ ".config must be an object.")

abbrev plan_rule : Record → String → Option String → Option TypeId → Record → Record → RulePlan
plan_rule rule module_id field expected config on_fail = record {
  module_id = module_id;
  rule_id = text_of (lookup "id" rule);
  applies_to_field = field;
  config = config;
  on_fail_code = text_of (lookup "code" on_fail);
  on_fail_message = text_of (lookup "message" on_fail);
  severity_hint = text_of (lookup "severity_hint" on_fail);
  expected_value_type = expected;
}

-- The rules that are kept, and the sources of the requirements by profile.
pub record Rules : Type 0 where
  pub kept : List RulePlan
  pub sources : Sources

-- A linked rule: its plan, and the sources after it.
abbrev pub Planned : Type 0
Planned = Option RulePlan × Sources

unfoldable pub compile_linked :
    Dict String (Option TypeId)
    → Record
    → String
    → String
    → Sources
    → Option (Option TypeId)
    → Compiled Planned
unfolding check_field update_sources as_mapping lookup
compile_linked final_types rule module_id rule_path sources none = give (none, sources)
compile_linked final_types rule module_id rule_path sources (some expected) =
    let field = text_of (lookup "field" (applies_to rule)) in
    do
      check_field field final_types expected module_id rule_path
      config ← read_config rule_path (as_mapping (some (get_or "config" (mapping end) rule)))
      let on_fail = mapping_or_empty (as_mapping (some (get_or "on_fail" (mapping end) rule)))
      give (
        some (plan_rule rule module_id field expected config on_fail),
        update_sources field module_id rule_path config sources,
      )

abbrev module_id_of : Record → String
module_id_of rule = texts_or_empty (text_of (lookup "module_id" rule))

-- One round of the loop over the rules.
unfoldable pub compile_rule :
    ModuleCatalog
    → Dict String (Option TypeId)
    → String
    → Option Record
    → Sources
    → Compiled Planned
unfolding link_module compile_linked lookup
compile_rule catalog final_types rule_path none sources =
    refuse (none, sources) "COMPILER_VALIDATION_INVALID" rule_path
      (rule_path ⧺ " must be an object.")
compile_rule catalog final_types rule_path (some rule) sources =
    if is_empty (module_id_of rule)
    then refuse (none, sources) "SCHEMA_LINK_MODULE_INVALID" (rule_path ⧺ ".module_id")
        "validation rule module_id must be a non-empty string."
    else (do
      linked ← link_module catalog (module_id_of rule) rule_path
      compile_linked final_types rule (module_id_of rule) rule_path sources linked)

abbrev kept_before : Option RulePlan → Rules → Rules
kept_before none rules = rules
kept_before (some rule) rules = record rules { kept = rule ∷ rules.kept }

-- The loop over the rules.
unfoldable pub compile_rules :
    ModuleCatalog → Dict String (Option TypeId) → Sources → List Indexed → Compiled Rules
unfolding compile_rule as_mapping show
compile_rules catalog final_types sources [] = give (record { kept = []; sources = sources })
compile_rules catalog final_types sources (r ∷ rs) = do
  planned ←
      compile_rule catalog final_types ("validation.rules[" ⧺ show r.index ⧺ "]")
        (as_mapping (some r.rule)) sources
  rest ← compile_rules catalog final_types planned.1 rs
  give (kept_before planned.0 rest)

abbrev no_rules : Rules
no_rules = record { kept = []; sources = [] }

unfoldable pub compile_rule_list :
    ModuleCatalog → Dict String (Option TypeId) → Value → Compiled Rules
unfolding compile_rules ordered_rules
compile_rule_list catalog final_types (list rules) =
    compile_rules catalog final_types [] (ordered_rules (items rules))
compile_rule_list catalog final_types _ =
    refuse no_rules "COMPILER_VALIDATION_INVALID" "validation.rules"
      "validation.rules must be a list."

-- `compile_validation`. The known fields are the keys of the final types, as `compile` passes them.
unfoldable pub compile_validation :
    ModuleCatalog → Dict String (Option TypeId) → Record → Compiled Rules
unfolding compile_rule_list as_mapping lookup
compile_validation catalog final_types schema_doc =
    elim (as_mapping (lookup "validation" schema_doc)) [
      | none ↦
          refuse no_rules "COMPILER_VALIDATION_INVALID" "validation" "validation must be an object."
      | some section ↦ compile_rule_list catalog final_types (get_or "rules" (list nil) section)
    ]
