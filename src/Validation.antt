-- ===== src/Validation.antt =====
-- pfp_core/engine/validation_executor.py and pfp_core/engine/validation: the rules of a plan run on
-- one record. The catalog of modules is a parameter: a name finds no module (`KeyError`), or one
-- whose call raises or returns.
pub mod Executor
pub mod Verdicts
pub mod Conclusion
pub mod Modules
mod Tests
use product_feed_protocol.Prelude.{
  String, ◌≡◌, refl, Bool, true, false, Option, none, some, List, [], ◌∷◌, ◌++◌, map, ◌==◌,
  string_eq, any, if◌then◌else◌,
}
use product_feed_protocol.Dict.{Dict, lookup, get_or}
use product_feed_protocol.Text.{◌⧺◌, codes, strip, upper, upper_code, same_codes}
use product_feed_protocol.Text.Order.{texts_le}
use product_feed_protocol.Sorting.{sorted}
use product_feed_protocol.Value.{
  TypeId, Value, missing, bool, str, mapping, Record, to_fields, text_of,
}
use product_feed_protocol.Diagnostics as Diagnostics
use product_feed_protocol.Diagnostics.{Diagnostic}
use product_feed_protocol.Strictness.{StrictnessDecision}

-- `ValidationSeverity`
pub data ItemSeverity : Type 0 where
  fail warn drop : ItemSeverity

-- `ValidationDecision`
pub data Decision : Type 0 where
  pass warn drop fail : Decision

-- `ValidationRulePlan`
pub record RulePlan : Type 0 where
  pub module_id : String
  pub rule_id : Option String
  pub applies_to_field : Option String
  pub config : Record
  pub on_fail_code : Option String
  pub on_fail_message : Option String
  pub severity_hint : Option String
  pub expected_value_type : Option TypeId

-- `ValidationReportItem`
pub record ReportItem : Type 0 where
  pub code : String
  pub message : String
  pub path : String
  pub rule_id : Option String
  pub module_id : String
  pub severity : ItemSeverity
  pub severity_hint : Option String

-- `NormalizedModuleResult`
pub record ModuleResult : Type 0 where
  pub is_ok : Bool
  pub code : Option String
  pub message : Option String
  pub details : Option String
  pub path : Option String
  pub valid_shape : Bool

-- What a module returns: a mapping with its items, or another object with its attributes.
pub data RawResult : Type 0 where
  mapping_result object_result : Dict String Value → RawResult

-- The value, the rule's configuration, the record and the profile; `none` when the call raises.
abbrev pub Module : Type 0
Module = Value → Record → Record → String → Option RawResult

abbrev pub Catalog : Type 0
Catalog = String → Option Module

-- `a or b` on optional texts.
abbrev pub or_else : Option String → Option String → Option String
or_else none b = b
or_else (some s) b = if s == "" then b else some s

abbrev pub or_text : Option String → String → String
or_text none b = b
or_text (some s) b = if s == "" then b else s

abbrev bad_shape : ModuleResult
bad_shape = record {
  is_ok = false;
  code = none;
  message = none;
  details = none;
  path = none;
  valid_shape = false;
}

abbrev read_result : Option Value → Dict String Value → ModuleResult
read_result (some (bool b)) d = record {
  is_ok = b;
  code = text_of (lookup "code" d);
  message = text_of (lookup "message" d);
  details = text_of (lookup "details" d);
  path = text_of (lookup "path" d);
  valid_shape = true;
}
read_result _ d = bad_shape

-- `_normalize_module_result`: both branches read the same keys.
unfoldable pub normalize_module_result : RawResult → ModuleResult
unfolding lookup
normalize_module_result (mapping_result d) = read_result (lookup "ok" d) d
normalize_module_result (object_result d) = read_result (lookup "ok" d) d

-- `_normalize_rule_severity`
unfoldable pub normalize_rule_severity : Option String → ItemSeverity
unfolding strip upper_code same_codes
normalize_rule_severity none = fail
normalize_rule_severity (some hint) =
    let text = upper (strip (codes hint)) in
    if same_codes text (codes "WARN")
    then ItemSeverity.warn
    else if same_codes text (codes "DROP")
    then ItemSeverity.drop
    else ItemSeverity.fail

-- `_resolve_rule_value`
unfoldable pub resolve_rule_value : RulePlan → Record → Value
unfolding lookup
resolve_rule_value rule input = elim rule.applies_to_field [
  | none ↦ mapping (to_fields input)
  | some name ↦ get_or name missing input
]

-- `_default_path`
unfoldable pub default_path : RulePlan → String
default_path rule = elim rule.applies_to_field [ none ↦ "$" | some name ↦ "fields." ⧺ name ]

-- `_runtime_item`, always with FAIL.
abbrev pub runtime_item : String → String → RulePlan → ReportItem
runtime_item code message rule = record {
  code = code;
  message = message;
  path = default_path rule;
  rule_id = rule.rule_id;
  module_id = rule.module_id;
  severity = fail;
  severity_hint = rule.severity_hint;
}

abbrev pub failed_item : RulePlan → ModuleResult → ReportItem
failed_item rule result = record {
  code = or_text (or_else rule.on_fail_code result.code) "VALIDATION_FAILED";
  message =
      or_text (or_else rule.on_fail_message (or_else result.message result.details))
        ("Validation failed: " ⧺ rule.module_id);
  path = or_text result.path (default_path rule);
  rule_id = rule.rule_id;
  module_id = rule.module_id;
  severity = normalize_rule_severity rule.severity_hint;
  severity_hint = rule.severity_hint;
}

-- The part of the loop after the call of the module.
unfoldable pub check_result : RulePlan → Option RawResult → Option ReportItem
unfolding normalize_module_result default_path normalize_rule_severity
check_result rule none = some (
    runtime_item "EXEC_VALIDATION_MODULE_FAILED"
      ("Validation module '" ⧺ rule.module_id ⧺ "' failed during execution.") rule)
check_result rule (some raw) =
    let result = normalize_module_result raw in
    if result.valid_shape
    then (if result.is_ok then none else some (failed_item rule result))
    else some (
        runtime_item "EXEC_VALIDATION_BAD_RESULT"
          ("Validation module '" ⧺ rule.module_id ⧺ "' returned invalid result shape.") rule)

-- One round of the loop of `run_one`: the item that it appends, if any.
unfoldable pub run_rule : Catalog → Record → String → RulePlan → Option ReportItem
unfolding check_result resolve_rule_value default_path
run_rule catalog input profile rule = elim (catalog rule.module_id) [
  | none ↦ some (
      runtime_item "EXEC_VALIDATION_MODULE_NOT_FOUND"
        ("Validation module '" ⧺ rule.module_id ⧺ "' was not found in catalog.") rule)
  | some module' ↦
      check_result rule (module' (resolve_rule_value rule input) rule.config input profile)
]

abbrev pub append_item : Option ReportItem → List ReportItem → List ReportItem
append_item none items = items
append_item (some item) items = item ∷ items

-- `_rule_applies_to_mode`: no rule is gated.
unfoldable pub rule_applies_to_mode : RulePlan → String → Bool
rule_applies_to_mode rule profile = true

-- The loop of `run_one`.
unfoldable pub run_rules : Catalog → Record → String → List RulePlan → List ReportItem
unfolding run_rule rule_applies_to_mode
run_rules catalog input profile [] = []
run_rules catalog input profile (rule ∷ rules) =
    let rest = run_rules catalog input profile rules in
    if rule_applies_to_mode rule profile
    then append_item (run_rule catalog input profile rule) rest
    else rest
