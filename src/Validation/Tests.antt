-- ===== src/Validation/Tests.antt =====
-- The validation of a small record.
use product_feed_protocol.Prelude.{
  String, ◌≡◌, refl, Bool, true, false, Option, none, some, List, [], ◌∷◌, ◌==◌, string_eq,
  if◌then◌else◌,
}
use product_feed_protocol.Value.{Value, missing, bool, str, Record}
use product_feed_protocol.Strictness.{drop_invalid, apply}
use product_feed_protocol.Validation.{
  Decision, RulePlan, Module, Catalog, mapping_result, run_rules,
}
use product_feed_protocol.Validation.Executor.{run_one}
use product_feed_protocol.Validation.Verdicts.{verdict}
use product_feed_protocol.Validation.Conclusion.{decision-run_one}

-- A text must be there.
abbrev is_present : Value → Bool
is_present (str s) = true
is_present _ = false

abbrev required : Module
required v config input profile = some (mapping_result (("ok", bool (is_present v)) ∷ []))

abbrev catalog : Catalog
catalog name = if name == "required" then some required else none

abbrev rule_for : String → Option String → RulePlan
rule_for field hint = record {
  module_id = "required";
  rule_id = some field;
  applies_to_field = some field;
  config = [];
  on_fail_code = none;
  on_fail_message = none;
  severity_hint = hint;
  expected_value_type = none;
}

abbrev rules : List RulePlan
rules = rule_for "title" none ∷ rule_for "brand" (some " warn ") ∷ rule_for "id" none ∷ []

abbrev product : Record
product = ("id", str "17") ∷ ("link", missing) ∷ []

dropped :
    (run_one catalog (some (apply drop_invalid)) rules product "full").decision ≡ Decision.drop
unfolding run_one apply
dropped = refl

decision-run_one_example :
    (run_one catalog (some (apply drop_invalid)) rules product "full").decision
    ≡ verdict drop_invalid (run_rules catalog product "full" rules)
decision-run_one_example = decision-run_one drop_invalid catalog rules product "full"
