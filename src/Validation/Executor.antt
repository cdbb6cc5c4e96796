-- ===== src/Validation/Executor.antt =====
-- `ValidationExecutor.run_one` after its loop: the order of the items, the strictness policy and the
-- decision.
use product_feed_protocol.Prelude.{
  String, Bool, true, false, not, Option, none, some, List, [], ◌∷◌, ◌++◌, map, any, length,
  nat_beq, if◌then◌else◌,
}
use product_feed_protocol.Text.Order.{texts_le}
use product_feed_protocol.Sorting.{sorted}
use product_feed_protocol.Value.{Record}
use product_feed_protocol.Diagnostics.{Severity, error, warn, Diagnostic}
use product_feed_protocol.Strictness.{StrictnessDecision}
use product_feed_protocol.Validation.{
  ItemSeverity, fail, drop, Decision, pass, RulePlan, ReportItem, Catalog, or_text, run_rules,
}

-- The sort key of an item.
abbrev pub item_key : ReportItem → List String
item_key item = item.module_id ∷ or_text item.rule_id "" ∷ item.path ∷ item.code ∷ item.message ∷ []

abbrev pub item_le : ReportItem → ReportItem → Bool
item_le a b = texts_le (item_key a) (item_key b)

unfoldable pub ordered_items : List ReportItem → List ReportItem
unfolding sorted texts_le
ordered_items = sorted item_le

abbrev pub is_fail : ReportItem → Bool
is_fail item = elim item.severity [ fail ↦ true | _ ↦ false ]

abbrev pub is_drop : ReportItem → Bool
is_drop item = elim item.severity [ drop ↦ true | _ ↦ false ]

abbrev pub is_warn : ReportItem → Bool
is_warn item = elim item.severity [ ItemSeverity.warn ↦ true | _ ↦ false ]

-- `_decision_without_policies`
unfoldable pub decision_without_policies : List ReportItem → Decision
decision_without_policies items =
    if any is_fail items
    then Decision.fail
    else if any is_drop items
    then Decision.drop
    else if any is_warn items
    then Decision.warn
    else pass

-- `_decision_from_strictness`
unfoldable pub decision_from_strictness : StrictnessDecision → List ReportItem → Decision
decision_from_strictness result items =
    if result.should_fail
    then Decision.fail
    else if result.drop_invalid
    then Decision.drop
    else if any is_drop items
    then Decision.drop
    else if any is_warn items
    then Decision.warn
    else pass

-- `_to_diagnostic_severity` and `_from_strictness_diagnostic`
abbrev pub to_diagnostic_severity : ItemSeverity → Severity
to_diagnostic_severity ItemSeverity.warn = warn
to_diagnostic_severity _ = error

abbrev pub from_strictness_diagnostic : Severity → Bool → ItemSeverity
from_strictness_diagnostic warn dropped = ItemSeverity.warn
from_strictness_diagnostic _ true = drop
from_strictness_diagnostic _ false = fail

abbrev pub to_diagnostic : ReportItem → Diagnostic
to_diagnostic item = record {
  severity = to_diagnostic_severity item.severity;
  code = item.code;
  message = item.message;
  path = some item.path;
  item_ref = none;
  metadata = [];
}

-- The items with the severities that the policy gave, pairwise as `zip` does.
unfoldable pub with_strictness : Bool → List ReportItem → List Diagnostic → List ReportItem
with_strictness dropped (item ∷ items) (d ∷ ds) =
    record item { severity = from_strictness_diagnostic d.severity dropped }
    ∷ with_strictness dropped items ds
with_strictness dropped _ _ = []

abbrev pub mismatch_item : ReportItem
mismatch_item = record {
  code = "EXEC_STRICTNESS_RESULT_LENGTH_MISMATCH";
  message = "Strictness diagnostics length mismatch, policy result ignored.";
  path = "$";
  rule_id = none;
  module_id = "strictness";
  severity = fail;
  severity_hint = none;
}

-- `ValidationExecutionResult`
pub record ExecutionResult : Type 0 where
  pub items : List ReportItem
  pub decision : Decision
  pub is_valid : Bool

abbrev pub is_failure : Decision → Bool
is_failure Decision.fail = true
is_failure _ = false

abbrev pub concluded : List ReportItem → Decision → ExecutionResult
concluded items decision = record {
  items = items;
  decision = decision;
  is_valid = not (is_failure decision);
}

-- The policy of a bundle: `strictness.apply`.
abbrev pub Policy : Type 0
Policy = List Diagnostic → StrictnessDecision

unfoldable pub apply_policy : Policy → List ReportItem → ExecutionResult
unfolding with_strictness decision_from_strictness decision_without_policies
apply_policy policy items =
    let result = policy (map to_diagnostic items) in
    let effective = with_strictness result.drop_invalid items result.diagnostics in
    let mismatched = items ++ mismatch_item ∷ [] in
    if nat_beq (length result.diagnostics) (length items)
    then concluded effective (decision_from_strictness result effective)
    else concluded mismatched (decision_without_policies mismatched)

unfoldable pub conclude : Option Policy → List ReportItem → ExecutionResult
unfolding apply_policy decision_without_policies
conclude policy [] = record { items = []; decision = pass; is_valid = true }
conclude none items = concluded items (decision_without_policies items)
conclude (some policy) items = apply_policy policy items

-- `run_one`
unfoldable pub run_one : Catalog → Option Policy → List RulePlan → Record → String → ExecutionResult
unfolding run_rules ordered_items conclude
run_one catalog policy rules input profile =
    conclude policy (ordered_items (run_rules catalog input profile rules))
