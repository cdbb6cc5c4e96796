-- ===== src/Validation/Conclusion.antt =====
-- What `run_one` concludes from the items, in any order, and what it keeps of them.
use mathlib.Core.List.{Perm}
use mathlib.Core.List.Perm
use product_feed_protocol.Prelude.{
  String, ◌≡◌, refl, sym, ◌∙◌, arith, Bool, true, false, none, some, List, [], ◌∷◌, map, any,
  length, length-map, nat_beq, nat_beq_iff,
}
use product_feed_protocol.Text.Order.{texts_le}
use product_feed_protocol.Sorting.{sorted, insert_by, IsSorted, any-sorted}
use product_feed_protocol.Value.{Record}
use product_feed_protocol.Strictness.{
  StrictnessMode, fail_on_error, drop_invalid, warn_only, apply, length-apply,
}
use product_feed_protocol.Validation.{
  fail, warn, drop, Decision, pass, RulePlan, ReportItem, Catalog, run_rules,
}
use product_feed_protocol.Validation.Executor.{
  item_le, ordered_items, is_fail, is_drop, is_warn, decision_without_policies,
  decision_from_strictness, to_diagnostic, with_strictness, apply_policy, conclude, run_one,
  concluded,
}
use product_feed_protocol.Validation.Verdicts.{
  is_blocking, is_empty, verdict, has_errors-to_diagnostic, decision-fail_on_error,
  decision-drop_invalid, decision-warn_only,
}

same_length :
    (mode : StrictnessMode) (items : List ReportItem)
    → nat_beq (length (apply mode (map to_diagnostic items)).diagnostics) (length items) ≡ true
same_length mode items =
    (nat_beq_iff _ _).1
      (length-apply mode (map to_diagnostic items) ∙ length-map to_diagnostic items)

-- A policy of this code never takes the branch of the length mismatch.
apply_policy-apply :
    (mode : StrictnessMode) (items : List ReportItem)
    → apply_policy (apply mode) items ≡ (
        let result = apply mode (map to_diagnostic items) in
        let effective = with_strictness result.drop_invalid items result.diagnostics in
        concluded effective (decision_from_strictness result effective))
unfolding apply_policy
apply_policy-apply mode items = rw (same_length mode items) refl

decision-apply_policy :
    (mode : StrictnessMode) (x : ReportItem) (xs : List ReportItem)
    → (apply_policy (apply mode) (x ∷ xs)).decision ≡ verdict mode (x ∷ xs)
unfolding apply
decision-apply_policy fail_on_error x xs =
    rw (apply_policy-apply fail_on_error (x ∷ xs)) (decision-fail_on_error x xs)
decision-apply_policy drop_invalid x xs =
    rw (apply_policy-apply drop_invalid (x ∷ xs))
      (decision-drop_invalid x xs _ (sym (has_errors-to_diagnostic (x ∷ xs))))
decision-apply_policy warn_only x xs =
    rw (apply_policy-apply warn_only (x ∷ xs)) (decision-warn_only x xs)

decision-conclude :
    (mode : StrictnessMode) (items : List ReportItem)
    → (conclude (some (apply mode)) items).decision ≡ verdict mode items
unfolding conclude verdict
decision-conclude mode [] = refl
decision-conclude mode (x ∷ xs) = decision-apply_policy mode x xs

is_empty-insert_by :
    (x : ReportItem) (ys : List ReportItem) → is_empty (insert_by item_le x ys) ≡ false
unfolding insert_by
is_empty-insert_by x [] = refl
is_empty-insert_by x (y ∷ ys) = ground arith

is_empty-ordered_items : (items : List ReportItem) → is_empty (ordered_items items) ≡ is_empty items
unfolding ordered_items sorted
is_empty-ordered_items [] = refl
is_empty-ordered_items (x ∷ xs) = is_empty-insert_by x (sorted item_le xs)

any-ordered_items :
    (p : ReportItem → Bool) (items : List ReportItem) → any p (ordered_items items) ≡ any p items
unfolding ordered_items
any-ordered_items p items = any-sorted item_le p items

verdict-ordered_items :
    (mode : StrictnessMode) (items : List ReportItem)
    → verdict mode (ordered_items items) ≡ verdict mode items
unfolding verdict
verdict-ordered_items fail_on_error items =
    rw (is_empty-ordered_items items, any-ordered_items is_blocking items) refl
verdict-ordered_items drop_invalid items =
    rw (is_empty-ordered_items items, any-ordered_items is_blocking items) refl
verdict-ordered_items warn_only items = rw (is_empty-ordered_items items) refl

-- Under a strictness mode the decision of a record is the one that the items of its rules call for, in whatever order
-- they are listed: no item passes; else the mode decides by whether an item is more than a warning.
pub decision-run_one :
    (mode : StrictnessMode) (catalog : Catalog) (rules : List RulePlan) (input : Record)
    (profile : String)
    → (run_one catalog (some (apply mode)) rules input profile).decision
      ≡ verdict mode (run_rules catalog input profile rules)
unfolding run_one
decision-run_one mode catalog rules input profile =
    decision-conclude mode _ ∙ verdict-ordered_items mode (run_rules catalog input profile rules)

-- The worse of two decisions: FAIL, DROP, WARN, PASS.
abbrev pub worse : Decision → Decision → Decision
worse Decision.fail _ = Decision.fail
worse Decision.drop Decision.fail = Decision.fail
worse Decision.drop _ = Decision.drop
worse Decision.warn pass = Decision.warn
worse Decision.warn d = d
worse pass d = d

abbrev pub called_for : ReportItem → Decision
called_for item = elim item.severity [
  | fail ↦ Decision.fail
  | warn ↦ Decision.warn
  | drop ↦ Decision.drop
]

unfoldable pub worst : List ReportItem → Decision
worst [] = pass
worst (x ∷ xs) = worse (called_for x) (worst xs)

decision_without_policies-eq-worst :
    (items : List ReportItem) → decision_without_policies items ≡ worst items
unfolding decision_without_policies worst
decision_without_policies-eq-worst [] = refl
decision_without_policies-eq-worst (x ∷ xs) = ground (arith, decision_without_policies-eq-worst xs)

decision_without_policies-ordered_items :
    (items : List ReportItem)
    → decision_without_policies (ordered_items items) ≡ decision_without_policies items
unfolding decision_without_policies
decision_without_policies-ordered_items items =
    rw
      (
        any-ordered_items is_fail items,
        any-ordered_items is_drop items,
        any-ordered_items is_warn items,
      )
      refl

decision-conclude-none :
    (items : List ReportItem) → (conclude none items).decision ≡ decision_without_policies items
unfolding conclude decision_without_policies
decision-conclude-none [] = refl
decision-conclude-none (x ∷ xs) = refl

-- Without policies the decision of a record is the worst that an item of its rules calls for.
pub decision-run_one_without_policies :
    (catalog : Catalog) (rules : List RulePlan) (input : Record) (profile : String)
    → (run_one catalog none rules input profile).decision
      ≡ worst (run_rules catalog input profile rules)
unfolding run_one
decision-run_one_without_policies catalog rules input profile =
    decision-conclude-none (ordered_items (run_rules catalog input profile rules))
    ∙ decision_without_policies-ordered_items (run_rules catalog input profile rules)
    ∙ decision_without_policies-eq-worst (run_rules catalog input profile rules)

-- The keys of a list of keys, each before those that follow it.
abbrev pub InOrder : List (List String) → Type 0
InOrder = IsSorted texts_le
