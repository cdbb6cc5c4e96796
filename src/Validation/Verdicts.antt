-- ===== src/Validation/Verdicts.antt =====
-- What the items and the decision of `run_one` say of the rules.
use product_feed_protocol.Prelude.{
  ◌≡◌, refl, arith, Bool, true, false, not, List, [], ◌∷◌, map, any, if◌then◌else◌,
}
use product_feed_protocol.Diagnostics.{Diagnostic, has_errors}
use product_feed_protocol.Strictness.{
  StrictnessMode, fail_on_error, drop_invalid, warn_only, apply, downgrade_errors,
}
use product_feed_protocol.Validation.{Decision, pass, ReportItem}
use product_feed_protocol.Validation.Executor.{
  is_drop, is_warn, decision_from_strictness, to_diagnostic, with_strictness,
}

-- An item that is more than a warning.
abbrev pub is_blocking : ReportItem → Bool
is_blocking item = not (is_warn item)

abbrev pub is_empty : List ReportItem → Bool
is_empty [] = true
is_empty (_ ∷ _) = false

-- The decision under each strictness mode, read off the items in any order.
unfoldable pub verdict : StrictnessMode → List ReportItem → Decision
verdict mode items = if is_empty items then pass else elim mode [
  | fail_on_error ↦ if any is_blocking items then Decision.fail else Decision.warn
  | drop_invalid ↦ if any is_blocking items then Decision.drop else Decision.warn
  | warn_only ↦ Decision.warn
]

pub has_errors-to_diagnostic :
    (items : List ReportItem) → has_errors (map to_diagnostic items) ≡ any is_blocking items
unfolding has_errors
has_errors-to_diagnostic [] = refl
has_errors-to_diagnostic (x ∷ xs) = ground (arith, has_errors-to_diagnostic xs)

no_drop :
    (items : List ReportItem) (ds : List Diagnostic)
    → any is_drop (with_strictness false items ds) ≡ false
unfolding with_strictness
no_drop [] ds = refl
no_drop (x ∷ xs) [] = refl
no_drop (x ∷ xs) (d ∷ ds) = ground (arith, no_drop xs ds)

warns_kept :
    (dropped : Bool) (items : List ReportItem)
    → any is_warn (with_strictness dropped items (map to_diagnostic items)) ≡ any is_warn items
unfolding with_strictness
warns_kept dropped [] = refl
warns_kept dropped (x ∷ xs) = ground (arith, warns_kept dropped xs)

no_block-no_drop :
    (dropped : Bool) (items : List ReportItem)
    → any is_blocking items ≡ false
    → any is_drop (with_strictness dropped items (map to_diagnostic items)) ≡ false
unfolding with_strictness
no_block-no_drop dropped [] h = refl
no_block-no_drop dropped (x ∷ xs) h = ground (arith, no_block-no_drop dropped xs)

downgraded_warns :
    (x : ReportItem) (xs : List ReportItem)
    → any is_warn (with_strictness false (x ∷ xs) (downgrade_errors (map to_diagnostic (x ∷ xs))))
      ≡ true
unfolding with_strictness downgrade_errors
downgraded_warns x xs = ground arith

module _ (x : ReportItem) (xs : List ReportItem) where
  abbrev items : List ReportItem
  items = x ∷ xs

  pub decision-fail_on_error :
      decision_from_strictness
        (apply fail_on_error (map to_diagnostic items))
        (with_strictness false items (map to_diagnostic items))
      ≡ verdict fail_on_error items
  unfolding decision_from_strictness apply verdict
  decision-fail_on_error =
      rw
        (
          has_errors-to_diagnostic items,
          no_drop items (map to_diagnostic items),
          warns_kept false items,
        )
        (ground arith)

  pub decision-drop_invalid :
      (b : Bool)
      → any is_blocking items ≡ b
      → decision_from_strictness
          (apply drop_invalid (map to_diagnostic items))
          (with_strictness b items (map to_diagnostic items))
        ≡ verdict drop_invalid items
  unfolding decision_from_strictness apply verdict
  decision-drop_invalid true h = rw (has_errors-to_diagnostic items, h) refl
  decision-drop_invalid false h =
      rw (has_errors-to_diagnostic items, no_block-no_drop false items h, warns_kept false items)
        (ground arith)

  pub decision-warn_only :
      decision_from_strictness
        (apply warn_only (map to_diagnostic items))
        (with_strictness false items (downgrade_errors (map to_diagnostic items)))
      ≡ verdict warn_only items
  unfolding decision_from_strictness apply verdict
  decision-warn_only =
      rw (no_drop items (downgrade_errors (map to_diagnostic items)), downgraded_warns x xs) refl
