-- ===== src/Strictness.antt =====
-- pfp_core/policies/domain/strictness.py
use product_feed_protocol.Prelude.{
  String, ◌≡◌, refl, arith, Bool, false, Option, none, some, List, [], ◌∷◌, map, length, length-map,
  if◌then◌else◌,
}
use product_feed_protocol.Text.{codes, strip, lower, lower_code, same_codes}
use product_feed_protocol.Diagnostics.{Severity, warn, Diagnostic, is_error, has_errors}

pub data StrictnessMode : Type 0 where
  fail_on_error drop_invalid warn_only : StrictnessMode

-- `StrictnessMode.normalize` of a text; `none` is its `ValueError`.
unfoldable pub normalize : String → Option StrictnessMode
unfolding strip same_codes lower_code
normalize value =
    let text = lower (strip (codes value)) in
    if same_codes text (codes "fail_on_error")
    then some fail_on_error
    else if same_codes text (codes "drop_invalid")
    then some drop_invalid
    else if same_codes text (codes "warn_only")
    then some warn_only
    else none

pub record StrictnessDecision : Type 0 where
  pub diagnostics : List Diagnostic
  pub should_fail : Bool
  pub drop_invalid : Bool

abbrev pub with_severity : Diagnostic → Severity → Diagnostic
with_severity d s = record d { severity = s }

-- One round of `_downgrade_errors`.
unfoldable pub downgrade : Diagnostic → Diagnostic
downgrade d = if is_error d.severity then with_severity d warn else d

unfoldable pub downgrade_errors : List Diagnostic → List Diagnostic
unfolding downgrade
downgrade_errors ds = map downgrade ds

-- `StrictnessPolicy.apply`, without its telemetry.
unfoldable pub apply : StrictnessMode → List Diagnostic → StrictnessDecision
unfolding has_errors downgrade_errors
apply fail_on_error ds = record {
  diagnostics = ds;
  should_fail = has_errors ds;
  drop_invalid = false;
}
apply drop_invalid ds = record {
  diagnostics = ds;
  should_fail = false;
  drop_invalid = has_errors ds;
}
apply warn_only ds = record {
  diagnostics = downgrade_errors ds;
  should_fail = false;
  drop_invalid = false;
}

-- The policy returns as many diagnostics as it is given.
pub length-apply :
    (mode : StrictnessMode) (ds : List Diagnostic) → length (apply mode ds).diagnostics ≡ length ds
unfolding apply
length-apply fail_on_error ds = refl
length-apply drop_invalid ds = refl
length-apply warn_only ds = length-map downgrade ds

pub no_errors-downgrade_errors : (ds : List Diagnostic) → has_errors (downgrade_errors ds) ≡ false
unfolding has_errors downgrade_errors
no_errors-downgrade_errors [] = refl
no_errors-downgrade_errors (d ∷ ds) = ground (arith, no_errors-downgrade_errors ds)
