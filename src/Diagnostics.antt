-- ===== src/Diagnostics.antt =====
-- pfp_utils/diagnostics: severities, diagnostics, and the usage counters of a run.
pub mod Usage
use product_feed_protocol.Prelude.{
  ℕ, String, ◌≡◌, refl, Bool, true, false, Option, none, some, List, [], ◌∷◌, any, if◌then◌else◌,
}
use product_feed_protocol.Dict.{Dict}
use product_feed_protocol.Text.{codes, strip, upper, upper_code, same_codes}

-- `DiagnosticSeverity`
pub data Severity : Type 0 where
  error warn info : Severity

-- `DiagnosticSeverity.normalize` of a text; `none` is its `ValueError`.
unfoldable pub normalize : String → Option Severity
unfolding strip same_codes upper_code
normalize value =
    let text = upper (strip (codes value)) in
    if same_codes text (codes "ERROR")
    then some error
    else if same_codes text (codes "WARN")
    then some warn
    else if same_codes text (codes "WARNING")
    then some warn
    else if same_codes text (codes "INFO")
    then some info
    else none

abbrev pub rank : Severity → ℕ
rank error = 0
rank warn = 1
rank info = 2

-- `Diagnostic`; its constructor normalises the severity. Of the metadata the program writes texts.
pub record Diagnostic : Type 0 where
  pub severity : Severity
  pub code : String
  pub message : String
  pub path : Option String
  pub item_ref : Option String
  pub metadata : Dict String String

abbrev pub is_error : Severity → Bool
is_error error = true
is_error _ = false

-- `_has_errors`, and `_has_error_diagnostics` of the runner.
unfoldable pub has_errors : List Diagnostic → Bool
has_errors ds = any (λ d. is_error d.severity) ds

normalize_warning : normalize " warning " ≡ some warn
unfolding normalize
normalize_warning = refl
