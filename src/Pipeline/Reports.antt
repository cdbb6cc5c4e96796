-- ===== src/Pipeline/Reports.antt =====
-- What a report of a run says, in all its parts.
use product_feed_protocol.Prelude.{
  ℕ, ◌+◌, String, ◌≡◌, ◌⊎◌, inl, inr, refl, ap, ◌∙◌, arith, Bool, true, false, not, none, some,
  List, [], ◌∷◌, length, ◌==◌, string_eq, if◌then◌else◌,
}
use product_feed_protocol.Diagnostics.{Severity, error, warn, info, Diagnostic}
use product_feed_protocol.Diagnostics.Usage.{
  SeverityCounts, FeedUsage, bump, inc_processed, inc_error, inc_artifacts, inc_diagnostic,
  inc_diagnostics,
}
use product_feed_protocol.Pipeline.Steps.{
  RunReport, success, failed, ExecutionReport, counted_artifact, to_list, safe_diagnostics,
  final_usage, report_step,
}

-- All but the counts of the diagnostics.
record SameWork (u w : FeedUsage) : Type 0 where
  input : u.input_items_count ≡ w.input_items_count
  artifacts : u.artifacts_count ≡ w.artifacts_count
  processed : u.processed ≡ w.processed
  errors : u.errors ≡ w.errors

-- The counter of a severity.
abbrev pub counter_of : Severity → SeverityCounts → ℕ
counter_of error c = c.errors
counter_of warn c = c.warnings
counter_of info c = c.infos

abbrev is_same : Severity → Severity → Bool
is_same error error = true
is_same warn warn = true
is_same info info = true
is_same _ _ = false

-- How many of the diagnostics have the severity.
abbrev pub diagnostics_of : Severity → List Diagnostic → ℕ
diagnostics_of s [] = 0
diagnostics_of s (d ∷ ds) = (if is_same s d.severity then 1 else 0) + diagnostics_of s ds

SameWork-inc_diagnostics :
    (ds : List Diagnostic) (u : FeedUsage) → SameWork (inc_diagnostics ds u) u
unfolding inc_diagnostics inc_diagnostic
SameWork-inc_diagnostics [] u = record {
  input = refl;
  artifacts = refl;
  processed = refl;
  errors = refl;
}
SameWork-inc_diagnostics (d ∷ ds) u =
    let rest = SameWork-inc_diagnostics ds (inc_diagnostic d.severity u) in
    record {
      input = rest.input;
      artifacts = rest.artifacts;
      processed = rest.processed;
      errors = rest.errors;
    }

counter_of-bump :
    (s t : Severity) (c : SeverityCounts)
    → counter_of s (bump t c) ≡ counter_of s c + (if is_same s t then 1 else 0)
unfolding bump
counter_of-bump error error c = refl
counter_of-bump error warn c = omega arith
counter_of-bump error info c = omega arith
counter_of-bump warn error c = omega arith
counter_of-bump warn warn c = refl
counter_of-bump warn info c = omega arith
counter_of-bump info error c = omega arith
counter_of-bump info warn c = omega arith
counter_of-bump info info c = refl

counter_of-inc_diagnostics :
    (s : Severity) (ds : List Diagnostic) (u : FeedUsage)
    → counter_of s (inc_diagnostics ds u).diagnostics_count_by_severity
      ≡ counter_of s u.diagnostics_count_by_severity + diagnostics_of s ds
unfolding inc_diagnostics inc_diagnostic
counter_of-inc_diagnostics s [] u = omega arith
counter_of-inc_diagnostics s (d ∷ ds) u = omega (
  arith,
  counter_of-bump s d.severity u.diagnostics_count_by_severity,
  counter_of-inc_diagnostics s ds (inc_diagnostic d.severity u),
)

-- A run that succeeds published one artifact and processed all the items that it read. A run that fails
-- published none, processed none and counts one error.
pub record IsSuccess {P : Type 0} (r : ExecutionReport P) : Type 0 where
  pub succeeded : r.status ≡ success
  pub published : length r.artifacts ≡ 1
  pub one_artifact : r.usage.artifacts_count ≡ 1
  pub all_processed : r.usage.processed ≡ r.usage.input_items_count
  pub no_error : r.usage.errors ≡ 0

pub record IsFailure {P : Type 0} (r : ExecutionReport P) : Type 0 where
  pub has_failed : r.status ≡ failed
  pub unpublished : r.artifacts ≡ []
  pub no_artifact : r.usage.artifacts_count ≡ 0
  pub none_processed : r.usage.processed ≡ 0
  pub one_error : r.usage.errors ≡ 1

-- And under each severity as many diagnostics are counted as the report has of it.
pub record IsConsistent {P : Type 0} (r : ExecutionReport P) : Type 0 where
  pub outcome : IsSuccess r ⊎ IsFailure r
  pub all_counted :
      (s : Severity)
      → counter_of s r.usage.diagnostics_count_by_severity ≡ diagnostics_of s r.diagnostics

-- Nothing but items is counted yet.
pub record IsClean {P : Type 0} (ctx : RunReport P) : Type 0 where
  pub artifacts : ctx.collector.artifacts_count ≡ 0
  pub processed : ctx.collector.processed ≡ 0
  pub errors : ctx.collector.errors ≡ 0
  pub diagnostics : (s : Severity) → counter_of s ctx.collector.diagnostics_count_by_severity ≡ 0

module _ (sanitize_diagnostic : Diagnostic → Diagnostic) (sanitize_text : String → String) where
  final_failed :
      {P : Type 0} (ctx : RunReport P)
      → (ctx.failed_step == "") ≡ false
      → final_usage sanitize_diagnostic sanitize_text (not (ctx.failed_step == "")) ctx
        ≡ inc_error ctx.collector
  unfolding final_usage
  final_failed ctx f = ap (λ b. final_usage sanitize_diagnostic sanitize_text (not b) ctx) f

  final_succeeded :
      {P : Type 0} (ctx : RunReport P) (p : P)
      → ctx.artifact ≡ some p
      → (ctx.failed_step == "") ≡ true
      → final_usage sanitize_diagnostic sanitize_text (not (ctx.failed_step == "")) ctx
        ≡ inc_processed
            (inc_artifacts 1 ctx.collector).input_items_count
            (inc_artifacts 1 ctx.collector)
  unfolding final_usage inc_artifacts inc_processed
  final_succeeded ctx p a f =
      ap (λ b. final_usage sanitize_diagnostic sanitize_text (not b) ctx) f
      ∙ ap (λ o. let u = counted_artifact o ctx.collector in inc_processed u.input_items_count u) a

  pub report_failed :
      {P : Type 0} (ctx : RunReport P)
      → IsClean ctx
      → ctx.artifact ≡ none
      → (ctx.failed_step == "") ≡ false
      → IsConsistent (report_step sanitize_diagnostic sanitize_text ctx)
  unfolding report_step inc_error
  report_failed ctx clean a f =
      let u = final_usage sanitize_diagnostic sanitize_text (not (ctx.failed_step == "")) ctx in
      let ds = safe_diagnostics sanitize_diagnostic sanitize_text ctx in
      let work = SameWork-inc_diagnostics ds u in
      let last = final_failed ctx f in
      record {
        outcome = inr (record {
          has_failed = ap (λ b. if not b then failed else success) f;
          unpublished = ap to_list a;
          no_artifact = work.artifacts ∙ ap (λ w. w.artifacts_count) last ∙ clean.artifacts;
          none_processed = work.processed ∙ ap (λ w. w.processed) last ∙ clean.processed;
          one_error = work.errors ∙ ap (λ w. w.errors) last ∙ ap (λ n. n + 1) clean.errors;
        });
        all_counted = λ s. omega (
          arith,
          counter_of-inc_diagnostics s ds u,
          ap (λ (w : FeedUsage). counter_of s w.diagnostics_count_by_severity) last,
          clean.diagnostics s,
        );
      }

  pub report_succeeded :
      {P : Type 0} (ctx : RunReport P) (p : P)
      → IsClean ctx
      → ctx.artifact ≡ some p
      → (ctx.failed_step == "") ≡ true
      → IsConsistent (report_step sanitize_diagnostic sanitize_text ctx)
  unfolding report_step inc_artifacts inc_processed
  report_succeeded ctx p clean a f =
      let u = final_usage sanitize_diagnostic sanitize_text (not (ctx.failed_step == "")) ctx in
      let ds = safe_diagnostics sanitize_diagnostic sanitize_text ctx in
      let work = SameWork-inc_diagnostics ds u in
      let last = final_succeeded ctx p a f in
      record {
        outcome = inl (record {
          succeeded = ap (λ b. if not b then failed else success) f;
          published = ap (λ o. length (to_list o)) a;
          one_artifact =
              work.artifacts ∙ ap (λ w. w.artifacts_count) last ∙ ap (λ n. n + 1) clean.artifacts;
          all_processed = omega (
            arith,
            work.processed,
            work.input,
            ap (λ (w : FeedUsage). w.processed) last,
            ap (λ (w : FeedUsage). w.input_items_count) last,
            clean.processed,
          );
          no_error = work.errors ∙ ap (λ w. w.errors) last ∙ clean.errors;
        });
        all_counted = λ s. omega (
          arith,
          counter_of-inc_diagnostics s ds u,
          ap (λ (w : FeedUsage). counter_of s w.diagnostics_count_by_severity) last,
          clean.diagnostics s,
        );
      }
