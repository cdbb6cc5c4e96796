-- ===== src/Pipeline/Runs.antt =====
-- What `PipelineRunner.run` promises of its report, and when it gives one.
use mathlib.Core.Path.{subst}
use product_feed_protocol.Prelude.{
  ℕ, String, ◌==◌, string_eq, ◌≡◌, inl, inr, refl, Bool, false, ◌&&◌, none, some, List, [], ◌∷◌,
  ◌++◌, if◌then◌else◌, Bool-cases,
}
use product_feed_protocol.Diagnostics.{Severity, error, warn, info, Diagnostic, has_errors}
use product_feed_protocol.Diagnostics.Usage.{reset, inc_input}
use product_feed_protocol.Pipeline.{
  Failure, Raised, extract_call_error, extract_iteration_error, core_error, core_contract_error,
  publish_error, Result, ok, raise, guard_core, guard_publish, guard_extract, Stream,
  guard_ingestion_stream,
}
use product_feed_protocol.Pipeline.Steps.{
  Extract, Call, RunReport, ExecutionReport, fail, report_step, handle_core, handle_publish,
  run_publish, run_first, run_produced, run_extracted, run, started, validation_failed,
}
use product_feed_protocol.Pipeline.Reports.{
  counter_of, IsClean, IsConsistent, report_failed, report_succeeded,
}

counter_of-reset : (s : Severity) → counter_of s reset.diagnostics_count_by_severity ≡ 0
counter_of-reset error = refl
counter_of-reset warn = refl
counter_of-reset info = refl

abbrev pub IsGood : {P : Type 0} → Result (ExecutionReport P) → Type 0
IsGood (ok r) = IsConsistent r
IsGood (raise _) = Unit

module _ (sanitize_diagnostic : Diagnostic → Diagnostic) (sanitize_text : String → String)
    {I R P : Type 0} (fail_on_error_diagnostics : Bool) (extract : Result (Extract I))
    (produce : Stream I → Call (List R)) (publish : R → Call P) where
  IsClean-read :
      (n : ℕ) (ctx : RunReport P)
      → IsClean ctx
      → IsClean (record ctx { collector = inc_input n ctx.collector })
  unfolding inc_input
  IsClean-read n ctx c = record {
    artifacts = c.artifacts;
    processed = c.processed;
    errors = c.errors;
    diagnostics = c.diagnostics;
  }

  failing-IsConsistent :
      (step reason : String) (f : Failure) (ctx : RunReport P)
      → IsClean ctx
      → ctx.artifact ≡ none
      → (step == "") ≡ false
      → IsConsistent (report_step sanitize_diagnostic sanitize_text (fail step reason f ctx))
  unfolding fail
  failing-IsConsistent step reason f ctx c a named =
      report_failed sanitize_diagnostic sanitize_text (fail step reason f ctx)
        (record {
          artifacts = c.artifacts;
          processed = c.processed;
          errors = c.errors;
          diagnostics = c.diagnostics;
        })
        a named

  handle_core-IsGood :
      (r : Raised) (ctx : RunReport P)
      → IsClean ctx
      → ctx.artifact ≡ none
      → IsGood (
          handle_core sanitize_diagnostic sanitize_text fail_on_error_diagnostics extract produce
            publish r ctx)
  unfolding handle_core
  handle_core-IsGood (extract_iteration_error f) ctx c a = failing-IsConsistent _ _ f ctx c a refl
  handle_core-IsGood (core_contract_error f) ctx c a = failing-IsConsistent _ _ f ctx c a refl
  handle_core-IsGood (core_error f) ctx c a = failing-IsConsistent _ _ f ctx c a refl
  handle_core-IsGood _ ctx c a = tt

  handle_publish-IsGood :
      (r : Raised) (ctx : RunReport P)
      → IsClean ctx
      → ctx.artifact ≡ none
      → IsGood (
          handle_publish sanitize_diagnostic sanitize_text fail_on_error_diagnostics extract produce
            publish r ctx)
  unfolding handle_publish
  handle_publish-IsGood (publish_error f) ctx c a = failing-IsConsistent _ _ f ctx c a refl
  handle_publish-IsGood _ ctx c a = tt

  run_publish-IsGood :
      (artifact : R) (ds : List Diagnostic) (ctx : RunReport P)
      → IsClean ctx
      → ctx.artifact ≡ none
      → ctx.failed_step ≡ ""
      → IsGood (
          run_publish sanitize_diagnostic sanitize_text fail_on_error_diagnostics extract produce
            publish artifact ds ctx)
  unfolding run_publish
  run_publish-IsGood artifact ds ctx c a s =
      let call = publish artifact in
      let read = record ctx {
        collector = inc_input call.consumed ctx.collector;
        validation_report = some (ds ++ call.diagnostics);
      } in
      let clean : IsClean read = record {
        artifacts = (IsClean-read call.consumed ctx c).artifacts;
        processed = (IsClean-read call.consumed ctx c).processed;
        errors = (IsClean-read call.consumed ctx c).errors;
        diagnostics = (IsClean-read call.consumed ctx c).diagnostics;
      } in
      elim (guard_publish call.result)
        as (λ (g : Result P). IsGood (elim g [
          | ok published ↦ ok (
              report_step sanitize_diagnostic sanitize_text
                (record read { artifact = some published }))
          | raise r ↦
              handle_publish sanitize_diagnostic sanitize_text fail_on_error_diagnostics extract
                produce publish r read
        ])) [
          | ok published ↦
              report_succeeded sanitize_diagnostic sanitize_text
                (record read { artifact = some published }) published
                (record {
                  artifacts = clean.artifacts;
                  processed = clean.processed;
                  errors = clean.errors;
                  diagnostics = clean.diagnostics;
                })
                refl (rw s refl)
          | raise r ↦ handle_publish-IsGood r read clean a
        ]

  run_first-IsGood :
      (artifacts : List R) (ds : List Diagnostic) (ctx : RunReport P)
      → IsClean ctx
      → ctx.artifact ≡ none
      → ctx.failed_step ≡ ""
      → IsGood (
          run_first sanitize_diagnostic sanitize_text fail_on_error_diagnostics extract produce
            publish artifacts ds ctx)
  unfolding run_first
  run_first-IsGood [] ds ctx c a s = tt
  run_first-IsGood (artifact ∷ _) ds ctx c a s = run_publish-IsGood artifact ds ctx c a s

  run_produced-IsGood :
      (call : Call (List R)) (ctx : RunReport P)
      → IsClean ctx
      → ctx.artifact ≡ none
      → ctx.failed_step ≡ ""
      → IsGood (
          run_produced sanitize_diagnostic sanitize_text fail_on_error_diagnostics extract produce
            publish call ctx)
  unfolding run_produced
  run_produced-IsGood call ctx c a s =
      let reported = record ctx { validation_report = some call.diagnostics } in
      let clean : IsClean reported = record {
        artifacts = c.artifacts;
        processed = c.processed;
        errors = c.errors;
        diagnostics = c.diagnostics;
      } in
      elim (guard_core call.result)
        as (λ (g : Result (List R)). IsGood (elim g [
          | raise r ↦
              handle_core sanitize_diagnostic sanitize_text fail_on_error_diagnostics extract
                produce publish r ctx
          | ok artifacts ↦
              if fail_on_error_diagnostics && has_errors call.diagnostics
              then ok (report_step sanitize_diagnostic sanitize_text (validation_failed reported))
              else run_first sanitize_diagnostic sanitize_text fail_on_error_diagnostics extract
                  produce publish artifacts call.diagnostics reported
        ])) [
          | raise r ↦ handle_core-IsGood r ctx c a
          | ok artifacts ↦
              elim (Bool-cases (fail_on_error_diagnostics && has_errors call.diagnostics)) [
                | inl t ↦ rw t (
                    report_failed sanitize_diagnostic sanitize_text (validation_failed reported)
                      (record {
                        artifacts = c.artifacts;
                        processed = c.processed;
                        errors = c.errors;
                        diagnostics = c.diagnostics;
                      })
                      a refl)
                | inr f ↦ rw f (run_first-IsGood artifacts call.diagnostics reported clean a s)
              ]
        ]

  IsClean-start :
      (ds : List Diagnostic) (n : ℕ)
      → IsClean {P = P}
          (record started { ingestion_diagnostics = ds; collector = inc_input n reset })
  unfolding inc_input
  IsClean-start ds n = record {
    artifacts = refl;
    processed = refl;
    errors = refl;
    diagnostics = counter_of-reset;
  }

  run_extracted-IsGood :
      (e : Result (Extract I))
      → IsGood (
          run_extracted sanitize_diagnostic sanitize_text fail_on_error_diagnostics extract produce
            publish e)
  unfolding run_extracted
  run_extracted-IsGood (raise (extract_call_error f)) =
      failing-IsConsistent _ _ f started
        (record {
          artifacts = refl;
          processed = refl;
          errors = refl;
          diagnostics = counter_of-reset;
        })
        refl refl
  run_extracted-IsGood (raise _) = tt
  run_extracted-IsGood (ok extracted) =
      let call = produce (guard_ingestion_stream extracted.stream) in
      run_produced-IsGood call _ (IsClean-start extracted.diagnostics call.consumed) refl refl

  run-IsGood :
      IsGood
        (run sanitize_diagnostic sanitize_text fail_on_error_diagnostics extract produce publish)
  unfolding run
  run-IsGood = run_extracted-IsGood (guard_extract extract)

  -- Every report of a run is consistent, whatever the connector, the producer and the publisher do: it tells of a success
  -- with one artifact, with all the items that were read processed and without an error, or of a failure with no artifact, no item
  -- processed and one error; and under each of the three severities it counts as many diagnostics as it has of it.
  pub run-IsConsistent :
      (r : ExecutionReport P)
      → run sanitize_diagnostic sanitize_text fail_on_error_diagnostics extract produce publish
        ≡ ok r
      → IsConsistent r
  run-IsConsistent r h = subst IsGood h run-IsGood
