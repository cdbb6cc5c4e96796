-- ===== src/Pipeline/Steps.antt =====
-- `PipelineRunner.run` and `report_step`. The connector, the producer and the publisher are
-- parameters, as they come with the manifest; so are the sanitizers. The payload of an artifact is
-- lazy: the producer and the publisher both may read items of the stream, and what the publisher
-- reads may add to the validation report.
use product_feed_protocol.Prelude.{
  ℕ, String, Bool, true, false, not, ◌&&◌, Option, none, some, List, [], ◌∷◌, ◌++◌, map, ◌==◌,
  string_eq, if◌then◌else◌,
}
use product_feed_protocol.Diagnostics.{Diagnostic, has_errors}
use product_feed_protocol.Diagnostics.Usage.{
  FeedUsage, reset, inc_input, inc_processed, inc_error, inc_artifacts, inc_diagnostics,
}
use product_feed_protocol.Pipeline.{
  Failure, Raised, plain, extract_call_error, extract_iteration_error, core_error,
  core_contract_error, publish_error, Result, ok, raise, guard_core, guard_publish, guard_extract,
  Stream, guard_ingestion_stream, resolve_ingestion_reason_code, resolve_core_reason_code,
  resolve_publish_reason_code, other_error,
}

-- What a connector's `extract` returns.
pub record Extract (I : Type 0) : Type 0 where
  pub stream : Stream I
  pub diagnostics : List Diagnostic

-- What a call does: its result, how many items it reads, and the diagnostics that it adds to the
-- validation report.
pub record Call (A : Type 0) : Type 0 where
  pub result : Result A
  pub consumed : ℕ
  pub diagnostics : List Diagnostic

-- `RunReport`, less the times and the identifiers of the run.
pub record RunReport (P : Type 0) : Type 0 where
  pub collector : FeedUsage
  pub ingestion_diagnostics : List Diagnostic
  pub validation_report : Option (List Diagnostic)
  pub artifact : Option P
  pub failed_step : String
  pub reason_code : String
  pub message : String
  pub error_type : Option String

pub data Status : Type 0 where
  success failed : Status

-- `ExecutionReport`
pub record ExecutionReport (P : Type 0) : Type 0 where
  pub status : Status
  pub failed_step : String
  pub reason_code : String
  pub message : String
  pub diagnostics : List Diagnostic
  pub artifacts : List P
  pub usage : FeedUsage
  pub error_type : Option String

-- `RunReport.fail`
unfoldable pub fail : {P : Type 0} → String → String → Failure → RunReport P → RunReport P
fail failed_step reason_code original ctx = record ctx {
  failed_step = failed_step;
  reason_code = reason_code;
  message = original.message;
  error_type = some original.type_name;
}

abbrev pub or_none : Option (List Diagnostic) → List Diagnostic
or_none none = []
or_none (some ds) = ds

abbrev pub to_list : {P : Type 0} → Option P → List P
to_list none = []
to_list (some p) = p ∷ []

abbrev pub counted_artifact : {P : Type 0} → Option P → FeedUsage → FeedUsage
counted_artifact none u = u
counted_artifact (some p) u = inc_artifacts 1 u

abbrev pub started : {P : Type 0} → RunReport P
started = record {
  collector = reset;
  ingestion_diagnostics = [];
  validation_report = none;
  artifact = none;
  failed_step = "";
  reason_code = "";
  message = "";
  error_type = none;
}

abbrev pub validation_failed : {P : Type 0} → RunReport P → RunReport P
validation_failed ctx = record ctx {
  failed_step = "CORE_BUILD";
  reason_code = "CORE.VALIDATION_FAILED";
  message = "Validation report contains ERROR diagnostics";
}

module _ (sanitize_diagnostic : Diagnostic → Diagnostic) (sanitize_text : String → String) where
  abbrev pub safe_diagnostics : {P : Type 0} → RunReport P → List Diagnostic
  safe_diagnostics ctx =
      map sanitize_diagnostic (or_none ctx.validation_report)
      ++ map sanitize_diagnostic ctx.ingestion_diagnostics

  unfoldable pub final_usage : {P : Type 0} → Bool → RunReport P → FeedUsage
  unfolding inc_error inc_artifacts inc_processed
  final_usage true ctx = inc_error ctx.collector
  final_usage false ctx =
      let u = counted_artifact ctx.artifact ctx.collector in inc_processed u.input_items_count u

  -- `report_step`
  unfoldable pub report_step : {P : Type 0} → RunReport P → ExecutionReport P
  unfolding final_usage inc_diagnostics
  report_step ctx =
      let is_failed = not (ctx.failed_step == "") in
      record {
        status = if is_failed then failed else success;
        failed_step = ctx.failed_step;
        reason_code = ctx.reason_code;
        message =
            if is_failed then sanitize_text ctx.message else "Pipeline completed successfully";
        diagnostics = safe_diagnostics ctx;
        artifacts = to_list ctx.artifact;
        usage = inc_diagnostics (safe_diagnostics ctx) (final_usage is_failed ctx);
        error_type = ctx.error_type;
      }

  module _ {I R P : Type 0} (fail_on_error_diagnostics : Bool) (extract : Result (Extract I))
      (produce : Stream I → Call (List R)) (publish : R → Call P) where
    abbrev pub failing : String → String → Failure → RunReport P → Result (ExecutionReport P)
    failing step reason f ctx = ok (report_step (fail step reason f ctx))

    -- The handlers of the core step: any other exception leaves `run`.
    unfoldable pub handle_core : Raised → RunReport P → Result (ExecutionReport P)
    unfolding report_step fail resolve_ingestion_reason_code resolve_core_reason_code
    handle_core (extract_iteration_error f) ctx =
        failing "INGESTION_EXTRACT" (resolve_ingestion_reason_code f) f ctx
    handle_core (core_contract_error f) ctx =
        failing "CORE_BUILD" (resolve_core_reason_code f) f ctx
    handle_core (core_error f) ctx = failing "INTERNAL" (resolve_core_reason_code f) f ctx
    handle_core r ctx = raise r

    unfoldable pub handle_publish : Raised → RunReport P → Result (ExecutionReport P)
    unfolding report_step fail resolve_publish_reason_code
    handle_publish (publish_error f) ctx = failing "PUBLISH" (resolve_publish_reason_code f) f ctx
    handle_publish r ctx = raise r

    -- The publish step, with the report that the core step left.
    unfoldable pub run_publish : R → List Diagnostic → RunReport P → Result (ExecutionReport P)
    unfolding guard_publish handle_publish report_step inc_input
    run_publish artifact ds ctx =
        let call = publish artifact in
        let read = record ctx {
          collector = inc_input call.consumed ctx.collector;
          validation_report = some (ds ++ call.diagnostics);
        } in
        elim (guard_publish call.result) [
          | ok published ↦ ok (report_step (record read { artifact = some published }))
          | raise r ↦ handle_publish r read
        ]

    -- `core_result.artifacts[0]` raises an `IndexError` when there is none, outside the guard.
    unfoldable pub run_first : List R → List Diagnostic → RunReport P → Result (ExecutionReport P)
    unfolding run_publish
    run_first [] ds ctx = raise (
        plain (record {
          kind = other_error;
          message = "tuple index out of range";
          type_name = "IndexError";
        }))
    run_first (artifact ∷ _) ds ctx = run_publish artifact ds ctx

    unfoldable pub run_produced : Call (List R) → RunReport P → Result (ExecutionReport P)
    unfolding guard_core handle_core run_first report_step
    run_produced call ctx = elim (guard_core call.result) [
      | raise r ↦ handle_core r ctx
      | ok artifacts ↦
          (let reported = record ctx { validation_report = some call.diagnostics } in
            if fail_on_error_diagnostics && has_errors call.diagnostics
            then ok (report_step (validation_failed reported))
            else run_first artifacts call.diagnostics reported)
    ]

    -- `run`, after the call of the connector.
    unfoldable pub run_extracted : Result (Extract I) → Result (ExecutionReport P)
    unfolding guard_ingestion_stream run_produced report_step fail resolve_ingestion_reason_code
        inc_input
    run_extracted (raise (extract_call_error f)) =
        failing "INGESTION_EXTRACT" (resolve_ingestion_reason_code f) f started
    run_extracted (raise r) = raise r
    run_extracted (ok extracted) =
        let call = produce (guard_ingestion_stream extracted.stream) in
        run_produced call (record started {
          ingestion_diagnostics = extracted.diagnostics;
          collector = inc_input call.consumed reset;
        })

    -- `run`
    unfoldable pub run : Result (ExecutionReport P)
    unfolding guard_extract run_extracted
    run = run_extracted (guard_extract extract)
