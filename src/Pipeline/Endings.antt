-- ===== src/Pipeline/Endings.antt =====
-- When `PipelineRunner.run` gives a report.
use product_feed_protocol.Prelude.{
  ℕ, String, ◌≡◌, ◌≢◌, refl, ap, Bool, ◌&&◌, some, List, [], ◌∷◌, ◌++◌, if◌then◌else◌, Bool-cases,
  inl, inr,
}
use product_feed_protocol.Diagnostics.{Diagnostic, has_errors}
use product_feed_protocol.Diagnostics.Usage.{reset, inc_input}
use product_feed_protocol.Pipeline.{
  Failure, ExceptionKind, value_error, Raised, plain, extract_call_error, core_error,
  core_contract_error, publish_error, Result, ok, raise, guard_core, guard_core_raised,
  guard_publish, guard_extract, Stream, guard_ingestion_stream, as_failure,
}
use product_feed_protocol.Pipeline.Steps.{
  Extract, Call, RunReport, ExecutionReport, report_step, handle_core, handle_publish, run_publish,
  run_first, run_produced, run_extracted, run, started, validation_failed,
}

abbrev pub HasReport : {P : Type 0} → Result (ExecutionReport P) → Type 0
HasReport {P} x = (r : ExecutionReport P) × (x ≡ ok r)

module _ (sanitize_diagnostic : Diagnostic → Diagnostic) (sanitize_text : String → String)
    {I R P : Type 0} (fail_on_error_diagnostics : Bool) (extract : Result (Extract I))
    (produce : Stream I → Call (List R)) (publish : R → Call P) where
  publish_handled :
      (r : Raised) (ctx : RunReport P) (then' : P → Result (ExecutionReport P))
      → HasReport (elim (guard_publish (raise r)) [
        | ok published ↦ then' published
        | raise r' ↦
            handle_publish sanitize_diagnostic sanitize_text fail_on_error_diagnostics extract
              produce publish r' ctx
      ])
  unfolding guard_publish handle_publish
  publish_handled (publish_error f) ctx then' = (_, refl)
  publish_handled _ ctx then' = (_, refl)

  run_publish-HasReport :
      (artifact : R) (ds : List Diagnostic) (ctx : RunReport P)
      → HasReport (
          run_publish sanitize_diagnostic sanitize_text fail_on_error_diagnostics extract produce
            publish artifact ds ctx)
  unfolding run_publish guard_publish
  run_publish-HasReport artifact ds ctx =
      let call = publish artifact in
      let read = record ctx {
        collector = inc_input call.consumed ctx.collector;
        validation_report = some (ds ++ call.diagnostics);
      } in
      elim call.result
        as (λ (g : Result P). HasReport (elim (guard_publish g) [
          | ok published ↦ ok (
              report_step sanitize_diagnostic sanitize_text
                (record read { artifact = some published }))
          | raise r ↦
              handle_publish sanitize_diagnostic sanitize_text fail_on_error_diagnostics extract
                produce publish r read
        ])) [
          | ok published ↦ (_, refl)
          | raise r ↦ publish_handled r read (λ published. ok (
              report_step sanitize_diagnostic sanitize_text
                (record read { artifact = some published })))
        ]

  run_first-HasReport :
      (artifacts : List R) (ds : List Diagnostic) (ctx : RunReport P)
      → artifacts ≢ []
      → HasReport (
          run_first sanitize_diagnostic sanitize_text fail_on_error_diagnostics extract produce
            publish artifacts ds ctx)
  unfolding run_first
  run_first-HasReport [] ds ctx some' = absurd (some' refl)
  run_first-HasReport (artifact ∷ _) ds ctx some' = run_publish-HasReport artifact ds ctx

  kind_handled :
      (kind : ExceptionKind) (f : Failure) (ctx : RunReport P)
      → HasReport (
          handle_core sanitize_diagnostic sanitize_text fail_on_error_diagnostics extract produce
            publish
            (elim kind [ value_error ↦ core_contract_error f | _ ↦ core_error f ])
            ctx)
  unfolding handle_core
  kind_handled value_error f ctx = (_, refl)
  kind_handled _ f ctx = (_, refl)

  core_handled :
      (r : Raised) (ctx : RunReport P)
      → ((f : Failure) → r ≢ extract_call_error f)
      → HasReport (
          handle_core sanitize_diagnostic sanitize_text fail_on_error_diagnostics extract produce
            publish
            (guard_core_raised r)
            ctx)
  unfolding guard_core_raised handle_core as_failure
  core_handled (plain f) ctx h = kind_handled f.kind f ctx
  core_handled (extract_call_error f) ctx h = absurd (h f refl)
  core_handled _ ctx h = (_, refl)

  -- The core step, on its result.
  abbrev after_core :
      Bool → Result (List R) → List Diagnostic → RunReport P → Result (ExecutionReport P)
  after_core flag g ds ctx = elim (guard_core g) [
    | raise r ↦
        handle_core sanitize_diagnostic sanitize_text fail_on_error_diagnostics extract produce
          publish r ctx
    | ok artifacts ↦
        let reported = record ctx { validation_report = some ds } in
        if flag && has_errors ds
        then ok (report_step sanitize_diagnostic sanitize_text (validation_failed reported))
        else run_first sanitize_diagnostic sanitize_text fail_on_error_diagnostics extract produce
            publish artifacts ds reported
  ]

  abbrev read_by : ℕ → List Diagnostic → RunReport P
  read_by n ds = record started { ingestion_diagnostics = ds; collector = inc_input n reset }

  produced-HasReport :
      (g : Result (List R)) (ds : List Diagnostic) (ctx : RunReport P)
      → g ≢ ok []
      → ((f : Failure) → g ≢ raise (extract_call_error f))
      → HasReport (after_core fail_on_error_diagnostics g ds ctx)
  unfolding guard_core
  produced-HasReport (raise r) ds ctx h k = core_handled r ctx (λ f e. k f (ap (λ x. raise x) e))
  produced-HasReport (ok artifacts) ds ctx h k =
      elim (Bool-cases (fail_on_error_diagnostics && has_errors ds)) [
        | inl t ↦ rw t (_, refl)
        | inr f ↦ rw f (run_first-HasReport artifacts ds _ (λ e. h (ap (λ x. ok x) e)))
      ]

  extracted-HasReport :
      (e : Result (Extract I))
      → ((s : Stream I) → (produce s).result ≢ ok [])
      → ((s : Stream I) (f : Failure) → (produce s).result ≢ raise (extract_call_error f))
      → HasReport (
          run_extracted sanitize_diagnostic sanitize_text fail_on_error_diagnostics extract produce
            publish
            (guard_extract e))
  unfolding run_extracted guard_extract run_produced
  extracted-HasReport (raise r) h k = (_, refl)
  extracted-HasReport (ok x) h k =
      let call = produce (guard_ingestion_stream x.stream) in
      produced-HasReport call.result call.diagnostics (read_by call.consumed x.diagnostics)
        (h (guard_ingestion_stream x.stream)) (k (guard_ingestion_stream x.stream))

  -- A run always ends with a report, whatever the connector, the producer and the publisher raise, if the producer does not return
  -- an empty list of artifacts and does not raise the error of the connector's call, which only the runner's own guard makes.
  pub run-HasReport :
      ((s : Stream I) → (produce s).result ≢ ok [])
      → ((s : Stream I) (f : Failure) → (produce s).result ≢ raise (extract_call_error f))
      → HasReport
          (run sanitize_diagnostic sanitize_text fail_on_error_diagnostics extract produce publish)
  unfolding run
  run-HasReport h k = extracted-HasReport extract h k
