-- ===== src/Pipeline/Causes/Explained.antt =====
-- The proof that a report says why a run failed.
use mathlib.Core.Path.{subst}
use product_feed_protocol.Prelude.{
  String, ◌≡◌, inl, inr, refl, arith, Bool, ◌&&◌, some, List, [], ◌∷◌, ◌++◌, if◌then◌else◌,
  Bool-cases,
}
use product_feed_protocol.Diagnostics.{Diagnostic, has_errors}
use product_feed_protocol.Diagnostics.Usage.{reset, inc_input}
use product_feed_protocol.Pipeline.{
  ExceptionKind, value_error, timeout_error, other_error, Failure, Raised, plain,
  extract_call_error, extract_iteration_error, core_error, core_contract_error, publish_error,
  Result, ok, raise, guard_core, guard_core_raised, guard_publish, guard_extract, Stream,
  as_failure,
}
use product_feed_protocol.Pipeline.Steps.{
  Extract, Call, RunReport, ExecutionReport, fail, report_step, handle_core, handle_publish,
  run_publish, run_first, run_produced, run_extracted, run, started, validation_failed,
}
use product_feed_protocol.Pipeline.Causes.{
  called as call_of, IsOfExtracted as IsOf, IsExplained, ingestion-IsTimed, publish-IsTimed,
  HasError-has_errors,
}

module _ (sanitize_diagnostic : Diagnostic → Diagnostic) (sanitize_text : String → String)
    {I R P : Type 0} (fail_on_error_diagnostics : Bool) (extract : Result (Extract I))
    (produce : Stream I → Call (List R)) (publish : R → Call P) where
  abbrev called : Extract I → Call (List R)
  called = call_of fail_on_error_diagnostics extract produce publish

  abbrev IsOfExtracted : Extract I → ExecutionReport P → Type 0
  IsOfExtracted = IsOf fail_on_error_diagnostics extract produce publish

  -- What holds of the report, if there is one.
  abbrev OfReport : (ExecutionReport P → Type 0) → Result (ExecutionReport P) → Type 0
  OfReport Q (ok r) = Q r
  OfReport Q (raise _) = Unit

  handled_publish :
      (x : Extract I) (artifact : R) (rest : List R) (e : Raised) (ctx : RunReport P)
      (then' : P → Result (ExecutionReport P))
      → (called x).result ≡ ok (artifact ∷ rest)
      → (publish artifact).result ≡ raise e
      → OfReport (IsOfExtracted x) (elim (guard_publish (raise e)) [
        | ok published ↦ then' published
        | raise r' ↦
            handle_publish sanitize_diagnostic sanitize_text fail_on_error_diagnostics extract
              produce publish r' ctx
      ])
  unfolding guard_publish handle_publish fail report_step
  handled_publish x artifact rest (publish_error f) ctx then' h k =
      inr (inl (artifact, rest, publish_error f, h, k, refl, publish-IsTimed f))
  handled_publish x artifact rest (plain f) ctx then' h k =
      inr (inl (artifact, rest, plain f, h, k, refl, publish-IsTimed (as_failure (plain f))))
  handled_publish x artifact rest (extract_call_error f) ctx then' h k = inr (
      inl (
        artifact,
        rest,
        extract_call_error f,
        h,
        k,
        refl,
        publish-IsTimed (as_failure (extract_call_error f)),
      ))
  handled_publish x artifact rest (extract_iteration_error f) ctx then' h k = inr (
      inl (
        artifact,
        rest,
        extract_iteration_error f,
        h,
        k,
        refl,
        publish-IsTimed (as_failure (extract_iteration_error f)),
      ))
  handled_publish x artifact rest (core_error f) ctx then' h k =
      inr (
        inl (artifact, rest, core_error f, h, k, refl, publish-IsTimed (as_failure (core_error f))))
  handled_publish x artifact rest (core_contract_error f) ctx then' h k = inr (
      inl (
        artifact,
        rest,
        core_contract_error f,
        h,
        k,
        refl,
        publish-IsTimed (as_failure (core_contract_error f)),
      ))

  -- The report that the core step leaves, before the publish step.
  abbrev reported : Extract I → RunReport P
  reported x = record started {
    ingestion_diagnostics = x.diagnostics;
    collector = inc_input (called x).consumed reset;
    validation_report = some (called x).diagnostics;
  }

  after_publish :
      (x : Extract I) (artifact : R) (rest : List R) (g : Result P) (read : RunReport P)
      → (called x).result ≡ ok (artifact ∷ rest)
      → (publish artifact).result ≡ g
      → read.failed_step ≡ ""
      → OfReport (IsOfExtracted x) (elim (guard_publish g) [
        | ok published ↦ ok (
            report_step sanitize_diagnostic sanitize_text
              (record read { artifact = some published }))
        | raise r' ↦
            handle_publish sanitize_diagnostic sanitize_text fail_on_error_diagnostics extract
              produce publish r' read
      ])
  unfolding guard_publish report_step
  after_publish x artifact rest (ok p) read h k s = inl (artifact, rest, p, h, k, s, refl)
  after_publish x artifact rest (raise e) read h k s =
      handled_publish x artifact rest e read
        (λ published. ok (
          report_step sanitize_diagnostic sanitize_text
            (record read { artifact = some published })))
        h k

  run_first-IsOfExtracted :
      (x : Extract I) (artifacts : List R)
      → (called x).result ≡ ok artifacts
      → OfReport (IsOfExtracted x) (
          run_first sanitize_diagnostic sanitize_text fail_on_error_diagnostics extract produce
            publish artifacts
            (called x).diagnostics
            (reported x))
  unfolding run_first run_publish
  run_first-IsOfExtracted x [] h = tt
  run_first-IsOfExtracted x (artifact ∷ rest) h =
      after_publish x artifact rest (publish artifact).result
        (record (reported x) {
          collector = inc_input (publish artifact).consumed (reported x).collector;
          validation_report = some ((called x).diagnostics ++ (publish artifact).diagnostics);
        })
        h refl refl

  kind_handled :
      (Q : ExecutionReport P → Type 0) (kind : ExceptionKind) (f : Failure) (ctx : RunReport P)
      → ((r : ExecutionReport P)
          → r.failed_step ≡ elim kind [ value_error ↦ "CORE_BUILD" | _ ↦ "INTERNAL" ]
          → Q r)
      → OfReport Q (
          handle_core sanitize_diagnostic sanitize_text fail_on_error_diagnostics extract produce
            publish
            (elim kind [ value_error ↦ core_contract_error f | _ ↦ core_error f ])
            ctx)
  unfolding handle_core fail report_step
  kind_handled Q value_error f ctx q = q _ refl
  kind_handled Q timeout_error f ctx q = q _ refl
  kind_handled Q other_error f ctx q = q _ refl

  handled_core :
      (x : Extract I) (e : Raised) (ctx : RunReport P)
      → (called x).result ≡ raise e
      → OfReport (IsOfExtracted x) (
          handle_core sanitize_diagnostic sanitize_text fail_on_error_diagnostics extract produce
            publish
            (guard_core_raised e)
            ctx)
  unfolding guard_core_raised handle_core as_failure fail report_step
  handled_core x (extract_iteration_error f) ctx h =
      inr (inr (inr (inl (f, h, refl, ingestion-IsTimed f))))
  handled_core x (extract_call_error f) ctx h = tt
  handled_core x (core_error f) ctx h = inr (inr (inr (inr (core_error f, h, refl))))
  handled_core x (core_contract_error f) ctx h =
      inr (inr (inr (inr (core_contract_error f, h, refl))))
  handled_core x (publish_error f) ctx h = inr (inr (inr (inr (publish_error f, h, refl))))
  handled_core x (plain f) ctx h =
      kind_handled (IsOfExtracted x) f.kind f ctx
        (λ r step. inr (inr (inr (inr (plain f, h, step)))))

  -- The core step, on its result.
  after_core :
      (x : Extract I) (g : Result (List R)) (ctx : RunReport P)
      → (called x).result ≡ g
      → OfReport (IsOfExtracted x) (elim (guard_core g) [
        | raise r ↦
            handle_core sanitize_diagnostic sanitize_text fail_on_error_diagnostics extract produce
              publish r ctx
        | ok artifacts ↦
            if fail_on_error_diagnostics && has_errors (called x).diagnostics
            then ok (report_step sanitize_diagnostic sanitize_text (validation_failed (reported x)))
            else run_first sanitize_diagnostic sanitize_text fail_on_error_diagnostics extract
                produce publish artifacts
                (called x).diagnostics
                (reported x)
      ])
  unfolding guard_core report_step
  after_core x (raise e) ctx h = handled_core x e ctx h
  after_core x (ok artifacts) ctx h =
      elim (Bool-cases (fail_on_error_diagnostics && has_errors (called x).diagnostics)) [
        | inl t ↦ rw t (
            inr (
              inr (
                inl (
                  artifacts,
                  h,
                  ground (arith, t),
                  HasError-has_errors (called x).diagnostics (ground (arith, t)),
                  refl,
                  refl,
                ))))
        | inr f ↦ rw f (run_first-IsOfExtracted x artifacts h)
      ]

  OfReport-map :
      (Q S : ExecutionReport P → Type 0) (o : Result (ExecutionReport P))
      → ((r : ExecutionReport P) → Q r → S r)
      → OfReport Q o
      → OfReport S o
  OfReport-map Q S (ok r) f q = f r q
  OfReport-map Q S (raise e) f q = tt

  extracted-IsExplained :
      (e : Result (Extract I))
      → extract ≡ e
      → OfReport (IsExplained fail_on_error_diagnostics extract produce publish) (
          run_extracted sanitize_diagnostic sanitize_text fail_on_error_diagnostics extract produce
            publish
            (guard_extract e))
  unfolding run_extracted run_produced guard_extract fail report_step
  extracted-IsExplained (raise e) h = inl (e, h, refl, ingestion-IsTimed (as_failure e))
  extracted-IsExplained (ok x) h =
      OfReport-map (IsOfExtracted x) (IsExplained fail_on_error_diagnostics extract produce publish)
        _ (λ r q. inr (x, h, q)) (after_core x (called x).result _ refl)

  -- A report tells which step failed, and why. It names no step only if the publisher returned the artifact; PUBLISH only if the
  -- publisher raised, with its timeout told from other errors; CORE_BUILD only if the producer reported an ERROR and that ends a
  -- run, or raised a ValueError or a contract error; INTERNAL only if it raised anything else; and INGESTION_EXTRACT only if
  -- the connector raised, or the producer for a failure of the stream, a timeout told from other errors.
  pub run-IsExplained :
      (r : ExecutionReport P)
      → run sanitize_diagnostic sanitize_text fail_on_error_diagnostics extract produce publish
        ≡ ok r
      → IsExplained fail_on_error_diagnostics extract produce publish r
  unfolding run
  run-IsExplained r h =
      subst (OfReport (IsExplained fail_on_error_diagnostics extract produce publish)) h
        (extracted-IsExplained extract refl)
