-- ===== src/Pipeline/Causes.antt =====
-- What a report says of why `PipelineRunner.run` failed.
pub mod Explained
use mathlib.Core.List.{Memᴰ}
use product_feed_protocol.Prelude.{
  String, ◌≡◌, ◌≢◌, ◌⊎◌, inl, inr, refl, arith, Bool, true, List, [], ◌∷◌, Bool-cases,
}
use product_feed_protocol.Diagnostics.{
  Severity, error, warn, info, Diagnostic, is_error, has_errors,
}
use product_feed_protocol.Pipeline.{
  ExceptionKind, value_error, timeout_error, other_error, Failure, Raised, plain,
  extract_call_error, extract_iteration_error, core_contract_error, publish_error, Result, ok,
  raise, Stream, guard_ingestion_stream, as_failure, resolve_ingestion_reason_code,
  resolve_publish_reason_code,
}
use product_feed_protocol.Pipeline.Steps.{Extract, Call, ExecutionReport, run}

-- The reason code tells a timeout from any other failure.
abbrev pub IsTimed : ExceptionKind → String → String → String → Type 0
IsTimed kind timed_out otherwise reason =
    ((kind ≡ timeout_error) × (reason ≡ timed_out))
    ⊎ ((kind ≢ timeout_error) × (reason ≡ otherwise))

-- The failure that the publish step reports: what its error was raised for, or the exception itself.
abbrev pub published_failure : Raised → Failure
published_failure (publish_error f) = f
published_failure e = as_failure e

-- The step that an exception of the producer is put down to, by its type.
abbrev pub core_step : Raised → String
core_step (core_contract_error f) = "CORE_BUILD"
core_step (plain f) = elim f.kind [ value_error ↦ "CORE_BUILD" | _ ↦ "INTERNAL" ]
core_step _ = "INTERNAL"

-- The exceptions that the runner's own guards of the extraction make are not put down to the core.
abbrev pub IsCoreStep : Raised → String → Type 0
IsCoreStep (extract_iteration_error f) step = ⊥
IsCoreStep (extract_call_error f) step = ⊥
IsCoreStep e step = step ≡ core_step e

pub ingestion-IsTimed :
    (f : Failure)
    → IsTimed f.kind "INGESTION.EXTRACT_TIMEOUT" "INGESTION.EXTRACT_ERROR"
        (resolve_ingestion_reason_code f)
unfolding resolve_ingestion_reason_code
ingestion-IsTimed f =
    elim f.kind
      as (λ k.
        IsTimed k "INGESTION.EXTRACT_TIMEOUT" "INGESTION.EXTRACT_ERROR" (elim k [
          | timeout_error ↦ "INGESTION.EXTRACT_TIMEOUT"
          | _ ↦ "INGESTION.EXTRACT_ERROR"
        ])) [
          | value_error ↦ inr (λ e. ground (arith, e), refl)
          | timeout_error ↦ inl (refl, refl)
          | other_error ↦ inr (λ e. ground (arith, e), refl)
        ]

pub publish-IsTimed :
    (f : Failure) → IsTimed f.kind "PUBLISH.TIMEOUT" "PUBLISH.ERROR" (resolve_publish_reason_code f)
unfolding resolve_publish_reason_code
publish-IsTimed f =
    elim f.kind
      as (λ k.
        IsTimed k "PUBLISH.TIMEOUT" "PUBLISH.ERROR"
          (elim k [ timeout_error ↦ "PUBLISH.TIMEOUT" | _ ↦ "PUBLISH.ERROR" ])) [
            | value_error ↦ inr (λ e. ground (arith, e), refl)
            | timeout_error ↦ inl (refl, refl)
            | other_error ↦ inr (λ e. ground (arith, e), refl)
          ]

-- There is an ERROR diagnostic.
abbrev pub HasError : List Diagnostic → Type 0
HasError ds = (d : Diagnostic) × Memᴰ d ds × (d.severity ≡ error)

severity_of_error : (s : Severity) → is_error s ≡ true → s ≡ error
severity_of_error error h = refl
severity_of_error warn h = ground (arith, h)
severity_of_error info h = ground (arith, h)

pub HasError-has_errors : (ds : List Diagnostic) → has_errors ds ≡ true → HasError ds
unfolding has_errors
HasError-has_errors [] h = ground (arith, h)
HasError-has_errors (d ∷ ds) h = elim (Bool-cases (is_error d.severity)) [
  | inl t ↦ (d, Memᴰ.head refl, severity_of_error d.severity t)
  | inr f ↦
      let (found, there, same) = HasError-has_errors ds (rw f at h) in
      (found, Memᴰ.tail there, same)
]

module _ {I R P : Type 0} (fail_on_error_diagnostics : Bool) (extract : Result (Extract I))
    (produce : Stream I → Call (List R)) (publish : R → Call P) where
  abbrev pub called : Extract I → Call (List R)
  called x = produce (guard_ingestion_stream x.stream)

  -- The publisher returned, and what it returned is the artifact.
  abbrev pub IsPublished : Extract I → ExecutionReport P → Type 0
  IsPublished x r =
      (artifact : R) × (rest : List R) × (p : P) × ((called x).result ≡ ok (artifact ∷ rest))
      × ((publish artifact).result ≡ ok p)
      × (r.failed_step ≡ "")
      × (r.artifacts ≡ p ∷ [])

  -- The publisher raised.
  abbrev pub IsUnpublished : Extract I → ExecutionReport P → Type 0
  IsUnpublished x r =
      (artifact : R) × (rest : List R) × (e : Raised) × ((called x).result ≡ ok (artifact ∷ rest))
      × ((publish artifact).result ≡ raise e)
      × (r.failed_step ≡ "PUBLISH")
      × IsTimed (published_failure e).kind "PUBLISH.TIMEOUT" "PUBLISH.ERROR" r.reason_code

  -- The producer reported an ERROR, and that ends the run.
  abbrev pub IsRefused : Extract I → ExecutionReport P → Type 0
  IsRefused x r =
      (artifacts : List R) × ((called x).result ≡ ok artifacts)
      × (fail_on_error_diagnostics ≡ true)
      × HasError (called x).diagnostics
      × (r.failed_step ≡ "CORE_BUILD")
      × (r.reason_code ≡ "CORE.VALIDATION_FAILED")

  -- The producer raised, for a failure of the stream or for another reason.
  abbrev pub IsUnproduced : Extract I → ExecutionReport P → Type 0
  IsUnproduced x r =
      ((f : Failure) × ((called x).result ≡ raise (extract_iteration_error f))
        × (r.failed_step ≡ "INGESTION_EXTRACT")
        × IsTimed f.kind "INGESTION.EXTRACT_TIMEOUT" "INGESTION.EXTRACT_ERROR" r.reason_code)
      ⊎ ((e : Raised) × ((called x).result ≡ raise e) × IsCoreStep e r.failed_step)

  -- The connector raised.
  abbrev pub IsUnextracted : ExecutionReport P → Type 0
  IsUnextracted r =
      (e : Raised) × (extract ≡ raise e)
      × (r.failed_step ≡ "INGESTION_EXTRACT")
      × IsTimed (as_failure e).kind "INGESTION.EXTRACT_TIMEOUT" "INGESTION.EXTRACT_ERROR"
          r.reason_code

  abbrev pub IsOfExtracted : Extract I → ExecutionReport P → Type 0
  IsOfExtracted x r = IsPublished x r ⊎ (IsUnpublished x r ⊎ (IsRefused x r ⊎ IsUnproduced x r))

  abbrev pub IsExplained : ExecutionReport P → Type 0
  IsExplained r = IsUnextracted r ⊎ ((x : Extract I) × (extract ≡ ok x) × IsOfExtracted x r)
