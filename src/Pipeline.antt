-- ===== src/Pipeline.antt =====
-- pfp_runtime/pipeline and pfp_runtime/orchestration/pipeline_runner.py: the guards of the steps, and
-- the report of a run. An exception is known by what the runner reads of it.
pub mod Steps
pub mod Reports
pub mod Runs
pub mod Endings
pub mod Causes
mod Tests
use product_feed_protocol.Prelude.{
  ℕ, String, Bool, true, false, Option, none, some, List, [], ◌∷◌, if◌then◌else◌,
}
use product_feed_protocol.Text.{◌⧺◌}

pub data ExceptionKind : Type 0 where
  value_error timeout_error other_error : ExceptionKind

-- An exception, with `str` of it and the name of its type.
pub record Failure : Type 0 where
  pub kind : ExceptionKind
  pub message : String
  pub type_name : String

-- An exception as it is caught: one of the wrappers of the guards with its `original_exc`, or any other.
pub data Raised : Type 0 where
  plain : Failure → Raised
  extract_call_error extract_iteration_error core_error core_contract_error publish_error :
      Failure → Raised

pub data Result (A : Type 0) : Type 0 where
  ok : A → Result A
  raise : Raised → Result A

abbrev wrapper : String → String → Failure
wrapper name message = record { kind = other_error; message = message; type_name = name }

-- The caught exception itself: each wrapper is a `RuntimeError` with its own message.
unfoldable pub as_failure : Raised → Failure
as_failure (plain f) = f
as_failure (extract_call_error f) = wrapper "IngestionExtractCallError" f.message
as_failure (extract_iteration_error f) =
    wrapper "IngestionExtractIterationError" ("ingestion iteration failed: " ⧺ f.message)
as_failure (core_error f) = wrapper "CoreError" f.message
as_failure (core_contract_error f) = wrapper "CoreContractError" f.message
as_failure (publish_error f) = wrapper "PublishError" f.message

abbrev core_failure : Failure → Raised
core_failure f = elim f.kind [ value_error ↦ core_contract_error f | _ ↦ core_error f ]

-- The `except` clauses of `guard_core`.
unfoldable pub guard_core_raised : Raised → Raised
unfolding as_failure
guard_core_raised (extract_call_error f) = extract_call_error f
guard_core_raised (extract_iteration_error f) = extract_iteration_error f
guard_core_raised (core_error f) = core_error f
guard_core_raised (core_contract_error f) = core_contract_error f
guard_core_raised r = core_failure (as_failure r)

unfoldable pub guard_core : {A : Type 0} → Result A → Result A
unfolding guard_core_raised
guard_core (ok a) = ok a
guard_core (raise r) = raise (guard_core_raised r)

unfoldable pub guard_publish : {A : Type 0} → Result A → Result A
unfolding as_failure
guard_publish (ok a) = ok a
guard_publish (raise (publish_error f)) = raise (publish_error f)
guard_publish (raise r) = raise (publish_error (as_failure r))

-- The call of `connector.extract` in `ingestion_step`.
unfoldable pub guard_extract : {A : Type 0} → Result A → Result A
unfolding as_failure
guard_extract (ok a) = ok a
guard_extract (raise r) = raise (extract_call_error (as_failure r))

-- A stream: its items and, unless it ends well, what its iteration raises after them.
pub record Stream (I : Type 0) : Type 0 where
  pub items : List I
  pub failure : Option Raised

-- `guard_ingestion_stream`
unfoldable pub guard_ingestion_stream : {I : Type 0} → Stream I → Stream I
unfolding as_failure
guard_ingestion_stream s = record {
  items = s.items;
  failure = elim s.failure [ none ↦ none | some r ↦ some (extract_iteration_error (as_failure r)) ];
}

abbrev timeout_or : String → String → Failure → String
timeout_or timed_out otherwise f = elim f.kind [ timeout_error ↦ timed_out | _ ↦ otherwise ]

-- `resolve_ingestion_reason_code`, `resolve_core_reason_code` and `resolve_publish_reason_code`
unfoldable pub resolve_ingestion_reason_code : Failure → String
resolve_ingestion_reason_code = timeout_or "INGESTION.EXTRACT_TIMEOUT" "INGESTION.EXTRACT_ERROR"

unfoldable pub resolve_core_reason_code : Failure → String
resolve_core_reason_code f = elim f.kind [
  | value_error ↦ "CORE.CONTRACT_ERROR"
  | _ ↦ "INTERNAL.ERROR"
]

unfoldable pub resolve_publish_reason_code : Failure → String
resolve_publish_reason_code = timeout_or "PUBLISH.TIMEOUT" "PUBLISH.ERROR"
