-- ===== src/Pipeline/Tests.antt =====
-- Runs of a pipeline over a stream of numbers.
use product_feed_protocol.Prelude.{ℕ, ◌≡◌, refl, arith, true, false, some, List, [], ◌∷◌}
use product_feed_protocol.Pipeline.{
  Failure, timeout_error, other_error, plain, extract_iteration_error, Result, ok, raise, Stream,
  resolve_ingestion_reason_code,
}
use product_feed_protocol.Pipeline.Steps.{Extract, Call, ExecutionReport, run}
use product_feed_protocol.Pipeline.Reports.{IsConsistent}
use product_feed_protocol.Pipeline.Runs.{run-IsConsistent}
use product_feed_protocol.Pipeline.Causes.{IsExplained}
use product_feed_protocol.Pipeline.Causes.Explained.{run-IsExplained}
use product_feed_protocol.Pipeline.Endings.{HasReport, run-HasReport}

abbrev as_it_is : {A : Type 0} → A → A
as_it_is a = a

abbrev timed_out : Failure
timed_out = record { kind = timeout_error; message = "read timed out"; type_name = "TimeoutError" }

abbrev extracted : Extract ℕ
extracted = record {
  stream = record { items = 1 ∷ 2 ∷ []; failure = some (plain timed_out) };
  diagnostics = [];
}

abbrev called : {A : Type 0} → Result A → Call A
called r = record { result = r; consumed = 2; diagnostics = [] }

abbrev produce : Stream ℕ → Call (List ℕ)
produce s = called (ok (7 ∷ []))

abbrev produce_nothing : Stream ℕ → Call (List ℕ)
produce_nothing s = called (ok [])

abbrev produce_eagerly : Stream ℕ → Call (List ℕ)
produce_eagerly s = called (raise (extract_iteration_error timed_out))

abbrev publish : ℕ → Call ℕ
publish n = called (ok n)

abbrev publish_late : ℕ → Call ℕ
publish_late n = called (raise (extract_iteration_error timed_out))

late_report : HasReport (run as_it_is as_it_is true (ok extracted) produce publish_late)
late_report =
    run-HasReport as_it_is as_it_is true (ok extracted) produce publish_late
      (λ s e. ground (arith, e)) (λ s f e. ground (arith, e))

run-HasReport_example : HasReport (run as_it_is as_it_is true (ok extracted) produce publish_late)
run-HasReport_example =
    run-HasReport as_it_is as_it_is true (ok extracted) produce publish_late
      (λ s e. ground (arith, e)) (λ s f e. ground (arith, e))

run-IsConsistent_example : IsConsistent late_report.0
run-IsConsistent_example =
    run-IsConsistent as_it_is as_it_is true (ok extracted) produce publish_late late_report.0
      late_report.1

without_artifact :
    run as_it_is as_it_is false (ok extracted) produce_nothing publish
    ≡ raise (
        plain (record {
          kind = other_error;
          message = "tuple index out of range";
          type_name = "IndexError";
        }))
unfolding run
without_artifact = refl

-- The stream fails while the producer reads it, and while the publisher reads the payload.
early_failure :
    (r : ExecutionReport ℕ) × (run as_it_is as_it_is false (ok extracted) produce_eagerly publish
      ≡ ok r)
    × (r.failed_step ≡ "INGESTION_EXTRACT")
    × (r.reason_code ≡ resolve_ingestion_reason_code timed_out)
unfolding run
early_failure = (_, refl, refl, refl)

late_failure :
    (r : ExecutionReport ℕ) × (run as_it_is as_it_is false (ok extracted) produce publish_late
      ≡ ok r)
    × (r.failed_step ≡ "PUBLISH")
    × (r.reason_code ≡ "PUBLISH.ERROR")
unfolding run
late_failure = (_, refl, refl, refl)

run-IsExplained_example : IsExplained false (ok extracted) produce publish_late late_failure.0
run-IsExplained_example =
    run-IsExplained as_it_is as_it_is false (ok extracted) produce publish_late late_failure.0
      late_failure.1
