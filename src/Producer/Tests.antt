-- ===== src/Producer/Tests.antt =====
-- The loop of the producer on a feed of four items.
use product_feed_protocol.Prelude.{
  String, ◌≡◌, refl, true, false, Option, none, some, List, [], ◌∷◌, any, ◌==◌, string_eq,
  if◌then◌else◌,
}
use product_feed_protocol.Dict.{lookup}
use product_feed_protocol.Value.{Value, str, value, Record}
use product_feed_protocol.Diagnostics.{has_errors}
use product_feed_protocol.Validation.{Decision}
use product_feed_protocol.Validation.Executor.{ExecutionResult, mismatch_item}
use product_feed_protocol.Mapping.{Issue}
use product_feed_protocol.Mapping.Executor.{Output, row}
use product_feed_protocol.Producer.{
  Item, skip_item, exhausted, stopped, go_on, cells, text, handle_error, validation_diagnostics,
  produce,
}
use product_feed_protocol.Producer.Streams.{IsProduced, produce-IsProduced}
use product_feed_protocol.Producer.Decisions.{
  fails, no_errors-validation_diagnostics, ending-produce,
}

abbrev show_value : Value → String
show_value (str s) = s
show_value _ = "?"

abbrev judged : Decision → ExecutionResult
judged d = record { items = mismatch_item ∷ []; decision = d; is_valid = true }

-- The validation raises on a record without a verdict.
abbrev validate : Record → Option ExecutionResult
unfolding lookup
validate r = elim (lookup "verdict" r) [
  | some (str s) ↦ some (
      judged (
        if s == "drop"
        then Decision.drop
        else if s == "fail"
        then Decision.fail
        else Decision.pass))
  | _ ↦ none
]

abbrev convert : Record → Option (Output × List Issue)
convert r = some (row (value "17" ∷ []), [])

abbrev item : String → Item
item verdict = some (("id", str " 17 ") ∷ ("verdict", str verdict) ∷ [])

abbrev feed : List Item
feed = item "pass" ∷ none ∷ item "drop" ∷ some [] ∷ item "pass" ∷ []

abbrev bad_feed : List Item
bad_feed = item "pass" ∷ item "fail" ∷ item "pass" ∷ []

-- The feed is read to its end, and two of its items are written; the bad feed is stopped after one.
to_the_end : (produce show_value validate convert (some skip_item) feed).ending ≡ exhausted
unfolding produce lookup
to_the_end = refl

records_of_feed :
    (produce show_value validate convert (some skip_item) feed).records
    ≡ cells (text "17" ∷ []) ∷ cells (text "17" ∷ []) ∷ []
unfolding produce lookup
records_of_feed = refl

produce-IsProduced_example :
    IsProduced validate convert none bad_feed (produce show_value validate convert none bad_feed)
produce-IsProduced_example = produce-IsProduced validate convert none show_value bad_feed

goes_on : handle_error (some skip_item) ≡ go_on
unfolding handle_error
goes_on = refl

ending-produce_example :
    (produce show_value validate convert (some skip_item) bad_feed).ending
    ≡ (if any (fails validate) bad_feed then stopped else exhausted)
ending-produce_example =
    ending-produce show_value validate convert (some skip_item) bad_feed goes_on

no_errors-validation_diagnostics_example :
    has_errors (validation_diagnostics "17" (judged Decision.fail)) ≡ false
no_errors-validation_diagnostics_example =
    no_errors-validation_diagnostics "17" (judged Decision.fail)
