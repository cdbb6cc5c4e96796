-- ===== src/Flood/Tests.antt =====
-- The flood filter on small sequences of calls.
use product_feed_protocol.Prelude.{
  ℕ, ◌+◌, ◌≤◌, ◌≡◌, refl, arith, true, false, List, [], ◌∷◌, length, nat_eq, All, filter,
}
use product_feed_protocol.Dict.Keys.{Unique, contains}
use product_feed_protocol.Flood.{text, number, key_eq, Mode, rate_limit, Config, LogRecord, Context}
use product_feed_protocol.Flood.RateLimit
use product_feed_protocol.Flood.RateLimit.History.{is_within, times, let_through, spec_run}
use product_feed_protocol.Flood.RateLimit.Invariant as RateLimitInvariant
use product_feed_protocol.Flood.RateLimit.Refinement.{IsMonotonic, run-eq-spec_run, run_bound}
use product_feed_protocol.Flood.Deduplicate
use product_feed_protocol.Flood.Deduplicate.History.{IsBurst, AreRepeats, run-AreRepeats}
use product_feed_protocol.Flood.Summary as Summary
use product_feed_protocol.Flood.Summary.Counting.{pending}
use product_feed_protocol.Flood.Summary.Invariant as SummaryInvariant
use product_feed_protocol.Flood.Filter as Filter
use product_feed_protocol.Flood.Filter.Passing as Passing

abbrev two_in_ten : Config
two_in_ten = record {
  enabled = true;
  mode = rate_limit;
  context_keys = "feed_id" ∷ [];
  suppressed_levels = 20 ∷ [];
  force_log_attr = "force_log";
  key_fields = "name" ∷ "message" ∷ [];
  window_seconds = 10;
  max_events_per_window = 2;
  emit_summary = true;
  summary_level = 20;
  summary_interval_seconds = 5;
  max_cache_size = 2;
}

abbrev names : List ℕ
names = 1 ∷ 2 ∷ []

abbrev calls : List (ℕ × ℕ)
calls = (1, 0) ∷ (1, 3) ∷ (2, 4) ∷ (1, 9) ∷ (1, 12) ∷ []

names-Unique : Unique names
names-Unique = (refl, (refl, tt))

calls-IsNamed : All (λ c. contains c.0 names ≡ true) calls
calls-IsNamed = (refl, (refl, (refl, (refl, (refl, tt)))))

calls-IsMonotonic : IsMonotonic 0 calls
calls-IsMonotonic = (omega arith, (omega arith, (omega arith, (omega arith, (omega arith, tt)))))

rate_limited :
    RateLimit.run two_in_ten calls RateLimit.start ≡ false ∷ false ∷ false ∷ true ∷ false ∷ []
unfolding RateLimit.run RateLimit.should_suppress
rate_limited = refl

deduplicated :
    Deduplicate.run two_in_ten calls Deduplicate.start ≡ false ∷ true ∷ false ∷ true ∷ true ∷ []
unfolding Deduplicate.run Deduplicate.should_suppress
deduplicated = refl

run_bound_example :
    length (
      filter
        (is_within 10 3)
        (times 1 (let_through calls (RateLimit.run two_in_ten calls RateLimit.start))))
    ≤ 2
run_bound_example =
    run_bound two_in_ten names calls 1 3 names-Unique (omega arith) calls-IsNamed calls-IsMonotonic

run-eq-spec_run_example :
    RateLimit.run two_in_ten calls RateLimit.start ≡ spec_run two_in_ten calls []
run-eq-spec_run_example =
    run-eq-spec_run two_in_ten names calls names-Unique (omega arith) calls-IsNamed
      calls-IsMonotonic

rate_limit-IsValid_example :
    RateLimitInvariant.IsValid {K = ℕ} two_in_ten
      (RateLimit.should_suppress two_in_ten 7 3 RateLimit.start).1
rate_limit-IsValid_example =
    RateLimitInvariant.should_suppress-IsValid two_in_ten 7 3 RateLimit.start
      (RateLimitInvariant.IsValid-start two_in_ten)

run-AreRepeats_example :
    AreRepeats two_in_ten calls [] (Deduplicate.run two_in_ten calls Deduplicate.start)
run-AreRepeats_example =
    run-AreRepeats two_in_ten names calls names-Unique (omega arith) calls-IsNamed

three_times-IsBurst : IsBurst 10 5 (9 ∷ 18 ∷ 27 ∷ [])
three_times-IsBurst = (omega arith, (omega arith, (omega arith, tt)))

run_exact_example :
    (SummaryInvariant.run two_in_ten calls Summary.start).0
      + pending (SummaryInvariant.run two_in_ten calls Summary.start).1.summary_counts
    ≡ 5
run_exact_example =
    SummaryInvariant.run_exact two_in_ten names calls names-Unique (omega arith) calls-IsNamed

abbrev context : Context
context = ("feed_id", text "daily") ∷ []

abbrev log_record : ℕ → LogRecord
log_record level = record {
  name = "feeds";
  levelno = level;
  message = "read";
  attributes = ("name", text "feeds") ∷ ("levelno", number level) ∷ [];
}

abbrev quiet : Config
quiet = record two_in_ten { mode = Mode.context_info_suppression }

quiet_suppresses :
    (Filter.filter quiet 1 context (log_record 20) (Filter.build_filter_strategy quiet)).passes
    ≡ false
unfolding Filter.filter Filter.build_filter_strategy
quiet_suppresses = refl

filter-IsSuppressible_example : Passing.IsSuppressible quiet context (log_record 20)
filter-IsSuppressible_example =
    Passing.filter-IsSuppressible quiet 1 context (log_record 20)
      (Filter.build_filter_strategy quiet) quiet_suppresses

filter-IsValid_example :
    Passing.IsValid two_in_ten
      (Filter.filter two_in_ten 1 context
        (log_record 20)
        (Filter.build_filter_strategy two_in_ten)).state
filter-IsValid_example =
    Passing.filter-IsValid two_in_ten 1 context (log_record 20)
      (Filter.build_filter_strategy two_in_ten) (Passing.build_filter_strategy-IsValid two_in_ten)
