-- ===== src/Diagnostics/Usage.antt =====
-- feed_usage.py: `FeedUsage` and `FeedUsageCollector`. The diagnostics are counted under the three
-- severities, which are all that the runner passes to `inc_diagnostic`.
use product_feed_protocol.Prelude.{ℕ, ◌+◌, List, [], ◌∷◌}
use product_feed_protocol.Diagnostics.{Severity, error, warn, info, Diagnostic}

pub record SeverityCounts : Type 0 where
  pub errors : ℕ
  pub warnings : ℕ
  pub infos : ℕ

-- The collector's counters; `build` takes a copy of them.
pub record FeedUsage : Type 0 where
  pub input_items_count : ℕ
  pub artifacts_count : ℕ
  pub processed : ℕ
  pub dropped : ℕ
  pub errors : ℕ
  pub diagnostics_count_by_severity : SeverityCounts

abbrev pub reset : FeedUsage
reset = record {
  input_items_count = 0;
  artifacts_count = 0;
  processed = 0;
  dropped = 0;
  errors = 0;
  diagnostics_count_by_severity = record { errors = 0; warnings = 0; infos = 0 };
}

unfoldable pub inc_input : ℕ → FeedUsage → FeedUsage
inc_input count u = record u { input_items_count = u.input_items_count + count }

unfoldable pub inc_processed : ℕ → FeedUsage → FeedUsage
inc_processed count u = record u { processed = u.processed + count }

unfoldable pub inc_error : FeedUsage → FeedUsage
inc_error u = record u { errors = u.errors + 1 }

unfoldable pub inc_artifacts : ℕ → FeedUsage → FeedUsage
inc_artifacts count u = record u { artifacts_count = u.artifacts_count + count }

unfoldable pub bump : Severity → SeverityCounts → SeverityCounts
bump error c = record c { errors = c.errors + 1 }
bump warn c = record c { warnings = c.warnings + 1 }
bump info c = record c { infos = c.infos + 1 }

unfoldable pub inc_diagnostic : Severity → FeedUsage → FeedUsage
unfolding bump
inc_diagnostic s u = record u {
  diagnostics_count_by_severity = bump s u.diagnostics_count_by_severity;
}

-- The loop of `report_step` over the diagnostics.
unfoldable pub inc_diagnostics : List Diagnostic → FeedUsage → FeedUsage
unfolding inc_diagnostic
inc_diagnostics [] u = u
inc_diagnostics (d ∷ ds) u = inc_diagnostics ds (inc_diagnostic d.severity u)
