-- ===== src/Flood/Summary.antt =====
-- `_SummaryEmitter`: how many records of a key were suppressed since its last summary.
pub mod Counting
pub mod Invariant
use product_feed_protocol.Prelude.{
  ℕ, ◌+◌, Bool, true, false, Option, none, some, List, [], Eq, leb, if◌then◌else◌,
}
use product_feed_protocol.Dict.{Dict, lookup, insert, erase_all, get_or}
use product_feed_protocol.Flood.{Config}
use product_feed_protocol.Flood.Eviction.{oldest_keys}

pub record Emitter (K : Type 0) : Type 0 where
  pub summary_counts : Dict K ℕ
  pub summary_last_emitted_at : Dict K ℕ
  pub last_seen_at : Dict K ℕ

abbrev pub start : {K : Type 0} → Emitter K
start = record { summary_counts = []; summary_last_emitted_at = []; last_seen_at = [] }

module _ {K : Type 0} ⦃e : Eq K⦄ (config : Config) where
  -- `_enforce_cache_limit_locked`
  unfoldable pub enforce_cache_limit : Emitter K → Emitter K
  unfolding erase_all oldest_keys
  enforce_cache_limit s =
      let old = oldest_keys config.max_cache_size s.last_seen_at in
      record {
        summary_counts = erase_all old s.summary_counts;
        summary_last_emitted_at = erase_all old s.summary_last_emitted_at;
        last_seen_at = erase_all old s.last_seen_at;
      }

  -- The branches on the time of the last summary: the first suppression starts the interval, and a
  -- summary is due once the interval is over.
  unfoldable pub settle : K → ℕ → Option ℕ → Emitter K → Option ℕ × Emitter K
  unfolding insert lookup
  settle key now none s =
      (none, record s { summary_last_emitted_at = insert key now s.summary_last_emitted_at })
  settle key now (some emitted) s =
      if leb (emitted + config.summary_interval_seconds) now
      then (
        some (get_or key 0 s.summary_counts),
        record s {
          summary_counts = insert key 0 s.summary_counts;
          summary_last_emitted_at = insert key now s.summary_last_emitted_at;
        },
      )
      else (none, s)

  -- The count goes up and the key was seen now.
  unfoldable pub count_suppression : K → ℕ → Emitter K → Emitter K
  unfolding insert lookup
  count_suppression key now s = record s {
    summary_counts = insert key (get_or key 0 s.summary_counts + 1) s.summary_counts;
    last_seen_at = insert key now s.last_seen_at;
  }

  -- `record_suppression`: the count of a summary that is due, and the state. `_emit_summary` logs
  -- that count for the key.
  unfoldable pub record_suppression : K → ℕ → Emitter K → Option ℕ × Emitter K
  unfolding enforce_cache_limit settle count_suppression lookup
  record_suppression key now s =
      let (due, s') =
        settle key now (lookup key s.summary_last_emitted_at) (count_suppression key now s) in
      (due, enforce_cache_limit s')
