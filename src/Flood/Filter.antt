-- ===== src/Flood/Filter.antt =====
-- `FloodControlFilter.filter`, and the strategies that it calls. `now` is the clock's reading in the
-- call; a summary that is due is returned, as `_emit_summary` logs it.
pub mod Passing
use product_feed_protocol.Prelude.{
  ℕ, String, Bool, true, false, not, ◌||◌, Option, none, some, List, [], ◌==◌, if◌then◌else◌,
  nat_eq, string_eq,
}
use product_feed_protocol.Dict.{lookup}
use product_feed_protocol.Flood.{
  Part, null, number, text, unhashable, Key, key_eq, Mode, off, context_info_suppression,
  rate_limit, deduplicate, Config, LogRecord, Context, get_active_context, build_record_key,
}
use product_feed_protocol.Flood.RateLimit
use product_feed_protocol.Flood.RateLimit.{RateLimiter}
use product_feed_protocol.Flood.Deduplicate
use product_feed_protocol.Flood.Deduplicate.{Deduplicator}
use product_feed_protocol.Flood.Summary
use product_feed_protocol.Flood.Summary.{Emitter, record_suppression}

pub data Strategy : Type 0 where
  allow_all : Strategy
  context_suppression : Strategy
  rate_limiting : RateLimiter Key → Strategy
  deduplicating : Deduplicator Key → Strategy

-- `FloodControlFilter`: the strategy with its state, and the emitter if summaries are on.
pub record Filter : Type 0 where
  pub strategy : Strategy
  pub summary_emitter : Option (Emitter Key)

abbrev pub emitter_of : Bool → Option (Emitter Key)
emitter_of true = some Summary.start
emitter_of false = none

-- The tests of `build_filter_strategy`, on `enabled`, the mode and `emit_summary`.
unfoldable pub strategy_for : Bool → Mode → Bool → Filter
strategy_for false mode emit = record { strategy = allow_all; summary_emitter = none }
strategy_for true off emit = record { strategy = allow_all; summary_emitter = none }
strategy_for true context_info_suppression emit = record {
  strategy = context_suppression;
  summary_emitter = emitter_of emit;
}
strategy_for true rate_limit emit = record {
  strategy = rate_limiting RateLimit.start;
  summary_emitter = emitter_of emit;
}
strategy_for true deduplicate emit = record {
  strategy = deduplicating Deduplicate.start;
  summary_emitter = emitter_of emit;
}

unfoldable pub build_filter_strategy : Config → Filter
unfolding strategy_for
build_filter_strategy config = strategy_for config.enabled config.mode config.emit_summary

-- A summary record: the logger's name, the level, the count and the key.
pub record SummaryRecord : Type 0 where
  pub logger : String
  pub level : ℕ
  pub count : ℕ
  pub key : Key

pub record Verdict : Type 0 where
  pub passes : Bool
  pub summary : Option SummaryRecord
  pub state : Filter

-- Whether the strategy suppresses an active record, and its state after.
unfoldable pub decide : Config → Key → ℕ → Strategy → Bool × Strategy
unfolding RateLimit.should_suppress Deduplicate.should_suppress
decide config key now allow_all = (false, allow_all)
decide config key now context_suppression = (true, context_suppression)
decide config key now (rate_limiting s) =
    let (suppress, s') = RateLimit.should_suppress config key now s in (suppress, rate_limiting s')
decide config key now (deduplicating s) =
    let (suppress, s') = Deduplicate.should_suppress config key now s in
    (suppress, deduplicating s')

abbrev pub summary_record : Config → String → Key → Option ℕ → Option SummaryRecord
summary_record config name key none = none
summary_record config name key (some count) =
    some (record { logger = name; level = config.summary_level; count = count; key = key })

-- `_record_suppression`: nothing without an emitter.
unfoldable pub note_suppression :
    Config → String → Key → ℕ → Option (Emitter Key) → Option SummaryRecord × Option (Emitter Key)
unfolding record_suppression
note_suppression config name key now none = (none, none)
note_suppression config name key now (some s) =
    let (due, s') = record_suppression config key now s in
    (summary_record config name key due, some s')

unfoldable pub pass : Filter → Verdict
pass f = record { passes = true; summary = none; state = f }

-- `__call__` of the strategies, on a record in an active context.
unfoldable pub call_active : Config → ℕ → Context → LogRecord → Filter → Verdict
unfolding decide note_suppression pass build_record_key
call_active config now context r f =
    let key = build_record_key r context config.key_fields in
    let (suppress, strategy) = decide config key now f.strategy in
    if suppress
    then (let (summary, emitter) = note_suppression config r.name key now f.summary_emitter in
        record {
          passes = false;
          summary = summary;
          state = record { strategy = strategy; summary_emitter = emitter };
        })
    else pass (record f { strategy = strategy })

unfoldable pub call : Config → ℕ → Context → LogRecord → Filter → Verdict
unfolding call_active get_active_context pass
call config now context r f = elim (get_active_context config r context) [
  | none ↦ pass f
  | some active ↦ call_active config now active r f
]

-- Python's truth of an attribute's value.
unfoldable pub is_truthy : Option Part → Bool
is_truthy none = false
is_truthy (some null) = false
is_truthy (some (number n)) = not (n == 0)
is_truthy (some (text s)) = not (s == "")
is_truthy (some (unhashable r)) = not (r == "[]" || (r == "{}" || r == "set()"))

unfoldable pub is_forced : Config → LogRecord → Bool
unfolding is_truthy lookup
is_forced config r = is_truthy (lookup config.force_log_attr r.attributes)

-- `FloodControlFilter.filter`
unfoldable pub filter : Config → ℕ → Context → LogRecord → Filter → Verdict
unfolding is_forced call pass
filter config now context r f = if is_forced config r then pass f else call config now context r f
