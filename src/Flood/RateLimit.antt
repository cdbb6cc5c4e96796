-- ===== src/Flood/RateLimit.antt =====
-- `_RateLimitStrategy`: at most `max_events_per_window` records for a key in a sliding window.
pub mod Invariant
pub mod History
mod Times
mod Tracking
pub mod Refinement
use product_feed_protocol.Prelude.{
  ℕ, ◌+◌, Bool, true, false, List, [], ◌∷◌, ◌++◌, Eq, if◌then◌else◌, length, leb,
}
use product_feed_protocol.Dict.{Dict, lookup, insert, erase_all, get_or}
use product_feed_protocol.Flood.{Config}
use product_feed_protocol.Flood.Eviction.{oldest_keys}

pub record RateLimiter (K : Type 0) : Type 0 where
  pub event_windows : Dict K (List ℕ)
  pub last_seen_at : Dict K ℕ

abbrev pub start : {K : Type 0} → RateLimiter K
start = record { event_windows = []; last_seen_at = [] }

-- The `while` loop: what is `window` ticks old or older leaves at the front.
unfoldable pub drop_expired : ℕ → ℕ → List ℕ → List ℕ
drop_expired window now [] = []
drop_expired window now (t ∷ ts) =
    if leb (t + window) now then drop_expired window now ts else t ∷ ts

module _ {K : Type 0} ⦃e : Eq K⦄ (config : Config) where
  -- `_enforce_cache_limit_locked`
  unfoldable pub enforce_cache_limit : RateLimiter K → RateLimiter K
  unfolding erase_all oldest_keys
  enforce_cache_limit s =
      let old = oldest_keys config.max_cache_size s.last_seen_at in
      record {
        event_windows = erase_all old s.event_windows;
        last_seen_at = erase_all old s.last_seen_at;
      }

  -- The window of a key after the loop.
  unfoldable pub live_window : K → ℕ → RateLimiter K → List ℕ
  unfolding drop_expired lookup
  live_window key now s = drop_expired config.window_seconds now (get_or key [] s.event_windows)

  unfoldable pub is_full : K → ℕ → RateLimiter K → Bool
  unfolding live_window
  is_full key now s = leb config.max_events_per_window (length (live_window key now s))

  -- The window of a key after the call: a record that is let through is noted in it.
  unfoldable pub next_window : K → ℕ → RateLimiter K → List ℕ
  unfolding is_full live_window
  next_window key now s =
      if is_full key now s then live_window key now s else live_window key now s ++ now ∷ []

  -- `_should_suppress`: the decision and the state that it leaves.
  unfoldable pub should_suppress : K → ℕ → RateLimiter K → Bool × RateLimiter K
  unfolding next_window enforce_cache_limit insert
  should_suppress key now s = (
    is_full key now s,
    enforce_cache_limit (record {
      event_windows = insert key (next_window key now s) s.event_windows;
      last_seen_at = insert key now s.last_seen_at;
    }),
  )

  -- The decisions on a sequence of calls.
  unfoldable pub run : List (K × ℕ) → RateLimiter K → List Bool
  run [] s = []
  run ((key, now) ∷ calls) s =
      (should_suppress key now s).0 ∷ run calls (should_suppress key now s).1
