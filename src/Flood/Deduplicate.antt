-- ===== src/Flood/Deduplicate.antt =====
-- `_DeduplicateStrategy`: a record is suppressed when its key was seen in the window before it.
pub mod History
use product_feed_protocol.Prelude.{
  ℕ, ◌+◌, Bool, true, false, Option, none, some, List, [], ◌∷◌, Eq, ltb,
}
use product_feed_protocol.Dict.{Dict, lookup, insert, erase_all}
use product_feed_protocol.Flood.{Config}
use product_feed_protocol.Flood.Eviction.{oldest_keys}

pub record Deduplicator (K : Type 0) : Type 0 where
  pub seen_at : Dict K ℕ
  pub last_seen_at : Dict K ℕ

abbrev pub start : {K : Type 0} → Deduplicator K
start = record { seen_at = []; last_seen_at = [] }

-- `current_time - last_seen_at < window_seconds`, false when the key was not seen.
unfoldable pub is_duplicate : Config → Option ℕ → ℕ → Bool
is_duplicate config none now = false
is_duplicate config (some seen) now = ltb now (seen + config.window_seconds)

module _ {K : Type 0} ⦃e : Eq K⦄ (config : Config) where
  -- `_enforce_cache_limit_locked`
  unfoldable pub enforce_cache_limit : Deduplicator K → Deduplicator K
  unfolding erase_all oldest_keys
  enforce_cache_limit s =
      let old = oldest_keys config.max_cache_size s.last_seen_at in
      record { seen_at = erase_all old s.seen_at; last_seen_at = erase_all old s.last_seen_at }

  -- `_should_suppress`: the time is noted whatever the decision.
  unfoldable pub should_suppress : K → ℕ → Deduplicator K → Bool × Deduplicator K
  unfolding is_duplicate enforce_cache_limit insert lookup
  should_suppress key now s = (
    is_duplicate config (lookup key s.seen_at) now,
    enforce_cache_limit (record {
      seen_at = insert key now s.seen_at;
      last_seen_at = insert key now s.last_seen_at;
    }),
  )

  -- The decisions on a sequence of calls.
  unfoldable pub run : List (K × ℕ) → Deduplicator K → List Bool
  run [] s = []
  run ((key, now) ∷ calls) s =
      (should_suppress key now s).0 ∷ run calls (should_suppress key now s).1
