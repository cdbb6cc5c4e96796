-- ===== src/Flood/RateLimit/Refinement.antt =====
-- While no key is evicted the windows decide as the history does, so the promise of the history
-- holds of the records that the code lets through.
use product_feed_protocol.Prelude.{
  ℕ, ◌≤◌, ◌≡◌, refl, ap, ◌∙◌, true, List, [], ◌∷◌, Eq, length, filter, All,
}
use product_feed_protocol.Dict.Keys.{contains, Unique}
use product_feed_protocol.Flood.{Config}
use product_feed_protocol.Flood.RateLimit.{RateLimiter, start, run}
use product_feed_protocol.Flood.RateLimit.History.{
  is_within, times, let_through, spec_full, spec_run, spec_run_bound,
}
use product_feed_protocol.Flood.RateLimit.Tracking.{
  Tracks, is_full-eq, noted, next_history, Tracks-noted, next_state, decision-eq, Tracks-start,
}

-- Calls at times that never go back, the first not before `last`: a monotonic clock.
abbrev pub IsMonotonic : {K : Type 0} → ℕ → List (K × ℕ) → Type 0
IsMonotonic last [] = Unit
IsMonotonic last ((k, now) ∷ calls) = (last ≤ now) × IsMonotonic now calls

module _ {K : Type 0} ⦃e : Eq K⦄ (config : Config) where
  -- Every call is for one of the names.
  abbrev pub IsNamed : List K → List (K × ℕ) → Type 0
  IsNamed names calls = All (λ c. contains c.0 names ≡ true) calls

  run-eq-spec_run_from :
      (names : List K) (calls : List (K × ℕ)) (s : RateLimiter K) (h : List (K × ℕ)) (last : ℕ)
      → Unique names
      → length names ≤ config.max_cache_size
      → IsNamed names calls
      → IsMonotonic last calls
      → Tracks config names s h last
      → run config calls s ≡ spec_run config calls h
  unfolding run spec_run next_history
  run-eq-spec_run_from names [] s h last u room n m t = refl
  run-eq-spec_run_from names ((k, now) ∷ calls) s h last u room (there, n) (le, m) t =
      let decided = decision-eq config k now s ∙ is_full-eq config names s h last now k t le in
      rw (decided, next_state config names s h last now k t le u room there)
        (ap (◌∷◌ (spec_full config k now h)) (
          run-eq-spec_run_from names calls (noted config k now s) (next_history config k now h) now
            u room n m (Tracks-noted config names s h last now k t le there)))

  -- From an empty limiter, with a monotonic clock and calls for at most `max_cache_size` different
  -- keys, every decision of the code is that of the specification on the whole history.
  pub run-eq-spec_run :
      (names : List K) (calls : List (K × ℕ))
      → Unique names
      → length names ≤ config.max_cache_size
      → IsNamed names calls
      → IsMonotonic 0 calls
      → run config calls start ≡ spec_run config calls []
  run-eq-spec_run names calls u room n m =
      run-eq-spec_run_from names calls start [] 0 u room n m (Tracks-start config names)

  -- From an empty limiter, with a monotonic clock and calls for at most `max_cache_size` different
  -- keys, the records of a key that are let through in any `window_seconds` are at most
  -- `max_events_per_window`.
  pub run_bound :
      (names : List K) (calls : List (K × ℕ)) (k : K) (from : ℕ)
      → Unique names
      → length names ≤ config.max_cache_size
      → IsNamed names calls
      → IsMonotonic 0 calls
      → length (
          filter
            (is_within config.window_seconds from)
            (times k (let_through calls (run config calls start))))
        ≤ config.max_events_per_window
  run_bound names calls k from u room n m =
      rw (run-eq-spec_run names calls u room n m) (spec_run_bound config calls k from)
