-- ===== src/Flood/RateLimit/Invariant.antt =====
-- What holds of a rate limiter between calls: both caches have the same keys, each once, at most
-- `max_cache_size` of them, and no window holds more than `max_events_per_window` events.
use product_feed_protocol.Prelude.{
  ℕ, ◌≤◌, ◌≡◌, refl, sym, ap, ◌∙◌, arith, some, List, [], ◌∷◌, Eq, Option-cases, inl, inr, length,
  length-append,
}
use product_feed_protocol.Dict.{Dict, lookup, insert, erase, erase_all, lookup-insert, lookup-erase}
use product_feed_protocol.Dict.Keys.{
  keys, Unique, add_key, drop_keys, Unique-add_key, Unique-drop_keys, keys-insert, keys-erase_all,
  length-keys,
}
use product_feed_protocol.Flood.{Config}
use product_feed_protocol.Flood.Eviction.{oldest_keys, length-evict-le}
use product_feed_protocol.Flood.RateLimit.{
  RateLimiter, start, drop_expired, enforce_cache_limit, live_window, next_window, should_suppress,
}

length-drop_expired-le : (w now : ℕ) (ts : List ℕ) → length (drop_expired w now ts) ≤ length ts
unfolding drop_expired
length-drop_expired-le w now [] = omega arith
length-drop_expired-le w now (t ∷ ts) = ground (arith, length-drop_expired-le w now ts)

module _ {K : Type 0} ⦃e : Eq K⦄ (config : Config) where
  abbrev pub HasShortWindows : Dict K (List ℕ) → Type 0
  HasShortWindows d =
      (k : K) (ts : List ℕ) → lookup k d ≡ some ts → length ts ≤ config.max_events_per_window

  pub record IsValid (s : RateLimiter K) : Type 0 where
    pub same_keys : keys s.event_windows ≡ keys s.last_seen_at
    pub distinct : Unique (keys s.last_seen_at)
    pub within : length s.last_seen_at ≤ config.max_cache_size
    pub short : HasShortWindows s.event_windows

  lookup-erase_all :
      (ks : List K) (k : K) (d : Dict K (List ℕ)) (ts : List ℕ)
      → lookup k (erase_all ks d) ≡ some ts
      → lookup k d ≡ some ts
  unfolding erase_all
  lookup-erase_all [] k d ts h = h
  lookup-erase_all (j ∷ ks) k d ts h =
      ground (arith, lookup-erase_all ks k (erase j d) ts h, lookup-erase j k d)

  -- The window that a call leaves is not too long.
  pub length-live_window-le :
      (k : K) (now : ℕ) (s : RateLimiter K)
      → HasShortWindows s.event_windows
      → length (live_window config k now s) ≤ config.max_events_per_window
  unfolding live_window drop_expired
  length-live_window-le k now s short = elim (Option-cases (lookup k s.event_windows)) [
    | inl absent ↦ ground arith
    | inr (ts, found) ↦
        ground (arith, found, length-drop_expired-le config.window_seconds now ts, short k ts found)
  ]

  length-next_window-le :
      (k : K) (now : ℕ) (s : RateLimiter K)
      → HasShortWindows s.event_windows
      → length (next_window config k now s) ≤ config.max_events_per_window
  unfolding next_window
  length-next_window-le k now s short = ground (
    arith,
    length-live_window-le k now s short,
    length-append (live_window config k now s) (now ∷ []),
  )

  HasShortWindows-insert :
      (k : K) (ts : List ℕ) (d : Dict K (List ℕ))
      → length ts ≤ config.max_events_per_window
      → HasShortWindows d
      → HasShortWindows (insert k ts d)
  HasShortWindows-insert k ts d fits short j us h =
      ground (arith, lookup-insert k j ts d, short j us)

  pub IsValid-start : IsValid start
  unfolding lookup
  IsValid-start = record {
    same_keys = refl;
    distinct = tt;
    within = omega arith;
    short = λ k ts h. ground arith;
  }

  -- A call keeps the invariant, whether it lets the record through or not, and with any eviction.
  pub should_suppress-IsValid :
      (k : K) (now : ℕ) (s : RateLimiter K) → IsValid s → IsValid (should_suppress config k now s).1
  unfolding should_suppress enforce_cache_limit
  should_suppress-IsValid k now s v =
      let seen = insert k now s.last_seen_at in
      let old = oldest_keys config.max_cache_size seen in
      let windows = insert k (next_window config k now s) s.event_windows in
      let distinct : Unique (keys seen) =
        rw (keys-insert k now s.last_seen_at) (Unique-add_key k (keys s.last_seen_at) v.distinct) in
      record {
        same_keys =
            keys-erase_all old windows
            ∙ ap (drop_keys old) (
                keys-insert k (next_window config k now s) s.event_windows
                ∙ ap (add_key k) v.same_keys
                ∙ sym (keys-insert k now s.last_seen_at))
            ∙ sym (keys-erase_all old seen);
        distinct = rw (keys-erase_all old seen) (Unique-drop_keys old (keys seen) distinct);
        within = omega (
          arith,
          length-keys (erase_all old seen),
          ap (λ (ks : List K). length ks) (keys-erase_all old seen),
          length-evict-le config.max_cache_size seen distinct,
        );
        short = λ j ts h.
            HasShortWindows-insert k (next_window config k now s) s.event_windows
              (length-next_window-le k now s v.short) v.short j ts
              (lookup-erase_all old j windows ts h);
      }
