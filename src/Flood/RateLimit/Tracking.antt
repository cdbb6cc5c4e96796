-- ===== src/Flood/RateLimit/Tracking.antt =====
-- The windows of the rate limiter remember what matters of the history of calls, while no key is evicted.
use product_feed_protocol.Prelude.{
  ℕ, ◌≤◌, ◌≡◌, refl, sym, ap, ◌∙◌, arith, true, false, List, [], ◌∷◌, ◌++◌, Eq, ◌==◌, if◌then◌else◌,
  Bool-cases, inl, inr, length, leb, filter, filter-append,
}
use mathlib.Core.Path.{subst}
use mathlib.Core.List.{append-nil}
use product_feed_protocol.Dict.{lookup, insert, get_or, lookup-insert}
use product_feed_protocol.Dict.Keys.{
  keys, contains, Unique, AllIn, add_key, Unique-add_key, AllIn-add_key, keys-insert, length-keys,
  length-le_of_AllIn,
}
use product_feed_protocol.Flood.{Config}
use product_feed_protocol.Flood.Eviction.{oldest_keys_of_fits}
use product_feed_protocol.Flood.RateLimit.{
  RateLimiter, start, enforce_cache_limit, live_window, is_full, next_window, should_suppress,
}
use product_feed_protocol.Flood.RateLimit.Times.{
  Ascending, AllPast, drop_expired-eq-filter, recent-recent, Ascending-drop_expired,
  AllPast-drop_expired, AllPast-later, AllPast-append, Ascending-append,
}
use product_feed_protocol.Flood.RateLimit.History.{is_recent, times, times-append, spec_full}

module _ {K : Type 0} ⦃e : Eq K⦄ (config : Config) where
  enforce_cache_limit_of_fits :
      (s : RateLimiter K)
      → length s.last_seen_at ≤ config.max_cache_size
      → enforce_cache_limit config s ≡ s
  unfolding enforce_cache_limit
  enforce_cache_limit_of_fits s h = rw (oldest_keys_of_fits config.max_cache_size s.last_seen_at h)

  unfoldable pub window_of : K → RateLimiter K → List ℕ
  window_of k s = get_or k [] s.event_windows

  -- The windows of `s` remember what matters of the history `h`.
  pub record Tracks (names : List K) (s : RateLimiter K) (h : List (K × ℕ)) (last : ℕ)
      : Type 0 where
    same :
        (k : K) (now : ℕ)
        → last ≤ now
        → filter (is_recent config.window_seconds now) (window_of k s)
          ≡ filter (is_recent config.window_seconds now) (times k h)
    ascending : (k : K) → Ascending (window_of k s)
    past : (k : K) → AllPast last (window_of k s)
    named : AllIn (keys s.last_seen_at) names
    distinct : Unique (keys s.last_seen_at)

  live_window-eq :
      (names : List K) (s : RateLimiter K) (h : List (K × ℕ)) (last now : ℕ) (k : K)
      → Tracks names s h last
      → last ≤ now
      → live_window config k now s ≡ filter (is_recent config.window_seconds now) (times k h)
  unfolding live_window window_of
  live_window-eq names s h last now k t le =
      drop_expired-eq-filter config.window_seconds now (window_of k s) (t.ascending k)
      ∙ t.same k now le

  pub is_full-eq :
      (names : List K) (s : RateLimiter K) (h : List (K × ℕ)) (last now : ℕ) (k : K)
      → Tracks names s h last
      → last ≤ now
      → is_full config k now s ≡ spec_full config k now h
  unfolding is_full spec_full
  is_full-eq names s h last now k t le =
      ap (λ ts. leb config.max_events_per_window (length ts))
        (live_window-eq names s h last now k t le)

  -- The state after a call, before the cache limit is enforced.
  unfoldable pub noted : K → ℕ → RateLimiter K → RateLimiter K
  noted k now s = record {
    event_windows = insert k (next_window config k now s) s.event_windows;
    last_seen_at = insert k now s.last_seen_at;
  }

  window_of-noted :
      (k j : K) (now : ℕ) (s : RateLimiter K)
      → window_of j (noted k now s) ≡ (if k == j then next_window config k now s else window_of j s)
  unfolding window_of noted
  window_of-noted k j now s =
      ground (arith, lookup-insert k j (next_window config k now s) s.event_windows)

  keys-noted :
      (k : K) (now : ℕ) (s : RateLimiter K)
      → keys (noted k now s).last_seen_at ≡ add_key k (keys s.last_seen_at)
  unfolding noted
  keys-noted k now s = keys-insert k now s.last_seen_at

  unfoldable pub next_history : K → ℕ → List (K × ℕ) → List (K × ℕ)
  next_history k now h = if spec_full config k now h then h else h ++ (k, now) ∷ []

  module _ (names : List K) (s : RateLimiter K) (h : List (K × ℕ)) (last now : ℕ) (k : K)
      (t : Tracks names s h last) (le : last ≤ now) where
    filter-next_window :
        (later : ℕ)
        → now ≤ later
        → filter (is_recent config.window_seconds later) (next_window config k now s)
          ≡ filter (is_recent config.window_seconds later) (times k (next_history k now h))
    unfolding next_window next_history times
    filter-next_window later after =
        let w = config.window_seconds in
        let old = live_window-eq names s h last now k t le in
        rw (is_full-eq names s h last now k t le) (elim (Bool-cases (spec_full config k now h)) [
          | inl full ↦ rw (full, old) (recent-recent w now later (times k h) after)
          | inr free ↦
              rw
                (
                  free,
                  old,
                  filter-append (is_recent w later) (filter (is_recent w now) (times k h))
                      (now ∷ []),
                  times-append k h ((k, now) ∷ []),
                  filter-append (is_recent w later) (times k h) (times k ((k, now) ∷ [])),
                  recent-recent w now later (times k h) after,
                  (e.same_iff k k).1 refl,
                )
                refl
        ])

    Ascending-next_window : Ascending (next_window config k now s)
    unfolding next_window live_window window_of
    Ascending-next_window =
        let w = config.window_seconds in
        let kept = Ascending-drop_expired w now (window_of k s) (t.ascending k) in
        elim (Bool-cases (is_full config k now s)) [
          | inl full ↦ rw full kept
          | inr free ↦ rw free (
              Ascending-append now (live_window config k now s)
                (AllPast-later last now _ le
                  (AllPast-drop_expired w now last (window_of k s) (t.past k)))
                kept)
        ]

    AllPast-next_window : AllPast now (next_window config k now s)
    unfolding next_window live_window window_of
    AllPast-next_window =
        let w = config.window_seconds in
        let kept =
          AllPast-later last now (live_window config k now s) le
            (AllPast-drop_expired w now last (window_of k s) (t.past k)) in
        elim (Bool-cases (is_full config k now s)) [
          | inl full ↦ rw full kept
          | inr free ↦ rw free (AllPast-append now (live_window config k now s) kept)
        ]

    times-other : (j : K) → (k == j) ≡ false → times j (next_history k now h) ≡ times j h
    unfolding next_history times
    times-other j ne = elim (Bool-cases (spec_full config k now h)) [
      | inl full ↦ rw full
      | inr free ↦ rw (free, times-append j h ((k, now) ∷ []), ne) (append-nil (times j h))
    ]

    pub Tracks-noted :
        contains k names ≡ true → Tracks names (noted k now s) (next_history k now h) now
    Tracks-noted there = record {
      same = λ j later after. rw (window_of-noted k j now s) (elim (Bool-cases (k == j)) [
        | inl eq ↦ rw eq (
            subst
              (λ i.
                filter (is_recent config.window_seconds later) (next_window config k now s)
                ≡ filter (is_recent config.window_seconds later) (times i (next_history k now h)))
              ((e.same_iff k j).0 eq) (filter-next_window later after))
        | inr ne ↦ rw (ne, times-other j ne) (t.same j later (omega arith))
      ]);
      ascending = λ j. rw (window_of-noted k j now s) (elim (Bool-cases (k == j)) [
        | inl eq ↦ rw eq Ascending-next_window
        | inr ne ↦ rw ne (t.ascending j)
      ]);
      past = λ j. rw (window_of-noted k j now s) (elim (Bool-cases (k == j)) [
        | inl eq ↦ rw eq AllPast-next_window
        | inr ne ↦ rw ne (AllPast-later last now (window_of j s) le (t.past j))
      ]);
      named =
          subst (λ ks. AllIn ks names) (sym (keys-noted k now s))
            (AllIn-add_key k (keys s.last_seen_at) names there t.named);
      distinct =
          subst Unique (sym (keys-noted k now s))
            (Unique-add_key k (keys s.last_seen_at) t.distinct);
    }

    pub next_state :
        Unique names
        → length names ≤ config.max_cache_size
        → contains k names ≡ true
        → (should_suppress config k now s).1 ≡ noted k now s
    unfolding should_suppress noted
    next_state distinct room there =
        let t' = Tracks-noted there in
        enforce_cache_limit_of_fits (noted k now s) (
          omega (
            arith,
            length-keys (noted k now s).last_seen_at,
            length-le_of_AllIn (keys (noted k now s).last_seen_at) names t'.distinct distinct
                t'.named,
          ))

  pub decision-eq :
      (k : K) (now : ℕ) (s : RateLimiter K)
      → (should_suppress config k now s).0 ≡ is_full config k now s
  unfolding should_suppress
  decision-eq k now s = refl

  pub Tracks-start : (names : List K) → Tracks names start [] 0
  unfolding window_of lookup times
  Tracks-start names = record {
    same = λ k now le. refl;
    ascending = λ k. tt;
    past = λ k. tt;
    named = λ j h. ground arith;
    distinct = tt;
  }
