-- ===== src/Flood/Summary/Invariant.antt =====
-- The caches of the emitter between calls, and exact counting while no key is evicted.
use mathlib.Core.Path.{subst}
use product_feed_protocol.Prelude.{
  ℕ, ◌+◌, ◌≤◌, ◌≡◌, refl, sym, ap, ◌∙◌, arith, true, List, [], ◌∷◌, Eq, Bool-cases, Option-cases,
  inl, inr, length, leb, All,
}
use product_feed_protocol.Dict.{lookup, insert, erase_all, get_or}
use product_feed_protocol.Dict.Keys.{
  keys, contains, Unique, add_key, drop_keys, Unique-add_key, Unique-drop_keys, keys-insert,
  keys-erase_all, length-keys, add_key_of_present, contains-add_key_self, contains_of_lookup, AllIn,
  AllIn-add_key, length-le_of_AllIn,
}
use product_feed_protocol.Flood.{Config}
use product_feed_protocol.Flood.Eviction.{oldest_keys, oldest_keys_of_fits, length-evict-le}
use product_feed_protocol.Flood.Summary.{
  Emitter, start, enforce_cache_limit, settle, count_suppression, record_suppression,
}
use product_feed_protocol.Flood.Summary.Counting.{
  pending, emitted, settled, due-eq, state-eq, pending-settled,
}

module _ {K : Type 0} ⦃e : Eq K⦄ (config : Config) where
  -- Between calls: the three caches have the same keys, each once, at most `max_cache_size`.
  pub record IsValid (s : Emitter K) : Type 0 where
    pub counted : keys s.summary_counts ≡ keys s.last_seen_at
    pub timed : keys s.summary_last_emitted_at ≡ keys s.last_seen_at
    pub distinct : Unique (keys s.last_seen_at)
    pub within : length s.last_seen_at ≤ config.max_cache_size

  record HasKeys (ks : List K) (s : Emitter K) : Type 0 where
    counted : keys s.summary_counts ≡ ks
    timed : keys s.summary_last_emitted_at ≡ ks
    seen : keys s.last_seen_at ≡ ks

  settle-HasKeys :
      (k : K) (now : ℕ) (old : List K) (s : Emitter K)
      → keys s.summary_counts ≡ add_key k old
      → keys s.summary_last_emitted_at ≡ old
      → keys s.last_seen_at ≡ add_key k old
      → HasKeys (add_key k old) (settle config k now (lookup k s.summary_last_emitted_at) s).1
  unfolding settle
  settle-HasKeys k now old s c t l =
      let timed' : keys (insert k now s.summary_last_emitted_at) ≡ add_key k old =
        keys-insert k now s.summary_last_emitted_at ∙ ap (add_key k) t in
      elim (Option-cases (lookup k s.summary_last_emitted_at)) [
        | inl absent ↦ rw (absent, settle) (record { counted = c; timed = timed'; seen = l })
        | inr (u, found) ↦ elim (Bool-cases (leb (u + config.summary_interval_seconds) now)) [
          | inl due ↦
              rw (found, settle, due)
                (record {
                  counted =
                      keys-insert k 0 s.summary_counts
                      ∙ ap (add_key k) c
                      ∙ add_key_of_present k (add_key k old) (contains-add_key_self k old);
                  timed = timed';
                  seen = l;
                })
          | inr early ↦
              rw (found, settle, early)
                (record {
                  counted = c;
                  timed =
                      t
                      ∙ sym (
                          add_key_of_present k old (
                            subst (λ ks. contains k ks ≡ true) t
                              (contains_of_lookup k u s.summary_last_emitted_at found)));
                  seen = l;
                })
        ]
      ]

  settled-HasKeys :
      (k : K) (now : ℕ) (s : Emitter K)
      → IsValid s
      → HasKeys (add_key k (keys s.last_seen_at)) (settled config k now s).1
  unfolding settled count_suppression
  settled-HasKeys k now s v =
      settle-HasKeys k now (keys s.last_seen_at) (count_suppression config k now s)
        (keys-insert k (get_or k 0 s.summary_counts + 1) s.summary_counts
          ∙ ap (add_key k) v.counted)
        v.timed (keys-insert k now s.last_seen_at)

  enforce-IsValid :
      (ks : List K) (s : Emitter K)
      → Unique ks
      → HasKeys ks s
      → IsValid (enforce_cache_limit config s)
  unfolding enforce_cache_limit
  enforce-IsValid ks s u h =
      let old = oldest_keys config.max_cache_size s.last_seen_at in
      let distinct : Unique (keys s.last_seen_at) = subst Unique (sym h.seen) u in
      record {
        counted =
            keys-erase_all old s.summary_counts
            ∙ ap (drop_keys old) (h.counted ∙ sym h.seen)
            ∙ sym (keys-erase_all old s.last_seen_at);
        timed =
            keys-erase_all old s.summary_last_emitted_at
            ∙ ap (drop_keys old) (h.timed ∙ sym h.seen)
            ∙ sym (keys-erase_all old s.last_seen_at);
        distinct =
            rw (keys-erase_all old s.last_seen_at)
              (Unique-drop_keys old (keys s.last_seen_at) distinct);
        within = omega (
          arith,
          length-keys (erase_all old s.last_seen_at),
          ap (λ (js : List K). length js) (keys-erase_all old s.last_seen_at),
          length-evict-le config.max_cache_size s.last_seen_at distinct,
        );
      }

  -- A suppression keeps the invariant, whether a summary is due or not, and with any eviction.
  pub record_suppression-IsValid :
      (k : K) (now : ℕ) (s : Emitter K) → IsValid s → IsValid (record_suppression config k now s).1
  record_suppression-IsValid k now s v = rw (state-eq config k now s) (
      enforce-IsValid (add_key k (keys s.last_seen_at)) (settled config k now s).1
        (Unique-add_key k (keys s.last_seen_at) v.distinct) (settled-HasKeys k now s v))

  pub IsValid-start : IsValid start
  IsValid-start = record { counted = refl; timed = refl; distinct = tt; within = omega arith }

  enforce_cache_limit_of_fits :
      (s : Emitter K)
      → length s.last_seen_at ≤ config.max_cache_size
      → enforce_cache_limit config s ≡ s
  unfolding enforce_cache_limit
  enforce_cache_limit_of_fits s h = rw (oldest_keys_of_fits config.max_cache_size s.last_seen_at h)

  -- What all the summaries of a sequence of suppressions report, and the state that is left.
  unfoldable pub run : List (K × ℕ) → Emitter K → ℕ × Emitter K
  run [] s = (0, s)
  run ((k, now) ∷ calls) s =
      let (total, last) = run calls (record_suppression config k now s).1 in
      (emitted (record_suppression config k now s).0 + total, last)

  run_exact_from :
      (names : List K) (calls : List (K × ℕ)) (s : Emitter K)
      → Unique names
      → length names ≤ config.max_cache_size
      → All (λ c. contains c.0 names ≡ true) calls
      → AllIn (keys s.last_seen_at) names
      → IsValid s
      → (run calls s).0 + pending (run calls s).1.summary_counts
        ≡ pending s.summary_counts + length calls
  unfolding run
  run_exact_from names [] s u room n here v = omega arith
  run_exact_from names ((k, now) ∷ calls) s u room (there, n) here v =
      let s' = (settled config k now s).1 in
      let h = settled-HasKeys k now s v in
      let named = AllIn-add_key k (keys s.last_seen_at) names there here in
      let distinct = Unique-add_key k (keys s.last_seen_at) v.distinct in
      let fits : length s'.last_seen_at ≤ config.max_cache_size = omega (
        arith,
        length-keys s'.last_seen_at,
        ap (λ (js : List K). length js) h.seen,
        length-le_of_AllIn (add_key k (keys s.last_seen_at)) names distinct u named,
      ) in
      let same = state-eq config k now s ∙ enforce_cache_limit_of_fits s' fits in
      let v' : IsValid s' = subst IsValid same (record_suppression-IsValid k now s v) in
      let rest =
        run_exact_from names calls s' u room n (subst (λ ks. AllIn ks names) (sym h.seen) named)
          v' in
      rw (same, due-eq config k now s) (omega (arith, rest, pending-settled config k now s))

  -- From an empty emitter, with suppressions of at most `max_cache_size` different keys, what the
  -- summaries report and what is still pending add up to the number of suppressed records.
  pub run_exact :
      (names : List K) (calls : List (K × ℕ))
      → Unique names
      → length names ≤ config.max_cache_size
      → All (λ c. contains c.0 names ≡ true) calls
      → (run calls start).0 + pending (run calls start).1.summary_counts ≡ length calls
  unfolding pending
  run_exact names calls u room n =
      run_exact_from names calls start u room n (λ j h. ground arith) IsValid-start ∙ omega arith
