-- ===== src/Flood/Deduplicate/History.antt =====
-- The duplicate test against the history of calls, the invariant of the caches, and what happens to
-- a record that keeps coming.
use product_feed_protocol.Prelude.{
  ℕ, ◌+◌, ◌≤◌, ◌<◌, ◌≡◌, ◌↔◌, refl, sym, ap, ◌∙◌, arith, Bool, true, false, Option, none, some,
  List, [], ◌∷◌, map, Eq, ◌==◌, if◌then◌else◌, length, All,
}
use mathlib.Core.Path.{subst}
use product_feed_protocol.Dict.{lookup, insert, erase_all, lookup-insert}
use product_feed_protocol.Dict.Keys.{
  keys, contains, Unique, AllIn, Unique-add_key, Unique-drop_keys, AllIn-add_key, keys-insert,
  keys-erase_all, length-keys, length-le_of_AllIn,
}
use product_feed_protocol.Flood.{Config}
use product_feed_protocol.Flood.Eviction.{oldest_keys, oldest_keys_of_fits, length-evict-le}
use product_feed_protocol.Flood.Deduplicate.{
  Deduplicator, start, enforce_cache_limit, is_duplicate, should_suppress, run,
}

-- Each time is less than the window after the one before it.
abbrev pub IsBurst : ℕ → ℕ → List ℕ → Type 0
IsBurst window last [] = Unit
IsBurst window last (now ∷ ts) = (now < last + window) × IsBurst window now ts

-- There was a call, and it was less than the window before.
abbrev pub IsRepeat : Config → Option ℕ → ℕ → Type 0
IsRepeat config o now = (seen : ℕ) × (o ≡ some seen) × (now < seen + config.window_seconds)

is_duplicate-IsRepeat :
    (config : Config) (o : Option ℕ) (now : ℕ)
    → (is_duplicate config o now ≡ true) ↔ IsRepeat config o now
unfolding is_duplicate
is_duplicate-IsRepeat config none now =
    (λ h. ground (arith, h), λ r. let (seen, h, _) = r in ground (arith, h))
is_duplicate-IsRepeat config (some seen) now =
    (λ h. (seen, refl, ground (arith, h)), λ r. let (seen', h, k) = r in ground (arith, h, k))

module _ {K : Type 0} ⦃e : Eq K⦄ where
  -- The time of the last call for a key, of a history with its newest call at the head.
  unfoldable pub last_call : K → List (K × ℕ) → Option ℕ
  last_call k [] = none
  last_call k ((j, t) ∷ h) = if j == k then some t else last_call k h

module _ {K : Type 0} ⦃e : Eq K⦄ (config : Config) where
  -- Between calls the two caches are one, with each key once and at most `max_cache_size` of them.
  pub record IsValid (s : Deduplicator K) : Type 0 where
    pub same : s.seen_at ≡ s.last_seen_at
    pub distinct : Unique (keys s.last_seen_at)
    pub within : length s.last_seen_at ≤ config.max_cache_size

  pub IsValid-start : IsValid start
  IsValid-start = record { same = refl; distinct = tt; within = omega arith }

  -- A call keeps the invariant, whatever the decision and with any eviction.
  pub should_suppress-IsValid :
      (k : K) (now : ℕ) (s : Deduplicator K)
      → IsValid s
      → IsValid (should_suppress config k now s).1
  unfolding should_suppress enforce_cache_limit
  should_suppress-IsValid k now s v =
      let seen = insert k now s.last_seen_at in
      let old = oldest_keys config.max_cache_size seen in
      let distinct : Unique (keys seen) =
        rw (keys-insert k now s.last_seen_at) (Unique-add_key k (keys s.last_seen_at) v.distinct) in
      record {
        same = ap (λ d. erase_all old (insert k now d)) v.same;
        distinct = rw (keys-erase_all old seen) (Unique-drop_keys old (keys seen) distinct);
        within = omega (
          arith,
          length-keys (erase_all old seen),
          ap (λ (ks : List K). length ks) (keys-erase_all old seen),
          length-evict-le config.max_cache_size seen distinct,
        );
      }

  -- The specification: a call is a duplicate of the last call for its key.
  unfoldable pub last_call_run : List (K × ℕ) → List (K × ℕ) → List Bool
  last_call_run [] h = []
  last_call_run ((k, now) ∷ calls) h =
      is_duplicate config (last_call k h) now ∷ last_call_run calls ((k, now) ∷ h)

  record Tracks (names : List K) (s : Deduplicator K) (h : List (K × ℕ)) : Type 0 where
    remembers : (k : K) → lookup k s.seen_at ≡ last_call k h
    named : AllIn (keys s.last_seen_at) names
    distinct : Unique (keys s.last_seen_at)

  noted : K → ℕ → Deduplicator K → Deduplicator K
  noted k now s = record {
    seen_at = insert k now s.seen_at;
    last_seen_at = insert k now s.last_seen_at;
  }

  Tracks-noted :
      (names : List K) (s : Deduplicator K) (h : List (K × ℕ)) (k : K) (now : ℕ)
      → contains k names ≡ true
      → Tracks names s h
      → Tracks names (noted k now s) ((k, now) ∷ h)
  unfolding noted last_call
  Tracks-noted names s h k now there t = record {
    remembers = λ j. ground (arith, lookup-insert k j now s.seen_at, t.remembers j);
    named =
        subst (λ ks. AllIn ks names) (sym (keys-insert k now s.last_seen_at))
          (AllIn-add_key k (keys s.last_seen_at) names there t.named);
    distinct =
        subst Unique (sym (keys-insert k now s.last_seen_at))
          (Unique-add_key k (keys s.last_seen_at) t.distinct);
  }

  next_state :
      (names : List K) (s : Deduplicator K) (h : List (K × ℕ)) (k : K) (now : ℕ)
      → Unique names
      → length names ≤ config.max_cache_size
      → Tracks names (noted k now s) ((k, now) ∷ h)
      → (should_suppress config k now s).1 ≡ noted k now s
  unfolding should_suppress noted enforce_cache_limit
  next_state names s h k now u room t =
      let seen = insert k now s.last_seen_at in
      rw (
        oldest_keys_of_fits config.max_cache_size seen (
          omega
            (arith, length-keys seen, length-le_of_AllIn (keys seen) names t.distinct u t.named)))

  decision-eq :
      (k : K) (now : ℕ) (s : Deduplicator K)
      → (should_suppress config k now s).0 ≡ is_duplicate config (lookup k s.seen_at) now
  unfolding should_suppress
  decision-eq k now s = refl

  run-eq-last_call_run_from :
      (names : List K) (calls : List (K × ℕ)) (s : Deduplicator K) (h : List (K × ℕ))
      → Unique names
      → length names ≤ config.max_cache_size
      → All (λ c. contains c.0 names ≡ true) calls
      → Tracks names s h
      → run config calls s ≡ last_call_run calls h
  unfolding run last_call_run
  run-eq-last_call_run_from names [] s h u room n t = refl
  run-eq-last_call_run_from names ((k, now) ∷ calls) s h u room (there, n) t =
      let t' = Tracks-noted names s h k now there t in
      rw (decision-eq k now s, t.remembers k, next_state names s h k now u room t')
        (ap (◌∷◌ (is_duplicate config (last_call k h) now))
          (run-eq-last_call_run_from names calls (noted k now s) ((k, now) ∷ h) u room n t'))

  -- From empty caches, with calls for at most `max_cache_size` different keys, no eviction changes a decision.
  pub run-eq-last_call_run :
      (names : List K) (calls : List (K × ℕ))
      → Unique names
      → length names ≤ config.max_cache_size
      → All (λ c. contains c.0 names ≡ true) calls
      → run config calls start ≡ last_call_run calls []
  unfolding lookup last_call
  run-eq-last_call_run names calls u room n =
      run-eq-last_call_run_from names calls start [] u room n
        (record { remembers = λ k. refl; named = λ j h. ground arith; distinct = tt })

  -- Of each call, after a history, it is said whether it repeats the last call for its key.
  abbrev pub AreRepeats : List (K × ℕ) → List (K × ℕ) → List Bool → Type 0
  AreRepeats [] h bs = bs ≡ []
  AreRepeats ((k, now) ∷ calls) h bs =
      (b : Bool) × (rest : List Bool) × (bs ≡ b ∷ rest)
      × ((b ≡ true) ↔ IsRepeat config (last_call k h) now)
      × AreRepeats calls ((k, now) ∷ h) rest

  last_call_run-AreRepeats :
      (calls : List (K × ℕ)) (h : List (K × ℕ)) → AreRepeats calls h (last_call_run calls h)
  unfolding last_call_run
  last_call_run-AreRepeats [] h = refl
  last_call_run-AreRepeats ((k, now) ∷ calls) h = (
    _,
    _,
    refl,
    is_duplicate-IsRepeat config (last_call k h) now,
    last_call_run-AreRepeats calls ((k, now) ∷ h),
  )

  -- From empty caches, with calls for at most `max_cache_size` different keys, a call is suppressed exactly if there was a
  -- call for its key before, suppressed or not, and the last one was less than `window_seconds` ago.
  pub run-AreRepeats :
      (names : List K) (calls : List (K × ℕ))
      → Unique names
      → length names ≤ config.max_cache_size
      → All (λ c. contains c.0 names ≡ true) calls
      → AreRepeats calls [] (run config calls start)
  run-AreRepeats names calls u room n =
      rw (run-eq-last_call_run names calls u room n) (last_call_run-AreRepeats calls [])

  -- The same record at each of the times.
  abbrev pub calls_at : K → List ℕ → List (K × ℕ)
  calls_at k ts = map (λ t. (k, t)) ts

  last_call_run_burst :
      (k : K) (last : ℕ) (ts : List ℕ) (h : List (K × ℕ))
      → last_call k h ≡ some last
      → IsBurst config.window_seconds last ts
      → last_call_run (calls_at k ts) h ≡ map (λ _. true) ts
  unfolding last_call_run is_duplicate last_call
  last_call_run_burst k last [] h p b = refl
  last_call_run_burst k last (now ∷ ts) h p (q, b) =
      let again = last_call_run_burst k now ts ((k, now) ∷ h) (rw ((e.same_iff k k).1 refl)) b in
      ground (arith, p, q, again)

  calls_at-named : (k : K) (ts : List ℕ) → All (λ c. contains c.0 (k ∷ []) ≡ true) (calls_at k ts)
  calls_at-named k [] = tt
  calls_at-named k (t ∷ ts) = (ground (arith, e.same_iff k k), calls_at-named k ts)

  -- Of a record that keeps coming, each time less than the window after the time before, only the
  -- first is let through, however long it goes on.
  pub run_burst :
      (k : K) (first : ℕ) (ts : List ℕ)
      → 1 ≤ config.max_cache_size
      → IsBurst config.window_seconds first ts
      → run config (calls_at k (first ∷ ts)) start ≡ false ∷ map (λ _. true) ts
  unfolding last_call_run is_duplicate last_call
  run_burst k first ts room b =
      run-eq-last_call_run (k ∷ []) (calls_at k (first ∷ ts)) (refl, tt) room
        (calls_at-named k (first ∷ ts))
      ∙ ap (◌∷◌ false)
          (last_call_run_burst k first ts ((k, first) ∷ []) (rw ((e.same_iff k k).1 refl)) b)
