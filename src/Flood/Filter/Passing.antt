-- ===== src/Flood/Filter/Passing.antt =====
-- What the filter never suppresses, and that its state stays well formed.
use mathlib.Core.List.{Memᴰ}
use product_feed_protocol.Prelude.{
  ℕ, String, ◌⊎◌, ◌≡◌, refl, string_eq, eq_iff, List, [], ◌∷◌, arith, Bool, true, false, Option,
  none, some, ◌==◌, any, nat_eq, Bool-cases, Option-cases, inl, inr,
}
use product_feed_protocol.Dict.{lookup}
use product_feed_protocol.Flood.{
  Part, null, number, text, unhashable, is_present, Mode, off, context_info_suppression, rate_limit,
  deduplicate, Key, key_eq, Config, LogRecord, Context, get_active_context, is_context_active,
  build_record_key,
}
use product_feed_protocol.Flood.RateLimit.Invariant as RateLimitInvariant
use product_feed_protocol.Flood.Deduplicate.History as DeduplicateHistory
use product_feed_protocol.Flood.Summary.{Emitter}
use product_feed_protocol.Flood.Summary.Invariant as SummaryInvariant
use product_feed_protocol.Flood.Filter.{
  Strategy, allow_all, context_suppression, rate_limiting, deduplicating, Filter, decide,
  note_suppression, pass, call_active, call, is_truthy, is_forced, filter, strategy_for,
  build_filter_strategy,
}

-- The attribute is absent, or a null, a zero, an empty text or an empty container.
abbrev pub IsFalsy : Option Part → Type 0
IsFalsy none = Unit
IsFalsy (some null) = Unit
IsFalsy (some (number n)) = n ≡ 0
IsFalsy (some (text s)) = s ≡ ""
IsFalsy (some (unhashable r)) = (r ≡ "[]") ⊎ ((r ≡ "{}") ⊎ (r ≡ "set()"))

-- No keys are configured, or one of them is in the context.
abbrev pub IsActive : Context → List String → Type 0
IsActive context keys =
    (keys ≡ []) ⊎ ((key : String) × (v : Part) × Memᴰ key keys × (lookup key context ≡ some v))

-- What must hold for a record to be suppressed.
pub record IsSuppressible (config : Config) (context : Context) (r : LogRecord) : Type 0 where
  pub listed : Memᴰ r.levelno config.suppressed_levels
  pub active : IsActive context config.context_keys
  pub not_forced : IsFalsy (lookup config.force_log_attr r.attributes)

is_truthy-IsFalsy : (o : Option Part) → is_truthy o ≡ false → IsFalsy o
unfolding is_truthy
is_truthy-IsFalsy none h = tt
is_truthy-IsFalsy (some null) h = tt
is_truthy-IsFalsy (some (number n)) h = ground (arith, h)
is_truthy-IsFalsy (some (text s)) h = ground (arith, h, eq_iff s "")
is_truthy-IsFalsy (some (unhashable r)) h =
    ground (arith, h, eq_iff r "[]", eq_iff r "{}", eq_iff r "set()")

any-levels : (n : ℕ) (ns : List ℕ) → any (λ level. level == n) ns ≡ true → Memᴰ n ns
any-levels n [] h = ground (arith, h)
any-levels n (m ∷ ns) h = elim (Bool-cases (m == n)) [
  | inl t ↦ Memᴰ.head (ground (arith, t))
  | inr f ↦ Memᴰ.tail (any-levels n ns (rw f at h))
]

any-present :
    (context : Context) (keys : List String)
    → any (λ key. is_present (lookup key context)) keys ≡ true
    → (key : String) × (v : Part) × Memᴰ key keys × (lookup key context ≡ some v)
any-present context [] h = ground (arith, h)
any-present context (key ∷ keys) h = elim (Option-cases (lookup key context)) [
  | inl absent ↦
      let (k, v, there, found) = any-present context keys (rw absent at h) in
      (k, v, Memᴰ.tail there, found)
  | inr (v, found) ↦ (key, v, Memᴰ.head refl, found)
]

is_context_active-IsActive :
    (context : Context) (keys : List String)
    → is_context_active context keys ≡ true
    → IsActive context keys
unfolding is_context_active
is_context_active-IsActive context [] h = inl refl
is_context_active-IsActive context (key ∷ keys) h = inr (any-present context (key ∷ keys) h)

-- The tests that the filter makes before it suppresses a record.
suppressed :
    (config : Config) (now : ℕ) (context : Context) (r : LogRecord) (f : Filter)
    → (filter config now context r f).passes ≡ false
    → (any (λ level. level == r.levelno) config.suppressed_levels ≡ true)
      × (is_context_active context config.context_keys ≡ true)
      × (is_truthy (lookup config.force_log_attr r.attributes) ≡ false)
unfolding filter is_forced call get_active_context pass
suppressed config now context r f h = ground arith

-- A record is suppressed only if its level is listed, no context keys are configured or one of them is in the context, and
-- the attribute that forces a record is absent from it or has a value that Python takes as false.
pub filter-IsSuppressible :
    (config : Config) (now : ℕ) (context : Context) (r : LogRecord) (f : Filter)
    → (filter config now context r f).passes ≡ false
    → IsSuppressible config context r
filter-IsSuppressible config now context r f h =
    let (listed, active, free) = suppressed config now context r f h in
    record {
      listed = any-levels r.levelno config.suppressed_levels listed;
      active = is_context_active-IsActive context config.context_keys active;
      not_forced = is_truthy-IsFalsy (lookup config.force_log_attr r.attributes) free;
    }

-- A record that passes emits no summary, and leaves the counters of the summaries alone.
pub filter_passes :
    (config : Config) (now : ℕ) (context : Context) (r : LogRecord) (f : Filter)
    → (filter config now context r f).passes ≡ true
    → ((filter config now context r f).summary ≡ none)
      × ((filter config now context r f).state.summary_emitter ≡ f.summary_emitter)
unfolding filter call call_active pass
filter_passes config now context r f h = ground arith

abbrev ValidStrategy : Config → Strategy → Type 0
ValidStrategy config allow_all = Unit
ValidStrategy config context_suppression = Unit
ValidStrategy config (rate_limiting s) = RateLimitInvariant.IsValid config s
ValidStrategy config (deduplicating s) = DeduplicateHistory.IsValid config s

abbrev ValidEmitter : Config → Option (Emitter Key) → Type 0
ValidEmitter config none = Unit
ValidEmitter config (some s) = SummaryInvariant.IsValid config s

-- The invariants of the strategy and of the emitter.
pub record IsValid (config : Config) (f : Filter) : Type 0 where
  pub strategy_valid : ValidStrategy config f.strategy
  pub emitter_valid : ValidEmitter config f.summary_emitter

decide-ValidStrategy :
    (config : Config) (key : Key) (now : ℕ) (s : Strategy)
    → ValidStrategy config s
    → ValidStrategy config (decide config key now s).1
unfolding decide
decide-ValidStrategy config key now allow_all v = tt
decide-ValidStrategy config key now context_suppression v = tt
decide-ValidStrategy config key now (rate_limiting s) v =
    RateLimitInvariant.should_suppress-IsValid config key now s v
decide-ValidStrategy config key now (deduplicating s) v =
    DeduplicateHistory.should_suppress-IsValid config key now s v

note_suppression-ValidEmitter :
    (config : Config) (r : LogRecord) (key : Key) (now : ℕ) (s : Option (Emitter Key))
    → ValidEmitter config s
    → ValidEmitter config (note_suppression config r.name key now s).1
unfolding note_suppression
note_suppression-ValidEmitter config r key now none v = tt
note_suppression-ValidEmitter config r key now (some s) v =
    SummaryInvariant.record_suppression-IsValid config key now s v

call_active-IsValid :
    (config : Config) (now : ℕ) (context : Context) (r : LogRecord) (f : Filter)
    → IsValid config f
    → IsValid config (call_active config now context r f).state
unfolding call_active pass
call_active-IsValid config now context r f v =
    let key = build_record_key r context config.key_fields in
    let next = decide-ValidStrategy config key now f.strategy v.strategy_valid in
    elim (Bool-cases (decide config key now f.strategy).0) [
      | inl suppressed ↦ rw suppressed (record {
        strategy_valid = next;
        emitter_valid =
            note_suppression-ValidEmitter config r key now f.summary_emitter v.emitter_valid;
      })
      | inr passed ↦ rw passed (record { strategy_valid = next; emitter_valid = v.emitter_valid })
    ]

call-IsValid :
    (config : Config) (now : ℕ) (context : Context) (r : LogRecord) (f : Filter)
    → IsValid config f
    → IsValid config (call config now context r f).state
unfolding call pass
call-IsValid config now context r f v = elim (Option-cases (get_active_context config r context)) [
  | inl idle ↦ rw (idle, call) v
  | inr (active, found) ↦ rw (found, call) (call_active-IsValid config now active r f v)
]

-- Every call keeps the caches of the filter well formed and within `max_cache_size`.
pub filter-IsValid :
    (config : Config) (now : ℕ) (context : Context) (r : LogRecord) (f : Filter)
    → IsValid config f
    → IsValid config (filter config now context r f).state
unfolding filter pass
filter-IsValid config now context r f v = elim (Bool-cases (is_forced config r)) [
  | inl forced ↦ rw forced v
  | inr free ↦ rw free (call-IsValid config now context r f v)
]

strategy_for-IsValid :
    (config : Config) (enabled : Bool) (mode : Mode) (emit : Bool)
    → IsValid config (strategy_for enabled mode emit)
unfolding strategy_for
strategy_for-IsValid config false mode emit = record { strategy_valid = tt; emitter_valid = tt }
strategy_for-IsValid config true off emit = record { strategy_valid = tt; emitter_valid = tt }
strategy_for-IsValid config true context_info_suppression true = record {
  strategy_valid = tt;
  emitter_valid = SummaryInvariant.IsValid-start config;
}
strategy_for-IsValid config true rate_limit true = record {
  strategy_valid = RateLimitInvariant.IsValid-start config;
  emitter_valid = SummaryInvariant.IsValid-start config;
}
strategy_for-IsValid config true deduplicate true = record {
  strategy_valid = DeduplicateHistory.IsValid-start config;
  emitter_valid = SummaryInvariant.IsValid-start config;
}
strategy_for-IsValid config true context_info_suppression false = record {
  strategy_valid = tt;
  emitter_valid = tt;
}
strategy_for-IsValid config true rate_limit false = record {
  strategy_valid = RateLimitInvariant.IsValid-start config;
  emitter_valid = tt;
}
strategy_for-IsValid config true deduplicate false = record {
  strategy_valid = DeduplicateHistory.IsValid-start config;
  emitter_valid = tt;
}

-- The filter that a configuration builds starts well formed.
pub build_filter_strategy-IsValid :
    (config : Config) → IsValid config (build_filter_strategy config)
unfolding build_filter_strategy
build_filter_strategy-IsValid config =
    strategy_for-IsValid config config.enabled config.mode config.emit_summary
