-- ===== src/Flood/RateLimit/History.antt =====
-- What the rate limit promises, stated on the whole history of records that were let through, with
-- no window to keep: a record is suppressed when `max_events_per_window` records of its key were
-- let through less than `window_seconds` ago.
use product_feed_protocol.Prelude.{
  ℕ, ◌+◌, ◌≤◌, ◌<◌, ◌≡◌, refl, arith, Bool, false, ◌&&◌, List, [], ◌∷◌, ◌++◌, Eq, ◌==◌,
  if◌then◌else◌, Bool-cases, inl, inr, length, leb, ltb, filter, length-append, filter-append,
}
use mathlib.Core.List.{append-nil, append_assoc}
use product_feed_protocol.Flood.{Config}

-- Less than `window` ticks old.
abbrev pub is_recent : ℕ → ℕ → ℕ → Bool
is_recent window now t = ltb now (t + window)

-- In the `window` ticks that begin with `from`.
abbrev pub is_within : ℕ → ℕ → ℕ → Bool
is_within window from t = leb from t && ltb t (from + window)

module _ {K : Type 0} ⦃e : Eq K⦄ where
  unfoldable pub times : K → List (K × ℕ) → List ℕ
  times k [] = []
  times k ((j, t) ∷ h) = if j == k then t ∷ times k h else times k h

  pub times-append : (k : K) (h g : List (K × ℕ)) → times k (h ++ g) ≡ times k h ++ times k g
  unfolding times
  times-append k [] g = refl
  times-append k ((j, t) ∷ h) g = ground (arith, times-append k h g)

  -- The calls that were let through, given the decisions on them.
  unfoldable pub let_through : List (K × ℕ) → List Bool → List (K × ℕ)
  let_through (c ∷ calls) (full ∷ decisions) =
      if full then let_through calls decisions else c ∷ let_through calls decisions
  let_through _ _ = []

module _ {K : Type 0} ⦃e : Eq K⦄ (config : Config) where
  unfoldable pub spec_full : K → ℕ → List (K × ℕ) → Bool
  spec_full k now h =
      leb config.max_events_per_window
        (length (filter (is_recent config.window_seconds now) (times k h)))

  unfoldable pub spec_run : List (K × ℕ) → List (K × ℕ) → List Bool
  spec_run [] h = []
  spec_run ((k, now) ∷ calls) h =
      let full = spec_full k now h in full ∷ spec_run calls (if full then h else h ++ (k, now) ∷ [])

  -- No key has more than the maximum in any window.
  abbrev pub IsBounded : List (K × ℕ) → Type 0
  IsBounded h =
      (k : K) (from : ℕ)
      → length (filter (is_within config.window_seconds from) (times k h))
        ≤ config.max_events_per_window

within-le-recent :
    (w from now : ℕ) (ts : List ℕ)
    → now < from + w
    → length (filter (is_within w from) ts) ≤ length (filter (is_recent w now) ts)
within-le-recent w from now [] h = omega arith
within-le-recent w from now (t ∷ ts) h = ground (arith, within-le-recent w from now ts h)

module _ {K : Type 0} ⦃e : Eq K⦄ (config : Config) where
  IsBounded-append :
      (k : K) (now : ℕ) (h : List (K × ℕ))
      → IsBounded config h
      → spec_full config k now h ≡ false
      → IsBounded config (h ++ (k, now) ∷ [])
  unfolding spec_full times
  IsBounded-append k now h b free j from =
      let old = times j h in
      let w = config.window_seconds in
      rw
        (
          times-append j h ((k, now) ∷ []),
          filter-append (is_within w from) old (times j ((k, now) ∷ [])),
          length-append (filter (is_within w from) old)
              (filter (is_within w from) (times j ((k, now) ∷ []))),
        )
        (ground (arith, b j from, within-le-recent w from now old, e.same_iff k j))

  spec_run-IsBounded :
      (calls h : List (K × ℕ))
      → IsBounded config h
      → IsBounded config (h ++ let_through calls (spec_run config calls h))
  unfolding spec_run let_through
  spec_run-IsBounded [] h b = rw append-nil b
  spec_run-IsBounded ((k, now) ∷ calls) h b = elim (Bool-cases (spec_full config k now h)) [
    | inl full ↦ rw full (spec_run-IsBounded calls h b)
    | inr free ↦
        rw (free, ← append_assoc h ((k, now) ∷ []))
          (spec_run-IsBounded calls (h ++ (k, now) ∷ []) (IsBounded-append k now h b free))
  ]

  pub spec_run_bound :
      (calls : List (K × ℕ)) → IsBounded config (let_through calls (spec_run config calls []))
  unfolding times
  spec_run_bound calls = spec_run-IsBounded calls [] (λ k from. omega arith)
