-- ===== src/Flood/Summary/Counting.antt =====
-- The counters of the summaries: nothing is counted twice, and nothing is lost but by eviction.
use product_feed_protocol.Prelude.{
  ℕ, ◌+◌, ◌≤◌, ◌≡◌, refl, ◌∙◌, arith, Option, none, some, List, [], ◌∷◌, Eq, Bool-cases, inl, inr,
  leb,
}
use product_feed_protocol.Dict.{Dict, lookup, insert, erase, erase_all, get_or}
use product_feed_protocol.Flood.{Config}
use product_feed_protocol.Flood.Eviction.{oldest_keys}
use product_feed_protocol.Flood.Summary.{
  Emitter, enforce_cache_limit, settle, count_suppression, record_suppression,
}

module _ {K : Type 0} where
  -- All that is counted and not yet summarised.
  unfoldable pub pending : Dict K ℕ → ℕ
  pending [] = 0
  pending ((k, n) ∷ d) = n + pending d

unfoldable pub emitted : Option ℕ → ℕ
emitted none = 0
emitted (some n) = n

module _ {K : Type 0} ⦃e : Eq K⦄ where
  pending-insert :
      (k : K) (n : ℕ) (d : Dict K ℕ) → pending (insert k n d) + get_or k 0 d ≡ pending d + n
  unfolding pending insert lookup
  pending-insert k n [] = omega arith
  pending-insert k n ((j, m) ∷ d) = ground (arith, pending-insert k n d)

  pending-erase-le : (k : K) (d : Dict K ℕ) → pending (erase k d) ≤ pending d
  unfolding pending erase
  pending-erase-le k [] = omega arith
  pending-erase-le k ((j, m) ∷ d) = ground (arith, pending-erase-le k d)

  pending-erase_all-le : (ks : List K) (d : Dict K ℕ) → pending (erase_all ks d) ≤ pending d
  unfolding erase_all
  pending-erase_all-le [] d = omega arith
  pending-erase_all-le (k ∷ ks) d =
      omega (arith, pending-erase_all-le ks (erase k d), pending-erase-le k d)

module _ {K : Type 0} ⦃e : Eq K⦄ (config : Config) where
  pending-count_suppression :
      (k : K) (now : ℕ) (s : Emitter K)
      → pending (count_suppression config k now s).summary_counts ≡ pending s.summary_counts + 1
  unfolding count_suppression
  pending-count_suppression k now s =
      omega (arith, pending-insert k (get_or k 0 s.summary_counts + 1) s.summary_counts)

  pending-settle :
      (k : K) (now : ℕ) (last : Option ℕ) (s : Emitter K)
      → pending (settle config k now last s).1.summary_counts
          + emitted (settle config k now last s).0
        ≡ pending s.summary_counts
  unfolding settle emitted
  pending-settle k now none s = omega arith
  pending-settle k now (some t) s =
      elim (Bool-cases (leb (t + config.summary_interval_seconds) now)) [
        | inl due ↦ rw due (omega (arith, pending-insert k 0 s.summary_counts))
        | inr early ↦ rw early (omega arith)
      ]

  unfoldable pub settled : K → ℕ → Emitter K → Option ℕ × Emitter K
  settled k now s =
      settle config k now (lookup k s.summary_last_emitted_at) (count_suppression config k now s)

  pub due-eq :
      (k : K) (now : ℕ) (s : Emitter K)
      → (record_suppression config k now s).0 ≡ (settled k now s).0
  unfolding record_suppression settled
  due-eq k now s = refl

  pub state-eq :
      (k : K) (now : ℕ) (s : Emitter K)
      → (record_suppression config k now s).1 ≡ enforce_cache_limit config (settled k now s).1
  unfolding record_suppression settled
  state-eq k now s = refl

  pub pending-settled :
      (k : K) (now : ℕ) (s : Emitter K)
      → pending (settled k now s).1.summary_counts + emitted (settled k now s).0
        ≡ pending s.summary_counts + 1
  unfolding settled
  pending-settled k now s =
      pending-settle k now (lookup k s.summary_last_emitted_at) (count_suppression config k now s)
      ∙ pending-count_suppression k now s

  -- Whatever the state, a suppression adds at most one to what is pending and what the summary that
  -- it may emit reports: no suppressed record is counted twice.
  pub record_suppression-le :
      (k : K) (now : ℕ) (s : Emitter K)
      → pending (record_suppression config k now s).1.summary_counts
          + emitted (record_suppression config k now s).0
        ≤ pending s.summary_counts + 1
  unfolding enforce_cache_limit
  record_suppression-le k now s =
      let s' = (settled k now s).1 in
      rw (state-eq k now s, due-eq k now s)
        (omega (
          arith,
          pending-erase_all-le (oldest_keys config.max_cache_size s'.last_seen_at)
              s'.summary_counts,
          pending-settled k now s,
        ))
