-- ===== src/Flood/Eviction.antt =====
-- The cache limit that the stateful strategies and the summary emitter share: when more keys are
-- remembered than `max_cache_size`, those seen longest ago are forgotten.
use product_feed_protocol.Prelude.{
  ℕ, ◌+◌, ◌-◌, ◌≤◌, ◌≡◌, refl, sym, ap, ◌∙◌, arith, Bool, false, ◌||◌, List, [], ◌∷◌, Eq, ◌==◌,
  if◌then◌else◌, Bool-cases, inl, inr, length, take, leb, length-take, leb→le, le→leb,
}
use product_feed_protocol.Dict.{Dict}
use product_feed_protocol.Dict.Keys.{
  keys, contains, Unique, AllIn, drop_keys, length-drop_keys, contains-take, Unique-take,
  length-keys,
}
use product_feed_protocol.Sorting.{insert_by, sorted}

module _ {K : Type 0} where
  -- `key=lambda item: item[1]`
  abbrev pub by_time : K × ℕ → K × ℕ → Bool
  by_time a b = leb a.1 b.1

  -- `sorted(last_seen_at.items(), …)[:overflow]`, and nothing when the cache is within its limit.
  unfoldable pub oldest_keys : ℕ → Dict K ℕ → List K
  unfolding sorted
  oldest_keys limit last_seen_at =
      if leb (length last_seen_at) limit
      then []
      else keys (take (length last_seen_at - limit) (sorted by_time last_seen_at))

module _ {K : Type 0} ⦃e : Eq K⦄ where
  contains-insert_by :
      (j : K) (x : K × ℕ) (xs : Dict K ℕ)
      → contains j (keys (insert_by by_time x xs)) ≡ ((x.0 == j) || contains j (keys xs))
  unfolding insert_by
  contains-insert_by j x [] = refl
  contains-insert_by j x (y ∷ ys) = ground (arith, contains-insert_by j x ys)

  contains-sorted :
      (j : K) (xs : Dict K ℕ) → contains j (keys (sorted by_time xs)) ≡ contains j (keys xs)
  unfolding sorted
  contains-sorted j [] = refl
  contains-sorted j (x ∷ xs) =
      contains-insert_by j x (sorted by_time xs) ∙ ap (λ b. (x.0 == j) || b) (contains-sorted j xs)

  Unique-insert_by :
      (x : K × ℕ) (xs : Dict K ℕ)
      → contains x.0 (keys xs) ≡ false
      → Unique (keys xs)
      → Unique (keys (insert_by by_time x xs))
  unfolding insert_by
  Unique-insert_by x [] out u = (refl, tt)
  Unique-insert_by x (y ∷ ys) out u = ground (
    arith,
    contains-insert_by y.0 x ys,
    Unique-insert_by x ys,
    e.same_iff x.0 y.0,
    e.same_iff y.0 x.0,
  )

  Unique-sorted : (xs : Dict K ℕ) → Unique (keys xs) → Unique (keys (sorted by_time xs))
  unfolding sorted
  Unique-sorted [] u = tt
  Unique-sorted (x ∷ xs) u =
      Unique-insert_by x (sorted by_time xs) (contains-sorted x.0 xs ∙ u.0) (Unique-sorted xs u.1)

  length-insert_by : (x : K × ℕ) (xs : Dict K ℕ) → length (insert_by by_time x xs) ≡ length xs + 1
  unfolding insert_by
  length-insert_by x [] = omega arith
  length-insert_by x (y ∷ ys) = ground (arith, length-insert_by x ys)

  pub length-sorted : (xs : Dict K ℕ) → length (sorted by_time xs) ≡ length xs
  unfolding sorted
  length-sorted [] = refl
  length-sorted (x ∷ xs) = omega (arith, length-insert_by x (sorted by_time xs), length-sorted xs)

  keys-take : (n : ℕ) (xs : Dict K ℕ) → keys (take n xs) ≡ take n (keys xs)
  keys-take ℕ.zero xs = refl
  keys-take (ℕ.suc n) [] = refl
  keys-take (ℕ.suc n) (x ∷ xs) = ap (◌∷◌ x.0) (keys-take n xs)

  -- The keys to forget are keys of the cache, each named once.
  oldest_keys-AllIn : (limit : ℕ) (d : Dict K ℕ) → AllIn (oldest_keys limit d) (keys d)
  unfolding oldest_keys
  oldest_keys-AllIn limit d j h = elim (Bool-cases (leb (length d) limit)) [
    | inl fits ↦ ground arith
    | inr over ↦
        sym (contains-sorted j d)
        ∙ contains-take (length d - limit) j (keys (sorted by_time d))
            (rw (← keys-take (length d - limit) (sorted by_time d)) (rw over at h))
  ]

  oldest_keys-Unique : (limit : ℕ) (d : Dict K ℕ) → Unique (keys d) → Unique (oldest_keys limit d)
  unfolding oldest_keys
  oldest_keys-Unique limit d u = elim (Bool-cases (leb (length d) limit)) [
    | inl fits ↦ rw fits tt
    | inr over ↦
        rw (over, keys-take (length d - limit) (sorted by_time d))
          (Unique-take (length d - limit) (keys (sorted by_time d)) (Unique-sorted d u))
  ]

  length-oldest_keys : (limit : ℕ) (d : Dict K ℕ) → length (oldest_keys limit d) ≡ length d - limit
  unfolding oldest_keys
  length-oldest_keys limit d = elim (Bool-cases (leb (length d) limit)) [
    | inl fits ↦ rw fits (omega (arith, leb→le _ _ fits))
    | inr over ↦ rw over (
        omega (
          arith,
          length-keys (take (length d - limit) (sorted by_time d)),
          length-take (length d - limit) (sorted by_time d),
          length-sorted d,
        ))
  ]

  -- Forgetting the oldest keys leaves at most `limit` of them, whatever was remembered.
  pub length-evict-le :
      (limit : ℕ) (d : Dict K ℕ)
      → Unique (keys d)
      → length (drop_keys (oldest_keys limit d) (keys d)) ≤ limit
  length-evict-le limit d u = omega (
    arith,
    length-drop_keys (oldest_keys limit d) (keys d) (oldest_keys-Unique limit d u) u
        (oldest_keys-AllIn limit d),
    length-oldest_keys limit d,
    length-keys d,
  )

  -- Within the limit nothing is forgotten.
  pub oldest_keys_of_fits : (limit : ℕ) (d : Dict K ℕ) → length d ≤ limit → oldest_keys limit d ≡ []
  unfolding oldest_keys
  oldest_keys_of_fits limit d h = rw (le→leb (length d) limit h)
