-- ===== src/Dict/Keys.antt =====
-- The keys of a dictionary, in order and without repetition, and how many there are.
use product_feed_protocol.Prelude.{
  ℕ, suc, ◌+◌, ◌≤◌, ◌≡◌, refl, ap, ◌∙◌, arith, Bool, true, false, ◌||◌, some, List, [], ◌∷◌, map,
  Eq, ◌==◌, if◌then◌else◌, length, length-map, take,
}
use product_feed_protocol.Dict.{Dict, lookup, insert, erase, erase_all}

module _ {K : Type 0} ⦃e : Eq K⦄ where
  abbrev pub contains : K → List K → Bool
  contains j [] = false
  contains j (k ∷ ks) = (k == j) || contains j ks

  abbrev pub Unique : List K → Type 0
  Unique [] = Unit
  Unique (k ∷ ks) = (contains k ks ≡ false) × Unique ks

  -- The keys after a write and after a `pop`.
  unfoldable pub add_key : K → List K → List K
  add_key k [] = k ∷ []
  add_key k (j ∷ ks) = if j == k then j ∷ ks else j ∷ add_key k ks

  pub drop_key : K → List K → List K
  drop_key k [] = []
  drop_key k (j ∷ ks) = let rest = drop_key k ks in if j == k then rest else j ∷ rest

  pub drop_keys : List K → List K → List K
  drop_keys [] ks = ks
  drop_keys (j ∷ js) ks = drop_keys js (drop_key j ks)

  pub contains-add_key :
      (k j : K) (ks : List K) → contains j (add_key k ks) ≡ ((k == j) || contains j ks)
  unfolding add_key
  contains-add_key k j [] = refl
  contains-add_key k j (i ∷ ks) =
      ground (arith, e.same_iff i k, e.same_iff i j, e.same_iff k j, contains-add_key k j ks)

  pub Unique-add_key : (k : K) (ks : List K) → Unique ks → Unique (add_key k ks)
  unfolding add_key
  Unique-add_key k [] u = (refl, tt)
  Unique-add_key k (i ∷ ks) u =
      ground
        (arith, e.same_iff i k, e.same_iff k i, contains-add_key k i ks, Unique-add_key k ks u.1)

  pub contains-drop_key :
      (k j : K) (ks : List K)
      → contains j (drop_key k ks) ≡ (if k == j then false else contains j ks)
  unfolding drop_key
  contains-drop_key k j [] = ground arith
  contains-drop_key k j (i ∷ ks) =
      ground (arith, e.same_iff i k, e.same_iff i j, e.same_iff k j, contains-drop_key k j ks)

  pub Unique-drop_key : (k : K) (ks : List K) → Unique ks → Unique (drop_key k ks)
  unfolding drop_key
  Unique-drop_key k [] u = tt
  Unique-drop_key k (i ∷ ks) u =
      ground (arith, e.same_iff i k, contains-drop_key k i ks, Unique-drop_key k ks u.1)

  drop_key_of_absent : (k : K) (ks : List K) → contains k ks ≡ false → drop_key k ks ≡ ks
  unfolding drop_key
  drop_key_of_absent k [] h = refl
  drop_key_of_absent k (i ∷ ks) h = ground (arith, drop_key_of_absent k ks)

  length-drop_key :
      (k : K) (ks : List K)
      → Unique ks
      → contains k ks ≡ true
      → suc (length (drop_key k ks)) ≡ length ks
  unfolding drop_key
  length-drop_key k [] u h = ground arith
  length-drop_key k (i ∷ ks) u h =
      ground (arith, e.same_iff i k, drop_key_of_absent k ks, length-drop_key k ks u.1)

  pub length-add_key-le : (k : K) (ks : List K) → length (add_key k ks) ≤ suc (length ks)
  unfolding add_key
  length-add_key-le k [] = omega arith
  length-add_key-le k (i ∷ ks) = ground (arith, length-add_key-le k ks)

  abbrev pub AllIn : List K → List K → Type 0
  AllIn js ks = (j : K) → contains j js ≡ true → contains j ks ≡ true

  AllIn-drop_key :
      (j : K) (js ks : List K)
      → contains j js ≡ false
      → AllIn (j ∷ js) ks
      → AllIn js (drop_key j ks)
  AllIn-drop_key j js ks out h i c = ground (arith, contains-drop_key j i ks, h i, e.same_iff j i)

  -- Popping distinct keys that are all there takes one entry for each.
  pub length-drop_keys :
      (js ks : List K)
      → Unique js
      → Unique ks
      → AllIn js ks
      → length (drop_keys js ks) + length js ≡ length ks
  unfolding drop_keys
  length-drop_keys [] ks uj uk h = omega arith
  length-drop_keys (j ∷ js) ks uj uk h =
      let there : contains j ks ≡ true = h j (ground (arith, e.same_iff j j)) in
      omega (
        arith,
        length-drop_key j ks uk there,
        length-drop_keys js (drop_key j ks) uj.1 (Unique-drop_key j ks uk)
            (AllIn-drop_key j js ks uj.0 h),
      )

  pub Unique-drop_keys : (js ks : List K) → Unique ks → Unique (drop_keys js ks)
  unfolding drop_keys
  Unique-drop_keys [] ks u = u
  Unique-drop_keys (j ∷ js) ks u = Unique-drop_keys js (drop_key j ks) (Unique-drop_key j ks u)

  pub contains-take :
      (n : ℕ) (j : K) (ks : List K) → contains j (take n ks) ≡ true → contains j ks ≡ true
  contains-take ℕ.zero j ks h = ground arith
  contains-take (suc n) j [] h = h
  contains-take (suc n) j (k ∷ ks) h = ground (arith, contains-take n j ks)

  pub Unique-take : (n : ℕ) (ks : List K) → Unique ks → Unique (take n ks)
  Unique-take ℕ.zero ks u = tt
  Unique-take (suc n) [] u = tt
  Unique-take (suc n) (k ∷ ks) u = ground (arith, contains-take n k ks, Unique-take n ks u.1)

module _ {K V : Type 0} where
  -- `d.keys()`
  abbrev pub keys : Dict K V → List K
  keys d = map (λ (p : K × V). p.0) d

  pub length-keys : (d : Dict K V) → length (keys d) ≡ length d
  length-keys d = length-map (λ p. p.0) d

module _ {K V : Type 0} ⦃e : Eq K⦄ where
  pub keys-insert : (k : K) (v : V) (d : Dict K V) → keys (insert k v d) ≡ add_key k (keys d)
  unfolding insert add_key
  keys-insert k v [] = refl
  keys-insert k v ((j, w) ∷ d) = ground (arith, keys-insert k v d)

  pub keys-erase : (k : K) (d : Dict K V) → keys (erase k d) ≡ drop_key k (keys d)
  unfolding erase drop_key
  keys-erase k [] = refl
  keys-erase k ((j, w) ∷ d) = ground (arith, keys-erase k d)

  pub keys-erase_all : (ks : List K) (d : Dict K V) → keys (erase_all ks d) ≡ drop_keys ks (keys d)
  unfolding erase_all drop_keys
  keys-erase_all [] d = refl
  keys-erase_all (k ∷ ks) d = keys-erase_all ks (erase k d) ∙ ap (drop_keys ks) (keys-erase k d)

module _ {K : Type 0} ⦃e : Eq K⦄ where
  -- Distinct keys out of a list are no more than the list.
  pub length-le_of_AllIn :
      (js ks : List K) → Unique js → Unique ks → AllIn js ks → length js ≤ length ks
  length-le_of_AllIn js ks uj uk h = omega (arith, length-drop_keys js ks uj uk h)

  pub AllIn-add_key :
      (k : K) (js ks : List K) → contains k ks ≡ true → AllIn js ks → AllIn (add_key k js) ks
  AllIn-add_key k js ks there h j c = ground (arith, contains-add_key k j js, h j, e.same_iff k j)

  pub add_key_of_present : (k : K) (ks : List K) → contains k ks ≡ true → add_key k ks ≡ ks
  unfolding add_key
  add_key_of_present k [] h = ground arith
  add_key_of_present k (i ∷ ks) h = ground (arith, add_key_of_present k ks)

  pub contains-add_key_self : (k : K) (ks : List K) → contains k (add_key k ks) ≡ true
  contains-add_key_self k ks = ground (arith, contains-add_key k k ks, e.same_iff k k)

  pub contains_of_lookup :
      {V : Type 0} (k : K) (v : V) (d : Dict K V) → lookup k d ≡ some v → contains k (keys d) ≡ true
  unfolding lookup
  contains_of_lookup k v [] h = ground arith
  contains_of_lookup k v ((j, w) ∷ d) h = ground (arith, contains_of_lookup k v d)
