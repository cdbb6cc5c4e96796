-- ===== src/Compiler/Sets.antt =====
-- Lists of keys as the sets of the compiler.
use product_feed_protocol.Prelude.{
  ◌≡◌, refl, sym, ap, ◌∙◌, arith, Bool, true, false, ◌||◌, none, List, [], ◌∷◌, ◌++◌, ◌==◌, Eq, All,
  any,
}
use product_feed_protocol.Dict.{Dict, lookup}
use product_feed_protocol.Dict.Keys.{keys, contains, add_key}
use product_feed_protocol.Sorting.{sorted, any-sorted}

module _ {K V : Type 0} ⦃e : Eq K⦄ where
  pub contains_when_absent :
      (k : K) (d : Dict K V) → lookup k d ≡ none → contains k (keys d) ≡ false
  unfolding lookup
  contains_when_absent k [] h = refl
  contains_when_absent k ((j, v) ∷ d) h = ground (arith, contains_when_absent k d)

module _ {K : Type 0} ⦃e : Eq K⦄ where
  pub add_key_of_absent :
      (k : K) (ks : List K) → contains k ks ≡ false → add_key k ks ≡ ks ++ k ∷ []
  unfolding add_key
  add_key_of_absent k [] h = refl
  add_key_of_absent k (j ∷ ks) h = ground (arith, add_key_of_absent k ks)

  contains-eq-any : (k : K) (ks : List K) → contains k ks ≡ any (λ j. j == k) ks
  contains-eq-any k [] = refl
  contains-eq-any k (j ∷ ks) = ap (λ b. (j == k) || b) (contains-eq-any k ks)

  pub contains-sorted :
      (le : K → K → Bool) (k : K) (ks : List K) → contains k (sorted le ks) ≡ contains k ks
  contains-sorted le k ks =
      contains-eq-any k (sorted le ks) ∙ any-sorted le (λ j. j == k) ks ∙ sym (contains-eq-any k ks)

  pub contains_of_All :
      (js ks : List K)
      → All (λ j. contains j ks ≡ true) js
      → (k : K) → contains k js ≡ true
      → contains k ks ≡ true
  contains_of_All [] ks h k there = ground arith
  contains_of_All (j ∷ js) ks (here, h) k there =
      ground (arith, here, e.same_iff j k, contains_of_All js ks h k)
