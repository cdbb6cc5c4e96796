-- ===== src/Text/Order.antt =====
-- The order of texts by code points, and the lexicographic order of the sort keys.
use Prim.Native.Nat.{Ordering, compare as compare_ℕ}
use Prim.Native.Char.{Char, code}
use Prim.Native.String
use Prim.Native.String.{compare, then}
use product_feed_protocol.Prelude.{
  String, ◌≡◌, refl, arith, Bool, true, false, List, [], ◌∷◌, if◌then◌else◌, ◌==◌, string_eq,
  eq_iff,
}
use text.Mathlib.TextEquality.{Char-path}
use product_feed_protocol.Text.{str_le}

compare-cons :
    (c d : Char) (s t : String)
    → compare (String.◌∷◌ c s) (String.◌∷◌ d t) ≡ (then) (compare_ℕ (code c) (code d)) (compare s t)
compare-cons c d s t = λ i. Prim.Native.String.compare.cons-cons c d s t i

compare-nil : (d : Char) (t : String) → compare String.[] (String.◌∷◌ d t) ≡ Ordering.lt
compare-nil d t = λ i. Prim.Native.String.compare.nil-cons d t i

compare-cons-nil : (c : Char) (s : String) → compare (String.◌∷◌ c s) String.[] ≡ Ordering.gt
compare-cons-nil c s = λ i. Prim.Native.String.compare.cons-nil c s i

pub str_le_total : (s t : String) → str_le s t ≡ false → str_le t s ≡ true
str_le_total String.[] String.[] h = refl
str_le_total String.[] (String.◌∷◌ d t) h = ground (arith, compare-nil d t)
str_le_total (String.◌∷◌ c s) String.[] h = ground (arith, compare-nil c s)
str_le_total (String.◌∷◌ c s) (String.◌∷◌ d t) h =
    ground (arith, compare-cons c d s t, compare-cons d c t s, str_le_total s t)

pub str_le_trans : (r s t : String) → str_le r s ≡ true → str_le s t ≡ true → str_le r t ≡ true
str_le_trans String.[] s String.[] h k = refl
str_le_trans String.[] s (String.◌∷◌ d t) h k = ground (arith, compare-nil d t)
str_le_trans (String.◌∷◌ b r) String.[] t h k = ground (arith, compare-cons-nil b r)
str_le_trans (String.◌∷◌ b r) (String.◌∷◌ c s) String.[] h k = ground (arith, compare-cons-nil c s)
str_le_trans (String.◌∷◌ b r) (String.◌∷◌ c s) (String.◌∷◌ d t) h k =
    ground
      (arith, compare-cons b c r s, compare-cons c d s t, compare-cons b d r t, str_le_trans r s t)

-- Tuples of texts, compared as Python compares tuples.
unfoldable pub texts_le : List String → List String → Bool
texts_le [] ys = true
texts_le (x ∷ xs) [] = false
texts_le (x ∷ xs) (y ∷ ys) = if x == y then texts_le xs ys else str_le x y

same-cons : (c d : Char) (s t : String) → c ≡ d → s ≡ t → String.◌∷◌ c s ≡ String.◌∷◌ d t
same-cons c d s t p q = λ i. String.◌∷◌ (p i) (q i)

pub str_le_antisym : (s t : String) → str_le s t ≡ true → str_le t s ≡ true → s ≡ t
str_le_antisym String.[] String.[] h k = refl
str_le_antisym String.[] (String.◌∷◌ d t) h k = absurd (ground (arith, compare-cons-nil d t))
str_le_antisym (String.◌∷◌ c s) String.[] h k = absurd (ground (arith, compare-cons-nil c s))
str_le_antisym (String.◌∷◌ c s) (String.◌∷◌ d t) h k =
    same-cons c d s t (Char-path c d (ground (arith, compare-cons c d s t, compare-cons d c t s))) (
      str_le_antisym s t (ground (arith, compare-cons c d s t, compare-cons d c t s))
        (ground (arith, compare-cons c d s t, compare-cons d c t s)))

pub texts_le_total : (xs ys : List String) → texts_le xs ys ≡ false → texts_le ys xs ≡ true
unfolding texts_le
texts_le_total [] ys h = ground arith
texts_le_total (x ∷ xs) [] h = refl
texts_le_total (x ∷ xs) (y ∷ ys) h =
    ground (arith, eq_iff x y, eq_iff y x, texts_le_total xs ys, str_le_total x y)

pub texts_le_trans :
    (xs ys zs : List String) → texts_le xs ys ≡ true → texts_le ys zs ≡ true → texts_le xs zs ≡ true
unfolding texts_le
texts_le_trans [] ys zs h k = refl
texts_le_trans (x ∷ xs) [] zs h k = ground arith
texts_le_trans (x ∷ xs) (y ∷ ys) [] h k = ground arith
texts_le_trans (x ∷ xs) (y ∷ ys) (z ∷ zs) h k = ground (
  arith,
  eq_iff x y,
  eq_iff y z,
  eq_iff x z,
  texts_le_trans xs ys zs,
  str_le_trans x y z,
  str_le_antisym x y,
)
