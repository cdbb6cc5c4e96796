-- ===== src/Sorting.antt =====
-- Python's `sorted`: a stable sort by a comparison, here an insertion sort.
use mathlib.Core.List.{Perm}
use mathlib.Core.List.Perm
use product_feed_protocol.Prelude.{
  ◌≡◌, refl, arith, Bool, true, false, ◌||◌, List, [], ◌∷◌, if◌then◌else◌, Bool-cases, All, inl,
  inr, any,
}

module _ {ℓ} {A : Type ℓ} (le : A → A → Bool) where
  -- Before the first item that is not smaller.
  unfoldable pub insert_by : A → List A → List A
  insert_by x [] = x ∷ []
  insert_by x (y ∷ ys) = if le x y then x ∷ y ∷ ys else y ∷ insert_by x ys

  unfoldable pub sorted : List A → List A
  unfolding insert_by
  sorted [] = []
  sorted (x ∷ xs) = insert_by x (sorted xs)

  pub insert_by-perm : (x : A) (xs : List A) → Perm (insert_by x xs) (x ∷ xs)
  unfolding insert_by
  insert_by-perm x [] = Perm.refl (x ∷ [])
  insert_by-perm x (y ∷ ys) = elim (Bool-cases (le x y)) [
    | inl h ↦ rw h (Perm.refl (x ∷ y ∷ ys))
    | inr h ↦ rw h (Perm.trans (Perm.cons y (insert_by-perm x ys)) (Perm.swap x y ys))
  ]

  pub sorted-perm : (xs : List A) → Perm (sorted xs) xs
  unfolding sorted
  sorted-perm [] = Perm.refl []
  sorted-perm (x ∷ xs) = Perm.trans (insert_by-perm x (sorted xs)) (Perm.cons x (sorted-perm xs))

  -- Each item is before all that follow it.
  abbrev pub IsSorted : List A → Type 0
  IsSorted [] = Unit
  IsSorted (x ∷ xs) = All (λ y. le x y ≡ true) xs × IsSorted xs

  module _ (total : (x y : A) → le x y ≡ false → le y x ≡ true)
      (trans : (x y z : A) → le x y ≡ true → le y z ≡ true → le x z ≡ true) where
    below :
        (x y : A) (ys : List A)
        → le x y ≡ true
        → All (λ z. le y z ≡ true) ys
        → All (λ z. le x z ≡ true) ys
    below x y [] h a = tt
    below x y (z ∷ ys) h (p, a) = (trans x y z h p, below x y ys h a)

    All-insert_by :
        (x y : A) (ys : List A)
        → le y x ≡ true
        → All (λ z. le y z ≡ true) ys
        → All (λ z. le y z ≡ true) (insert_by x ys)
    unfolding insert_by
    All-insert_by x y [] h a = (h, tt)
    All-insert_by x y (z ∷ ys) h (p, a) = elim (Bool-cases (le x z)) [
      | inl t ↦ rw t (h, (p, a))
      | inr f ↦ rw f (p, All-insert_by x y ys h a)
    ]

    insert_by-IsSorted : (x : A) (ys : List A) → IsSorted ys → IsSorted (insert_by x ys)
    unfolding insert_by
    insert_by-IsSorted x [] s = (tt, tt)
    insert_by-IsSorted x (y ∷ ys) (a, s) = elim (Bool-cases (le x y)) [
      | inl t ↦ rw t ((t, below x y ys t a), (a, s))
      | inr f ↦ rw f (All-insert_by x y ys (total x y f) a, insert_by-IsSorted x ys s)
    ]

    pub sorted-IsSorted : (xs : List A) → IsSorted (sorted xs)
    unfolding sorted
    sorted-IsSorted [] = tt
    sorted-IsSorted (x ∷ xs) = insert_by-IsSorted x (sorted xs) (sorted-IsSorted xs)

module _ {ℓ} {A : Type ℓ} (le : A → A → Bool) (p : A → Bool) where
  any-insert_by : (x : A) (xs : List A) → any p (insert_by le x xs) ≡ (p x || any p xs)
  unfolding insert_by
  any-insert_by x [] = refl
  any-insert_by x (y ∷ ys) = ground (arith, any-insert_by x ys)

  -- Sorting does not change whether some item passes a test.
  pub any-sorted : (xs : List A) → any p (sorted le xs) ≡ any p xs
  unfolding sorted
  any-sorted [] = refl
  any-sorted (x ∷ xs) = ground (arith, any-insert_by x (sorted le xs), any-sorted xs)
