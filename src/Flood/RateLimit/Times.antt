-- ===== src/Flood/RateLimit/Times.antt =====
-- The lists of times that the windows hold: ascending, and not later than the last call.
use product_feed_protocol.Prelude.{
  ℕ, ◌+◌, ◌≤◌, ◌<◌, ◌≡◌, refl, arith, List, [], ◌∷◌, ◌++◌, Bool-cases, inl, inr, leb, filter, All,
}
use product_feed_protocol.Flood.RateLimit.{drop_expired}
use product_feed_protocol.Flood.RateLimit.History.{is_recent}

-- Oldest first.
abbrev pub Ascending : List ℕ → Type 0
Ascending [] = Unit
Ascending (t ∷ ts) = All (λ u. t ≤ u) ts × Ascending ts

abbrev pub AllPast : ℕ → List ℕ → Type 0
AllPast now ts = All (λ t. t ≤ now) ts

All-recent :
    (w now t : ℕ) (ts : List ℕ)
    → now < t + w
    → All (λ u. t ≤ u) ts
    → filter (is_recent w now) ts ≡ ts
All-recent w now t [] h a = refl
All-recent w now t (u ∷ ts) h (p, a) = ground (arith, All-recent w now t ts h a)

pub drop_expired-eq-filter :
    (w now : ℕ) (ts : List ℕ) → Ascending ts → drop_expired w now ts ≡ filter (is_recent w now) ts
unfolding drop_expired
drop_expired-eq-filter w now [] a = refl
drop_expired-eq-filter w now (t ∷ ts) (a, r) =
    ground (arith, drop_expired-eq-filter w now ts r, All-recent w now t ts)

pub recent-recent :
    (w now later : ℕ) (ts : List ℕ)
    → now ≤ later
    → filter (is_recent w later) (filter (is_recent w now) ts) ≡ filter (is_recent w later) ts
recent-recent w now later [] h = refl
recent-recent w now later (t ∷ ts) h = ground (arith, recent-recent w now later ts h)

pub Ascending-drop_expired :
    (w now : ℕ) (ts : List ℕ) → Ascending ts → Ascending (drop_expired w now ts)
unfolding drop_expired
Ascending-drop_expired w now [] a = tt
Ascending-drop_expired w now (t ∷ ts) (a, r) = elim (Bool-cases (leb (t + w) now)) [
  | inl old ↦ rw old (Ascending-drop_expired w now ts r)
  | inr live ↦ rw live (a, r)
]

pub AllPast-drop_expired :
    (w now n : ℕ) (ts : List ℕ) → AllPast n ts → AllPast n (drop_expired w now ts)
unfolding drop_expired
AllPast-drop_expired w now n [] a = tt
AllPast-drop_expired w now n (t ∷ ts) (p, a) = elim (Bool-cases (leb (t + w) now)) [
  | inl old ↦ rw old (AllPast-drop_expired w now n ts a)
  | inr live ↦ rw live (p, a)
]

pub AllPast-later : (n now : ℕ) (ts : List ℕ) → n ≤ now → AllPast n ts → AllPast now ts
AllPast-later n now [] h a = tt
AllPast-later n now (t ∷ ts) h (p, a) = (omega arith, AllPast-later n now ts h a)

pub AllPast-append : (now : ℕ) (ts : List ℕ) → AllPast now ts → AllPast now (ts ++ now ∷ [])
AllPast-append now [] a = (omega arith, tt)
AllPast-append now (t ∷ ts) (p, a) = (p, AllPast-append now ts a)

later-All :
    (t now : ℕ) (ts : List ℕ) → t ≤ now → All (λ u. t ≤ u) ts → All (λ u. t ≤ u) (ts ++ now ∷ [])
later-All t now [] h a = (h, tt)
later-All t now (u ∷ ts) h (p, a) = (p, later-All t now ts h a)

pub Ascending-append :
    (now : ℕ) (ts : List ℕ) → AllPast now ts → Ascending ts → Ascending (ts ++ now ∷ [])
Ascending-append now [] p a = (tt, tt)
Ascending-append now (t ∷ ts) (q, p) (r, a) = (later-All t now ts q r, Ascending-append now ts p a)
