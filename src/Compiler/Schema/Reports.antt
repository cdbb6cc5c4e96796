-- ===== src/Compiler/Schema/Reports.antt =====
-- `sort_compile_diagnostics`: the order in which a compiled schema lists its diagnostics.
use mathlib.Core.List.{Perm}
use product_feed_protocol.Prelude.{
  String, ◌≡◌, ◌⊎◌, inl, inr, arith, Bool, true, false, List, [], ◌∷◌, All, Bool-cases, string_eq,
  eq_iff, ◌==◌, if◌then◌else◌, ◌≢◌,
}
use product_feed_protocol.Sorting.{sorted-perm, IsSorted, sorted-IsSorted}
use product_feed_protocol.Text.{str_le}
use product_feed_protocol.Text.Order.{texts_le, texts_le_total, texts_le_trans}
use product_feed_protocol.Compiler.Schema.{
  Severity, error, warn, DiagItem, severity_key, diag_key, diag_le, sort_compile_diagnostics,
}

-- The first text is smaller, or they are the same and the rest decides.
abbrev pub ByText : String → String → Type 0 → Type 0
ByText x y Rest = ((x ≢ y) × (str_le x y ≡ true)) ⊎ ((x ≡ y) × Rest)

-- An error stands before a warning; two of the same severity are ordered by the rest.
abbrev pub BySeverity : Severity → Severity → Type 0 → Type 0
BySeverity error warn Rest = Unit
BySeverity warn error Rest = ⊥
BySeverity error error Rest = Rest
BySeverity warn warn Rest = Rest

-- By severity, code, path and message.
abbrev pub Precedes : DiagItem → DiagItem → Type 0
Precedes a b =
    BySeverity a.severity b.severity
      (ByText a.code b.code (ByText a.path b.path (ByText a.message b.message Unit)))

-- Each diagnostic precedes all that follow it.
abbrev pub InOrder : List DiagItem → Type 0
InOrder [] = Unit
InOrder (d ∷ ds) = All (Precedes d) ds × InOrder ds

ByText-if :
    (x y : String) (rest : Bool) (Rest : Type 0)
    → (rest ≡ true → Rest)
    → (if x == y then rest else str_le x y) ≡ true
    → ByText x y Rest
ByText-if x y rest Rest h k = elim (Bool-cases (x == y)) [
  | inl t ↦ inr (ground (arith, eq_iff x y, t), h (rw t at k))
  | inr f ↦ inl ((λ e. ground (arith, eq_iff x y, e, f)), rw f at k)
]

diag_key-ByText :
    (a b : DiagItem)
    → texts_le (a.code ∷ a.path ∷ a.message ∷ []) (b.code ∷ b.path ∷ b.message ∷ []) ≡ true
    → ByText a.code b.code (ByText a.path b.path (ByText a.message b.message Unit))
unfolding texts_le
diag_key-ByText a b =
    ByText-if a.code b.code _ _
      (ByText-if a.path b.path _ _ (ByText-if a.message b.message true Unit (λ _. tt)))

BySeverity-key :
    (s t : Severity) (xs ys : List String) (Rest : Type 0)
    → (texts_le xs ys ≡ true → Rest)
    → texts_le (severity_key s ∷ xs) (severity_key t ∷ ys) ≡ true
    → BySeverity s t Rest
unfolding texts_le severity_key
BySeverity-key error error xs ys Rest h k = h k
BySeverity-key error warn xs ys Rest h k = tt
BySeverity-key warn error xs ys Rest h k = ground (arith, k)
BySeverity-key warn warn xs ys Rest h k = h k

Precedes-diag_le : (a b : DiagItem) → diag_le a b ≡ true → Precedes a b
unfolding diag_le
Precedes-diag_le a b =
    BySeverity-key a.severity b.severity (a.code ∷ a.path ∷ a.message ∷ [])
      (b.code ∷ b.path ∷ b.message ∷ []) _ (diag_key-ByText a b)

All-Precedes :
    (a : DiagItem) (ds : List DiagItem) → All (λ b. diag_le a b ≡ true) ds → All (Precedes a) ds
All-Precedes a [] h = tt
All-Precedes a (d ∷ ds) (h, k) = (Precedes-diag_le a d h, All-Precedes a ds k)

InOrder-IsSorted : (ds : List DiagItem) → IsSorted diag_le ds → InOrder ds
InOrder-IsSorted [] h = tt
InOrder-IsSorted (d ∷ ds) (h, k) = (All-Precedes d ds h, InOrder-IsSorted ds k)

diag_le_total : (a b : DiagItem) → diag_le a b ≡ false → diag_le b a ≡ true
unfolding diag_le
diag_le_total a b = texts_le_total (diag_key a) (diag_key b)

diag_le_trans : (a b c : DiagItem) → diag_le a b ≡ true → diag_le b c ≡ true → diag_le a c ≡ true
unfolding diag_le
diag_le_trans a b c = texts_le_trans (diag_key a) (diag_key b) (diag_key c)

-- The diagnostics are listed with the errors before the warnings, and those of one severity by code, then by path, then by message;
-- none is lost and none is added.
pub sort_compile_diagnostics-InOrder :
    (ds : List DiagItem)
    → InOrder (sort_compile_diagnostics ds) × Perm (sort_compile_diagnostics ds) ds
unfolding sort_compile_diagnostics
sort_compile_diagnostics-InOrder ds = (
  InOrder-IsSorted _ (sorted-IsSorted diag_le diag_le_total diag_le_trans ds),
  sorted-perm diag_le ds,
)
