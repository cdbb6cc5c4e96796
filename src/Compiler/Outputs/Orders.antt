-- ===== src/Compiler/Outputs/Orders.antt =====
-- The output order of a plan for CSV that is compiled without a diagnostic: each known field once, and nothing else.
use product_feed_protocol.Prelude.{
  ℕ, ◌+◌, String, ◌≡◌, refl, sym, ap, ◌∙◌, arith, Bool, true, false, not, Option, none, some, List,
  [], ◌∷◌, ◌++◌, string_eq, All, inl, inr, Option-cases,
}
use mathlib.Core.List.{append-nil, append_assoc}
use mathlib.Core.Path.{subst}
use product_feed_protocol.Dict.{Dict, lookup}
use product_feed_protocol.Dict.Keys.{keys, contains, Unique, Unique-add_key, keys-insert}
use product_feed_protocol.Sorting.{sorted}
use product_feed_protocol.Text.{str_le}
use product_feed_protocol.Value.{Record}
use product_feed_protocol.Mapping.Executor.{OutputKind, csv_row, json_object}
use product_feed_protocol.Compiler.Clean.{
  Clean, Clean-bind, Clean-refuse, Clean-refuse_if, Clean-weaken,
}
use product_feed_protocol.Compiler.Sets.{
  contains_when_absent, add_key_of_absent, contains-sorted, contains_of_All,
}
use product_feed_protocol.Compiler.Outputs.{
  note_field, check_order, check_all_seen, compile_csv_order, compile_output_order, text_list_of,
}

-- The fields that were seen, after the ones of an order.
abbrev Seen : List String → List String → List String → Dict String ℕ → Type 0
Seen known before order seen =
    (keys seen ≡ before ++ order) × Unique (keys seen) × All (λ f. contains f known ≡ true) order

abbrev Noted : List String → String → Dict String ℕ → Type 0
Noted before field_id noted = (keys noted ≡ before ++ field_id ∷ []) × Unique (keys noted)

Clean-note_field :
    (field_id : String) (index : ℕ) (seen : Dict String ℕ)
    → Unique (keys seen)
    → Clean (Noted (keys seen) field_id) (note_field field_id index seen)
unfolding note_field
Clean-note_field field_id index seen u = elim (Option-cases (lookup field_id seen)) [
  | inr (first, h) ↦ rw (note_field, h) (Clean-refuse (Noted (keys seen) field_id) seen _ _ _)
  | inl h ↦
      rw (note_field, h)
        (λ e. (
          keys-insert field_id index seen
              ∙ add_key_of_absent field_id (keys seen) (contains_when_absent field_id seen h),
          rw (keys-insert field_id index seen) (Unique-add_key field_id (keys seen) u),
        ))
]

holds_unless_refused : (b : Bool) → not b ≡ false → b ≡ true
holds_unless_refused true h = refl
holds_unless_refused false h = cc

Clean-check_order :
    (known : List String) (index : ℕ) (seen : Dict String ℕ) (order : List String)
    → Unique (keys seen)
    → Clean (Seen known (keys seen) order) (check_order known index seen order)
unfolding check_order
Clean-check_order known index seen [] u = λ e. (sym (append-nil (keys seen)), u, tt)
Clean-check_order known index seen (f ∷ order) u =
    Clean-bind (λ _. not (contains f known) ≡ false) (Seen known (keys seen) (f ∷ order)) _ _
      (Clean-refuse_if (not (contains f known)) _ _ _)
      (λ _ there.
        Clean-bind (Noted (keys seen) f) (Seen known (keys seen) (f ∷ order)) _ _
          (Clean-note_field f index seen u)
          (λ noted h.
            Clean-weaken (Seen known (keys noted) order) (Seen known (keys seen) (f ∷ order)) _
              (Clean-check_order known (index + 1) noted order h.1)
              (λ final k. (
                k.0 ∙ ap (λ ks. ks ++ order) h.0 ∙ append_assoc (keys seen) (f ∷ []) order,
                k.1,
                (holds_unless_refused (contains f known) there, k.2),
              ))))

Clean-check_all_seen :
    (seen : Dict String ℕ) (ids : List String)
    → Clean (λ _. All (λ f. contains f (keys seen) ≡ true) ids) (check_all_seen seen ids)
unfolding check_all_seen
Clean-check_all_seen seen [] = λ e. tt
Clean-check_all_seen seen (f ∷ ids) =
    Clean-bind (λ _. not (contains f (keys seen)) ≡ false)
      (λ _. All (λ f. contains f (keys seen) ≡ true) (f ∷ ids)) _ _
      (Clean-refuse_if (not (contains f (keys seen))) _ _ _)
      (λ _ there.
        Clean-weaken (λ _. All (λ f. contains f (keys seen) ≡ true) ids)
          (λ _. All (λ f. contains f (keys seen) ≡ true) (f ∷ ids)) _
          (Clean-check_all_seen seen ids)
          (λ _ h. (holds_unless_refused (contains f (keys seen)) there, h)))

-- An order that lists each of the known fields once and no other.
abbrev pub Lists : List String → List String → Type 0
Lists known order = Unique order × ((f : String) → contains f order ≡ contains f known)

same_contents :
    (known order : List String)
    → All (λ f. contains f known ≡ true) order
    → All (λ f. contains f order ≡ true) (sorted str_le known)
    → (f : String) → contains f order ≡ contains f known
same_contents known order h k f = ground (
  arith,
  contains_of_All order known h f,
  contains_of_All (sorted str_le known) order k f,
  contains-sorted str_le f known,
)

-- The order of a plan of a kind.
abbrev pub IsOrdered : OutputKind → List String → Option (List String) → Type 0
IsOrdered csv_row known none = ⊥
IsOrdered csv_row known (some order) = Lists known order
IsOrdered json_object known order = order ≡ none

Clean-compile_csv_order :
    (order : Option (List String)) (known : List String)
    → Clean (IsOrdered csv_row known) (compile_csv_order order known)
unfolding compile_csv_order
Clean-compile_csv_order none known = Clean-refuse (IsOrdered csv_row known) none _ _ _
Clean-compile_csv_order (some order) known =
    Clean-bind (Seen known [] order) (IsOrdered csv_row known) _ _
      (Clean-check_order known 0 [] order tt)
      (λ seen h.
        Clean-bind (λ _. All (λ f. contains f (keys seen) ≡ true) (sorted str_le known))
          (IsOrdered csv_row known) _ _ (Clean-check_all_seen seen (sorted str_le known))
          (λ _ k e. (
            subst Unique h.0 h.1,
            same_contents known order h.2
                (subst (λ ks. All (λ f. contains f ks ≡ true) (sorted str_le known)) h.0 k),
          )))

pub Clean-compile_output_order :
    (kind : OutputKind) (section : Record) (known : List String)
    → Clean (IsOrdered kind known) (compile_output_order kind section known)
unfolding compile_output_order
Clean-compile_output_order json_object section known = λ e. refl
Clean-compile_output_order csv_row section known =
    Clean-compile_csv_order (text_list_of (lookup "output_order" section)) known
