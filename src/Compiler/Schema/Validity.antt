-- ===== src/Compiler/Schema/Validity.antt =====
-- What a compiled schema promises, always and if it is valid.
use mathlib.Core.List.{Perm}
use mathlib.Core.Path.{subst}
use product_feed_protocol.Prelude.{
  String, ◌≡◌, ◌↔◌, refl, ap, true, not, Option, none, some, List, [], ◌∷◌, any, map, string_eq,
}
use product_feed_protocol.Sorting.{sorted, any-sorted}
use product_feed_protocol.Value.{Value, Record}
use product_feed_protocol.Compiler.{Diag, Compiled, OpCatalog, ModuleCatalog}
use product_feed_protocol.Compiler.Clean.{Always, Clean}
use product_feed_protocol.Compiler.Schema.{
  CompiledSchema, Sections, compile_sections, read_profile, conclude, compile, is_error, error_item,
  diag_le, sort_compile_diagnostics, compiled_schema,
}
use product_feed_protocol.Compiler.Schema.Reports.{InOrder, sort_compile_diagnostics-InOrder}
use product_feed_protocol.Compiler.Schema.Coherence.{
  IsCoherent, AreLinked, Coherent, Linked, Clean-compile_sections, Always-compile_sections,
}

any_error : (ds : List Diag) → not (any is_error (map error_item ds)) ≡ true → ds ≡ []
any_error [] h = refl
any_error (d ∷ ds) h = cc

unsorted :
    (ds : List Diag)
    → not (any is_error (sort_compile_diagnostics (map error_item ds))) ≡ true
    → ds ≡ []
unfolding sort_compile_diagnostics
unsorted ds h = any_error ds (rw (any-sorted diag_le is_error (map error_item ds)) at h)

-- What holds of the schema, if one is compiled.
abbrev Yields : (CompiledSchema → Type 0) → Option CompiledSchema → Type 0
Yields P none = Unit
Yields P (some c) = P c

at :
    (P : CompiledSchema → Type 0) (o : Option CompiledSchema) (c : CompiledSchema)
    → Yields P o
    → o ≡ some c
    → P c
at P o c y h = subst (Yields P) h y

-- The diagnostics of the schema are those that its sections reported, each as an error, in order, and the schema is valid
-- exactly if they reported none.
abbrev pub IsReported : OpCatalog → ModuleCatalog → Record → CompiledSchema → Type 0
IsReported operations modules doc c =
    (s : Sections) × (ds : List Diag) × (compile_sections operations modules doc ≡ some (s, ds))
    × Perm c.diagnostics (map error_item ds)
    × InOrder c.diagnostics
    × ((c.is_valid ≡ true) ↔ (ds ≡ []))

valid_iff :
    (ds : List Diag)
    → (not (any is_error (sort_compile_diagnostics (map error_item ds))) ≡ true) ↔ (ds ≡ [])
unfolding sort_compile_diagnostics sorted
valid_iff ds = (
  unsorted ds,
  λ e. ap (λ es. not (any is_error (sort_compile_diagnostics (map error_item es)))) e,
)

module _ (show_value : Value → String) (doc : Record) where
  module _ (P : CompiledSchema → Type 0) where
    -- What holds of the sections holds of the schema.
    conclude_lem :
        (m : Compiled Sections)
        → ((s : Sections) (ds : List Diag) (profile : String)
            → m ≡ some (s, ds)
            → P (compiled_schema profile s (sort_compile_diagnostics (map error_item ds))))
        → Yields P (conclude show_value doc m)
    unfolding conclude
    conclude_lem none h = tt
    conclude_lem (some (s, ds)) h =
        elim (read_profile show_value doc)
          as (λ (o : Option String). Yields P (elim o [
            | none ↦ none
            | some profile ↦
                some (compiled_schema profile s (sort_compile_diagnostics (map error_item ds)))
          ])) [ none ↦ tt | some profile ↦ h s ds profile refl ]

module _ (show_value : Value → String) (operations : OpCatalog) (modules : ModuleCatalog)
    (doc : Record) (c : CompiledSchema)
    (compiled : compile show_value operations modules doc ≡ some c) where
  -- If a schema is compiled, its diagnostics are what the compilation of its sections reported, each as an error and none lost or
  -- added, ordered by code, then by path, then by message; and it is valid exactly if nothing was reported.
  pub compile-IsReported : IsReported operations modules doc c
  unfolding compile
  compile-IsReported =
      at (IsReported operations modules doc) _ c
        (conclude_lem show_value doc (IsReported operations modules doc)
          (compile_sections operations modules doc)
          (λ s ds profile e.
            let (ordered, same) = sort_compile_diagnostics-InOrder (map error_item ds) in
            (s, ds, e, same, ordered, valid_iff ds)))
        compiled

  -- If a schema is compiled, valid or not, then each transform that is kept calls an operation that is allowed and in the catalog and
  -- has its types, and each kept rule is of a module that is allowed and in the catalog and expects its type.
  pub compile-AreLinked : AreLinked operations modules c.mapping_plan c.rules
  unfolding compile
  compile-AreLinked =
      let P : CompiledSchema → Type 0 =
        λ c'. AreLinked operations modules c'.mapping_plan c'.rules in
      at P _ c
        (conclude_lem show_value doc P (compile_sections operations modules doc) (λ s ds profile e.
          subst (Always (Linked operations modules)) e
            (Always-compile_sections operations modules doc)))
        compiled

  -- If a schema is compiled and valid, then in each field the transforms follow one another by their types up to the final type; the
  -- output order of a plan for CSV lists each field once and no other; each rule for a field is for a mapped field, whose final type
  -- is the one that the module expects where both are known; and no field that a rule requires for profiles has
  -- the presence rule omit_missing.
  pub compile-IsCoherent : c.is_valid ≡ true → IsCoherent c.mapping_plan c.rules
  unfolding compile
  compile-IsCoherent valid =
      let P : CompiledSchema → Type 0 =
        λ c'. c'.is_valid ≡ true → IsCoherent c'.mapping_plan c'.rules in
      at P _ c
        (conclude_lem show_value doc P (compile_sections operations modules doc)
          (λ s ds profile e v.
            subst (Clean (Coherent operations modules)) e
              (Clean-compile_sections operations modules doc) (unsorted ds v)))
        compiled valid
