-- ===== src/Compiler/Schema/Coherence.antt =====
-- What holds of the sections of a schema, always and if nothing is reported.
use product_feed_protocol.Prelude.{String, ◌≢◌, some, List, [], ◌∷◌, string_eq, All}
use product_feed_protocol.Dict.{lookup}
use product_feed_protocol.Value.{Record}
use product_feed_protocol.Validation.{RulePlan}
use product_feed_protocol.Mapping.{omit_missing}
use product_feed_protocol.Mapping.Executor.{Plan}
use product_feed_protocol.Compiler.{OpCatalog, ModuleCatalog}
use product_feed_protocol.Compiler.Clean.{
  Always, Clean, Always-bind, Clean-bind, Clean-both, Clean-Always, Any, Always-Any, Clean-Any,
}
use product_feed_protocol.Compiler.Section.{final_types, presences}
use product_feed_protocol.Compiler.Section.Plans.{
  IsSound, IsLinkedPlan, Clean-compile_mapping, Always-compile_mapping,
}
use product_feed_protocol.Compiler.Profiles.{check_presence}
use product_feed_protocol.Compiler.Profiles.Requirements.{MayNotOmit, Clean-check_presence}
use product_feed_protocol.Compiler.Rules.{Rules, compile_validation}
use product_feed_protocol.Compiler.Rules.Links as Links
use product_feed_protocol.Compiler.Rules.Links.{IsLinkedRule, FitsFields}
use product_feed_protocol.Compiler.Rules.Requirements as Requirements
use product_feed_protocol.Compiler.Rules.Requirements.{Requires, IsSourced}
use product_feed_protocol.Compiler.Schema.{Sections, compile_writer_spec, compile_sections}

-- A rule that requires a field for profiles does not stand beside a presence that leaves the field out.
abbrev pub IsConsistent : Plan → RulePlan → Type 0
IsConsistent plan rule =
    (field : String)
    → Requires rule field
    → lookup field (presences plan.fields) ≢ some omit_missing

-- What a schema without an error promises.
abbrev pub IsCoherent : Plan → List RulePlan → Type 0
IsCoherent plan rules =
    IsSound plan × All (FitsFields (final_types plan.fields)) rules × All (IsConsistent plan) rules

-- What every schema promises of the catalogs.
abbrev pub AreLinked : OpCatalog → ModuleCatalog → Plan → List RulePlan → Type 0
AreLinked operations modules plan rules =
    IsLinkedPlan operations plan × All (IsLinkedRule modules) rules

consistent :
    (plan : Plan) (rules : Rules) (kept : List RulePlan)
    → All (IsSourced rules.sources) kept
    → ((field : String) → MayNotOmit (presences plan.fields) rules.sources field)
    → All (IsConsistent plan) kept
consistent plan rules [] h k = tt
consistent plan rules (rule ∷ kept) (here, h) k =
    (λ field r. k field (here field r), consistent plan rules kept h k)

module _ (operations : OpCatalog) (modules : ModuleCatalog) where
  abbrev pub Coherent : Sections → Type 0
  Coherent s = IsCoherent s.mapping_plan s.rules.kept

  abbrev pub Linked : Sections → Type 0
  Linked s = AreLinked operations modules s.mapping_plan s.rules.kept

  pub Clean-compile_sections :
      (doc : Record) → Clean Coherent (compile_sections operations modules doc)
  unfolding compile_sections
  Clean-compile_sections doc =
      Clean-bind Any Coherent (compile_writer_spec doc) _ (Clean-Any _) (λ spec _.
        Clean-bind IsSound Coherent _ _ (Clean-compile_mapping operations doc) (λ plan sound.
          Clean-bind
            (λ rules.
              All (FitsFields (final_types plan.fields)) rules.kept
              × All (IsSourced rules.sources) rules.kept)
            Coherent (compile_validation modules (final_types plan.fields) doc) _
            (Clean-both _ _ _ (Links.Clean-compile_validation (final_types plan.fields) modules doc)
              (Clean-Always _ _
                (Requirements.Always-compile_validation modules (final_types plan.fields) doc)))
            (λ rules fits.
              Clean-bind
                (λ _. (field : String) → MayNotOmit (presences plan.fields) rules.sources field)
                Coherent _ _ (Clean-check_presence (presences plan.fields) rules.sources)
                (λ _ checked e. (sound, fits.0, consistent plan rules rules.kept fits.1 checked)))))

  pub Always-compile_sections :
      (doc : Record) → Always Linked (compile_sections operations modules doc)
  unfolding compile_sections
  Always-compile_sections doc =
      Always-bind Any Linked (compile_writer_spec doc) _ (Always-Any _) (λ spec _.
        Always-bind (IsLinkedPlan operations) Linked _ _ (Always-compile_mapping operations doc)
          (λ plan linked.
            Always-bind (λ (rules : Rules). All (IsLinkedRule modules) rules.kept) Linked _ _
              (Links.Always-compile_validation modules (final_types plan.fields) doc)
              (λ rules kept.
                Always-bind Any Linked (check_presence (presences plan.fields) rules.sources) _
                  (Always-Any _) (λ _ _. (linked, kept)))))
