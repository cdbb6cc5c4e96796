-- ===== src/Compiler/Rules/Requirements.antt =====
-- Each kept rule that requires its field for profiles has left a source for it.
use product_feed_protocol.Prelude.{
  String, ◌≡◌, Option, none, some, List, [], ◌∷◌, string_eq, All, inl, inr, Bool-cases,
  Option-cases,
}
use product_feed_protocol.Dict.{Dict, lookup}
use product_feed_protocol.Text.{is_empty}
use product_feed_protocol.Value.{TypeId, Value, mapping, end, list, nil, items, Record, text_of}
use product_feed_protocol.Validation.{RulePlan}
use product_feed_protocol.Compiler.{give, as_mapping, get_or, ModuleCatalog}
use product_feed_protocol.Compiler.Clean.{Always, Always-bind, Always-weaken, Any, Always-Any}
use product_feed_protocol.Compiler.Profiles.{Sources, update_sources}
use product_feed_protocol.Compiler.Profiles.Requirements.{
  HasSource, update_sources-keeps, update_sources-notes,
}
use product_feed_protocol.Compiler.Rules.{
  Indexed, applies_to, link_module, check_field, read_config, Rules, Planned, compile_linked,
  module_id_of, compile_rule, kept_before, compile_rules, compile_rule_list, compile_validation,
  ordered_rules,
}

-- A rule that requires its field for profiles, and the field.
abbrev pub Requires : RulePlan → String → Type 0
Requires rule field =
    (rule.module_id ≡ "required_if_profile") × (rule.applies_to_field ≡ some field)

abbrev pub IsSourced : Sources → RulePlan → Type 0
IsSourced sources rule = (field : String) → Requires rule field → HasSource field sources

-- What has a source keeps one.
abbrev Grows : Sources → Sources → Type 0
Grows s t = (field : String) → HasSource field s → HasSource field t

module _ (catalog : ModuleCatalog) (final_types : Dict String (Option TypeId)) where
  abbrev PlannedFrom : Sources → Planned → Type 0
  PlannedFrom sources (none, after) = Grows sources after
  PlannedFrom sources (some rule, after) = Grows sources after × IsSourced after rule

  sourced :
      (applies : Option String) (module_id rule_path : String) (config : Record) (sources : Sources)
      (field : String)
      → module_id ≡ "required_if_profile"
      → applies ≡ some field
      → HasSource field (update_sources applies module_id rule_path config sources)
  sourced applies module_id rule_path config sources field m a =
      rw (m, a) (update_sources-notes field rule_path config sources)

  Always-compile_linked :
      (rule : Record) (module_id rule_path : String) (sources : Sources)
      (linked : Option (Option TypeId))
      → Always
          (PlannedFrom sources)
          (compile_linked final_types rule module_id rule_path sources linked)
  unfolding compile_linked
  Always-compile_linked rule module_id rule_path sources none = λ field h. h
  Always-compile_linked rule module_id rule_path sources (some expected) =
      let field = text_of (lookup "field" (applies_to rule)) in
      Always-bind Any (PlannedFrom sources)
        (check_field field final_types expected module_id rule_path) _ (Always-Any _)
        (λ _ _.
          Always-bind Any (PlannedFrom sources)
            (read_config rule_path (as_mapping (some (get_or "config" (mapping end) rule)))) _
            (Always-Any _)
            (λ config _. (
              update_sources-keeps field module_id rule_path config sources,
              λ f h. sourced field module_id rule_path config sources f h.0 h.1,
            )))

  Always-compile_rule :
      (rule_path : String) (rule : Option Record) (sources : Sources)
      → Always (PlannedFrom sources) (compile_rule catalog final_types rule_path rule sources)
  unfolding compile_rule
  Always-compile_rule rule_path none sources = λ field h. h
  Always-compile_rule rule_path (some rule) sources =
      elim (Bool-cases (is_empty (module_id_of rule))) [
        | inl h ↦ rw h (λ field k. k)
        | inr h ↦ rw h (
            Always-bind Any (PlannedFrom sources)
              (link_module catalog (module_id_of rule) rule_path) _ (Always-Any _)
              (λ linked _. Always-compile_linked rule (module_id_of rule) rule_path sources linked))
      ]

  abbrev SourcedFrom : Sources → Rules → Type 0
  SourcedFrom sources rules = Grows sources rules.sources × All (IsSourced rules.sources) rules.kept

  extend :
      (sources : Sources) (planned : Option RulePlan) (after : Sources)
      → PlannedFrom sources (planned, after)
      → (rest : Rules) → SourcedFrom after rest
      → Always (SourcedFrom sources) (give (kept_before planned rest))
  extend sources none after h rest (grows, all) = (λ f k. grows f (h f k), all)
  extend sources (some rule) after (h, noted) rest (grows, all) =
      (λ f k. grows f (h f k), (λ f r. grows f (noted f r), all))

  Always-compile_rules :
      (sources : Sources) (rules : List Indexed)
      → Always (SourcedFrom sources) (compile_rules catalog final_types sources rules)
  unfolding compile_rules
  Always-compile_rules sources [] = (λ f h. h, tt)
  Always-compile_rules sources (r ∷ rs) =
      Always-bind (PlannedFrom sources) (SourcedFrom sources) _ _
        (Always-compile_rule _ (as_mapping (some r.rule)) sources)
        (λ planned h.
          Always-bind (SourcedFrom planned.1) (SourcedFrom sources) _ _
            (Always-compile_rules planned.1 rs) (extend sources planned.0 planned.1 h))

  abbrev AllSourced : Rules → Type 0
  AllSourced rules = All (IsSourced rules.sources) rules.kept

  Always-compile_rule_list :
      (rules : Value) → Always AllSourced (compile_rule_list catalog final_types rules)
  unfolding compile_rule_list
  Always-compile_rule_list (list rules) =
      Always-weaken (SourcedFrom []) AllSourced _
        (Always-compile_rules [] (ordered_rules (items rules))) (λ rules h. h.1)
  Always-compile_rule_list _ = tt

  pub Always-compile_validation :
      (doc : Record) → Always AllSourced (compile_validation catalog final_types doc)
  unfolding compile_validation
  Always-compile_validation doc = elim (Option-cases (as_mapping (lookup "validation" doc))) [
    | inl h ↦ rw (compile_validation, h) tt
    | inr (section, h) ↦
        rw (compile_validation, h) (Always-compile_rule_list (get_or "rules" (list nil) section))
  ]
