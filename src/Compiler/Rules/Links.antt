-- ===== src/Compiler/Rules/Links.antt =====
-- The rules that are kept: their modules are in the catalog, and, if nothing is reported, their fields are mapped and have the type
-- that the module expects.
use product_feed_protocol.Prelude.{
  String, ◌≡◌, refl, arith, eq_iff, Bool, true, false, not, Option, none, some, List, [], ◌∷◌,
  string_eq, All, inl, inr, Bool-cases, Option-cases,
}
use product_feed_protocol.Dict.{Dict, lookup}
use product_feed_protocol.Dict.Keys.{keys, contains}
use product_feed_protocol.Text.{is_empty}
use product_feed_protocol.Value.{TypeId, Value, mapping, end, list, nil, items, Record, text_of}
use product_feed_protocol.Validation.{RulePlan}
use product_feed_protocol.Compiler.{
  give, as_mapping, get_or, is_in, is_unsupported, to_plan_type_id, is_validation_type_mismatch,
  ModuleCatalog, validation_module_allowlist,
}
use product_feed_protocol.Compiler.Clean.{
  Always, Clean, Always-bind, Clean-bind, Clean-refuse_if, Clean-weaken, Any, Always-Any, Clean-Any,
}
use product_feed_protocol.Compiler.Profiles.{Sources}
use product_feed_protocol.Compiler.Rules.{
  Indexed, applies_to, link_module, is_mismatch, check_field, read_config, Rules, Planned,
  compile_linked, module_id_of, compile_rule, kept_before, compile_rules, compile_rule_list,
  compile_validation, ordered_rules,
}

-- A rule of a module that is allowed and in the catalog, with the module's type.
abbrev pub IsLinkedRule : ModuleCatalog → RulePlan → Type 0
IsLinkedRule catalog rule =
    (type_id : String) × (catalog rule.module_id ≡ some type_id)
    × (is_in rule.module_id validation_module_allowlist ≡ true)
    × (rule.expected_value_type ≡ to_plan_type_id type_id)

-- The final type of a field and the expected type, where both are known.
abbrev Suits : Option (Option TypeId) → Option TypeId → Type 0
Suits (some (some t)) (some u) = t ≡ u
Suits _ _ = Unit

-- A rule for no field, or for a field that is mapped and whose type suits the module.
abbrev OnKnownField : Dict String (Option TypeId) → Option String → Option TypeId → Type 0
OnKnownField final_types none expected = Unit
OnKnownField final_types (some field) expected =
    (contains field (keys final_types) ≡ true) × Suits (lookup field final_types) expected

abbrev pub FitsFields : Dict String (Option TypeId) → RulePlan → Type 0
FitsFields final_types rule =
    OnKnownField final_types rule.applies_to_field rule.expected_value_type

holds_unless_refused : (b : Bool) → not b ≡ false → b ≡ true
holds_unless_refused true h = refl
holds_unless_refused false h = cc

Suits-is_mismatch :
    (found : Option (Option TypeId)) (expected : Option TypeId)
    → is_mismatch found expected ≡ false
    → Suits found expected
unfolding is_validation_type_mismatch
Suits-is_mismatch none expected h = tt
Suits-is_mismatch (some none) expected h = tt
Suits-is_mismatch (some (some t)) none h = tt
Suits-is_mismatch (some (some t)) (some u) h = ground (arith, eq_iff t u)

module _ (final_types : Dict String (Option TypeId)) where
  Clean-check_field :
      (field : Option String) (expected : Option TypeId) (module_id rule_path : String)
      → Clean
          (λ _. OnKnownField final_types field expected)
          (check_field field final_types expected module_id rule_path)
  unfolding check_field
  Clean-check_field none expected module_id rule_path = λ e. tt
  Clean-check_field (some field) expected module_id rule_path =
      Clean-bind (λ _. not (contains field (keys final_types)) ≡ false)
        (λ _. OnKnownField final_types (some field) expected) _ _
        (Clean-refuse_if (not (contains field (keys final_types))) _ _ _)
        (λ _ there.
          Clean-weaken (λ _. is_mismatch (lookup field final_types) expected ≡ false)
            (λ _. OnKnownField final_types (some field) expected) _
            (Clean-refuse_if (is_mismatch (lookup field final_types) expected) _ _ _)
            (λ _ match. (
              holds_unless_refused (contains field (keys final_types)) there,
              Suits-is_mismatch (lookup field final_types) expected match,
            )))

  abbrev FitsPlanned : Planned → Type 0
  FitsPlanned (none, sources) = Unit
  FitsPlanned (some rule, sources) = FitsFields final_types rule

  Clean-compile_linked :
      (rule : Record) (module_id rule_path : String) (sources : Sources)
      (linked : Option (Option TypeId))
      → Clean FitsPlanned (compile_linked final_types rule module_id rule_path sources linked)
  unfolding compile_linked
  Clean-compile_linked rule module_id rule_path sources none = λ e. tt
  Clean-compile_linked rule module_id rule_path sources (some expected) =
      let field = text_of (lookup "field" (applies_to rule)) in
      Clean-bind (λ _. OnKnownField final_types field expected) FitsPlanned _ _
        (Clean-check_field field expected module_id rule_path)
        (λ _ known.
          Clean-bind Any FitsPlanned
            (read_config rule_path (as_mapping (some (get_or "config" (mapping end) rule)))) _
            (Clean-Any _) (λ config _ e. known))

  Clean-compile_rule :
      (catalog : ModuleCatalog) (rule_path : String) (rule : Option Record) (sources : Sources)
      → Clean FitsPlanned (compile_rule catalog final_types rule_path rule sources)
  unfolding compile_rule
  Clean-compile_rule catalog rule_path none sources = λ e. cc
  Clean-compile_rule catalog rule_path (some rule) sources =
      elim (Bool-cases (is_empty (module_id_of rule))) [
        | inl h ↦ rw h (λ e. cc)
        | inr h ↦ rw h (
            Clean-bind Any FitsPlanned (link_module catalog (module_id_of rule) rule_path) _
              (Clean-Any _)
              (λ linked _. Clean-compile_linked rule (module_id_of rule) rule_path sources linked))
      ]

  abbrev AllFit : Rules → Type 0
  AllFit rules = All (FitsFields final_types) rules.kept

  extend_fit :
      (planned : Option RulePlan) (sources : Sources)
      → FitsPlanned (planned, sources)
      → (rest : Rules) → AllFit rest
      → Clean AllFit (give (kept_before planned rest))
  extend_fit none sources h rest k = λ e. k
  extend_fit (some rule) sources h rest k = λ e. (h, k)

  Clean-compile_rules :
      (catalog : ModuleCatalog) (sources : Sources) (rules : List Indexed)
      → Clean AllFit (compile_rules catalog final_types sources rules)
  unfolding compile_rules
  Clean-compile_rules catalog sources [] = λ e. tt
  Clean-compile_rules catalog sources (r ∷ rs) =
      Clean-bind FitsPlanned AllFit _ _
        (Clean-compile_rule catalog _ (as_mapping (some r.rule)) sources)
        (λ planned h.
          Clean-bind AllFit AllFit _ _ (Clean-compile_rules catalog planned.1 rs)
            (extend_fit planned.0 planned.1 h))

  Clean-compile_rule_list :
      (catalog : ModuleCatalog) (rules : Value)
      → Clean AllFit (compile_rule_list catalog final_types rules)
  unfolding compile_rule_list
  Clean-compile_rule_list catalog (list rules) =
      Clean-compile_rules catalog [] (ordered_rules (items rules))
  Clean-compile_rule_list catalog _ = λ e. cc

  -- Without a diagnostic each kept rule is for a mapped field of a type that suits it, or for none.
  pub Clean-compile_validation :
      (catalog : ModuleCatalog) (doc : Record)
      → Clean AllFit (compile_validation catalog final_types doc)
  unfolding compile_validation
  Clean-compile_validation catalog doc =
      elim (Option-cases (as_mapping (lookup "validation" doc))) [
        | inl h ↦ rw (compile_validation, h) (λ e. cc)
        | inr (section, h) ↦
            rw (compile_validation, h)
              (Clean-compile_rule_list catalog (get_or "rules" (list nil) section))
      ]

module _ (catalog : ModuleCatalog) (final_types : Dict String (Option TypeId)) where
  abbrev LinkedFor : String → Option (Option TypeId) → Type 0
  LinkedFor module_id none = Unit
  LinkedFor module_id (some expected) =
      (type_id : String) × (catalog module_id ≡ some type_id)
      × (is_in module_id validation_module_allowlist ≡ true)
      × (expected ≡ to_plan_type_id type_id)

  Always-link_module :
      (module_id rule_path : String)
      → Always (LinkedFor module_id) (link_module catalog module_id rule_path)
  unfolding link_module
  Always-link_module module_id rule_path =
      elim (Bool-cases (is_in module_id validation_module_allowlist)) [
        | inr refused ↦ rw refused tt
        | inl allowed ↦ elim (Option-cases (catalog module_id)) [
          | inl absent ↦ rw (link_module, allowed, absent) tt
          | inr (type_id, found) ↦ elim (Bool-cases (is_unsupported type_id)) [
            | inl h ↦ rw (link_module, allowed, found, h) tt
            | inr h ↦ rw (link_module, allowed, found, h) (type_id, found, allowed, refl)
          ]
        ]
      ]

  abbrev LinkedPlanned : Planned → Type 0
  LinkedPlanned (none, sources) = Unit
  LinkedPlanned (some rule, sources) = IsLinkedRule catalog rule

  Always-compile_linked :
      (rule : Record) (module_id rule_path : String) (sources : Sources)
      (linked : Option (Option TypeId))
      → LinkedFor module_id linked
      → Always LinkedPlanned (compile_linked final_types rule module_id rule_path sources linked)
  unfolding compile_linked
  Always-compile_linked rule module_id rule_path sources none h = tt
  Always-compile_linked rule module_id rule_path sources (some expected) h =
      Always-bind Any LinkedPlanned
        (check_field (text_of (lookup "field" (applies_to rule))) final_types expected module_id
          rule_path)
        _ (Always-Any _)
        (λ _ _.
          Always-bind Any LinkedPlanned
            (read_config rule_path (as_mapping (some (get_or "config" (mapping end) rule)))) _
            (Always-Any _) (λ config _. h))

  Always-compile_rule :
      (rule_path : String) (rule : Option Record) (sources : Sources)
      → Always LinkedPlanned (compile_rule catalog final_types rule_path rule sources)
  unfolding compile_rule
  Always-compile_rule rule_path none sources = tt
  Always-compile_rule rule_path (some rule) sources =
      elim (Bool-cases (is_empty (module_id_of rule))) [
        | inl h ↦ rw h tt
        | inr h ↦ rw h (
            Always-bind (LinkedFor (module_id_of rule)) LinkedPlanned _ _
              (Always-link_module (module_id_of rule) rule_path)
              (Always-compile_linked rule (module_id_of rule) rule_path sources))
      ]

  abbrev AllLinked : Rules → Type 0
  AllLinked rules = All (IsLinkedRule catalog) rules.kept

  extend_linked :
      (planned : Option RulePlan) (sources : Sources)
      → LinkedPlanned (planned, sources)
      → (rest : Rules) → AllLinked rest
      → Always AllLinked (give (kept_before planned rest))
  extend_linked none sources h rest k = k
  extend_linked (some rule) sources h rest k = (h, k)

  Always-compile_rules :
      (sources : Sources) (rules : List Indexed)
      → Always AllLinked (compile_rules catalog final_types sources rules)
  unfolding compile_rules
  Always-compile_rules sources [] = tt
  Always-compile_rules sources (r ∷ rs) =
      Always-bind LinkedPlanned AllLinked _ _
        (Always-compile_rule _ (as_mapping (some r.rule)) sources)
        (λ planned h.
          Always-bind AllLinked AllLinked _ _ (Always-compile_rules planned.1 rs)
            (extend_linked planned.0 planned.1 h))

  Always-compile_rule_list :
      (rules : Value) → Always AllLinked (compile_rule_list catalog final_types rules)
  unfolding compile_rule_list
  Always-compile_rule_list (list rules) = Always-compile_rules [] (ordered_rules (items rules))
  Always-compile_rule_list _ = tt

  -- Each kept rule is of a module of the catalog, whatever is reported.
  pub Always-compile_validation :
      (doc : Record) → Always AllLinked (compile_validation catalog final_types doc)
  unfolding compile_validation
  Always-compile_validation doc = elim (Option-cases (as_mapping (lookup "validation" doc))) [
    | inl h ↦ rw (compile_validation, h) tt
    | inr (section, h) ↦
        rw (compile_validation, h) (Always-compile_rule_list (get_or "rules" (list nil) section))
  ]
