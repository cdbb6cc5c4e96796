-- ===== src/Catalog/Requirements.antt =====
-- The profiles for which a field is required: as the compiler reads a rule, and as the module does that runs it.
use mathlib.Core.Path.{subst}
use product_feed_protocol.Prelude.{
  String, ◌≡◌, ◌≢◌, ◌⊎◌, inl, inr, refl, sym, ap, ◌∙◌, arith, true, ◌||◌, Option, none, some, List,
  [], ◌∷◌, ◌==◌, string_eq, if◌then◌else◌,
}
use product_feed_protocol.Dict.{lookup}
use product_feed_protocol.Dict.Keys.{keys, contains, contains-add_key}
use product_feed_protocol.Text.{◌⧺◌, is_empty, strip_text, lower_text, str_le}
use product_feed_protocol.Value.{
  Value, missing, none', bool, int, float, decimal, date, datetime, str, list, mapping, emission,
  items, fields, Record,
}
use product_feed_protocol.Validation.{
  RulePlan, run_rule, resolve_rule_value, check_result, normalize_module_result, runtime_item,
}
use product_feed_protocol.Validation.Modules.{
  normalize_names, texts, single_name, listed_profiles, names_or_none, normalize_profiles,
  is_active, accepted, require, rejected_with, required_if_profile,
}
use product_feed_protocol.Compiler.Profiles.{
  normalized, key_values, iterated, distinct, single_profile, listed_or, extract_profile_filters,
  effective_profiles,
}
use product_feed_protocol.Compiler.Sets.{contains-sorted}
use product_feed_protocol.Catalog.{get_validation_module}

-- The module and the compiler read names alike.
normalize_names-agrees : (vs : List Value) → normalize_names vs ≡ normalized vs
unfolding normalize_names normalized
normalize_names-agrees [] = refl
normalize_names-agrees (str s ∷ vs) =
    ap (λ rest. if is_empty (strip_text s) then rest else lower_text (strip_text s) ∷ rest)
      (normalize_names-agrees vs)
normalize_names-agrees (missing ∷ vs) = normalize_names-agrees vs
normalize_names-agrees (none' ∷ vs) = normalize_names-agrees vs
normalize_names-agrees (bool b ∷ vs) = normalize_names-agrees vs
normalize_names-agrees (int n ∷ vs) = normalize_names-agrees vs
normalize_names-agrees (float t ∷ vs) = normalize_names-agrees vs
normalize_names-agrees (decimal t ∷ vs) = normalize_names-agrees vs
normalize_names-agrees (date t ∷ vs) = normalize_names-agrees vs
normalize_names-agrees (datetime t ∷ vs) = normalize_names-agrees vs
normalize_names-agrees (list ws ∷ vs) = normalize_names-agrees vs
normalize_names-agrees (mapping fs ∷ vs) = normalize_names-agrees vs
normalize_names-agrees (emission e ∷ vs) = normalize_names-agrees vs

texts-agree : (ks : List String) → texts ks ≡ key_values ks
unfolding texts key_values
texts-agree [] = refl
texts-agree (k ∷ ks) = ap (λ rest. str k ∷ rest) (texts-agree ks)

single_name-agrees : (v : Option Value) → single_name v ≡ single_profile v
unfolding single_name single_profile
single_name-agrees none = refl
single_name-agrees (some (str s)) = refl
single_name-agrees (some missing) = refl
single_name-agrees (some none') = refl
single_name-agrees (some (bool b)) = refl
single_name-agrees (some (int n)) = refl
single_name-agrees (some (float t)) = refl
single_name-agrees (some (decimal t)) = refl
single_name-agrees (some (date t)) = refl
single_name-agrees (some (datetime t)) = refl
single_name-agrees (some (list ws)) = refl
single_name-agrees (some (mapping fs)) = refl
single_name-agrees (some (emission e)) = refl

contains-distinct : (p : String) (ss : List String) → contains p (distinct ss) ≡ contains p ss
unfolding distinct
contains-distinct p [] = refl
contains-distinct p (s ∷ ss) =
    contains-add_key s p (distinct ss) ∙ ap (λ b. (s == p) || b) (contains-distinct p ss)

-- The compiler requires a field for a profile.
abbrev pub IsRequired : Option (List String) → String → Type 0
IsRequired filters p = contains p (effective_profiles filters) ≡ true

names-IsActive :
    (names : List String) (single : Option (List String)) (p : String)
    → IsRequired (listed_or names single) p
    → is_active (names_or_none names) p ≡ true
names-IsActive [] single p h = refl
names-IsActive (s ∷ ss) single p h =
    sym (contains-distinct p (s ∷ ss)) ∙ sym (contains-sorted str_le p (distinct (s ∷ ss))) ∙ h

single-IsActive :
    (single : Option (List String)) (p : String) → IsRequired single p → is_active single p ≡ true
single-IsActive none p h = refl
single-IsActive (some names) p h = h

listed-IsActive :
    (v : Option Value) (single : Option (List String)) (p : String)
    → IsRequired (listed_or (normalized (iterated v)) single) p
    → is_active (listed_profiles v single) p ≡ true
unfolding listed_profiles iterated normalized
listed-IsActive none single p h = single-IsActive single p h
listed-IsActive (some none') single p h = single-IsActive single p h
listed-IsActive (some (list vs)) single p h =
    ap (λ names. is_active (names_or_none names) p) (normalize_names-agrees (items vs))
    ∙ names-IsActive (normalized (items vs)) single p h
listed-IsActive (some (mapping fs)) single p h =
    ap (λ names. is_active (names_or_none names) p)
      (normalize_names-agrees (texts (keys (fields fs)))
        ∙ ap normalized (texts-agree (keys (fields fs))))
    ∙ names-IsActive (normalized (key_values (keys (fields fs)))) single p h
listed-IsActive (some (str s)) single p h = refl
listed-IsActive (some missing) single p h = refl
listed-IsActive (some (bool b)) single p h = refl
listed-IsActive (some (int n)) single p h = refl
listed-IsActive (some (float t)) single p h = refl
listed-IsActive (some (decimal t)) single p h = refl
listed-IsActive (some (date t)) single p h = refl
listed-IsActive (some (datetime t)) single p h = refl
listed-IsActive (some (emission e)) single p h = refl

IsRequired-active :
    (config : Record) (p : String)
    → IsRequired (extract_profile_filters config) p
    → is_active (normalize_profiles config) p ≡ true
unfolding extract_profile_filters normalize_profiles
IsRequired-active config p h =
    let single = lookup "artifact_profile" config in
    listed-IsActive (lookup "artifact_profiles" config) (single_name single) p (
      subst
        (λ names.
          IsRequired (listed_or (normalized (iterated (lookup "artifact_profiles" config))) names)
            p)
        (sym (single_name-agrees single)) h)

-- A value that is MISSING or None.
abbrev pub IsAbsent : Value → Type 0
IsAbsent v = (v ≡ missing) ⊎ (v ≡ none')

require-IsAbsent :
    (v : Value)
    → IsAbsent v
    → (details : String) × (require "required_if_profile" v ≡ rejected_with details)
unfolding require
require-IsAbsent v (inl e) = (_, ap (require "required_if_profile") e)
require-IsAbsent v (inr e) = (_, ap (require "required_if_profile") e)

get_validation_module_lem :
    (module_id : String)
    → module_id ≡ "required_if_profile"
    → get_validation_module module_id ≡ some required_if_profile
unfolding get_validation_module
get_validation_module_lem module_id named = ap get_validation_module named

required_if_profile-rejects :
    (v : Value) (config input : Record) (profile : String)
    → is_active (normalize_profiles config) (lower_text (strip_text profile)) ≡ true
    → IsAbsent v
    → (details : String) × (required_if_profile v config input profile
        ≡ some (rejected_with details))
unfolding required_if_profile
required_if_profile-rejects v config input profile active absent =
    let (details, rejected) = require-IsAbsent v absent in
    (
      details,
      ap (λ b. if b then some (require "required_if_profile" v) else some accepted) active
          ∙ ap some rejected,
    )

check_result-rejected :
    (rule : RulePlan) (details : String) → check_result rule (some (rejected_with details)) ≢ none
unfolding check_result normalize_module_result lookup
check_result-rejected rule details e = ground arith

-- If the compiler takes a rule `required_if_profile` to require its field for a profile, then the rule is violated when it is run
-- for that profile, in any spelling, on a record in which the field is absent.
pub run_rule-violated :
    (rule : RulePlan) (input : Record) (profile : String)
    → rule.module_id ≡ "required_if_profile"
    → IsRequired (extract_profile_filters rule.config) (lower_text (strip_text profile))
    → IsAbsent (resolve_rule_value rule input)
    → run_rule get_validation_module input profile rule ≢ none
unfolding run_rule
run_rule-violated rule input profile named required absent e =
    let v = resolve_rule_value rule input in
    let (details, rejected) =
      required_if_profile-rejects v rule.config input profile
        (IsRequired-active rule.config (lower_text (strip_text profile)) required) absent in
    check_result-rejected rule details (
      sym (
        ap
          (λ m. elim m [
            | none ↦ some (
                runtime_item "EXEC_VALIDATION_MODULE_NOT_FOUND"
                  ("Validation module '" ⧺ rule.module_id ⧺ "' was not found in catalog.") rule)
            | some module' ↦ check_result rule (module' v rule.config input profile)
          ])
          (get_validation_module_lem rule.module_id named)
        ∙ ap (check_result rule) rejected)
      ∙ e)
