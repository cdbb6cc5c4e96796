-- ===== src/Compiler/Profiles/Requirements.antt =====
-- What the rules that require a field for profiles leave in the sources, and what the check of the presence makes of it.
use mathlib.Core.Path.{subst}
use product_feed_protocol.Prelude.{
  ◌∙◌, String, ◌≡◌, ◌≢◌, refl, arith, eq_iff, Bool, true, Option, none, some, List, [], ◌∷◌, ◌==◌,
  string_eq, All, inl, inr, Bool-cases,
}
use product_feed_protocol.Dict.{Dict, lookup, insert, lookup-insert}
use product_feed_protocol.Dict as Dict
use product_feed_protocol.Dict.Keys.{keys, contains, add_key, contains_of_lookup}
use product_feed_protocol.Sorting.{sorted, insert_by}
use product_feed_protocol.Text.{◌⧺◌, is_empty, strip_text, str_le}
use product_feed_protocol.Value.{Value, str, Record}
use product_feed_protocol.Mapping.{Presence, omit_missing, emit_null_if_missing, error_if_missing}
use product_feed_protocol.Compiler.{Diag, Compiled, after}
use product_feed_protocol.Compiler.Clean.{Clean, Clean-bind, Clean-weaken}
use product_feed_protocol.Compiler.Sets.{contains-sorted}
use product_feed_protocol.Compiler.Profiles.{
  Sources, listed_or, single_profile, extract_profile_filters, set_all, effective_profiles,
  update_sources, report_profiles, check_contradiction, check_contradictions, check_presence,
  distinct, normalized, iterated,
}

-- Some profile is noted for the field.
abbrev pub HasSource : String → Sources → Type 0
HasSource field sources = (d : Dict String String) × (lookup field sources ≡ some d) × (d ≢ [])

insert-ne-nil : {V : Type 0} (k : String) (v : V) (d : Dict String V) → insert k v d ≢ []
unfolding insert
insert-ne-nil k v [] = λ e. cc
insert-ne-nil k v ((j, w) ∷ d) = elim (Bool-cases (j == k)) [
  | inl h ↦ rw h (λ e. cc)
  | inr h ↦ rw h (λ e. cc)
]

set_all-ne-nil :
    (path : String) (profiles : List String) (d : Dict String String)
    → d ≢ []
    → set_all path profiles d ≢ []
unfolding set_all
set_all-ne-nil path [] d h = h
set_all-ne-nil path (p ∷ ps) d h = set_all-ne-nil path ps (insert p path d) (insert-ne-nil p path d)

set_all_of_some :
    (path : String) (profiles : List String) (d : Dict String String)
    → profiles ≢ []
    → set_all path profiles d ≢ []
unfolding set_all
set_all_of_some path [] d h = absurd (h refl)
set_all_of_some path (p ∷ ps) d h =
    set_all-ne-nil path ps (insert p path d) (insert-ne-nil p path d)

insert_by-ne-nil :
    (le : String → String → Bool) (s : String) (ss : List String) → insert_by le s ss ≢ []
unfolding insert_by
insert_by-ne-nil le s [] = λ e. cc
insert_by-ne-nil le s (t ∷ ss) = elim (Bool-cases (le s t)) [
  | inl h ↦ rw h (λ e. cc)
  | inr h ↦ rw h (λ e. cc)
]

sorted-ne-nil : (le : String → String → Bool) (ss : List String) → ss ≢ [] → sorted le ss ≢ []
unfolding sorted
sorted-ne-nil le [] h = h
sorted-ne-nil le (s ∷ ss) h = insert_by-ne-nil le s (sorted le ss)

add_key-ne-nil : (s : String) (ss : List String) → add_key s ss ≢ []
unfolding add_key
add_key-ne-nil s [] = λ e. cc
add_key-ne-nil s (t ∷ ss) = elim (Bool-cases (t == s)) [
  | inl h ↦ rw h (λ e. cc)
  | inr h ↦ rw h (λ e. cc)
]

-- The filters, if there are any, are not empty.
abbrev NotEmpty : Option (List String) → Type 0
NotEmpty none = Unit
NotEmpty (some profiles) = profiles ≢ []

NotEmpty-single_profile : (v : Option Value) → NotEmpty (single_profile v)
unfolding single_profile
NotEmpty-single_profile (some (str s)) = elim (Bool-cases (is_empty (strip_text s))) [
  | inl h ↦ rw h tt
  | inr h ↦ rw h (λ e. cc)
]
NotEmpty-single_profile _ = tt

NotEmpty-listed_or :
    (names : List String) (other : Option (List String))
    → NotEmpty other
    → NotEmpty (listed_or names other)
unfolding distinct
NotEmpty-listed_or [] other h = h
NotEmpty-listed_or (s ∷ ss) other h =
    sorted-ne-nil str_le (add_key s (distinct ss)) (add_key-ne-nil s (distinct ss))

effective_profiles-ne-nil :
    (filters : Option (List String)) → NotEmpty filters → effective_profiles filters ≢ []
effective_profiles-ne-nil none h = λ e. cc
effective_profiles-ne-nil (some profiles) h = h

NotEmpty-extract_profile_filters : (config : Record) → NotEmpty (extract_profile_filters config)
unfolding extract_profile_filters
NotEmpty-extract_profile_filters config =
    NotEmpty-listed_or (normalized (iterated (lookup "artifact_profiles" config)))
      (single_profile (lookup "artifact_profile" config))
      (NotEmpty-single_profile (lookup "artifact_profile" config))

HasSource-insert :
    (field j : String) (d : Dict String String) (sources : Sources)
    → d ≢ []
    → HasSource field sources
    → HasSource field (insert j d sources)
HasSource-insert field j d sources ne (old, found, full) = elim (Bool-cases (j == field)) [
  | inl h ↦ (d, rw (lookup-insert j field d sources, h) refl, ne)
  | inr h ↦ (old, rw (lookup-insert j field d sources, h) found, full)
]

added : String → Record → String → Sources → Dict String String
added field config rule_path sources =
    set_all (rule_path ⧺ ".module_id") (effective_profiles (extract_profile_filters config))
      (Dict.get_or field [] sources)

added-ne-nil :
    (field : String) (config : Record) (rule_path : String) (sources : Sources)
    → added field config rule_path sources ≢ []
unfolding added
added-ne-nil field config rule_path sources =
    set_all_of_some (rule_path ⧺ ".module_id") (effective_profiles (extract_profile_filters config))
      (Dict.get_or field [] sources)
      (effective_profiles-ne-nil (extract_profile_filters config)
        (NotEmpty-extract_profile_filters config))

-- What is noted stays.
pub update_sources-keeps :
    (applies : Option String) (module_id rule_path : String) (config : Record) (sources : Sources)
    (field : String)
    → HasSource field sources
    → HasSource field (update_sources applies module_id rule_path config sources)
unfolding update_sources added
update_sources-keeps none module_id rule_path config sources field h = h
update_sources-keeps (some j) module_id rule_path config sources field h =
    elim (Bool-cases (module_id == "required_if_profile")) [
      | inl same ↦ rw same (
          HasSource-insert field j (added j config rule_path sources) sources
            (added-ne-nil j config rule_path sources) h)
      | inr other ↦ rw other h
    ]

-- A rule that requires its field notes some profile for it.
pub update_sources-notes :
    (field rule_path : String) (config : Record) (sources : Sources)
    → HasSource field (update_sources (some field) "required_if_profile" rule_path config sources)
unfolding update_sources added
update_sources-notes field rule_path config sources = (
  added field config rule_path sources,
  rw (lookup-insert field field (added field config rule_path sources) sources)
      (ground (arith, eq_iff field field)),
  added-ne-nil field config rule_path sources,
)

Clean-after_report :
    {A : Type 0} (P : A → Type 0) (d : Diag) (m : Compiled A) → Clean P (after (d ∷ []) m)
Clean-after_report P d none = tt
Clean-after_report P d (some (a, ds)) = λ e. cc

Clean-report_profiles :
    (field : String) (d : Dict String String) (profiles : List String)
    → Clean (λ _. profiles ≡ []) (report_profiles field d profiles)
unfolding report_profiles
Clean-report_profiles field d [] = λ e. refl
Clean-report_profiles field d (p ∷ ps) =
    Clean-after_report (λ _. p ∷ ps ≡ []) _ (report_profiles field d ps)

sorted-nil : (le : String → String → Bool) (ss : List String) → sorted le ss ≡ [] → ss ≡ []
sorted-nil le [] h = refl
sorted-nil le (s ∷ ss) h = absurd (sorted-ne-nil le (s ∷ ss) (λ e. cc) h)

Clean-check_contradiction :
    (field : String) (presence : Option Presence) (d : Dict String String)
    → Clean (λ _. presence ≡ some omit_missing → keys d ≡ []) (check_contradiction field presence d)
unfolding check_contradiction
Clean-check_contradiction field (some omit_missing) d =
    Clean-weaken (λ _. sorted str_le (keys d) ≡ [])
      (λ _. some omit_missing ≡ some omit_missing → keys d ≡ []) _
      (Clean-report_profiles field d (sorted str_le (keys d)))
      (λ _ h _. sorted-nil str_le (keys d) h)
Clean-check_contradiction field none d = λ e h. cc
Clean-check_contradiction field (some emit_null_if_missing) d = λ e h. cc
Clean-check_contradiction field (some error_if_missing) d = λ e h. cc

-- A field that a profile requires may not be omitted.
abbrev pub MayNotOmit : Dict String Presence → Sources → String → Type 0
MayNotOmit presence sources field =
    HasSource field sources → lookup field presence ≢ some omit_missing

nil_of_keys : (d : Dict String String) → keys d ≡ [] → d ≡ []
nil_of_keys [] h = refl
nil_of_keys (p ∷ d) h = cc

MayNotOmit-check_contradiction :
    (presence : Dict String Presence) (sources : Sources) (field : String)
    → (lookup field presence ≡ some omit_missing → keys (Dict.get_or field [] sources) ≡ [])
    → MayNotOmit presence sources field
MayNotOmit-check_contradiction presence sources field h (d, found, full) omits =
    full (nil_of_keys d (rw (found, Dict.get_or) at (h omits)))

Clean-check_contradictions :
    (presence : Dict String Presence) (sources : Sources) (ids : List String)
    → Clean (λ _. All (MayNotOmit presence sources) ids) (check_contradictions presence sources ids)
unfolding check_contradictions
Clean-check_contradictions presence sources [] = λ e. tt
Clean-check_contradictions presence sources (id ∷ ids) =
    Clean-bind (λ _. lookup id presence ≡ some omit_missing → keys (Dict.get_or id [] sources) ≡ [])
      (λ _. All (MayNotOmit presence sources) (id ∷ ids)) _ _
      (Clean-check_contradiction id (lookup id presence) (Dict.get_or id [] sources))
      (λ _ h.
        Clean-weaken (λ _. All (MayNotOmit presence sources) ids)
          (λ _. All (MayNotOmit presence sources) (id ∷ ids)) _
          (Clean-check_contradictions presence sources ids)
          (λ _ k. (MayNotOmit-check_contradiction presence sources id h, k)))

pub All_at :
    (P : String → Type 0) (ss : List String) (s : String) → All P ss → contains s ss ≡ true → P s
All_at P [] s h there = cc
All_at P (t ∷ ss) s (here, h) there = elim (Bool-cases (t == s)) [
  | inl same ↦ subst P ((eq_iff t s).0 same) here
  | inr other ↦ All_at P ss s h (ground (arith, other, there))
]

-- Without a diagnostic, no field with a source may be omitted.
pub Clean-check_presence :
    (presence : Dict String Presence) (sources : Sources)
    → Clean
        (λ _. (field : String) → MayNotOmit presence sources field)
        (check_presence presence sources)
unfolding check_presence
Clean-check_presence presence sources =
    Clean-weaken (λ _. All (MayNotOmit presence sources) (sorted str_le (keys sources)))
      (λ _. (field : String) → MayNotOmit presence sources field) _
      (Clean-check_contradictions presence sources (sorted str_le (keys sources)))
      (λ _ h field source.
        All_at (MayNotOmit presence sources) (sorted str_le (keys sources)) field h
          (contains-sorted str_le field (keys sources)
            ∙ contains_of_lookup field source.0 sources source.1)
          source)
