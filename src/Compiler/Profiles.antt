-- ===== src/Compiler/Profiles.antt =====
-- The profiles for which a rule requires a field: validation_compiler.py `_extract_profile_filters_from_config`,
-- validation/semantics.py `update_required_by_profile_sources` and compiler_checks.py.
pub mod Requirements
use product_feed_protocol.Prelude.{
  String, Bool, true, false, not, ◌&&◌, Option, none, some, List, [], ◌∷◌, ◌==◌, string_eq,
  if◌then◌else◌,
}
use product_feed_protocol.Dict.{Dict, lookup, insert}
use product_feed_protocol.Dict as Dict
use product_feed_protocol.Dict.Keys.{keys, add_key}
use product_feed_protocol.Sorting.{sorted}
use product_feed_protocol.Text.{◌⧺◌, is_empty, strip_text, lower_text, str_le}
use product_feed_protocol.Value.{Value, str, list, mapping, items, fields, Record}
use product_feed_protocol.Mapping.{Presence, omit_missing, emit_null_if_missing, error_if_missing}
use product_feed_protocol.Compiler.{Compiled, give, refuse, ◌>>=◌, ◌>>◌, is_in}

abbrev normal_name : String → String
normal_name s = lower_text (strip_text s)

-- The texts of a list that are not blank, in small letters.
unfoldable pub normalized : List Value → List String
unfolding strip_text lower_text
normalized [] = []
normalized (str s ∷ vs) =
    let rest = normalized vs in if is_empty (strip_text s) then rest else normal_name s ∷ rest
normalized (_ ∷ vs) = normalized vs

unfoldable pub key_values : List String → List Value
key_values [] = []
key_values (k ∷ ks) = str k ∷ key_values ks

-- What the loop over `artifact_profiles` runs through: the items of a list, the keys of a mapping.
unfoldable pub iterated : Option Value → List Value
unfolding key_values
iterated (some (list vs)) = items vs
iterated (some (mapping fs)) = key_values (keys (fields fs))
iterated _ = []

-- `set(…)`
unfoldable pub distinct : List String → List String
unfolding add_key
distinct [] = []
distinct (s ∷ ss) = add_key s (distinct ss)

-- `(profile_obj.strip().lower(),)`
unfoldable pub single_profile : Option Value → Option (List String)
unfolding strip_text lower_text
single_profile (some (str s)) = if is_empty (strip_text s) then none else some (normal_name s ∷ [])
single_profile _ = none

abbrev pub listed_or : List String → Option (List String) → Option (List String)
listed_or [] other = other
listed_or (s ∷ ss) other = some (sorted str_le (distinct (s ∷ ss)))

-- `_extract_profile_filters_from_config`
unfoldable pub extract_profile_filters : Record → Option (List String)
unfolding normalized iterated distinct single_profile sorted lookup
extract_profile_filters config =
    listed_or (normalized (iterated (lookup "artifact_profiles" config)))
      (single_profile (lookup "artifact_profile" config))

abbrev pub canonical_artifact_profiles : List String
canonical_artifact_profiles = "catalog_snapshot" ∷ "catalog_delta" ∷ "inventory_price_delta" ∷ []

abbrev pub Sources : Type 0
Sources = Dict String (Dict String String)

unfoldable pub set_all : String → List String → Dict String String → Dict String String
unfolding insert
set_all path [] sources = sources
set_all path (profile ∷ profiles) sources = set_all path profiles (insert profile path sources)

abbrev pub effective_profiles : Option (List String) → List String
effective_profiles none = canonical_artifact_profiles
effective_profiles (some profiles) = profiles

-- `update_required_by_profile_sources`, with `_read_rule_artifact_profile_filters`.
unfoldable pub update_sources : Option String → String → String → Record → Sources → Sources
unfolding extract_profile_filters set_all lookup insert
update_sources none module_id rule_path config sources = sources
update_sources (some field) module_id rule_path config sources =
    if module_id == "required_if_profile"
    then insert field
        (set_all (rule_path ⧺ ".module_id") (effective_profiles (extract_profile_filters config))
          (Dict.get_or field [] sources))
        sources
    else sources

abbrev behavior_path : String → String
behavior_path field_id = "mapping.fields." ⧺ field_id ⧺ ".presence.behavior"

-- The loop over the profiles of a field that may be omitted.
unfoldable pub report_profiles : String → Dict String String → List String → Compiled (Unit {0})
unfolding lookup
report_profiles field_id sources [] = give tt
report_profiles field_id sources (profile ∷ profiles) = do
  refuse tt "COMPILER_PRESENCE_REQUIRED_CONTRADICTION" (behavior_path field_id) (
      "Field '"
      ⧺ field_id
      ⧺ "' is required in profile '"
      ⧺ profile
      ⧺ "' by "
      ⧺ Dict.get_or profile "" sources
      ⧺ ", but presence allows omit_missing.")
  report_profiles field_id sources profiles

-- One round of the loop over the fields that a profile requires.
unfoldable pub check_contradiction :
    String → Option Presence → Dict String String → Compiled (Unit {0})
unfolding report_profiles sorted
check_contradiction field_id (some omit_missing) sources =
    report_profiles field_id sources (sorted str_le (keys sources))
check_contradiction field_id _ sources = give tt

unfoldable pub check_contradictions :
    Dict String Presence → Sources → List String → Compiled (Unit {0})
unfolding check_contradiction lookup
check_contradictions presence sources [] = give tt
check_contradictions presence sources (field_id ∷ ids) = do
  check_contradiction field_id (lookup field_id presence) (Dict.get_or field_id [] sources)
  check_contradictions presence sources ids

-- `check_presence_required_contradictions`
unfoldable pub check_presence : Dict String Presence → Sources → Compiled (Unit {0})
unfolding check_contradictions sorted
check_presence presence sources =
    check_contradictions presence sources (sorted str_le (keys sources))
