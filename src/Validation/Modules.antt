-- ===== src/Validation/Modules.antt =====
-- pfp_core/ext/validation: the built-in validation modules but `range`, with none for a `ValueError`.
use product_feed_protocol.Prelude.{
  String, Bool, true, false, ◌&&◌, ◌||◌, Option, none, some, List, [], ◌∷◌, ◌==◌, string_eq, any,
  if◌then◌else◌,
}
use product_feed_protocol.Dict.{lookup}
use product_feed_protocol.Dict.Keys.{keys, contains}
use product_feed_protocol.Text.{◌⧺◌, is_empty, strip_text, lower_text}
use product_feed_protocol.Value.{
  TypeId, Value, missing, none', bool, int, decimal, date, datetime, str, list, mapping, items,
  fields, Record,
}
use product_feed_protocol.Validation.{RawResult, object_result, Module}

abbrev pub is_one_of : List String → String → Bool
is_one_of names s = any (λ name. name == s) names

-- `ValidationResult(ok=True)`, and one with details.
abbrev pub accepted : RawResult
accepted = object_result (("ok", bool true) ∷ ("details", none') ∷ [])

abbrev pub rejected_with : String → RawResult
rejected_with details = object_result (("ok", bool false) ∷ ("details", str details) ∷ [])

-- Whether a value is there, with the name of the module that asks.
unfoldable pub require : String → Value → RawResult
require name missing = rejected_with (name ⧺ ": value is missing")
require name none' = rejected_with (name ⧺ ": value is null")
require name _ = accepted

-- `_required`
unfoldable pub required : Module
unfolding require
required v config input profile = some (require "required" v)

-- The texts of a list that are not blank, without spaces around them and in small letters.
unfoldable pub normalize_names : List Value → List String
unfolding strip_text lower_text
normalize_names [] = []
normalize_names (str s ∷ vs) =
    let rest = normalize_names vs in
    if is_empty (strip_text s) then rest else lower_text (strip_text s) ∷ rest
normalize_names (_ ∷ vs) = normalize_names vs

unfoldable pub texts : List String → List Value
texts [] = []
texts (s ∷ ss) = str s ∷ texts ss

abbrev pub names_or_none : List String → Option (List String)
names_or_none [] = none
names_or_none (s ∷ ss) = some (s ∷ ss)

unfoldable pub single_name : Option Value → Option (List String)
unfolding strip_text lower_text
single_name (some (str s)) =
    if is_empty (strip_text s) then none else some (lower_text (strip_text s) ∷ [])
single_name _ = none

-- What `artifact_profiles` gives, beside the names of `artifact_profile`. A mapping is iterated by its keys.
unfoldable pub listed_profiles : Option Value → Option (List String) → Option (List String)
unfolding normalize_names texts
listed_profiles none single = single
listed_profiles (some none') single = single
listed_profiles (some (list vs)) single = names_or_none (normalize_names (items vs))
listed_profiles (some (mapping fs)) single =
    names_or_none (normalize_names (texts (keys (fields fs))))
listed_profiles (some _) single = none

-- `_normalize_profiles`: a set is a list of its elements, which may come twice.
unfoldable pub normalize_profiles : Record → Option (List String)
unfolding listed_profiles single_name lookup
normalize_profiles config =
    listed_profiles (lookup "artifact_profiles" config)
      (single_name (lookup "artifact_profile" config))

abbrev pub is_active : Option (List String) → String → Bool
is_active none profile = true
is_active (some profiles) profile = contains profile profiles

-- `_required_if_profile`
unfoldable pub required_if_profile : Module
unfolding normalize_profiles strip_text lower_text require
required_if_profile v config input profile =
    if is_active (normalize_profiles config) (lower_text (strip_text profile))
    then some (require "required_if_profile" v)
    else some accepted

-- The texts of a list, if it has no other items.
unfoldable pub only_texts : List Value → Option (List String)
only_texts [] = some []
only_texts (str s ∷ vs) = elim (only_texts vs) [ none ↦ none | some ss ↦ some (s ∷ ss) ]
only_texts (_ ∷ vs) = none

unfoldable pub allowed_of : Option Value → Option (List String)
unfolding only_texts
allowed_of (some (list vs)) = elim (items vs) [ [] ↦ none | w ∷ ws ↦ only_texts (w ∷ ws) ]
allowed_of _ = none

abbrev pub check_text : List String → Value → RawResult
check_text allowed (str s) =
    if is_one_of allowed s
    then accepted
    else rejected_with "enum mismatch: value not in allowed set"
check_text allowed _ = accepted

-- `_enum_check`
unfoldable pub enum_check : Module
unfolding allowed_of lookup
enum_check v config input profile = elim (allowed_of (lookup "allowed" config)) [
  | none ↦ none
  | some allowed ↦ some (check_text allowed v)
]

-- `TypeId`, the literals.
abbrev pub type_ids : List TypeId
type_ids =
    "string" ∷ "int" ∷ "decimal" ∷ "bool" ∷ "date" ∷ "datetime" ∷ "array[string]" ∷ "object" ∷ "any"
    ∷ []

abbrev is_text_list : Value → Bool
is_text_list (list vs) = elim (only_texts (items vs)) [ none ↦ false | some ss ↦ true ]
is_text_list _ = false

-- The types of a value that is neither a list nor one of no type but `any`.
abbrev type_of : Value → Option TypeId
type_of (str s) = some "string"
type_of (int n) = some "int"
type_of (decimal s) = some "decimal"
type_of (bool b) = some "bool"
type_of (date s) = some "date"
type_of (datetime s) = some "datetime"
type_of (mapping fs) = some "object"
type_of _ = none

abbrev has_type : Option TypeId → TypeId → Bool
has_type none t = false
has_type (some u) t = u == t

-- `_matches_type`
unfoldable pub matches_type : Value → TypeId → Bool
unfolding only_texts
matches_type v t =
    (t == "any") || has_type (type_of v) t || ((t == "array[string]") && is_text_list v)

abbrev type_id_of : Option Value → Option TypeId
type_id_of (some (str t)) = if is_one_of type_ids t then some t else none
type_id_of _ = none

unfoldable pub check_type : TypeId → Value → RawResult
unfolding matches_type
check_type t missing = accepted
check_type t none' = accepted
check_type t v =
    if matches_type v t then accepted else rejected_with ("type mismatch: expected " ⧺ t)

-- `_type_check`
unfoldable pub type_check : Module
unfolding check_type lookup
type_check v config input profile = elim (type_id_of (lookup "type_id" config)) [
  | none ↦ none
  | some t ↦ some (check_type t v)
]
