-- ===== src/Mapping/TaxCodes.antt =====
-- pfp_core/ext/mapping/module_mapping_map_tax_code.py. The tax mapping is what core_manifest_builder.py loads: an object whose
-- `mappings` is an object. None stands for an exception.
pub mod Prefixes
mod Tests
use product_feed_protocol.Prelude.{
  ℕ, String, Bool, true, false, ◌&&◌, ◌||◌, Option, none, some, List, [], ◌∷◌, ◌==◌, nat_eq,
  string_eq, leb, any, if◌then◌else◌,
}
use product_feed_protocol.Dict.{lookup, insert}
use product_feed_protocol.Dict.Keys.{keys}
use product_feed_protocol.Sorting.{sorted}
use product_feed_protocol.Text.{codes, is_empty, strip_text, lower_text, text_length, starts_with}
use product_feed_protocol.Value.{
  ℤ, pos, Value, missing, none', bool, int, float, decimal, str, list, mapping, Items, nil, cons,
  items, fields, to_fields, Record,
}

abbrev pub to_items : List String → Items
to_items [] = nil
to_items (s ∷ ss) = cons (str s) (to_items ss)

-- The texts of a list whose items are texts.
abbrev pub from_items : List Value → List String
from_items [] = []
from_items (str s ∷ vs) = s ∷ from_items vs
from_items (_ ∷ vs) = from_items vs

-- The key of a sort from the longest to the shortest.
abbrev pub longer_first : String → String → Bool
longer_first a b = leb (text_length b) (text_length a)

-- `lookup_data.get("mappings", {})`
unfoldable pub mappings_of : Record → Option Record
unfolding lookup
mappings_of tax = elim (lookup "mappings" tax) [
  | none ↦ some []
  | some v ↦ elim v [ mapping fs ↦ some (fields fs) | _ ↦ none ]
]

-- `_prepare_tax_code`, with the tax mapping of the context.
unfoldable pub prepare_tax_code : Option Record → Record → Option Record
unfolding mappings_of sorted text_length insert
prepare_tax_code none args = none
prepare_tax_code (some tax) args = elim (mappings_of tax) [
  | none ↦ none
  | some mappings ↦
      let sorted_keys = sorted longer_first (keys mappings) in
      some (
        insert "_sorted_keys" (list (to_items sorted_keys))
          (insert "_lookup_data" (mapping (to_fields tax)) args))
]

-- `value.get(args.get(key, default))`; a list or an object is no key.
unfoldable pub read_entry : String → String → Record → Record → Option (Option Value)
unfolding lookup
read_entry key default args d = elim (lookup key args) [
  | none ↦ some (lookup default d)
  | some v ↦ elim v [
    | str name ↦ some (lookup name d)
    | list vs ↦ none
    | mapping fs ↦ none
    | _ ↦ some none
  ]
]

-- A text that is not blank, without spaces around it.
unfoldable pub filled_text : Option Value → Option String
unfolding strip_text
filled_text (some (str s)) = if is_empty (strip_text s) then none else some (strip_text s)
filled_text _ = none

-- Whether the text of a number that is not whole is that of a zero.
abbrev zero_digits : List ℕ → Bool
zero_digits [] = true
zero_digits (c ∷ cs) =
    if (c == b'e') || (c == b'E')
    then true
    else ((c == b'0') || (c == b'.') || (c == b'-')) && zero_digits cs

-- The test of `taxable`.
unfoldable pub is_exempt : Option Value → Bool
unfolding lower_text
is_exempt (some (bool b)) = if b then false else true
is_exempt (some (str s)) = any (λ name. name == lower_text s) ("false" ∷ "no" ∷ "0" ∷ [])
is_exempt (some (int (pos n))) = n == 0
is_exempt (some (float s)) = zero_digits (codes s)
is_exempt (some (decimal s)) = zero_digits (codes s)
is_exempt _ = false

-- The loop over the sorted keys: the first that begins the category.
unfoldable pub first_prefix : String → List String → Option String
unfolding starts_with
first_prefix category [] = none
first_prefix category (k ∷ ks) =
    let rest = first_prefix category ks in if starts_with k category then some k else rest

abbrev pub get_or : String → String → Record → Value
get_or key default d = elim (lookup key d) [ none ↦ str default | some v ↦ v ]

-- The last step.
unfoldable pub by_taxable : Record → Option Value → Value
unfolding is_exempt lookup
by_taxable tax taxable =
    if is_exempt taxable
    then get_or "default_exempt" "txcd_00000000" tax
    else get_or "default_taxable" "txcd_99999999" tax

-- The second step: none if there is no category or no key for it.
unfoldable pub by_category : List String → Option String → Option String
unfolding first_prefix
by_category sorted_keys none = none
by_category sorted_keys (some category) = first_prefix category sorted_keys

-- The three steps, for what `value` has.
unfoldable pub resolve :
    Record → Record → List String → Option Value → Option Value → Option Value → Option Value
unfolding filled_text by_category by_taxable lookup
resolve tax mappings sorted_keys override category taxable = elim (filled_text override) [
  | some code ↦ some (str code)
  | none ↦ elim (by_category sorted_keys (filled_text category)) [
    | some prefix ↦ lookup prefix mappings
    | none ↦ some (by_taxable tax taxable)
  ]
]

-- The tax that `_prepare_tax_code` put into the arguments.
unfoldable pub lookup_data : Record → Option Record
unfolding lookup
lookup_data args = elim (lookup "_lookup_data" args) [
  | none ↦ none
  | some v ↦ elim v [ mapping fs ↦ some (fields fs) | _ ↦ none ]
]

unfoldable pub sorted_keys : Record → Option (List String)
unfolding lookup
sorted_keys args = elim (lookup "_sorted_keys" args) [
  | none ↦ none
  | some v ↦ elim v [ list vs ↦ some (from_items (items vs)) | _ ↦ none ]
]

infixl 5 ◌>>=◌
abbrev ◌>>=◌ : {A B : Type 0} → Option A → (A → Option B) → Option B
none >>= f = none
some a >>= f = f a

-- The body of `_map_tax_code` for an object.
unfoldable pub map_object : Record → Record → Option Value
unfolding lookup_data sorted_keys mappings_of read_entry resolve
map_object args d = do
  tax' ← lookup_data args
  keys' ← sorted_keys args
  mappings ← mappings_of tax'
  override ← read_entry "override_key" "tax_code_override" args d
  category ← read_entry "category_key" "tax_category" args d
  taxable ← read_entry "taxable_key" "taxable" args d
  resolve tax' mappings keys' override category taxable

-- `_map_tax_code`
unfoldable pub map_tax_code : Value → Record → Option Value
unfolding map_object
map_tax_code missing args = some missing
map_tax_code none' args = some none'
map_tax_code (mapping fs) args = map_object args (fields fs)
map_tax_code _ args = none
