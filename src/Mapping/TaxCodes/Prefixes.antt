-- ===== src/Mapping/TaxCodes/Prefixes.antt =====
-- The category is looked up by the longest key that begins it.
use mathlib.Core.Path.{subst}
use product_feed_protocol.Prelude.{
  ◌≤◌, String, ◌≡◌, ◌⊎◌, inl, inr, refl, sym, ap, ◌∙◌, arith, true, false, Option, none, some, List,
  [], ◌∷◌, ◌==◌, string_eq, leb→le, eq_iff, Bool-cases, Option-cases, some_inj,
}
use product_feed_protocol.Dict.{lookup, insert}
use product_feed_protocol.Dict.Keys.{keys, contains}
use product_feed_protocol.Sorting.{sorted, IsSorted, sorted-IsSorted}
use product_feed_protocol.Text.{text_length, starts_with}
use product_feed_protocol.Value.{Value, list, mapping, items, fields, to_fields, Record}
use product_feed_protocol.Compiler.Profiles.Requirements.{All_at}
use product_feed_protocol.Compiler.Sets.{contains-sorted}
use product_feed_protocol.Mapping.TaxCodes.{
  to_items, from_items, longer_first, mappings_of, prepare_tax_code, read_entry, filled_text,
  first_prefix, by_taxable, by_category, resolve, lookup_data, sorted_keys, map_object,
  map_tax_code,
}

pub fields-to_fields : (d : Record) → fields (to_fields d) ≡ d
fields-to_fields [] = refl
fields-to_fields ((k, v) ∷ d) = ap (λ rest. (k, v) ∷ rest) (fields-to_fields d)

from_items-to_items : (ss : List String) → from_items (items (to_items ss)) ≡ ss
from_items-to_items [] = refl
from_items-to_items (s ∷ ss) = ap (λ rest. s ∷ rest) (from_items-to_items ss)

-- The key is among the keys and begins the category, and no longer one does.
abbrev pub IsLongest : List String → String → String → Type 0
IsLongest ks category k =
    (contains k ks ≡ true)
    × (starts_with k category ≡ true)
    × ((j : String)
        → contains j ks ≡ true
        → starts_with j category ≡ true
        → text_length j ≤ text_length k)

abbrev pub NoneBegins : List String → String → Type 0
NoneBegins ks category = (j : String) → contains j ks ≡ true → starts_with j category ≡ false

abbrev Found : List String → String → Option String → Type 0
Found ks category none = NoneBegins ks category
Found ks category (some k) = IsLongest ks category k

-- A key among the first and the others.
contains-cons :
    (P : String → Type 0) (k : String) (ks : List String)
    → P k
    → ((j : String) → contains j ks ≡ true → P j)
    → (j : String) → contains j (k ∷ ks) ≡ true
    → P j
contains-cons P k ks first rest j there = elim (Bool-cases (k == j)) [
  | inl same ↦ subst P ((eq_iff k j).0 same) first
  | inr other ↦ rest j (ground (arith, other, there))
]

Found-longer :
    (category k : String) (ks : List String)
    → starts_with k category ≡ false
    → (found : Option String) → Found ks category found
    → Found (k ∷ ks) category found
Found-longer category k ks not none h =
    contains-cons (λ j. starts_with j category ≡ false) k ks not h
Found-longer category k ks not (some i) (there, begins, longest) = (
  ground (arith, there),
  begins,
  contains-cons (λ j. starts_with j category ≡ true → text_length j ≤ text_length i) k ks
      (λ h. ground (arith, not, h)) longest,
)

Found-first_prefix :
    (category : String) (ks : List String)
    → IsSorted longer_first ks
    → Found ks category (first_prefix category ks)
unfolding first_prefix
Found-first_prefix category [] h = λ j c. ground (arith, c)
Found-first_prefix category (k ∷ ks) (here, h) = elim (Bool-cases (starts_with k category)) [
  | inl begins ↦
      rw (first_prefix, begins)
        (
          ground (arith, eq_iff k k),
          begins,
          contains-cons (λ j. starts_with j category ≡ true → text_length j ≤ text_length k) k ks
              (λ _. omega arith)
              (λ j there _. leb→le _ _ (All_at (λ j. longer_first k j ≡ true) ks j here there)),
        )
  | inr not ↦
      rw (first_prefix, not)
        (Found-longer category k ks not (first_prefix category ks)
          (Found-first_prefix category ks h))
]

longer_first_total : (a b : String) → longer_first a b ≡ false → longer_first b a ≡ true
longer_first_total a b h = ground arith

longer_first_trans :
    (a b c : String) → longer_first a b ≡ true → longer_first b c ≡ true → longer_first a c ≡ true
longer_first_trans a b c h k = ground arith

-- The key that is found among keys in any order, once they are sorted.
Found-unsorted :
    (category : String) (ks : List String) (found : Option String)
    → Found (sorted longer_first ks) category found
    → Found ks category found
Found-unsorted category ks none h = λ j there. h j (contains-sorted longer_first j ks ∙ there)
Found-unsorted category ks (some k) (there, begins, longest) = (
  sym (contains-sorted longer_first k ks) ∙ there,
  begins,
  λ j c. longest j (contains-sorted longer_first j ks ∙ c),
)

Found-sorted :
    (category : String) (ks : List String)
    → Found ks category (first_prefix category (sorted longer_first ks))
Found-sorted category ks = Found-unsorted category ks _ (
    Found-first_prefix category (sorted longer_first ks)
      (sorted-IsSorted longer_first longer_first_total longer_first_trans ks))

-- The arguments that are prepared of none.
abbrev prepared : Record → Record → Record
prepared tax mappings =
    ("_lookup_data", mapping (to_fields tax))
    ∷ ("_sorted_keys", list (to_items (sorted longer_first (keys mappings))))
    ∷ []

prepare_tax_code-prepared :
    (tax mappings : Record)
    → mappings_of tax ≡ some mappings
    → prepare_tax_code (some tax) [] ≡ some (prepared tax mappings)
unfolding prepare_tax_code insert
prepare_tax_code-prepared tax mappings h = rw (prepare_tax_code, h) refl

-- What is resolved for an object.
abbrev resolved : Record → Record → Record → Option Value
resolved tax mappings d =
    resolve tax mappings (sorted longer_first (keys mappings)) (lookup "tax_code_override" d)
      (lookup "tax_category" d) (lookup "taxable" d)

map_object-prepared :
    (tax mappings d : Record)
    → mappings_of tax ≡ some mappings
    → map_object (prepared tax mappings) d ≡ resolved tax mappings d
unfolding map_object lookup_data sorted_keys read_entry lookup
map_object-prepared tax mappings d h =
    rw
      (
        map_object,
        fields-to_fields tax,
        from_items-to_items (sorted longer_first (keys mappings)),
        h,
      )
      refl

-- The code of the longest key that begins the category, or the fallback if none does.
abbrev pub IsByCategory : Record → Record → Record → String → Option Value → Type 0
IsByCategory tax mappings d category r =
    ((k : String) × IsLongest (keys mappings) category k × (r ≡ lookup k mappings))
    ⊎ (NoneBegins (keys mappings) category × (r ≡ some (by_taxable tax (lookup "taxable" d))))

chosen : Record → Record → Record → Option String → Option Value
chosen tax mappings d none = some (by_taxable tax (lookup "taxable" d))
chosen tax mappings d (some k) = lookup k mappings

chosen-IsByCategory :
    (tax mappings d : Record) (category : String) (found : Option String)
    → Found (keys mappings) category found
    → IsByCategory tax mappings d category (chosen tax mappings d found)
unfolding chosen
chosen-IsByCategory tax mappings d category none h = inr (h, refl)
chosen-IsByCategory tax mappings d category (some k) h = inl (k, h, refl)

resolve-chosen :
    (tax mappings d : Record) (ks : List String) (category : String)
    → filled_text (lookup "tax_code_override" d) ≡ none
    → filled_text (lookup "tax_category" d) ≡ some category
    → resolve tax mappings ks
        (lookup "tax_code_override" d)
        (lookup "tax_category" d)
        (lookup "taxable" d)
      ≡ chosen tax mappings d (first_prefix category ks)
unfolding resolve by_category chosen
resolve-chosen tax mappings d ks category no_override given =
    elim (Option-cases (first_prefix category ks)) [
      | inl h ↦ rw (resolve, no_override, given, by_category, h) refl
      | inr (k, h) ↦ rw (resolve, no_override, given, by_category, h) refl
    ]

-- If the tax mapping is prepared without arguments, and a product has no code of its own and has a category, then its tax code is
-- that of the longest key of `mappings` that begins the category, or, if no key begins it, the one for what `taxable` says.
pub map_tax_code-IsByCategory :
    (tax mappings args d : Record) (category : String)
    → mappings_of tax ≡ some mappings
    → prepare_tax_code (some tax) [] ≡ some args
    → filled_text (lookup "tax_code_override" d) ≡ none
    → filled_text (lookup "tax_category" d) ≡ some category
    → IsByCategory tax mappings d category (map_tax_code (mapping (to_fields d)) args)
unfolding map_tax_code
map_tax_code-IsByCategory tax mappings args d category read made no_override given =
    let ks = sorted longer_first (keys mappings) in
    let known : prepared tax mappings ≡ args =
      some_inj (sym (prepare_tax_code-prepared tax mappings read) ∙ made) in
    subst (IsByCategory tax mappings d category)
      (sym (
        ap (λ args'. map_object args' (fields (to_fields d))) (sym known)
        ∙ ap (map_object (prepared tax mappings)) (fields-to_fields d)
        ∙ map_object-prepared tax mappings d read
        ∙ resolve-chosen tax mappings d ks category no_override given))
      (chosen-IsByCategory tax mappings d category (first_prefix category ks)
        (Found-sorted category (keys mappings)))
