-- ===== src/Connectors/Required.antt =====
-- The loop over a mapping gives a record exactly if the required fields are there.
use mathlib.Core.Path.{subst}
use product_feed_protocol.Prelude.{
  String, ◌≡◌, ◌≢◌, inl, inr, refl, sym, ap, ◌∙◌, arith, Bool, true, false, ◌||◌, none, some, List,
  [], ◌∷◌, ◌==◌, string_eq, eq_iff, All, Bool-cases, Option-cases,
}
use product_feed_protocol.Dict.{Dict, lookup, insert}
use product_feed_protocol.Dict.Keys.{keys, contains, keys-insert, contains-add_key}
use product_feed_protocol.Value.{Record}
use product_feed_protocol.Connectors.Mapper.{
  FieldMapping, source_to_target, required_sources, map_record,
}

some_ne_none : {A : Type 0} (v : A) → some v ≢ none
some_ne_none v h = ground arith

pub true_ne_false : true ≢ false
true_ne_false h = ground arith

or_true : (b : Bool) → (b || true) ≡ true
or_true b = ground arith

-- A record has all the required fields.
abbrev pub IsComplete : List FieldMapping → Record → Type 0
IsComplete ms r = All (λ (m : FieldMapping). m.is_required ≡ true → lookup m.source r ≢ none) ms

-- Where the loop over the mapping gives up, and where it does not.
abbrev Absent : List String → Dict String String → Record → Type 0
Absent required entries r = (s : String) × (contains s required ≡ true) × (lookup s r ≡ none)

abbrev Present : List String → Dict String String → Record → Type 0
Present required entries r =
    (s : String) → contains s (keys entries) ≡ true → contains s required ≡ true → lookup s r ≢ none

module _ (required : List String) (r : Record) where
  map_record-Absent :
      (entries : Dict String String) (output : Record)
      → map_record required entries r output ≡ none
      → Absent required entries r
  unfolding map_record
  map_record-Absent [] output h = ground arith
  map_record-Absent ((source, target) ∷ rest) output h = elim (Option-cases (lookup source r)) [
    | inr (v, found) ↦ map_record-Absent rest (insert target v output) (ground (arith, found, h))
    | inl absent ↦ elim (Bool-cases (contains source required)) [
      | inl must ↦ (source, must, absent)
      | inr may ↦ map_record-Absent rest output (ground (arith, absent, may, h))
    ]
  ]

  map_record-Present :
      (entries : Dict String String) (output o : Record)
      → map_record required entries r output ≡ some o
      → Present required entries r
  unfolding map_record
  map_record-Present [] output o h s there must = ground (arith, there)
  map_record-Present ((source, target) ∷ rest) output o h s there must =
      elim (Option-cases (lookup source r)) [
        | inr (v, found) ↦ elim (Bool-cases (source == s)) [
          | inl same ↦ (λ gone.
              some_ne_none v (sym found ∙ ap (λ k. lookup k r) ((eq_iff source s).0 same) ∙ gone))
          | inr other ↦
              map_record-Present rest (insert target v output) o (ground (arith, found, h)) s
                (ground (arith, other, there)) must
        ]
        | inl absent ↦ elim (Bool-cases (contains source required)) [
          | inl needed ↦ absurd (some_ne_none o (ground (arith, absent, needed, h)))
          | inr free ↦ elim (Bool-cases (source == s)) [
            | inl same ↦ absurd (
                true_ne_false (
                  sym must ∙ ap (λ k. contains k required) (sym ((eq_iff source s).0 same)) ∙ free))
            | inr other ↦
                map_record-Present rest output o (ground (arith, absent, free, h)) s
                  (ground (arith, other, there)) must
          ]
        ]
      ]

-- The sources of the mapping are the keys of its dictionary, and those that are required are listed.
contains-source_to_target :
    (ms : List FieldMapping) (d : Dict String String) (s : String)
    → contains s (keys d) ≡ true
    → contains s (keys (source_to_target ms d)) ≡ true
unfolding source_to_target
contains-source_to_target [] d s h = h
contains-source_to_target (m ∷ ms) d s h =
    contains-source_to_target ms (insert m.source m.target d) s (
      ap (contains s) (keys-insert m.source m.target d)
      ∙ contains-add_key m.source s (keys d)
      ∙ ap (λ b. (m.source == s) || b) h
      ∙ or_true (m.source == s))

-- The required sources, seen from each mapping and from each source.
required_sources-tail :
    (m : FieldMapping) (ms : List FieldMapping) (s : String)
    → contains s (required_sources ms) ≡ true
    → contains s (required_sources (m ∷ ms)) ≡ true
unfolding required_sources
required_sources-tail m ms s h = ground (arith, h)

IsComplete-present :
    (ms : List FieldMapping) (r : Record) (s : String)
    → IsComplete ms r
    → contains s (required_sources ms) ≡ true
    → lookup s r ≢ none
unfolding required_sources
IsComplete-present [] r s h there = ground (arith, there)
IsComplete-present (m ∷ ms) r s (here, h) there = elim (Bool-cases m.is_required) [
  | inr free ↦ IsComplete-present ms r s h (ground (arith, free, there))
  | inl must ↦ elim (Bool-cases (m.source == s)) [
    | inr other ↦ IsComplete-present ms r s h (ground (arith, must, other, there))
    | inl same ↦ subst (λ k. lookup k r ≢ none) ((eq_iff m.source s).0 same) (here must)
  ]
]

required_sources-head :
    (m : FieldMapping) (ms : List FieldMapping)
    → m.is_required ≡ true
    → contains m.source (required_sources (m ∷ ms)) ≡ true
unfolding required_sources
required_sources-head m ms must = ground (arith, must, eq_iff m.source m.source)

contains-head :
    (m : FieldMapping) (ms : List FieldMapping) (d : Dict String String)
    → contains m.source (keys (source_to_target (m ∷ ms) d)) ≡ true
unfolding source_to_target
contains-head m ms d = contains-source_to_target ms (insert m.source m.target d) m.source (
    ap (contains m.source) (keys-insert m.source m.target d)
    ∙ contains-add_key m.source m.source (keys d)
    ∙ ap (λ b. b || contains m.source (keys d)) ((eq_iff m.source m.source).1 refl))

source_to_target_step :
    (m : FieldMapping) (ms : List FieldMapping) (d : Dict String String) (s : String)
    → contains s (keys (source_to_target ms (insert m.source m.target d))) ≡ true
    → contains s (keys (source_to_target (m ∷ ms) d)) ≡ true
unfolding source_to_target
source_to_target_step m ms d s h = h

-- Present for a mapping and a dictionary, the record has the fields that the mapping requires.
IsComplete-Present :
    (ms : List FieldMapping) (r : Record) (d : Dict String String)
    → ((s : String)
        → contains s (keys (source_to_target ms d)) ≡ true
        → contains s (required_sources ms) ≡ true
        → lookup s r ≢ none)
    → IsComplete ms r
IsComplete-Present [] r d h = tt
IsComplete-Present (m ∷ ms) r d h = (
  λ must. h m.source (contains-head m ms d) (required_sources-head m ms must),
  IsComplete-Present ms r (insert m.source m.target d) (λ s there must.
      h s (source_to_target_step m ms d s there) (required_sources-tail m ms s must)),
)

module _ (ms : List FieldMapping) (r : Record) where
  -- The loop gives a record exactly if all required fields are there.
  pub map_record-IsComplete :
      (output : Record)
      → IsComplete ms r
      → map_record (required_sources ms) (source_to_target ms []) r output ≢ none
  map_record-IsComplete output complete gone =
      let (s, must, absent) =
        map_record-Absent (required_sources ms) r (source_to_target ms []) output gone in
      IsComplete-present ms r s complete must absent

  pub IsComplete-map_record :
      (output o : Record)
      → map_record (required_sources ms) (source_to_target ms []) r output ≡ some o
      → IsComplete ms r
  IsComplete-map_record output o h =
      IsComplete-Present ms r []
        (map_record-Present (required_sources ms) r (source_to_target ms []) output o h)
