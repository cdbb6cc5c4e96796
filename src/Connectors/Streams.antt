-- ===== src/Connectors/Streams.antt =====
-- Which records of a source pass the connector mapping.
use mathlib.Core.Path.{subst}
use product_feed_protocol.Prelude.{
  ◌≡◌, ◌⊎◌, inl, inr, refl, sym, ap, ◌∙◌, true, false, Option, none, some, List, [], ◌∷◌, ◌++◌,
  string_eq, All, Bool-cases, Option-cases, if◌then◌else◌,
}
use product_feed_protocol.Value.{Record}
use product_feed_protocol.Connectors.Mapper.{
  FieldMapping, Config, Stream, source_to_target, required_sources, map_record, map_records,
}
use product_feed_protocol.Connectors.Required.{
  true_ne_false, IsComplete, map_record-IsComplete, IsComplete-map_record,
}

-- The outputs for records: one for each that is complete, in order, and none for the others.
pub data Passes (ms : List FieldMapping) : List Record → List Record → Type 0 where
  end : Passes ms [] []
  kept :
      {r o : Record} {rs os : List Record}
      → IsComplete ms r
      → map_record (required_sources ms) (source_to_target ms []) r [] ≡ some o
      → Passes ms rs os
      → Passes ms (r ∷ rs) (o ∷ os)
  dropped :
      {r : Record} {rs os : List Record}
      → (IsComplete ms r → ⊥)
      → Passes ms rs os
      → Passes ms (r ∷ rs) os

-- How a stream ends, and what it gave.
abbrev pub HasStreamed : Config → List Record → Stream → Type 0
HasStreamed config rs s =
    ((config.continue_on_error ≡ true) × (s.1 ≡ false) × Passes config.mappings rs s.0)
    ⊎ ((config.continue_on_error ≡ false)
        × ((s.1 ≡ false) × All (IsComplete config.mappings) rs × Passes config.mappings rs s.0
            ⊎ (before : List Record) × (r : Record) × (after : List Record) × (rs
                ≡ before ++ r ∷ after)
              × All (IsComplete config.mappings) before
              × (IsComplete config.mappings r → ⊥)
              × (s.1 ≡ true)
              × Passes config.mappings before s.0))

module _ (config : Config) where
  abbrev mapped : Record → Option Record
  mapped r =
      map_record (required_sources config.mappings) (source_to_target config.mappings []) r []

  Kept :
      (r o : Record) (rs : List Record) (s : Stream)
      → mapped r ≡ some o
      → HasStreamed config rs s
      → HasStreamed config (r ∷ rs) (o ∷ s.0, s.1)
  Kept r o rs s h (inl (goes, ended, passes)) =
      inl (goes, ended, kept (IsComplete-map_record config.mappings r [] o h) h passes)
  Kept r o rs s h (inr (stops, inl (ended, complete, passes))) =
      let here = IsComplete-map_record config.mappings r [] o h in
      inr (stops, inl (ended, (here, complete), kept here h passes))
  Kept r o rs s h (inr (stops, inr (before, bad, after, same, complete, lacks, ended, passes))) =
      let here = IsComplete-map_record config.mappings r [] o h in
      inr (
        stops,
        inr (
          r ∷ before,
          bad,
          after,
          ap (λ l. r ∷ l) same,
          (here, complete),
          lacks,
          ended,
          kept here h passes,
        ),
      )

  Lacking : (r : Record) → mapped r ≡ none → IsComplete config.mappings r → ⊥
  Lacking r h complete = map_record-IsComplete config.mappings r [] complete h

  Dropped :
      (r : Record) (rs : List Record) (s : Stream)
      → config.continue_on_error ≡ true
      → mapped r ≡ none
      → HasStreamed config rs s
      → HasStreamed config (r ∷ rs) s
  Dropped r rs s on h (inl (goes, ended, passes)) = inl (goes, ended, dropped (Lacking r h) passes)
  Dropped r rs s on h (inr (stops, rest)) = absurd (true_ne_false (sym on ∙ stops))

  map_records-absent :
      (r : Record) (rs : List Record)
      → mapped r ≡ none
      → map_records config (r ∷ rs)
        ≡ (if config.continue_on_error then map_records config rs else ([], true))
  unfolding map_records
  map_records-absent r rs h = rw (map_records, h) refl

  goes_on :
      (s : Stream)
      → config.continue_on_error ≡ true
      → (if config.continue_on_error then s else ([], true)) ≡ s
  goes_on s on = ap (λ b. if b then s else ([], true)) on

  gives_up :
      (s : Stream)
      → config.continue_on_error ≡ false
      → (if config.continue_on_error then s else ([], true)) ≡ ([], true)
  gives_up s off = ap (λ b. if b then s else ([], true)) off

  -- With `continue_on_error`, a stream is read to its end and gives a record for each one that has all the required fields, in order;
  -- without it, the stream is that of the records before the first that lacks one, and it ends with an error if there is such a record.
  pub map_records-HasStreamed : (rs : List Record) → HasStreamed config rs (map_records config rs)
  unfolding map_records
  map_records-HasStreamed [] = elim (Bool-cases config.continue_on_error) [
    | inl on ↦ inl (on, refl, end)
    | inr off ↦ inr (off, inl (refl, tt, end))
  ]
  map_records-HasStreamed (r ∷ rs) =
      let rest = map_records config rs in
      elim (Option-cases (mapped r)) [
        | inr (o, h) ↦ rw (map_records, h) (Kept r o rs rest h (map_records-HasStreamed rs))
        | inl h ↦ elim (Bool-cases config.continue_on_error) [
          | inl on ↦
              subst (HasStreamed config (r ∷ rs))
                (sym (map_records-absent r rs h ∙ goes_on rest on))
                (Dropped r rs rest on h (map_records-HasStreamed rs))
          | inr off ↦
              subst (HasStreamed config (r ∷ rs))
                (sym (map_records-absent r rs h ∙ gives_up rest off))
                (inr (off, inr ([], r, rs, refl, tt, Lacking r h, refl, end)))
        ]
      ]
