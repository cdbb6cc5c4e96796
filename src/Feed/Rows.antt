-- ===== src/Feed/Rows.antt =====
-- The rows that the producer makes for a CSV plan suit the CSV writer.
use mathlib.Core.Path.{subst}
use product_feed_protocol.Prelude.{
  String, ◌≡◌, ◌≢◌, refl, ◌∙◌, arith, Bool, true, false, not, ◌&&◌, Option, none, some, List, [],
  ◌∷◌, map, any, string_eq, nat_eq, eq_iff, length, length-map, All, Option-cases, inl, inr,
  nat_beq_iff,
}
use product_feed_protocol.Value.{Value, Record, Emission}
use product_feed_protocol.Diagnostics.{Diagnostic}
use product_feed_protocol.Validation as Validation
use product_feed_protocol.Validation.{RulePlan, Decision, pass}
use product_feed_protocol.Validation.Executor.{Policy, ExecutionResult}
use product_feed_protocol.Mapping as Mapping
use product_feed_protocol.Mapping.{Issue}
use product_feed_protocol.Mapping.Executor as MappingExecutor
use product_feed_protocol.Mapping.Executor.{csv_row, Output, row, ordered_csv_fields}
use product_feed_protocol.Mapping.Outputs.{csv_output}
use product_feed_protocol.Producer.{
  Production, round, extract_item_ref, validation_diagnostics, Isolation, Item, Flow, go_on, stop,
  raise, Round, WriterRecord, emission_to_writer_value, mapped_output_to_writer_record, yields,
  produce, produce_item, continue, decide, map_item,
}
use product_feed_protocol.Writers.{Encoded}
use product_feed_protocol.Writers.Csv as Csv
use product_feed_protocol.Writers.Csv.{size_matches, is_missing, is_none}
use product_feed_protocol.Writers.Csv.Markers.{
  succeeds, all, is_well_formed, cells_of, header_is_accepted, row_is_accepted, succeeds-write,
}
use product_feed_protocol.Feed.{to_cell, to_row, validate, convert, payload, csv_artifact}

module _ (P : WriterRecord → Type 0) (show_value : Value → String)
    (judge : Record → Option ExecutionResult) (change : Record → Option (Output × List Issue))
    (isolation : Option Isolation)
    (made : (r : Record) (o : Output × List Issue)
      → change r ≡ some o
      → P (mapped_output_to_writer_record o.0)) where
  abbrev AllIn : Round → Type 0
  AllIn r = All P (yields r.yielded [])

  map_item-AllIn :
      (ref : String) (r : Record) (ds : List Diagnostic)
      → AllIn (map_item show_value judge change isolation ref r ds)
  unfolding map_item
  map_item-AllIn ref r ds = elim (Option-cases (change r)) [
    | inl h ↦ rw (map_item, h) tt
    | inr (o, h) ↦ rw (map_item, h) (made r o h, tt)
  ]

  decide-AllIn :
      (ref : String) (r : Record) (ds : List Diagnostic) (d : Decision)
      → AllIn (decide show_value judge change isolation ref r ds d)
  unfolding decide
  decide-AllIn ref r ds Decision.drop = tt
  decide-AllIn ref r ds Decision.fail = tt
  decide-AllIn ref r ds pass = map_item-AllIn ref r ds
  decide-AllIn ref r ds Decision.warn = map_item-AllIn ref r ds

  produce_item-AllIn : (item : Item) → AllIn (produce_item show_value judge change isolation item)
  unfolding produce_item
  produce_item-AllIn none = tt
  produce_item-AllIn (some r) = elim (Option-cases (judge r)) [
    | inl h ↦ rw (produce_item, h) tt
    | inr (v, h) ↦
        rw (produce_item, h)
          (decide-AllIn (extract_item_ref show_value r) r
            (validation_diagnostics (extract_item_ref show_value r) v) v.decision)
  ]

  All-yields :
      (y : Option WriterRecord) (rs : List WriterRecord)
      → All P (yields y [])
      → All P rs
      → All P (yields y rs)
  All-yields none rs h k = k
  All-yields (some w) rs (h, _) k = (h, k)

  All-continue :
      (y : Option WriterRecord) (ds : List Diagnostic) (f : Flow) (p : Production)
      → All P (yields y [])
      → All P p.records
      → All P (continue (round y ds f) p).records
  unfolding continue
  All-continue y ds go_on p h k = All-yields y p.records h k
  All-continue y ds stop p h k = h
  All-continue y ds raise p h k = h

  -- What holds of all that the mapping makes holds of all records of a feed.
  All-produce :
      (items : List Item) → All P (produce show_value judge change isolation items).records
  unfolding produce
  All-produce [] = tt
  All-produce (item ∷ items) =
      let r = produce_item show_value judge change isolation item in
      All-continue r.yielded r.diagnostics r.flow (produce show_value judge change isolation items)
        (produce_item-AllIn item) (All-produce items)

never_conflicts :
    (header fine taken x y same : Bool)
    → fine ≡ true
    → same ≡ false
    → (header && (fine && (taken && not (x && (y && same))))) ≡ (header && taken)
never_conflicts header fine taken x y same h k = ground (arith, h, k)

-- The columns, if there are any, are as many as the fields of a row.
abbrev pub Fits : Option (List String) → MappingExecutor.Plan → Type 0
Fits none plan = Unit
Fits (some columns) plan = length (ordered_csv_fields plan).0 ≡ length columns

size-Fits :
    (columns : Option (List String)) (plan : MappingExecutor.Plan) (es : List Emission)
    → Fits columns plan
    → length es ≡ length (ordered_csv_fields plan).0
    → size_matches columns (map to_cell (map emission_to_writer_value es)) ≡ true
size-Fits none plan es fits same = refl
size-Fits (some columns) plan es fits same = (nat_beq_iff _ _).1 (
    length-map to_cell (map emission_to_writer_value es)
    ∙ length-map emission_to_writer_value es
    ∙ same
    ∙ fits)

all-map :
    {A B : Type 0} (p : B → Bool) (f : A → B) (xs : List A)
    → All (λ x. p (f x) ≡ true) xs
    → all p (map f xs) ≡ true
all-map p f [] h = refl
all-map p f (x ∷ xs) (h, k) = rw (h, all-map p f xs k) refl

module _ (modules : Validation.Catalog) (operations : Mapping.Catalog) (show_value : Value → String)
    (policy : Option Policy) (rules : List RulePlan) (plan : MappingExecutor.Plan)
    (profile : String) (isolation : Option Isolation) where
  row-Fits :
      (config : Csv.Config) (r : Record)
      → plan.output_kind ≡ csv_row
      → Fits config.columns plan
      → is_well_formed config (
          to_row (
            mapped_output_to_writer_record
              (MappingExecutor.run_one operations show_value plan r profile).0))
        ≡ true
  unfolding to_row mapped_output_to_writer_record
  row-Fits config r kind fits =
      let (es, same, len) = csv_output operations show_value plan r profile kind in
      rw same (size-Fits config.columns plan es fits len)

  -- What holds of the conversion of a record holds of the record that it made.
  abbrev MadeWell : Csv.Config → Option (Output × List Issue) → Type 0
  MadeWell config none = Unit
  MadeWell config (some o) =
      is_well_formed config (to_row (mapped_output_to_writer_record o.0)) ≡ true

  payload-Fits :
      (config : Csv.Config) (items : List Item)
      → plan.output_kind ≡ csv_row
      → Fits config.columns plan
      → All
          (λ w. is_well_formed config (to_row w) ≡ true)
          (payload modules operations show_value policy rules plan profile isolation items).records
  unfolding payload convert
  payload-Fits config items kind fits =
      All-produce (λ w. is_well_formed config (to_row w) ≡ true) show_value
        (validate modules operations show_value policy rules plan profile isolation)
        (convert modules operations show_value policy rules plan profile isolation) isolation
        (λ r o made. subst (MadeWell config) made (row-Fits config r kind fits)) items

  -- The CSV writer fails on what the producer makes of a feed under a plan for CSV exactly where `csv` or the encoding refuses
  -- the header, if one is written, or the texts of a record, if the columns, where they are configured, are as many as the
  -- fields of the plan, and the markers of missing and null values differ: no record has a wrong type or size, and no
  -- marker is in conflict.
  pub csv_artifact-succeeds :
      {B : Type 0} (write_row : List String → Encoded B) (repr : String → String)
      (config : Csv.Config) (items : List Item)
      → plan.output_kind ≡ csv_row
      → Fits config.columns plan
      → config.missing_value_marker ≢ config.null_value_marker
      → succeeds (
          csv_artifact modules operations show_value policy rules plan profile isolation write_row
            repr config items)
        ≡ (header_is_accepted write_row repr config config.include_header config.columns
            && all (row_is_accepted write_row repr config) (
                map to_row
                  (payload modules operations show_value policy rules plan profile isolation
                    items).records))
  unfolding csv_artifact
  csv_artifact-succeeds write_row repr config items kind fits differ =
      let rows =
        map to_row
          (payload modules operations show_value policy rules plan profile isolation
            items).records in
      succeeds-write write_row repr config rows
      ∙ never_conflicts
          (header_is_accepted write_row repr config config.include_header config.columns) _ _
          (any is_missing (cells_of rows)) (any is_none (cells_of rows)) _
          (all-map (is_well_formed config) to_row _ (payload-Fits config items kind fits))
          (ground (arith, differ, eq_iff config.missing_value_marker config.null_value_marker))
