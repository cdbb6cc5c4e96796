-- ===== src/Feed/Tests.antt =====
-- A feed of two products, one of them to be deleted, as a CSV artifact.
use product_feed_protocol.Prelude.{
  map, false, ◌&&◌, String, ◌≡◌, ◌≢◌, refl, arith, eq_iff, true, none, some, List, [], ◌∷◌,
  string_eq,
}
use product_feed_protocol.Value.{Value, str}
use product_feed_protocol.Validation as Validation
use product_feed_protocol.Mapping as Mapping
use product_feed_protocol.Mapping.{FieldPlan, omit_missing, emit_null_if_missing, Presence}
use product_feed_protocol.Mapping.Executor.{csv_row, Plan, ordered_csv_fields}
use product_feed_protocol.Producer.{Item, skip_item}
use product_feed_protocol.Writers.{encoded}
use product_feed_protocol.Writers.Csv as Csv
use product_feed_protocol.Writers.Csv.Markers.{succeeds, all, header_is_accepted, row_is_accepted}
use product_feed_protocol.Feed.{to_row, payload, csv_artifact}
use product_feed_protocol.Feed.Rows.{Fits, csv_artifact-succeeds}

abbrev no_modules : Validation.Catalog
no_modules name = none

abbrev no_operations : Mapping.Catalog
no_operations name = none

abbrev show_value : Value → String
show_value (str s) = s
show_value _ = "?"

abbrev field_of : String → Presence → FieldPlan
field_of name presence = record {
  field_id = name;
  source_path = name;
  transforms = [];
  presence = presence;
  final_type = none;
  is_required_source = false;
}

abbrev plan : Plan
plan = record {
  output_kind = csv_row;
  output_order = some ("id" ∷ "brand" ∷ "gtin" ∷ []);
  fields =
      ("id", field_of "id" omit_missing)
      ∷ ("brand", field_of "brand" emit_null_if_missing)
      ∷ ("gtin", field_of "gtin" omit_missing)
      ∷ [];
  delete_tombstone_enabled = true;
  delete_tombstone_flag_path = "delete";
  delete_tombstone_id_field = "id";
}

abbrev config : Csv.Config
config = record {
  include_header = true;
  columns = some ("id" ∷ "brand" ∷ "gtin" ∷ []);
  missing_value_marker = "";
  null_value_marker = "NULL";
}

abbrev items : List Item
items =
    some (("id", str "17") ∷ []) ∷ none ∷ some (("id", str "18") ∷ ("delete", str "yes") ∷ []) ∷ []

abbrev as_it_is : {A : Type 0} → A → A
as_it_is a = a

lines :
    (csv_artifact no_modules no_operations show_value none [] plan "full"
      (some skip_item)
      encoded
      as_it_is
      config
      items).chunks
    ≡ ("id" ∷ "brand" ∷ "gtin" ∷ []) ∷ ("17" ∷ "NULL" ∷ "" ∷ []) ∷ ("18" ∷ "" ∷ "" ∷ []) ∷ []
unfolding csv_artifact
lines = refl

plan-Fits : Fits config.columns plan
unfolding ordered_csv_fields
plan-Fits = refl

markers_differ : config.missing_value_marker ≢ config.null_value_marker
markers_differ = ground (arith, eq_iff "" "NULL")

csv_artifact-succeeds_example :
    succeeds (
      csv_artifact no_modules no_operations show_value none [] plan "full"
        (some skip_item)
        encoded
        as_it_is
        config
        items)
    ≡ (header_is_accepted encoded as_it_is config true config.columns
        && all (row_is_accepted encoded as_it_is config) (
            map to_row
              (payload no_modules no_operations show_value none [] plan "full"
                (some skip_item)
                items).records))
csv_artifact-succeeds_example =
    csv_artifact-succeeds no_modules no_operations show_value none [] plan "full" (some skip_item)
      encoded as_it_is config items refl plan-Fits markers_differ
