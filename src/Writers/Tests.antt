-- ===== src/Writers/Tests.antt =====
-- The writers on a few records.
use product_feed_protocol.Prelude.{
  ℕ, String, ◌≡◌, refl, true, not, ◌&&◌, some, List, [], ◌∷◌, any, ◌==◌, string_eq, if◌then◌else◌,
}
use product_feed_protocol.Dict.{Dict}
use product_feed_protocol.Dict.Keys.{Unique, keys}
use product_feed_protocol.Writers.{Encoded, encoded, refused}
use product_feed_protocol.Writers.Csv as Csv
use product_feed_protocol.Writers.Csv.{Row, tuple, Cell, is_missing, is_none}
use product_feed_protocol.Writers.Csv.Markers.{
  succeeds, all, is_well_formed, cells_of, header_is_accepted, row_is_accepted, succeeds-write,
}
use product_feed_protocol.Writers.Jsonl.{JsonValue}
use product_feed_protocol.Writers.Jsonl.Fields.{text_items, IsFiltered, filter_record-IsFiltered}

abbrev as_it_is : {A : Type 0} → A → A
as_it_is a = a

-- Rows with a text that is not ASCII are refused.
abbrev write_row : List String → Encoded (List String)
write_row texts =
    if any (λ t. t == "café") texts
    then refused "'ascii' codec can't encode character"
    else encoded texts

abbrev config : Csv.Config
config = record {
  include_header = true;
  columns = some ("id" ∷ "brand" ∷ []);
  missing_value_marker = "";
  null_value_marker = "";
}

abbrev rows : List Row
rows = tuple (Cell.other "17" ∷ Cell.missing ∷ []) ∷ tuple (Cell.other "18" ∷ Cell.none' ∷ []) ∷ []

first_row_only :
    (Csv.write write_row as_it_is config rows).chunks
    ≡ ("id" ∷ "brand" ∷ []) ∷ ("17" ∷ "" ∷ []) ∷ []
unfolding Csv.write
first_row_only = refl

refused_row :
    (Csv.write write_row as_it_is config
      (tuple (Cell.other "café" ∷ Cell.missing ∷ []) ∷ rows)).chunks
    ≡ ("id" ∷ "brand" ∷ []) ∷ []
unfolding Csv.write
refused_row = refl

succeeds-write_example : succeeds (Csv.write write_row as_it_is config rows) ≡ (
    header_is_accepted write_row as_it_is config true config.columns
    && (all (is_well_formed config) rows
        && (all (row_is_accepted write_row as_it_is config) rows
            && not (
                any is_missing (cells_of rows)
                && (any is_none (cells_of rows)
                    && (config.missing_value_marker == config.null_value_marker))))))
succeeds-write_example = succeeds-write write_row as_it_is config rows

abbrev members : Dict String (JsonValue ℕ)
members = ("id", JsonValue.other 17) ∷ ("brand", JsonValue.none') ∷ ("gtin", JsonValue.missing) ∷ []

members-Unique : Unique (keys members)
members-Unique = (refl, (refl, (refl, tt)))

filter_record-IsFiltered_example : IsFiltered true (text_items members)
filter_record-IsFiltered_example = filter_record-IsFiltered true (text_items members) members-Unique
