-- ===== src/Mapping/Tests.antt =====
-- The mapping of a small record.
use product_feed_protocol.Prelude.{
  false, String, ◌≡◌, refl, true, none, some, List, [], ◌∷◌, ◌==◌, string_eq, if◌then◌else◌,
}
use product_feed_protocol.Dict.{Dict, lookup}
use product_feed_protocol.Value.{
  Emission, value, omit, Value, str, list, nil, cons, mapping, field, end, Record,
}
use product_feed_protocol.Mapping.{Presence, omit_missing, error_if_missing, FieldPlan, Catalog}
use product_feed_protocol.Mapping.Fields.{execute_field}
use product_feed_protocol.Mapping.Executor.{
  OutputKind, csv_row, json_object, Plan, row, object, run_one,
}
use product_feed_protocol.Mapping.Emissions.{IsAccounted, execute_field-IsAccounted}
use product_feed_protocol.Mapping.Outputs.{object_field, json_output}
use product_feed_protocol.Mapping.Rows.{IsOrder, AreEmitted, csv_output-AreEmitted}

abbrev catalog : Catalog
catalog name = if name == "keep" then some (λ v args. some v) else none

abbrev show_value : Value → String
show_value (str s) = s
show_value _ = "?"

abbrev field_at : String → String → Presence → FieldPlan
field_at name path presence = record {
  field_id = name;
  source_path = path;
  transforms =
      record {
        op_id = "keep";
        args = none;
        on_missing = none;
        input_type = none;
        output_type = none;
      }
      ∷ [];
  presence = presence;
  final_type = none;
  is_required_source = false;
}

abbrev plan : OutputKind → Plan
plan kind = record {
  output_kind = kind;
  output_order = some ("id" ∷ "image" ∷ []);
  fields =
      ("image", field_at "image" "images.1.url" omit_missing)
      ∷ ("id", field_at "id" "id" error_if_missing)
      ∷ ("brand", field_at "brand" "brand" error_if_missing)
      ∷ [];
  delete_tombstone_enabled = true;
  delete_tombstone_flag_path = "delete";
  delete_tombstone_id_field = "id";
}

abbrev images : Value
images =
    list
      (cons (mapping (field "url" (str "a") end)) (cons (mapping (field "url" (str "b") end)) nil))

abbrev product : Record
product = ("id", str "17") ∷ ("images", images) ∷ ("delete", str " YES ") ∷ []

csv : (run_one catalog show_value (plan csv_row) product "full").0 ≡ row (value "17" ∷ omit ∷ [])
unfolding run_one
csv = refl

json :
    (run_one catalog show_value (plan json_object) product "full").0
    ≡ object (("id", value "17") ∷ ("image", value "b") ∷ [])
unfolding run_one
json = refl

execute_field-IsAccounted_example :
    IsAccounted
      (field_at "brand" "brand" error_if_missing)
      (execute_field catalog show_value (field_at "brand" "brand" error_if_missing) product)
execute_field-IsAccounted_example =
    execute_field-IsAccounted catalog show_value (field_at "brand" "brand" error_if_missing) product

json_output_example :
    (d : Dict String Emission) × ((run_one catalog show_value (plan json_object) product "full").0
      ≡ object d)
    × ((j : String) → lookup j d ≡ object_field catalog show_value (plan json_object) product j)
json_output_example = json_output catalog show_value (plan json_object) product "full" refl

csv_output-AreEmitted_example :
    (fields : List String) × (es : List Emission) × IsOrder (plan csv_row) fields
    × ((run_one catalog show_value (plan csv_row) product "full").0 ≡ row es)
    × AreEmitted catalog show_value (plan csv_row) product fields es
csv_output-AreEmitted_example =
    csv_output-AreEmitted catalog show_value (plan csv_row) product "full" refl
