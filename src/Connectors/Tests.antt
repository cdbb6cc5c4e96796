-- ===== src/Connectors/Tests.antt =====
-- Two records of a source, one without its identifier.
use product_feed_protocol.Prelude.{
  String, ◌≡◌, ◌≢◌, refl, sym, ◌∙◌, true, false, ◌==◌, string_eq, eq_iff, inl, some, List, [], ◌∷◌,
  ◌++◌, inr,
}
use product_feed_protocol.Text.{split}
use product_feed_protocol.Value.{
  Value, bool, str, list, cons, nil, mapping, field, end, to_fields, Record,
}
use product_feed_protocol.Mapping.{extract_by_source_path}
use product_feed_protocol.Connectors.Required.{true_ne_false}
use product_feed_protocol.Connectors.Mapper.{Config, validate_mapping, map_records}
use product_feed_protocol.Connectors.Records.{unflatten, produce_stream}
use product_feed_protocol.Connectors.Paths.{AllPart, extract-unflatten}
use product_feed_protocol.Connectors.Streams.{HasStreamed, map_records-HasStreamed}

abbrev show_value : Value → String
show_value (str s) = s
show_value _ = "?"

abbrev raw_mapping : Record
raw_mapping =
    (
      "mappings",
      list (
          cons
            (mapping (
              field "source" (str "sku")
                (field "target" (str "product.item_id") (field "required" (bool true) end))))
            (cons
              (mapping
                (field "source" (str "amount") (field "target" (str "offer.price.amount") end)))
              nil)),
    )
    ∷ []

abbrev config : Config
config = record {
  mappings =
      record { source = "sku"; target = "product.item_id"; is_required = true }
      ∷ record { source = "amount"; target = "offer.price.amount"; is_required = false }
      ∷ [];
  continue_on_error = true;
}

validated : validate_mapping raw_mapping ≡ some config
unfolding validate_mapping
validated = refl

abbrev source_records : List Record
source_records =
    (("sku", str " X1 ") ∷ ("amount", str "10") ∷ ("other", str "?") ∷ [])
    ∷ (("amount", str "3") ∷ [])
    ∷ []

mapped_records :
    map_records config source_records
    ≡ ((("product.item_id", str " X1 ") ∷ ("offer.price.amount", str "10") ∷ []) ∷ [], false)
unfolding map_records
mapped_records = refl

stopped_records :
    (map_records (record config { continue_on_error = false }) source_records).1 ≡ true
unfolding map_records
stopped_records = refl

produced_records :
    produce_stream show_value (map_records config source_records).0
    ≡ (("product", mapping (field "item_id" (str "X1") end))
        ∷ ("offer", mapping (field "price" (mapping (field "amount" (str "10") end)) end))
        ∷ [])
      ∷ []
unfolding produce_stream map_records
produced_records = refl

map_records-HasStreamed_example :
    HasStreamed config source_records (map_records config source_records)
map_records-HasStreamed_example = map_records-HasStreamed config source_records

abbrev earlier : Record
earlier = ("product", str "replaced") ∷ []

abbrev later : Record
later = ("product.brand", str "B") ∷ ("offer.id", str "7") ∷ []

texts_apart : (s t : String) → (s == t) ≡ false → s ≢ t
texts_apart s t h e = true_ne_false (sym ((eq_iff s t).1 e) ∙ h)

later_apart : AllPart (split b'.' "product.item_id") later
unfolding split
later_apart = (
  inr (refl, inl (texts_apart "brand" "item_id" refl)),
  (inl (texts_apart "offer" "product" refl), tt),
)

extract-unflatten_example :
    extract_by_source_path
      (mapping (to_fields (unflatten (earlier ++ ("product.item_id", str "X1") ∷ later))))
      "product.item_id"
    ≡ str "X1"
extract-unflatten_example =
    extract-unflatten earlier later "product.item_id" (str "X1") refl later_apart
