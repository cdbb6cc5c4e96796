-- ===== src/Mapping/TaxCodes/Tests.antt =====
-- The tax code of a pair of shoes.
use product_feed_protocol.Prelude.{◌≡◌, refl, false, none, some, [], ◌∷◌, string_eq}
use product_feed_protocol.Dict.{lookup}
use product_feed_protocol.Value.{bool, str, mapping, field, end, to_fields, Record}
use product_feed_protocol.Mapping.TaxCodes.{
  mappings_of, prepare_tax_code, filled_text, map_tax_code,
}
use product_feed_protocol.Mapping.TaxCodes.Prefixes.{IsByCategory, map_tax_code-IsByCategory}

abbrev tax_codes : Record
tax_codes = ("Apparel", str "txcd_1") ∷ ("Apparel > Shoes", str "txcd_2") ∷ []

abbrev tax_mapping : Record
tax_mapping = ("mappings", mapping (to_fields tax_codes)) ∷ []

abbrev shoes : Record
shoes = ("tax_category", str " Apparel > Shoes > Boots ") ∷ []

made : (args : Record) × (prepare_tax_code (some tax_mapping) [] ≡ some args)
unfolding prepare_tax_code
made = (_, refl)

shoe_code : map_tax_code (mapping (to_fields shoes)) made.0 ≡ some (str "txcd_2")
unfolding map_tax_code made prepare_tax_code
shoe_code = refl

exempt_code :
    map_tax_code (mapping (field "taxable" (bool false) end)) made.0 ≡ some (str "txcd_00000000")
unfolding map_tax_code made prepare_tax_code
exempt_code = refl

codes_read : mappings_of tax_mapping ≡ some tax_codes
unfolding mappings_of
codes_read = refl

no_code : filled_text (lookup "tax_code_override" shoes) ≡ none
unfolding filled_text lookup
no_code = refl

category_read : filled_text (lookup "tax_category" shoes) ≡ some "Apparel > Shoes > Boots"
unfolding filled_text lookup
category_read = refl

map_tax_code-IsByCategory_example :
    IsByCategory tax_mapping tax_codes shoes "Apparel > Shoes > Boots"
      (map_tax_code (mapping (to_fields shoes)) made.0)
map_tax_code-IsByCategory_example =
    map_tax_code-IsByCategory tax_mapping tax_codes made.0 shoes "Apparel > Shoes > Boots"
      codes_read made.1 no_code category_read
