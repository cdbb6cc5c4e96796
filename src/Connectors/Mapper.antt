-- ===== src/Connectors/Mapper.antt =====
-- pfp_runtime/connectors/connector_mapping: `validate_mapping` and `ConnectorMapper`, without the logs.
use product_feed_protocol.Prelude.{
  String, Bool, true, false, Option, none, some, List, [], ◌∷◌, string_eq, if◌then◌else◌,
}
use product_feed_protocol.Dict.{Dict, lookup, insert}
use product_feed_protocol.Dict.Keys.{contains}
use product_feed_protocol.Text.{is_empty}
use product_feed_protocol.Value.{Value, bool, str, list, mapping, items, fields, Record}

-- `ConnectorFieldMapping`
pub record FieldMapping : Type 0 where
  pub source : String
  pub target : String
  pub is_required : Bool

-- `ConnectorMappingConfig`
pub record Config : Type 0 where
  pub mappings : List FieldMapping
  pub continue_on_error : Bool

infixl 5 ◌>>=◌
abbrev ◌>>=◌ : {A B : Type 0} → Option A → (A → Option B) → Option B
none >>= f = none
some a >>= f = f a

abbrev filled : Option Value → Option String
filled (some (str s)) = if is_empty s then none else some s
filled _ = none

-- `d.get(key, default)`, if it is a Boolean.
abbrev boolean_or : Bool → Option Value → Option Bool
boolean_or default none = some default
boolean_or default (some (bool b)) = some b
boolean_or default (some _) = none

-- One round of the loop of `validate_mapping`; none is its error.
unfoldable pub validate_field : Value → Option FieldMapping
unfolding lookup
validate_field (mapping fs) = do
  source ← filled (lookup "source" (fields fs))
  target ← filled (lookup "target" (fields fs))
  is_required ← boolean_or false (lookup "required" (fields fs))
  some (record { source = source; target = target; is_required = is_required })
validate_field _ = none

unfoldable pub validate_fields : List Value → Option (List FieldMapping)
unfolding validate_field
validate_fields [] = some []
validate_fields (v ∷ vs) = do m ← validate_field v; ms ← validate_fields vs; some (m ∷ ms)

abbrev filled_list : Option Value → Option (List Value)
filled_list (some (list vs)) = elim (items vs) [ [] ↦ none | w ∷ ws ↦ some (w ∷ ws) ]
filled_list _ = none

-- `validate_mapping`
unfoldable pub validate_mapping : Record → Option Config
unfolding validate_fields lookup
validate_mapping raw = do
  raws ← filled_list (lookup "mappings" raw)
  mappings ← validate_fields raws
  continue_on_error ← boolean_or true (lookup "continue_on_error" raw)
  some (record { mappings = mappings; continue_on_error = continue_on_error })

-- `_source_to_target`
unfoldable pub source_to_target : List FieldMapping → Dict String String → Dict String String
unfolding insert
source_to_target [] d = d
source_to_target (m ∷ ms) d = source_to_target ms (insert m.source m.target d)

-- `_required_sources`
unfoldable pub required_sources : List FieldMapping → List String
required_sources [] = []
required_sources (m ∷ ms) =
    let rest = required_sources ms in if m.is_required then m.source ∷ rest else rest

-- The loop over the mapping for one record, with none where a required field is absent.
unfoldable pub map_record : List String → Dict String String → Record → Record → Option Record
unfolding lookup insert
map_record required [] input output = some output
map_record required ((source, target) ∷ rest) input output = elim (lookup source input) [
  | some v ↦ map_record required rest input (insert target v output)
  | none ↦ if contains source required then none else map_record required rest input output
]

-- What a stream yields, and whether it ends with a `ConnectorMappingValidationError`.
abbrev pub Stream : Type 0
Stream = List Record × Bool

unfoldable pub map_records : Config → List Record → Stream
unfolding map_record source_to_target required_sources
map_records config [] = ([], false)
map_records config (r ∷ rs) =
    let rest = map_records config rs in
    elim (map_record (required_sources config.mappings) (source_to_target config.mappings []) r
      []) [
        | some output ↦ (output ∷ rest.0, rest.1)
        | none ↦ if config.continue_on_error then rest else ([], true)
      ]
