-- ===== src/Connectors/Records.antt =====
-- pfp_runtime/connectors/producers/product_producer.py, without the logs. `str(value)` of an object that is not a text is a parameter.
use product_feed_protocol.Prelude.{
  String, Option, none, some, List, [], ◌∷◌, string_eq, if◌then◌else◌,
}
use product_feed_protocol.Dict.{lookup, insert}
use product_feed_protocol.Text.{split, is_empty, strip_text}
use product_feed_protocol.Value.{Value, none', str, mapping, fields, to_fields, Record}
use product_feed_protocol.Mapping.Operations.{text}

abbrev pub object_of : Option Value → Record
object_of (some (mapping fs)) = fields fs
object_of _ = []

-- The object at a key, or a new one.
unfoldable pub child : String → Record → Record
unfolding lookup
child segment d = object_of (lookup segment d)

-- The loop over the segments, and the assignment.
unfoldable pub set_path : List String → Value → Record → Record
unfolding child insert
set_path [] v d = d
set_path (s ∷ []) v d = insert s v d
set_path (s ∷ t ∷ ss) v d = insert s (mapping (to_fields (set_path (t ∷ ss) v (child s d)))) d

-- The loop of `_unflatten`, from a result on.
unfoldable pub unflatten_onto : Record → Record → Record
unfolding set_path split
unflatten_onto result [] = result
unflatten_onto result ((path, v) ∷ record') =
    unflatten_onto (set_path (split b'.' path) v result) record'

-- `_unflatten`
unfoldable pub unflatten : Record → Record
unfolding unflatten_onto
unflatten record' = unflatten_onto [] record'

module _ (show_value : Value → String) where
  abbrev filled : String → Option String
  filled s = if is_empty s then none else some s

  -- `_str_or_none`, of what `get` found.
  unfoldable pub str_or_none : Option Value → Option String
  unfolding strip_text
  str_or_none none = none
  str_or_none (some none') = none
  str_or_none (some v) = filled (strip_text (text show_value v))

  abbrev with_id : Record → Record → Option String → Option Record
  with_id nested product none = none
  with_id nested product (some id) =
      some (insert "product" (mapping (to_fields (insert "item_id" (str id) product))) nested)

  -- `_build_record`
  unfoldable pub build_record : Record → Option Record
  unfolding lookup insert str_or_none
  build_record nested = elim (lookup "product" nested) [
    | none ↦ none
    | some v ↦ elim v [
      | mapping fs ↦ with_id nested (fields fs) (str_or_none (lookup "item_id" (fields fs)))
      | _ ↦ none
    ]
  ]

  -- `produce_stream`
  unfoldable pub produce_stream : List Record → List Record
  unfolding unflatten build_record
  produce_stream [] = []
  produce_stream (r ∷ rs) =
      let rest = produce_stream rs in
      elim (build_record (unflatten r)) [ some built ↦ built ∷ rest | none ↦ rest ]
