-- ===== src/Compiler/Tests.antt =====
-- A small schema: a title that is trimmed and cut, and an identifier that is required.
use mathlib.Core.List.{Perm}
use product_feed_protocol.Prelude.{
  String, ◌≡◌, refl, true, Option, none, some, List, [], ◌∷◌, ◌==◌, string_eq, map, if◌then◌else◌,
}
use product_feed_protocol.Value.{
  Value, none', str, list, nil, cons, mapping, end, field, Fields, Record,
}
use product_feed_protocol.Compiler.{OpSpec, OpCatalog, ModuleCatalog}
use product_feed_protocol.Compiler.Schema.{
  Severity, error, warn, DiagItem, CompiledSchema, sort_compile_diagnostics, compile,
}
use product_feed_protocol.Compiler.Schema.Reports.{InOrder, sort_compile_diagnostics-InOrder}
use product_feed_protocol.Compiler.Schema.Coherence.{IsCoherent, AreLinked}
use product_feed_protocol.Compiler.Schema.Validity.{
  IsReported, compile-IsReported, compile-AreLinked, compile-IsCoherent,
}

abbrev op : String → String → OpSpec
op input output = record {
  input_type = input;
  output_type = output;
  prepare = none;
  call = λ v args. some v;
}

abbrev operations : OpCatalog
operations name =
    if name == "trim"
    then some (op "string" "string")
    else if name == "truncate"
    then some (op "string" "string")
    else if name == "to_int"
    then some (op "any" "int")
    else none

abbrev modules : ModuleCatalog
modules name =
    if name == "required_if_profile"
    then some "any"
    else if name == "max_length"
    then some "string"
    else none

abbrev show_value : Value → String
show_value (str s) = s
show_value _ = "?"

abbrev transform : String → Value
transform name = mapping (field "op" (str name) end)

abbrev source : String → Value
source path = mapping (field "path" (str path) end)

abbrev rule : String → String → Value
rule module_id name = mapping (
    field "module_id" (str module_id)
      (field "applies_to" (mapping (field "field" (str name) end)) end))

abbrev output : Fields → Value
output artifact = mapping (
    field "writer_id" (str "csv")
      (field "artifact" (mapping (field "content_type" (str "text/csv") artifact)) end))

-- The artifact, the presence of the identifier and the transforms of the title.
abbrev schema : Fields → String → Value → Record
schema artifact presence transforms =
    ("header", mapping (field "artifact_profile" (str "full") end))
    ∷ ("output", output artifact)
    ∷ (
      "mapping",
      mapping (
          field "output_kind" (str "csv_row") (
            field "output_order" (list (cons (str "title") (cons (str "id") nil))) (
              field "fields"
                (mapping (
                  field "title"
                    (mapping (field "source" (source "name") (field "transforms" transforms end)))
                    (field "id"
                      (mapping (
                        field "source" (source "sku")
                          (field "presence" (mapping (field "default" (str presence) end)) end)))
                      end)))
                end))),
    )
    ∷ (
      "validation",
      mapping (
          field "rules"
            (list (cons (rule "required_if_profile" "id") (cons (rule "max_length" "title") nil)))
            end),
    )
    ∷ []

abbrev with_extension : Fields
with_extension = field "file_extension" (str ".csv") end

abbrev trimmed : Value
trimmed = list (cons (transform "trim") (cons (transform "truncate") nil))

abbrev codes_of : Option CompiledSchema → Option (List String)
codes_of none = none
codes_of (some c) = some (map (λ (d : DiagItem). d.code) c.diagnostics)

valid :
    codes_of
      (compile show_value operations modules (schema with_extension "error_if_missing" trimmed))
    ≡ some []
unfolding compile
valid = refl

-- The title becomes a number, which the rule on its length does not take, the identifier may be left out though the three
-- profiles require it, and the artifact has no extension.
invalid :
    codes_of (
      compile show_value operations modules (
        schema end "omit_missing" (list (cons (transform "trim") (cons (transform "to_int") nil)))))
    ≡ some (
        "COMPILER_OUTPUT_INVALID" ∷ "COMPILER_PRESENCE_REQUIRED_CONTRADICTION"
        ∷ "COMPILER_PRESENCE_REQUIRED_CONTRADICTION" ∷ "COMPILER_PRESENCE_REQUIRED_CONTRADICTION"
        ∷ "SCHEMA_TYPE_VALIDATION_MISMATCH" ∷ [])
unfolding compile
invalid = refl

-- A field whose transforms are null makes the compiler raise.
null_transforms :
    compile show_value operations modules (schema with_extension "error_if_missing" none') ≡ none
unfolding compile
null_transforms = refl

abbrev document : Record
document = schema with_extension "error_if_missing" trimmed

compiled :
    (c : CompiledSchema) × (compile show_value operations modules document ≡ some c)
    × (c.is_valid ≡ true)
unfolding compile
compiled = (_, refl, refl)

compile-IsReported_example : IsReported operations modules document compiled.0
compile-IsReported_example =
    compile-IsReported show_value operations modules document compiled.0 compiled.1

abbrev item : Severity → String → DiagItem
item s path = record { code = "A"; path = path; message = "m"; severity = s }

abbrev items : List DiagItem
items = item warn "a" ∷ item error "c" ∷ item error "b" ∷ []

errors_first : sort_compile_diagnostics items ≡ item error "b" ∷ item error "c" ∷ item warn "a" ∷ []
unfolding sort_compile_diagnostics
errors_first = refl

sort_compile_diagnostics-InOrder_example :
    InOrder (sort_compile_diagnostics items) × Perm (sort_compile_diagnostics items) items
sort_compile_diagnostics-InOrder_example = sort_compile_diagnostics-InOrder items

compile-AreLinked_example : AreLinked operations modules compiled.0.mapping_plan compiled.0.rules
compile-AreLinked_example =
    compile-AreLinked show_value operations modules document compiled.0 compiled.1

compile-IsCoherent_example : IsCoherent compiled.0.mapping_plan compiled.0.rules
compile-IsCoherent_example =
    compile-IsCoherent show_value operations modules document compiled.0 compiled.1 compiled.2
