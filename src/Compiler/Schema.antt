-- ===== src/Compiler/Schema.antt =====
-- pfp_core/engine/compiler.py and writer_compiler.py: a whole schema.
pub mod Coherence
pub mod Reports
pub mod Validity
use product_feed_protocol.Prelude.{
  String, Bool, true, false, not, Option, none, some, List, [], ◌∷◌, any, map, string_eq,
  if◌then◌else◌,
}
use product_feed_protocol.Dict.{Dict, lookup}
use product_feed_protocol.Sorting.{sorted}
use product_feed_protocol.Text.{◌⧺◌}
use product_feed_protocol.Text.Order.{texts_le}
use product_feed_protocol.Value.{Value, str, mapping, end, Record}
use product_feed_protocol.Validation.{RulePlan}
use product_feed_protocol.Mapping.Executor.{Plan}
use product_feed_protocol.Compiler.{
  Diag, Compiled, give, refuse, ◌>>=◌, ◌>>◌, as_mapping, get_or, OpCatalog, ModuleCatalog,
}
use product_feed_protocol.Compiler.Section.{compile_mapping, final_types, presences}
use product_feed_protocol.Compiler.Profiles.{check_presence}
use product_feed_protocol.Compiler.Rules.{Rules, compile_validation}

-- `WriterSpec`
pub record WriterSpec : Type 0 where
  pub writer_id : String
  pub artifact_content_type : String
  pub artifact_file_extension : String
  pub writer_config : Record

-- `CompileSeverity`
pub data Severity : Type 0 where
  error warn : Severity

-- `CompileDiagItem`
pub record DiagItem : Type 0 where
  pub code : String
  pub path : String
  pub message : String
  pub severity : Severity

-- `CompiledSchema`
pub record CompiledSchema : Type 0 where
  pub artifact_profile : String
  pub rules : List RulePlan
  pub mapping_plan : Plan
  pub writer_spec : WriterSpec
  pub diagnostics : List DiagItem
  pub is_valid : Bool

-- `output.get(…)`, where it has to be a text, and where it has to be an object.
unfoldable pub read_text : String → Option Value → Compiled String
read_text path (some (str s)) = give s
read_text path _ = refuse "" "COMPILER_OUTPUT_INVALID" path (path ⧺ " must be a string.")

unfoldable pub read_object : String → Option Record → Compiled Record
read_object path (some d) = give d
read_object path none = refuse [] "COMPILER_OUTPUT_INVALID" path (path ⧺ " must be an object.")

abbrev empty_spec : WriterSpec
empty_spec = record {
  writer_id = "";
  artifact_content_type = "";
  artifact_file_extension = "";
  writer_config = [];
}

unfoldable pub compile_output : Record → Compiled WriterSpec
unfolding read_text read_object as_mapping lookup
compile_output output = do
  writer_id ← read_text "output.writer_id" (lookup "writer_id" output)
  writer_config ←
      read_object "output.writer_config"
        (as_mapping (some (get_or "writer_config" (mapping end) output)))
  artifact ← read_object "output.artifact" (as_mapping (lookup "artifact" output))
  content_type ← read_text "output.artifact.content_type" (lookup "content_type" artifact)
  file_extension ← read_text "output.artifact.file_extension" (lookup "file_extension" artifact)
  give (record {
    writer_id = writer_id;
    artifact_content_type = content_type;
    artifact_file_extension = file_extension;
    writer_config = writer_config;
  })

-- `compile_writer_spec`
unfoldable pub compile_writer_spec : Record → Compiled WriterSpec
unfolding compile_output as_mapping lookup
compile_writer_spec schema_doc = elim (as_mapping (lookup "output" schema_doc)) [
  | none ↦ refuse empty_spec "COMPILER_OUTPUT_INVALID" "output" "output must be an object."
  | some output ↦ compile_output output
]

-- `severity_order` as a text, which orders as the number does.
unfoldable pub severity_key : Severity → String
severity_key error = "0"
severity_key warn = "1"

abbrev pub diag_key : DiagItem → List String
diag_key d = severity_key d.severity ∷ d.code ∷ d.path ∷ d.message ∷ []

unfoldable pub diag_le : DiagItem → DiagItem → Bool
unfolding texts_le severity_key
diag_le a b = texts_le (diag_key a) (diag_key b)

-- `sort_compile_diagnostics`
unfoldable pub sort_compile_diagnostics : List DiagItem → List DiagItem
unfolding sorted diag_le
sort_compile_diagnostics = sorted diag_le

-- `item.severity == "ERROR"`
abbrev pub is_error : DiagItem → Bool
is_error d = elim d.severity [ error ↦ true | warn ↦ false ]

-- The item that `add_error` appends.
abbrev pub error_item : Diag → DiagItem
error_item d = record { code = d.code; path = d.path; message = d.message; severity = error }

-- What the sections compile to, before the diagnostics are sorted.
pub record Sections : Type 0 where
  pub writer_spec : WriterSpec
  pub mapping_plan : Plan
  pub rules : Rules

unfoldable pub compile_sections : OpCatalog → ModuleCatalog → Record → Compiled Sections
unfolding compile_writer_spec compile_mapping compile_validation check_presence
compile_sections operations modules schema_doc = do
  writer_spec ← compile_writer_spec schema_doc
  mapping_plan ← compile_mapping operations schema_doc
  rules ← compile_validation modules (final_types mapping_plan.fields) schema_doc
  check_presence (presences mapping_plan.fields) rules.sources
  give (record { writer_spec = writer_spec; mapping_plan = mapping_plan; rules = rules })

-- `str(header["artifact_profile"])`: none if there is no header with a profile.
unfoldable pub read_profile : (Value → String) → Record → Option String
unfolding as_mapping lookup
read_profile show_value schema_doc = elim (as_mapping (lookup "header" schema_doc)) [
  | none ↦ none
  | some header ↦ elim (lookup "artifact_profile" header) [
    | none ↦ none
    | some v ↦ some (show_value v)
  ]
]

abbrev pub compiled_schema : String → Sections → List DiagItem → CompiledSchema
compiled_schema profile sections ordered = record {
  artifact_profile = profile;
  rules = sections.rules.kept;
  mapping_plan = sections.mapping_plan;
  writer_spec = sections.writer_spec;
  diagnostics = ordered;
  is_valid = not (any is_error ordered);
}

unfoldable pub conclude : (Value → String) → Record → Compiled Sections → Option CompiledSchema
unfolding read_profile sort_compile_diagnostics
conclude show_value schema_doc none = none
conclude show_value schema_doc (some (sections, diagnostics)) =
    elim (read_profile show_value schema_doc) [
      | none ↦ none
      | some profile ↦
          some (
            compiled_schema profile sections
              (sort_compile_diagnostics (map error_item diagnostics)))
    ]

-- `SchemaCompiler.compile`: none for an exception.
unfoldable pub compile :
    (Value → String) → OpCatalog → ModuleCatalog → Record → Option CompiledSchema
unfolding compile_sections conclude
compile show_value operations modules schema_doc =
    conclude show_value schema_doc (compile_sections operations modules schema_doc)
