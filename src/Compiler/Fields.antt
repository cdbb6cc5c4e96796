-- ===== src/Compiler/Fields.antt =====
-- pfp_core/engine/mapping/field_compiler.py and the link of an operation, catalog_resolver.py.

pub mod Chains
pub mod Links
use product_feed_protocol.Prelude.{
  ℕ, ◌+◌, String, Bool, true, false, not, ◌&&◌, Option, none, some, List, [], ◌∷◌, ◌==◌, string_eq,
  if◌then◌else◌,
}
use product_feed_protocol.Dict.{lookup}
use product_feed_protocol.Text.{◌⧺◌, show, is_empty}
use product_feed_protocol.Value.{
  TypeId, Value, none', bool, str, list, nil, mapping, items, Record, text_of,
}
use product_feed_protocol.Mapping.{
  OnMissing, pass, default, omit, error, OpCall, Presence, FieldPlan,
}
use product_feed_protocol.Compiler.{
  Compiled, give, refuse, refuse_if, ◌>>=◌, ◌>>◌, as_mapping, get_or, is_in, is_unsupported,
  to_plan_type_id, is_type_mismatch, OpSpec, OpCatalog, mapping_op_allowlist,
}
use product_feed_protocol.Compiler.Presence.{compile_field_presence}

-- `args`: none if they are missing, null or refused.
unfoldable pub read_args : String → Option Value → Compiled (Option Record)
unfolding as_mapping
read_args op_path none = give none
read_args op_path (some none') = give none
read_args op_path (some v) = elim (as_mapping (some v)) [
  | none ↦
      refuse none "SCHEMA_TYPE_OP_ARGS_INVALID" (op_path ⧺ ".args")
        (op_path ⧺ ".args must be an object.")
  | some args ↦ give (some args)
]

abbrev refuse_on_missing : String → Compiled (Option OnMissing)
refuse_on_missing op_path =
    refuse none "SCHEMA_TYPE_ENUM_INVALID" (op_path ⧺ ".on_missing")
      (op_path ⧺ ".on_missing must be one of: pass, default, omit, error.")

-- `on_missing`, of `ALLOWED_ON_MISSING`.
unfoldable pub read_on_missing : String → Option Value → Compiled (Option OnMissing)
read_on_missing op_path none = give none
read_on_missing op_path (some none') = give none
read_on_missing op_path (some (str s)) =
    if s == "pass"
    then give (some pass)
    else if s == "default"
    then give (some default)
    else if s == "omit"
    then give (some omit)
    else if s == "error"
    then give (some error)
    else refuse_on_missing op_path
read_on_missing op_path (some v) = refuse_on_missing op_path

-- `resolved_args`
unfoldable pub resolve_args : OpSpec → Option Record → Compiled (Option Record)
resolve_args spec none = give none
resolve_args spec (some args) = elim spec.prepare [
  | none ↦ give (some args)
  | some prepare ↦ elim (prepare args) [ none ↦ none | some enriched ↦ give (some enriched) ]
]

abbrev type_name : Option TypeId → String
type_name none = "None"
type_name (some t) = t

-- The call of a transform that is kept, and the type after it; none is a `continue`.
abbrev pub Kept : Type 0
Kept = Option OpCall

-- The end of the loop's body, for an operation whose types are supported.
unfoldable pub chain_call :
    OpSpec → String → String → Option TypeId → Option Record → Option OnMissing → Compiled Kept
unfolding is_type_mismatch to_plan_type_id resolve_args
chain_call spec op_id op_path current args on_missing =
    let input = to_plan_type_id spec.input_type in
    do
      refuse_if (is_type_mismatch current input) "SCHEMA_TYPE_MISMATCH" (op_path ⧺ ".op") (
          "Type mismatch in transform chain: expected '"
          ⧺ type_name input
          ⧺ "', got '"
          ⧺ type_name current
          ⧺ "'.")
      resolved ← resolve_args spec args
      give (
          some (record {
            op_id = op_id;
            args = resolved;
            on_missing = on_missing;
            input_type = input;
            output_type = to_plan_type_id spec.output_type;
          }))

unfoldable pub check_types :
    OpSpec → String → String → Option TypeId → Option Record → Option OnMissing → Compiled Kept
unfolding chain_call is_unsupported
check_types spec op_id op_path current args on_missing =
    if is_unsupported spec.input_type
    then refuse none "SCHEMA_TYPE_INVALID_TYPE_ID" (op_path ⧺ ".op")
        ("Mapping op input_type is not a supported TypeId: " ⧺ spec.input_type)
    else if is_unsupported spec.output_type
    then refuse none "SCHEMA_TYPE_INVALID_TYPE_ID" (op_path ⧺ ".op")
        ("Mapping op output_type is not a supported TypeId: " ⧺ spec.output_type)
    else chain_call spec op_id op_path current args on_missing

-- The arguments and `on_missing` are read before the types are checked.
unfoldable pub compile_call : OpSpec → String → String → Record → Option TypeId → Compiled Kept
unfolding check_types read_args read_on_missing lookup
compile_call spec op_id op_path transform current = do
  args ← read_args op_path (lookup "args" transform)
  on_missing ← read_on_missing op_path (lookup "on_missing" transform)
  check_types spec op_id op_path current args on_missing

-- `try_get_mapping_op`
unfoldable pub try_get_mapping_op : OpCatalog → String → String → Compiled (Option OpSpec)
try_get_mapping_op catalog op_id path = elim (catalog op_id) [
  | none ↦
      refuse none "SCHEMA_LINK_OP_NOT_FOUND" path
        ("Mapping op '" ⧺ op_id ⧺ "' is allowed but not found in catalog.")
  | some spec ↦ give (some spec)
]

abbrev pub call_if_found : String → String → Record → Option TypeId → Option OpSpec → Compiled Kept
call_if_found op_id op_path transform current none = give none
call_if_found op_id op_path transform current (some spec) =
    compile_call spec op_id op_path transform current

-- The allowlist and the link.
unfoldable pub link_op : OpCatalog → String → String → Record → Option TypeId → Compiled Kept
unfolding try_get_mapping_op compile_call
link_op catalog op_id op_path transform current =
    if is_in op_id mapping_op_allowlist
    then (do
      found ← try_get_mapping_op catalog op_id (op_path ⧺ ".op")
      call_if_found op_id op_path transform current found)
    else refuse none "SCHEMA_LINK_OP_NOT_ALLOWED" (op_path ⧺ ".op")
        ("Mapping op '" ⧺ op_id ⧺ "' is not in allowlist.")

abbrev refuse_op_id : String → Compiled Kept
refuse_op_id op_path =
    refuse none "SCHEMA_LINK_OP_INVALID" (op_path ⧺ ".op")
      "mapping transform op must be a non-empty string."

-- One round of the loop over the transforms.
unfoldable pub compile_transform : OpCatalog → String → Option TypeId → Value → Compiled Kept
unfolding link_op as_mapping lookup
compile_transform catalog op_path current raw = elim (as_mapping (some raw)) [
  | none ↦ refuse none "SCHEMA_TYPE_OP_ARGS_INVALID" op_path (op_path ⧺ " must be an object.")
  | some transform ↦ elim (text_of (lookup "op" transform)) [
    | none ↦ refuse_op_id op_path
    | some op_id ↦
        if is_empty op_id
        then refuse_op_id op_path
        else link_op catalog op_id op_path transform current
  ]
]

-- The list of calls and `current_type`, before the transforms that follow.
abbrev pub Chain : Type 0
Chain = List OpCall × Option TypeId

abbrev pub type_after : Kept → Option TypeId → Option TypeId
type_after none current = current
type_after (some call) current = call.output_type

abbrev pub kept_before : Kept → Chain → Chain
kept_before none chain = chain
kept_before (some call) (calls, final) = (call ∷ calls, final)

-- The loop over the transforms, from an index on.
unfoldable pub compile_transforms :
    OpCatalog → String → ℕ → Option TypeId → List Value → Compiled Chain
unfolding compile_transform show
compile_transforms catalog field_path index current [] = give ([], current)
compile_transforms catalog field_path index current (raw ∷ raws) = do
  kept ← compile_transform catalog (field_path ⧺ ".transforms[" ⧺ show index ⧺ "]") current raw
  chain ← compile_transforms catalog field_path (index + 1) (type_after kept current) raws
  give (kept_before kept chain)

-- `transforms_obj`: null is let through to the loop, where `enumerate` raises a `TypeError`.
unfoldable pub read_transforms : String → Value → Compiled (List Value)
read_transforms field_path none' = none
read_transforms field_path (list vs) = give (items vs)
read_transforms field_path _ =
    refuse [] "SCHEMA_TYPE_OP_ARGS_INVALID" (field_path ⧺ ".transforms")
      (field_path ⧺ ".transforms must be a list.")

unfoldable pub read_source_path : String → Option Value → Compiled String
read_source_path field_path (some (str s)) = give s
read_source_path field_path _ =
    refuse "" "COMPILER_MAPPING_FIELD_INVALID" (field_path ⧺ ".source.path")
      (field_path ⧺ ".source.path must be a string.")

unfoldable pub read_required : String → Value → Compiled Bool
read_required field_path (bool b) = give b
read_required field_path _ =
    refuse false "COMPILER_MAPPING_FIELD_INVALID" (field_path ⧺ ".source.required")
      (field_path ⧺ ".source.required must be a boolean.")

-- `source_path` and `is_required_source`
unfoldable pub read_source : String → Option Record → Compiled (String × Bool)
unfolding read_source_path read_required lookup
read_source field_path none =
    refuse ("", false) "COMPILER_MAPPING_FIELD_INVALID" (field_path ⧺ ".source")
      (field_path ⧺ ".source must be an object.")
read_source field_path (some source) = do
  path ← read_source_path field_path (lookup "path" source)
  required ← read_required field_path (get_or "required" (bool false) source)
  give (path, required)

-- `compile_field_mapping`
unfoldable pub compile_field_mapping :
    OpCatalog → String → String → String → Record → Compiled FieldPlan
unfolding read_source compile_field_presence read_transforms compile_transforms as_mapping lookup
compile_field_mapping catalog field_id field_path global_default field_mapping = do
  source ← read_source field_path (as_mapping (lookup "source" field_mapping))
  presence ← compile_field_presence field_mapping field_path global_default
  transforms ← read_transforms field_path (get_or "transforms" (list nil) field_mapping)
  chain ← compile_transforms catalog field_path 0 none transforms
  give (record {
    field_id = field_id;
    source_path = source.0;
    transforms = chain.0;
    presence = presence;
    final_type = chain.1;
    is_required_source = source.1;
  })
