-- ===== src/Compiler/Presence.antt =====
-- pfp_core/engine/mapping/compile_presence.py
use product_feed_protocol.Prelude.{
  String, none, some, List, [], ◌∷◌, ◌==◌, string_eq, if◌then◌else◌,
}
use product_feed_protocol.Dict.{lookup}
use product_feed_protocol.Text.{◌⧺◌}
use product_feed_protocol.Value.{Value, str, none', Record}
use product_feed_protocol.Mapping.{Presence, omit_missing, emit_null_if_missing, error_if_missing}
use product_feed_protocol.Compiler.{
  Compiled, give, refuse, ◌>>=◌, as_mapping, get_or, mapping_or_empty, is_in,
}

abbrev allowed_presence : List String
allowed_presence = "omit_missing" ∷ "emit_null_if_missing" ∷ "error_if_missing" ∷ []

abbrev must_be : String → String
must_be path = path ⧺ " must be one of: omit_missing, emit_null_if_missing, error_if_missing."

-- `read_global_presence`, on what `presence_obj.get("default", "omit_missing")` gives.
unfoldable pub read_default : Value → Compiled String
read_default (str s) =
    if is_in s allowed_presence
    then give s
    else refuse "omit_missing" "COMPILER_PRESENCE_DEFAULT_INVALID" "mapping.presence.default"
        (must_be "mapping.presence.default")
read_default none' = give "omit_missing"
read_default _ =
    refuse "omit_missing" "COMPILER_PRESENCE_DEFAULT_INVALID" "mapping.presence.default"
      (must_be "mapping.presence.default")

unfoldable pub read_global_presence : Record → Compiled String
unfolding read_default as_mapping lookup
read_global_presence section = read_default (
    get_or "default" (str "omit_missing")
      (mapping_or_empty (as_mapping (lookup "presence" section))))

-- The candidate of a field, or the global default if it is refused.
unfoldable pub read_candidate : String → String → Value → Compiled String
read_candidate path global_default (str s) =
    if is_in s allowed_presence
    then give s
    else refuse global_default "COMPILER_PRESENCE_DEFAULT_INVALID" (path ⧺ ".default")
        (must_be (path ⧺ ".default"))
read_candidate path global_default _ =
    refuse global_default "COMPILER_PRESENCE_DEFAULT_INVALID" (path ⧺ ".default")
      (must_be (path ⧺ ".default"))

-- The presence of an allowed name, and of any other.
unfoldable pub presence_of : String → Presence
presence_of s =
    if s == "emit_null_if_missing"
    then emit_null_if_missing
    else if s == "error_if_missing"
    then error_if_missing
    else omit_missing

-- `compile_field_presence`
unfoldable pub compile_field_presence : Record → String → String → Compiled Presence
unfolding read_candidate presence_of as_mapping lookup
compile_field_presence field_mapping field_path global_default =
    elim (as_mapping (lookup "presence" field_mapping)) [
      | none ↦ give (presence_of global_default)
      | some raw ↦ do
        default ←
            read_candidate (field_path ⧺ ".presence") global_default
              (get_or "default" (str global_default) raw)
        give (presence_of default)
    ]
