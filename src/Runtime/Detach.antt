-- ===== src/Runtime/Detach.antt =====
-- The detached copies that the runtime takes at the model boundary: `_json_arguments`,
-- `_snapshot_invalid_tool_arguments`, `_snapshot_tool_call` and `_snapshot_model_reply` of
-- packages/sasori-core/src/sasori_core/runtime.py. What `_json_arguments` returns as encoded text is
-- only read back by `json.loads`, so the value that it stands for is kept in its place.
use sasori.Base.{ℕ, Bool, true, false, Option, none, some, [], ◌∷◌, map, leb, if◌then◌else◌}
use sasori.Text.{Text, codes, utf8_length}
use sasori.Json.{
  Value, null, boolean, integer, float, string, list, tuple, mapping, object, is_mapping, fields,
}
use sasori.Json.Bounded.{bounded_json_value, bounded_json_mapping}
use sasori.Json.Copies.{freeze, json_copy}
use sasori.Json.Canonical.{canonical, json_dumps}
use sasori.Contracts.Types.{
  Arguments, given, invalid_arguments, ReplyCall, tool_call, invalid_call, foreign, ModelReply,
}

abbrev pub max_tool_argument_bytes : ℕ
max_tool_argument_bytes = 1048576

-- `type(value).__name__`; a mapping among a call's arguments is a `MappingProxyType`.
abbrev pub type_name : Value → Text
type_name null = codes "NoneType"
type_name (boolean b) = codes "bool"
type_name (integer n) = codes "int"
type_name (float x) = codes "float"
type_name (string s) = codes "str"
type_name (list vs) = codes "list"
type_name (tuple vs) = codes "tuple"
type_name (mapping es) = codes "mappingproxy"
type_name (object s) = s

abbrev pub invalid_marker : Text → Value
invalid_marker name = mapping (fields ((codes "__invalid_arguments__", string name) ∷ []))

-- The byte limit on encoded arguments; a text that UTF-8 cannot encode fails it.
abbrev fits : Option ℕ → Bool
fits none = false
fits (some n) = leb n max_tool_argument_bytes

-- `json.loads(json.dumps(value, …))` where the text is within the limit.
unfoldable pub reencoded : Option Value → Option Value
reencoded none = none
reencoded (some v) = elim (json_dumps v) [
  | none ↦ none
  | some text ↦ if fits (utf8_length text) then some (canonical v) else none
]

-- `none` where the `try` block raises.
unfoldable pub encode_arguments : Value → Option Value
unfolding reencoded
encode_arguments v = if bounded_json_mapping v then reencoded (json_copy v) else none

abbrev encoded_or_marker : Text → Option Value → Value × Bool
encoded_or_marker name none = (invalid_marker name, false)
encoded_or_marker name (some v) = (v, true)

-- The arguments as a JSON value, and whether they are valid.
unfoldable pub json_arguments : Arguments → Value × Bool
unfolding encode_arguments
json_arguments (invalid_arguments name) = (invalid_marker name, false)
json_arguments (given v) = encoded_or_marker (type_name v) (encode_arguments v)

abbrev frozen_or_mark : Text → Option Value → Arguments
frozen_or_mark name none = invalid_arguments name
frozen_or_mark name (some v) = given v

abbrev freeze? : Option Value → Option Value
freeze? none = none
freeze? (some v) = freeze v

unfoldable pub snapshot_invalid_tool_arguments : Value → Arguments
unfolding reencoded
snapshot_invalid_tool_arguments v =
    if is_mapping v
    then invalid_arguments (type_name v)
    else if bounded_json_value v
    then frozen_or_mark (type_name v) (freeze? (reencoded (some v)))
    else invalid_arguments (type_name v)

abbrev detached : Value → Option Value → Arguments
unfolding snapshot_invalid_tool_arguments
detached v none = snapshot_invalid_tool_arguments v
detached v (some w) = frozen_or_mark (type_name v) (freeze w)

unfoldable pub snapshot_arguments : Arguments → Arguments
unfolding snapshot_invalid_tool_arguments encode_arguments
snapshot_arguments (invalid_arguments name) = invalid_arguments name
snapshot_arguments (given v) = detached v (encode_arguments v)

unfoldable pub snapshot_tool_call : ReplyCall → ReplyCall
unfolding snapshot_arguments
snapshot_tool_call (invalid_call name) = invalid_call name
snapshot_tool_call (foreign name) = invalid_call name
snapshot_tool_call (tool_call c) =
    tool_call (record c { arguments = snapshot_arguments c.arguments })

unfoldable pub snapshot_model_reply : ModelReply → ModelReply
unfolding snapshot_tool_call
snapshot_model_reply reply = record reply { tool_calls = map snapshot_tool_call reply.tool_calls }
