-- ===== src/Flow/Types.antt =====
-- The parts of a workflow definition and the checks of their constructors: `InputSlot`, `InputRef`,
-- `StepRef`, `Literal` and `ToolStep` of src/sasori_flow/spec.py. Arguments have the types of the
-- source's annotations, whose own checks by `isinstance` have no counterpart.
use sasori.Base.{
  ℕ, ◌*◌, Bool, true, false, not, ◌&&◌, ◌||◌, Option, none, some, List, [], ◌∷◌, length, all, leb,
  ltb, nat_beq, if◌then◌else◌,
}
use sasori.Base.Comp.{returned, raised}
use sasori.Base.Try.{◌>>=◌, ◌>>◌, refuse_if, from_option}
use sasori.Text.{Text, codes, utf8_length, is_blank}
use sasori.Dict.{Dict}
use sasori.Json.{
  Value, null, boolean, integer, float, string, tuple, mapping, ℤ, pos, negsuc, fields,
  optional_text,
}
use sasori.Json.Canonical.{text_ltb}
use sasori.Contracts.Types.{Effect}
use sasori.Flow.Values.{
  Try, validation, unicode_error, utf8, identifier, freeze, plain_json, byte_size,
}

-- `JsonType`
pub data JsonType : Type 0 where
  json_string json_integer json_number json_boolean json_object json_array json_null : JsonType

abbrev pub type_name : JsonType → Text
type_name json_string = codes "string"
type_name json_integer = codes "integer"
type_name json_number = codes "number"
type_name json_boolean = codes "boolean"
type_name json_object = codes "object"
type_name json_array = codes "array"
type_name json_null = codes "null"

pub record InputSlot : Type 0 where
  pub key : Text
  pub value_type : JsonType
  pub required : Bool
  pub max_bytes : ℕ

-- `type(n) is int and 1 <= n <= 1024 * 1024`
abbrev byte_limit : ℤ → Try ℕ
byte_limit (pos n) = if leb 1 n && leb n (1024 * 1024) then returned n else raised validation
byte_limit (negsuc n) = raised validation

-- `InputSlot.__post_init__`
unfoldable pub new_slot : Text → JsonType → Bool → ℤ → Try InputSlot
unfolding utf8
new_slot key value_type required max_bytes = do
  k ← utf8 key 256
  n ← byte_limit max_bytes
  returned (record { key = k; value_type = value_type; required = required; max_bytes = n })

-- `ArgumentBinding`: `InputRef`, `StepRef` and `Literal`.
pub data Binding : Type 0 where
  input_ref step_ref : Text → Binding
  literal : Value → Binding

abbrev pub max_literal_bytes : ℕ
max_literal_bytes = 128 * 1024

-- The `__post_init__` of the three.
unfoldable pub new_input_ref : Text → Try Binding
unfolding utf8
new_input_ref key = do k ← utf8 key 256; returned (input_ref k)

unfoldable pub new_step_ref : Text → Try Binding
unfolding identifier
new_step_ref step_id = do i ← identifier step_id; returned (step_ref i)

unfoldable pub new_literal : Value → Try Binding
unfolding freeze byte_size
new_literal value = do
  frozen ← freeze 0 value
  size ← byte_size frozen
  refuse_if (ltb max_literal_bytes size) validation
  returned (literal frozen)

-- `_binding_data`
unfoldable pub binding_data : Binding → Value
unfolding plain_json
binding_data (input_ref key) =
    mapping (fields ((codes "kind", string (codes "input")) ∷ (codes "key", string key) ∷ []))
binding_data (step_ref step_id) =
    mapping (
      fields
        ((codes "kind", string (codes "step_output")) ∷ (codes "step_id", string step_id) ∷ []))
binding_data (literal value) =
    mapping
      (fields ((codes "kind", string (codes "literal")) ∷ (codes "value", plain_json value) ∷ []))

pub record ToolStep : Type 0 where
  pub step_id : Text
  pub tool_name : Text
  pub effect : Effect
  pub tool_revision : Option Text
  pub schema_sha256 : Text
  pub arguments : Dict Text Binding
  pub result_type : JsonType
  pub max_result_bytes : ℕ

-- The checks of `tool_revision`.
unfoldable pub check_revision : Effect → Option Text → Try (Unit {0})
unfolding utf8 is_blank
check_revision Effect.read_only none = returned tt
check_revision Effect.read_only (some revision) = do text ← utf8 revision 256; returned tt
check_revision _ none = raised validation
check_revision _ (some revision) = do
  refuse_if (is_blank revision) validation
  size ← from_option unicode_error (utf8_length revision)
  refuse_if (ltb 256 size) validation

-- `[0-9a-f]{64}\Z`
abbrev is_hex : ℕ → Bool
is_hex c = (leb 48 c && leb c 57) || (leb 97 c && leb c 102)

abbrev pub is_sha256 : Text → Bool
is_sha256 s = nat_beq (length s) 64 && all is_hex s

unfoldable pub check_names : Dict Text Binding → Try (Unit {0})
unfolding utf8
check_names [] = returned tt
check_names (a ∷ rest) = do name ← utf8 a.0 256; check_names rest

abbrev pub max_step_arguments : ℕ
max_step_arguments = 128

-- `ToolStep.__post_init__`
unfoldable pub new_step :
    Text → Text → Effect → Option Text → Text → Dict Text Binding → JsonType → ℤ → Try ToolStep
unfolding identifier utf8 check_revision check_names
new_step step_id tool_name effect revision schema arguments result_type max_result_bytes = do
  i ← identifier step_id
  t ← utf8 tool_name 256
  check_revision effect revision
  refuse_if (not (is_sha256 schema)) validation
  refuse_if (ltb max_step_arguments (length arguments)) validation
  check_names arguments
  n ← byte_limit max_result_bytes
  returned (record {
    step_id = i;
    tool_name = t;
    effect = effect;
    tool_revision = revision;
    schema_sha256 = schema;
    arguments = arguments;
    result_type = result_type;
    max_result_bytes = n;
  })

-- `sorted(self.arguments.items())`; the names are those of a mapping, so that no two are equal.
abbrev insert_argument : Text × Binding → Dict Text Binding → Dict Text Binding
insert_argument a [] = a ∷ []
insert_argument a (b ∷ bs) =
    let rest = insert_argument a bs in if text_ltb b.0 a.0 then b ∷ rest else a ∷ b ∷ bs

unfoldable pub sorted_arguments : Dict Text Binding → Dict Text Binding
unfolding text_ltb
sorted_arguments [] = []
sorted_arguments (a ∷ rest) = insert_argument a (sorted_arguments rest)

unfoldable pub argument_data : Dict Text Binding → List (Text × Value)
unfolding binding_data
argument_data [] = []
argument_data (a ∷ rest) = (a.0, binding_data a.1) ∷ argument_data rest

abbrev pub effect_name : Effect → Text
effect_name Effect.read_only = codes "read_only"
effect_name Effect.idempotent = codes "idempotent"
effect_name Effect.side_effecting = codes "side_effecting"

-- `ToolStep.as_data`
unfoldable pub step_data : ToolStep → Value
unfolding argument_data sorted_arguments
step_data s = mapping (
    fields (
      (codes "step_id", string s.step_id)
      ∷ (codes "kind", string (codes "tool"))
      ∷ (codes "tool_name", string s.tool_name)
      ∷ (codes "effect", string (effect_name s.effect))
      ∷ (codes "tool_revision", optional_text s.tool_revision)
      ∷ (codes "schema_sha256", string s.schema_sha256)
      ∷ (codes "arguments", mapping (fields (argument_data (sorted_arguments s.arguments))))
      ∷ (
        codes "result",
        mapping (
            fields (
              (codes "type", string (type_name s.result_type))
              ∷ (codes "max_bytes", integer (pos s.max_result_bytes))
              ∷ [])),
      )
      ∷ []))

-- `_matches_type`, on frozen data.
unfoldable pub matches_type : Value → JsonType → Bool
matches_type v json_null = elim v [ null ↦ true | _ ↦ false ]
matches_type v json_boolean = elim v [ boolean b ↦ true | _ ↦ false ]
matches_type v json_integer = elim v [ integer n ↦ true | _ ↦ false ]
matches_type v json_number = elim v [ integer n ↦ true | float x ↦ true | _ ↦ false ]
matches_type v json_string = elim v [ string s ↦ true | _ ↦ false ]
matches_type v json_object = elim v [ mapping es ↦ true | _ ↦ false ]
matches_type v json_array = elim v [ tuple vs ↦ true | _ ↦ false ]
