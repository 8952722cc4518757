-- ===== src/Flow/Records.antt =====
-- The records of a workflow run in its history: the control and input records, the envelopes of
-- calls and of results, of src/sasori_flow/runtime.py.
use sasori.Base.{
  ℕ, ◌+◌, Bool, true, false, not, ◌&&◌, ◌||◌, Option, none, some, List, [], ◌∷◌, ◌++◌, all, take,
  any, is_some, ltb, nat_beq, ◌==◌, if◌then◌else◌,
}
use sasori.Base.Comp.{returned, raised}
use sasori.Base.Try.{◌>>=◌, ◌>>◌, refuse_if, from_option}
use sasori.Text.{Text, codes, utf8_length, text_eq}
use sasori.Dict.{Dict}
use sasori.Json.{
  Value, null, integer, string, mapping, Entries, end, entry, text, other, pos, fields, has_key,
  get_key,
}
use sasori.Contracts.Types.{Message}
use sasori.Contracts.Equality.{value_beq, message_beq}
use sasori.Flow.Values.{
  Try, FlowError, validation, integrity, unicode_error, key_error, tool_error, canonical_json,
  json_sha256, text_sha256, plain_json,
}
use sasori.Flow.Types.{ToolStep}
use sasori.Flow.Spec.{WorkflowSpec, spec_digest}
use sasori.Flow.Inputs.{max_input_bytes, validate_input, validate_typed_value, resolve_arguments}

-- The standard library: the hexadecimal SHA-256 of a text's bytes, and `json.loads`, where `none`
-- is `JSONDecodeError`.
pub record Host : Type 0 where
  pub sha256 : Text → Text
  pub loads : Text → Option Value

abbrev pub plain_message : Text → Text → Message
plain_message role content = record {
  role = role;
  content = content;
  tool_calls = [];
  tool_call_id = none;
  tool_name = none;
  error_code = none;
  provider_state = none;
}

abbrev control_prefix : Text
control_prefix = codes "sasori.workflow.control.v1\n"

abbrev input_prefix : Text
input_prefix = codes "sasori.workflow.input.v1\n"

-- `_control_data`
unfoldable pub control_data : Host → WorkflowSpec → Try Value
unfolding spec_digest
control_data host spec = do
  digest ← spec_digest host.sha256 spec
  returned (
      mapping (
        fields (
          (codes "schema_version", integer (pos 1))
          ∷ (codes "workflow_id", string spec.workflow_id)
          ∷ (codes "workflow_version", string spec.version)
          ∷ (codes "spec_sha256", string digest)
          ∷ (codes "execution", string (codes "single-harness-ordered-tools-v1"))
          ∷ [])))

-- `_control_message`
unfoldable pub control_message : Host → WorkflowSpec → Try Message
unfolding control_data canonical_json
control_message host spec = do
  data_value ← control_data host spec
  encoded ← canonical_json data_value
  returned (plain_message (codes "system") (control_prefix ++ encoded))

-- `_input_binding_message`
unfoldable pub input_binding_message : Host → Entries → Text → Try Message
unfolding text_sha256 canonical_json
input_binding_message host value public_content = do
  digest ← text_sha256 host.sha256 public_content
  encoded ← canonical_json (
      mapping (
        fields
          ((codes "value", mapping value) ∷ (codes "public_content_sha256", string digest) ∷ [])))
  returned (plain_message (codes "system") (input_prefix ++ encoded))

-- `_call_id`
unfoldable pub call_id : Host → WorkflowSpec → ToolStep → Try Text
unfolding spec_digest text_sha256
call_id host spec step = do
  digest ← spec_digest host.sha256 spec
  hex ← text_sha256 host.sha256 (digest ++ (0 ∷ step.step_id))
  returned (codes "wf_" ++ take 48 hex)

-- `_CompiledStep`, with the name of its wrapper tool.
pub record CompiledStep : Type 0 where
  pub step : ToolStep
  pub wrapper_name : Text

-- `_outer_arguments`
unfoldable pub outer_arguments :
    Host → WorkflowSpec → CompiledStep → Entries → Dict Text Value → Try Value
unfolding resolve_arguments spec_digest canonical_json
outer_arguments host spec compiled input outputs = do
  payload ← resolve_arguments compiled.step input outputs
  digest ← spec_digest host.sha256 spec
  encoded ← canonical_json (mapping payload)
  returned (
      mapping (
        fields (
          (codes "definition_sha256", string digest)
          ∷ (codes "step_id", string compiled.step.step_id)
          ∷ (codes "payload_json", string encoded)
          ∷ [])))

-- `len(value.encode("utf-8"))`
abbrev encoded_size : Text → Try ℕ
encoded_size s = from_option unicode_error (utf8_length s)

abbrev pub lacks_metadata : Message → Bool
lacks_metadata m =
    elim m.tool_calls [ [] ↦ true | _ ∷ _ ↦ false ]
    && not (is_some m.tool_call_id)
    && not (is_some m.tool_name)
    && not (is_some m.error_code)
    && not (is_some m.provider_state)

abbrev without_prefix : Text → Text → Option Text
without_prefix [] s = some s
without_prefix (c ∷ p) [] = none
without_prefix (c ∷ p) (d ∷ s) = let rest = without_prefix p s in if nat_beq c d then rest else none

abbrev keys_within : List Text → Entries → Bool
keys_within names end = true
keys_within names (entry (text s) v es) = any (λ n. n == s) names && keys_within names es
keys_within names (entry (other s) v es) = false

-- `isinstance(value, Mapping) and set(value) == names`
abbrev exact_object : List Text → Value → Try Entries
exact_object names v = elim v [
  | mapping es ↦
      if keys_within names es && all (λ n. has_key n es) names
      then returned es
      else raised integrity
  | _ ↦ raised integrity
]

abbrev has_value : Entries → Text → Value → Bool
has_value es key v = elim (get_key key es) [ none ↦ false | some w ↦ value_beq w v ]

abbrev entry_of : Entries → Text → Value
entry_of es key = elim (get_key key es) [ none ↦ null | some v ↦ v ]

-- `except WorkflowValidationError` as the callers have it.
abbrev as_integrity : {A : Type 0} → Try A → Try A
as_integrity (returned a) = returned a
as_integrity (raised validation) = raised integrity
as_integrity (raised integrity) = raised integrity
as_integrity (raised unicode_error) = raised unicode_error
as_integrity (raised key_error) = raised key_error
as_integrity (raised tool_error) = raised tool_error

abbrev result_keys : List Text
result_keys =
    codes "version"
    ∷ codes "definition_sha256"
    ∷ codes "step_id"
    ∷ codes "value"
    ∷ codes "value_sha256"
    ∷ []

-- `_parse_result`
unfoldable pub parse_result : Host → WorkflowSpec → ToolStep → Text → Try Value
unfolding spec_digest canonical_json json_sha256 validate_typed_value value_beq get_key has_key
parse_result host spec step content = do
  size ← encoded_size content
  refuse_if (ltb (step.max_result_bytes + 1024) size) integrity
  envelope ← from_option integrity (host.loads content)
  es ← exact_object result_keys envelope
  encoded ← canonical_json envelope
  refuse_if (not (content == encoded)) integrity
  refuse_if (not (has_value es (codes "version") (integer (pos 1)))) integrity
  digest ← spec_digest host.sha256 spec
  refuse_if (not (has_value es (codes "definition_sha256") (string digest))) integrity
  refuse_if (not (has_value es (codes "step_id") (string step.step_id))) integrity
  value ←
      as_integrity
        (validate_typed_value (entry_of es (codes "value")) step.result_type step.max_result_bytes)
  value_sha256 ← json_sha256 host.sha256 value
  refuse_if (not (has_value es (codes "value_sha256") (string value_sha256))) integrity
  returned value

-- `_result_envelope`
unfoldable pub result_envelope : Host → WorkflowSpec → ToolStep → Value → Try Value
unfolding validate_typed_value spec_digest json_sha256 plain_json
result_envelope host spec step value = do
  typed ← validate_typed_value value step.result_type step.max_result_bytes
  digest ← spec_digest host.sha256 spec
  value_sha256 ← json_sha256 host.sha256 typed
  returned (
      mapping (
        fields (
          (codes "version", integer (pos 1))
          ∷ (codes "definition_sha256", string digest)
          ∷ (codes "step_id", string step.step_id)
          ∷ (codes "value", plain_json typed)
          ∷ (codes "value_sha256", string value_sha256)
          ∷ [])))

-- `public.content.encode("utf-8", "strict")` under its handler.
abbrev public_size : Text → FlowError → Try ℕ
public_size s e = from_option e (utf8_length s)

-- `WorkflowModel.initial_messages`
unfoldable pub initial_messages : Host → WorkflowSpec → Value → Option Text → Try (List Message)
unfolding validate_input canonical_json control_message input_binding_message
initial_messages host spec value public_content = do
  input ← validate_input spec value
  content ← elim public_content [ none ↦ canonical_json (mapping input) | some c ↦ returned c ]
  size ← public_size content validation
  refuse_if (ltb max_input_bytes size) validation
  control ← control_message host spec
  binding ← input_binding_message host input content
  returned (control ∷ binding ∷ plain_message (codes "user") content ∷ [])

-- The input of the second record, of which the third is the public content.
unfoldable pub bound_input : Host → WorkflowSpec → Message → Message → Try Entries
unfolding validate_input input_binding_message text_sha256 message_beq value_beq
bound_input host spec message public = do
  refuse_if (not (message.role == codes "system")) integrity
  encoded ← from_option integrity (without_prefix input_prefix message.content)
  refuse_if (not (lacks_metadata message)) integrity
  size ← encoded_size encoded
  refuse_if (ltb (max_input_bytes + 1024) size) integrity
  parsed ← from_option integrity (host.loads encoded)
  es ← exact_object (codes "value" ∷ codes "public_content_sha256" ∷ []) parsed
  refuse_if (not (public.role == codes "user") || not (lacks_metadata public)) integrity
  public_bytes ← public_size public.content integrity
  refuse_if (ltb max_input_bytes public_bytes) integrity
  refuse_if
      (not (has_value es (codes "public_content_sha256") (string (host.sha256 public.content))))
      integrity
  frozen ← as_integrity (validate_input spec (entry_of es (codes "value")))
  expected ← input_binding_message host frozen public.content
  refuse_if (not (message_beq message expected)) integrity
  returned frozen

-- `WorkflowModel.input_from_messages`, with the messages that follow the three records.
unfoldable pub input_from_messages :
    Host → WorkflowSpec → List Message → Try (Entries × List Message)
unfolding control_message bound_input message_beq
input_from_messages host spec (control ∷ message ∷ public ∷ rest) = do
  expected ← control_message host spec
  refuse_if (not (message_beq control expected)) integrity
  input ← bound_input host spec message public
  returned (input, rest)
input_from_messages host spec _ = raised integrity
