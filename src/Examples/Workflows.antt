-- ===== src/Examples/Workflows.antt =====
-- A workflow of one step, which adds its input to a literal, and its histories.
use sasori.Base.{
  ◌≡◌, ◌↔◌, refl, Bool, true, false, none, some, Option, List, [], ◌∷◌, ◌++◌, if◌then◌else◌, ◌==◌,
  map,
}
use sasori.Base.Comp.{returned, raised}
use sasori.Text.{Text, codes, text_eq, text_beq, utf8_length}
use sasori.Dict.{get, put}
use sasori.Json.{
  Value, null, integer, string, mapping, Entries, end, entry, pos, fields, text, keys_are_text,
  has_key, get_key,
}
use sasori.Json.Canonical.{json_dumps}
use sasori.Contracts.Types.{Effect, Message, ToolCall, given, ModelReply}
use sasori.Flow.Values.{Try, canonical_json}
use sasori.Flow.Types.{InputSlot, json_integer, input_ref, literal, ToolStep}
use sasori.Flow.Spec.{WorkflowSpec, new_spec}
use sasori.Flow.Spec.Sound.{IsSound, new_spec-IsSound}
use sasori.Flow.Inputs.{validate_input}
use sasori.Flow.Inputs.Accepted.{IsAccepted, validate_input-IsAccepted}
use sasori.Flow.Records.{
  result_envelope, Host, CompiledStep, plain_message, parse_result, initial_messages,
}
use sasori.Flow.Replay.{
  ReplayStep, WorkflowReplay, asks, ends, fails, call_reply, text_reply, call_message,
  expected_call, is_result_of, final_content, replay, complete,
}
use sasori.Flow.Replay.Rounds.{envelope}
use sasori.Flow.Replay.Grows.{replay-appended_error, replay-appended_result, replay-appended_final}
use sasori.Flow.Replay.Complete.{complete-asks}
use sasori.Flow.Wrappers.{
  BaseTool, Envelope, payload_entries, parse_payload, base_idempotency_key,
  workflow_idempotency_key, underlying_arguments, invoke_idempotent,
}
use sasori.Flow.Wrappers.Bound.{IsBound, invoke_idempotent-IsBound, expected_call-parse_payload}

abbrev slot : InputSlot
slot = record { key = codes "n"; value_type = json_integer; required = true; max_bytes = 16 }

abbrev step : ToolStep
step = record {
  step_id = codes "sum";
  tool_name = codes "add";
  effect = Effect.read_only;
  tool_revision = none;
  schema_sha256 = codes "00";
  arguments = (codes "a", input_ref (codes "n")) ∷ (codes "b", literal (integer (pos 1))) ∷ [];
  result_type = json_integer;
  max_result_bytes = 64;
}

abbrev spec : WorkflowSpec
spec = record {
  workflow_id = codes "adds";
  version = codes "1";
  inputs = slot ∷ [];
  steps = step ∷ [];
  output_step = codes "sum";
}

new_spec-IsSound_example : IsSound spec
unfolding new_spec text_beq keys_are_text
new_spec-IsSound_example =
    new_spec-IsSound (codes "adds") (codes "1") (slot ∷ []) (step ∷ []) (codes "sum") spec refl

abbrev given_input : Value
given_input = mapping (entry (text (codes "n")) (integer (pos 2)) end)

abbrev input : Entries
input = entry (text (codes "n")) (integer (pos 2)) end

validate_input-IsAccepted_example : IsAccepted spec given_input input
unfolding validate_input keys_are_text text_beq utf8_length
validate_input-IsAccepted_example = validate_input-IsAccepted spec given_input input refl

abbrev hash : Text → Text
hash t = codes "0123456789abcdef0123456789abcdef0123456789abcdef0123456789abcdef"

abbrev binding_value : Value
binding_value =
    mapping (
      fields
        ((codes "value", given_input) ∷ (codes "public_content_sha256", string (hash [])) ∷ []))

abbrev envelope_value : Value
envelope_value = mapping (
    fields (
      (codes "version", integer (pos 1))
      ∷ (codes "definition_sha256", string (hash []))
      ∷ (codes "step_id", string (codes "sum"))
      ∷ (codes "value", integer (pos 3))
      ∷ (codes "value_sha256", string (hash []))
      ∷ []))

abbrev payload : Entries
payload = fields ((codes "a", integer (pos 2)) ∷ (codes "b", integer (pos 1)) ∷ [])

abbrev is_dumped : Value → Text → Bool
unfolding json_dumps
is_dumped v t = elim (json_dumps v) [ none ↦ false | some s ↦ s == t ]

-- `json.loads` on the texts of the run.
abbrev host : Host
host = record {
  sha256 = hash;
  loads = λ t.
      if is_dumped binding_value t
      then some binding_value
      else if is_dumped envelope_value t
      then some envelope_value
      else if is_dumped (mapping payload) t
      then some (mapping payload)
      else none;
}

abbrev compiled : CompiledStep
compiled = record { step = step; wrapper_name = codes "wf_add" }

abbrev messages_or_none : Try (List Message) → List Message
messages_or_none t = elim t [ returned ms ↦ ms | raised e ↦ [] ]

abbrev start : List Message
unfolding initial_messages
start = messages_or_none (initial_messages host spec given_input none)

abbrev no_call : ToolCall
no_call = record { id = null; name = null; arguments = given null; complete = null }

abbrev call_or_none : Try ToolCall → ToolCall
call_or_none t = elim t [ returned c ↦ c | raised e ↦ no_call ]

abbrev call : ToolCall
unfolding expected_call
call = call_or_none (expected_call host spec compiled input [])

abbrev result : Text → Option Text → Message
unfolding expected_call
result content error_code = record {
  role = codes "tool";
  content = content;
  tool_calls = [];
  tool_call_id = elim call.id [ string s ↦ some s | _ ↦ none ];
  tool_name = some (codes "wf_add");
  error_code = error_code;
  provider_state = none;
}

asks_test : replay host spec (compiled ∷ []) start ≡ returned (asks [] (call_reply call))
unfolding replay initial_messages expected_call keys_are_text text_beq utf8_length has_key get_key
    json_dumps get put
asks_test = refl

abbrev failed : Message
failed = result (codes "no") (some (codes "tool_error"))

replay-appended_error_example :
    (c : CompiledStep) × (replay host spec
        (compiled ∷ [])
        (start ++ call_message call ∷ failed ∷ [])
      ≡ returned (
          fails
            (record { compiled = c; call = call; result = some failed } ∷ [])
            (c.step.step_id, codes "tool_error", codes "no")))
unfolding replay initial_messages expected_call is_result_of keys_are_text text_beq utf8_length
    has_key get_key json_dumps get put
replay-appended_error_example =
    replay-appended_error host spec (compiled ∷ []) start [] call failed (codes "tool_error") refl
      refl refl

abbrev envelope_text : Text
unfolding json_dumps
envelope_text = elim (json_dumps envelope_value) [ none ↦ [] | some t ↦ t ]

abbrev good : Message
good = result envelope_text none

abbrev replay_or : Try WorkflowReplay → WorkflowReplay
replay_or t = elim t [ returned r ↦ r | raised e ↦ asks [] (text_reply []) ]

abbrev after : List Message
after = start ++ call_message call ∷ good ∷ []

abbrev replayed : WorkflowReplay
unfolding replay
replayed = replay_or (replay host spec (compiled ∷ []) after)

replay-appended_result_example :
    (c : CompiledStep) × (output : Value) × (reply : ModelReply) × (is_result_of call good ≡ true)
    × (parse_result host spec c.step envelope_text ≡ returned output)
    × (replayed ≡ asks (record { compiled = c; call = call; result = some good } ∷ []) reply)
unfolding replay initial_messages expected_call is_result_of keys_are_text text_beq utf8_length
    has_key get_key json_dumps get put
replay-appended_result_example =
    replay-appended_result host spec (compiled ∷ []) start [] call good replayed refl refl refl

abbrev done : List ReplayStep
done = record { compiled = compiled; call = call; result = some good } ∷ []

abbrev text_or_none : Try Text → Text
text_or_none t = elim t [ returned s ↦ s | raised e ↦ [] ]

abbrev last_content : Text
unfolding final_content
last_content = text_or_none (final_content host spec ((codes "sum", integer (pos 3)) ∷ []))

replay-appended_final_example :
    replay host spec (compiled ∷ []) (after ++ plain_message (codes "assistant") last_content ∷ [])
    ≡ returned (ends done (plain_message (codes "assistant") last_content))
unfolding replay initial_messages expected_call is_result_of keys_are_text text_beq utf8_length
    has_key get_key json_dumps get put
replay-appended_final_example =
    replay-appended_final host spec (compiled ∷ []) after done last_content refl

abbrev tool_of : CompiledStep → Text
tool_of c = c.wrapper_name

complete-asks_example :
    (complete tool_of host spec (compiled ∷ []) start (codes "wf_add" ∷ [])
      ≡ returned (call_reply call))
    ↔ ((codes "wf_add" ∷ [] ≡ map tool_of (compiled ∷ []))
        × ((d : List ReplayStep) × (replay host spec (compiled ∷ []) start
              ≡ returned (asks d (call_reply call)))))
complete-asks_example =
    complete-asks tool_of host spec (compiled ∷ []) start (codes "wf_add" ∷ []) (call_reply call)

abbrev text_of : Value → Text
unfolding json_dumps
text_of v = elim (json_dumps v) [ none ↦ [] | some t ↦ t ]

expected_call-parse_payload_example :
    (digest : Text) × (call.name ≡ string (codes "wf_add"))
    × (call.arguments ≡ given (envelope digest (codes "sum") (text_of (mapping payload))))
    × (parse_payload host spec step digest (codes "sum") (text_of (mapping payload))
        ≡ returned payload)
unfolding expected_call keys_are_text text_beq utf8_length has_key get_key json_dumps get put
    canonical_json
expected_call-parse_payload_example =
    expected_call-parse_payload host spec compiled input [] call payload payload
      (text_of (mapping payload)) refl refl refl refl refl refl

abbrev adds : BaseTool
adds = record {
  effect = Effect.idempotent;
  idempotency_key = λ arguments. some (string (codes "k"));
  handler = λ arguments. returned (integer (pos 3));
}

abbrev envelope_of_call : Envelope
envelope_of_call = record {
  definition_sha256 = hash [];
  step_id = codes "sum";
  payload_json = text_of (mapping payload);
}

invoke_idempotent-IsBound_example :
    (given_payload : Entries) × (base_key : Text) × (value : Value) × IsBound host spec step
      envelope_of_call given_payload
    × (base_idempotency_key adds given_payload ≡ returned base_key)
    × (workflow_idempotency_key host spec step base_key ≡ returned (hash []))
    × (adds.handler (underlying_arguments adds given_payload (some base_key)) ≡ returned value)
    × (result_envelope host spec step value ≡ returned envelope_value)
unfolding invoke_idempotent keys_are_text text_beq utf8_length has_key get_key json_dumps
    payload_entries canonical_json
invoke_idempotent-IsBound_example =
    invoke_idempotent-IsBound host spec step adds envelope_of_call (hash []) envelope_value refl
