-- ===== src/Flow/Replay.antt =====
-- `WorkflowModel.replay` and `WorkflowModel.complete` of src/sasori_flow/runtime.py: a history of a
-- workflow run, record by record, and the reply that comes next.
pub mod Rounds
pub mod Advance
pub mod Grows
pub mod Complete
use sasori.Base.{
  ℕ, Bool, true, false, not, ◌&&◌, ◌||◌, Option, none, some, List, [], ◌∷◌, ◌++◌, is_some, ◌==◌,
  map, Comparable, if◌then◌else◌,
}
use sasori.Base.Comp.{Outcome, returned, raised}
use sasori.Base.Try.{◌>>=◌, ◌>>◌, refuse_if, from_option}
use sasori.Text.{Text, codes, text_eq}
use sasori.Dict.{Dict, get, put}
use sasori.Json.{Value, boolean, integer, string, mapping, Entries, pos, fields}
use sasori.Contracts.Types.{Message, ToolCall, given, ModelReply, ReplyCall, tool_call}
use sasori.Contracts.Equality.{message_beq}
use sasori.Flow.Values.{Try, integrity, key_error, canonical_json, json_sha256, plain_json}
use sasori.Flow.Types.{ToolStep}
use sasori.Flow.Spec.{WorkflowSpec, spec_digest}
use sasori.Flow.Records.{
  Host, CompiledStep, call_id, outer_arguments, parse_result, plain_message, input_from_messages,
}

-- `_ReplayStep`
pub record ReplayStep : Type 0 where
  pub compiled : CompiledStep
  pub call : ToolCall
  pub result : Option Message

-- `_WorkflowReplay`
pub record WorkflowReplay : Type 0 where
  pub steps : List ReplayStep
  pub next_reply : Option ModelReply
  pub pending : Option ToolCall
  pub final : Option Message
  pub failure : Option (Text × Text × Text)

abbrev pub call_reply : ToolCall → ModelReply
call_reply call = record {
  content = string [];
  tool_calls = tool_call call ∷ [];
  provider_state = none;
}

abbrev pub text_reply : Text → ModelReply
text_reply content = record { content = string content; tool_calls = []; provider_state = none }

abbrev pub asks : List ReplayStep → ModelReply → WorkflowReplay
asks done reply = record {
  steps = done;
  next_reply = some reply;
  pending = none;
  final = none;
  failure = none;
}

abbrev pub waits : List ReplayStep → ToolCall → WorkflowReplay
waits done call = record {
  steps = done;
  next_reply = none;
  pending = some call;
  final = none;
  failure = none;
}

abbrev pub ends : List ReplayStep → Message → WorkflowReplay
ends done message = record {
  steps = done;
  next_reply = none;
  pending = none;
  final = some message;
  failure = none;
}

abbrev pub fails : List ReplayStep → Text × Text × Text → WorkflowReplay
fails done failure = record {
  steps = done;
  next_reply = none;
  pending = none;
  final = none;
  failure = some failure;
}

-- `expected`
unfoldable pub expected_call :
    Host → WorkflowSpec → CompiledStep → Entries → Dict Text Value → Try ToolCall
unfolding call_id outer_arguments
expected_call host spec compiled input outputs = do
  id ← call_id host spec compiled.step
  arguments ← outer_arguments host spec compiled input outputs
  returned (record {
    id = string id;
    name = string compiled.wrapper_name;
    arguments = given arguments;
    complete = boolean true;
  })

-- `Message("assistant", tool_calls=(expected,))`
abbrev pub call_message : ToolCall → Message
call_message call = record {
  role = codes "assistant";
  content = [];
  tool_calls = call ∷ [];
  tool_call_id = none;
  tool_name = none;
  error_code = none;
  provider_state = none;
}

abbrev is_text_value : Value → Option Text → Bool
is_text_value v o = elim o [ none ↦ false | some t ↦ elim v [ string s ↦ s == t | _ ↦ false ] ]

-- The result is one of the call.
unfoldable pub is_result_of : ToolCall → Message → Bool
is_result_of call result =
    result.role == codes "tool"
    && is_text_value call.id result.tool_call_id
    && is_text_value call.name result.tool_name
    && elim result.tool_calls [ [] ↦ true | _ ∷ _ ↦ false ]
    && not (is_some result.provider_state)

abbrev pub is_last : List Message → Bool
is_last [] = true
is_last (m ∷ ms) = false

abbrev final_data : WorkflowSpec → Text → Value → Text → Value
final_data spec digest output output_sha256 = mapping (
    fields (
      (codes "version", integer (pos 1))
      ∷ (codes "workflow_id", string spec.workflow_id)
      ∷ (codes "workflow_version", string spec.version)
      ∷ (codes "definition_sha256", string digest)
      ∷ (codes "status", string (codes "succeeded"))
      ∷ (
        codes "output",
        mapping (
            fields (
              (codes "step_id", string spec.output_step)
              ∷ (codes "value", plain_json output)
              ∷ (codes "value_sha256", string output_sha256)
              ∷ [])),
      )
      ∷ []))

-- The content of `final_reply`.
unfoldable pub final_content : Host → WorkflowSpec → Dict Text Value → Try Text
unfolding spec_digest get plain_json json_sha256 canonical_json
final_content host spec outputs = do
  digest ← spec_digest host.sha256 spec
  output ← from_option key_error (get spec.output_step outputs)
  output_sha256 ← json_sha256 host.sha256 output
  canonical_json (final_data spec digest output output_sha256)

-- What stands after the records of all the steps.
unfoldable pub replay_final : List ReplayStep → Text → List Message → Try WorkflowReplay
unfolding message_beq
replay_final done content [] = returned (asks done (text_reply content))
replay_final done content (m ∷ ms) = do
  refuse_if (not (message_beq m (plain_message (codes "assistant") content)) || not (is_last ms))
      integrity
  returned (ends done m)

-- The round of a step: the reply of the workflow model ends the replay, or the output of the step
-- and what follows its two records go on.
pub data Round : Type 0 where
  stops : WorkflowReplay → Round
  goes_on : ReplayStep → Value → List Message → Round

-- What the result of a call makes of the round.
unfoldable pub take_result :
    Host
    → WorkflowSpec
    → List ReplayStep
    → CompiledStep
    → ToolCall
    → Message
    → List Message
    → Try Round
unfolding parse_result is_result_of
take_result host spec done compiled call result rest = do
  refuse_if (not (is_result_of call result)) integrity
  elim result.error_code [
    | some code ↦ do
      refuse_if (not (is_last rest)) integrity
      returned (
          stops (
            fails (done ++ record { compiled = compiled; call = call; result = some result } ∷ [])
              (compiled.step.step_id, code, result.content)))
    | none ↦ do
      output ← parse_result host spec compiled.step result.content
      returned
          (goes_on (record { compiled = compiled; call = call; result = some result }) output rest)
  ]

-- One round of the loop, from the expected call on.
unfoldable pub replay_round :
    Host → WorkflowSpec → List ReplayStep → CompiledStep → ToolCall → List Message → Try Round
unfolding message_beq take_result
replay_round host spec done compiled call [] = returned (stops (asks done (call_reply call)))
replay_round host spec done compiled call (assistant ∷ rest) = do
  refuse_if (not (message_beq assistant (call_message call))) integrity
  elim rest [
    | [] ↦ returned (
        stops
          (waits (done ++ record { compiled = compiled; call = call; result = none } ∷ []) call))
    | result ∷ later ↦ take_result host spec done compiled call result later
  ]

-- The loop over the steps.
unfoldable pub replay_steps :
    Host
    → WorkflowSpec
    → Entries
    → Dict Text Value
    → List ReplayStep
    → List CompiledStep
    → List Message
    → Try WorkflowReplay
unfolding final_content replay_final expected_call replay_round put
replay_steps host spec input outputs done [] ms = do
  content ← final_content host spec outputs
  replay_final done content ms
replay_steps host spec input outputs done (c ∷ cs) ms = do
  call ← expected_call host spec c input outputs
  round ← replay_round host spec done c call ms
  elim round [
    | stops replay ↦ returned replay
    | goes_on step output rest ↦
        replay_steps host spec input (put c.step.step_id output outputs) (done ++ step ∷ []) cs rest
  ]

-- `WorkflowModel.replay`
unfoldable pub replay : Host → WorkflowSpec → List CompiledStep → List Message → Try WorkflowReplay
unfolding input_from_messages replay_steps
replay host spec steps messages = do
  start ← input_from_messages host spec messages
  replay_steps host spec start.0 [] [] steps start.1

-- `tuple(tools) != self.tools`, with a test of one tool.
unfoldable pub same_tools : {T : Type 0} ⦃e : Comparable T⦄ → List T → List T → Bool
same_tools [] [] = true
same_tools (t ∷ ts) (u ∷ us) = t == u && same_tools ts us
same_tools _ _ = false

-- What `complete` raises besides.
pub data CompletionError : Type 0 where
  registry_changed replay_error unexpected_history : CompletionError
  step_failed : Text × Text × Text → CompletionError

-- `complete` from the replay on.
unfoldable pub complete_history :
    Host → WorkflowSpec → List CompiledStep → List Message → Outcome CompletionError ModelReply
unfolding replay
complete_history host spec steps messages = elim (replay host spec steps messages) [
  | raised e ↦ raised replay_error
  | returned r ↦ if is_some r.pending then raised unexpected_history else elim r.failure [
    | some failure ↦ raised (step_failed failure)
    | none ↦
        if is_some r.final
        then raised unexpected_history
        else from_option unexpected_history r.next_reply
  ]
]

-- `WorkflowModel.complete`. A `Tool` holds functions, so its type and its equality are parameters;
-- `self.tools` are the wrapper tools of the compiled steps.
unfoldable pub complete :
    {T : Type 0} ⦃e : Comparable T⦄
    → (CompiledStep → T)
    → Host
    → WorkflowSpec
    → List CompiledStep
    → List Message
    → List T
    → Outcome CompletionError ModelReply
unfolding same_tools complete_history
complete wrapper_tool host spec steps messages tools =
    if same_tools tools (map wrapper_tool steps)
    then complete_history host spec steps messages
    else raised registry_changed
