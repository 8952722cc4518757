-- ===== src/Flow/Wrappers.antt =====
-- The wrapper tools of a workflow: `_parse_payload`, the idempotency keys and `_make_wrapper` of
-- src/sasori_flow/runtime.py.
pub mod Bound
use sasori.Base.{
  ℕ, Bool, true, false, not, ◌&&◌, ◌||◌, Option, none, some, List, [], ◌∷◌, ◌++◌, take, ◌==◌,
  is_some, if◌then◌else◌, nat_beq,
}
use sasori.Base.Comp.{Outcome, returned, raised}
use sasori.Base.Try.{◌>>=◌, ◌>>◌, refuse_if, from_option}
use sasori.Text.{Text, codes, text_eq}
use sasori.Dict.{Dict, get, put, contains}
use sasori.Json.{
  Value, null, integer, string, mapping, Entries, pos, fields, keys_are_text, put_key, get_key,
  optional_text,
}
use sasori.Contracts.Types.{Effect}
use sasori.Contracts.Equality.{effect_beq}
use sasori.Flow.Values.{
  Try, FlowError, integrity, key_error, tool_error, canonical_json, text_sha256,
}
use sasori.Flow.Types.{ToolStep, step_data}
use sasori.Flow.Spec.{WorkflowSpec, spec_digest}
use sasori.Flow.Records.{Host, result_envelope}

-- A `Tool` under its wrapper: its effect, its key function, where `none` is a raise, and its handler
-- on the arguments by name, with the execution context if its signature has that.
pub record BaseTool : Type 0 where
  pub effect : Effect
  pub idempotency_key : Entries → Option Value
  pub handler : Entries → Try Value

-- A trailing run of a kind of character taken away: `str.rstrip`.
abbrev pub right_trimmed : (ℕ → Bool) → Text → Text
right_trimmed p [] = []
right_trimmed p (c ∷ s) = elim (right_trimmed p s) [
  | [] ↦ if p c then [] else c ∷ []
  | d ∷ t ↦ c ∷ d ∷ t
]

abbrev dots_replaced : Text → Text
dots_replaced [] = []
dots_replaced (c ∷ s) = (if nat_beq c b'.' then b'_' else c) ∷ dots_replaced s

abbrev or_step : Text → Text
or_step [] = codes "step"
or_step (c ∷ s) = c ∷ s

-- `_wrapper_name`
unfoldable pub wrapper_name : Host → WorkflowSpec → ToolStep → Try Text
unfolding spec_digest text_sha256
wrapper_name host spec step = do
  digest ← spec_digest host.sha256 spec
  hex ← text_sha256 host.sha256 (digest ++ (0 ∷ (step.step_id ++ (0 ∷ step.tool_name))))
  returned (
      codes "wf_"
      ++ (or_step (
            right_trimmed (λ c. nat_beq c b'_' || nat_beq c b'-')
              (take 36 (dots_replaced step.step_id)))
          ++ (codes "_" ++ take 16 hex)))

-- `_wrapper_revision`
unfoldable pub wrapper_revision : Host → WorkflowSpec → ToolStep → Try Text
unfolding spec_digest step_data canonical_json text_sha256
wrapper_revision host spec step = do
  digest ← spec_digest host.sha256 spec
  encoded ← canonical_json (
      mapping (
        fields (
          (codes "definition_sha256", string digest)
          ∷ (codes "step", step_data step)
          ∷ (codes "wrapper", string (codes "typed-tool-envelope-v1"))
          ∷ [])))
  text_sha256 host.sha256 encoded

unfoldable pub payload_entries : Value → Try Entries
payload_entries v = elim v [
  | mapping es ↦ if keys_are_text es then returned es else raised integrity
  | _ ↦ raised integrity
]

-- `_parse_payload`
unfoldable pub parse_payload : Host → WorkflowSpec → ToolStep → Text → Text → Text → Try Entries
unfolding spec_digest
parse_payload host spec step definition_sha256 step_id payload_json = do
  digest ← spec_digest host.sha256 spec
  refuse_if (not (definition_sha256 == digest) || not (step_id == step.step_id)) integrity
  parsed ← from_option integrity (host.loads payload_json)
  payload ← payload_entries parsed
  encoded ← canonical_json (mapping payload)
  refuse_if (not (payload_json == encoded)) integrity
  returned payload

abbrev filled_key : Text → Try Text
filled_key [] = raised integrity
filled_key (c ∷ s) = returned (c ∷ s)

-- `_base_idempotency_key`
unfoldable pub base_idempotency_key : BaseTool → Entries → Try Text
base_idempotency_key tool payload = elim (tool.idempotency_key payload) [
  | none ↦ raised integrity
  | some v ↦ elim v [ string s ↦ filled_key s | _ ↦ raised integrity ]
]

-- `_workflow_idempotency_key`
unfoldable pub workflow_idempotency_key : Host → WorkflowSpec → ToolStep → Text → Try Text
unfolding spec_digest canonical_json text_sha256
workflow_idempotency_key host spec step base_key = do
  digest ← spec_digest host.sha256 spec
  encoded ← canonical_json (
      mapping (
        fields (
          (codes "definition_sha256", string digest)
          ∷ (codes "step_id", string step.step_id)
          ∷ (codes "base_key", string base_key)
          ∷ [])))
  text_sha256 host.sha256 encoded

-- The arguments of `_invoke_underlying`, before the execution context.
unfoldable pub underlying_arguments : BaseTool → Entries → Option Text → Entries
unfolding put_key effect_beq
underlying_arguments tool payload key =
    if effect_beq tool.effect Effect.idempotent
    then put_key (codes "idempotency_key") (optional_text key) payload
    else payload

-- The arguments of a wrapper's call.
pub record Envelope : Type 0 where
  pub definition_sha256 : Text
  pub step_id : Text
  pub payload_json : Text

-- `invoke`
unfoldable pub invoke : Host → WorkflowSpec → ToolStep → BaseTool → Envelope → Try Value
unfolding parse_payload underlying_arguments result_envelope
invoke host spec step tool e = do
  payload ← parse_payload host spec step e.definition_sha256 e.step_id e.payload_json
  value ← tool.handler (underlying_arguments tool payload none)
  result_envelope host spec step value

-- `invoke_idempotent`
unfoldable pub invoke_idempotent :
    Host → WorkflowSpec → ToolStep → BaseTool → Envelope → Text → Try Value
unfolding parse_payload base_idempotency_key workflow_idempotency_key underlying_arguments
    result_envelope
invoke_idempotent host spec step tool e idempotency_key = do
  payload ← parse_payload host spec step e.definition_sha256 e.step_id e.payload_json
  base_key ← base_idempotency_key tool payload
  expected ← workflow_idempotency_key host spec step base_key
  refuse_if (not (idempotency_key == expected)) integrity
  value ← tool.handler (underlying_arguments tool payload (some base_key))
  result_envelope host spec step value

-- `except Exception`
abbrev any_integrity : {A : Type 0} → Try A → Try A
any_integrity (returned a) = returned a
any_integrity (raised e) = raised integrity

-- `idempotency`
unfoldable pub idempotency : Host → WorkflowSpec → ToolStep → BaseTool → Envelope → Try Text
unfolding parse_payload base_idempotency_key workflow_idempotency_key
idempotency host spec step tool e = do
  base_key ← any_integrity (do
    payload ← parse_payload host spec step e.definition_sha256 e.step_id e.payload_json
    base_idempotency_key tool payload)
  workflow_idempotency_key host spec step base_key
