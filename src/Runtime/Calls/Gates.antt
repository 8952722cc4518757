-- ===== src/Runtime/Calls/Gates.antt =====
-- `Harness._process_call` of packages/sasori-core/src/sasori_core/runtime.py up to the dispatch, cut at
-- its early returns: request, validation, contract, binding, approval.
use sasori.Base.{
  Bool, true, false, not, ◌&&◌, Option, none, some, [], ◌∷◌, ◌++◌, is_some, ◌==◌, if◌then◌else◌,
}
use sasori.Base.Comp.{pure, raise, ◌>>=◌}
use sasori.Text.{Text, codes, text_eq}
use sasori.Json.{Value, string, mapping, object, boolean, Entries, put_key, optional_text}
use sasori.Json.Copies.{json_copy}
use sasori.Contracts.Types.{Effect, EventType, Snapshot, CallRecord, CallStatus, RunStatus}
use sasori.Contracts.Equality.{effect_beq}
use sasori.Store.Calls.{update_call}
use sasori.Store.Approvals.{request_approval, approval}
use sasori.Runtime.World.{
  Environment, Run, Tool, Signature, Inspected, signature, no_signature, key_value, key_raises,
  PauseReason, run_paused, lookup_failed, assertion_failed, on_store, persist,
}
use sasori.Runtime.Records.{
  is_idempotent, tool_named, validate_call, Refusal, refusal_code, refusal_message, key_argument,
  context_argument, apply_key,
}
use sasori.Runtime.Calls.Outcomes.{
  current_call, approval_request, call_event, record_tool_error, mark_effect_unknown,
}
use sasori.Runtime.Calls.Dispatch.{
  is_pending, is_requested, is_denied, is_read_only, effect_text, dispatch,
}

-- The first step: a pending call becomes a requested one.
unfoldable pub request_call : Environment → Snapshot → CallRecord → Run (Snapshot × CallRecord)
unfolding persist current_call
request_call env state call =
    let requested = call_event state call EventType.tool_requested (
      (codes "complete", boolean call.complete)
      ∷ (codes "fingerprint", string call.fingerprint)
      ∷ []) in
    if is_pending call.status
    then (do
      state' ←
          persist env (update_call state state call CallStatus.requested (requested ∷ []) none)
            (requested ∷ [])
      call' ← current_call state' call.ordinal
      pure (state', call'))
    else pure (state, call)

abbrev with_key : Option Text → Entries → Entries
with_key key es = put_key key_argument (optional_text key) es

abbrev context_value : Value
context_value = object (codes "ToolExecutionContext")

abbrev with_context : Signature → Entries → Entries
with_context sig es =
    if is_some sig.tool_context then put_key context_argument context_value es else es

-- `invoke_arguments` for a handler of this signature.
abbrev pub invoke_arguments : Effect → Option Text → Signature → Entries → Entries
invoke_arguments effect key sig es =
    with_context sig (if is_idempotent effect then with_key key es else es)

-- The error of `inspect.signature` or of `bind`, if one of them refuses the call.
unfoldable pub bind_error_of : Inspected → Effect → CallRecord → Entries → Option Text
bind_error_of (no_signature e) effect call es = some e
bind_error_of (signature sig) effect call es =
    sig.bind_error (invoke_arguments effect call.idempotency_key sig es)

-- The first approval of a call: it is recorded, and the run pauses.
unfoldable pub ask_approval : Environment → Snapshot → CallRecord → Run Snapshot
unfolding persist current_call approval_request
ask_approval env state call =
    let requested = call_event state call EventType.approval_requested (
      (codes "effect", string (effect_text call.effect))
      ∷ (codes "fingerprint", string call.fingerprint)
      ∷ (codes "idempotency_key", optional_text call.idempotency_key)
      ∷ (codes "tool_revision", string call.tool_revision)
      ∷ []) in
    do
      state' ←
          persist env
            (request_approval state (record state { status = RunStatus.awaiting_approval }) call
              requested)
            (requested ∷ [])
      call' ← current_call state' call.ordinal
      raise (run_paused PauseReason.approval_required (some (approval_request call')))

unfoldable pub decide : Environment → Tool → Snapshot → CallRecord → Option Bool → Run Snapshot
unfolding approval_request
decide env tool state call none =
    if is_requested call.status
    then ask_approval env state call
    else if is_denied call.status
    then record_tool_error env state call (codes "approval_denied") (codes "tool call was denied")
    else raise (run_paused PauseReason.approval_required (some (approval_request call)))
decide env tool state call (some false) =
    record_tool_error env state call (codes "approval_denied") (codes "tool call was denied")
decide env tool state call (some true) =
    if is_denied call.status
    then record_tool_error env state call (codes "approval_denied") (codes "tool call was denied")
    else dispatch env tool state call

unfoldable pub approval_gate : Environment → Tool → Snapshot → CallRecord → Run Snapshot
unfolding on_store
approval_gate env tool state call =
    if is_read_only tool.effect
    then dispatch env tool state call
    else (do decision ← on_store (approval call.fingerprint); decide env tool state call decision)

-- `es` are the arguments; the error, if there is one, is that of binding them.
abbrev pub bound_call : Environment → Tool → Snapshot → CallRecord → Option Text → Run Snapshot
bound_call env tool state call none = approval_gate env tool state call
bound_call env tool state call (some e) =
    record_tool_error env state call (codes "invalid_arguments")
      (codes "invalid tool arguments: " ++ e)

unfoldable pub bind_call : Environment → Tool → Snapshot → CallRecord → Entries → Run Snapshot
bind_call env tool state call es =
    bound_call env tool state call (bind_error_of tool.inspected tool.effect call es)

abbrev is_current_key : Value → Option Text → Bool
is_current_key (string (c ∷ s)) (some k) = k == (c ∷ s)
is_current_key _ _ = false

-- Why the key of an idempotent tool stops the call, if it does.
unfoldable pub key_problem : Tool → CallRecord → Option Text
key_problem tool call =
    if is_idempotent tool.effect
    then elim (apply_key tool.idempotency_key (json_copy call.arguments)) [
      | key_raises e ↦ some (codes "idempotency key failed: " ++ e)
      | key_value v ↦
          if is_current_key v call.idempotency_key
          then none
          else some (codes "idempotency key changed during recovery")
    ]
    else none

abbrev same_revision : Option Text → Text → Bool
same_revision none r = false
same_revision (some q) r = q == r

abbrev pub keyed_call :
    Environment → Tool → Snapshot → CallRecord → Entries → Option Text → Run Snapshot
keyed_call env tool state call es none = bind_call env tool state call es
keyed_call env tool state call es (some message) =
    mark_effect_unknown env state call message (codes "effect_unknown") PauseReason.effect_unknown

abbrev pub revision_changed : Tool → CallRecord → Bool
revision_changed tool call =
    not (is_read_only call.effect) && not (same_revision tool.tool_revision call.tool_revision)

unfoldable pub revision_gate : Environment → Tool → Snapshot → CallRecord → Entries → Run Snapshot
revision_gate env tool state call es =
    if revision_changed tool call
    then mark_effect_unknown env state call
        (codes "tool contract version or revision changed during recovery")
        (codes "tool_contract_changed") PauseReason.tool_contract_changed
    else keyed_call env tool state call es (key_problem tool call)

unfoldable pub contract_gate : Environment → Tool → Snapshot → CallRecord → Entries → Run Snapshot
contract_gate env tool state call es =
    if not (effect_beq tool.effect call.effect)
    then mark_effect_unknown env state call (codes "tool effect metadata changed during recovery")
        (codes "effect_unknown") PauseReason.effect_unknown
    else revision_gate env tool state call es

-- `arguments = _json_copy(call.arguments)`, which is a mapping of a validated call.
unfoldable pub copied_gate :
    Environment → Tool → Snapshot → CallRecord → Option Value → Run Snapshot
copied_gate env tool state call (some (mapping es)) = contract_gate env tool state call es
copied_gate env tool state call _ = raise assertion_failed

abbrev pub named_call : Environment → Snapshot → CallRecord → Option Tool → Run Snapshot
named_call env state call none = raise lookup_failed
named_call env state call (some tool) = copied_gate env tool state call (json_copy call.arguments)

abbrev pub validated_call : Environment → Snapshot → CallRecord → Option Refusal → Run Snapshot
validated_call env state call none = named_call env state call (tool_named env call.name)
validated_call env state call (some r) =
    record_tool_error env state call (refusal_code r) (refusal_message r call.name)

unfoldable pub validation_gate : Environment → Snapshot → CallRecord → Run Snapshot
validation_gate env state call = validated_call env state call (validate_call env call)

-- `_process_call`
unfoldable pub process_call : Environment → Snapshot → CallRecord → Run Snapshot
process_call env state call = do sc ← request_call env state call; validation_gate env sc.0 sc.1
