-- ===== src/Runtime/Calls/Outcomes.antt =====
-- How a tool call is recorded: `_record_tool_error`, `_pause_unknown`, `_mark_effect_unknown`,
-- `_approval_request` and `_call` of packages/sasori-core/src/sasori_core/runtime.py.
use sasori.Base.{ℕ, true, Option, none, some, List, [], ◌∷◌, ◌++◌, get_elem?, if◌then◌else◌}
use sasori.Base.Comp.{raise, or_raise, ◌>>=◌}
use sasori.Text.{Text, codes}
use sasori.Json.{Value, string, mapping, end, boolean, fields, is_mapping}
use sasori.Contracts.Types.{Message, Event, EventType, Snapshot, CallRecord, CallStatus, RunStatus}
use sasori.Store.Runs.{transition}
use sasori.Store.Calls.{calls_of, update_call}
use sasori.Runtime.World.{
  Environment, Run, PauseReason, ApprovalRequest, run_paused, lookup_failed, on_store, persist,
  make_event,
}
use sasori.Runtime.Records.{or_blank, is_idempotent}

-- `self.store.calls(state.run_id, state.step)[ordinal]`
unfoldable pub current_call : Snapshot → ℕ → Run CallRecord
unfolding on_store
current_call state ordinal = do
  calls ← on_store (calls_of state.run_id state.step)
  or_raise lookup_failed (get_elem? calls ordinal)

abbrev mapping_or_empty : Value → Value
mapping_or_empty v = if is_mapping v then v else mapping end

unfoldable pub approval_request : CallRecord → ApprovalRequest
approval_request call = record {
  run_id = call.run_id;
  step = call.step;
  ordinal = call.ordinal;
  call_id = or_blank call.call_id;
  tool_name = or_blank call.name;
  arguments = mapping_or_empty call.arguments;
  fingerprint = call.fingerprint;
  effect = call.effect;
  idempotency_key = call.idempotency_key;
  tool_revision = call.tool_revision;
}

abbrev pub tool_message : CallRecord → Text → Option Text → Message
tool_message call content error_code = record {
  role = codes "tool";
  content = content;
  tool_calls = [];
  tool_call_id = call.call_id;
  tool_name = call.name;
  error_code = error_code;
  provider_state = none;
}

-- An event about a call, at the snapshot's step.
abbrev pub call_event : Snapshot → CallRecord → EventType → List (Text × Value) → Event
call_event state call type items =
    make_event state state.step type (fields items) call.name call.call_id

-- `_record_tool_error`
unfoldable pub record_tool_error : Environment → Snapshot → CallRecord → Text → Text → Run Snapshot
unfolding persist
record_tool_error env state call code message =
    let outcome = tool_message call message (some code) in
    let failed = call_event state call EventType.tool_failed (
      (codes "error_code", string code)
      ∷ (codes "message", string message)
      ∷ (codes "fingerprint", string call.fingerprint)
      ∷ []) in
    let updated = record state {
      status = RunStatus.processing_reply;
      history = state.history ++ outcome ∷ [];
    } in
    persist env (update_call state updated call CallStatus.result (failed ∷ []) (some outcome))
      (failed ∷ [])

abbrev unknown_event : Snapshot → CallRecord → Text → Text → Event
unknown_event state call code message = call_event state call EventType.tool_failed (
    (codes "error_code", string code)
    ∷ (codes "message", string message)
    ∷ (codes "effect_unknown", boolean true)
    ∷ (codes "fingerprint", string call.fingerprint)
    ∷ [])

-- `_pause_unknown`: it always raises.
unfoldable pub pause_unknown : Environment → Snapshot → CallRecord → Text → Text → Run Snapshot
unfolding persist
pause_unknown env state call code message =
    let failed = unknown_event state call code message in
    if is_idempotent call.effect
    then (do
      _ ←
          persist env
            (transition state (record state { status = RunStatus.paused_recovery }) (failed ∷ []))
            (failed ∷ [])
      raise (run_paused PauseReason.paused_recovery none))
    else (do
      _ ←
          persist env
            (update_call state (record state { status = RunStatus.effect_unknown }) call
              CallStatus.effect_unknown (failed ∷ []) none)
            (failed ∷ [])
      raise (run_paused PauseReason.effect_unknown none))

-- `_mark_effect_unknown`: it always raises.
unfoldable pub mark_effect_unknown :
    Environment → Snapshot → CallRecord → Text → Text → PauseReason → Run Snapshot
unfolding persist
mark_effect_unknown env state call message code reason =
    let failed = unknown_event state call code message in
    do
      _ ←
          persist env
            (update_call state (record state { status = RunStatus.effect_unknown }) call
              CallStatus.effect_unknown (failed ∷ []) none)
            (failed ∷ [])
      raise (run_paused reason none)
