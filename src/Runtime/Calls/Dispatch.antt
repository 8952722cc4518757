-- ===== src/Runtime/Calls/Dispatch.antt =====
-- The last part of `Harness._process_call` of packages/sasori-core/src/sasori_core/runtime.py: the
-- handler is called, and how it ended is recorded.
use sasori.Base.{◌+◌, Bool, true, false, ◌&&◌, none, some, [], ◌∷◌, ◌++◌, if◌then◌else◌}
use sasori.Base.Comp.{returned, pure, raise, ◌>>=◌, ◌>>◌}
use sasori.Text.{Text, codes, text_eq}
use sasori.Json.{Value, string, boolean, optional_text}
use sasori.Contracts.Types.{Effect, EventType, Snapshot, CallRecord, CallStatus, RunStatus}
use sasori.Store.Calls.{update_call}
use sasori.Runtime.World.{
  Environment, Run, Tool, ToolOutcome, FaultPoint, PauseReason, outputs, tool_times_out,
  tool_cancelled, tool_raises, task_cancelled, persist, fault,
}
use sasori.Runtime.Calls.Outcomes.{
  current_call, tool_message, call_event, record_tool_error, pause_unknown, mark_effect_unknown,
}

abbrev pub is_pending : CallStatus → Bool
is_pending CallStatus.pending = true
is_pending _ = false

abbrev pub is_requested : CallStatus → Bool
is_requested CallStatus.requested = true
is_requested _ = false

abbrev pub is_denied : CallStatus → Bool
is_denied CallStatus.denied = true
is_denied _ = false

abbrev pub is_dispatching : CallStatus → Bool
is_dispatching CallStatus.dispatching = true
is_dispatching _ = false

abbrev pub is_read_only : Effect → Bool
is_read_only Effect.read_only = true
is_read_only _ = false

abbrev pub is_side_effecting : Effect → Bool
is_side_effecting Effect.side_effecting = true
is_side_effecting _ = false

-- The effect's own string.
abbrev pub effect_text : Effect → Text
effect_text Effect.read_only = codes "read_only"
effect_text Effect.idempotent = codes "idempotent"
effect_text Effect.side_effecting = codes "side_effecting"

-- The result of a handler that returned.
unfoldable pub record_output : Environment → Snapshot → CallRecord → Text → Run Snapshot
unfolding persist fault
record_output env state call content =
    let outcome = tool_message call content none in
    let completed =
      call_event state call EventType.tool_completed
        ((codes "output", string content) ∷ (codes "fingerprint", string call.fingerprint) ∷ []) in
    do
      fault env FaultPoint.after_tool_return
      fault env FaultPoint.before_tool_result_commit
      state' ←
          persist env
            (update_call state (record state { history = state.history ++ outcome ∷ [] }) call
              CallStatus.result (completed ∷ []) (some outcome))
            (completed ∷ [])
      fault env FaultPoint.after_tool_result_commit
      pure state'

-- The `CancelledError` handler, which raises it again.
unfoldable pub cancel_call : Environment → Snapshot → CallRecord → Effect → Run Snapshot
unfolding persist
cancel_call env state call effect =
    let failed = call_event state call EventType.tool_failed (
      (codes "error_code", string (codes "effect_unknown"))
      ∷ (codes "message", string (codes "side effect outcome is unknown after cancellation"))
      ∷ (codes "effect_unknown", boolean true)
      ∷ (codes "fingerprint", string call.fingerprint)
      ∷ []) in
    if is_read_only effect then raise task_cancelled else (do
      _ ←
          persist env
            (update_call state (record state { status = RunStatus.effect_unknown }) call
              CallStatus.effect_unknown (failed ∷ []) none)
            (failed ∷ [])
      raise task_cancelled)

abbrev described : Text → Text → Text
described name message = name ++ (codes ": " ++ message)

-- `_render`
abbrev pub render : Environment → Value → Text
render env (string s) = s
render env v = env.render_object v

-- What follows the handler, by how it ended.
unfoldable pub settle_call : Environment → Tool → Snapshot → CallRecord → ToolOutcome → Run Snapshot
unfolding record_output cancel_call
settle_call env tool state call (outputs v) = record_output env state call (render env v)
settle_call env tool state call tool_times_out =
    if is_read_only tool.effect
    then record_tool_error env state call (codes "tool_timeout")
        (codes "tool call exceeded " ++ (env.tool_timeout ++ codes " seconds"))
    else pause_unknown env state call (codes "tool_timeout")
        (codes "tool outcome is unknown after " ++ (env.tool_timeout ++ codes " seconds"))
settle_call env tool state call tool_cancelled = cancel_call env state call tool.effect
settle_call env tool state call (tool_raises name message) =
    if is_read_only tool.effect
    then record_tool_error env state call (codes "tool_exception") (described name message)
    else pause_unknown env state call (codes "tool_exception")
        (codes "tool outcome is unknown: " ++ described name message)

-- The handler is called, with the arguments that were bound for the call.
unfoldable pub invoke : Environment → CallRecord → Run ToolOutcome
invoke env call w = (
  returned (env.tool w.tool_calls),
  record w {
    tool_calls = w.tool_calls + 1;
    invocations = w.invocations ++ record { call = call; store = w.store } ∷ [];
  },
)

-- From the check of an interrupted side effect on.
unfoldable pub dispatch : Environment → Tool → Snapshot → CallRecord → Run Snapshot
unfolding persist fault current_call invoke
dispatch env tool state call =
    let started = call_event state call EventType.tool_started (
      (codes "effect", string (effect_text call.effect))
      ∷ (codes "fingerprint", string call.fingerprint)
      ∷ (codes "idempotency_key", optional_text call.idempotency_key)
      ∷ (codes "tool_revision", string call.tool_revision)
      ∷ []) in
    if is_dispatching call.status && is_side_effecting tool.effect
    then mark_effect_unknown env state call
        (codes "side effect outcome is unknown; manual recovery is required")
        (codes "effect_unknown") PauseReason.effect_unknown
    else (do
      fault env FaultPoint.before_tool_dispatch
      state' ←
          persist env
            (update_call state (record state { status = RunStatus.processing_reply }) call
              CallStatus.dispatching (started ∷ []) none)
            (started ∷ [])
      call' ← current_call state' call.ordinal
      fault env FaultPoint.after_tool_dispatch
      outcome ← invoke env call
      settle_call env tool state' call' outcome)
