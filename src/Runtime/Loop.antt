-- ===== src/Runtime/Loop.antt =====
-- `run_agent_loop`, `Harness.run`, `Harness.resume`, `Harness._continue` and `Harness._result` of
-- packages/sasori-core/src/sasori_core/runtime.py. The loop takes fuel: one unit for each round.
use sasori.Base.{
  ℕ, zero, suc, Bool, true, false, not, Option, none, some, List, [], ◌∷◌, ◌++◌, leb, find?, last?,
  if◌then◌else◌,
}
use sasori.Base.Comp.{Outcome, raised, pure, raise, or_raise, raise_if, ◌>>=◌, ◌>>◌}
use sasori.Text.{Text, codes}
use sasori.Json.{Value, string, boolean, fields}
use sasori.Json.Canonical.{decimal}
use sasori.Contracts.Types.{Message, Event, EventType, Snapshot, CallRecord, CallStatus, RunStatus}
use sasori.Contracts.Ids.{validate_run_id, is_valid_app_id}
use sasori.Store.State.{load}
use sasori.Store.Runs.{start, transition, events_of}
use sasori.Store.Calls.{calls_of}
use sasori.Runtime.World.{
  Environment, World, Run, RunError, RunResult, ErrorClass, FaultPoint, PauseReason, error,
  run_paused, task_cancelled, value_error, lookup_failed, out_of_fuel, on_store, persist, fault,
  make_event, error_code,
}
use sasori.Runtime.Drives.{driving}
use sasori.Runtime.Calls.Outcomes.{approval_request}
use sasori.Runtime.Calls.Gates.{process_call}
use sasori.Runtime.Model.{call_model, count_value}

abbrev pub final_result : Snapshot → Message → List Event → RunResult
final_result state final events = record {
  run_id = state.run_id;
  final_message = final;
  messages = state.history;
  events = events;
  steps = state.step;
}

abbrev pub result_with : Snapshot → Option Message → Run RunResult
result_with state none = raise value_error
result_with state (some final) = do
  events ← on_store (events_of state.run_id)
  pure (final_result state final events)

abbrev pub result_at : Snapshot → RunStatus → Run RunResult
result_at state RunStatus.completed = result_with state state.final_message
result_at state _ = raise value_error

-- `_result`
unfoldable pub result_of : Snapshot → Run RunResult
unfolding on_store
result_of state = result_at state state.status

abbrev pub is_awaiting : CallRecord → Bool
is_awaiting c = elim c.status [ CallStatus.awaiting_approval ↦ true | _ ↦ false ]

abbrev pub is_unresolved : CallRecord → Bool
is_unresolved c = elim c.status [ CallStatus.result ↦ false | _ ↦ true ]

-- The round of a run that awaits an approval: it always raises.
unfoldable pub pause_for_approval : Snapshot → Run RunResult
unfolding on_store approval_request
pause_for_approval state = do
  calls ← on_store (calls_of state.run_id state.step)
  call ← or_raise lookup_failed (find? is_awaiting calls)
  raise (run_paused PauseReason.approval_required (some (approval_request call)))

-- The round of a run whose last reply has no calls.
unfoldable pub complete_run : Environment → Snapshot → Run RunResult
unfolding persist fault result_of
complete_run env state = do
  final ← or_raise lookup_failed (last? state.history)
  let completed =
      make_event state state.step EventType.run_completed
        (fields ((codes "final", string final.content) ∷ [])) none none
  fault env FaultPoint.before_final_commit
  state' ←
      persist env
        (transition state
          (record state {
            status = RunStatus.completed;
            accepted_reply = none;
            final_message = some final;
          })
          (completed ∷ []))
        (completed ∷ [])
  fault env FaultPoint.after_final_commit
  result_of state'

abbrev pub process_pending : Environment → Snapshot → Option CallRecord → Run Snapshot
process_pending env state none =
    persist env
      (transition state (record state { status = RunStatus.ready_model; accepted_reply = none }) [])
      []
process_pending env state (some pending) = process_call env state pending

-- The round of a run that has calls to process.
unfoldable pub process_next : Environment → Snapshot → Run Snapshot
unfolding on_store persist
process_next env state = do
  calls ← on_store (calls_of state.run_id state.step)
  process_pending env state (find? is_unresolved calls)

-- The round of a run with no steps left: it always raises.
unfoldable pub exceed_steps : Environment → Snapshot → Run RunResult
unfolding persist
exceed_steps env state =
    let message =
      codes "run exceeded the maximum of " ++ (decimal env.max_steps ++ codes " model steps") in
    let failed =
      make_event state state.step EventType.run_failed
        (fields (
          (codes "error_code", string (error_code ErrorClass.max_steps_exceeded))
          ∷ (codes "message", string message)
          ∷ []))
        none none in
    do
      _ ←
          persist env (transition state (record state { status = RunStatus.failed }) (failed ∷ []))
            (failed ∷ [])
      raise (error ErrorClass.max_steps_exceeded message)

-- What a round does: it ends the loop, or goes on from the durable state.
pub data Round : Type 0 where
  ends : Run RunResult → Round
  goes_on : Run Snapshot → Round

abbrev pub model_round : Environment → Snapshot → Round
model_round env state =
    if leb env.max_steps state.step
    then ends (exceed_steps env state)
    else goes_on (call_model env state)

abbrev pub cancelled_error : Text → RunError
cancelled_error run_id =
    error ErrorClass.run_cancelled (codes "run " ++ (run_id ++ codes " was cancelled"))

abbrev pub failed_error : Text → RunError
failed_error run_id = error ErrorClass.sasori_error (codes "run " ++ (run_id ++ codes " is failed"))

unfoldable pub round_at : Environment → Snapshot → RunStatus → Round
round_at env state RunStatus.completed = ends (result_of state)
round_at env state RunStatus.cancelled = ends (raise (cancelled_error state.run_id))
round_at env state RunStatus.effect_unknown =
    ends (raise (run_paused PauseReason.effect_unknown none))
round_at env state RunStatus.awaiting_approval = ends (pause_for_approval state)
round_at env state RunStatus.pending_final = ends (complete_run env state)
round_at env state RunStatus.processing_reply = goes_on (process_next env state)
round_at env state RunStatus.paused_recovery = goes_on (process_next env state)
round_at env state RunStatus.awaiting_resume = goes_on (process_next env state)
round_at env state RunStatus.failed = ends (raise (failed_error state.run_id))
round_at env state RunStatus.new = model_round env state
round_at env state RunStatus.ready_model = model_round env state

abbrev pub follow_round : (Snapshot → Run RunResult) → Round → Run RunResult
follow_round next (ends body) = body
follow_round next (goes_on body) = body >>= next

-- `run_agent_loop`
unfoldable pub agent_loop : ℕ → Environment → Snapshot → Run RunResult
unfolding on_store round_at
agent_loop zero env state = raise out_of_fuel
agent_loop (suc fuel) env state = do
  latest ← on_store (load state.run_id)
  follow_round (agent_loop fuel env) (round_at env latest latest.status)

abbrev pub is_final : RunStatus → Bool
is_final RunStatus.completed = true
is_final RunStatus.failed = true
is_final RunStatus.cancelled = true
is_final _ = false

abbrev is_unknown : RunStatus → Bool
is_unknown RunStatus.effect_unknown = true
is_unknown _ = false

-- The status strings.
abbrev pub status_text : RunStatus → Text
status_text RunStatus.new = codes "new"
status_text RunStatus.ready_model = codes "ready_model"
status_text RunStatus.processing_reply = codes "processing_reply"
status_text RunStatus.pending_final = codes "pending_final"
status_text RunStatus.awaiting_approval = codes "awaiting_approval"
status_text RunStatus.awaiting_resume = codes "awaiting_resume"
status_text RunStatus.paused_recovery = codes "paused_recovery"
status_text RunStatus.effect_unknown = codes "effect_unknown"
status_text RunStatus.completed = codes "completed"
status_text RunStatus.failed = codes "failed"
status_text RunStatus.cancelled = codes "cancelled"

abbrev cancelled_event : Snapshot → Event
cancelled_event latest =
    make_event latest latest.step EventType.run_cancelled
      (fields (
        (codes "effect_unknown", boolean (is_unknown latest.status))
        ∷ (codes "previous_status", string (status_text latest.status))
        ∷ (codes "resumable", boolean false)
        ∷ []))
      none none

-- The `CancelledError` handler of `_continue` with the latest state: it raises the error again.
unfoldable pub cancel_latest : Environment → Snapshot → Run RunResult
unfolding persist
cancel_latest env latest = if is_final latest.status then raise task_cancelled else (do
  _ ←
      persist env
        (transition latest (record latest { status = RunStatus.cancelled })
          (cancelled_event latest ∷ []))
        (cancelled_event latest ∷ [])
  raise task_cancelled)

unfoldable pub cancel_run : Environment → Text → Run RunResult
unfolding on_store cancel_latest
cancel_run env run_id = do latest ← on_store (load run_id); cancel_latest env latest

abbrev pub or_cancel :
    Environment → Text → Outcome RunError RunResult × World → Outcome RunError RunResult × World
or_cancel env run_id (raised task_cancelled, w) = cancel_run env run_id w
or_cancel env run_id r = r

-- `_continue`
unfoldable pub continue_run : ℕ → Environment → Snapshot → Run RunResult
unfolding agent_loop cancel_run
continue_run fuel env state w = or_cancel env state.run_id (agent_loop fuel env state w)

abbrev initial : Text → List Message → Option Text → Snapshot
initial run_id messages app_id = record {
  run_id = run_id;
  revision = 0;
  generation = 0;
  status = RunStatus.new;
  step = 0;
  history = messages;
  accepted_reply = none;
  final_message = none;
  app_id = app_id;
}

abbrev bad_app_id : Option Text → Bool
bad_app_id none = false
bad_app_id (some a) = not (is_valid_app_id (string a))

-- `run`; the caller has drawn `run_id` where it gave none.
unfoldable pub run : ℕ → Environment → List Message → Value → Option Text → Run RunResult
unfolding driving persist continue_run
run fuel env messages id app_id = do
  run_id ← or_raise value_error (validate_run_id id)
  raise_if (bad_app_id app_id) value_error
  let started =
      make_event (initial run_id messages app_id) 0 EventType.run_started
        (fields ((codes "message_count", count_value messages) ∷ [])) none none
  driving run_id (do
    state ← persist env (start run_id messages started app_id) (started ∷ [])
    continue_run fuel env state)

-- What `resume` does with the loaded state.
unfoldable pub resume_at : ℕ → Environment → Snapshot → RunStatus → Run RunResult
unfolding continue_run
resume_at fuel env state RunStatus.completed = result_of state
resume_at fuel env state RunStatus.cancelled = raise (cancelled_error state.run_id)
resume_at fuel env state RunStatus.effect_unknown =
    raise (run_paused PauseReason.effect_unknown none)
resume_at fuel env state _ = continue_run fuel env state

-- `resume`
unfoldable pub resume : ℕ → Environment → Value → Run RunResult
unfolding driving on_store resume_at
resume fuel env id = do
  run_id ← or_raise value_error (validate_run_id id)
  driving run_id (do state ← on_store (load run_id); resume_at fuel env state state.status)
