-- ===== src/Runtime/Recovery.antt =====
-- What a person does to a paused run: `Harness.resolve_approval` and `Harness.resolve_effect`, and
-- the cursor `Harness.stored_events`, of packages/sasori-core/src/sasori_core/runtime.py.
pub mod Refused
use sasori.Base.{
  ℕ, Bool, true, false, ◌&&◌, Option, none, some, List, [], ◌∷◌, ◌++◌, find?, ◌==◌, if◌then◌else◌,
}
use sasori.Base.Comp.{returned, or_raise, raise_if, ◌>>=◌, ◌>>◌}
use sasori.Text.{Text, codes, text_eq, is_blank}
use sasori.Json.{Value, string, boolean, fields, optional_text}
use sasori.Contracts.Types.{
  Event, EventType, Snapshot, CallRecord, CallStatus, RunStatus, StoredEvent,
}
use sasori.Contracts.Ids.{validate_run_id}
use sasori.Store.State.{load}
use sasori.Store.Runs
use sasori.Store.Calls.{calls_of, update_call}
use sasori.Store.Approvals
use sasori.Runtime.World.{
  Environment, Run, FaultPoint, value_error, on_store, persist, fault, observe, make_event,
}
use sasori.Runtime.Calls.Outcomes.{tool_message, call_event}
use sasori.Runtime.Calls.Dispatch.{render}

-- `stored_events`
unfoldable pub stored_events : Value → ℕ → Run (List StoredEvent)
unfolding on_store
stored_events id after_seq = do
  run_id ← or_raise value_error (validate_run_id id)
  on_store (Runs.stored_events run_id after_seq)

abbrev pub observe_if : Environment → Bool → List Event → Run (Unit {0})
observe_if env changed events w = if changed then observe env events w else (returned tt, w)

-- `resolve_approval`
unfoldable pub resolve_approval : Environment → Value → Text → Bool → Run (Unit {0})
unfolding on_store fault observe
resolve_approval env id fingerprint approved = do
  run_id ← or_raise value_error (validate_run_id id)
  state ← on_store (load run_id)
  let event =
      make_event state state.step EventType.approval_resolved
        (fields
          ((codes "approved", boolean approved) ∷ (codes "fingerprint", string fingerprint) ∷ []))
        none none
  fault env FaultPoint.before_checkpoint_commit
  resolved ← on_store (Approvals.resolve_approval run_id fingerprint approved event)
  fault env FaultPoint.after_checkpoint_commit
  observe_if env resolved.1 (event ∷ [])

-- The actions of `resolve_effect`; any other text raises `ValueError`.
pub data RecoveryAction : Type 0 where
  record_result fail retry : RecoveryAction

abbrev pub action_text : RecoveryAction → Text
action_text RecoveryAction.record_result = codes "record_result"
action_text RecoveryAction.fail = codes "fail"
action_text RecoveryAction.retry = codes "retry"

abbrev pub action_named : Text → Option RecoveryAction
action_named s =
    if s == codes "record_result"
    then some RecoveryAction.record_result
    else if s == codes "fail"
    then some RecoveryAction.fail
    else if s == codes "retry"
    then some RecoveryAction.retry
    else none

abbrev pub is_cancelled : RunStatus → Bool
is_cancelled RunStatus.cancelled = true
is_cancelled _ = false

abbrev pub may_recover : RunStatus → Bool
may_recover RunStatus.cancelled = true
may_recover RunStatus.effect_unknown = true
may_recover _ = false

abbrev pub is_retry : RecoveryAction → Bool
is_retry RecoveryAction.retry = true
is_retry _ = false

abbrev is_unknown_call : CallRecord → Bool
is_unknown_call c = elim c.status [ CallStatus.effect_unknown ↦ true | _ ↦ false ]

-- The call that a recovery is about, where the run and the call are in doubt.
unfoldable pub matching_call : Snapshot → Text → List CallRecord → Option CallRecord
matching_call state fingerprint calls = elim (find? (λ c. c.fingerprint == fingerprint) calls) [
  | none ↦ none
  | some c ↦ if may_recover state.status && is_unknown_call c then some c else none
]

abbrev resolved_event : Snapshot → CallRecord → RecoveryAction → Text → Text → Event
resolved_event state call action fingerprint reason =
    call_event state call EventType.recovery_resolved (
      (codes "action", string (action_text action))
      ∷ (codes "fingerprint", string fingerprint)
      ∷ (codes "reason", string reason)
      ∷ [])

abbrev kept_cancelled : RunStatus → RunStatus
kept_cancelled s = if is_cancelled s then RunStatus.cancelled else RunStatus.awaiting_resume

-- The outcome that `record_result` and `fail` write.
unfoldable pub record_recovery :
    Environment → Snapshot → CallRecord → Event → Text → Text → Option Text → Run Snapshot
unfolding persist
record_recovery env state call resolved fingerprint content error_code =
    let message = tool_message call content error_code in
    let outcome =
      call_event state call
        (elim error_code [ none ↦ EventType.tool_completed | some _ ↦ EventType.tool_failed ])
        ((codes "error_code", optional_text error_code)
          ∷ (codes "manual", boolean true)
          ∷ (codes "message", string content)
          ∷ (codes "fingerprint", string fingerprint)
          ∷ []) in
    let updated = record state {
      status = kept_cancelled state.status;
      history = state.history ++ message ∷ [];
    } in
    persist env
      (update_call state updated call CallStatus.result (resolved ∷ outcome ∷ []) (some message))
      (resolved ∷ outcome ∷ [])

-- What is written for an action.
unfoldable pub apply_recovery :
    Environment → Snapshot → CallRecord → Text → RecoveryAction → Text → Value → Run Snapshot
unfolding record_recovery persist
apply_recovery env state call fingerprint RecoveryAction.retry reason outcome =
    let resolved = resolved_event state call RecoveryAction.retry fingerprint reason in
    persist env
      (update_call state (record state { status = RunStatus.awaiting_resume }) call
        CallStatus.approved (resolved ∷ []) none)
      (resolved ∷ [])
apply_recovery env state call fingerprint RecoveryAction.fail reason outcome =
    record_recovery env state call
      (resolved_event state call RecoveryAction.fail fingerprint reason) fingerprint
      (codes "manual recovery failed: " ++ reason) (some (codes "manual_recovery_failed"))
apply_recovery env state call fingerprint RecoveryAction.record_result reason outcome =
    record_recovery env state call
      (resolved_event state call RecoveryAction.record_result fingerprint reason) fingerprint
      (render env outcome) none

-- `resolve_effect`
unfoldable pub resolve_effect : Environment → Value → Text → Text → Text → Value → Run Snapshot
unfolding on_store apply_recovery matching_call
resolve_effect env id fingerprint action_name reason outcome = do
  run_id ← or_raise value_error (validate_run_id id)
  action ← or_raise value_error (action_named action_name)
  raise_if (is_blank reason) value_error
  state ← on_store (load run_id)
  calls ← on_store (calls_of run_id state.step)
  call ← or_raise value_error (matching_call state fingerprint calls)
  raise_if (is_cancelled state.status && is_retry action) value_error
  apply_recovery env state call fingerprint action reason outcome
