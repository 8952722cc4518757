-- ===== src/Runtime/Safety/Outcomes.antt =====
-- The parts of `_process_call` that call no handler are safe.
use sasori.Base.{ℕ, Option, List, get_elem?}
use sasori.Text.{Text, text_eq}
use sasori.Contracts.Types.{Snapshot, Event, CallRecord, CallStatus, Message, Effect}
use sasori.Store.State.{Store, load}
use sasori.Store.Runs.{transition}
use sasori.Store.Calls.{calls_of, update_call}
use sasori.Store.Growth.{Extends, Extends-refl}
use sasori.Store.Growth.Methods.{load_same, update_call-Extends, commit-Extends, Extends-bind}
use sasori.Runtime.World.{
  Environment, Tool, ToolOutcome, outputs, tool_times_out, tool_cancelled, tool_raises, on_store,
  persist, PauseReason,
}
use sasori.Runtime.Records.{is_idempotent}
use sasori.Runtime.Calls.Outcomes.{
  current_call, record_tool_error, pause_unknown, mark_effect_unknown,
}
use sasori.Runtime.Calls.Dispatch.{
  record_output, cancel_call, settle_call, is_read_only, is_pending,
}
use sasori.Runtime.Calls.Gates.{request_call}
use sasori.Runtime.Safety.{IsSafe}
use sasori.Runtime.Safety.Rules.{
  IsSafe-persist, IsSafe-on_store, IsSafe-bind, IsSafe-then, IsSafe-if, IsSafe-raise, IsSafe-pure,
  IsSafe-or_raise, IsSafe-fault,
}

pub transition-Extends :
    (c u : Snapshot) (es : List Event) (s : Store) → Extends s (transition c u es s).1
unfolding transition
transition-Extends = commit-Extends

pub load-Extends : (k : Text) (s : Store) → Extends s (load k s).1
load-Extends k s = rw load_same (Extends-refl s)

pub calls_of-Extends : (k : Text) (n : ℕ) (s : Store) → Extends s (calls_of k n s).1
unfolding calls_of
calls_of-Extends k n s = Extends-bind (load k) _ s (load-Extends k s) (λ _ t _. Extends-refl t)

module _ {env : Environment} where
  pub current_call-IsSafe : (state : Snapshot) (i : ℕ) → IsSafe env (current_call state i)
  unfolding current_call
  current_call-IsSafe state i =
      IsSafe-bind (on_store (calls_of state.run_id state.step)) _
        (IsSafe-on_store (calls_of state.run_id state.step)
          (calls_of-Extends state.run_id state.step))
        (λ calls. IsSafe-or_raise _ (get_elem? calls i))

  -- A call's new status, persisted.
  pub updating-IsSafe :
      (c u : Snapshot) (call : CallRecord) (st : CallStatus) (es fs : List Event)
      (o : Option Message)
      → IsSafe env (persist env (update_call c u call st es o) fs)
  updating-IsSafe c u call st es fs o =
      IsSafe-persist (update_call c u call st es o) fs (update_call-Extends c u call st es o)

  pub moving-IsSafe :
      (c u : Snapshot) (es fs : List Event) → IsSafe env (persist env (transition c u es) fs)
  moving-IsSafe c u es fs = IsSafe-persist (transition c u es) fs (transition-Extends c u es)

  pub record_tool_error-IsSafe :
      (state : Snapshot) (call : CallRecord) (code message : Text)
      → IsSafe env (record_tool_error env state call code message)
  unfolding record_tool_error
  record_tool_error-IsSafe state call code message = updating-IsSafe _ _ _ _ _ _ _

  pub pause_unknown-IsSafe :
      (state : Snapshot) (call : CallRecord) (code message : Text)
      → IsSafe env (pause_unknown env state call code message)
  unfolding pause_unknown
  pause_unknown-IsSafe state call code message =
      IsSafe-if (is_idempotent call.effect) _ _
        (λ _. IsSafe-bind _ _ (moving-IsSafe _ _ _ _) (λ _. IsSafe-raise _))
        (λ _. IsSafe-bind _ _ (updating-IsSafe _ _ _ _ _ _ _) (λ _. IsSafe-raise _))

  pub mark_effect_unknown-IsSafe :
      (state : Snapshot) (call : CallRecord) (message code : Text) (reason : PauseReason)
      → IsSafe env (mark_effect_unknown env state call message code reason)
  unfolding mark_effect_unknown
  mark_effect_unknown-IsSafe state call message code reason =
      IsSafe-bind _ _ (updating-IsSafe _ _ _ _ _ _ _) (λ _. IsSafe-raise _)

  pub request_call-IsSafe :
      (state : Snapshot) (call : CallRecord) → IsSafe env (request_call env state call)
  unfolding request_call
  request_call-IsSafe state call =
      IsSafe-if (is_pending call.status) _ _
        (λ _.
          IsSafe-bind _ _ (updating-IsSafe _ _ _ _ _ _ _)
            (λ s. IsSafe-bind _ _ (current_call-IsSafe s call.ordinal) (λ c. IsSafe-pure (s, c))))
        (λ _. IsSafe-pure (state, call))

  record_output-IsSafe :
      (state : Snapshot) (call : CallRecord) (content : Text)
      → IsSafe env (record_output env state call content)
  unfolding record_output
  record_output-IsSafe state call content = IsSafe-then _ _ (IsSafe-fault _) (
      IsSafe-then _ _ (IsSafe-fault _) (
        IsSafe-bind _ _ (updating-IsSafe _ _ _ _ _ _ _)
          (λ s. IsSafe-then _ _ (IsSafe-fault _) (IsSafe-pure s))))

  cancel_call-IsSafe :
      (state : Snapshot) (call : CallRecord) (effect : Effect)
      → IsSafe env (cancel_call env state call effect)
  unfolding cancel_call
  cancel_call-IsSafe state call effect =
      IsSafe-if (is_read_only effect) _ _ (λ _. IsSafe-raise _)
        (λ _. IsSafe-bind _ _ (updating-IsSafe _ _ _ _ _ _ _) (λ _. IsSafe-raise _))

  pub settle_call-IsSafe :
      (tool : Tool) (state : Snapshot) (call : CallRecord) (o : ToolOutcome)
      → IsSafe env (settle_call env tool state call o)
  unfolding settle_call
  settle_call-IsSafe tool state call (outputs v) = record_output-IsSafe _ _ _
  settle_call-IsSafe tool state call tool_times_out =
      IsSafe-if (is_read_only tool.effect) _ _ (λ _. record_tool_error-IsSafe _ _ _ _)
        (λ _. pause_unknown-IsSafe _ _ _ _)
  settle_call-IsSafe tool state call tool_cancelled = cancel_call-IsSafe _ _ _
  settle_call-IsSafe tool state call (tool_raises name message) =
      IsSafe-if (is_read_only tool.effect) _ _ (λ _. record_tool_error-IsSafe _ _ _ _)
        (λ _. pause_unknown-IsSafe _ _ _ _)
