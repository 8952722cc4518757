-- ===== src/Runtime/Safety/Rounds.antt =====
-- The rounds of `run_agent_loop` are safe, each for itself.
use sasori.Base.{ℕ, Option, none, some, List, find?, last?}
use sasori.Base.Comp.{or_raise}
use sasori.Text.{Text, text_eq}
use sasori.Dict.{get}
use sasori.Contracts.Types.{Snapshot, CallRecord, Message, RunStatus, StoredEvent}
use sasori.Store.State.{Store, StoreError, load, key_error}
use sasori.Store.Runs.{events_of, stored_events}
use sasori.Store.Calls.{calls_of}
use sasori.Store.Growth.{Extends, Extends-refl}
use sasori.Store.Growth.Methods.{Extends-bind}
use sasori.Runtime.World.{Environment, on_store}
use sasori.Runtime.Loop.{
  result_of, pause_for_approval, complete_run, process_next, exceed_steps, is_unresolved,
  result_with, result_at, process_pending,
}
use sasori.Runtime.Safety.{IsSafe}
use sasori.Runtime.Safety.Rules.{
  IsSafe-on_store, IsSafe-bind, IsSafe-then, IsSafe-raise, IsSafe-pure, IsSafe-or_raise,
  IsSafe-fault,
}
use sasori.Runtime.Safety.Outcomes.{load-Extends, calls_of-Extends, moving-IsSafe}
use sasori.Runtime.Safety.Tools.{process_call-IsSafe}

pub stored_events-Extends : (k : Text) (n : ℕ) (s : Store) → Extends s (stored_events k n s).1
unfolding stored_events
stored_events-Extends k n s = Extends-bind (load k) _ s (load-Extends k s) (λ _ t _.
    Extends-bind (λ s'. or_raise key_error (get k s'.events) s') _ t (looked t)
      (λ _ u _. Extends-refl u))
  where
    got :
        (t : Store) (o : Option (List StoredEvent))
        → Extends t (or_raise {S = Store} {E = StoreError} key_error o t).1
    got t none = Extends-refl t
    got t (some es) = Extends-refl t

    looked :
        (t : Store)
        → Extends t (or_raise {S = Store} {E = StoreError} key_error (get k t.events) t).1
    looked t = got t (get k t.events)

pub events_of-Extends : (k : Text) (s : Store) → Extends s (events_of k s).1
unfolding events_of
events_of-Extends k s =
    Extends-bind (stored_events k 0) _ s (stored_events-Extends k 0 s) (λ _ t _. Extends-refl t)

module _ {env : Environment} where
  pub result_of-IsSafe : (state : Snapshot) → IsSafe env (result_of state)
  unfolding result_of
  result_of-IsSafe state = at_status state.status
    where
      with_final : (o : Option Message) → IsSafe env (result_with state o)
      with_final none = IsSafe-raise _
      with_final (some m) =
          IsSafe-bind _ _
            (IsSafe-on_store (events_of state.run_id) (events_of-Extends state.run_id))
            (λ es. IsSafe-pure _)

      at_status : (st : RunStatus) → IsSafe env (result_at state st)
      at_status RunStatus.completed = with_final state.final_message
      at_status _ = IsSafe-raise _

  pub pause_for_approval-IsSafe : (state : Snapshot) → IsSafe env (pause_for_approval state)
  unfolding pause_for_approval
  pause_for_approval-IsSafe state =
      IsSafe-bind (on_store (calls_of state.run_id state.step)) _
        (IsSafe-on_store _ (calls_of-Extends state.run_id state.step))
        (λ calls. IsSafe-bind _ _ (IsSafe-or_raise _ _) (λ c. IsSafe-raise _))

  pub exceed_steps-IsSafe : (state : Snapshot) → IsSafe env (exceed_steps env state)
  unfolding exceed_steps
  exceed_steps-IsSafe state = IsSafe-bind _ _ (moving-IsSafe _ _ _ _) (λ _. IsSafe-raise _)

  pub complete_run-IsSafe : (state : Snapshot) → IsSafe env (complete_run env state)
  unfolding complete_run
  complete_run-IsSafe state = IsSafe-bind _ _ (IsSafe-or_raise _ (last? state.history)) (λ final.
      IsSafe-then _ _ (IsSafe-fault _) (
        IsSafe-bind _ _ (moving-IsSafe _ _ _ _)
          (λ s. IsSafe-then _ _ (IsSafe-fault _) (result_of-IsSafe s))))

  pub process_next-IsSafe : (state : Snapshot) → IsSafe env (process_next env state)
  unfolding process_next
  process_next-IsSafe state =
      IsSafe-bind (on_store (calls_of state.run_id state.step)) _
        (IsSafe-on_store _ (calls_of-Extends state.run_id state.step))
        (λ calls. pending (find? is_unresolved calls))
    where
      pending : (o : Option CallRecord) → IsSafe env (process_pending env state o)
      pending none = moving-IsSafe _ _ _ _
      pending (some c) = process_call-IsSafe state c
