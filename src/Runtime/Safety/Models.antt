-- ===== src/Runtime/Safety/Models.antt =====
-- `_call_model` is safe.
use sasori.Base.{ℕ, ◌+◌, refl, List}
use sasori.Base.Comp.{Outcome, returned, raised}
use sasori.Text.{Text}
use sasori.Contracts.Types.{Snapshot, CallRecord, ModelReply}
use sasori.Store.State.{load, duplicate_call_id}
use sasori.Store.Growth.{Grown-refl}
use sasori.Store.Growth.Methods.{accept_reply-Extends}
use sasori.Runtime.World.{Environment, World, RunError, ErrorClass, store_error}
use sasori.Runtime.Records.{Records, call_records}
use sasori.Runtime.Model.{
  Answer, answered, failed, cancelled, fail_model, ask_model, fail_duplicate, or_fail_duplicate,
  commit_reply, take_reply, settle_answer, call_model, recorded_reply, has_bad_text,
}
use sasori.Runtime.Detach.{snapshot_model_reply}
use sasori.Runtime.Safety.{Step, IsSafe, Step-trans, Step-store}
use sasori.Runtime.Safety.Rules.{
  IsSafe-persist, IsSafe-on_store, IsSafe-bind, IsSafe-then, IsSafe-if, IsSafe-raise, IsSafe-pure,
  IsSafe-fault,
}
use sasori.Runtime.Safety.Outcomes.{load-Extends, moving-IsSafe}

module _ {env : Environment} where
  pub fail_model-IsSafe :
      (state : Snapshot) (step : ℕ) (class : ErrorClass) (message : Text)
      → IsSafe env (fail_model env state step class message)
  unfolding fail_model
  fail_model-IsSafe state step class message =
      IsSafe-bind _ _ (moving-IsSafe _ _ _ _) (λ _. IsSafe-raise _)

  ask_model-IsSafe : IsSafe env (ask_model env)
  unfolding ask_model
  ask_model-IsSafe = record {
    at = λ w.
        Step-store env w (record w { model_calls = w.model_calls + 1 }) refl
          (λ c. (c, Grown-refl w.store));
  }

  fail_duplicate-IsSafe : (state : Snapshot) (step : ℕ) → IsSafe env (fail_duplicate env state step)
  unfolding fail_duplicate
  fail_duplicate-IsSafe state step =
      IsSafe-bind _ _ (IsSafe-on_store (load state.run_id) (load-Extends state.run_id))
        (λ latest. fail_model-IsSafe latest step _ _)

  duplicate-IsSafe :
      (state : Snapshot) (step : ℕ) (w : World) (p : Outcome RunError Snapshot × World)
      → Step env w p.1
      → Step env w (or_fail_duplicate env state step p).1
  unfolding or_fail_duplicate
  duplicate-IsSafe state step w (raised (store_error duplicate_call_id), v) g =
      Step-trans env w v (fail_duplicate env state step v).1 g
        ((fail_duplicate-IsSafe state step).at v)
  duplicate-IsSafe state step w (raised _, v) g = g
  duplicate-IsSafe state step w (returned s, v) g = g

  commit_reply-IsSafe :
      (state : Snapshot) (step : ℕ) (reply : ModelReply) (calls : List CallRecord)
      → IsSafe env (commit_reply env state step reply calls)
  unfolding commit_reply
  commit_reply-IsSafe state step reply calls = IsSafe-then _ _ (IsSafe-fault _) (
      IsSafe-bind _ _
        (record {
          at = λ w.
              duplicate-IsSafe state step w _
                ((IsSafe-persist _ _ (accept_reply-Extends _ _ _ _ _)).at w);
        })
        (λ s. IsSafe-then _ _ (IsSafe-fault _) (IsSafe-pure s)))

  take_reply-IsSafe :
      (state : Snapshot) (step : ℕ) (reply : ModelReply)
      → IsSafe env (take_reply env state step reply)
  unfolding take_reply
  take_reply-IsSafe state step reply =
      IsSafe-if (has_bad_text reply) _ _ (λ _. fail_model-IsSafe _ _ _ _)
        (λ _. recorded (call_records env state.run_id step reply))
    where
      recorded : (r : Records) → IsSafe env (recorded_reply env state step reply r)
      recorded (raised id) = fail_model-IsSafe _ _ _ _
      recorded (returned calls) = commit_reply-IsSafe _ _ _ _

  settle_answer-IsSafe :
      (state : Snapshot) (step : ℕ) (a : Answer) → IsSafe env (settle_answer env state step a)
  unfolding settle_answer
  settle_answer-IsSafe state step (answered r) =
      take_reply-IsSafe state step (snapshot_model_reply r)
  settle_answer-IsSafe state step (failed class message) = fail_model-IsSafe _ _ _ _
  settle_answer-IsSafe state step cancelled = IsSafe-raise _

  pub call_model-IsSafe : (state : Snapshot) → IsSafe env (call_model env state)
  unfolding call_model
  call_model-IsSafe state =
      IsSafe-bind _ _ (moving-IsSafe _ _ _ _)
        (λ s. IsSafe-bind _ _ ask_model-IsSafe (λ a. settle_answer-IsSafe s (state.step + 1) a))
