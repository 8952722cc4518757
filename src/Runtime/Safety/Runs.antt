-- ===== src/Runtime/Safety/Runs.antt =====
-- The whole harness is safe: the loop for any fuel, the runs and resumptions, and what a person
-- does to a paused run.
use sasori.Base.{
  ℕ, zero, suc, refl, Bool, true, false, not, Option, List, [], ◌∷◌, if◌then◌else◌, leb, filter,
  ◌==◌,
}
use sasori.Base.Comp.{Outcome, returned, raised}
use sasori.Text.{Text, text_eq}
use sasori.Json.{Value}
use sasori.Contracts.Types.{Snapshot, Message, RunStatus}
use sasori.Contracts.Ids.{validate_run_id}
use sasori.Store.State.{load}
use sasori.Store.Growth.{Grown-refl}
use sasori.Store.Growth.Methods.{start-Extends}
use sasori.Runtime.World.{Environment, World, Run, RunError, RunResult, on_store, task_cancelled}
use sasori.Runtime.Drives.{driving, enter_drive, leave_drive, entering, is_active, wake_if_idle}
use sasori.Runtime.Loop.{
  ends, goes_on, agent_loop, cancel_run, cancel_latest, continue_run, run, resume, resume_at,
  round_at, follow_round, model_round, or_cancel, is_final,
}
use sasori.Runtime.Safety.{Step, IsSafe, Step-refl, Step-trans, Step-store}
use sasori.Runtime.Safety.Rules.{
  IsSafe-persist, IsSafe-on_store, IsSafe-bind, IsSafe-then, IsSafe-if, IsSafe-raise,
  IsSafe-or_raise, IsSafe-raise_if,
}
use sasori.Runtime.Safety.Outcomes.{load-Extends, moving-IsSafe}
use sasori.Runtime.Safety.Models.{call_model-IsSafe}
use sasori.Runtime.Safety.Rounds.{
  result_of-IsSafe, pause_for_approval-IsSafe, exceed_steps-IsSafe, complete_run-IsSafe,
  process_next-IsSafe,
}

module _ {env : Environment} (next : Snapshot → Run RunResult)
    (safe : (s : Snapshot) → IsSafe env (next s)) where
  choice-IsSafe :
      (b : Bool) (m : Run RunResult) (n : Run Snapshot)
      → IsSafe env m
      → IsSafe env n
      → IsSafe env (follow_round next (if b then ends m else goes_on n))
  choice-IsSafe true m n f g = f
  choice-IsSafe false m n f g = IsSafe-bind n next g safe

  model_round-IsSafe : (state : Snapshot) → IsSafe env (follow_round next (model_round env state))
  model_round-IsSafe state =
      choice-IsSafe (leb env.max_steps state.step) _ _ (exceed_steps-IsSafe state)
        (call_model-IsSafe state)

  round-IsSafe :
      (state : Snapshot) (st : RunStatus) → IsSafe env (follow_round next (round_at env state st))
  unfolding round_at
  round-IsSafe state RunStatus.completed = result_of-IsSafe state
  round-IsSafe state RunStatus.cancelled = IsSafe-raise _
  round-IsSafe state RunStatus.effect_unknown = IsSafe-raise _
  round-IsSafe state RunStatus.awaiting_approval = pause_for_approval-IsSafe state
  round-IsSafe state RunStatus.pending_final = complete_run-IsSafe state
  round-IsSafe state RunStatus.processing_reply =
      IsSafe-bind _ next (process_next-IsSafe state) safe
  round-IsSafe state RunStatus.paused_recovery = IsSafe-bind _ next (process_next-IsSafe state) safe
  round-IsSafe state RunStatus.awaiting_resume = IsSafe-bind _ next (process_next-IsSafe state) safe
  round-IsSafe state RunStatus.failed = IsSafe-raise _
  round-IsSafe state RunStatus.new = model_round-IsSafe state
  round-IsSafe state RunStatus.ready_model = model_round-IsSafe state

module _ {env : Environment} where
  agent_loop-IsSafe : (fuel : ℕ) (state : Snapshot) → IsSafe env (agent_loop fuel env state)
  unfolding agent_loop
  agent_loop-IsSafe zero state = IsSafe-raise _
  agent_loop-IsSafe (suc fuel) state =
      let safe = agent_loop-IsSafe fuel in
      IsSafe-bind (on_store (load state.run_id)) _
        (IsSafe-on_store (load state.run_id) (load-Extends state.run_id))
        (λ s. round-IsSafe (agent_loop fuel env) safe s s.status)

  cancel_latest-IsSafe : (state : Snapshot) → IsSafe env (cancel_latest env state)
  unfolding cancel_latest
  cancel_latest-IsSafe state =
      IsSafe-if (is_final state.status) _ _ (λ _. IsSafe-raise _)
        (λ _. IsSafe-bind _ _ (moving-IsSafe _ _ _ _) (λ _. IsSafe-raise _))

  cancel_run-IsSafe : (k : Text) → IsSafe env (cancel_run env k)
  unfolding cancel_run
  cancel_run-IsSafe k =
      IsSafe-bind (on_store (load k)) _ (IsSafe-on_store (load k) (load-Extends k))
        (λ s. cancel_latest-IsSafe s)

  or_cancel-IsSafe :
      (k : Text) (w : World) (p : Outcome RunError RunResult × World)
      → Step env w p.1
      → Step env w (or_cancel env k p).1
  or_cancel-IsSafe k w (raised task_cancelled, v) g =
      Step-trans env w v (cancel_run env k v).1 g ((cancel_run-IsSafe k).at v)
  or_cancel-IsSafe k w (raised _, v) g = g
  or_cancel-IsSafe k w (returned r, v) g = g

  continue_run-IsSafe : (fuel : ℕ) (state : Snapshot) → IsSafe env (continue_run fuel env state)
  unfolding continue_run
  continue_run-IsSafe fuel state = record {
    at = λ w.
        or_cancel-IsSafe state.run_id w (agent_loop fuel env state w)
          ((agent_loop-IsSafe fuel state).at w);
  }

  enter_drive-IsSafe : (k : Text) → IsSafe env (enter_drive k)
  unfolding enter_drive
  enter_drive-IsSafe k = record { at = λ w. entered w (is_active k w.active_runs) }
    where
      entered : (w : World) (b : Bool) → Step env w (entering k w b).1
      entered w true = Step-refl env w
      entered w false =
          Step-store env w (record w { active_runs = k ∷ w.active_runs }) refl
            (λ c. (c, Grown-refl w.store))

  leave_drive-Step : (k : Text) (w : World) → Step env w (leave_drive k w)
  unfolding leave_drive
  leave_drive-Step k w = left (filter (λ r. not (r == k)) w.active_runs)
    where
      left : (rs : List Text) → Step env w (wake_if_idle rs w)
      left [] = Step-store env w (wake_if_idle [] w) refl (λ c. (c, Grown-refl w.store))
      left (r ∷ rs) = Step-store env w (wake_if_idle (r ∷ rs) w) refl (λ c. (c, Grown-refl w.store))

  driving-IsSafe :
      {A : Type 0} (k : Text) (body : Run A) → IsSafe env body → IsSafe env (driving k body)
  unfolding driving
  driving-IsSafe k body g = IsSafe-then (enter_drive k) _ (enter_drive-IsSafe k) (record {
    at = λ w.
        Step-trans env w (body w).1 (leave_drive k (body w).1) (g.at w)
          (leave_drive-Step k (body w).1);
  })

  -- A run is safe, whatever its messages, identifiers and surroundings.
  pub run-IsSafe :
      (fuel : ℕ) (messages : List Message) (id : Value) (app_id : Option Text)
      → IsSafe env (run fuel env messages id app_id)
  unfolding run
  run-IsSafe fuel messages id app_id =
      IsSafe-bind _ _ (IsSafe-or_raise _ (validate_run_id id)) (λ k.
        IsSafe-then _ _ (IsSafe-raise_if _ _) (
          driving-IsSafe k _ (
            IsSafe-bind _ _ (IsSafe-persist _ _ (start-Extends k _ _ _))
              (λ s. continue_run-IsSafe fuel s))))

  resume_at-IsSafe :
      (fuel : ℕ) (state : Snapshot) (st : RunStatus) → IsSafe env (resume_at fuel env state st)
  unfolding resume_at
  resume_at-IsSafe fuel state RunStatus.completed = result_of-IsSafe state
  resume_at-IsSafe fuel state RunStatus.cancelled = IsSafe-raise _
  resume_at-IsSafe fuel state RunStatus.effect_unknown = IsSafe-raise _
  resume_at-IsSafe fuel state _ = continue_run-IsSafe fuel state

  pub resume-IsSafe : (fuel : ℕ) (id : Value) → IsSafe env (resume fuel env id)
  unfolding resume
  resume-IsSafe fuel id = IsSafe-bind _ _ (IsSafe-or_raise _ (validate_run_id id)) (λ k.
      driving-IsSafe k _ (
        IsSafe-bind (on_store (load k)) _ (IsSafe-on_store (load k) (load-Extends k))
          (λ s. resume_at-IsSafe fuel s s.status)))
