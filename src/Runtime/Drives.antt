-- ===== src/Runtime/Drives.antt =====
-- Which runs are being driven, and who waits for none to be: `is_idle`, `wait_for_idle`,
-- `_enter_drive` and `_leave_drive` of packages/sasori-core/src/sasori_core/runtime.py. A waiter is
-- a future, by a number; `woken` are the futures that have their result.
pub mod Idle
use sasori.Base.{ℕ, Bool, true, false, not, List, [], ◌∷◌, ◌++◌, ◌==◌, any, filter, if◌then◌else◌}
use sasori.Base.Comp.{Comp, Outcome, returned, raised, pure, raise, raise_if, modify, ◌>>=◌, ◌>>◌}
use sasori.Text.{Text, codes, text_eq}
use sasori.Runtime.World.{World, Run, RunError, error, ErrorClass}

abbrev pub is_idle : World → Bool
is_idle w = elim w.active_runs [ [] ↦ true | _ ∷ _ ↦ false ]

unfoldable pub is_active : Text → List Text → Bool
is_active run_id runs = any (λ r. r == run_id) runs

-- Whether the harness is idle decides.
abbrev pub waiting : ℕ → World → Bool → Outcome RunError Bool × World
waiting waiter w true = (returned false, w)
waiting waiter w false = (returned true, record w { idle_waiters = waiter ∷ w.idle_waiters })

-- `wait_for_idle` up to its `await`; `false` where it returns at once.
unfoldable pub wait_for_idle : ℕ → Run Bool
wait_for_idle waiter w = waiting waiter w (is_idle w)

abbrev pub busy : Text → RunError
busy run_id =
    error ErrorClass.run_busy (codes "run " ++ (run_id ++ codes " already has an active drive"))

-- Whether the run is active decides.
abbrev pub entering : Text → World → Bool → Outcome RunError (Unit {0}) × World
entering run_id w true = (raised (busy run_id), w)
entering run_id w false = (returned tt, record w { active_runs = run_id ∷ w.active_runs })

unfoldable pub enter_drive : Text → Run (Unit {0})
unfolding is_active
enter_drive run_id w = entering run_id w (is_active run_id w.active_runs)

abbrev pub wake_if_idle : List Text → World → World
wake_if_idle [] w = record w {
  active_runs = [];
  idle_waiters = [];
  woken = w.woken ++ w.idle_waiters;
}
wake_if_idle (r ∷ rs) w = record w { active_runs = r ∷ rs }

unfoldable pub leave_drive : Text → World → World
leave_drive run_id w = wake_if_idle (filter (λ r. not (r == run_id)) w.active_runs) w

-- `self._enter_drive(run_id)`, then `try: body finally: self._leave_drive(run_id)`.
unfoldable pub driving : {A : Type 0} → Text → Run A → Run A
unfolding enter_drive leave_drive
driving run_id body = do
  enter_drive run_id
  (λ w. let (r, w') = body w in (r, leave_drive run_id w'))
