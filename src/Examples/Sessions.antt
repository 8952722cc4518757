-- ===== src/Examples/Sessions.antt =====
-- A run that asks for an approval, gets it, and ends after its tool was called.
use sasori.Base.{ℕ, ◌+◌, ◌≡◌, refl, true, false, none, List, [], ◌∷◌, length}
use sasori.Base.Comp.{pure}
use sasori.Text.{codes, text_beq}
use sasori.Json.{string}
use sasori.Contracts.Types.{CallStatus, RunStatus}
use sasori.Store.State.{init}
use sasori.Store.Growth.{IsConsistent, Grown}
use sasori.Store.Histories.{init-IsConsistent, after, Request, history_grows}
use sasori.Runtime.World.{Environment, World}
use sasori.Runtime.Drives.{is_active, driving}
use sasori.Runtime.Drives.Idle.{
  DriveStep, waits, enters, leaves, drives, IsOrderly, IsDistinct, drives-IsOrderly, kept, times,
  came_to_wait, driving-leaves,
}
use sasori.Runtime.Calls.Gates.{process_call}
use sasori.Runtime.Safety.{Advance}
use sasori.Runtime.Safety.Tools.{process_call-Advance}
use sasori.Runtime.Safety.Sessions.{Demand, serve, serve_all, serve-Advance, serve_all_grows}
use sasori.Examples.Data.{harness, new_world, request, snapshot_of, stored_call, resolved}

abbrev starting : Demand
starting = Demand.run 20 (request ∷ []) (string (codes "r1")) none

abbrev sessions : List (Environment × Demand)
sessions =
    (harness, starting)
    ∷ (harness, Demand.resolve_approval (string (codes "r1")) (codes "f1") true)
    ∷ (harness, Demand.resume 20 (string (codes "r1")))
    ∷ []

abbrev final_world : World
final_world = serve_all sessions new_world

abbrev calls_made : ℕ
calls_made = length final_world.invocations

serve-Advance_example : Advance harness new_world (serve harness starting new_world)
serve-Advance_example = serve-Advance harness starting new_world init-IsConsistent

serve_all_grows_example : IsConsistent final_world.store × Grown init final_world.store
serve_all_grows_example = serve_all_grows sessions new_world init-IsConsistent

process_call-Advance_example :
    Advance harness new_world
      (process_call harness
        (snapshot_of (codes "r1") RunStatus.processing_reply)
        (stored_call (codes "c1") CallStatus.pending)
        new_world).1
process_call-Advance_example =
    process_call-Advance harness (snapshot_of (codes "r1") RunStatus.processing_reply)
      (stored_call (codes "c1") CallStatus.pending) new_world init-IsConsistent

abbrev requests : List Request
requests =
    Request.start (codes "r1") (request ∷ []) resolved none
    ∷ Request.resolve_approval (codes "r1") (codes "f1") true resolved
    ∷ Request.close
    ∷ []

history_grows_example : IsConsistent (after requests init) × Grown init (after requests init)
history_grows_example = history_grows requests init init-IsConsistent

abbrev drive_steps : List DriveStep
drive_steps = enters (codes "r1") ∷ waits 1 ∷ enters (codes "r1") ∷ leaves (codes "r1") ∷ []

drives-IsOrderly_example :
    IsOrderly (drives drive_steps new_world)
    × ((n : ℕ)
        → kept n (drives drive_steps new_world)
          ≡ kept n new_world + times n (came_to_wait drive_steps new_world))
unfolding IsDistinct
drives-IsOrderly_example =
    drives-IsOrderly drive_steps new_world (record { distinct = tt; settled = λ e. refl })

-- Who came to wait while the run was driven was woken when it was left.
woken_test : (drives drive_steps new_world).woken ≡ 1 ∷ []
unfolding drives is_active text_beq
woken_test = refl

driving-leaves_example :
    is_active (codes "r1") (driving (codes "r1") (pure true) new_world).1.active_runs ≡ false
unfolding is_active text_beq
driving-leaves_example = driving-leaves (codes "r1") (pure true) new_world refl
