-- ===== src/Examples/Stores.antt =====
-- Stores with a run that waits for an approval, with several runs, and with a run that has ended.
use sasori.Base.{ℕ, ◌≡◌, refl, ◌≢◌, ◌⊎◌, inl, Bool, true, false, Option, none, some, List, [], ◌∷◌}
use sasori.Base.Comp.{Outcome, returned, raised}
use sasori.Text.{codes, text_eq, text_beq}
use sasori.Dict.{get}
use sasori.Contracts.Equality.{call_beq}
use sasori.Contracts.Types.{Snapshot, RunStatus, CallRecord, CallStatus}
use sasori.Store.State.{
  Store, StoreError, init, commit, load, bumped, duplicate_call_id, concurrent_run, call_changed,
  approval_conflict,
}
use sasori.Store.Calls.{accept_reply, update_call, has_duplicate, existing_ids}
use sasori.Store.Approvals.{resolve_approval, settle, resolve_calls, resolve_items}
use sasori.Store.Refusals.{
  IsDecided, accept_reply-atomic, update_call-atomic, resolve_approval-again,
  resolve_approval-IsDecided,
}
use sasori.Json.{string, null}
use sasori.Contracts.Ids.{validate_run_id, is_valid_run_id}
use sasori.Runtime.World.{World, RunResult}
use sasori.Runtime.Drives.{is_active}
use sasori.Runtime.Loop.{resume}
use sasori.Runtime.Recovery.{resolve_effect}
use sasori.Runtime.Recovery.Refused.{HasNoResult, resolve_effect-retry_cancelled, resume-halted}
use sasori.Examples.Data.{harness, request, world_with, asking, snapshot_of, stored_call, resolved}

abbrev waiting_run : Snapshot
waiting_run = snapshot_of (codes "r1") RunStatus.awaiting_approval

abbrev waiting_call : CallRecord
waiting_call = stored_call (codes "c1") CallStatus.awaiting_approval

-- The run waits for the decision `d`.
abbrev store_with : Option Bool → Store
store_with d = record init {
  runs = (codes "r1", waiting_run) ∷ [];
  run_rows = (codes "r1", 1) ∷ [];
  next_row = 2;
  events = (codes "r1", []) ∷ [];
  calls = ((codes "r1", 1), waiting_call ∷ []) ∷ [];
  approvals = (codes "f1", d) ∷ [];
  approval_runs = (codes "f1", codes "r1") ∷ [];
}

abbrev other_run : Snapshot
other_run = snapshot_of (codes "r2") RunStatus.ready_model

abbrev two_runs : Store
two_runs = record init {
  runs = (codes "r1", waiting_run) ∷ (codes "r2", other_run) ∷ [];
  run_rows = (codes "r1", 1) ∷ (codes "r2", 2) ∷ [];
  next_row = 3;
}

abbrev repeated : List CallRecord
repeated =
    stored_call (codes "c2") CallStatus.pending ∷ stored_call (codes "c2") CallStatus.pending ∷ []

accept_reply-atomic_example :
    (accept_reply waiting_run waiting_run asking repeated [] (store_with none)).1 ≡ store_with none
unfolding accept_reply has_duplicate existing_ids text_beq
accept_reply-atomic_example =
    accept_reply-atomic waiting_run waiting_run asking repeated [] (store_with none)
      duplicate_call_id refl

update_call-atomic_example :
    (update_call waiting_run waiting_run
      (stored_call (codes "c9") CallStatus.pending)
      CallStatus.result
      []
      none
      (store_with none)).1
    ≡ store_with none
unfolding update_call get text_beq call_beq
update_call-atomic_example =
    update_call-atomic waiting_run waiting_run (stored_call (codes "c9") CallStatus.pending)
      CallStatus.result [] none (store_with none) (concurrent_run call_changed) refl

-- A first decision on the call of the run.
abbrev decide_first : Outcome StoreError (Snapshot × Bool) × Store
decide_first = resolve_approval (codes "r1") (codes "f1") true resolved (store_with none)

resolve_approval-again_example :
    ((false ≡ true)
      × ((p : Snapshot) × (get (codes "r1") decide_first.1.runs ≡ some p)
          × (resolve_approval (codes "r1") (codes "f1") false resolved decide_first.1
              ≡ (returned (p, false), decide_first.1))))
    ⊎ ((false ≢ true)
        × (resolve_approval (codes "r1") (codes "f1") false resolved decide_first.1
            ≡ (raised approval_conflict, decide_first.1)))
unfolding resolve_approval load settle commit resolve_calls resolve_items get text_beq
resolve_approval-again_example =
    resolve_approval-again (codes "r1") (codes "f1") true false true resolved resolved
      (store_with none)
      (bumped waiting_run (record waiting_run { status = RunStatus.awaiting_resume })) refl

resolve_approval-IsDecided_example :
    IsDecided
      (codes "r1")
      (codes "f1")
      true
      (resolve_approval (codes "r1") (codes "f1") true resolved (store_with none)).1
unfolding resolve_approval load settle commit resolve_calls resolve_items get text_beq
resolve_approval-IsDecided_example =
    resolve_approval-IsDecided (codes "r1") (codes "f1") true true resolved (store_with none)
      (bumped waiting_run (record waiting_run { status = RunStatus.awaiting_resume })) refl

abbrev page : List (ℕ × Snapshot)
page = (2, other_run) ∷ (1, waiting_run) ∷ []

-- A world whose one run has ended so.
abbrev ended : RunStatus → World
ended status = world_with (record init {
  runs =
      (codes "r1", record (snapshot_of (codes "r1") status) { final_message = some request }) ∷ [];
  run_rows = (codes "r1", 1) ∷ [];
  next_row = 2;
  events = (codes "r1", record { seq = 1; event = resolved } ∷ []) ∷ [];
})

resolve_effect-retry_cancelled_example :
    (resolve_effect harness
      (string (codes "r1"))
      (codes "f1")
      (codes "retry")
      (codes "safe")
      null
      (ended RunStatus.cancelled)).1
    ≡ ended RunStatus.cancelled
unfolding validate_run_id is_valid_run_id get text_beq
resolve_effect-retry_cancelled_example =
    resolve_effect-retry_cancelled harness (string (codes "r1")) (codes "f1") (codes "retry")
      (codes "safe") null (ended RunStatus.cancelled) (codes "r1")
      (record (snapshot_of (codes "r1") RunStatus.cancelled) { final_message = some request }) refl
      refl refl refl

abbrev completed_run : Snapshot
completed_run = record (snapshot_of (codes "r1") RunStatus.completed) {
  final_message = some request;
}

resume-halted_example :
    ((resume 5 harness (string (codes "r1")) (ended RunStatus.completed)).1.store
      ≡ (ended RunStatus.completed).store)
    × ((resume 5 harness (string (codes "r1")) (ended RunStatus.completed)).1.invocations ≡ [])
    × ((resume 5 harness (string (codes "r1")) (ended RunStatus.completed)).1.model_calls ≡ 0)
    × (HasNoResult (codes "r1") completed_run (ended RunStatus.completed)
        ⊎ ((r : RunResult) × ((resume 5 harness (string (codes "r1")) (ended RunStatus.completed)).0
              ≡ returned r)
            × (completed_run.status ≡ RunStatus.completed)
            × (completed_run.final_message ≡ some r.final_message)
            × (r.messages ≡ completed_run.history)
            × (r.steps ≡ completed_run.step)
            × (r.run_id ≡ codes "r1")
            × (r.events ≡ resolved ∷ [])))
unfolding validate_run_id is_valid_run_id get text_beq is_active
resume-halted_example =
    resume-halted 5 harness (string (codes "r1")) (ended RunStatus.completed) (codes "r1")
      completed_run (record { seq = 1; event = resolved } ∷ []) refl refl refl refl refl (inl refl)
