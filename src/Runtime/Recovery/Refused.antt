-- ===== src/Runtime/Recovery/Refused.antt =====
-- Sessions that write nothing (packages/sasori-core/src/sasori_core/runtime.py).
use sasori.Base.{
  ℕ, ◌≡◌, ◌≢◌, ◌⊎◌, inl, inr, true, none, some, arith, Bool, List, [], ◌∷◌, map, filter, all, ltb,
  refl, ◌∙◌, Bool-cases, Option-cases,
}
use sasori.Base.Comp.{returned, raised}
use sasori.Base.Try.{Outcome-cases}
use sasori.Text.{Text, text_eq}
use sasori.Dict.{get}
use sasori.Json.{Value}
use sasori.Contracts.Types.{Snapshot, RunStatus, StoredEvent}
use sasori.Contracts.Ids.{validate_run_id}
use sasori.Store.State.{load}
use sasori.Store.Calls.{calls_of}
use sasori.Runtime.World.{Environment, World, RunError, RunResult, on_store}
use sasori.Store.Runs
use sasori.Store.Runs.{events_of, events_of_stored}
use sasori.Runtime.Drives.{is_active, driving, enter_drive, leave_drive}
use sasori.Runtime.Loop.{resume, resume_at, result_of}
use sasori.Runtime.Recovery.{RecoveryAction, action_named, resolve_effect}

-- `resolve_effect` with the action `retry` on a stored run that is cancelled changes nothing: nothing
-- is written, and no handler is called.
pub resolve_effect-retry_cancelled :
    (env : Environment) (id : Value) (f name reason : Text) (v : Value) (w : World) (k : Text)
    (q : Snapshot)
    → validate_run_id id ≡ some k
    → get k w.store.runs ≡ some q
    → q.status ≡ RunStatus.cancelled
    → action_named name ≡ some RecoveryAction.retry
    → (resolve_effect env id f name reason v w).1 ≡ w
unfolding resolve_effect on_store load calls_of
resolve_effect-retry_cancelled env id f name reason v w k q valid known cancelled retry =
    ground arith

-- A run whose stored state cannot go on by itself: it is completed or cancelled, or an effect of it
-- is unknown.
abbrev pub IsHalted : RunStatus → Type 0
IsHalted s = (s ≡ RunStatus.completed) ⊎ (s ≡ RunStatus.cancelled) ⊎ (s ≡ RunStatus.effect_unknown)

-- What keeps a run from giving its result.
abbrev pub HasNoResult : Text → Snapshot → World → Type 0
HasNoResult k q w =
    (is_active k w.active_runs ≡ true)
    ⊎ (w.store.closed ≡ true)
    ⊎ (q.status ≢ RunStatus.completed)
    ⊎ (q.final_message ≡ none)

-- An event's number, from 1 on.
abbrev pub is_numbered : StoredEvent → Bool
is_numbered e = ltb 0 e.seq

events_of_stored-numbered :
    (es : List StoredEvent)
    → all is_numbered es ≡ true
    → events_of_stored (filter is_numbered es) ≡ map (λ e. e.event) es
events_of_stored-numbered [] h = refl
events_of_stored-numbered (e ∷ es) h = ground (arith, events_of_stored-numbered es)

resume-result :
    (fuel : ℕ) (env : Environment) (id : Value) (w : World) (k : Text) (q : Snapshot)
    (es : List StoredEvent) (r : RunResult)
    → validate_run_id id ≡ some k
    → get k w.store.runs ≡ some q
    → q.run_id ≡ k
    → get k w.store.events ≡ some es
    → all is_numbered es ≡ true
    → IsHalted q.status
    → (resume fuel env id w).0 ≡ returned r
    → (q.status ≡ RunStatus.completed)
      × (q.final_message ≡ some r.final_message)
      × (r.messages ≡ q.history)
      × (r.steps ≡ q.step)
      × (r.run_id ≡ k)
      × (r.events ≡ map (λ e. e.event) es)
unfolding resume resume_at result_of driving enter_drive leave_drive on_store load events_of
    Runs.stored_events
resume-result fuel env id w k q es r valid known same logged numbered halted given =
    let found : r.events ≡ events_of_stored (filter is_numbered es) = ground arith in
    (
      ground arith,
      ground arith,
      ground arith,
      ground arith,
      ground arith,
      found ∙ events_of_stored-numbered es numbered,
    )

resume-raised :
    (fuel : ℕ) (env : Environment) (id : Value) (w : World) (k : Text) (q : Snapshot)
    (es : List StoredEvent) (e : RunError)
    → validate_run_id id ≡ some k
    → get k w.store.runs ≡ some q
    → q.run_id ≡ k
    → get k w.store.events ≡ some es
    → IsHalted q.status
    → (resume fuel env id w).0 ≡ raised e
    → HasNoResult k q w
unfolding resume resume_at result_of driving enter_drive leave_drive on_store load events_of
    Runs.stored_events
resume-raised fuel env id w k q es e valid known same logged halted given = elim halted [
  | inr h ↦ inr (inr (inl (λ c. ground arith)))
  | inl done ↦ elim (Bool-cases (is_active k w.active_runs)) [
    | inl driven ↦ inl driven
    | inr idle ↦ elim (Bool-cases w.store.closed) [
      | inl shut ↦ inr (inl shut)
      | inr unlocked ↦ elim (Option-cases q.final_message) [
        | inl unsaid ↦ inr (inr (inr unsaid))
        | inr (m, final) ↦ ground arith
      ]
    ]
  ]
]

-- Resuming a stored run that is completed or cancelled, or of which an effect is unknown, writes
-- nothing, asks the model nothing and calls no handler, whether it returns or raises. Where the run
-- is stored under its own identifier with a log of events numbered from 1 on, it returns the final
-- message, the history, the steps, the identifier and all the logged events of the run, unless the
-- run is being driven, is not completed or has no final message, or the store is closed.
pub resume-halted :
    (fuel : ℕ) (env : Environment) (id : Value) (w : World) (k : Text) (q : Snapshot)
    (es : List StoredEvent)
    → validate_run_id id ≡ some k
    → get k w.store.runs ≡ some q
    → q.run_id ≡ k
    → get k w.store.events ≡ some es
    → all is_numbered es ≡ true
    → IsHalted q.status
    → ((resume fuel env id w).1.store ≡ w.store)
      × ((resume fuel env id w).1.invocations ≡ w.invocations)
      × ((resume fuel env id w).1.model_calls ≡ w.model_calls)
      × (HasNoResult k q w
          ⊎ ((r : RunResult) × ((resume fuel env id w).0 ≡ returned r)
              × (q.status ≡ RunStatus.completed)
              × (q.final_message ≡ some r.final_message)
              × (r.messages ≡ q.history)
              × (r.steps ≡ q.step)
              × (r.run_id ≡ k)
              × (r.events ≡ map (λ e. e.event) es)))
unfolding resume resume_at result_of driving enter_drive leave_drive on_store load events_of
    Runs.stored_events
resume-halted fuel env id w k q es valid known same logged numbered halted = (
  ground arith,
  ground arith,
  ground arith,
  elim (Outcome-cases (resume fuel env id w).0) [
    | inl (r, p) ↦
        let (c, m, h, n, i, l) =
          resume-result fuel env id w k q es r valid known same logged numbered halted p in
        inr (r, p, c, m, h, n, i, l)
    | inr (e, p) ↦ inl (resume-raised fuel env id w k q es e valid known same logged halted p)
  ],
)
