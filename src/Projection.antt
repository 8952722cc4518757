-- ===== src/Projection.antt =====
-- The public views of packages/sasori-core/src/sasori_core/projection.py.
pub mod Views
use sasori.Base.{
  ℕ, Bool, true, false, not, ◌&&◌, ◌||◌, Option, none, some, List, [], ◌∷◌, map, ◌==◌, find?, last?,
  take, length, nat_beq, if◌then◌else◌,
}
use sasori.Base.Comp.{
  Comp, Outcome, returned, raised, pure, raise, gets, or_raise, modify, raise_if, ◌>>=◌, ◌>>◌,
}
use sasori.Text.{Text, codes, text_eq}
use sasori.Json.{Value}
use sasori.Json.Copies.{plain}
use sasori.Contracts.Types.{
  Message, Snapshot, CallRecord, CallStatus, RunStatus, StoredEvent, Effect,
}
use sasori.Contracts.Ids.{validate_run_id}
use sasori.Json.{string, mapping}
use sasori.Store.State.{StoreComp, value_error, load}
use sasori.Store.Runs.{stored_events, list_runs}
use sasori.Store.Calls.{calls_of}

-- The values of `_EXTERNAL_STATES`, and its default.
pub data ExternalState : Type 0 where
  running paused completed failed cancelled : ExternalState

unfoldable pub external_state : RunStatus → ExternalState
external_state RunStatus.awaiting_approval = ExternalState.paused
external_state RunStatus.paused_recovery = ExternalState.paused
external_state RunStatus.effect_unknown = ExternalState.paused
external_state RunStatus.awaiting_resume = ExternalState.paused
external_state RunStatus.completed = ExternalState.completed
external_state RunStatus.failed = ExternalState.failed
external_state RunStatus.cancelled = ExternalState.cancelled
external_state _ = ExternalState.running

-- The values of `_PAUSE_REASONS`.
pub data PauseReason : Type 0 where
  approval_required retryable_idempotent effect_unknown resume_required : PauseReason

unfoldable pub pause_reason : RunStatus → Option PauseReason
pause_reason RunStatus.awaiting_approval = some PauseReason.approval_required
pause_reason RunStatus.paused_recovery = some PauseReason.retryable_idempotent
pause_reason RunStatus.effect_unknown = some PauseReason.effect_unknown
pause_reason RunStatus.awaiting_resume = some PauseReason.resume_required
pause_reason _ = none

pub record EventView : Type 0 where
  pub seq : ℕ
  pub stored : StoredEvent
  pub fields : Value

-- `event_projection`: the fields of the event as they are, and its data in plain form.
unfoldable pub event_projection : StoredEvent → EventView
event_projection e = record { seq = e.seq; stored = e; fields = plain (mapping e.event.fields) }

pub record PendingView : Type 0 where
  pub fingerprint : Text
  pub call_id : Option Text
  pub tool_name : Option Text
  pub arguments : Value
  pub effect : Effect
  pub idempotency_key : Option Text
  pub tool_revision : Text
  pub status : CallStatus

pub record RunView : Type 0 where
  pub run_id : Text
  pub app_id : Option Text
  pub input : Text
  pub state : ExternalState
  pub pause_reason : Option PauseReason
  pub detail : RunStatus
  pub step : ℕ
  pub revision : ℕ
  pub generation : ℕ
  pub latest_seq : ℕ
  pub final_message : Option (Text × Text)
  pub pending : Option PendingView

abbrev pub is_unresolved : CallRecord → Bool
is_unresolved c = elim c.status [ CallStatus.result ↦ false | _ ↦ true ]

abbrev pub is_unknown_call : CallRecord → Bool
is_unknown_call c = elim c.status [ CallStatus.effect_unknown ↦ true | _ ↦ false ]

abbrev pub is_cancelled : RunStatus → Bool
is_cancelled RunStatus.cancelled = true
is_cancelled _ = false

abbrev is_paused : Option PauseReason → Bool
is_paused none = false
is_paused (some r) = true

-- The call that a view shows, from the calls of the run's step.
unfoldable pub shown_call : RunStatus → List CallRecord → Option CallRecord
unfolding pause_reason
shown_call status calls =
    if is_paused (pause_reason status) || is_cancelled status
    then elim (find? is_unresolved calls) [
      | none ↦ none
      | some c ↦ if is_cancelled status && not (is_unknown_call c) then none else some c
    ]
    else none

unfoldable pub shown_reason : RunStatus → Option CallRecord → Option PauseReason
unfolding pause_reason
shown_reason status none = pause_reason status
shown_reason status (some c) =
    if is_cancelled status then some PauseReason.effect_unknown else pause_reason status

abbrev pending_view : CallRecord → PendingView
pending_view c = record {
  fingerprint = c.fingerprint;
  call_id = c.call_id;
  tool_name = c.name;
  arguments = plain c.arguments;
  effect = c.effect;
  idempotency_key = c.idempotency_key;
  tool_revision = c.tool_revision;
  status = c.status;
}

abbrev is_user : Message → Bool
is_user m = m.role == codes "user"

abbrev content_of : Option Message → Text
content_of none = []
content_of (some m) = m.content

abbrev seq_of : Option StoredEvent → ℕ
seq_of none = 0
seq_of (some e) = e.seq

unfoldable pub view_of : Text → Snapshot → List StoredEvent → Option CallRecord → RunView
unfolding external_state shown_reason
view_of run_id snapshot stored call = record {
  run_id = run_id;
  app_id = snapshot.app_id;
  input = content_of (find? is_user snapshot.history);
  state = external_state snapshot.status;
  pause_reason = shown_reason snapshot.status call;
  detail = snapshot.status;
  step = snapshot.step;
  revision = snapshot.revision;
  generation = snapshot.generation;
  latest_seq = seq_of (last? stored);
  final_message = elim snapshot.final_message [ none ↦ none | some m ↦ some (m.role, m.content) ];
  pending = elim call [ none ↦ none | some c ↦ some (pending_view c) ];
}

-- `store.calls` is read only where a call may be shown.
abbrev shown_calls : Text → Snapshot → StoreComp (List CallRecord)
shown_calls run_id snapshot =
    if is_paused (pause_reason snapshot.status) || is_cancelled snapshot.status
    then calls_of run_id snapshot.step
    else pure []

-- `run_projection`
unfoldable pub run_projection : Value → StoreComp RunView
unfolding view_of shown_call
run_projection id = do
  run_id ← or_raise value_error (validate_run_id id)
  snapshot ← load run_id
  stored ← stored_events run_id 0
  calls ← shown_calls run_id snapshot
  pure (view_of run_id snapshot stored (shown_call snapshot.status calls))

pub record RunItem : Type 0 where
  pub cursor : ℕ
  pub view : RunView
  pub input_preview : Text
  pub final_preview : Option Text

abbrev item_of : ℕ → Snapshot → RunView → RunItem
item_of row snapshot view = record {
  cursor = row;
  view = view;
  input_preview = take 160 view.input;
  final_preview = elim snapshot.final_message [ none ↦ none | some m ↦ some (take 160 m.content) ];
}

unfoldable pub items_of : List (ℕ × Snapshot) → StoreComp (List RunItem)
items_of [] = pure []
items_of ((row, snapshot) ∷ rows) = do
  view ← run_projection (string snapshot.run_id)
  items ← items_of rows
  pure (item_of row snapshot view ∷ items)

abbrev row_of : Option (ℕ × Snapshot) → Option ℕ
row_of none = none
row_of (some (row, snapshot)) = some row

-- `run_list_projection`: the items, and the cursor of the next page if this one is full.
unfoldable pub run_list_projection :
    ℕ → Option ℕ → Option Text → StoreComp (List RunItem × Option ℕ)
unfolding items_of
run_list_projection limit before app_id = do
  rows ← list_runs limit before app_id
  items ← items_of rows
  pure (items, if nat_beq (length rows) limit then row_of (last? rows) else none)
