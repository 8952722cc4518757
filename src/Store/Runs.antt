-- ===== src/Store/Runs.antt =====
-- The methods of `EphemeralRunStore` on runs and their events, of
-- packages/sasori-core/src/sasori_core/store.py.
use sasori.Base.{
  ℕ, ◌+◌, Bool, true, false, not, ◌&&◌, Option, none, some, List, [], ◌∷◌, map, ltb, leb, ◌==◌,
  pair_eq, nat_eq, if◌then◌else◌, length, take, filter,
}
use sasori.Base.Comp.{pure, or_raise, modify, raise_if, ◌>>=◌, ◌>>◌}
use sasori.Text.{Text, text_eq}
use sasori.Dict.{Dict, get, put, contains}
use sasori.Contracts.Types.{Message, Event, StoredEvent, Snapshot, RunStatus}
use sasori.Store.State.{
  StoreComp, run_already_exists, value_error, key_error, ensure_open, commit, append_events, load,
}

abbrev pub fresh : Text → List Message → Option Text → Snapshot
fresh run_id messages app_id = record {
  run_id = run_id;
  revision = 1;
  generation = 1;
  status = RunStatus.ready_model;
  step = 0;
  history = messages;
  accepted_reply = none;
  final_message = none;
  app_id = app_id;
}

unfoldable pub start : Text → List Message → Event → Option Text → StoreComp Snapshot
start run_id messages event app_id = do
  ensure_open
  (λ s. raise_if (contains run_id s.runs) (run_already_exists run_id) s)
  modify (λ s. record s { runs = put run_id (fresh run_id messages app_id) s.runs })
  modify (λ s. record s { run_rows = put run_id s.next_row s.run_rows })
  modify (λ s. record s { next_row = s.next_row + 1 })
  modify (λ s. record s { events = put run_id [] s.events })
  modify (append_events run_id (event ∷ []))
  pure (fresh run_id messages app_id)

unfoldable pub transition : Snapshot → Snapshot → List Event → StoreComp Snapshot
transition current updated events = commit current updated events

unfoldable pub stored_events : Text → ℕ → StoreComp (List StoredEvent)
stored_events run_id after_seq = do
  _ ← load run_id
  items ← (λ s. or_raise key_error (get run_id s.events) s)
  pure (filter (λ item. ltb after_seq item.seq) items)

abbrev pub events_of_stored : List StoredEvent → List Event
events_of_stored = map (λ item. item.event)

unfoldable pub events_of : Text → StoreComp (List Event)
events_of run_id = do items ← stored_events run_id 0; pure (events_of_stored items)

-- `counts`: the events and the checkpoints of a run.
unfoldable pub counts : Text → StoreComp (ℕ × ℕ)
counts run_id = do
  _ ← load run_id
  items ← (λ s. or_raise key_error (get run_id s.events) s)
  snapshot ← (λ s. or_raise key_error (get run_id s.runs) s)
  pure (length items, snapshot.generation)

-- The candidate rows of `list_runs`, in the order of `_run_rows`; a run that is not in `_runs`
-- raises `KeyError`.
abbrev pub below : Option ℕ → ℕ → Bool
below none row = true
below (some before) row = ltb row before

abbrev pub of_app : Option Text → Option Text → Bool
of_app none app_id = true
of_app (some wanted) none = false
of_app (some wanted) (some app_id) = app_id == wanted

abbrev pub is_listed : Option ℕ → Option Text → ℕ × Snapshot → Bool
is_listed before app_id r = below before r.0 && of_app app_id r.1.app_id

unfoldable pub candidate_rows :
    Option ℕ → Option Text → Dict Text ℕ → Dict Text Snapshot → Option (List (ℕ × Snapshot))
candidate_rows before app_id [] runs = some []
candidate_rows before app_id ((run_id, row) ∷ d) runs = elim (get run_id runs) [
  | none ↦ none
  | some snapshot ↦ elim (candidate_rows before app_id d runs) [
    | none ↦ none
    | some rows ↦
        some (if is_listed before app_id (row, snapshot) then (row, snapshot) ∷ rows else rows)
  ]
]

-- `rows.sort(key=lambda item: item[0], reverse=True)`, as a stable insertion.
unfoldable pub insert_row : ℕ × Snapshot → List (ℕ × Snapshot) → List (ℕ × Snapshot)
insert_row r [] = r ∷ []
insert_row r (q ∷ rows) = if ltb r.0 q.0 then q ∷ insert_row r rows else r ∷ q ∷ rows

unfoldable pub sort_rows : List (ℕ × Snapshot) → List (ℕ × Snapshot)
unfolding insert_row
sort_rows [] = []
sort_rows (r ∷ rows) = insert_row r (sort_rows rows)

abbrev bad_before : Option ℕ → Bool
bad_before none = false
bad_before (some before) = ltb before 1

unfoldable pub list_runs : ℕ → Option ℕ → Option Text → StoreComp (List (ℕ × Snapshot))
unfolding sort_rows
list_runs limit before app_id = do
  ensure_open
  raise_if (not (leb 1 limit && leb limit 100)) value_error
  raise_if (bad_before before) value_error
  rows ← (λ s. or_raise key_error (candidate_rows before app_id s.run_rows s.runs) s)
  pure (take limit (sort_rows rows))
