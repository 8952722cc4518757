-- ===== src/Store/State.antt =====
-- The state of `EphemeralRunStore` and its `_commit`, of
-- packages/sasori-core/src/sasori_core/store.py. A method takes the store and gives back its result,
-- or what it raised, with the store as it was left. Ordinals and limits are naturals by typing.
use sasori.Base.{
  ℕ, ◌+◌, Bool, true, false, not, Option, none, some, List, [], ◌∷◌, ◌++◌, nat_beq, pair_eq, nat_eq,
  length,
}
use sasori.Base.Comp.{Comp, pure, or_raise, modify, raise_if, ◌>>=◌, ◌>>◌}
use sasori.Text.{Text, text_eq}
use sasori.Dict.{Dict, get, put}
use sasori.Contracts.Types.{Event, StoredEvent, Snapshot, CallRecord}

-- What a driver did not expect to have changed, by the message of the `ConcurrentRunError`.
pub data Conflict : Type 0 where
  revision_changed call_changed fingerprint_exists : Conflict

pub data StoreError : Type 0 where
  store_closed : StoreError
  run_not_found run_already_exists : Text → StoreError
  concurrent_run : Conflict → StoreError
  duplicate_call_id approval_mismatch approval_conflict : StoreError
  value_error key_error index_error : StoreError

pub record Store : Type 0 where
  pub closed : Bool
  pub runs : Dict Text Snapshot
  pub run_rows : Dict Text ℕ
  pub next_row : ℕ
  pub events : Dict Text (List StoredEvent)
  pub calls : Dict (Text × ℕ) (List CallRecord)
  pub approvals : Dict Text (Option Bool)
  pub approval_runs : Dict Text Text

abbrev pub StoreComp : Type 0 → Type 0
StoreComp A = Comp Store StoreError A

-- `__init__`
abbrev pub init : Store
init = record {
  closed = false;
  runs = [];
  run_rows = [];
  next_row = 1;
  events = [];
  calls = [];
  approvals = [];
  approval_runs = [];
}

abbrev pub or_empty {ℓ} : {A : Type ℓ} → Option (List A) → List A
or_empty none = []
or_empty (some xs) = xs

unfoldable pub close : StoreComp (Unit {0})
close = modify (λ s. record s { closed = true })

abbrev pub ensure_open : StoreComp (Unit {0})
ensure_open s = raise_if s.closed store_closed s

-- `for event in events: stored.append(StoredEvent(len(stored) + 1, event))`
unfoldable pub numbered : List StoredEvent → List Event → List StoredEvent
numbered stored [] = stored
numbered stored (e ∷ es) =
    numbered (stored ++ record { seq = length stored + 1; event = e } ∷ []) es

abbrev pub append_events : Text → List Event → Store → Store
append_events run_id events s = record s {
  events = put run_id (numbered (or_empty (get run_id s.events)) events) s.events;
}

-- The snapshot that a commit stores.
abbrev pub bumped : Snapshot → Snapshot → Snapshot
bumped current updated = record updated {
  revision = current.revision + 1;
  generation = current.generation + 1;
}

-- `_commit`
unfoldable pub commit : Snapshot → Snapshot → List Event → StoreComp Snapshot
commit current updated events = do
  ensure_open
  actual ← (λ s. or_raise (run_not_found current.run_id) (get current.run_id s.runs) s)
  raise_if (not (nat_beq actual.revision current.revision)) (concurrent_run revision_changed)
  modify (λ s. record s { runs = put current.run_id (bumped current updated) s.runs })
  modify (append_events current.run_id events)
  pure (bumped current updated)

unfoldable pub load : Text → StoreComp Snapshot
load run_id = do ensure_open; (λ s. or_raise (run_not_found run_id) (get run_id s.runs) s)
