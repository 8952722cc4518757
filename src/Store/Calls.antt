-- ===== src/Store/Calls.antt =====
-- The methods of `EphemeralRunStore` on tool calls, of
-- packages/sasori-core/src/sasori_core/store.py: `accept_reply`, `calls` and `update_call`.
use sasori.Base.{
  ℕ, Bool, false, not, ◌||◌, Option, none, some, List, [], ◌∷◌, ◌++◌, ◌==◌, pair_eq, nat_eq,
  if◌then◌else◌, get_elem?, set,
}
use sasori.Base.Comp.{pure, gets, modify, raise_if, ◌>>=◌, ◌>>◌}
use sasori.Text.{Text, text_eq}
use sasori.Dict.{Dict, get, put}
use sasori.Contracts.Types.{Message, ModelReply, Event, Snapshot, CallRecord, CallStatus}
use sasori.Contracts.Equality.{call_beq}
use sasori.Store.State.{
  Store, StoreComp, concurrent_run, duplicate_call_id, call_changed, or_empty, commit, load,
}

-- `call.call_id is not None and call.call_id in ids`
abbrev pub id_in : Option Text → List (Option Text) → Bool
id_in none ids = false
id_in (some i) [] = false
id_in (some i) (none ∷ ids) = id_in (some i) ids
id_in (some i) (some j ∷ ids) = i == j || id_in (some i) ids

abbrev pub call_ids : List CallRecord → List (Option Text)
call_ids [] = []
call_ids (c ∷ cs) = c.call_id ∷ call_ids cs

-- The call identifiers stored for a run, of every step.
unfoldable pub existing_ids : Text → Dict (Text × ℕ) (List CallRecord) → List (Option Text)
existing_ids run_id [] = []
existing_ids run_id ((key, items) ∷ d) =
    let rest = existing_ids run_id d in if key.0 == run_id then call_ids items ++ rest else rest

-- The loop that looks for a repeated identifier; `ids` are the existing and the supplied ones.
unfoldable pub has_duplicate : List (Option Text) → List CallRecord → Bool
has_duplicate ids [] = false
has_duplicate ids (c ∷ cs) = id_in c.call_id ids || has_duplicate (c.call_id ∷ ids) cs

unfoldable pub accept_reply :
    Snapshot → Snapshot → ModelReply → List CallRecord → List Event → StoreComp Snapshot
accept_reply current updated reply calls events = do
  (λ s. raise_if (has_duplicate (existing_ids current.run_id s.calls) calls) duplicate_call_id s)
  durable ← commit current updated events
  modify (λ s. record s { calls = put (current.run_id, updated.step) calls s.calls })
  pure durable

unfoldable pub calls_of : Text → ℕ → StoreComp (List CallRecord)
calls_of run_id step = do _ ← load run_id; gets (λ s. or_empty (get (run_id, step) s.calls))

abbrev pub call_at : CallRecord → Store → Option CallRecord
call_at call s = get_elem? (or_empty (get (call.run_id, call.step) s.calls)) call.ordinal

abbrev pub is_current : CallRecord → Option CallRecord → Bool
is_current call none = false
is_current call (some stored) = call_beq stored call

abbrev pub write_call : CallRecord → CallRecord → Store → Store
write_call call replacement s = record s {
  calls =
      put (call.run_id, call.step)
        (set (or_empty (get (call.run_id, call.step) s.calls)) call.ordinal replacement) s.calls;
}

unfoldable pub update_call :
    Snapshot → Snapshot → CallRecord → CallStatus → List Event → Option Message → StoreComp Snapshot
update_call current updated call status events outcome = do
  (λ s. raise_if (not (is_current call (call_at call s))) (concurrent_run call_changed) s)
  durable ← commit current updated events
  modify (write_call call (record call { status = status; outcome = outcome }))
  pure durable
