-- ===== src/Store/Approvals.antt =====
-- The methods of `EphemeralRunStore` on approvals, of
-- packages/sasori-core/src/sasori_core/store.py.
use sasori.Base.{
  ℕ, Bool, true, false, not, Option, none, some, List, [], ◌∷◌, ltb, ◌==◌, pair_eq, nat_eq,
  if◌then◌else◌, length,
}
use sasori.Base.Comp.{pure, raise, gets, or_raise, modify, raise_if, ◌>>=◌, ◌>>◌}
use sasori.Text.{Text, text_eq}
use sasori.Dict.{Dict, get, put, contains}
use sasori.Contracts.Types.{Event, Snapshot, CallRecord, CallStatus, RunStatus}
use sasori.Store.State.{
  StoreComp, concurrent_run, approval_mismatch, approval_conflict, key_error, index_error,
  fingerprint_exists, ensure_open, commit, load,
}
use sasori.Store.Calls.{write_call}

-- `items[call.ordinal] = replace(call, status="awaiting_approval")`, after what came before it.
abbrev pub mark_awaiting : CallRecord → Snapshot → StoreComp Snapshot
mark_awaiting call durable = do
  items ← (λ s. or_raise key_error (get (call.run_id, call.step) s.calls) s)
  raise_if (not (ltb call.ordinal (length items))) index_error
  modify (write_call call (record call { status = CallStatus.awaiting_approval }))
  pure durable

unfoldable pub request_approval : Snapshot → Snapshot → CallRecord → Event → StoreComp Snapshot
request_approval current updated call event = do
  (λ s. raise_if (contains call.fingerprint s.approvals) (concurrent_run fingerprint_exists) s)
  durable ← commit current updated (event ∷ [])
  modify (λ s. record s { approvals = put call.fingerprint none s.approvals })
  modify (λ s. record s { approval_runs = put call.fingerprint call.run_id s.approval_runs })
  mark_awaiting call durable

abbrev pub decision : Option (Option Bool) → Option Bool
decision none = none
decision (some d) = d

unfoldable pub approval : Text → StoreComp (Option Bool)
approval fingerprint = do ensure_open; gets (λ s. decision (get fingerprint s.approvals))

-- The first call of the fingerprint gets the status; `none` where there is no such call.
unfoldable pub resolve_items : Text → CallStatus → List CallRecord → Option (List CallRecord)
resolve_items fingerprint status [] = none
resolve_items fingerprint status (c ∷ cs) =
    if c.fingerprint == fingerprint
    then some (record c { status = status } ∷ cs)
    else elim (resolve_items fingerprint status cs) [ none ↦ none | some ds ↦ some (c ∷ ds) ]

abbrev keep_entry :
    Text × ℕ
    → List CallRecord
    → Option (Dict (Text × ℕ) (List CallRecord))
    → Option (Dict (Text × ℕ) (List CallRecord))
keep_entry key items none = none
keep_entry key items (some d) = some ((key, items) ∷ d)

abbrev replace_entry :
    Text × ℕ
    → Dict (Text × ℕ) (List CallRecord)
    → Option (Dict (Text × ℕ) (List CallRecord))
    → Option (List CallRecord)
    → Option (Dict (Text × ℕ) (List CallRecord))
replace_entry key d rest none = rest
replace_entry key d rest (some items) = some ((key, items) ∷ d)

unfoldable pub resolve_calls :
    Text
    → Text
    → CallStatus
    → Dict (Text × ℕ) (List CallRecord)
    → Option (Dict (Text × ℕ) (List CallRecord))
unfolding resolve_items
resolve_calls run_id fingerprint status [] = none
resolve_calls run_id fingerprint status ((key, items) ∷ d) =
    let rest = keep_entry key items (resolve_calls run_id fingerprint status d) in
    if key.0 == run_id
    then replace_entry key d rest (resolve_items fingerprint status items)
    else rest

abbrev pub resolved_status : Bool → CallStatus
resolved_status approved = if approved then CallStatus.approved else CallStatus.denied

abbrev pub is_run : Text → Option Text → Bool
is_run run_id none = false
is_run run_id (some r) = r == run_id

abbrev pub same_bool : Bool → Bool → Bool
same_bool true b = b
same_bool false b = not b

-- The loop that marks the resolved call, and the error where no call has the fingerprint.
abbrev pub mark_resolved : Snapshot → Text → Text → Bool → StoreComp (Snapshot × Bool)
mark_resolved durable run_id fingerprint approved = do
  calls ← (λ s.
      or_raise approval_mismatch
        (resolve_calls run_id fingerprint (resolved_status approved) s.calls) s)
  modify (λ s. record s { calls = calls })
  pure (durable, true)

-- The rest of `resolve_approval` once the decision on record is known.
unfoldable pub settle :
    Snapshot → Text → Text → Bool → Event → Option Bool → StoreComp (Snapshot × Bool)
settle current run_id fingerprint approved event (some d) =
    if same_bool d approved then pure (current, false) else raise approval_conflict
settle current run_id fingerprint approved event none = do
  durable ← commit current (record current { status = RunStatus.awaiting_resume }) (event ∷ [])
  modify (λ s. record s { approvals = put fingerprint (some approved) s.approvals })
  mark_resolved durable run_id fingerprint approved

abbrev pub resolve_loaded : Text → Text → Bool → Event → Snapshot → StoreComp (Snapshot × Bool)
resolve_loaded run_id fingerprint approved event current = do
  (λ s. raise_if (not (is_run run_id (get fingerprint s.approval_runs))) approval_mismatch s)
  d ← (λ s. or_raise key_error (get fingerprint s.approvals) s)
  settle current run_id fingerprint approved event d

unfoldable pub resolve_approval : Text → Text → Bool → Event → StoreComp (Snapshot × Bool)
resolve_approval run_id fingerprint approved event = do
  current ← load run_id
  resolve_loaded run_id fingerprint approved event current
