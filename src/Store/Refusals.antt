-- ===== src/Store/Refusals.antt =====
-- What a method of `EphemeralRunStore` (packages/sasori-core/src/sasori_core/store.py) leaves behind
-- where it raises, and where it is called again.
use sasori.Base.{
  if◌then◌else◌, ◌≡◌, ◌≢◌, ◌∙◌, ap, ◌⊎◌, Bool-cases, Bool, Option-cases, inl, inr, true, false,
  Option, some, List, arith, is_some,
}
use sasori.Base.Comp.{returned, raised}
use sasori.Text.{Text, text_eq, text_beq_iff}
use sasori.Dict.{get, get-put}
use sasori.Contracts.Types.{Event, Message, ModelReply, Snapshot, CallRecord, CallStatus, RunStatus}
use sasori.Store.State.{Store, StoreError, approval_conflict, commit, load, bumped}
use sasori.Store.Calls.{accept_reply, update_call}
use sasori.Store.Approvals.{same_bool, resolve_approval, settle}

-- Where `accept_reply` raises, it has written nothing.
pub accept_reply-atomic :
    (c u : Snapshot) (r : ModelReply) (cs : List CallRecord) (es : List Event) (s : Store)
    (e : StoreError)
    → (accept_reply c u r cs es s).0 ≡ raised e
    → (accept_reply c u r cs es s).1 ≡ s
unfolding accept_reply commit
accept_reply-atomic c u r cs es s e h = ground arith

-- Where `update_call` raises, it has written nothing.
pub update_call-atomic :
    (c u : Snapshot) (call : CallRecord) (st : CallStatus) (es : List Event) (o : Option Message)
    (s : Store) (e : StoreError)
    → (update_call c u call st es o s).0 ≡ raised e
    → (update_call c u call st es o s).1 ≡ s
unfolding update_call commit
update_call-atomic c u call st es o s e h = ground arith

-- The state in which a decision is on record.
abbrev pub IsDecided : Text → Text → Bool → Store → Type 0
IsDecided k f b s =
    (s.closed ≡ false)
    × (is_some (get k s.runs) ≡ true)
    × (get f s.approval_runs ≡ some k)
    × (get f s.approvals ≡ some (some b))

resolve_approval-decided :
    (k f : Text) (b d : Bool) (e : Event) (s : Store)
    → IsDecided k f b s
    → (q : Snapshot) × (get k s.runs ≡ some q)
      × (resolve_approval k f d e s
          ≡ (if same_bool b d then returned (q, false) else raised approval_conflict, s))
unfolding resolve_approval load settle
resolve_approval-decided k f b d e s h =
    let (open_store, known, owner, decided) = h in
    elim (Option-cases (get k s.runs)) [
      | inl none_known ↦ ground arith
      | inr (q, found) ↦ (q, found, ground (arith, text_beq_iff k k))
    ]

same_bool_same : (b d : Bool) → same_bool b d ≡ true → d ≡ b
same_bool_same b d h = ground arith

same_bool_other : (b d : Bool) → same_bool b d ≡ false → d ≢ b
same_bool_other true d h = λ e. ground arith
same_bool_other false d h = λ e. ground arith

-- Where `resolve_approval` returns, the decision it was given is on record for the run.
pub resolve_approval-IsDecided :
    (k f : Text) (b c : Bool) (e : Event) (s : Store) (q : Snapshot)
    → (resolve_approval k f b e s).0 ≡ returned (q, c)
    → IsDecided k f b (resolve_approval k f b e s).1
unfolding resolve_approval load settle commit
resolve_approval-IsDecided k f b c e s q h = (
  ground arith,
  elim (Option-cases (get k s.runs)) [
    | inl absent ↦ ground arith
    | inr (r, found) ↦ ground (
      arith,
      get-put k r.run_id (bumped r (record r { status = RunStatus.awaiting_resume })) s.runs,
    )
  ],
  elim (Option-cases (get f s.approval_runs)) [
    | inl nobody ↦ ground arith
    | inr (j, owner) ↦ ground (arith, text_beq_iff j k)
  ],
  ground (arith, get-put f f (some b) s.approvals, text_beq_iff f f),
)

-- A decision is final: after `resolve_approval` returned for the decision `b`, a second call for the
-- decision `d`, with any event, gives the run on record and says that nothing changed if `d` is `b`,
-- is refused as a conflict if it is not, and writes nothing either way.
pub resolve_approval-again :
    (k f : Text) (b d c : Bool) (e e' : Event) (s : Store) (q : Snapshot)
    → (resolve_approval k f b e s).0 ≡ returned (q, c)
    → ((d ≡ b)
        × ((p : Snapshot) × (get k (resolve_approval k f b e s).1.runs ≡ some p)
            × (resolve_approval k f d e' (resolve_approval k f b e s).1
                ≡ (returned (p, false), (resolve_approval k f b e s).1))))
      ⊎ ((d ≢ b)
          × (resolve_approval k f d e' (resolve_approval k f b e s).1
              ≡ (raised approval_conflict, (resolve_approval k f b e s).1)))
resolve_approval-again k f b d c e e' s q h =
    let t = (resolve_approval k f b e s).1 in
    let (p, found, again) =
      resolve_approval-decided k f b d e' t (resolve_approval-IsDecided k f b c e s q h) in
    elim (Bool-cases (same_bool b d)) [
      | inl same ↦ inl (
        same_bool_same b d same,
        (
          p,
          found,
          again ∙ ap (λ x. (if x then returned (p, false) else raised approval_conflict, t)) same,
        ),
      )
      | inr other ↦ inr (
        same_bool_other b d other,
        again ∙ ap (λ x. (if x then returned (p, false) else raised approval_conflict, t)) other,
      )
    ]
