-- ===== src/Projection/Views.antt =====
-- What the public view of a run says, for every run that the store holds
-- (packages/sasori-core/src/sasori_core/projection.py).
use sasori.Base.{
  ◌≡◌, not, ◌||◌, ◌↔◌, Bool, true, none, some, List, [], ◌∷◌, arith, is_some, find?, ◌⊎◌, inl, inr,
  Option-cases,
}
use sasori.Text.{Text}
use sasori.Contracts.Types.{CallRecord, CallStatus, RunStatus, Snapshot, StoredEvent}
use sasori.Projection.{
  ExternalState, external_state, pause_reason, is_cancelled, shown_call, shown_reason,
  is_unresolved, is_unknown_call, view_of,
}

shown_reason-cases :
    (s : RunStatus) (cs : List CallRecord) (c : CallRecord)
    → find? is_unresolved cs ≡ some c
    → (is_some (shown_reason s (shown_call s cs)) ≡ true) ↔ (
        (external_state s ≡ ExternalState.paused)
        ⊎ ((external_state s ≡ ExternalState.cancelled) × (c.status ≡ CallStatus.effect_unknown)))
unfolding external_state pause_reason shown_call shown_reason
shown_reason-cases s cs c q = ground arith

shown_reason-none :
    (s : RunStatus) (cs : List CallRecord)
    → find? is_unresolved cs ≡ none
    → (is_some (shown_reason s (shown_call s cs)) ≡ true)
      ↔ (external_state s ≡ ExternalState.paused)
unfolding external_state pause_reason shown_call shown_reason
shown_reason-none s cs q = ground arith

shown_reason_iff :
    (s : RunStatus) (cs : List CallRecord)
    → (is_some (shown_reason s (shown_call s cs)) ≡ true) ↔ (
        (external_state s ≡ ExternalState.paused)
        ⊎ ((external_state s ≡ ExternalState.cancelled)
            × ((c : CallRecord) × (find? is_unresolved cs ≡ some c)
                × (c.status ≡ CallStatus.effect_unknown))))
shown_reason_iff s cs = elim (Option-cases (find? is_unresolved cs)) [
  | inl q ↦ (
    λ h. inl ((shown_reason-none s cs q).0 h),
    λ h. elim h [ inl p ↦ (shown_reason-none s cs q).1 p | inr (z, (c, f, u)) ↦ ground arith ],
  )
  | inr (c, q) ↦ (
    λ h. elim ((shown_reason-cases s cs c q).0 h) [
      | inl p ↦ inl p
      | inr (z, u) ↦ inr (z, (c, q, u))
    ],
    λ h. elim h [
      | inl p ↦ (shown_reason-cases s cs c q).1 (inl p)
      | inr (z, (d, f, u)) ↦ (shown_reason-cases s cs d f).1 (inr (z, u))
    ],
  )
]

-- The view of a run gives a reason exactly where it shows the run as paused, or as cancelled while
-- the first call without a result has an unknown effect.
pub view_of-reason_iff :
    (run_id : Text) (snapshot : Snapshot) (stored : List StoredEvent) (cs : List CallRecord)
    → (is_some (view_of run_id snapshot stored (shown_call snapshot.status cs)).pause_reason ≡ true)
      ↔ (((view_of run_id snapshot stored (shown_call snapshot.status cs)).state
            ≡ ExternalState.paused)
          ⊎ (((view_of run_id snapshot stored (shown_call snapshot.status cs)).state
                ≡ ExternalState.cancelled)
              × ((c : CallRecord) × (find? is_unresolved cs ≡ some c)
                  × (c.status ≡ CallStatus.effect_unknown))))
unfolding view_of
view_of-reason_iff run_id snapshot stored cs = shown_reason_iff snapshot.status cs

find?-holds :
    (p : CallRecord → Bool) (cs : List CallRecord) (c : CallRecord)
    → find? p cs ≡ some c
    → p c ≡ true
find?-holds p [] c h = ground arith
find?-holds p (d ∷ cs) c h = ground (arith, find?-holds p cs c)

-- A call that a view shows has no result yet, the view gives a reason for it, and in a cancelled run
-- its effect is unknown.
pub shown_call_lem :
    (s : RunStatus) (cs : List CallRecord) (c : CallRecord)
    → shown_call s cs ≡ some c
    → (is_unresolved c ≡ true)
      × (is_some (shown_reason s (some c)) ≡ true)
      × ((not (is_cancelled s) || is_unknown_call c) ≡ true)
unfolding shown_call shown_reason pause_reason external_state
shown_call_lem s cs c h =
    (ground (arith, find?-holds is_unresolved cs c), ground arith, ground arith)
