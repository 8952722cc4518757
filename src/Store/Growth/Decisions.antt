-- ===== src/Store/Growth/Decisions.antt =====
-- The approval methods of the store keep the invariant and only let the store grow.
use sasori.Base.{
  ◌≡◌, Bool, false, Option, none, some, List, [], ◌∷◌, ltb, length, pair_eq, nat_eq, Option-cases,
  Bool-cases, inl, inr,
}
use sasori.Base.Comp.{returned}
use sasori.Text.{Text, text_eq}
use sasori.Dict.{get, contains}
use sasori.Contracts.Types.{Event, Snapshot, CallRecord, CallStatus, RunStatus}
use sasori.Store.State.{Store, commit, load}
use sasori.Store.Calls.{write_call}
use sasori.Store.Approvals.{
  request_approval, resolve_approval, settle, mark_awaiting, mark_resolved, same_bool,
  resolve_calls, resolved_status, resolve_loaded, is_run,
}
use sasori.Store.Growth.{Extends, Extends-refl, Extends-trans}
use sasori.Store.Growth.Writes.{calls-Extends, asked, decided, asked-Extends, decided-Extends}
use sasori.Store.Growth.Methods.{Extends-bind, commit-Extends, commit_returned, load_same}

mark_awaiting-Extends :
    (call : CallRecord) (d : Snapshot) (s : Store) → Extends s (mark_awaiting call d s).1
mark_awaiting-Extends call d s = elim (Option-cases (get (call.run_id, call.step) s.calls)) [
  | inl p ↦ rw p (Extends-refl s)
  | inr (items, p) ↦ elim (Bool-cases (ltb call.ordinal (length items))) [
    | inl q ↦
        rw (p, q)
          (calls-Extends s
            (write_call call (record call { status = CallStatus.awaiting_approval }) s).calls)
    | inr q ↦ rw (p, q) (Extends-refl s)
  ]
]

-- After the commit, `request_approval` writes the approval, and then the call if it is there.
request_writes :
    (c u d : Snapshot) (call : CallRecord) (e : Event) (s t : Store)
    → contains call.fingerprint s.approvals ≡ false
    → commit c u (e ∷ []) s ≡ (returned d, t)
    → Extends t (asked call.fingerprint call.run_id t)
request_writes c u d call e s t absent h =
    asked-Extends call.fingerprint call.run_id t (rw (commit_returned c u d (e ∷ []) s t h) absent)

pub request_approval-Extends :
    (c u : Snapshot) (call : CallRecord) (e : Event) (s : Store)
    → Extends s (request_approval c u call e s).1
unfolding request_approval
request_approval-Extends c u call e s = elim (Bool-cases (contains call.fingerprint s.approvals)) [
  | inl p ↦ rw p (Extends-refl s)
  | inr p ↦ rw p (
      Extends-bind (commit c u (e ∷ [])) _ s (commit-Extends c u (e ∷ []) s)
        (λ d t h. rest d t (request_writes c u d call e s t p h)))
]
  where
    rest :
        (d : Snapshot) (t : Store)
        → Extends t (asked call.fingerprint call.run_id t)
        → Extends t (mark_awaiting call d (asked call.fingerprint call.run_id t)).1
    rest d t g =
        Extends-trans t (asked call.fingerprint call.run_id t)
          (mark_awaiting call d (asked call.fingerprint call.run_id t)).1 g
          (mark_awaiting-Extends call d (asked call.fingerprint call.run_id t))

decided_known :
    (c u d : Snapshot) (f : Text) (b : Bool) (es : List Event) (s t : Store)
    → get f s.approvals ≡ some none
    → commit c u es s ≡ (returned d, t)
    → Extends t (decided f b t)
decided_known c u d f b es s t known h =
    decided-Extends f b t (rw (commit_returned c u d es s t h) known)

settle-Extends :
    (c : Snapshot) (k f : Text) (b : Bool) (e : Event) (d : Option Bool) (s : Store)
    → get f s.approvals ≡ some d
    → Extends s (settle c k f b e d s).1
unfolding settle
settle-Extends c k f b e (some d) s known = elim (Bool-cases (same_bool d b)) [
  | inl p ↦ rw p (Extends-refl s)
  | inr p ↦ rw p (Extends-refl s)
]
settle-Extends c k f b e none s known =
    Extends-bind (commit c (record c { status = RunStatus.awaiting_resume }) (e ∷ [])) _ s
      (commit-Extends c (record c { status = RunStatus.awaiting_resume }) (e ∷ []) s)
      (λ d t h.
        Extends-trans t (decided f b t) (mark_resolved d k f b (decided f b t)).1
          (decided_known c (record c { status = RunStatus.awaiting_resume }) d f b (e ∷ []) s t
            known h)
          (marked d (decided f b t)))
  where
    marked : (d : Snapshot) (t : Store) → Extends t (mark_resolved d k f b t).1
    marked d t = elim (Option-cases (resolve_calls k f (resolved_status b) t.calls)) [
      | inl p ↦ rw (p, mark_resolved) (Extends-refl t)
      | inr (cs, p) ↦ rw (p, mark_resolved) (calls-Extends t cs)
    ]

pub resolve_approval-Extends :
    (k f : Text) (b : Bool) (e : Event) (s : Store) → Extends s (resolve_approval k f b e s).1
unfolding resolve_approval
resolve_approval-Extends k f b e s =
    Extends-bind (load k) _ s (rw load_same (Extends-refl s)) (λ c t _. settled c t)
  where
    settled : (c : Snapshot) (t : Store) → Extends t (resolve_loaded k f b e c t).1
    settled c t = elim (Bool-cases (is_run k (get f t.approval_runs))) [
      | inr p ↦ rw p (Extends-refl t)
      | inl p ↦ elim (Option-cases (get f t.approvals)) [
        | inl q ↦ rw (p, q) (Extends-refl t)
        | inr (d, q) ↦ rw (p, q) (settle-Extends c k f b e d t q)
      ]
    ]
