-- ===== src/Store/Growth/Methods.antt =====
-- Every method of the store, returning or raising, keeps the invariant and only lets the store grow.
use sasori.Base.{
  ◌≡◌, refl, true, false, Option, some, List, [], arith, is_some, pair_eq, nat_eq, Bool-cases, inl,
  inr,
}
use sasori.Base.Comp.{Outcome, returned, raised, ◌>>=◌, continue}
use mathlib.Core.Path.{subst}
use sasori.Text.{Text, text_eq}
use sasori.Dict.{get, put}
use sasori.Contracts.Types.{Event, Snapshot, CallRecord, CallStatus, Message, ModelReply}
use mathlib.Core.List.{append-nil}
use sasori.Store.State.{Store, StoreError, StoreComp, bumped, commit, load, close}
use sasori.Store.Runs.{start}
use sasori.Store.Calls.{
  accept_reply, update_call, has_duplicate, existing_ids, is_current, call_at, write_call,
}
use sasori.Store.Growth.{Extends, Extends-refl, Extends-trans}
use sasori.Store.Growth.Pieces.{committed, committed-IsConsistent, committed-Grown}
use sasori.Store.Growth.Writes.{calls-Extends, started, started-IsConsistent, started-Grown}

-- What a commit has done, by how it ended.
abbrev pub Commits :
    Snapshot → Snapshot → List Event → Store → Outcome StoreError Snapshot × Store → Type 0
Commits c u es s (raised e, t) = t ≡ s
Commits c u es s (returned d, t) =
    (d ≡ bumped c u)
    × (t ≡ committed c u es s)
    × ((actual : Snapshot) × (get c.run_id s.runs ≡ some actual) × (actual.revision ≡ c.revision))

pub commit-Commits :
    (c u : Snapshot) (es : List Event) (s : Store) → Commits c u es s (commit c u es s)
unfolding commit
commit-Commits c u es s = ground arith

pub commit-Extends : (c u : Snapshot) (es : List Event) (s : Store) → Extends s (commit c u es s).1
commit-Extends c u es s = go (commit c u es s) (commit-Commits c u es s)
  where
    go : (p : Outcome StoreError Snapshot × Store) → Commits c u es s p → Extends s p.1
    go (raised e, t) h = rw h (Extends-refl s)
    go (returned d, t) (d_eq, t_eq, (a, known, same)) =
        rw t_eq
          (λ k. (committed-IsConsistent c u a es s known k, committed-Grown c u a es s known same))

-- A method that goes on after another: the rest may use how the first one ended.
pub Extends-bind :
    {A B : Type 0} (m : StoreComp A) (f : A → StoreComp B) (s : Store)
    → Extends s (m s).1
    → ((a : A) (t : Store) → m s ≡ (returned a, t) → Extends t (f a t).1)
    → Extends s ((m >>= f) s).1
Extends-bind {A} {B} m f s first rest = go (m s) first rest
  where
    go :
        (p : Outcome StoreError A × Store)
        → Extends s p.1
        → ((a : A) (t : Store) → p ≡ (returned a, t) → Extends t (f a t).1)
        → Extends s (continue p f).1
    go (returned a, t) g h = Extends-trans s t (f a t).1 g (h a t refl)
    go (raised x, t) g h = g

-- The store after a commit that returned.
pub commit_returned :
    (c u d : Snapshot) (es : List Event) (s t : Store)
    → commit c u es s ≡ (returned d, t)
    → t ≡ committed c u es s
commit_returned c u d es s t e = (subst (Commits c u es s) e (commit-Commits c u es s)).1

pub load_same : (k : Text) (s : Store) → (load k s).1 ≡ s
unfolding load
load_same k s = ground arith

pub start-Extends :
    (k : Text) (ms : List Message) (e : Event) (a : Option Text) (s : Store)
    → Extends s (start k ms e a s).1
unfolding start
start-Extends k ms e a s = elim (Bool-cases s.closed) [
  | inl p ↦ rw (start_closed p) (Extends-refl s)
  | inr p ↦ elim (Bool-cases (is_some (get k s.runs))) [
    | inl q ↦ rw (start_exists p q) (Extends-refl s)
    | inr q ↦
        rw (start_new p q)
          (λ c. (started-IsConsistent k ms e a s q c, started-Grown k ms e a s q c))
  ]
]
  where
    start_closed : s.closed ≡ true → (start k ms e a s).1 ≡ s
    start_closed p = ground arith

    start_exists : s.closed ≡ false → is_some (get k s.runs) ≡ true → (start k ms e a s).1 ≡ s
    start_exists p q = ground arith

    start_new :
        s.closed ≡ false
        → is_some (get k s.runs) ≡ false
        → (start k ms e a s).1 ≡ started k ms e a s
    start_new p q = ground arith

pub accept_reply-Extends :
    (c u : Snapshot) (r : ModelReply) (cs : List CallRecord) (es : List Event) (s : Store)
    → Extends s (accept_reply c u r cs es s).1
unfolding accept_reply
accept_reply-Extends c u r cs es s =
    elim (Bool-cases (has_duplicate (existing_ids c.run_id s.calls) cs)) [
      | inl e ↦ rw e (Extends-refl s)
      | inr e ↦ rw e (
          Extends-bind (commit c u es) _ s (commit-Extends c u es s)
            (λ d t _. calls-Extends t (put (c.run_id, u.step) cs t.calls)))
    ]

pub update_call-Extends :
    (c u : Snapshot) (call : CallRecord) (st : CallStatus) (es : List Event) (o : Option Message)
    (s : Store)
    → Extends s (update_call c u call st es o s).1
unfolding update_call
update_call-Extends c u call st es o s = elim (Bool-cases (is_current call (call_at call s))) [
  | inl e ↦ rw e (
      Extends-bind (commit c u es) _ s (commit-Extends c u es s) (λ d t _.
        calls-Extends t (write_call call (record call { status = st; outcome = o }) t).calls))
  | inr e ↦ rw e (Extends-refl s)
]

-- Closing a store writes nothing else.
pub close-Extends : (s : Store) → Extends s (close s).1
unfolding close
close-Extends s c = (
  record {
    known_log = c.known_log;
    known_row = c.known_row;
    known_approval = c.known_approval;
    gapless = c.gapless;
    rows_below = c.rows_below;
    rows_differ = c.rows_differ;
  },
  record {
    logs = λ k es h. ([], rw append-nil h);
    revisions = λ k r h. (r, h, omega arith);
    decisions = λ f b h. h;
    rows = λ k n h. h;
  },
)
