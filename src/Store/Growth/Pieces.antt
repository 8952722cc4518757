-- ===== src/Store/Growth/Pieces.antt =====
-- The writes of the store's methods, each with what it does to the invariant.
use sasori.Base.{
  ℕ, suc, ◌+◌, ◌≡◌, refl, some, List, [], ◌∷◌, ◌++◌, arith, length, Grows, Grows-refl, Grows-trans,
  Option-cases, Bool-cases, inl, inr,
}
use mathlib.Core.List.{append-nil}
use sasori.Text.{Text, text_eq, text_beq, text_beq_iff}
use sasori.Dict.{get, put, get-put}
use sasori.Contracts.Types.{StoredEvent, Event, Snapshot}
use sasori.Store.State.{Store, numbered, bumped, append_events, or_empty}
use sasori.Store.Growth.{IsNumbered, IsConsistent, Grown}

IsNumbered-snoc :
    (n : ℕ) (es : List StoredEvent) (e : Event)
    → IsNumbered n es
    → IsNumbered n (es ++ record { seq = n + length es + 1; event = e } ∷ [])
IsNumbered-snoc n [] e h = (omega arith, tt)
IsNumbered-snoc n (x ∷ es) e h = (h.0, rw (shift n (length es)) (IsNumbered-snoc (n + 1) es e h.1))
  where
    shift : (n k : ℕ) → n + suc k + 1 ≡ n + 1 + k + 1
    shift n k = omega arith

-- The log with new events is gapless again.
pub numbered-IsNumbered :
    (es : List StoredEvent) (new : List Event) → IsNumbered 0 es → IsNumbered 0 (numbered es new)
unfolding numbered
numbered-IsNumbered es [] h = h
numbered-IsNumbered es (e ∷ new) h =
    numbered-IsNumbered (es ++ record { seq = length es + 1; event = e } ∷ []) new
      (rw (sym-zero (length es)) at (IsNumbered-snoc 0 es e h))
  where
    sym-zero : (k : ℕ) → 0 + k + 1 ≡ k + 1
    sym-zero k = omega arith

pub numbered-Grows : (es : List StoredEvent) (new : List Event) → Grows es (numbered es new)
unfolding numbered
numbered-Grows es [] = Grows-refl es
numbered-Grows es (e ∷ new) =
    let one : StoredEvent = record { seq = length es + 1; event = e } in
    Grows-trans es (es ++ one ∷ []) (numbered (es ++ one ∷ []) new) (one ∷ [], refl)
      (numbered-Grows (es ++ one ∷ []) new)

-- What a commit writes.
abbrev pub committed : Snapshot → Snapshot → List Event → Store → Store
committed current updated events s =
    append_events current.run_id events
      (record s { runs = put current.run_id (bumped current updated) s.runs })

module _ (current updated actual : Snapshot) (events : List Event) (s : Store) where
  pub committed-IsConsistent :
      get current.run_id s.runs ≡ some actual
      → IsConsistent s
      → IsConsistent (committed current updated events s)
  committed-IsConsistent known c = record {
    known_log = λ k. ground (
      arith,
      get-put k current.run_id (bumped current updated) s.runs,
      get-put k current.run_id (numbered (or_empty (get current.run_id s.events)) events) s.events,
      c.known_log k,
    );
    known_row = λ k. ground (
      arith,
      get-put k current.run_id (bumped current updated) s.runs,
      text_beq_iff k current.run_id,
      c.known_row k,
    );
    known_approval = c.known_approval;
    gapless = λ k es h. known_gapless k es h;
    rows_below = c.rows_below;
    rows_differ = c.rows_differ;
  }
    where
      old : IsNumbered 0 (or_empty (get current.run_id s.events))
      old = elim (Option-cases (get current.run_id s.events)) [
        | inl e ↦ rw e tt
        | inr (es, e) ↦ rw e (c.gapless current.run_id es e)
      ]

      known_gapless :
          (k : Text) (es : List StoredEvent)
          → get k (committed current updated events s).events ≡ some es
          → IsNumbered 0 es
      known_gapless k es h = elim (Bool-cases (text_beq k current.run_id)) [
        | inl e ↦ ground (
          arith,
          get-put k current.run_id (numbered (or_empty (get current.run_id s.events)) events)
              s.events,
          numbered-IsNumbered (or_empty (get current.run_id s.events)) events old,
        )
        | inr e ↦ ground (
          arith,
          get-put k current.run_id (numbered (or_empty (get current.run_id s.events)) events)
              s.events,
          c.gapless k es,
        )
      ]

  pub committed-Grown :
      get current.run_id s.runs ≡ some actual
      → actual.revision ≡ current.revision
      → Grown s (committed current updated events s)
  committed-Grown known same = record {
    logs = λ k es h. elim (Bool-cases (text_beq k current.run_id)) [
      | inl e ↦
          let (fs, p) = numbered-Grows (or_empty (get current.run_id s.events)) events in
          (
            fs,
            ground (
              arith,
              get-put k current.run_id (numbered (or_empty (get current.run_id s.events)) events)
                  s.events,
              text_beq_iff k current.run_id,
            ),
          )
      | inr e ↦ (
        [],
        ground (
          arith,
          get-put k current.run_id (numbered (or_empty (get current.run_id s.events)) events)
              s.events,
          append-nil es,
        ),
      )
    ];
    revisions = λ k r h. elim (Bool-cases (text_beq k current.run_id)) [
      | inl e ↦ (
        bumped current updated,
        ground (
          arith,
          get-put k current.run_id (bumped current updated) s.runs,
          text_beq_iff k current.run_id,
        ),
        ground (arith, text_beq_iff k current.run_id),
      )
      | inr e ↦
          (r, ground (arith, get-put k current.run_id (bumped current updated) s.runs), omega arith)
    ];
    decisions = λ f b h. h;
    rows = λ k n h. h;
  }
