-- ===== src/Store/Growth/Writes.antt =====
-- The other writes of the store's methods: a new run, a new approval, its decision, and calls.
use sasori.Base.{
  ℕ, ◌+◌, ◌≡◌, Bool, false, Option, none, some, List, [], ◌∷◌, arith, is_some, if◌then◌else◌,
}
use mathlib.Core.List.{append-nil}
use sasori.Text.{Text, text_eq, text_beq, text_beq_iff}
use sasori.Dict.{Dict, get, put, get-put}
use sasori.Contracts.Types.{Event, CallRecord, Message}
use sasori.Store.State.{Store, numbered, append_events, or_empty}
use sasori.Store.Runs.{fresh}
use sasori.Store.Growth.{IsConsistent, Grown, Extends}

-- A write to the calls alone.
pub calls-Extends :
    (s : Store) (d : Dict (Text × ℕ) (List CallRecord)) → Extends s (record s { calls = d })
calls-Extends s d c = (
  record {
    known_log = c.known_log;
    known_row = c.known_row;
    known_approval = c.known_approval;
    gapless = c.gapless;
    rows_below = c.rows_below;
    rows_differ = c.rows_differ;
  },
  record {
    logs = λ k es h. ([], rw append-nil h);
    revisions = λ k r h. (r, h, omega arith);
    decisions = λ f b h. h;
    rows = λ k n h. h;
  },
)

-- What `start` writes.
abbrev pub started : Text → List Message → Event → Option Text → Store → Store
started run_id messages event app_id s = append_events run_id (event ∷ []) (record s {
  runs = put run_id (fresh run_id messages app_id) s.runs;
  run_rows = put run_id s.next_row s.run_rows;
  next_row = s.next_row + 1;
  events = put run_id [] s.events;
})

-- What `request_approval` and `resolve_approval` write to the approvals.
abbrev pub asked : Text → Text → Store → Store
asked f run_id s = record s {
  approvals = put f none s.approvals;
  approval_runs = put f run_id s.approval_runs;
}

abbrev pub decided : Text → Bool → Store → Store
decided f approved s = record s { approvals = put f (some approved) s.approvals }

module _ (k : Text) (messages : List Message) (event : Event) (app_id : Option Text)
    (s : Store) where
  -- A run that is not stored has no log.
  started_log :
      (j : Text)
      → get j (started k messages event app_id s).events
        ≡ (if text_beq j k then some (record { seq = 1; event = event } ∷ []) else get j s.events)
  unfolding numbered
  started_log j = ground (
    arith,
    get-put j k (numbered (or_empty (get k (put k [] s.events))) (event ∷ [])) (put k [] s.events),
    get-put k k [] s.events,
    get-put j k [] s.events,
    text_beq_iff k k,
  )

  pub started-IsConsistent :
      is_some (get k s.runs) ≡ false
      → IsConsistent s
      → IsConsistent (started k messages event app_id s)
  started-IsConsistent absent c = record {
    known_log = λ j.
        ground (arith, started_log j, get-put j k (fresh k messages app_id) s.runs, c.known_log j);
    known_row = λ j. ground (
      arith,
      get-put j k s.next_row s.run_rows,
      get-put j k (fresh k messages app_id) s.runs,
      c.known_row j,
    );
    known_approval = c.known_approval;
    gapless = λ j es h. ground (arith, started_log j, c.gapless j es);
    rows_below = λ j n h. ground (arith, get-put j k s.next_row s.run_rows, c.rows_below j n);
    rows_differ = λ i j n h l. ground (
      arith,
      get-put i k s.next_row s.run_rows,
      get-put j k s.next_row s.run_rows,
      text_beq_iff i k,
      text_beq_iff j k,
      c.rows_below i n,
      c.rows_below j n,
      c.rows_differ i j n,
    );
  }

  pub started-Grown :
      is_some (get k s.runs) ≡ false → IsConsistent s → Grown s (started k messages event app_id s)
  started-Grown absent c = record {
    logs = λ j es h.
        ([], ground (arith, started_log j, append-nil es, c.known_log k, text_beq_iff j k));
    revisions = λ j r h. (
      r,
      ground (arith, get-put j k (fresh k messages app_id) s.runs, text_beq_iff j k),
      omega arith,
    );
    decisions = λ f b h. h;
    rows =
        λ j n h. ground (arith, get-put j k s.next_row s.run_rows, text_beq_iff j k, c.known_row k);
  }

pub asked-Extends :
    (f run_id : Text) (s : Store)
    → is_some (get f s.approvals) ≡ false
    → Extends s (asked f run_id s)
asked-Extends f run_id s absent c = (
  record {
    known_log = c.known_log;
    known_row = c.known_row;
    known_approval = λ g. ground (
      arith,
      get-put g f none s.approvals,
      get-put g f run_id s.approval_runs,
      c.known_approval g,
    );
    gapless = c.gapless;
    rows_below = c.rows_below;
    rows_differ = c.rows_differ;
  },
  record {
    logs = λ k es h. ([], rw append-nil h);
    revisions = λ k r h. (r, h, omega arith);
    decisions = λ g b h. ground (arith, get-put g f none s.approvals, text_beq_iff g f);
    rows = λ k n h. h;
  },
)

pub decided-Extends :
    (f : Text) (b : Bool) (s : Store) → get f s.approvals ≡ some none → Extends s (decided f b s)
decided-Extends f b s open_request c = (
  record {
    known_log = c.known_log;
    known_row = c.known_row;
    known_approval =
        λ g. ground (arith, get-put g f (some b) s.approvals, c.known_approval g, text_beq_iff g f);
    gapless = c.gapless;
    rows_below = c.rows_below;
    rows_differ = c.rows_differ;
  },
  record {
    logs = λ k es h. ([], rw append-nil h);
    revisions = λ k r h. (r, h, omega arith);
    decisions = λ g d h. ground (arith, get-put g f (some b) s.approvals, text_beq_iff g f);
    rows = λ k n h. h;
  },
)
