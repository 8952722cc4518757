-- ===== src/Runtime/Progress/Bounds.antt =====
-- Bounds that a `_ToolProgressReporter` (packages/sasori-core/src/sasori_core/runtime.py) keeps,
-- whatever other threads ask of it.
use sasori.Base.{
  ℕ, suc, ◌+◌, ◌≤◌, ◌≡◌, refl, ap, ◌∙◌, Bool, Bool-cases, inl, inr, ltb, true, false, List, [], ◌∷◌,
  ◌++◌, arith, length, length-append, Option, none, some,
}
use sasori.Json.{Value}
use sasori.Runtime.Progress.{
  Reporter, ReporterStep, reports, closes, abandons, ProgressEvent, new_reporter, step, steps,
  report, report_measured, measure, admit, close, abandon, max_progress_events,
  max_progress_total_bytes, max_progress_event_bytes,
}

abbrev total_size : List ProgressEvent → ℕ
total_size [] = 0
total_size (e ∷ es) = e.size + total_size es

total_size-append :
    (xs ys : List ProgressEvent) → total_size (xs ++ ys) ≡ total_size xs + total_size ys
total_size-append [] ys = omega arith
total_size-append (x ∷ xs) ys = omega (arith, total_size-append xs ys)

-- The events count from `n + 1`, and none is over the size of one event.
abbrev pub IsCounted : ℕ → List ProgressEvent → Type 0
IsCounted n [] = Unit
IsCounted n (e ∷ es) =
    (e.sequence ≡ n + 1) × (e.size ≤ max_progress_event_bytes) × IsCounted (n + 1) es

IsCounted-append :
    (n : ℕ) (xs ys : List ProgressEvent)
    → IsCounted n xs
    → IsCounted (n + length xs) ys
    → IsCounted n (xs ++ ys)
IsCounted-append n [] ys h k = rw (+-zero n) at k
  where
    +-zero : (n : ℕ) → n + 0 ≡ n
    +-zero n = omega arith
IsCounted-append n (x ∷ xs) ys h k =
    (h.0, h.1, IsCounted-append (n + 1) xs ys h.2 (rw (shift n (length xs)) at k))
  where
    shift : (n k : ℕ) → n + suc k ≡ n + 1 + k
    shift n k = omega arith

-- The counters are within the limits and cover what was handed over.
pub record IsWithin (r : Reporter) : Type 0 where
  pub events_within : r.sequence ≤ max_progress_events
  pub bytes_within : r.accepted_bytes ≤ max_progress_total_bytes
  pub covered : total_size r.handed ≤ r.accepted_bytes
  pub counted : IsCounted 0 r.handed
  pub reached : length r.handed ≤ r.sequence
  pub exact : r.accepting ≡ true → length r.handed ≡ r.sequence

admit-IsWithin :
    (b : Bool) (r : Reporter) (v : Value) (n : ℕ)
    → n ≤ max_progress_event_bytes
    → IsWithin r
    → IsWithin (admit b r v n).1
unfolding admit
admit-IsWithin b r v n le h = record {
  events_within = ground (arith, h.events_within);
  bytes_within = ground (arith, h.bytes_within);
  covered = ground (
    arith,
    h.covered,
    total_size-append r.handed (record { sequence = r.sequence + 1; plain = v; size = n } ∷ []),
  );
  counted = ground (
    arith,
    h.counted,
    IsCounted-append 0 r.handed (record { sequence = r.sequence + 1; plain = v; size = n } ∷ []),
    h.exact,
  );
  reached = ground (
    arith,
    h.reached,
    length-append r.handed (record { sequence = r.sequence + 1; plain = v; size = n } ∷ []),
  );
  exact = λ e. ground (
    arith,
    h.exact,
    length-append r.handed (record { sequence = r.sequence + 1; plain = v; size = n } ∷ []),
  );
}

report_measured-IsWithin :
    (b : Bool) (r : Reporter) (o : Option (Value × ℕ))
    → IsWithin r
    → IsWithin (report_measured b r o).1
unfolding report_measured
report_measured-IsWithin b r none h = h
report_measured-IsWithin b r (some (v, n)) h = elim (Bool-cases (ltb max_progress_event_bytes n)) [
  | inl e ↦ rw e h
  | inr e ↦ rw e (admit-IsWithin b r v n (ground arith) h)
]

step-IsWithin : (m : ReporterStep) (r : Reporter) → IsWithin r → IsWithin (step m r)
unfolding step report close abandon
step-IsWithin (reports b v) r h = report_measured-IsWithin b r (measure v) h
step-IsWithin closes r h = record {
  events_within = h.events_within;
  bytes_within = h.bytes_within;
  covered = h.covered;
  counted = h.counted;
  reached = h.reached;
  exact = λ e. ground arith;
}
step-IsWithin abandons r h = record {
  events_within = h.events_within;
  bytes_within = h.bytes_within;
  covered = h.covered;
  counted = h.counted;
  reached = h.reached;
  exact = λ e. ground arith;
}

from-IsWithin : (ms : List ReporterStep) (r : Reporter) → IsWithin r → IsWithin (steps ms r)
unfolding steps
from-IsWithin [] r h = h
from-IsWithin (m ∷ ms) r h = from-IsWithin ms (step m r) (step-IsWithin m r h)

-- From a new reporter, whatever is reported, closed and abandoned: 256 events and 1 MiB at most are
-- admitted, the handed events are numbered from 1 without a gap, are 64 KiB each at most and within
-- the admitted bytes, and while it accepts no admitted event is missing.
pub steps-IsWithin : (ms : List ReporterStep) (b : Bool) → IsWithin (steps ms (new_reporter b))
unfolding new_reporter
steps-IsWithin ms b = from-IsWithin ms (new_reporter b) record {
  events_within = omega arith;
  bytes_within = omega arith;
  covered = omega arith;
  counted = tt;
  reached = omega arith;
  exact = λ e. refl;
}

admit-closed :
    (b : Bool) (r : Reporter) (v : Value) (n : ℕ) → r.accepting ≡ false → admit b r v n ≡ (false, r)
unfolding admit
admit-closed b r v n h = rw h refl

report_measured-closed :
    (b : Bool) (r : Reporter) (o : Option (Value × ℕ))
    → r.accepting ≡ false
    → report_measured b r o ≡ (false, r)
unfolding report_measured
report_measured-closed b r none h = refl
report_measured-closed b r (some (v, n)) h = elim (Bool-cases (ltb max_progress_event_bytes n)) [
  | inl e ↦ rw e refl
  | inr e ↦ rw e (admit-closed b r v n h)
]

step-closed :
    (m : ReporterStep) (r : Reporter)
    → r.accepting ≡ false
    → ((step m r).accepting ≡ false) × ((step m r).handed ≡ r.handed)
unfolding step report close abandon
step-closed (reports b v) r h =
    let same = report_measured-closed b r (measure v) h in
    (ap (λ p. p.1.accepting) same ∙ h, ap (λ p. p.1.handed) same)
step-closed closes r h = (refl, refl)
step-closed abandons r h = (refl, refl)

-- A reporter that has stopped accepting hands over nothing more, whatever is asked of it, and every
-- later report to it gives `False`.
pub closed-for_good :
    (ms : List ReporterStep) (r : Reporter)
    → r.accepting ≡ false
    → ((steps ms r).handed ≡ r.handed)
      × ((b : Bool) (v : Value) → (report b (steps ms r) v).0 ≡ false)
unfolding steps report
closed-for_good [] r h = (refl, λ b v. ap (λ p. p.0) (report_measured-closed b r (measure v) h))
closed-for_good (m ∷ ms) r h =
    let (shut, same) = step-closed m r h in
    let (rest, refused) = closed-for_good ms (step m r) shut in (rest ∙ same, refused)
