-- ===== src/Runtime/Progress.antt =====
-- `_ToolProgressReporter` of packages/sasori-core/src/sasori_core/runtime.py: `report`, `close` and
-- `abandon` under the lock, one step each. The event loop's tasks are not modelled: an accepted
-- event is handed to it, or the hand-over raises `RuntimeError`.
pub mod Bounds
use sasori.Base.{
  ℕ, ◌+◌, Bool, true, false, not, ◌&&◌, ◌||◌, Option, none, some, List, [], ◌∷◌, ◌++◌, ltb, leb,
  if◌then◌else◌,
}
use sasori.Text.{Text, utf8_length}
use sasori.Json.{Value}
use sasori.Json.Bounded.{bounded_json_mapping}
use sasori.Json.Copies.{json_copy}
use sasori.Json.Canonical.{json_dumps}

abbrev pub max_progress_events : ℕ
max_progress_events = 256

abbrev pub max_progress_event_bytes : ℕ
max_progress_event_bytes = 65536

abbrev pub max_progress_total_bytes : ℕ
max_progress_total_bytes = 1048576

-- The fields that one event of the reporter carries beside its call.
pub record ProgressEvent : Type 0 where
  pub sequence : ℕ
  pub plain : Value
  pub size : ℕ

-- `handed` are the events that the loop was given, in order.
pub record Reporter : Type 0 where
  pub sequence : ℕ
  pub accepted_bytes : ℕ
  pub accepting : Bool
  pub has_sink : Bool
  pub handed : List ProgressEvent

unfoldable pub new_reporter : Bool → Reporter
new_reporter has_sink = record {
  sequence = 0;
  accepted_bytes = 0;
  accepting = has_sink;
  has_sink = has_sink;
  handed = [];
}

abbrev sized : Value → Option Text → Option (Value × ℕ)
sized plain none = none
sized plain (some text) = elim (utf8_length text) [ none ↦ none | some n ↦ some (plain, n) ]

abbrev copied : Option Value → Option (Value × ℕ)
copied none = none
copied (some plain) = sized plain (json_dumps plain)

-- The `try` block of `report`: the copy and the bytes of its text.
unfoldable pub measure : Value → Option (Value × ℕ)
measure update = if bounded_json_mapping update then copied (json_copy update) else none

-- The part of `report` under the lock; `handed_over` is whether `call_soon_threadsafe` succeeds.
unfoldable pub admit : Bool → Reporter → Value → ℕ → Bool × Reporter
admit handed_over r plain size =
    if not r.accepting
      || leb max_progress_events r.sequence
      || ltb max_progress_total_bytes (r.accepted_bytes + size)
    then (false, r)
    else if handed_over
    then (
      true,
      record r {
        sequence = r.sequence + 1;
        accepted_bytes = r.accepted_bytes + size;
        handed = r.handed ++ record { sequence = r.sequence + 1; plain = plain; size = size } ∷ [];
      },
    )
    else (
      false,
      record r {
        sequence = r.sequence + 1;
        accepted_bytes = r.accepted_bytes + size;
        accepting = false;
      },
    )

abbrev pub report_measured : Bool → Reporter → Option (Value × ℕ) → Bool × Reporter
unfolding admit
report_measured handed_over r none = (false, r)
report_measured handed_over r (some (plain, size)) =
    if ltb max_progress_event_bytes size then (false, r) else admit handed_over r plain size

-- `report`
unfoldable pub report : Bool → Reporter → Value → Bool × Reporter
unfolding report_measured
report handed_over r update = report_measured handed_over r (measure update)

unfoldable pub close : Reporter → Reporter
close r = record r { accepting = false }

-- `abandon`, but for the tasks that it cancels.
unfoldable pub abandon : Reporter → Reporter
abandon r = record r { accepting = false; has_sink = false }

-- What other threads do to a reporter.
pub data ReporterStep : Type 0 where
  reports : Bool → Value → ReporterStep
  closes abandons : ReporterStep

unfoldable pub step : ReporterStep → Reporter → Reporter
unfolding report close abandon
step (reports handed_over update) r = (report handed_over r update).1
step closes r = close r
step abandons r = abandon r

unfoldable pub steps : List ReporterStep → Reporter → Reporter
unfolding step
steps [] r = r
steps (m ∷ ms) r = steps ms (step m r)
