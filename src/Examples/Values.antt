-- ===== src/Examples/Values.antt =====
-- Identifiers, JSON values, tools, calls, streams, progress and views.
use sasori.Base.{
  ◌≡◌, ◌↔◌, ◌⊎◌, find?, refl, not, ◌&&◌, ◌||◌, Bool, true, false, none, some, List, [], ◌∷◌,
  is_some, leb,
}
use sasori.Text.{Text, codes, text_eq, text_beq, utf8_length, is_blank}
use sasori.Dict.{contains, get}
use sasori.Json.{
  Value, Entries, string, integer, null, list, tuple, mapping, nil, cons, pos, keys_are_text,
  has_key,
}
use sasori.Json.Bounded.{
  bounded_json_value, is_json, nodes, max_json_depth, max_json_nodes, bounded_loop, push_items,
  push_values,
}
use sasori.Json.Bounded.Walk.{bounded_json_value_lem}
use sasori.Json.Copies.{freeze, json_copy}
use sasori.Json.Copies.Laws.{is_frozen, freeze-freeze, bounded_json_value-copies}
use sasori.Contracts.Types.{ModelReply, CallRecord, CallStatus, RunStatus, Snapshot}
use sasori.Contracts.Ids.{is_valid_run_id, is_valid_tool_call_id, valid_utf8_text}
use sasori.Contracts.Ids.Grammar.{MatchesRunId, is_valid_run_id_iff}
use sasori.Runtime.Detach.{snapshot_model_reply}
use sasori.Runtime.Stream.{
  StreamItem, event, ModelStreamEvent, StreamType, done_event, collect_model_stream, collect_from,
  take_item, take_counted, take_started, payload_of, finish,
}
use sasori.Runtime.Stream.Protocol.{IsStream, collect_model_stream-IsStream}
use sasori.Runtime.Records.{
  call_records, records_from, call_record, parse_call, validate_call, validate_arguments, has_text,
  is_idempotent, key_argument, context_argument,
}
use sasori.Runtime.Records.Laws.{IsSequence, call_records-IsSequence, validate_call_lem}
use sasori.Runtime.Progress.{
  ReporterStep, reports, closes, abandons, steps, new_reporter, report, close,
}
use sasori.Runtime.Progress.Bounds.{IsWithin, steps-IsWithin, closed-for_good}
use sasori.Projection.{
  RunView, view_of, ExternalState, shown_call, shown_reason, is_unresolved, is_unknown_call,
  is_cancelled,
}
use sasori.Projection.Views.{view_of-reason_iff, shown_call_lem}
use sasori.Examples.Data.{harness, asking, ending, disk, wipe_call, stored_call, snapshot_of}

is_valid_run_id_iff_example :
    (is_valid_run_id (string (codes "Run-1")) ≡ true) ↔ MatchesRunId (codes "Run-1")
is_valid_run_id_iff_example = is_valid_run_id_iff (codes "Run-1")

abbrev mixed : Value
mixed = list (cons (integer (pos 1)) (cons (tuple (cons null nil)) (cons (mapping disk) nil)))

abbrev frozen : Value
frozen = tuple (cons (integer (pos 1)) (cons (tuple (cons null nil)) (cons (mapping disk) nil)))

bounded_json_value_lem_example :
    bounded_json_value mixed ≡ (is_json max_json_depth 0 mixed && leb (nodes mixed) max_json_nodes)
bounded_json_value_lem_example = bounded_json_value_lem mixed

freeze-freeze_example :
    (is_frozen frozen ≡ true) × (freeze frozen ≡ some frozen) × (json_copy frozen ≡ json_copy mixed)
unfolding freeze keys_are_text
freeze-freeze_example = freeze-freeze mixed frozen refl

bounded_json_value-copies_example :
    (is_some (freeze mixed) ≡ true) × (is_some (json_copy mixed) ≡ true)
unfolding bounded_json_value bounded_loop push_items push_values keys_are_text
bounded_json_value-copies_example = bounded_json_value-copies mixed refl

abbrev plain_event : StreamType → Text → ModelStreamEvent
plain_event type delta = record {
  type = type;
  delta = delta;
  reply = none;
  error_code = none;
  message = [];
}

abbrev stream : List StreamItem
stream =
    event (plain_event StreamType.start [])
    ∷ event (plain_event StreamType.text_delta (codes "done"))
    ∷ event (done_event ending)
    ∷ []

collect_model_stream-IsStream_example : IsStream stream (snapshot_model_reply ending)
unfolding collect_model_stream collect_from take_item take_counted take_started payload_of finish
    utf8_length
collect_model_stream-IsStream_example =
    collect_model_stream-IsStream stream (snapshot_model_reply ending) refl

abbrev two_calls : ModelReply
two_calls = record asking { tool_calls = wipe_call (codes "c1") ∷ wipe_call (codes "c2") ∷ [] }

abbrev two_records : List CallRecord
two_records =
    call_record harness (codes "r1") 1 0 (parse_call (wipe_call (codes "c1")))
    ∷ call_record harness (codes "r1") 1 1 (parse_call (wipe_call (codes "c2")))
    ∷ []

call_records-IsSequence_example :
    IsSequence harness (codes "r1") 1 0 [] two_calls.tool_calls two_records
unfolding call_records records_from parse_call is_valid_tool_call_id utf8_length text_beq
call_records-IsSequence_example =
    call_records-IsSequence harness (codes "r1") 1 two_calls two_records refl

validate_call_lem_example :
    (has_text (some (codes "c1")) ≡ true)
    × (true ≡ true)
    × ((es : Entries) × (mapping disk ≡ mapping es)
        × (keys_are_text es ≡ true)
        × (has_key key_argument es ≡ false)
        × (has_key context_argument es ≡ false)
        × (contains (codes "wipe") harness.tools ≡ true)
        × ((not (is_idempotent (stored_call (codes "c1") CallStatus.pending).effect)
              || has_text none)
            ≡ true))
unfolding validate_call validate_arguments keys_are_text has_key text_beq valid_utf8_text
    utf8_length get is_blank
validate_call_lem_example =
    validate_call_lem harness (stored_call (codes "c1") CallStatus.pending) refl

abbrev reporter_steps : List ReporterStep
reporter_steps = reports true (mapping disk) ∷ reports false (mapping disk) ∷ closes ∷ abandons ∷ []

steps-IsWithin_example : IsWithin (steps reporter_steps (new_reporter true))
steps-IsWithin_example = steps-IsWithin reporter_steps true

closed-for_good_example :
    ((steps reporter_steps (close (new_reporter true))).handed ≡ (close (new_reporter true)).handed)
    × ((b : Bool) (v : Value)
        → (report b (steps reporter_steps (close (new_reporter true))) v).0 ≡ false)
unfolding close
closed-for_good_example = closed-for_good reporter_steps (close (new_reporter true)) refl

abbrev unknown_call : CallRecord
unknown_call = stored_call (codes "c1") CallStatus.effect_unknown

abbrev cancelled_run : Snapshot
cancelled_run = snapshot_of (codes "r1") RunStatus.cancelled

abbrev cancelled_view : RunView
cancelled_view =
    view_of (codes "r1") cancelled_run [] (shown_call cancelled_run.status (unknown_call ∷ []))

view_of-reason_iff_example : (is_some cancelled_view.pause_reason ≡ true) ↔ (
    (cancelled_view.state ≡ ExternalState.paused)
    ⊎ ((cancelled_view.state ≡ ExternalState.cancelled)
        × ((c : CallRecord) × (find? is_unresolved (unknown_call ∷ []) ≡ some c)
            × (c.status ≡ CallStatus.effect_unknown))))
view_of-reason_iff_example = view_of-reason_iff (codes "r1") cancelled_run [] (unknown_call ∷ [])

shown_call_lem_example :
    (is_unresolved unknown_call ≡ true)
    × (is_some (shown_reason RunStatus.cancelled (some unknown_call)) ≡ true)
    × ((not (is_cancelled RunStatus.cancelled) || is_unknown_call unknown_call) ≡ true)
unfolding shown_call
shown_call_lem_example = shown_call_lem RunStatus.cancelled (unknown_call ∷ []) unknown_call refl
