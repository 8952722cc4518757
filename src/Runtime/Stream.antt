-- ===== src/Runtime/Stream.antt =====
-- The transient model stream: `ModelStreamEvent.__post_init__` of contracts.py, and
-- `_collect_model_stream` of runtime.py (packages/sasori-core/src/sasori_core).
pub mod Protocol
use sasori.Base.{
  ℕ, ◌+◌, ◌*◌, Bool, true, false, not, ◌&&◌, ◌||◌, Option, none, some, List, [], ◌∷◌, ◌++◌, ltb,
  is_some, if◌then◌else◌,
}
use sasori.Text.{Text, utf8_length, is_blank}
use sasori.Contracts.Types.{ModelReply}
use sasori.Runtime.Detach.{snapshot_model_reply}

-- `ModelStreamEventType`, and any other type that a caller writes.
pub data StreamType : Type 0 where
  start text_delta thinking_delta tool_call_delta done error aborted : StreamType
  unknown : Text → StreamType

pub record ModelStreamEvent : Type 0 where
  pub type : StreamType
  pub delta : Text
  pub reply : Option ModelReply
  pub error_code : Option Text
  pub message : Text

abbrev pub is_empty : Text → Bool
is_empty [] = true
is_empty (c ∷ s) = false

abbrev pub is_filled : Option Text → Bool
is_filled none = false
is_filled (some s) = not (is_blank s)

abbrev valid_delta : ModelStreamEvent → Bool
valid_delta e =
    not (is_empty e.delta)
    && not (is_some e.reply)
    && not (is_some e.error_code)
    && is_empty e.message

-- Whether the constructor accepts the fields; otherwise it raises `ValueError`.
unfoldable pub valid_stream_event : ModelStreamEvent → Bool
valid_stream_event e = elim e.type [
  | StreamType.start ↦
      is_empty e.delta && not (is_some e.reply) && not (is_some e.error_code) && is_empty e.message
  | StreamType.text_delta ↦ valid_delta e
  | StreamType.thinking_delta ↦ valid_delta e
  | StreamType.tool_call_delta ↦ valid_delta e
  | StreamType.done ↦
      is_empty e.delta && is_some e.reply && not (is_some e.error_code) && is_empty e.message
  | StreamType.error ↦
      is_empty e.delta
      && not (is_some e.reply)
      && is_filled e.error_code
      && not (is_blank e.message)
  | StreamType.aborted ↦ is_empty e.delta && not (is_some e.reply) && not (is_some e.error_code)
  | StreamType.unknown s ↦ false
]

abbrev pub max_stream_events : ℕ
max_stream_events = 4096

abbrev pub max_stream_bytes : ℕ
max_stream_bytes = 4194304

-- What an iteration yields: an event, or a value of another type.
pub data StreamItem : Type 0 where
  event : ModelStreamEvent → StreamItem
  other : StreamItem

-- How the collection ends: with a reply, or by one of the exceptions that it raises.
pub data Collected : Type 0 where
  reply : ModelReply → Collected
  not_an_event invalid_unicode over_limit after_terminal missing_start : Collected
  duplicate_start before_start no_terminal assertion_failed : Collected
  unknown_type : Text → Collected
  model_error : Option Text → Text → Collected
  stream_aborted : Text → Collected

pub record StreamState : Type 0 where
  pub started : Bool
  pub terminal : Option ModelStreamEvent
  pub event_count : ℕ
  pub payload_bytes : ℕ

-- `payload_bytes` with the two texts of an event; `none` is `UnicodeEncodeError`.
unfoldable pub payload_of : ModelStreamEvent → Option ℕ
payload_of e = elim (utf8_length e.delta) [
  | none ↦ none
  | some m ↦ elim (utf8_length e.message) [ none ↦ none | some n ↦ some (m + n) ]
]

abbrev pub done_event : ModelReply → ModelStreamEvent
done_event r = record {
  type = StreamType.done;
  delta = [];
  reply = some r;
  error_code = none;
  message = [];
}

-- The loop's body after the counters: the error that it raises, or the state and what it shows to
-- the observer.
pub data Taken : Type 0 where
  refused : Collected → Taken
  accepted : StreamState → ModelStreamEvent → Taken

abbrev pub take_done : StreamState → Option ModelReply → Taken
take_done st none = refused Collected.assertion_failed
take_done st (some r) =
    let authoritative = snapshot_model_reply r in
    accepted (record st { terminal = some (done_event authoritative) })
      (done_event (snapshot_model_reply authoritative))

unfoldable pub take_started : StreamState → ModelStreamEvent → Taken
take_started st e = elim e.type [
  | StreamType.start ↦ refused Collected.duplicate_start
  | StreamType.text_delta ↦ accepted st e
  | StreamType.thinking_delta ↦ accepted st e
  | StreamType.tool_call_delta ↦ accepted st e
  | StreamType.done ↦ take_done st e.reply
  | StreamType.error ↦ accepted (record st { terminal = some e }) e
  | StreamType.aborted ↦ accepted (record st { terminal = some e }) e
  | StreamType.unknown s ↦ refused (Collected.unknown_type s)
]

abbrev is_start : StreamType → Bool
is_start StreamType.start = true
is_start _ = false

-- The event after the counters `count` and `bytes` were raised.
unfoldable pub take_counted : StreamState → ModelStreamEvent → Taken
unfolding take_started
take_counted st e =
    if ltb max_stream_events st.event_count || ltb max_stream_bytes st.payload_bytes
    then refused Collected.over_limit
    else if is_some st.terminal
    then refused Collected.after_terminal
    else if st.started
    then take_started st e
    else if is_start e.type
    then accepted (record st { started = true }) e
    else refused Collected.missing_start

unfoldable pub take_item : StreamState → StreamItem → Taken
unfolding take_counted payload_of
take_item st other = refused Collected.not_an_event
take_item st (event e) = elim (payload_of e) [
  | none ↦ refused Collected.invalid_unicode
  | some n ↦
      take_counted
        (record st { event_count = st.event_count + 1; payload_bytes = st.payload_bytes + n }) e
]

abbrev finish_terminal : StreamType → ModelStreamEvent → Collected
finish_terminal StreamType.done e = elim e.reply [
  | none ↦ Collected.assertion_failed
  | some r ↦ reply r
]
finish_terminal StreamType.error e = model_error e.error_code e.message
finish_terminal _ e = stream_aborted e.message

-- After the loop.
unfoldable pub finish : StreamState → Collected
finish st =
    if not st.started
    then Collected.before_start
    else elim st.terminal [ none ↦ Collected.no_terminal | some e ↦ finish_terminal e.type e ]

-- The `async for` loop: how it ends, and the events that the observer saw.
unfoldable pub collect_from : StreamState → List StreamItem → Collected × List ModelStreamEvent
unfolding take_item finish
collect_from st [] = (finish st, [])
collect_from st (x ∷ xs) = elim (take_item st x) [
  | refused c ↦ (c, [])
  | accepted st' shown ↦ let (c, seen) = collect_from st' xs in (c, shown ∷ seen)
]

abbrev pub stream_start : StreamState
stream_start = record { started = false; terminal = none; event_count = 0; payload_bytes = 0 }

unfoldable pub collect_model_stream : List StreamItem → Collected × List ModelStreamEvent
unfolding collect_from
collect_model_stream = collect_from stream_start
