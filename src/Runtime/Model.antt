-- ===== src/Runtime/Model.antt =====
-- `Harness._call_model` and `Harness._fail_model` of
-- packages/sasori-core/src/sasori_core/runtime.py.
use sasori.Base.{
  ℕ, ◌+◌, Bool, true, false, not, ◌||◌, Option, none, some, List, [], ◌∷◌, ◌++◌, String,
  if◌then◌else◌, length,
}
use sasori.Base.Comp.{Outcome, returned, raised, pure, raise, ◌>>=◌, ◌>>◌}
use sasori.Text.{Text, codes}
use sasori.Json.{Value, string, boolean, integer, pos, fields}
use sasori.Contracts.Types.{
  Message, Event, EventType, Snapshot, CallRecord, RunStatus, ModelReply, ToolCall, ReplyCall,
  tool_call, invalid_call, foreign,
}
use sasori.Contracts.Ids.{valid_utf8_text}
use sasori.Store.State.{load, duplicate_call_id}
use sasori.Store.Runs.{transition}
use sasori.Store.Calls.{accept_reply}
use sasori.Runtime.Detach.{snapshot_model_reply}
use sasori.Runtime.Stream.{Collected, collect_model_stream}
use sasori.Runtime.World.{
  Environment, World, Run, RunError, ErrorClass, FaultPoint, ModelOutcome, completes, streams,
  ModelCallError, model_call_error, model_timeout_error, model_stream_protocol_error, streams_other,
  model_times_out, model_cancelled, model_call_fails, model_raises, gives_other, error, store_error,
  task_cancelled, on_store, persist, fault, make_event, error_code,
}
use sasori.Runtime.Records.{Records, call_records, text_of}

abbrev run_event : Snapshot → ℕ → EventType → List (Text × Value) → Event
run_event state step type items = make_event state step type (fields items) none none

abbrev pub count_value : {A : Type 0} → List A → Value
count_value xs = integer (pos (length xs))

-- `_fail_model`: it always raises.
unfoldable pub fail_model : Environment → Snapshot → ℕ → ErrorClass → Text → Run Snapshot
unfolding persist
fail_model env state step class message =
    let details =
      (codes "error_code", string (error_code class)) ∷ (codes "message", string message) ∷ [] in
    let events =
      run_event state step EventType.model_failed details
      ∷ run_event state step EventType.run_failed details
      ∷ [] in
    do
      _ ← persist env (transition state (record state { status = RunStatus.failed }) events) events
      raise (error class message)

-- What the runtime makes of a model call: a reply, a failure of the run, or a cancellation.
pub data Answer : Type 0 where
  answered : ModelReply → Answer
  failed : ErrorClass → Text → Answer
  cancelled : Answer

abbrev protocol : String → Answer
protocol message = failed ErrorClass.model_stream_protocol (codes message)

abbrev optional_or_none : Option Text → Text
optional_or_none none = codes "None"
optional_or_none (some s) = s

unfoldable pub collected_answer : Collected → Answer
collected_answer (Collected.reply r) = answered r
collected_answer Collected.not_an_event =
    protocol "model stream yielded a non-ModelStreamEvent value"
collected_answer Collected.invalid_unicode = protocol "model stream contains invalid Unicode"
collected_answer Collected.over_limit = protocol "model stream exceeds its bounded limits"
collected_answer Collected.after_terminal = protocol "model stream continued after its terminal"
collected_answer Collected.missing_start = protocol "model stream must start with start"
collected_answer Collected.duplicate_start = protocol "model stream emitted duplicate start"
collected_answer (Collected.unknown_type name) =
    failed ErrorClass.model_stream_protocol (codes "unknown model stream event: " ++ name)
collected_answer Collected.before_start = protocol "model stream ended before start"
collected_answer Collected.no_terminal = protocol "model stream ended without a terminal"
collected_answer Collected.assertion_failed =
    failed ErrorClass.model_error (codes "model call failed: AssertionError: ")
collected_answer (Collected.model_error code message) =
    failed ErrorClass.model_error
      (codes "model stream failed (" ++ (optional_or_none code ++ (codes "): " ++ message)))
collected_answer (Collected.stream_aborted message) = cancelled

-- A subclass of `ModelCallError` keeps its own code.
abbrev class_of : ModelCallError → ErrorClass
class_of model_call_error = ErrorClass.model_error
class_of model_timeout_error = ErrorClass.model_timeout
class_of model_stream_protocol_error = ErrorClass.model_stream_protocol

unfoldable pub answer_of : Environment → ModelOutcome → Answer
unfolding collected_answer
answer_of env (completes r) = answered r
answer_of env (streams items) = collected_answer (collect_model_stream items).0
answer_of env streams_other = protocol "complete_stream must return an async iterable"
answer_of env model_times_out =
    failed ErrorClass.model_timeout
      (codes "model call exceeded " ++ (env.model_timeout ++ codes " seconds"))
answer_of env model_cancelled = cancelled
answer_of env (model_call_fails e message) = failed (class_of e) message
answer_of env (model_raises name message) =
    failed ErrorClass.model_error (codes "model call failed: " ++ (name ++ (codes ": " ++ message)))
answer_of env (gives_other name) =
    failed ErrorClass.model_error
      (codes "model returned " ++ (name ++ codes ", expected ModelReply"))

unfoldable pub ask_model : Environment → Run Answer
unfolding answer_of
ask_model env w = (
  returned (answer_of env (env.model w.model_calls)),
  record w { model_calls = w.model_calls + 1 },
)

abbrev valid_state : Option Text → Bool
valid_state none = true
valid_state (some s) = valid_utf8_text (string s) false none

-- `isinstance(call, ToolCall)`.
abbrev pub tool_calls_of : List ReplyCall → List ToolCall
tool_calls_of [] = []
tool_calls_of (tool_call c ∷ cs) = c ∷ tool_calls_of cs
tool_calls_of (invalid_call s ∷ cs) = tool_calls_of cs
tool_calls_of (foreign s ∷ cs) = tool_calls_of cs

abbrev assistant_message : ModelReply → Message
assistant_message r = record {
  role = codes "assistant";
  content = text_of r.content;
  tool_calls = tool_calls_of r.tool_calls;
  tool_call_id = none;
  tool_name = none;
  error_code = none;
  provider_state = r.provider_state;
}

abbrev pub is_nil : {A : Type 0} → List A → Bool
is_nil [] = true
is_nil (x ∷ xs) = false

abbrev pub replied : Snapshot → ℕ → ModelReply → List CallRecord → Snapshot
replied state step reply calls = record state {
  status = if is_nil calls then RunStatus.pending_final else RunStatus.processing_reply;
  step = step;
  history = state.history ++ assistant_message reply ∷ [];
  accepted_reply = some reply;
}

-- The `except DuplicateCallIdError` around the commit of a reply.
unfoldable pub fail_duplicate : Environment → Snapshot → ℕ → Run Snapshot
unfolding on_store
fail_duplicate env state step = do
  latest ← on_store (load state.run_id)
  fail_model env latest step ErrorClass.duplicate_call
      (codes "duplicate provider call id in one run")

unfoldable pub or_fail_duplicate :
    Environment
    → Snapshot
    → ℕ
    → Outcome RunError Snapshot × World
    → Outcome RunError Snapshot × World
unfolding fail_duplicate
or_fail_duplicate env state step (raised (store_error duplicate_call_id), w) =
    fail_duplicate env state step w
or_fail_duplicate env state step r = r

unfoldable pub commit_reply :
    Environment → Snapshot → ℕ → ModelReply → List CallRecord → Run Snapshot
unfolding persist fault or_fail_duplicate
commit_reply env state step reply calls =
    let completed = run_event state step EventType.model_completed (
      (codes "final", boolean (is_nil reply.tool_calls))
      ∷ (codes "tool_call_count", count_value reply.tool_calls)
      ∷ []) in
    do
      fault env FaultPoint.before_model_reply_commit
      state' ← (λ w. or_fail_duplicate env state step (
          persist env
            (accept_reply state (replied state step reply calls) reply calls (completed ∷ []))
            (completed ∷ []) w))
      fault env FaultPoint.after_model_reply_commit
      pure state'

abbrev pub recorded_reply : Environment → Snapshot → ℕ → ModelReply → Records → Run Snapshot
recorded_reply env state step reply (raised id) =
    fail_model env state step ErrorClass.duplicate_call
      (codes "duplicate provider call id in one run: " ++ id)
recorded_reply env state step reply (returned calls) = commit_reply env state step reply calls

abbrev pub has_bad_text : ModelReply → Bool
has_bad_text reply =
    not (valid_utf8_text reply.content false none) || not (valid_state reply.provider_state)

-- From the snapshot of the reply on.
unfoldable pub take_reply : Environment → Snapshot → ℕ → ModelReply → Run Snapshot
take_reply env state step reply =
    if has_bad_text reply
    then fail_model env state step ErrorClass.model_error
        (codes "model reply contains invalid text fields")
    else recorded_reply env state step reply (call_records env state.run_id step reply)

unfoldable pub settle_answer : Environment → Snapshot → ℕ → Answer → Run Snapshot
unfolding take_reply
settle_answer env state step (answered r) = take_reply env state step (snapshot_model_reply r)
settle_answer env state step (failed class message) = fail_model env state step class message
settle_answer env state step cancelled = raise task_cancelled

-- `_call_model`
unfoldable pub call_model : Environment → Snapshot → Run Snapshot
unfolding persist ask_model settle_answer
call_model env state =
    let started =
      run_event state (state.step + 1) EventType.model_started
        ((codes "message_count", count_value state.history) ∷ []) in
    do
      state' ← persist env (transition state state (started ∷ [])) (started ∷ [])
      answer ← ask_model env
      settle_answer env state' (state.step + 1) answer
