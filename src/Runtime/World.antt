-- ===== src/Runtime/World.antt =====
-- What a `Harness` (packages/sasori-core/src/sasori_core/runtime.py) works with: its tools and
-- limits, its state, and what its surroundings do. The model, the tools, the fault injector and
-- the clock are arguments: the n-th call of each does what `Environment` says of n.
use sasori.Base.{ℕ, ◌+◌, Bool, Option, List, ◌++◌, if◌then◌else◌}
use sasori.Base.Comp.{Comp, Outcome, returned, raised, pure, ◌>>=◌, ◌>>◌}
use sasori.Text.{Text, codes, text_eq}
use sasori.Dict.{Dict}
use sasori.Json.{Value, Entries}
use sasori.Contracts.Types.{Effect, Message, ModelReply, Event, EventType, Snapshot, CallRecord}
use sasori.Runtime.Stream.{StreamItem}
use sasori.Store.State.{Store, StoreComp, StoreError}

-- `inspect.Parameter.kind`, as far as it is tested.
pub data ParameterKind : Type 0 where
  keyword_only other_kind : ParameterKind

-- `inspect.signature(handler)`: its two reserved parameters, and the text of the error with which
-- `bind` refuses arguments, if it does.
pub record Signature : Type 0 where
  pub idempotency_key : Option ParameterKind
  pub tool_context : Option ParameterKind
  pub bind_error : Entries → Option Text

-- What `inspect.signature` gives, or the text of its error.
pub data Inspected : Type 0 where
  signature : Signature → Inspected
  no_signature : Text → Inspected

-- What a key function gives, or the type and the text of what it raises.
pub data KeyOutcome : Type 0 where
  key_value : Value → KeyOutcome
  key_raises : Text → KeyOutcome

-- `Tool`
pub record Tool : Type 0 where
  pub name : Value
  pub callable : Bool
  pub inspected : Inspected
  pub effect : Effect
  pub idempotency_key : Option (Value → KeyOutcome)
  pub tool_revision : Option Text

-- `ModelCallError` and its subclasses.
pub data ModelCallError : Type 0 where
  model_call_error model_timeout_error model_stream_protocol_error : ModelCallError

-- What a model call does, within its timeout; `streams_other` is a stream that is no
-- `AsyncIterable`, after the `await` of an awaitable.
pub data ModelOutcome : Type 0 where
  completes : ModelReply → ModelOutcome
  streams : List StreamItem → ModelOutcome
  streams_other : ModelOutcome
  model_times_out model_cancelled : ModelOutcome
  model_call_fails : ModelCallError → Text → ModelOutcome
  model_raises : Text → Text → ModelOutcome
  gives_other : Text → ModelOutcome

-- What a handler does, within its timeout.
pub data ToolOutcome : Type 0 where
  outputs : Value → ToolOutcome
  tool_times_out tool_cancelled : ToolOutcome
  tool_raises : Text → Text → ToolOutcome

-- The points at which `fault_injector` is called.
pub data FaultPoint : Type 0 where
  before_checkpoint_commit after_checkpoint_commit : FaultPoint
  before_model_reply_commit after_model_reply_commit : FaultPoint
  before_tool_dispatch after_tool_dispatch after_tool_return : FaultPoint
  before_tool_result_commit after_tool_result_commit : FaultPoint
  before_final_commit after_final_commit : FaultPoint

-- `digest` is the hexadecimal SHA-256 of a JSON value's text, `render_object` the text that
-- `_render` makes of a value that is no `str`, and the timeouts are the texts of `{…:g}`.
pub record Environment : Type 0 where
  pub tools : Dict Text Tool
  pub max_steps : ℕ
  pub model : ℕ → ModelOutcome
  pub tool : ℕ → ToolOutcome
  pub fault : FaultPoint → ℕ → Bool
  pub has_event_sink : Bool
  pub digest : Value → Text
  pub render_object : Value → Text
  pub model_timeout : Text
  pub tool_timeout : Text

-- The classes of `SasoriError` that carry only a message.
pub data ErrorClass : Type 0 where
  sasori_error model_error model_timeout model_stream_protocol : ErrorClass
  max_steps_exceeded duplicate_call injected_fault run_cancelled run_busy : ErrorClass

pub data PauseReason : Type 0 where
  approval_required effect_unknown paused_recovery tool_contract_changed : PauseReason

pub record ApprovalRequest : Type 0 where
  pub run_id : Text
  pub step : ℕ
  pub ordinal : ℕ
  pub call_id : Text
  pub tool_name : Text
  pub arguments : Value
  pub fingerprint : Text
  pub effect : Effect
  pub idempotency_key : Option Text
  pub tool_revision : Text

-- What the harness raises. `out_of_fuel` marks a loop that the model cut off.
pub data RunError : Type 0 where
  store_error : StoreError → RunError
  error : ErrorClass → Text → RunError
  run_paused : PauseReason → Option ApprovalRequest → RunError
  task_cancelled value_error lookup_failed assertion_failed out_of_fuel : RunError

pub record RunResult : Type 0 where
  pub run_id : Text
  pub final_message : Message
  pub messages : List Message
  pub events : List Event
  pub steps : ℕ

-- A handler invocation, with the store as it was then. The program keeps no such list.
pub record Invocation : Type 0 where
  pub call : CallRecord
  pub store : Store

pub record World : Type 0 where
  pub store : Store
  pub active_runs : List Text
  pub idle_waiters : List ℕ
  pub woken : List ℕ
  pub observed : List Event
  pub faults : ℕ
  pub model_calls : ℕ
  pub tool_calls : ℕ
  pub invocations : List Invocation

abbrev pub Run : Type 0 → Type 0
Run A = Comp World RunError A

-- A store method, as the harness calls it.
abbrev pub lift_outcome :
    {A : Type 0} → Outcome StoreError A × Store → World → Outcome RunError A × World
lift_outcome (returned a, s) w = (returned a, record w { store = s })
lift_outcome (raised e, s) w = (raised (store_error e), record w { store = s })

unfoldable pub on_store : {A : Type 0} → StoreComp A → Run A
on_store m w = lift_outcome (m w.store) w

-- `_fault`
unfoldable pub fault : Environment → FaultPoint → Run (Unit {0})
fault env point w = (
  if env.fault point w.faults
      then raised (error ErrorClass.injected_fault (codes "injected fault"))
      else returned tt,
  record w { faults = w.faults + 1 },
)

-- `_observe`: what the sink raises is dropped.
unfoldable pub observe : Environment → List Event → Run (Unit {0})
observe env events w =
    (returned tt, if env.has_event_sink then record w { observed = w.observed ++ events } else w)

-- `_persist`
unfoldable pub persist : Environment → StoreComp Snapshot → List Event → Run Snapshot
unfolding fault on_store observe
persist env action events = do
  fault env before_checkpoint_commit
  state ← on_store action
  fault env after_checkpoint_commit
  observe env events
  pure state

-- `_event`, at a step.
abbrev pub make_event : Snapshot → ℕ → EventType → Entries → Option Text → Option Text → Event
make_event state step type data_fields tool_name call_id = record {
  type = type;
  run_id = state.run_id;
  step = step;
  fields = data_fields;
  version = 1;
  tool_name = tool_name;
  call_id = call_id;
}

-- `error.code`
abbrev pub error_code : ErrorClass → Text
error_code ErrorClass.sasori_error = codes "sasori_error"
error_code ErrorClass.model_error = codes "model_error"
error_code ErrorClass.model_timeout = codes "model_timeout"
error_code ErrorClass.model_stream_protocol = codes "model_stream_protocol"
error_code ErrorClass.max_steps_exceeded = codes "max_steps_exceeded"
error_code ErrorClass.duplicate_call = codes "duplicate_call_id"
error_code ErrorClass.injected_fault = codes "injected_fault"
error_code ErrorClass.run_cancelled = codes "run_cancelled"
error_code ErrorClass.run_busy = codes "run_busy"
