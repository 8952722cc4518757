-- ===== src/Contracts/Types.antt =====
-- The data of the runtime contract: messages, calls, tools, replies and events of contracts.py, and
-- the snapshots and call records of store.py (packages/sasori-core/src/sasori_core). Status and
-- effect strings are constructors. A field that the checks test for its type is a `Value`.
use sasori.Base.{ℕ, Bool, Option, List}
use sasori.Text.{Text}
use sasori.Json.{Value, Entries}

-- `ToolEffect`
pub data Effect : Type 0 where
  read_only idempotent side_effecting : Effect

-- A provider's arguments: a Python value, or the mark `_InvalidToolArguments` of a type's name.
pub data Arguments : Type 0 where
  given : Value → Arguments
  invalid_arguments : Text → Arguments

pub record ToolCall : Type 0 where
  pub id : Value
  pub name : Value
  pub arguments : Arguments
  pub complete : Value

-- A member of `ModelReply.tool_calls`: a `ToolCall`, the mark `_InvalidToolCall` of a type's name,
-- or an object of another type, by its name.
pub data ReplyCall : Type 0 where
  tool_call : ToolCall → ReplyCall
  invalid_call : Text → ReplyCall
  foreign : Text → ReplyCall

pub record Message : Type 0 where
  pub role : Text
  pub content : Text
  pub tool_calls : List ToolCall
  pub tool_call_id : Option Text
  pub tool_name : Option Text
  pub error_code : Option Text
  pub provider_state : Option Text

pub record ModelReply : Type 0 where
  pub content : Value
  pub tool_calls : List ReplyCall
  pub provider_state : Option Text

pub data EventType : Type 0 where
  run_started run_completed run_failed run_cancelled : EventType
  model_started model_completed model_failed : EventType
  tool_requested tool_started tool_completed tool_failed : EventType
  approval_requested approval_resolved recovery_resolved : EventType

pub record Event : Type 0 where
  pub type : EventType
  pub run_id : Text
  pub step : ℕ
  pub fields : Entries
  pub version : ℕ
  pub tool_name : Option Text
  pub call_id : Option Text

pub record StoredEvent : Type 0 where
  pub seq : ℕ
  pub event : Event

pub data RunStatus : Type 0 where
  new ready_model processing_reply pending_final : RunStatus
  awaiting_approval awaiting_resume paused_recovery effect_unknown : RunStatus
  completed failed cancelled : RunStatus

pub record Snapshot : Type 0 where
  pub run_id : Text
  pub revision : ℕ
  pub generation : ℕ
  pub status : RunStatus
  pub step : ℕ
  pub history : List Message
  pub accepted_reply : Option ModelReply
  pub final_message : Option Message
  pub app_id : Option Text

pub data CallStatus : Type 0 where
  pending requested awaiting_approval approved denied dispatching result effect_unknown : CallStatus

pub record CallRecord : Type 0 where
  pub run_id : Text
  pub step : ℕ
  pub ordinal : ℕ
  pub call_id : Option Text
  pub fingerprint : Text
  pub name : Option Text
  pub arguments : Value
  pub arguments_valid : Bool
  pub complete : Bool
  pub effect : Effect
  pub idempotency_key : Option Text
  pub tool_revision : Text
  pub status : CallStatus
  pub outcome : Option Message
