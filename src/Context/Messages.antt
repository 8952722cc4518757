-- ===== src/Context/Messages.antt =====
-- Messages as src/sasori_context/budget.py measures them: their JSON values, units and digests.
use sasori.Base.{ℕ, ◌+◌, Bool, true, false, Option, none, some, List, [], ◌∷◌}
use sasori.Base.Comp.{Outcome, returned, raised}
use sasori.Base.Try.{◌>>=◌}
use sasori.Text.{Text, codes, text_eq, utf8_length}
use sasori.Json.{Value, list, mapping, string, Items, nil, cons, fields, optional_text}
use sasori.Contracts.Types.{Message, ToolCall, Arguments, given, invalid_arguments}

-- Whether a message is a `ProtectedContextMessage`, or of a class derived from it.
pub data MessageKind : Type 0 where
  ordinary protected_data protected_subclass : MessageKind

pub record ContextMessage : Type 0 where
  pub message : Message
  pub kind : MessageKind

-- Why a history has no projection, by the raise that says so.
pub data StructureError : Type 0 where
  not_canonical orphan_result calls_of_other rejection_mismatch incomplete_call : StructureError
  empty_call_id repeated_call_id unmatched_result unmatched_name incomplete_group : StructureError
  bad_protected scattered_protected : StructureError

pub data ContextError : Type 0 where
  structure : StructureError → ContextError
  prefix_exceeds protected_exceeds : ContextError
  type_error value_error unicode_error out_of_fuel : ContextError

-- What the module takes from the standard library: `json.dumps` with its flags, where `none` is
-- `TypeError` or `ValueError`; the hexadecimal SHA-256 of a text's bytes; what `dict` makes of
-- arguments that are no mapping, if it accepts them; and the JSON value of an object.
pub record Host : Type 0 where
  pub dumps : Value → Option Text
  pub sha256 : Text → Text
  pub dict_of : Value → Option Value
  pub mark_value : Text → Value

abbrev pub Try : Type 0 → Type 0
Try A = Outcome ContextError A

abbrev or_same : Value → Option Value → Value
or_same v none = v
or_same v (some w) = w

unfoldable pub normalized_arguments : Host → Arguments → Value
normalized_arguments host (given (mapping es)) = mapping es
normalized_arguments host (given v) = or_same v (host.dict_of v)
normalized_arguments host (invalid_arguments name) = host.mark_value name

-- `_tool_call_value`
unfoldable pub tool_call_value : Host → ToolCall → Value
unfolding normalized_arguments
tool_call_value host call = mapping (
    fields (
      (codes "id", call.id)
      ∷ (codes "name", call.name)
      ∷ (codes "arguments", normalized_arguments host call.arguments)
      ∷ (codes "complete", call.complete)
      ∷ []))

unfoldable pub tool_call_values : Host → List ToolCall → Items
unfolding tool_call_value
tool_call_values host [] = nil
tool_call_values host (c ∷ cs) = cons (tool_call_value host c) (tool_call_values host cs)

abbrev included : Bool → Option Text → Option Text
included true s = s
included false s = none

-- `_message_value`
unfoldable pub message_value : Host → Bool → Message → Value
unfolding tool_call_values
message_value host include_provider_state m = mapping (
    fields (
      (codes "role", string m.role)
      ∷ (codes "content", string m.content)
      ∷ (codes "tool_calls", list (tool_call_values host m.tool_calls))
      ∷ (codes "tool_call_id", optional_text m.tool_call_id)
      ∷ (codes "tool_name", optional_text m.tool_name)
      ∷ (codes "error_code", optional_text m.error_code)
      ∷ (codes "provider_state", optional_text (included include_provider_state m.provider_state))
      ∷ []))

abbrev encoded : Text → Option ℕ → Try (Text × ℕ)
encoded text none = raised unicode_error
encoded text (some n) = returned (text, n)

abbrev dumped : Option Text → Try (Text × ℕ)
dumped none = raised (structure not_canonical)
dumped (some text) = encoded text (utf8_length text)

-- `_canonical`: the text, and the length of its UTF-8 bytes.
unfoldable pub canonical : Host → Value → Try (Text × ℕ)
canonical host v = dumped (host.dumps v)

-- `default_message_units`
unfoldable pub default_message_units : Host → ContextMessage → Try ℕ
unfolding canonical message_value
default_message_units host m = do
  c ← canonical host (message_value host true m.message)
  returned c.1

-- The configured estimator; an answer that is no number, or a negative one, is `type_error`.
abbrev pub Estimator : Type 0
Estimator = ContextMessage → Try ℕ

unfoldable pub measure_from : ℕ → Estimator → List ContextMessage → Try ℕ
measure_from total estimator [] = returned total
measure_from total estimator (m ∷ ms) = do
  units ← estimator m
  measure_from (total + units) estimator ms

-- `_measure`
unfoldable pub measure : Estimator → List ContextMessage → Try ℕ
unfolding measure_from
measure estimator ms = measure_from 0 estimator ms

unfoldable pub message_values : Host → Bool → List ContextMessage → Items
unfolding message_value
message_values host include [] = nil
message_values host include (m ∷ ms) =
    cons (message_value host include m.message) (message_values host include ms)

-- `_digest`
unfoldable pub digest : Host → Bool → List ContextMessage → Try Text
unfolding canonical message_values
digest host include_provider_state ms = do
  c ← canonical host (list (message_values host include_provider_state ms))
  returned (host.sha256 c.0)
