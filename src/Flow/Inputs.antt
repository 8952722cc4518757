-- ===== src/Flow/Inputs.antt =====
-- The input of a workflow and the arguments of its steps: `WorkflowSpec.validate_input`,
-- `validate_typed_value` and `resolve_arguments` of src/sasori_flow/spec.py.
pub mod Accepted
use sasori.Base.{
  ℕ, ◌*◌, Bool, true, false, not, ◌&&◌, ◌||◌, Option, none, some, List, [], ◌∷◌, any, find?,
  is_some, ltb, ◌==◌, if◌then◌else◌,
}
use sasori.Base.Comp.{Outcome, returned, raised}
use sasori.Base.Try.{◌>>=◌, ◌>>◌, refuse_if, from_option}
use sasori.Text.{Text, text_eq}
use sasori.Dict.{Dict, get}
use sasori.Json.{
  Value, mapping, Entries, end, entry, Key, text, other, keys_are_text, has_key, get_key,
}
use sasori.Flow.Values.{Try, validation, freeze, byte_size}
use sasori.Flow.Types.{
  InputSlot, JsonType, Binding, input_ref, step_ref, literal, ToolStep, matches_type,
}
use sasori.Flow.Spec.{WorkflowSpec}

abbrev pub max_input_bytes : ℕ
max_input_bytes = 256 * 1024

abbrev pub max_payload_bytes : ℕ
max_payload_bytes = 256 * 1024

-- `slots[key]`; the keys of the slots are distinct.
abbrev pub slot_of : List InputSlot → Text → Option InputSlot
slot_of slots key = find? (λ slot. slot.key == key) slots

-- `set(frozen).difference(slots)` is empty.
unfoldable pub all_known : List InputSlot → Entries → Bool
all_known slots end = true
all_known slots (entry (text key) v es) = is_some (slot_of slots key) && all_known slots es
all_known slots (entry (other s) v es) = false

-- A slot that is required and has no entry.
abbrev pub is_missing : Entries → InputSlot → Bool
is_missing es slot = slot.required && not (has_key slot.key es)

abbrev pub check_item : Option InputSlot → Value → Try (Unit {0})
check_item none item = raised validation
check_item (some slot) item = do
  refuse_if (not (matches_type item slot.value_type)) validation
  size ← byte_size item
  refuse_if (ltb slot.max_bytes size) validation

-- The loop over the items.
unfoldable pub check_items : List InputSlot → Entries → Try (Unit {0})
unfolding matches_type byte_size
check_items slots end = returned tt
check_items slots (entry (text key) item es) = do
  check_item (slot_of slots key) item
  check_items slots es
check_items slots (entry (other s) item es) = raised validation

unfoldable pub check_entries : List InputSlot → Entries → Try (Unit {0})
unfolding all_known has_key check_items byte_size
check_entries slots es = do
  refuse_if (not (all_known slots es)) validation
  refuse_if (any (is_missing es) slots) validation
  check_items slots es
  size ← byte_size (mapping es)
  refuse_if (ltb max_input_bytes size) validation

abbrev pub frozen_entries : Value → Try Entries
frozen_entries v = elim v [ mapping es ↦ returned es | _ ↦ raised validation ]

-- `validate_input`, from the frozen value on.
unfoldable pub accept : List InputSlot → Value → Try Entries
unfolding check_entries
accept slots frozen = do es ← frozen_entries frozen; check_entries slots es; returned es

-- `WorkflowSpec.validate_input`
unfoldable pub validate_input : WorkflowSpec → Value → Try Entries
unfolding freeze accept
validate_input spec value = do
  given ← frozen_entries value
  refuse_if (not (keys_are_text given)) validation
  frozen ← freeze 0 value
  accept spec.inputs frozen

-- `validate_typed_value`
unfoldable pub validate_typed_value : Value → JsonType → ℕ → Try Value
unfolding freeze matches_type byte_size
validate_typed_value value expected maximum = do
  frozen ← freeze 0 value
  refuse_if (not (matches_type frozen expected)) validation
  size ← byte_size frozen
  refuse_if (ltb maximum size) validation
  returned frozen

-- What a binding stands for.
unfoldable pub resolve : Entries → Dict Text Value → Binding → Try Value
unfolding get_key get
resolve input outputs (input_ref key) = from_option validation (get_key key input)
resolve input outputs (step_ref step_id) = from_option validation (get step_id outputs)
resolve input outputs (literal value) = returned value

-- The loop over the bindings; their names are those of a mapping.
unfoldable pub resolve_all : Entries → Dict Text Value → Dict Text Binding → Try Entries
unfolding resolve
resolve_all input outputs [] = returned end
resolve_all input outputs (b ∷ bs) = do
  v ← resolve input outputs b.1
  es ← resolve_all input outputs bs
  returned (entry (text b.0) v es)

-- `resolve_arguments`
unfoldable pub resolve_arguments : ToolStep → Entries → Dict Text Value → Try Entries
unfolding resolve_all freeze byte_size
resolve_arguments step input outputs = do
  resolved ← resolve_all input outputs step.arguments
  frozen ← freeze 0 (mapping resolved)
  es ← frozen_entries frozen
  size ← byte_size frozen
  refuse_if (ltb max_payload_bytes size) validation
  returned es
