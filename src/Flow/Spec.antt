-- ===== src/Flow/Spec.antt =====
-- `WorkflowSpec` of src/sasori_flow/spec.py: its checks, its data and its digest.
pub mod Sound
use sasori.Base.{
  ℕ, ◌*◌, Bool, true, false, not, ◌&&◌, ◌||◌, Option, none, some, List, [], ◌∷◌, ◌++◌, map, length,
  any, find?, leb, ltb, ◌==◌, if◌then◌else◌,
}
use sasori.Base.Comp.{Outcome, returned, raised}
use sasori.Base.Try.{◌>>=◌, ◌>>◌, refuse_if}
use sasori.Text.{Text, codes, text_eq}
use sasori.Dict.{Dict}
use sasori.Json.{Value, boolean, integer, string, list, mapping, Items, nil, cons, pos, fields}
use sasori.Flow.Values.{Try, validation, utf8, identifier, byte_size, json_sha256}
use sasori.Flow.Types.{
  InputSlot, Binding, input_ref, step_ref, literal, ToolStep, type_name, step_data,
}

pub record WorkflowSpec : Type 0 where
  pub workflow_id : Text
  pub version : Text
  pub inputs : List InputSlot
  pub steps : List ToolStep
  pub output_step : Text

abbrev pub max_input_slots : ℕ
max_input_slots = 128

abbrev pub max_steps : ℕ
max_steps = 128

abbrev pub max_definition_bytes : ℕ
max_definition_bytes = 1024 * 1024

abbrev pub is_member : Text → List Text → Bool
is_member t ts = any (λ s. s == t) ts

-- `len(set(ids)) == len(ids)`
abbrev pub are_distinct : List Text → Bool
are_distinct [] = true
are_distinct (t ∷ ts) = not (is_member t ts) && are_distinct ts

abbrev pub slot_keys : List InputSlot → List Text
slot_keys = map (λ slot. slot.key)

abbrev pub step_ids : List ToolStep → List Text
step_ids = map (λ step. step.step_id)

abbrev pub is_bound : List Text → List Text → Binding → Bool
is_bound keys completed (input_ref key) = is_member key keys
is_bound keys completed (step_ref step_id) = is_member step_id completed
is_bound keys completed (literal value) = true

-- The loop over the bindings of a step.
unfoldable pub check_bindings : List Text → List Text → Dict Text Binding → Try (Unit {0})
check_bindings keys completed [] = returned tt
check_bindings keys completed (b ∷ bs) = do
  refuse_if (not (is_bound keys completed b.1)) validation
  check_bindings keys completed bs

-- The loop over the steps, with the steps before them.
unfoldable pub check_steps : List Text → List Text → List ToolStep → Try (List Text)
unfolding check_bindings
check_steps keys completed [] = returned completed
check_steps keys completed (s ∷ ss) = do
  check_bindings keys completed s.arguments
  check_steps keys (s.step_id ∷ completed) ss

abbrev slot_data : InputSlot → Value
slot_data slot = mapping (
    fields (
      (codes "key", string slot.key)
      ∷ (codes "type", string (type_name slot.value_type))
      ∷ (codes "required", boolean slot.required)
      ∷ (codes "max_bytes", integer (pos slot.max_bytes))
      ∷ []))

abbrev pub slots_data : List InputSlot → Items
slots_data [] = nil
slots_data (s ∷ ss) = cons (slot_data s) (slots_data ss)

unfoldable pub steps_data : List ToolStep → Items
unfolding step_data
steps_data [] = nil
steps_data (s ∷ ss) = cons (step_data s) (steps_data ss)

-- `WorkflowSpec.as_data`
unfoldable pub spec_data : WorkflowSpec → Value
unfolding steps_data
spec_data spec = mapping (
    fields (
      (codes "schema_version", integer (pos 1))
      ∷ (codes "workflow_id", string spec.workflow_id)
      ∷ (codes "version", string spec.version)
      ∷ (codes "execution", string (codes "single-harness-ordered-tools-v1"))
      ∷ (codes "inputs", list (slots_data spec.inputs))
      ∷ (codes "steps", list (steps_data spec.steps))
      ∷ (codes "output_step", string spec.output_step)
      ∷ []))

-- `WorkflowSpec.digest`, by the standard library's SHA-256.
unfoldable pub spec_digest : (Text → Text) → WorkflowSpec → Try Text
unfolding json_sha256 spec_data
spec_digest sha256 spec = json_sha256 sha256 (spec_data spec)

-- `WorkflowSpec.__post_init__`, up to the size of the definition.
unfoldable pub check_spec : List InputSlot → List ToolStep → Text → Try Text
unfolding check_steps identifier
check_spec inputs steps output_step = do
  refuse_if (ltb max_input_slots (length inputs)) validation
  refuse_if (not (are_distinct (slot_keys inputs))) validation
  refuse_if (not (leb 1 (length steps) && leb (length steps) max_steps)) validation
  refuse_if (not (are_distinct (step_ids steps))) validation
  completed ← check_steps (slot_keys inputs) [] steps
  output ← identifier output_step
  refuse_if (not (is_member output completed)) validation
  returned output

-- The last check, of the size of the definition.
unfoldable pub within_size : WorkflowSpec → Try WorkflowSpec
unfolding byte_size spec_data
within_size spec = do
  size ← byte_size (spec_data spec)
  refuse_if (ltb max_definition_bytes size) validation
  returned spec

-- `WorkflowSpec.__post_init__`
unfoldable pub new_spec : Text → Text → List InputSlot → List ToolStep → Text → Try WorkflowSpec
unfolding identifier utf8 check_spec within_size
new_spec workflow_id version inputs steps output_step = do
  w ← identifier workflow_id
  v ← utf8 version 64
  output ← check_spec inputs steps output_step
  within_size (record {
    workflow_id = w;
    version = v;
    inputs = inputs;
    steps = steps;
    output_step = output;
  })

-- `WorkflowSpec.step`; `none` is `StopIteration`.
abbrev pub step_named : WorkflowSpec → Text → Option ToolStep
step_named spec step_id = find? (λ step. step.step_id == step_id) spec.steps
