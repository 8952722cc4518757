-- ===== src/Flow/Spec/Sound.antt =====
-- What a `WorkflowSpec` of src/sasori_flow/spec.py that was made promises to the code that runs it.
use sasori.Base.{ℕ, ◌≤◌, ◌≡◌, sym, inl, inr, true, ◌||◌, List, [], ◌∷◌, arith, length, All}
use sasori.Base.Comp.{returned}
use sasori.Base.Try.{Outcome-cases}
use sasori.Text.{Text, text_eq}
use sasori.Dict.{Dict}
use sasori.Flow.Values.{identifier, utf8, byte_size}
use sasori.Flow.Types.{InputSlot, Binding, ToolStep}
use sasori.Flow.Spec.{
  WorkflowSpec, is_member, are_distinct, slot_keys, step_ids, is_bound, check_bindings, check_steps,
  check_spec, within_size, new_spec, max_input_slots, max_steps, max_definition_bytes, spec_data,
}

-- Every binding of a step names an input, a step before it, or a literal.
pub data IsOrdered (keys : List Text) : List Text → List ToolStep → Type 0 where
  no_step : {completed : List Text} → IsOrdered keys completed []
  next_step :
      {completed : List Text} {s : ToolStep} {ss : List ToolStep}
      → All (λ b. is_bound keys completed b.1 ≡ true) s.arguments
      → IsOrdered keys (s.step_id ∷ completed) ss
      → IsOrdered keys completed (s ∷ ss)

check_bindings-All :
    (keys completed : List Text) (bs : Dict Text Binding)
    → check_bindings keys completed bs ≡ returned tt
    → All (λ b. is_bound keys completed b.1 ≡ true) bs
unfolding check_bindings
check_bindings-All keys completed [] h = record {}
check_bindings-All keys completed (b ∷ bs) h =
    (ground arith, check_bindings-All keys completed bs (ground arith))

check_steps-IsOrdered :
    (keys completed : List Text) (ss : List ToolStep) (out : List Text)
    → check_steps keys completed ss ≡ returned out
    → IsOrdered keys completed ss
unfolding check_steps
check_steps-IsOrdered keys completed [] out h = no_step
check_steps-IsOrdered keys completed (s ∷ ss) out h =
    next_step (check_bindings-All keys completed s.arguments (ground arith))
      (check_steps-IsOrdered keys (s.step_id ∷ completed) ss out (ground arith))

-- What is completed at the end was so at first, or is a step.
check_steps-is_member :
    (keys completed : List Text) (ss : List ToolStep) (out : List Text) (t : Text)
    → check_steps keys completed ss ≡ returned out
    → is_member t out ≡ true
    → (is_member t completed || is_member t (step_ids ss)) ≡ true
unfolding check_steps
check_steps-is_member keys completed [] out t h m = ground arith
check_steps-is_member keys completed (s ∷ ss) out t h m =
    let rest = check_steps-is_member keys (s.step_id ∷ completed) ss out t (ground arith) m in
    ground arith

-- What the constructor of a workflow establishes.
pub record IsSound (spec : WorkflowSpec) : Type 0 where
  input_keys_are_distinct : are_distinct (slot_keys spec.inputs) ≡ true
  inputs_are_few : length spec.inputs ≤ max_input_slots
  step_ids_are_distinct : are_distinct (step_ids spec.steps) ≡ true
  has_steps : 1 ≤ length spec.steps
  steps_are_few : length spec.steps ≤ max_steps
  pub bindings_are_ordered : IsOrdered (slot_keys spec.inputs) [] spec.steps
  pub output_is_step : is_member spec.output_step (step_ids spec.steps) ≡ true
  definition_is_small :
      (n : ℕ) × (byte_size (spec_data spec) ≡ returned n) × (n ≤ max_definition_bytes)

-- The facts of the checks before the size.
abbrev IsChecked : List InputSlot → List ToolStep → Text → Type 0
IsChecked inputs steps output =
    (are_distinct (slot_keys inputs) ≡ true)
    × (length inputs ≤ max_input_slots)
    × (are_distinct (step_ids steps) ≡ true)
    × (1 ≤ length steps)
    × (length steps ≤ max_steps)
    × IsOrdered (slot_keys inputs) [] steps
    × (is_member output (step_ids steps) ≡ true)

check_spec-IsChecked :
    (inputs : List InputSlot) (steps : List ToolStep) (output_step output : Text)
    → check_spec inputs steps output_step ≡ returned output
    → IsChecked inputs steps output
unfolding check_spec identifier
check_spec-IsChecked inputs steps output_step output h =
    elim (Outcome-cases (check_steps (slot_keys inputs) [] steps)) [
      | inr (e, q) ↦ ground arith
      | inl (completed, q) ↦
          let named : is_member output completed ≡ true = ground arith in
          (
            ground arith,
            ground arith,
            ground arith,
            ground arith,
            ground arith,
            check_steps-IsOrdered (slot_keys inputs) [] steps completed q,
            ground
                (arith, check_steps-is_member (slot_keys inputs) [] steps completed output q named),
          )
    ]

within_size-returned :
    (spec made : WorkflowSpec)
    → within_size spec ≡ returned made
    → (spec ≡ made)
      × ((n : ℕ) × (byte_size (spec_data spec) ≡ returned n) × (n ≤ max_definition_bytes))
unfolding within_size
within_size-returned spec made h = elim (Outcome-cases (byte_size (spec_data spec))) [
  | inr (e, q) ↦ ground arith
  | inl (n, q) ↦ (ground arith, (n, q, ground arith))
]

IsChecked-IsSound :
    (spec made : WorkflowSpec)
    → IsChecked spec.inputs spec.steps spec.output_step
    → within_size spec ≡ returned made
    → IsSound made
IsChecked-IsSound spec made c h =
    let (same, small) = within_size-returned spec made h in
    let sound : IsSound spec = record {
      input_keys_are_distinct = c.0;
      inputs_are_few = c.1;
      step_ids_are_distinct = c.2;
      has_steps = c.3;
      steps_are_few = c.4;
      bindings_are_ordered = c.5;
      output_is_step = c.6;
      definition_is_small = small;
    } in
    rw (sym same) sound

-- A workflow that the constructor returns has from 1 to 128 steps with distinct identifiers and at
-- most 128 inputs with distinct keys; every binding of a step names one of the inputs, a step before
-- it, or a literal; its output is one of its steps; and its definition is at most a mebibyte.
pub new_spec-IsSound :
    (workflow_id version : Text) (inputs : List InputSlot) (steps : List ToolStep)
    (output_step : Text) (spec : WorkflowSpec)
    → new_spec workflow_id version inputs steps output_step ≡ returned spec
    → IsSound spec
unfolding new_spec
new_spec-IsSound workflow_id version inputs steps output_step spec h =
    elim (Outcome-cases (identifier workflow_id)) [
      | inr (e, p) ↦ ground arith
      | inl (w, p) ↦ elim (Outcome-cases (utf8 version 64)) [
        | inr (e, q) ↦ ground arith
        | inl (v, q) ↦ elim (Outcome-cases (check_spec inputs steps output_step)) [
          | inr (e, r) ↦ ground arith
          | inl (output, r) ↦
              let made : WorkflowSpec = record {
                workflow_id = w;
                version = v;
                inputs = inputs;
                steps = steps;
                output_step = output;
              } in
              IsChecked-IsSound made spec (check_spec-IsChecked inputs steps output_step output r)
                (ground arith)
        ]
      ]
    ]
