-- ===== src/Flow/Manifest/Compose.antt =====
-- `compose_workflow_manifest` of src/sasori_flow/manifest.py: the manifest of a definition and the
-- wrapper tools that were compiled for it.
use sasori.Base.{
  ℕ, suc, ◌*◌, Bool, true, false, not, Option, none, some, List, [], ◌∷◌, map, length, ltb, nat_beq,
  is_some, ◌==◌,
}
use sasori.Base.Comp.{returned, raised}
use sasori.Base.Try.{◌>>=◌, ◌>>◌, refuse_if, from_option}
use sasori.Text.{Text, codes, text_eq}
use sasori.Json.{
  Value, boolean, integer, string, list, mapping, Items, nil, cons, pos, fields, optional_text,
}
use sasori.Contracts.Types.{Effect}
use sasori.Contracts.Equality.{effect_beq}
use sasori.Flow.Values.{Try, validation, tool_error, byte_size, plain_json}
use sasori.Flow.Types.{ToolStep, sorted_arguments, effect_name, type_name}
use sasori.Flow.Spec.{WorkflowSpec, spec_digest, are_distinct, slots_data}
use sasori.Flow.Manifest.{dependencies, argument_sources, recovery_policy, is_read_only}

-- A wrapper, with what `tool_schema_sha256` makes of it; `none` is `RegistrationError`.
pub record Wrapper : Type 0 where
  pub name : Text
  pub effect : Effect
  pub tool_revision : Option Text
  pub schema_sha256 : Option Text

abbrev max_manifest_bytes : ℕ
max_manifest_bytes = 4 * (1024 * 1024)

abbrev has_text : Option Text → Bool
has_text none = false
has_text (some []) = false
has_text (some (c ∷ s)) = true

-- The revision is there exactly where the effect of the step asks for it.
abbrev fits_revision : Effect → Option Text → Bool
fits_revision effect revision = elim (is_read_only effect) [
  | true ↦ not (is_some revision)
  | false ↦ has_text revision
]

-- One round of the loop over the steps.
unfoldable pub compose_step : (Text → Text) → WorkflowSpec → ℕ → ToolStep → Wrapper → Try Value
unfolding effect_beq dependencies argument_sources sorted_arguments
compose_step sha256 spec position step wrapper = do
  refuse_if (not (effect_beq wrapper.effect step.effect)) validation
  refuse_if (not (fits_revision step.effect wrapper.tool_revision)) validation
  depends_on ← dependencies spec step
  sources ← argument_sources sha256 (sorted_arguments step.arguments)
  schema ← from_option tool_error wrapper.schema_sha256
  returned (
      mapping (
        fields (
          (codes "position", integer (pos position))
          ∷ (codes "step_id", string step.step_id)
          ∷ (codes "depends_on", list depends_on)
          ∷ (codes "argument_sources", list sources)
          ∷ (codes "logical_tool_name", string step.tool_name)
          ∷ (codes "dispatch_tool_name", string wrapper.name)
          ∷ (codes "effect", string (effect_name step.effect))
          ∷ (codes "requires_approval", boolean (not (is_read_only step.effect)))
          ∷ (codes "recovery_policy", string (recovery_policy step.effect))
          ∷ (codes "logical_tool_revision", optional_text step.tool_revision)
          ∷ (codes "dispatch_tool_revision", optional_text wrapper.tool_revision)
          ∷ (codes "logical_schema_sha256", string step.schema_sha256)
          ∷ (codes "dispatch_schema_sha256", string schema)
          ∷ (codes "result_type", string (type_name step.result_type))
          ∷ (codes "max_result_bytes", integer (pos step.max_result_bytes))
          ∷ (codes "is_output", boolean (step.step_id == spec.output_step))
          ∷ [])))

-- The loop; lists of other lengths were refused before it.
unfoldable pub compose_steps :
    (Text → Text) → WorkflowSpec → ℕ → List ToolStep → List Wrapper → Try Items
unfolding compose_step
compose_steps sha256 spec position [] [] = returned nil
compose_steps sha256 spec position [] (w ∷ ws) = raised validation
compose_steps sha256 spec position (s ∷ ss) [] = raised validation
compose_steps sha256 spec position (s ∷ ss) (w ∷ ws) = do
  row ← compose_step sha256 spec position s w
  rows ← compose_steps sha256 spec (suc position) ss ws
  returned (cons row rows)

abbrev manifest_value : WorkflowSpec → Text → Text → Items → Value
manifest_value spec digest app_id rows = mapping (
    fields (
      (codes "schema_version", integer (pos 1))
      ∷ (codes "workflow_id", string spec.workflow_id)
      ∷ (codes "version", string spec.version)
      ∷ (codes "definition_sha256", string digest)
      ∷ (codes "app_id", string app_id)
      ∷ (codes "execution", string (codes "single-harness-ordered-tools-v1"))
      ∷ (codes "output_step", string spec.output_step)
      ∷ (codes "step_count", integer (pos (length spec.steps)))
      ∷ (codes "supports_parallel", boolean false)
      ∷ (codes "supports_branches", boolean false)
      ∷ (codes "supports_agent_nodes", boolean false)
      ∷ (
        codes "trust",
        mapping (
            fields (
              (codes "execution_mode", string (codes "trusted_installed_python"))
              ∷ (codes "sandboxed", boolean false)
              ∷ [])),
      )
      ∷ (codes "inputs", list (slots_data spec.inputs))
      ∷ (codes "steps", list rows)
      ∷ []))

-- `compose_workflow_manifest`
unfoldable pub compose_workflow_manifest :
    (Text → Text) → WorkflowSpec → List Wrapper → Text → Try Value
unfolding compose_steps spec_digest byte_size plain_json
compose_workflow_manifest sha256 spec wrappers app_id = do
  refuse_if (not (nat_beq (length wrappers) (length spec.steps))) validation
  refuse_if (not (are_distinct (map (λ w. w.name) wrappers))) validation
  rows ← compose_steps sha256 spec 1 spec.steps wrappers
  digest ← spec_digest sha256 spec
  size ← byte_size (manifest_value spec digest app_id rows)
  refuse_if (ltb max_manifest_bytes size) validation
  returned (plain_json (manifest_value spec digest app_id rows))
