-- ===== src/Examples/Manifests.antt =====
-- The manifest of a workflow of one step.
use sasori.Base.{◌≡◌, refl, false, true, none, some, List, [], ◌∷◌}
use sasori.Base.Comp.{returned}
use sasori.Text.{Text, codes, text_beq, utf8_length}
use sasori.Json.{
  Value, null, boolean, integer, string, list, mapping, nil, cons, pos, fields, keys_are_text,
}
use sasori.Json.Canonical.{json_dumps}
use sasori.Contracts.Types.{Effect}
use sasori.Contracts.Equality.{effect_beq}
use sasori.Flow.Types.{json_integer, input_ref, ToolStep, sorted_arguments}
use sasori.Flow.Spec.{WorkflowSpec}
use sasori.Flow.Manifest.Compose.{Wrapper, compose_workflow_manifest}

abbrev hash : Text → Text
hash t = codes "0123456789abcdef0123456789abcdef0123456789abcdef0123456789abcdef"

abbrev step : ToolStep
step = record {
  step_id = codes "add";
  tool_name = codes "add";
  effect = Effect.read_only;
  tool_revision = none;
  schema_sha256 = codes "00";
  arguments = (codes "a", input_ref (codes "n")) ∷ [];
  result_type = json_integer;
  max_result_bytes = 64;
}

abbrev spec : WorkflowSpec
spec = record {
  workflow_id = codes "adds";
  version = codes "1";
  inputs =
      record { key = codes "n"; value_type = json_integer; required = true; max_bytes = 16 } ∷ [];
  steps = step ∷ [];
  output_step = codes "add";
}

abbrev source : Value
source = mapping (
    fields (
      (codes "name", string (codes "a"))
      ∷ (codes "kind", string (codes "input"))
      ∷ (codes "ref", string (codes "n"))
      ∷ []))

abbrev row : Value
row = mapping (
    fields (
      (codes "position", integer (pos 1))
      ∷ (codes "step_id", string (codes "add"))
      ∷ (codes "depends_on", list nil)
      ∷ (codes "argument_sources", list (cons source nil))
      ∷ (codes "logical_tool_name", string (codes "add"))
      ∷ (codes "dispatch_tool_name", string (codes "wf_add"))
      ∷ (codes "effect", string (codes "read_only"))
      ∷ (codes "requires_approval", boolean false)
      ∷ (codes "recovery_policy", string (codes "read_only_replay_allowed"))
      ∷ (codes "logical_tool_revision", null)
      ∷ (codes "dispatch_tool_revision", null)
      ∷ (codes "logical_schema_sha256", string (codes "00"))
      ∷ (codes "dispatch_schema_sha256", string (hash []))
      ∷ (codes "result_type", string (codes "integer"))
      ∷ (codes "max_result_bytes", integer (pos 64))
      ∷ (codes "is_output", boolean true)
      ∷ []))

abbrev slot : Value
slot = mapping (
    fields (
      (codes "key", string (codes "n"))
      ∷ (codes "type", string (codes "integer"))
      ∷ (codes "required", boolean true)
      ∷ (codes "max_bytes", integer (pos 16))
      ∷ []))

abbrev trust : Value
trust = mapping (
    fields (
      (codes "execution_mode", string (codes "trusted_installed_python"))
      ∷ (codes "sandboxed", boolean false)
      ∷ []))

abbrev manifest : Value
manifest = mapping (
    fields (
      (codes "schema_version", integer (pos 1))
      ∷ (codes "workflow_id", string (codes "adds"))
      ∷ (codes "version", string (codes "1"))
      ∷ (codes "definition_sha256", string (hash []))
      ∷ (codes "app_id", string (codes "flow.adds"))
      ∷ (codes "execution", string (codes "single-harness-ordered-tools-v1"))
      ∷ (codes "output_step", string (codes "add"))
      ∷ (codes "step_count", integer (pos 1))
      ∷ (codes "supports_parallel", boolean false)
      ∷ (codes "supports_branches", boolean false)
      ∷ (codes "supports_agent_nodes", boolean false)
      ∷ (codes "trust", trust)
      ∷ (codes "inputs", list (cons slot nil))
      ∷ (codes "steps", list (cons row nil))
      ∷ []))

abbrev names : List Text
names = codes "wf_add" ∷ []

abbrev wrapper : Wrapper
wrapper = record {
  name = codes "wf_add";
  effect = Effect.read_only;
  tool_revision = none;
  schema_sha256 = some (hash []);
}

-- The composed manifest is the one that is accepted above.
composed_test :
    compose_workflow_manifest hash spec (wrapper ∷ []) (codes "flow.adds") ≡ returned manifest
unfolding compose_workflow_manifest effect_beq sorted_arguments text_beq keys_are_text utf8_length
    json_dumps
composed_test = refl
