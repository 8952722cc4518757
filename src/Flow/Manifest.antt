-- ===== src/Flow/Manifest.antt =====
-- `validate_workflow_manifest` of src/sasori_flow/manifest.py: the manifest of a compiled workflow
-- against its definition. A mapping stands for a `dict`.
pub mod Dispatch
pub mod Compose
use sasori.Base.{
  ℕ, suc, Bool, true, false, not, ◌&&◌, ◌||◌, Option, none, some, List, [], ◌∷◌, ◌++◌, all, any,
  filter, length, nat_beq, ◌==◌, if◌then◌else◌,
}
use sasori.Base.Comp.{Outcome, returned, raised}
use sasori.Base.Try.{◌>>=◌, ◌>>◌, refuse_if, from_option}
use sasori.Text.{Text, codes, text_eq, utf8_length}
use sasori.Dict.{Dict}
use sasori.Json.{
  Value, null, boolean, integer, float, string, list, tuple, mapping, Items, nil, cons, Entries,
  end, entry, Key, text, other, pos, fields, get_key, has_key, optional_text,
}
use sasori.Contracts.Types.{Effect}
use sasori.Contracts.Equality.{value_beq, effect_beq}
use sasori.Flow.Values.{Try, FlowError, validation, unicode_error, key_error, canonical_json}
use sasori.Flow.Types.{
  Binding, input_ref, step_ref, literal, ToolStep, is_sha256, sorted_arguments, effect_name,
  type_name,
}
use sasori.Flow.Spec.{WorkflowSpec, spec_digest, step_ids, is_member, slots_data}

abbrev keys_within : List Text → Entries → Bool
keys_within names end = true
keys_within names (entry (text s) v es) = any (λ n. n == s) names && keys_within names es
keys_within names (entry (other s) v es) = false

-- `_exact_object`
unfoldable pub exact_object : List Text → Value → Try Entries
unfolding has_key
exact_object names (mapping es) =
    if keys_within names es && all (λ n. has_key n es) names then returned es else raised validation
exact_object names _ = raised validation

-- `_MANIFEST_KEYS`
abbrev pub manifest_keys : List Text
manifest_keys =
    codes "app_id"
    ∷ codes "definition_sha256"
    ∷ codes "execution"
    ∷ codes "inputs"
    ∷ codes "output_step"
    ∷ codes "schema_version"
    ∷ codes "step_count"
    ∷ codes "steps"
    ∷ codes "supports_agent_nodes"
    ∷ codes "supports_branches"
    ∷ codes "supports_parallel"
    ∷ codes "trust"
    ∷ codes "version"
    ∷ codes "workflow_id"
    ∷ []

-- `_INPUT_KEYS`
abbrev pub input_keys : List Text
input_keys = codes "key" ∷ codes "max_bytes" ∷ codes "required" ∷ codes "type" ∷ []

-- `_STEP_KEYS`
abbrev pub step_keys : List Text
step_keys =
    codes "argument_sources"
    ∷ codes "depends_on"
    ∷ codes "dispatch_schema_sha256"
    ∷ codes "dispatch_tool_name"
    ∷ codes "dispatch_tool_revision"
    ∷ codes "effect"
    ∷ codes "is_output"
    ∷ codes "logical_schema_sha256"
    ∷ codes "logical_tool_name"
    ∷ codes "logical_tool_revision"
    ∷ codes "max_result_bytes"
    ∷ codes "position"
    ∷ codes "recovery_policy"
    ∷ codes "requires_approval"
    ∷ codes "result_type"
    ∷ codes "step_id"
    ∷ []

-- `value[key]`
abbrev pub at : Text → Entries → Value
at key es = elim (get_key key es) [ none ↦ null | some v ↦ v ]

-- `type(v) is int and v == n`
abbrev is_count : ℕ → Value → Bool
is_count n v = elim v [ integer m ↦ elim m [ pos k ↦ nat_beq k n | _ ↦ false ] | _ ↦ false ]

-- `v is False`
abbrev is_false : Value → Bool
is_false v = elim v [ boolean b ↦ not b | _ ↦ false ]

abbrev is_string : Text → Value → Bool
is_string s v = value_beq v (string s)

-- `_nonempty_text`
abbrev pub nonempty_text : Value → Bool
nonempty_text (string (c ∷ s)) = true
nonempty_text _ = false

-- The checks of the identity of the definition.
unfoldable pub check_identity :
    (Text → Text) → WorkflowSpec → Entries → Entries → Text → Try (Unit {0})
unfolding spec_digest get_key value_beq
check_identity sha256 spec value trust app_id = do
  refuse_if (not (is_count 1 (at (codes "schema_version") value))) validation
  refuse_if (not (is_string spec.workflow_id (at (codes "workflow_id") value))) validation
  refuse_if (not (is_string spec.version (at (codes "version") value))) validation
  digest ← spec_digest sha256 spec
  refuse_if (not (is_string digest (at (codes "definition_sha256") value))) validation
  refuse_if
      (not (
        is_string app_id (at (codes "app_id") value)
        && is_string (codes "single-harness-ordered-tools-v1") (at (codes "execution") value)
        && is_string spec.output_step (at (codes "output_step") value)
        && is_count (length spec.steps) (at (codes "step_count") value)
        && is_false (at (codes "supports_parallel") value)
        && is_false (at (codes "supports_branches") value)
        && is_false (at (codes "supports_agent_nodes") value)
        && is_string (codes "trusted_installed_python") (at (codes "execution_mode") trust)
        && is_false (at (codes "sandboxed") trust)))
      validation

-- `_literal_type`, on frozen data.
unfoldable pub literal_type : Value → Try Text
literal_type null = returned (codes "null")
literal_type (boolean b) = returned (codes "boolean")
literal_type (integer n) = returned (codes "integer")
literal_type (float x) = returned (codes "number")
literal_type (string s) = returned (codes "string")
literal_type (mapping es) = returned (codes "object")
literal_type (tuple vs) = returned (codes "array")
literal_type _ = raised validation

-- `_argument_source`
unfoldable pub argument_source : (Text → Text) → Text → Binding → Try Value
unfolding canonical_json literal_type
argument_source sha256 name (input_ref key) = returned (
    mapping (
      fields (
        (codes "name", string name)
        ∷ (codes "kind", string (codes "input"))
        ∷ (codes "ref", string key)
        ∷ [])))
argument_source sha256 name (step_ref step_id) = returned (
    mapping (
      fields (
        (codes "name", string name)
        ∷ (codes "kind", string (codes "step"))
        ∷ (codes "ref", string step_id)
        ∷ [])))
argument_source sha256 name (literal value) = do
  encoded ← canonical_json value
  size ← from_option unicode_error (utf8_length encoded)
  kind ← literal_type value
  returned (
      mapping (
        fields (
          (codes "name", string name)
          ∷ (codes "kind", string (codes "literal"))
          ∷ (codes "value_type", string kind)
          ∷ (codes "canonical_bytes", integer (pos size))
          ∷ (codes "value_sha256", string (sha256 encoded))
          ∷ [])))

unfoldable pub argument_sources : (Text → Text) → Dict Text Binding → Try Items
unfolding argument_source
argument_sources sha256 [] = returned nil
argument_sources sha256 (a ∷ rest) = do
  source ← argument_source sha256 a.0 a.1
  sources ← argument_sources sha256 rest
  returned (cons source sources)

abbrev referenced : Dict Text Binding → List Text
referenced [] = []
referenced (a ∷ rest) = elim a.1 [ step_ref i ↦ i ∷ referenced rest | _ ↦ referenced rest ]

abbrev texts : List Text → Items
texts [] = nil
texts (t ∷ ts) = cons (string t) (texts ts)

-- `dependencies`: the steps that a step refers to, in the order of the definition; a step that the
-- definition does not have is `KeyError`.
unfoldable pub dependencies : WorkflowSpec → ToolStep → Try Items
dependencies spec step = do
  refuse_if (not (all (λ i. is_member i (step_ids spec.steps)) (referenced step.arguments)))
      key_error
  returned (texts (filter (λ i. is_member i (referenced step.arguments)) (step_ids spec.steps)))

-- `_RECOVERY_POLICY`
abbrev pub recovery_policy : Effect → Text
recovery_policy Effect.read_only = codes "read_only_replay_allowed"
recovery_policy Effect.idempotent = codes "same_verified_business_key_only"
recovery_policy Effect.side_effecting = codes "manual_effect_resolution_on_ambiguity"

abbrev pub is_read_only : Effect → Bool
is_read_only effect = effect_beq effect Effect.read_only

-- `expected`
unfoldable pub expected_step :
    (Text → Text) → WorkflowSpec → ℕ → ToolStep → Try (List (Text × Value))
unfolding dependencies argument_sources sorted_arguments effect_beq
expected_step sha256 spec position step = do
  depends_on ← dependencies spec step
  sources ← argument_sources sha256 (sorted_arguments step.arguments)
  returned (
      (codes "position", integer (pos position))
      ∷ (codes "step_id", string step.step_id)
      ∷ (codes "depends_on", list depends_on)
      ∷ (codes "argument_sources", list sources)
      ∷ (codes "logical_tool_name", string step.tool_name)
      ∷ (codes "effect", string (effect_name step.effect))
      ∷ (codes "requires_approval", boolean (not (is_read_only step.effect)))
      ∷ (codes "recovery_policy", string (recovery_policy step.effect))
      ∷ (codes "logical_tool_revision", optional_text step.tool_revision)
      ∷ (codes "logical_schema_sha256", string step.schema_sha256)
      ∷ (codes "result_type", string (type_name step.result_type))
      ∷ (codes "max_result_bytes", integer (pos step.max_result_bytes))
      ∷ (codes "is_output", boolean (step.step_id == spec.output_step))
      ∷ [])

-- `actual`
abbrev actual_step : Entries → List (Text × Value) → List (Text × Value)
actual_step item [] = []
actual_step item (f ∷ fs) = (f.0, at f.0 item) ∷ actual_step item fs

abbrev is_null : Value → Bool
is_null v = elim v [ null ↦ true | _ ↦ false ]

abbrev pub text_or_blank : Value → Text
text_or_blank (string s) = s
text_or_blank _ = []

abbrev is_hash : Value → Bool
is_hash v = elim v [ string s ↦ is_sha256 s | _ ↦ false ]

-- The checks of the dispatch contract of a step, with the names before it.
unfoldable pub is_dispatch : List Text → ToolStep → Entries → Bool
unfolding get_key effect_beq
is_dispatch names step item =
    nonempty_text (at (codes "dispatch_tool_name") item)
    && not (is_member (text_or_blank (at (codes "dispatch_tool_name") item)) names)
    && is_hash (at (codes "dispatch_schema_sha256") item)
    && (if is_read_only step.effect
        then is_null (at (codes "dispatch_tool_revision") item)
        else nonempty_text (at (codes "dispatch_tool_revision") item))

-- The comparison of a row with what the definition says of the step.
unfoldable pub compare_step : (Text → Text) → WorkflowSpec → ℕ → Entries → ToolStep → Try (Unit {0})
unfolding expected_step canonical_json get_key
compare_step sha256 spec position item step = do
  expected ← expected_step sha256 spec position step
  actual_text ← canonical_json (mapping (fields (actual_step item expected)))
  expected_text ← canonical_json (mapping (fields expected))
  refuse_if (not (actual_text == expected_text)) validation

-- One round of the loop over the steps: the name of the step's wrapper.
unfoldable pub check_step :
    (Text → Text) → WorkflowSpec → ℕ → List Text → Value → ToolStep → Try Text
check_step sha256 spec position names stored step = do
  item ← exact_object step_keys stored
  compare_step sha256 spec position item step
  refuse_if (not (is_dispatch names step item)) validation
  returned (text_or_blank (at (codes "dispatch_tool_name") item))

-- The loop; a list of another length was refused before it.
unfoldable pub check_manifest_steps :
    (Text → Text) → WorkflowSpec → ℕ → List Text → Items → List ToolStep → Try (List Text)
check_manifest_steps sha256 spec position names nil [] = returned names
check_manifest_steps sha256 spec position names nil (s ∷ ss) = raised validation
check_manifest_steps sha256 spec position names (cons v vs) [] = raised validation
check_manifest_steps sha256 spec position names (cons v vs) (s ∷ ss) = do
  name ← check_step sha256 spec position names v s
  check_manifest_steps sha256 spec (suc position) (name ∷ names) vs ss

-- A `list`.
abbrev pub listed : Value → Try Items
listed v = elim v [ list vs ↦ returned vs | _ ↦ raised validation ]

abbrev is_exact : Value → Bool
is_exact v = elim (exact_object input_keys v) [ returned es ↦ true | raised e ↦ false ]

abbrev are_inputs : Items → Bool
are_inputs nil = true
are_inputs (cons v vs) = is_exact v && are_inputs vs

-- The checks of the inputs.
unfoldable pub check_inputs : WorkflowSpec → Value → Try (Unit {0})
unfolding canonical_json exact_object
check_inputs spec inputs = do
  items ← listed inputs
  refuse_if (not (are_inputs items)) validation
  actual ← canonical_json inputs
  expected ← canonical_json (list (slots_data spec.inputs))
  refuse_if (not (actual == expected)) validation

abbrev pub count_items : Items → ℕ
count_items nil = 0
count_items (cons v vs) = suc (count_items vs)

abbrev pub trust_keys : List Text
trust_keys = codes "execution_mode" ∷ codes "sandboxed" ∷ []

abbrev pub is_empty : Text → Bool
is_empty [] = true
is_empty (c ∷ s) = false

-- `validate_workflow_manifest`, with the names of the wrappers, the last one first.
unfoldable pub validate_workflow_manifest :
    (Text → Text) → WorkflowSpec → Value → Text → Try (List Text)
validate_workflow_manifest sha256 spec manifest app_id = do
  refuse_if (is_empty app_id) validation
  value ← exact_object manifest_keys manifest
  trust ← exact_object trust_keys (at (codes "trust") value)
  check_identity sha256 spec value trust app_id
  check_inputs spec (at (codes "inputs") value)
  steps ← listed (at (codes "steps") value)
  refuse_if (not (nat_beq (count_items steps) (length spec.steps))) validation
  check_manifest_steps sha256 spec 1 [] steps spec.steps
