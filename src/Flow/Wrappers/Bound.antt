-- ===== src/Flow/Wrappers/Bound.antt =====
-- What a wrapper tool of src/sasori_flow/runtime.py has checked when it runs the tool under it.
use sasori.Base.{◌≡◌, refl, sym, ap, ◌∙◌, inl, inr, true, false, not, Option-cases, some, arith}
use sasori.Base.Comp.{returned}
use sasori.Base.Try.{
  ◌>>=◌, ◌>>◌, Outcome-cases, >>=-returned, >>-returned, refuse_if, refuse_if-returned,
}
use sasori.Text.{Text, text_beq, text_beq_iff, text_eq}
use sasori.Dict.{Dict}
use sasori.Json.{Value, string, mapping, Entries, keys_are_text}
use sasori.Contracts.Types.{ToolCall, given}
use sasori.Flow.Values.{Try, integrity, canonical_json}
use sasori.Flow.Types.{ToolStep}
use sasori.Flow.Spec.{WorkflowSpec, spec_digest}
use sasori.Flow.Records.{Host, CompiledStep, outer_arguments, result_envelope}
use sasori.Flow.Inputs.{resolve_arguments}
use sasori.Flow.Replay.{expected_call}
use sasori.Flow.Replay.Rounds.{envelope, expected_call-made, text_beq_refl}
use sasori.Flow.Wrappers.{
  BaseTool, Envelope, payload_entries, parse_payload, base_idempotency_key,
  workflow_idempotency_key, underlying_arguments, invoke_idempotent,
}

-- The envelope is of the workflow and the step, and its text is the canonical one of the payload.
abbrev pub IsBound : Host → WorkflowSpec → ToolStep → Envelope → Entries → Type 0
IsBound host spec step e payload =
    (spec_digest host.sha256 spec ≡ returned e.definition_sha256)
    × (e.step_id ≡ step.step_id)
    × (canonical_json (mapping payload) ≡ returned e.payload_json)

same_text_lem : (s t : Text) → not (text_beq s t) ≡ false → s ≡ t
same_text_lem s t h = ground (arith, text_beq_iff s t)

parse_payload-IsBound :
    (host : Host) (spec : WorkflowSpec) (step : ToolStep) (e : Envelope) (payload : Entries)
    → parse_payload host spec step e.definition_sha256 e.step_id e.payload_json ≡ returned payload
    → IsBound host spec step e payload
unfolding parse_payload
parse_payload-IsBound host spec step e payload h =
    elim (Outcome-cases (spec_digest host.sha256 spec)) [
      | inr (x, p) ↦ ground arith
      | inl (digest, p) ↦ elim (Option-cases (host.loads e.payload_json)) [
        | inl q ↦ ground arith
        | inr (parsed, q) ↦ elim (Outcome-cases (payload_entries parsed)) [
          | inr (x, r) ↦ ground arith
          | inl (es, r) ↦ elim (Outcome-cases (canonical_json (mapping es))) [
            | inr (x, s) ↦ ground arith
            | inl (encoded, s) ↦ (
              ground (arith, text_beq_iff e.definition_sha256 digest),
              ground (arith, text_beq_iff e.step_id step.step_id),
              ground (arith, text_beq_iff e.payload_json encoded),
            )
          ]
        ]
      ]
    ]

-- When the wrapper of an idempotent tool returns a value, its envelope was of the workflow and the
-- step with the canonical text of a payload, the key that it was given is the one derived from the
-- tool's own key for the payload, and the value is the envelope of what the tool's handler returned
-- for the payload with the tool's own key.
pub invoke_idempotent-IsBound :
    (host : Host) (spec : WorkflowSpec) (step : ToolStep) (tool : BaseTool) (e : Envelope)
    (key : Text) (v : Value)
    → invoke_idempotent host spec step tool e key ≡ returned v
    → (payload : Entries) × (base_key : Text) × (value : Value) × IsBound host spec step e payload
      × (base_idempotency_key tool payload ≡ returned base_key)
      × (workflow_idempotency_key host spec step base_key ≡ returned key)
      × (tool.handler (underlying_arguments tool payload (some base_key)) ≡ returned value)
      × (result_envelope host spec step value ≡ returned v)
unfolding invoke_idempotent
invoke_idempotent-IsBound host spec step tool e key v h =
    let run : Entries → Text → Try Value = λ payload base_key.
      tool.handler (underlying_arguments tool payload (some base_key)) >>= λ value.
      result_envelope host spec step value in
    let guarded : Entries → Text → Text → Try Value = λ payload base_key expected.
      refuse_if (not (text_beq key expected)) integrity >> run payload base_key in
    let (payload, p, h1) =
      >>=-returned (parse_payload host spec step e.definition_sha256 e.step_id e.payload_json)
        (λ payload. base_idempotency_key tool payload >>= λ base_key.
          workflow_idempotency_key host spec step base_key >>= λ expected.
          guarded payload base_key expected)
        v h in
    let (base_key, b, h2) =
      >>=-returned (base_idempotency_key tool payload)
        (λ base_key. workflow_idempotency_key host spec step base_key >>= λ expected.
          guarded payload base_key expected)
        v h1 in
    let (expected, w, h3) =
      >>=-returned (workflow_idempotency_key host spec step base_key)
        (λ expected. guarded payload base_key expected) v h2 in
    let (ok, h4) =
      >>-returned (refuse_if (not (text_beq key expected)) integrity) (run payload base_key) v h3 in
    let (value, r, h5) =
      >>=-returned (tool.handler (underlying_arguments tool payload (some base_key)))
        (λ value. result_envelope host spec step value) v h4 in
    let same =
      same_text_lem key expected (refuse_if-returned (not (text_beq key expected)) integrity ok) in
    (
      payload,
      base_key,
      value,
      parse_payload-IsBound host spec step e payload p,
      b,
      w ∙ ap returned (sym same),
      r,
      h5,
    )

payload_entries-mapping :
    (es : Entries) → keys_are_text es ≡ true → payload_entries (mapping es) ≡ returned es
unfolding payload_entries
payload_entries-mapping es h = rw h refl

outer_arguments-canonical :
    (host : Host) (spec : WorkflowSpec) (c : CompiledStep) (input : Entries)
    (outputs : Dict Text Value) (v : Value) (es : Entries) (payload : Text)
    → outer_arguments host spec c input outputs ≡ returned v
    → resolve_arguments c.step input outputs ≡ returned es
    → canonical_json (mapping es) ≡ returned payload
    → (digest : Text) × (v ≡ envelope digest c.step.step_id payload)
      × (spec_digest host.sha256 spec ≡ returned digest)
unfolding outer_arguments
outer_arguments-canonical host spec c input outputs v es payload h r n =
    elim (Outcome-cases (spec_digest host.sha256 spec)) [
      | inr (e, q) ↦ ground arith
      | inl (digest, q) ↦ (digest, ground arith, q)
    ]

-- The call that the model of a workflow expects at a step is one that the step's wrapper takes. It
-- names the wrapper, and its arguments are an envelope of the definition's digest, the step's own
-- identifier and the canonical text of the step's resolved arguments. Where `json.loads` reads that
-- text back as a mapping with text keys and the same canonical form, the wrapper parses the envelope
-- to that mapping.
pub expected_call-parse_payload :
    (host : Host) (spec : WorkflowSpec) (c : CompiledStep) (input : Entries)
    (outputs : Dict Text Value) (call : ToolCall) (es fs : Entries) (payload : Text)
    → expected_call host spec c input outputs ≡ returned call
    → resolve_arguments c.step input outputs ≡ returned es
    → canonical_json (mapping es) ≡ returned payload
    → host.loads payload ≡ some (mapping fs)
    → keys_are_text fs ≡ true
    → canonical_json (mapping fs) ≡ canonical_json (mapping es)
    → (digest : Text) × (call.name ≡ string c.wrapper_name)
      × (call.arguments ≡ given (envelope digest c.step.step_id payload))
      × (parse_payload host spec c.step digest c.step.step_id payload ≡ returned fs)
unfolding parse_payload
expected_call-parse_payload host spec c input outputs call es fs payload h r n l k same =
    let (id, v, o, made) = expected_call-made host spec c input outputs call h in
    let (digest, e, d) = outer_arguments-canonical host spec c input outputs v es payload o r n in
    let read = payload_entries-mapping fs k in
    let encoded = same ∙ n in
    (
      digest,
      ap (λ x. x.name) made,
      ap (λ x. x.arguments) made ∙ ap given e,
      simp (
        d,
        l,
        read,
        encoded,
        text_beq_refl digest,
        text_beq_refl c.step.step_id,
        text_beq_refl payload,
      ),
    )
