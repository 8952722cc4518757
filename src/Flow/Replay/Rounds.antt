-- ===== src/Flow/Replay/Rounds.antt =====
-- One round of the loop of `WorkflowModel.replay` in src/sasori_flow/runtime.py.
use sasori.Base.{
  ◌≡◌, refl, sym, ap, ◌∙◌, ◌⊎◌, inl, inr, Bool, true, false, not, Option-cases, none, List, [], ◌∷◌,
  ◌++◌, arith,
}
use sasori.Base.Comp.{returned}
use sasori.Base.Try.{Outcome-cases, >>-returned, refuse_if, refuse_if-returned}
use sasori.Text.{Text, codes, text_beq, text_beq_iff, text_eq}
use sasori.Dict.{Dict}
use sasori.Json.{Value, boolean, string, mapping, Entries, fields}
use sasori.Contracts.Types.{Message, ToolCall, given, ModelReply}
use sasori.Contracts.Equality.{value_beq, message_beq}
use sasori.Flow.Values.{Try, integrity, canonical_json}
use sasori.Flow.Spec.{WorkflowSpec, spec_digest}
use sasori.Flow.Inputs.{resolve_arguments}
use sasori.Flow.Records.{Host, CompiledStep, call_id, outer_arguments, parse_result}
use sasori.Flow.Replay.{
  ReplayStep, WorkflowReplay, Round, stops, goes_on, asks, waits, call_reply, call_message,
  expected_call, take_result, replay_round,
}

-- The envelope of a call, by its three texts.
abbrev pub envelope : Text → Text → Text → Value
envelope digest step_id payload = mapping (
    fields (
      (codes "definition_sha256", string digest)
      ∷ (codes "step_id", string step_id)
      ∷ (codes "payload_json", string payload)
      ∷ []))

abbrev pub made_call : Text → Text → Value → ToolCall
made_call id name arguments = record {
  id = string id;
  name = string name;
  arguments = given arguments;
  complete = boolean true;
}

pub outer_arguments-envelope :
    (host : Host) (spec : WorkflowSpec) (c : CompiledStep) (input : Entries)
    (outputs : Dict Text Value) (v : Value)
    → outer_arguments host spec c input outputs ≡ returned v
    → (digest : Text) × (payload : Text) × (v ≡ envelope digest c.step.step_id payload)
      × (spec_digest host.sha256 spec ≡ returned digest)
unfolding outer_arguments
outer_arguments-envelope host spec c input outputs v h =
    elim (Outcome-cases (resolve_arguments c.step input outputs)) [
      | inr (e, p) ↦ ground arith
      | inl (payload, p) ↦ elim (Outcome-cases (spec_digest host.sha256 spec)) [
        | inr (e, q) ↦ ground arith
        | inl (digest, q) ↦ elim (Outcome-cases (canonical_json (mapping payload))) [
          | inr (e, r) ↦ ground arith
          | inl (encoded, r) ↦ (digest, encoded, ground arith, q)
        ]
      ]
    ]

pub expected_call-made :
    (host : Host) (spec : WorkflowSpec) (c : CompiledStep) (input : Entries)
    (outputs : Dict Text Value) (call : ToolCall)
    → expected_call host spec c input outputs ≡ returned call
    → (id : Text) × (v : Value) × (outer_arguments host spec c input outputs ≡ returned v)
      × (call ≡ made_call id c.wrapper_name v)
unfolding expected_call
expected_call-made host spec c input outputs call h =
    elim (Outcome-cases (call_id host spec c.step)) [
      | inr (e, p) ↦ ground arith
      | inl (id, p) ↦ elim (Outcome-cases (outer_arguments host spec c input outputs)) [
        | inr (e, q) ↦ ground arith
        | inl (v, q) ↦ (id, v, q, ground arith)
      ]
    ]

pub text_beq_refl : (s : Text) → text_beq s s ≡ true
text_beq_refl s = (text_beq_iff s s).1 refl

made_call-message_beq :
    (id name digest step_id payload : Text)
    → message_beq
        (call_message (made_call id name (envelope digest step_id payload)))
        (call_message (made_call id name (envelope digest step_id payload)))
      ≡ true
unfolding message_beq value_beq
made_call-message_beq id name digest step_id payload = simp (
  text_beq_refl id,
  text_beq_refl name,
  text_beq_refl digest,
  text_beq_refl step_id,
  text_beq_refl payload,
)

-- The record of an expected call is the one that a replay looks for.
pub expected_call-message_beq :
    (host : Host) (spec : WorkflowSpec) (c : CompiledStep) (input : Entries)
    (outputs : Dict Text Value) (call : ToolCall)
    → expected_call host spec c input outputs ≡ returned call
    → message_beq (call_message call) (call_message call) ≡ true
expected_call-message_beq host spec c input outputs call h =
    let (id, v, o, made) = expected_call-made host spec c input outputs call h in
    let (digest, payload, e, _) = outer_arguments-envelope host spec c input outputs v o in
    rw (made, e) (made_call-message_beq id c.wrapper_name digest c.step.step_id payload)

pub returned_inj : {A : Type 0} {x y : A} → ◌≡◌ {A = Try A} (returned x) (returned y) → x ≡ y
returned_inj h = ground arith

pub call_reply_inj : {x y : ToolCall} → call_reply x ≡ call_reply y → x ≡ y
call_reply_inj h = ground arith

pub not_lem : (b : Bool) → not b ≡ false → b ≡ true
not_lem b h = ground arith

module _ (host : Host) (spec : WorkflowSpec) where
  pub take_result-append :
      (done : List ReplayStep) (c : CompiledStep) (call : ToolCall) (result : Message)
      (ms extra rest : List Message) (s : ReplayStep) (output : Value)
      → take_result host spec done c call result ms ≡ returned (goes_on s output rest)
      → (rest ≡ ms)
        × (take_result host spec done c call result (ms ++ extra)
            ≡ returned (goes_on s output (ms ++ extra)))
  unfolding take_result
  take_result-append done c call result ms extra rest s output h =
      elim (Option-cases result.error_code) [
        | inr (code, p) ↦ ground arith
        | inl p ↦ elim (Outcome-cases (parse_result host spec c.step result.content)) [
          | inr (e, q) ↦ ground arith
          | inl (o, q) ↦ (ground arith, ground arith)
        ]
      ]

  -- A round that returned on two records has found the expected call and taken its result.
  pub replay_round-∷∷ :
      (done : List ReplayStep) (c : CompiledStep) (call : ToolCall) (a r : Message)
      (later : List Message) (x : Round)
      → replay_round host spec done c call (a ∷ r ∷ later) ≡ returned x
      → (message_beq a (call_message call) ≡ true)
        × (take_result host spec done c call r later ≡ returned x)
  unfolding replay_round
  replay_round-∷∷ done c call a r later x h =
      let both =
        >>-returned (refuse_if (not (message_beq a (call_message call))) integrity)
          (take_result host spec done c call r later) x h in
      (
        not_lem (message_beq a (call_message call))
            (refuse_if-returned (not (message_beq a (call_message call))) integrity both.0),
        both.1,
      )

  pub replay_round-found :
      (done : List ReplayStep) (c : CompiledStep) (call : ToolCall) (a r : Message)
      (later : List Message)
      → message_beq a (call_message call) ≡ true
      → replay_round host spec done c call (a ∷ r ∷ later)
        ≡ take_result host spec done c call r later
  unfolding replay_round
  replay_round-found done c call a r later h = rw h refl

  -- With less than two records no output goes on.
  replay_round_short :
      (done : List ReplayStep) (c : CompiledStep) (call : ToolCall) (a : Message) (x : Round)
      → (replay_round host spec done c call [] ≡ returned x)
        ⊎ (replay_round host spec done c call (a ∷ []) ≡ returned x)
      → (r : WorkflowReplay) × (x ≡ stops r)
  unfolding replay_round
  replay_round_short done c call a x (inl h) = (asks done (call_reply call), ground arith)
  replay_round_short done c call a x (inr h) =
      (waits (done ++ record { compiled = c; call = call; result = none } ∷ []) call, ground arith)

  pub replay_round-append :
      (done : List ReplayStep) (c : CompiledStep) (call : ToolCall) (ms extra rest : List Message)
      (s : ReplayStep) (output : Value)
      → replay_round host spec done c call ms ≡ returned (goes_on s output rest)
      → replay_round host spec done c call (ms ++ extra)
        ≡ returned (goes_on s output (rest ++ extra))
  replay_round-append done c call (a ∷ r ∷ later) extra rest s output h =
      let (same, taken) = replay_round-∷∷ done c call a r later (goes_on s output rest) h in
      let (e, more) = take_result-append done c call r later extra rest s output taken in
      replay_round-found done c call a r (later ++ extra) same
      ∙ (more ∙ ap (λ l. returned (goes_on s output (l ++ extra))) (sym e))
  replay_round-append done c call [] extra rest s output h =
      let short =
        replay_round_short done c call (call_message call) (goes_on s output rest) (inl h) in
      ground (arith, short.1)
  replay_round-append done c call (a ∷ []) extra rest s output h =
      let short = replay_round_short done c call a (goes_on s output rest) (inr h) in
      ground (arith, short.1)

  pub take_result-asks :
      (done d : List ReplayStep) (c : CompiledStep) (call : ToolCall) (result : Message)
      (ms : List Message) (reply : ModelReply)
      → ¬ (take_result host spec done c call result ms ≡ returned (stops (asks d reply)))
  unfolding take_result
  take_result-asks done d c call result ms reply h = elim (Option-cases result.error_code) [
    | inr (code, p) ↦ ground arith
    | inl p ↦ elim (Outcome-cases (parse_result host spec c.step result.content)) [
      | inr (e, q) ↦ ground arith
      | inl (o, q) ↦ ground arith
    ]
  ]

  -- A round that asks for a call has read nothing.
  pub replay_round-asks :
      (done d : List ReplayStep) (c : CompiledStep) (call : ToolCall) (ms : List Message)
      (reply : ModelReply)
      → replay_round host spec done c call ms ≡ returned (stops (asks d reply))
      → (ms ≡ []) × (d ≡ done) × (reply ≡ call_reply call)
  unfolding replay_round
  replay_round-asks done d c call [] reply h = (refl, ground arith, ground arith)
  replay_round-asks done d c call (a ∷ []) reply h = ground arith
  replay_round-asks done d c call (a ∷ r ∷ later) reply h =
      let taken = (replay_round-∷∷ done c call a r later (stops (asks d reply)) h).1 in
      absurd (take_result-asks done d c call r later reply taken)
