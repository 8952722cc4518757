-- ===== src/Flow/Replay/Grows.antt =====
-- `WorkflowModel.replay` and `WorkflowModel.complete` of src/sasori_flow/runtime.py on a history to
-- which the runtime adds the record of a call, its result, or the final reply.
use sasori.Base.{
  ◌≡◌, refl, sym, ap, ◌∙◌, inl, inr, true, not, Option, none, some, List, [], ◌∷◌, ◌++◌, arith,
}
use sasori.Base.Comp.{returned}
use sasori.Base.Try.{◌>>=◌, ◌>>◌, Outcome-cases, >>=-returned, >>-returned, refuse_if}
use sasori.Text.{Text, codes, text_beq_iff, text_eq}
use sasori.Dict.{Dict, put}
use sasori.Json.{Value, Entries}
use sasori.Contracts.Types.{Message, ToolCall, ModelReply}
use sasori.Contracts.Equality.{message_beq}
use sasori.Flow.Values.{integrity}
use sasori.Flow.Spec.{WorkflowSpec}
use sasori.Flow.Records.{
  Host, CompiledStep, plain_message, parse_result, control_message, bound_input,
  input_from_messages,
}
use sasori.Flow.Replay.{
  ReplayStep, WorkflowReplay, Round, stops, goes_on, asks, waits, ends, fails, call_reply,
  text_reply, call_message, expected_call, is_result_of, take_result, replay_round, replay_final,
  final_content, replay_steps, replay,
}
use sasori.Flow.Replay.Rounds.{expected_call-message_beq, replay_round-found, returned_inj}
use sasori.Flow.Replay.Advance.{
  replay_steps-IsResumed, replay_steps-IsFinished, replay_steps-∷, replay_steps-goes_on,
  replay_steps-stops,
}

input_from_messages-append :
    (host : Host) (spec : WorkflowSpec) (ms extra : List Message) (start : Entries × List Message)
    → input_from_messages host spec ms ≡ returned start
    → input_from_messages host spec (ms ++ extra) ≡ returned (start.0, start.1 ++ extra)
unfolding input_from_messages
input_from_messages-append host spec [] extra start h = ground arith
input_from_messages-append host spec (a ∷ []) extra start h = ground arith
input_from_messages-append host spec (a ∷ b ∷ []) extra start h = ground arith
input_from_messages-append host spec (a ∷ b ∷ c ∷ rest) extra start h =
    let (control, k, f) =
      >>=-returned (control_message host spec)
        (λ control.
          refuse_if (not (message_beq a control)) integrity
          >> (bound_input host spec b c >>= λ input. returned (input, rest)))
        start h in
    let (same, g) =
      >>-returned (refuse_if (not (message_beq a control)) integrity)
        (bound_input host spec b c >>= λ input. returned (input, rest)) start f in
    let (input, i, e) =
      >>=-returned (bound_input host spec b c) (λ input. returned (input, rest)) start g in
    let found : (input, rest) ≡ start = ground arith in rw (sym found) (rw (k, same, i) refl)

-- A replay of a longer history begins as that of the shorter one.
replay-append :
    (host : Host) (spec : WorkflowSpec) (steps : List CompiledStep) (ms extra : List Message)
    (r : WorkflowReplay)
    → replay host spec steps ms ≡ returned r
    → (input : Entries) × (rest : List Message) × (replay_steps host spec input [] [] steps rest
        ≡ returned r)
      × (replay host spec steps (ms ++ extra)
          ≡ replay_steps host spec input [] [] steps (rest ++ extra))
unfolding replay
replay-append host spec steps ms extra r h =
    let (start, i, k) =
      >>=-returned (input_from_messages host spec ms)
        (λ start. replay_steps host spec start.0 [] [] steps start.1) r h in
    (start.0, start.1, k, rw (input_from_messages-append host spec ms extra start i) refl)

-- The replay of a history that asks for a call, with more records, is at the step of that call.
replay-IsResumed :
    (host : Host) (spec : WorkflowSpec) (steps : List CompiledStep) (ms extra : List Message)
    (d : List ReplayStep) (call : ToolCall)
    → replay host spec steps ms ≡ returned (asks d (call_reply call))
    → (input : Entries) × (later : Dict Text Value) × (c : CompiledStep) × (others : List
        CompiledStep)
      × (expected_call host spec c input later ≡ returned call)
      × (replay host spec steps (ms ++ extra)
          ≡ replay_steps host spec input later d (c ∷ others) extra)
replay-IsResumed host spec steps ms extra d call h =
    let (input, rest, k, more) =
      replay-append host spec steps ms extra (asks d (call_reply call)) h in
    let (later, c, others, e, on) =
      replay_steps-IsResumed host spec input [] [] d steps rest call k in
    (input, later, c, others, e, more ∙ on extra)

abbrev stepped : CompiledStep → ToolCall → Option Message → ReplayStep
stepped c call result = record { compiled = c; call = call; result = result }

replay_round-waits :
    (host : Host) (spec : WorkflowSpec) (d : List ReplayStep) (c : CompiledStep) (call : ToolCall)
    → message_beq (call_message call) (call_message call) ≡ true
    → replay_round host spec d c call (call_message call ∷ [])
      ≡ returned (stops (waits (d ++ stepped c call none ∷ []) call))
unfolding replay_round
replay_round-waits host spec d c call h = rw h refl

-- When the replay of a history asks for a call, the history with the record of that call replays to
-- one that waits for the call's result, with the step of the call after the steps before.
pub replay-appended_call :
    (host : Host) (spec : WorkflowSpec) (steps : List CompiledStep) (ms : List Message)
    (d : List ReplayStep) (call : ToolCall)
    → replay host spec steps ms ≡ returned (asks d (call_reply call))
    → (c : CompiledStep) × (replay host spec steps (ms ++ call_message call ∷ [])
        ≡ returned (waits (d ++ record { compiled = c; call = call; result = none } ∷ []) call))
replay-appended_call host spec steps ms d call h =
    let (input, later, c, others, e, more) =
      replay-IsResumed host spec steps ms (call_message call ∷ []) d call h in
    let same = expected_call-message_beq host spec c input later call e in
    (
      c,
      more
          ∙ replay_steps-stops host spec input later d c others (call_message call ∷ []) call
              (waits (d ++ stepped c call none ∷ []) call) e
              (replay_round-waits host spec d c call same),
    )

take_result-fails :
    (host : Host) (spec : WorkflowSpec) (d : List ReplayStep) (c : CompiledStep) (call : ToolCall)
    (result : Message) (code : Text)
    → is_result_of call result ≡ true
    → result.error_code ≡ some code
    → take_result host spec d c call result []
      ≡ returned (
          stops
            (fails (d ++ stepped c call (some result) ∷ []) (c.step.step_id, code, result.content)))
unfolding take_result
take_result-fails host spec d c call result code i e = simp (i, e)

-- When the replay of a history asks for a call, and the runtime records the call and a result of it
-- with an error code, the replay is a failure of the call's step with that code and content.
pub replay-appended_error :
    (host : Host) (spec : WorkflowSpec) (steps : List CompiledStep) (ms : List Message)
    (d : List ReplayStep) (call : ToolCall) (result : Message) (code : Text)
    → replay host spec steps ms ≡ returned (asks d (call_reply call))
    → is_result_of call result ≡ true
    → result.error_code ≡ some code
    → (c : CompiledStep) × (replay host spec steps (ms ++ call_message call ∷ result ∷ [])
        ≡ returned (
            fails
              (d ++ record { compiled = c; call = call; result = some result } ∷ [])
              (c.step.step_id, code, result.content)))
replay-appended_error host spec steps ms d call result code h i e =
    let (input, later, c, others, x, more) =
      replay-IsResumed host spec steps ms (call_message call ∷ result ∷ []) d call h in
    let same = expected_call-message_beq host spec c input later call x in
    (
      c,
      more
          ∙ replay_steps-stops host spec input later d c others (call_message call ∷ result ∷ [])
              call
              (fails (d ++ stepped c call (some result) ∷ [])
                (c.step.step_id, code, result.content))
              x
              (replay_round-found host spec d c call (call_message call) result [] same
                ∙ take_result-fails host spec d c call result code i e),
    )

-- A replay that has no record left to read asks for the next reply.
replay_steps-asks :
    (host : Host) (spec : WorkflowSpec) (input : Entries) (outputs : Dict Text Value)
    (d : List ReplayStep) (cs : List CompiledStep) (r : WorkflowReplay)
    → replay_steps host spec input outputs d cs [] ≡ returned r
    → (reply : ModelReply) × (r ≡ asks d reply)
unfolding replay_steps replay_final replay_round
replay_steps-asks host spec input outputs d [] r h =
    let (content, c, f) =
      >>=-returned (final_content host spec outputs) (λ content. replay_final d content []) r h in
    (text_reply content, ground arith)
replay_steps-asks host spec input outputs d (c ∷ cs) r h =
    elim (Outcome-cases (expected_call host spec c input outputs)) [
      | inr (e, p) ↦ ground arith
      | inl (call, p) ↦ (call_reply call, ground arith)
    ]

take_result-good :
    (host : Host) (spec : WorkflowSpec) (d : List ReplayStep) (c : CompiledStep) (call : ToolCall)
    (result : Message) (round : Round)
    → result.error_code ≡ none
    → take_result host spec d c call result [] ≡ returned round
    → (output : Value) × (is_result_of call result ≡ true)
      × (parse_result host spec c.step result.content ≡ returned output)
      × (round ≡ goes_on (stepped c call (some result)) output [])
unfolding take_result
take_result-good host spec d c call result round e h =
    elim (Outcome-cases (parse_result host spec c.step result.content)) [
      | inr (x, q) ↦ ground arith
      | inl (output, q) ↦ (output, ground arith, q, ground arith)
    ]

-- When the replay of a history asks for a call, and the history with the record of the call and a
-- result without error code still has a replay, the result is one of the call, its content is an
-- envelope of the step's output, and the replay asks for the next reply with the step added.
pub replay-appended_result :
    (host : Host) (spec : WorkflowSpec) (steps : List CompiledStep) (ms : List Message)
    (d : List ReplayStep) (call : ToolCall) (result : Message) (r : WorkflowReplay)
    → replay host spec steps ms ≡ returned (asks d (call_reply call))
    → result.error_code ≡ none
    → replay host spec steps (ms ++ call_message call ∷ result ∷ []) ≡ returned r
    → (c : CompiledStep) × (output : Value) × (reply : ModelReply) × (is_result_of call result
        ≡ true)
      × (parse_result host spec c.step result.content ≡ returned output)
      × (r ≡ asks (d ++ record { compiled = c; call = call; result = some result } ∷ []) reply)
replay-appended_result host spec steps ms d call result r h e grown =
    let records = call_message call ∷ result ∷ [] in
    let (input, later, c, others, x, more) = replay-IsResumed host spec steps ms records d call h in
    let same = expected_call-message_beq host spec c input later call x in
    let on = sym more ∙ grown in
    let (made, round, p, q) = replay_steps-∷ host spec input later d c others records r on in
    let is_call : made ≡ call = returned_inj (sym p ∙ x) in
    let taken =
      sym (replay_round-found host spec d c call (call_message call) result [] same)
      ∙ (ap (λ l. replay_round host spec d c l records) (sym is_call) ∙ q) in
    let (output, i, o, g) = take_result-good host spec d c call result round e taken in
    let found =
      ap (λ l. replay_round host spec d c l records) (sym is_call) ∙ (q ∙ ap returned g) in
    let goes =
      replay_steps-goes_on host spec input later d c others records [] call
        (stepped c call (some result)) output x found in
    let (reply, asked) =
      replay_steps-asks host spec input (put c.step.step_id output later)
        (d ++ stepped c call (some result) ∷ []) others r (sym goes ∙ on) in
    (c, output, reply, i, o, asked)

replay_final-ends :
    (d : List ReplayStep) (content : Text)
    → replay_final d content (plain_message (codes "assistant") content ∷ [])
      ≡ returned (ends d (plain_message (codes "assistant") content))
unfolding replay_final message_beq
replay_final-ends d content = ground (arith, text_beq_iff content content)

-- When the replay of a history asks for the final reply, the history with the record of that reply
-- replays to the end of the workflow, with the same steps.
pub replay-appended_final :
    (host : Host) (spec : WorkflowSpec) (steps : List CompiledStep) (ms : List Message)
    (d : List ReplayStep) (content : Text)
    → replay host spec steps ms ≡ returned (asks d (text_reply content))
    → replay host spec steps (ms ++ plain_message (codes "assistant") content ∷ [])
      ≡ returned (ends d (plain_message (codes "assistant") content))
unfolding replay_steps
replay-appended_final host spec steps ms d content h =
    let final = plain_message (codes "assistant") content in
    let (input, rest, k, more) =
      replay-append host spec steps ms (final ∷ []) (asks d (text_reply content)) h in
    let (later, f, on) = replay_steps-IsFinished host spec input [] [] d steps rest content k in
    more ∙ (on (final ∷ []) ∙ rw f (replay_final-ends d content))
