-- ===== src/Flow/Replay/Complete.antt =====
-- `WorkflowModel.complete` of src/sasori_flow/runtime.py, by the way its replay ends.
use sasori.Base.{
  ◌≡◌, ◌↔◌, refl, sym, ap, ◌∙◌, inl, inr, Option-cases, none, some, List, [], ◌∷◌, ◌++◌, arith,
  true, map, Comparable,
}
use sasori.Base.Comp.{returned}
use sasori.Base.Try.{Outcome-cases, >>=-returned, >>-returned}
use sasori.Text.{Text, text_eq}
use sasori.Dict.{Dict, put}
use sasori.Json.{Value, Entries}
use sasori.Contracts.Types.{Message, ToolCall, ModelReply}
use sasori.Flow.Spec.{WorkflowSpec}
use sasori.Flow.Records.{Host, CompiledStep, parse_result, input_from_messages}
use sasori.Flow.Replay.{
  ReplayStep, WorkflowReplay, stops, goes_on, asks, waits, ends, fails, call_reply, text_reply,
  take_result, replay_round, replay_final, final_content, replay_steps, replay, same_tools,
  complete_history, complete,
}
use sasori.Flow.Replay.Rounds.{returned_inj, replay_round-∷∷}
use sasori.Flow.Replay.Advance.{replay_steps-∷, replay_steps-goes_on, replay_steps-stops}

-- The four ways in which a replay ends.
data IsOutcome : WorkflowReplay → Type 0 where
  is_asking : (d : List ReplayStep) (reply : ModelReply) → IsOutcome (asks d reply)
  is_waiting : (d : List ReplayStep) (call : ToolCall) → IsOutcome (waits d call)
  is_ended : (d : List ReplayStep) (final : Message) → IsOutcome (ends d final)
  is_failed : (d : List ReplayStep) (failure : Text × Text × Text) → IsOutcome (fails d failure)

module _ (host : Host) (spec : WorkflowSpec) where
  take_result-IsOutcome :
      (done : List ReplayStep) (c : CompiledStep) (call : ToolCall) (result : Message)
      (ms : List Message) (r : WorkflowReplay)
      → take_result host spec done c call result ms ≡ returned (stops r)
      → IsOutcome r
  unfolding take_result
  take_result-IsOutcome done c call result ms r h = elim (Option-cases result.error_code) [
    | inr (code, p) ↦
        let step : ReplayStep = record { compiled = c; call = call; result = some result } in
        let same : fails (done ++ step ∷ []) (c.step.step_id, code, result.content) ≡ r =
          ground arith in
        rw (sym same) (is_failed (done ++ step ∷ []) (c.step.step_id, code, result.content))
    | inl p ↦ elim (Outcome-cases (parse_result host spec c.step result.content)) [
      | inr (e, q) ↦ ground arith
      | inl (o, q) ↦ ground arith
    ]
  ]

  replay_round-IsOutcome :
      (done : List ReplayStep) (c : CompiledStep) (call : ToolCall) (ms : List Message)
      (r : WorkflowReplay)
      → replay_round host spec done c call ms ≡ returned (stops r)
      → IsOutcome r
  unfolding replay_round
  replay_round-IsOutcome done c call [] r h =
      let same : asks done (call_reply call) ≡ r = ground arith in
      rw (sym same) (is_asking done (call_reply call))
  replay_round-IsOutcome done c call (a ∷ []) r h =
      let step : ReplayStep = record { compiled = c; call = call; result = none } in
      let same : waits (done ++ step ∷ []) call ≡ r = ground arith in
      rw (sym same) (is_waiting (done ++ step ∷ []) call)
  replay_round-IsOutcome done c call (a ∷ b ∷ later) r h =
      take_result-IsOutcome done c call b later r
        (replay_round-∷∷ host spec done c call a b later (stops r) h).1

  replay_final-IsOutcome :
      (done : List ReplayStep) (content : Text) (ms : List Message) (r : WorkflowReplay)
      → replay_final done content ms ≡ returned r
      → IsOutcome r
  unfolding replay_final
  replay_final-IsOutcome done content [] r h =
      let same : asks done (text_reply content) ≡ r = ground arith in
      rw (sym same) (is_asking done (text_reply content))
  replay_final-IsOutcome done content (m ∷ ms) r h =
      let same = returned_inj (>>-returned _ (returned (ends done m)) r h).1 in
      rw (sym same) (is_ended done m)

  replay_steps-IsOutcome :
      (input : Entries) (outputs : Dict Text Value) (done : List ReplayStep)
      (cs : List CompiledStep) (ms : List Message) (r : WorkflowReplay)
      → replay_steps host spec input outputs done cs ms ≡ returned r
      → IsOutcome r
  unfolding replay_steps
  replay_steps-IsOutcome input outputs done [] ms r h =
      let (content, c, f) =
        >>=-returned (final_content host spec outputs) (λ content. replay_final done content ms) r
          h in
      replay_final-IsOutcome done content ms r f
  replay_steps-IsOutcome input outputs done (c ∷ cs) ms r h =
      let (made, round, p, q) = replay_steps-∷ host spec input outputs done c cs ms r h in
      elim round as (λ x. replay_round host spec done c made ms ≡ returned x → IsOutcome r) [
        | stops x ↦ λ z.
            let same : x ≡ r =
              returned_inj
                (sym (replay_steps-stops host spec input outputs done c cs ms made x p z) ∙ h) in
            rw (sym same) (replay_round-IsOutcome done c made ms x z)
        | goes_on s output rest ↦ λ z.
            replay_steps-IsOutcome input (put c.step.step_id output outputs) (done ++ s ∷ []) cs
              rest r
              (sym
                  (replay_steps-goes_on host spec input outputs done c cs ms rest made s output p z)
                ∙ h)
      ]
        q

replay-IsOutcome :
    (host : Host) (spec : WorkflowSpec) (steps : List CompiledStep) (ms : List Message)
    (r : WorkflowReplay)
    → replay host spec steps ms ≡ returned r
    → IsOutcome r
unfolding replay
replay-IsOutcome host spec steps ms r h =
    let (start, i, k) =
      >>=-returned (input_from_messages host spec ms)
        (λ start. replay_steps host spec start.0 [] [] steps start.1) r h in
    replay_steps-IsOutcome host spec start.0 [] [] steps start.1 r k

completed-reply :
    (host : Host) (spec : WorkflowSpec) (steps : List CompiledStep) (ms : List Message)
    (r : WorkflowReplay) (reply : ModelReply)
    → replay host spec steps ms ≡ returned r
    → IsOutcome r
    → complete_history host spec steps ms ≡ returned reply
    → (d : List ReplayStep) × (r ≡ asks d reply)
unfolding complete_history
completed-reply host spec steps ms r reply h (is_asking d made) c = (d, ground arith)
completed-reply host spec steps ms r reply h (is_waiting d call) c = ground arith
completed-reply host spec steps ms r reply h (is_ended d final) c = ground arith
completed-reply host spec steps ms r reply h (is_failed d failure) c = ground arith

complete-replayed :
    (host : Host) (spec : WorkflowSpec) (steps : List CompiledStep) (ms : List Message)
    (reply : ModelReply)
    → complete_history host spec steps ms ≡ returned reply
    → (r : WorkflowReplay) × (replay host spec steps ms ≡ returned r)
unfolding complete_history
complete-replayed host spec steps ms reply h = elim (Outcome-cases (replay host spec steps ms)) [
  | inr (e, p) ↦ ground arith
  | inl (r, p) ↦ (r, p)
]

complete_history-asks :
    (host : Host) (spec : WorkflowSpec) (steps : List CompiledStep) (ms : List Message)
    (reply : ModelReply)
    → (complete_history host spec steps ms ≡ returned reply)
      ↔ ((d : List ReplayStep) × (replay host spec steps ms ≡ returned (asks d reply)))
unfolding complete_history
complete_history-asks host spec steps ms reply = (
  λ h.
      let (r, p) = complete-replayed host spec steps ms reply h in
      let (d, e) =
        completed-reply host spec steps ms r reply p (replay-IsOutcome host spec steps ms r p) h in
      (d, p ∙ ap returned e),
  λ (d, h). rw (complete_history, h) refl,
)

same_tools_iff :
    {T : Type 0} ⦃e : Comparable T⦄ (ts us : List T) → (same_tools ts us ≡ true) ↔ (ts ≡ us)
unfolding same_tools
same_tools_iff [] [] = ground arith
same_tools_iff [] (u ∷ us) = ground arith
same_tools_iff (t ∷ ts) [] = ground arith
same_tools_iff ⦃e⦄ (t ∷ ts) (u ∷ us) = ground (arith, e.same_iff t u, same_tools_iff ts us)

-- The model completes a history with a reply exactly when it is given the wrapper tools of its own
-- steps, in order, and the history's replay asks for that reply; a history that waits for a result,
-- has failed or has ended gets none.
pub complete-asks :
    {T : Type 0} ⦃e : Comparable T⦄ (wrapper_tool : CompiledStep → T) (host : Host)
    (spec : WorkflowSpec) (steps : List CompiledStep) (ms : List Message) (tools : List T)
    (reply : ModelReply)
    → (complete wrapper_tool host spec steps ms tools ≡ returned reply) ↔ (
        (tools ≡ map wrapper_tool steps)
        × ((d : List ReplayStep) × (replay host spec steps ms ≡ returned (asks d reply))))
unfolding complete
complete-asks wrapper_tool host spec steps ms tools reply = ground (
  arith,
  same_tools_iff tools (map wrapper_tool steps),
  complete_history-asks host spec steps ms reply,
)
