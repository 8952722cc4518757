-- ===== src/Flow/Replay/Advance.antt =====
-- How a replay of src/sasori_flow/runtime.py goes on when its history grows.
use sasori.Base.{◌≡◌, refl, sym, ap, ◌∙◌, inl, inr, List, [], ◌∷◌, ◌++◌, arith}
use sasori.Base.Comp.{returned}
use sasori.Base.Try.{Outcome-cases, >>=-returned, >>-returned}
use sasori.Text.{Text, text_eq}
use sasori.Dict.{Dict, put}
use sasori.Json.{Value, Entries}
use sasori.Contracts.Types.{Message, ToolCall}
use sasori.Flow.Spec.{WorkflowSpec}
use sasori.Flow.Records.{Host, CompiledStep}
use sasori.Flow.Replay.{
  ReplayStep, WorkflowReplay, Round, stops, goes_on, asks, ends, call_reply, text_reply,
  expected_call, replay_round, replay_final, final_content, replay_steps,
}
use sasori.Flow.Replay.Rounds.{returned_inj, call_reply_inj, replay_round-append, replay_round-asks}

module _ (host : Host) (spec : WorkflowSpec) where
  pub replay_steps-goes_on :
      (input : Entries) (outputs : Dict Text Value) (done : List ReplayStep) (c : CompiledStep)
      (cs : List CompiledStep) (ms rest : List Message) (call : ToolCall) (s : ReplayStep)
      (output : Value)
      → expected_call host spec c input outputs ≡ returned call
      → replay_round host spec done c call ms ≡ returned (goes_on s output rest)
      → replay_steps host spec input outputs done (c ∷ cs) ms
        ≡ replay_steps host spec input (put c.step.step_id output outputs) (done ++ s ∷ []) cs rest
  unfolding replay_steps
  replay_steps-goes_on input outputs done c cs ms rest call s output p q = rw (p, q) refl

  pub replay_steps-stops :
      (input : Entries) (outputs : Dict Text Value) (done : List ReplayStep) (c : CompiledStep)
      (cs : List CompiledStep) (ms : List Message) (call : ToolCall) (r : WorkflowReplay)
      → expected_call host spec c input outputs ≡ returned call
      → replay_round host spec done c call ms ≡ returned (stops r)
      → replay_steps host spec input outputs done (c ∷ cs) ms ≡ returned r
  unfolding replay_steps
  replay_steps-stops input outputs done c cs ms call r p q = rw (p, q) refl

  pub replay_steps-∷ :
      (input : Entries) (outputs : Dict Text Value) (done : List ReplayStep) (c : CompiledStep)
      (cs : List CompiledStep) (ms : List Message) (r : WorkflowReplay)
      → replay_steps host spec input outputs done (c ∷ cs) ms ≡ returned r
      → (call : ToolCall) × (round : Round) × (expected_call host spec c input outputs
          ≡ returned call)
        × (replay_round host spec done c call ms ≡ returned round)
  unfolding replay_steps
  replay_steps-∷ input outputs done c cs ms r h =
      elim (Outcome-cases (expected_call host spec c input outputs)) [
        | inr (e, p) ↦ ground arith
        | inl (call, p) ↦ elim (Outcome-cases (replay_round host spec done c call ms)) [
          | inr (e, q) ↦ ground arith
          | inl (round, q) ↦ (call, round, p, q)
        ]
      ]

  -- A replay that asks for a call goes on from there when its history grows: it is at a step whose
  -- expected call that is.
  abbrev pub IsResumed :
      Entries
      → Dict Text Value
      → List ReplayStep
      → List CompiledStep
      → List Message
      → List ReplayStep
      → ToolCall
      → Type 0
  IsResumed input outputs done cs ms d call =
      (later : Dict Text Value) × (c : CompiledStep) × (others : List CompiledStep) × (expected_call
          host spec c input later
        ≡ returned call)
      × ((extra : List Message)
          → replay_steps host spec input outputs done cs (ms ++ extra)
            ≡ replay_steps host spec input later d (c ∷ others) extra)

  replay_final_no_call :
      (done d : List ReplayStep) (content : Text) (ms : List Message) (call : ToolCall)
      → ¬ (replay_final done content ms ≡ returned (asks d (call_reply call)))
  unfolding replay_final
  replay_final_no_call done d content [] call h = ground arith
  replay_final_no_call done d content (m ∷ ms) call h =
      let both = >>-returned _ (returned (ends done m)) (asks d (call_reply call)) h in
      ground (arith, both.1)

  no_steps_no_call :
      (input : Entries) (outputs : Dict Text Value) (done d : List ReplayStep) (ms : List Message)
      (call : ToolCall)
      → ¬ (replay_steps host spec input outputs done [] ms ≡ returned (asks d (call_reply call)))
  unfolding replay_steps
  no_steps_no_call input outputs done d ms call h =
      let (content, c, f) =
        >>=-returned (final_content host spec outputs) (λ content. replay_final done content ms)
          (asks d (call_reply call)) h in
      replay_final_no_call done d content ms call f

  pub replay_steps-IsResumed :
      (input : Entries) (outputs : Dict Text Value) (done d : List ReplayStep)
      (cs : List CompiledStep) (ms : List Message) (call : ToolCall)
      → replay_steps host spec input outputs done cs ms ≡ returned (asks d (call_reply call))
      → IsResumed input outputs done cs ms d call
  replay_steps-IsResumed input outputs done d [] ms call h =
      absurd (no_steps_no_call input outputs done d ms call h)
  replay_steps-IsResumed input outputs done d (c ∷ cs) ms call h =
      let (made, round, p, q) =
        replay_steps-∷ input outputs done c cs ms (asks d (call_reply call)) h in
      elim round
          as (λ x.
            replay_round host spec done c made ms ≡ returned x
            → IsResumed input outputs done (c ∷ cs) ms d call) [
              | stops r ↦ λ z.
                  let same : r ≡ asks d (call_reply call) =
                    returned_inj
                      (sym (replay_steps-stops input outputs done c cs ms made r p z) ∙ h) in
                  let (none_read, at, asked) =
                    replay_round-asks host spec done d c made ms (call_reply call)
                      (z ∙ ap (λ x. returned (stops x)) same) in
                  let here : call ≡ made = call_reply_inj asked in
                  (
                    outputs,
                    c,
                    cs,
                    p ∙ ap returned (sym here),
                    λ extra.
                        ap (λ l. replay_steps host spec input outputs done (c ∷ cs) (l ++ extra))
                          none_read
                        ∙ ap (λ l. replay_steps host spec input outputs l (c ∷ cs) extra) (sym at),
                  )
              | goes_on s output rest ↦ λ z.
                  let next = put c.step.step_id output outputs in
                  let on = replay_steps-goes_on input outputs done c cs ms rest made s output p z in
                  let (later, at, others, e, more) =
                    replay_steps-IsResumed input next (done ++ s ∷ []) d cs rest call
                      (sym on ∙ h) in
                  (
                    later,
                    at,
                    others,
                    e,
                    λ extra.
                        replay_steps-goes_on input outputs done c cs (ms ++ extra) (rest ++ extra)
                          made s output p
                          (replay_round-append host spec done c made ms extra rest s output z)
                        ∙ more extra,
                  )
            ]
        q

  -- A replay that asks for the final reply has read the records of every step.
  abbrev pub IsFinished :
      Entries
      → Dict Text Value
      → List ReplayStep
      → List CompiledStep
      → List Message
      → List ReplayStep
      → Text
      → Type 0
  IsFinished input outputs done cs ms d content =
      (later : Dict Text Value) × (final_content host spec later ≡ returned content)
      × ((extra : List Message)
          → replay_steps host spec input outputs done cs (ms ++ extra)
            ≡ replay_steps host spec input later d [] extra)

  replay_final-asks :
      (done d : List ReplayStep) (content text : Text) (ms : List Message)
      → replay_final done content ms ≡ returned (asks d (text_reply text))
      → (ms ≡ []) × (done ≡ d) × (content ≡ text)
  unfolding replay_final
  replay_final-asks done d content text [] h = (refl, ground arith, ground arith)
  replay_final-asks done d content text (m ∷ ms) h =
      let both = >>-returned _ (returned (ends done m)) (asks d (text_reply text)) h in
      ground (arith, both.1)

  pub replay_steps-IsFinished :
      (input : Entries) (outputs : Dict Text Value) (done d : List ReplayStep)
      (cs : List CompiledStep) (ms : List Message) (content : Text)
      → replay_steps host spec input outputs done cs ms ≡ returned (asks d (text_reply content))
      → IsFinished input outputs done cs ms d content
  unfolding replay_steps
  replay_steps-IsFinished input outputs done d [] ms content h =
      let (made, c, f) =
        >>=-returned (final_content host spec outputs) (λ made. replay_final done made ms)
          (asks d (text_reply content)) h in
      let (none_read, at, same) = replay_final-asks done d made content ms f in
      (
        outputs,
        c ∙ ap returned same,
        λ extra.
            ap (λ l. replay_steps host spec input outputs done [] (l ++ extra)) none_read
            ∙ ap (λ l. replay_steps host spec input outputs l [] extra) at,
      )
  replay_steps-IsFinished input outputs done d (c ∷ cs) ms content h =
      let (made, round, p, q) =
        replay_steps-∷ input outputs done c cs ms (asks d (text_reply content)) h in
      elim round
          as (λ x.
            replay_round host spec done c made ms ≡ returned x
            → IsFinished input outputs done (c ∷ cs) ms d content) [
              | stops r ↦ λ z.
                  let same : r ≡ asks d (text_reply content) =
                    returned_inj
                      (sym (replay_steps-stops input outputs done c cs ms made r p z) ∙ h) in
                  let asked =
                    (replay_round-asks host spec done d c made ms (text_reply content)
                      (z ∙ ap (λ x. returned (stops x)) same)).2 in
                  ground (arith, asked)
              | goes_on s output rest ↦ λ z.
                  let next = put c.step.step_id output outputs in
                  let on = replay_steps-goes_on input outputs done c cs ms rest made s output p z in
                  let (later, e, more) =
                    replay_steps-IsFinished input next (done ++ s ∷ []) d cs rest content
                      (sym on ∙ h) in
                  (
                    later,
                    e,
                    λ extra.
                        replay_steps-goes_on input outputs done c cs (ms ++ extra) (rest ++ extra)
                          made s output p
                          (replay_round-append host spec done c made ms extra rest s output z)
                        ∙ more extra,
                  )
            ]
        q
