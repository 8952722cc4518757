-- ===== src/Context/Atoms/Fuel.antt =====
-- The fuel of the loop of `_atoms`, of src/sasori_context/budget.py: a round takes a message at
-- least, so that the number of the messages is enough.
use sasori.Base.{ℕ, zero, suc, ◌≤◌, ◌≡◌, ◌≢◌, Bool, false, Option, List, [], ◌∷◌, arith, length}
use sasori.Base.Comp.{returned, raised}
use sasori.Base.Try.{◌>>=◌, >>=-avoids}
use sasori.Text.{Text}
use sasori.Json.{Value, list}
use sasori.Contracts.Types.{ToolCall}
use sasori.Context.Messages.{
  ContextMessage, Host, Try, out_of_fuel, canonical, digest, message_values,
}
use sasori.Context.Rejections.{normalized_rejection_atom, rejection_texts, filled_ids}
use sasori.Context.Atoms.{
  leading_tools, group_step, made_step, with_seen, check_results, check_group, next_atom,
  atoms_loop, atoms_of,
}
use sasori.Context.Atoms.Shape.{next_atom-front}

abbrev pub HasFuel : {A : Type 0} → Try A → Type 0
HasFuel m = ¬ (m ≡ raised out_of_fuel)

canonical-HasFuel : (host : Host) (v : Value) → HasFuel (canonical host v)
unfolding canonical
canonical-HasFuel host v h = ground arith

pub digest-HasFuel :
    (host : Host) (b : Bool) (ms : List ContextMessage) → HasFuel (digest host b ms)
unfolding digest
digest-HasFuel host b ms h =
    ground (arith, canonical-HasFuel host (list (message_values host b ms)))

pub normalized-HasFuel :
    (host : Host) (m : ContextMessage) (rs : List ContextMessage)
    → HasFuel (normalized_rejection_atom host m rs)
unfolding normalized_rejection_atom rejection_texts canonical
normalized-HasFuel host m rs h = ground (arith, digest-HasFuel host false (m ∷ rs))

check_results-HasFuel :
    (calls : List ToolCall) (expected seen : List Text) (rs : List ContextMessage)
    → HasFuel (check_results calls expected seen rs)
unfolding check_results
check_results-HasFuel calls expected seen [] h = ground arith
check_results-HasFuel calls expected seen (r ∷ rs) h =
    ground (arith, check_results-HasFuel calls expected (with_seen r.message.tool_call_id seen) rs)

check_group-HasFuel :
    (calls : List ToolCall) (rs : List ContextMessage) → HasFuel (check_group calls rs)
unfolding check_group
check_group-HasFuel calls rs h =
    ground (arith, check_results-HasFuel calls (filled_ids calls) [] rs)

made_step-HasFuel :
    (m : ContextMessage) (ms : List ContextMessage) (o : Option (List ContextMessage))
    → HasFuel (made_step m ms o)
unfolding made_step group_step
made_step-HasFuel m ms o h =
    ground (arith, check_group-HasFuel m.message.tool_calls (leading_tools ms))

next_atom-HasFuel :
    (host : Host) (m : ContextMessage) (ms : List ContextMessage) → HasFuel (next_atom host m ms)
unfolding next_atom
next_atom-HasFuel host m ms h = ground (
  arith,
  >>=-avoids (normalized_rejection_atom host m (leading_tools ms)) (made_step m ms) out_of_fuel
      (normalized-HasFuel host m (leading_tools ms)) (λ o n. made_step-HasFuel m ms o),
)

atoms_loop-HasFuel :
    (host : Host) (fuel : ℕ) (ms : List ContextMessage)
    → length ms ≤ fuel
    → HasFuel (atoms_loop host fuel ms)
unfolding atoms_loop
atoms_loop-HasFuel host fuel [] enough h = ground arith
atoms_loop-HasFuel host zero (m ∷ ms) enough h = omega arith
atoms_loop-HasFuel host (suc fuel) (m ∷ ms) enough h =
    >>=-avoids (next_atom host m ms)
      (λ step. atoms_loop host fuel step.1 >>= λ atoms. returned (step.0 ∷ atoms)) out_of_fuel
      (next_atom-HasFuel host m ms)
      (λ step s.
        >>=-avoids (atoms_loop host fuel step.1) (λ atoms. returned (step.0 ∷ atoms)) out_of_fuel
          (atoms_loop-HasFuel host fuel step.1
            (omega (arith, (next_atom-front host m ms step s).2)))
          (λ atoms l k. ground arith))
      h

-- The division of a history into atoms never stops for want of fuel: it returns the atoms, or
-- raises one of the source's errors.
pub atoms_of-HasFuel :
    (host : Host) (ms : List ContextMessage) → atoms_of host ms ≢ raised out_of_fuel
unfolding atoms_of
atoms_of-HasFuel host ms = atoms_loop-HasFuel host (length ms) ms (omega arith)
