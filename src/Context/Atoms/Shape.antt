-- ===== src/Context/Atoms/Shape.antt =====
-- What `_atoms`, `_turns` and `_protected_prefix_length` of src/sasori_context/budget.py keep of the
-- messages they divide.
use sasori.Base.{
  ℕ, zero, suc, ◌≤◌, ◌≡◌, refl, sym, ap, ◌∙◌, ◌⊎◌, inl, inr, true, false, Bool-cases, Option, none,
  some, List, [], ◌∷◌, ◌++◌, map, arith, length,
}
use sasori.Base.Comp.{returned}
use sasori.Base.Try.{◌>>=◌, >>=-returned, >>-returned}
use sasori.Text.{text_eq}
use sasori.Context.Messages.{ContextMessage, Host}
use sasori.Context.Rejections.{normalized_rejection_atom, is_rejected_turn}
use sasori.Context.Atoms.{
  Atom, messages_of, Step, is_tool, has_calls, leading_tools, after_tools, single, whole_run,
  plain_step, group_step, made_step, check_group, next_atom, atoms_loop, atoms_of, flatten,
}

pub leading_tools-after_tools : (ms : List ContextMessage) → leading_tools ms ++ after_tools ms ≡ ms
leading_tools-after_tools [] = refl
leading_tools-after_tools (m ∷ ms) = ground (arith, leading_tools-after_tools ms)

-- A turn that can be normalized is a rejected one.
normalized-is_rejected_turn :
    (host : Host) (m : ContextMessage) (rs : List ContextMessage) (o : Option (List ContextMessage))
    → normalized_rejection_atom host m rs ≡ returned o
    → (o ≡ none) ⊎ (is_rejected_turn host m.message rs ≡ true)
unfolding normalized_rejection_atom
normalized-is_rejected_turn host m rs o h = elim (Bool-cases (is_rejected_turn host m.message rs)) [
  | inl p ↦ inr p
  | inr p ↦ inl (ground arith)
]

-- What an atom is: a rejected turn, a message without calls, or a group that was checked.
abbrev pub IsAtom : Host → ContextMessage → List ContextMessage → Step → Type 0
IsAtom host m rest step =
    ((is_rejected_turn host m.message (leading_tools rest) ≡ true) × (step ≡ whole_run m rest))
    ⊎ ((has_calls m.message.tool_calls ≡ false) × (step ≡ single m rest))
    ⊎ ((check_group m.message.tool_calls (leading_tools rest) ≡ returned tt)
        × (step ≡ whole_run m rest))

plain_step-IsAtom :
    (host : Host) (m : ContextMessage) (ms : List ContextMessage) (o : Option (List ContextMessage))
    → (o ≡ none) ⊎ (is_rejected_turn host m.message (leading_tools ms) ≡ true)
    → has_calls m.message.tool_calls ≡ false
    → IsAtom host m ms (plain_step m ms o)
plain_step-IsAtom host m ms none n c = inr (inl (c, refl))
plain_step-IsAtom host m ms (some t) n c = inl (ground arith, refl)

group_step-IsAtom :
    (host : Host) (m : ContextMessage) (ms : List ContextMessage) (o : Option (List ContextMessage))
    (step : Step)
    → (o ≡ none) ⊎ (is_rejected_turn host m.message (leading_tools ms) ≡ true)
    → group_step m ms o ≡ returned step
    → IsAtom host m ms step
unfolding group_step
group_step-IsAtom host m ms none step n h =
    let checked =
      >>-returned (check_group m.message.tool_calls (leading_tools ms)) (returned (whole_run m ms))
        step h in
    inr (inr (checked.0, ground arith))
group_step-IsAtom host m ms (some t) step n h = inl (ground arith, ground arith)

made_step-IsAtom :
    (host : Host) (m : ContextMessage) (ms : List ContextMessage) (o : Option (List ContextMessage))
    (step : Step)
    → (o ≡ none) ⊎ (is_rejected_turn host m.message (leading_tools ms) ≡ true)
    → made_step m ms o ≡ returned step
    → IsAtom host m ms step
unfolding made_step
made_step-IsAtom host m ms o step n h = elim (Bool-cases (has_calls m.message.tool_calls)) [
  | inl p ↦ group_step-IsAtom host m ms o step n (ground arith)
  | inr p ↦
      let q : plain_step m ms o ≡ step = ground arith in
      rw (sym q) (plain_step-IsAtom host m ms o n p)
]

-- What a round of the loop has made, and that no tool result is left at its head.
pub next_atom-IsAtom :
    (host : Host) (m : ContextMessage) (ms : List ContextMessage) (step : Step)
    → next_atom host m ms ≡ returned step
    → (is_tool m ≡ false) × IsAtom host m ms step
unfolding next_atom
next_atom-IsAtom host m ms step h =
    let normalized = normalized_rejection_atom host m (leading_tools ms) in
    let bound : (normalized >>= made_step m ms) ≡ returned step = ground arith in
    let (o, n, k) = >>=-returned normalized (made_step m ms) step bound in
    (
      ground arith,
      made_step-IsAtom host m ms o step (normalized-is_rejected_turn host m (leading_tools ms) o n)
          k,
    )

length-after_tools_le : (ms : List ContextMessage) → length (after_tools ms) ≤ length ms
length-after_tools_le [] = omega arith
length-after_tools_le (m ∷ ms) = ground (arith, length-after_tools_le ms)

abbrev IsFrontOf : ContextMessage → List ContextMessage → Step → Type 0
IsFrontOf m ms step =
    (messages_of step.0 ++ step.1 ≡ m ∷ ms) × (step.0.head ≡ m) × (length step.1 ≤ length ms)

whole_run-IsFrontOf :
    (m : ContextMessage) (ms : List ContextMessage) → IsFrontOf m ms (whole_run m ms)
whole_run-IsFrontOf m ms =
    (ap (λ l. m ∷ l) (leading_tools-after_tools ms), refl, length-after_tools_le ms)

IsAtom-IsFrontOf :
    (host : Host) (m : ContextMessage) (ms : List ContextMessage) (step : Step)
    → IsAtom host m ms step
    → IsFrontOf m ms step
IsAtom-IsFrontOf host m ms step (inl (r, e)) = rw e (whole_run-IsFrontOf m ms)
IsAtom-IsFrontOf host m ms step (inr (inl (c, e))) =
    let front : IsFrontOf m ms (single m ms) = (refl, refl, omega arith) in rw e front
IsAtom-IsFrontOf host m ms step (inr (inr (c, e))) = rw e (whole_run-IsFrontOf m ms)

-- Every round that returns takes the front of the sequence.
pub next_atom-front :
    (host : Host) (m : ContextMessage) (ms : List ContextMessage) (step : Step)
    → next_atom host m ms ≡ returned step
    → IsFrontOf m ms step
next_atom-front host m ms step h =
    IsAtom-IsFrontOf host m ms step (next_atom-IsAtom host m ms step h).1

-- What a round of the loop that returned has computed.
pub atoms_loop-suc :
    (host : Host) (fuel : ℕ) (m : ContextMessage) (ms : List ContextMessage) (atoms : List Atom)
    → atoms_loop host (suc fuel) (m ∷ ms) ≡ returned atoms
    → (step : Step) × (rest : List Atom) × (next_atom host m ms ≡ returned step)
      × (atoms_loop host fuel step.1 ≡ returned rest)
      × (atoms ≡ step.0 ∷ rest)
unfolding atoms_loop
atoms_loop-suc host fuel m ms atoms h =
    let (step, s, k) =
      >>=-returned (next_atom host m ms)
        (λ step. atoms_loop host fuel step.1 >>= λ atoms. returned (step.0 ∷ atoms)) atoms h in
    let (rest, l, e) =
      >>=-returned (atoms_loop host fuel step.1) (λ atoms. returned (step.0 ∷ atoms)) atoms k in
    (step, rest, s, l, ground arith)

atoms_loop-flat :
    (host : Host) (fuel : ℕ) (ms : List ContextMessage) (atoms : List Atom)
    → atoms_loop host fuel ms ≡ returned atoms
    → flatten (map messages_of atoms) ≡ ms
unfolding atoms_loop
atoms_loop-flat host fuel [] [] h = refl
atoms_loop-flat host fuel [] (a ∷ atoms) h = cc
atoms_loop-flat host zero (m ∷ ms) atoms h = cc
atoms_loop-flat host (suc fuel) (m ∷ ms) atoms h =
    let (step, rest, s, l, e) = atoms_loop-suc host fuel m ms atoms h in
    let flat = ap (λ r. messages_of step.0 ++ r) (atoms_loop-flat host fuel step.1 rest l) in
    rw e (flat ∙ (next_atom-front host m ms step s).0)

-- Whenever a history is divided into atoms, the messages of the atoms in their order are the
-- history: no message is lost, repeated or moved.
pub flatten-atoms_of :
    (host : Host) (ms : List ContextMessage) (atoms : List Atom)
    → atoms_of host ms ≡ returned atoms
    → flatten (map messages_of atoms) ≡ ms
unfolding atoms_of
flatten-atoms_of host ms atoms h = atoms_loop-flat host (length ms) ms atoms h
