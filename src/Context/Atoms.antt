-- ===== src/Context/Atoms.antt =====
-- `_atoms`, `_wire_history`, `_protected_prefix_length`, `_turns` and `_flatten` of
-- src/sasori_context/budget.py. An atom is a message with the tool results that belong to it.
pub mod Shape
pub mod Fuel
pub mod Groups
pub mod Turns
use sasori.Base.{
  ℕ, zero, suc, Bool, true, false, not, ◌&&◌, ◌||◌, Option, none, some, List, [], ◌∷◌, ◌++◌, any,
  all, is_some, length, ◌==◌, if◌then◌else◌,
}
use sasori.Base.Comp.{Outcome, returned, raised}
use sasori.Base.Try.{◌>>=◌, ◌>>◌, refuse_if}
use sasori.Text.{Text, codes, text_eq}
use sasori.Json.{Value, string, is_true}
use sasori.Contracts.Types.{Message, ToolCall}
use sasori.Context.Messages.{
  ContextMessage, MessageKind, Host, Try, ContextError, structure, out_of_fuel, StructureError,
}
use sasori.Context.Rejections.{
  filled_text, filled_ids, all_distinct, is_rejection_code, same_text, normalized_rejection_atom,
}

abbrev pub has_role : Text → ContextMessage → Bool
has_role role m = m.message.role == role

abbrev pub is_tool : ContextMessage → Bool
is_tool = has_role (codes "tool")

-- `messages[index + 1 : result_end]`, and what follows.
abbrev pub leading_tools : List ContextMessage → List ContextMessage
leading_tools [] = []
leading_tools (m ∷ ms) = let rest = m ∷ leading_tools ms in if is_tool m then rest else []

abbrev pub after_tools : List ContextMessage → List ContextMessage
after_tools [] = []
after_tools (m ∷ ms) = let rest = after_tools ms in if is_tool m then rest else m ∷ ms

pub record Atom : Type 0 where
  pub head : ContextMessage
  pub results : List ContextMessage

abbrev pub messages_of : Atom → List ContextMessage
messages_of a = a.head ∷ a.results

abbrev pub is_in : Option Text → List Text → Bool
is_in none ids = false
is_in (some i) ids = any (λ j. j == i) ids

-- `next(call.name for call in message.tool_calls if call.id == call_id)`, compared with a name.
abbrev pub name_matches : List ToolCall → Option Text → Text → Bool
name_matches [] call_id name = false
name_matches (c ∷ cs) call_id name =
    let rest = name_matches cs call_id name in
    if same_text (filled_text c.id) call_id
    then elim c.name [ string s ↦ s == name | _ ↦ false ]
    else rest

abbrev pub names_agree : List ToolCall → Message → Bool
names_agree calls result = elim result.tool_name [
  | none ↦ true
  | some n ↦ name_matches calls result.tool_call_id n
]

abbrev pub with_seen : Option Text → List Text → List Text
with_seen none seen = seen
with_seen (some i) seen = i ∷ seen

-- The loop over the results of a group, with the identifiers that were answered.
unfoldable pub check_results :
    List ToolCall → List Text → List Text → List ContextMessage → Try (List Text)
check_results calls expected seen [] = returned seen
check_results calls expected seen (r ∷ rs) = do
  refuse_if (not (is_in r.message.tool_call_id expected) || is_in r.message.tool_call_id seen)
      (structure StructureError.unmatched_result)
  refuse_if (not (names_agree calls r.message)) (structure StructureError.unmatched_name)
  check_results calls expected (with_seen r.message.tool_call_id seen) rs

abbrev pub is_complete : ToolCall → Bool
is_complete c = is_true c.complete

abbrev pub has_id : ToolCall → Bool
has_id c = is_some (filled_text c.id)

-- The checks of a group that is no rejected turn.
unfoldable pub check_group : List ToolCall → List ContextMessage → Try (Unit {0})
unfolding check_results is_rejection_code
check_group calls results = do
  refuse_if (any (λ r. is_rejection_code r.message.error_code) results)
      (structure StructureError.rejection_mismatch)
  refuse_if (not (all is_complete calls)) (structure StructureError.incomplete_call)
  refuse_if (not (all has_id calls)) (structure StructureError.empty_call_id)
  refuse_if (not (all_distinct (filled_ids calls))) (structure StructureError.repeated_call_id)
  seen ← check_results calls (filled_ids calls) [] results
  refuse_if (not (all (λ i. is_in (some i) seen) (filled_ids calls)))
      (structure StructureError.incomplete_group)

-- The atom at the head of a sequence, with the messages after it.
abbrev pub Step : Type 0
Step = Atom × List ContextMessage

abbrev pub whole_run : ContextMessage → List ContextMessage → Step
whole_run m rest = (record { head = m; results = leading_tools rest }, after_tools rest)

abbrev pub single : ContextMessage → List ContextMessage → Step
single m rest = (record { head = m; results = [] }, rest)

abbrev pub plain_step : ContextMessage → List ContextMessage → Option (List ContextMessage) → Step
plain_step m rest none = single m rest
plain_step m rest (some texts) = whole_run m rest

unfoldable pub group_step :
    ContextMessage → List ContextMessage → Option (List ContextMessage) → Try Step
unfolding check_group
group_step m rest (some texts) = returned (whole_run m rest)
group_step m rest none = do
  check_group m.message.tool_calls (leading_tools rest)
  returned (whole_run m rest)

abbrev has_calls : List ToolCall → Bool
has_calls [] = false
has_calls (c ∷ cs) = true

unfoldable pub made_step :
    ContextMessage → List ContextMessage → Option (List ContextMessage) → Try Step
unfolding group_step
made_step m rest normalized =
    if has_calls m.message.tool_calls
    then group_step m rest normalized
    else returned (plain_step m rest normalized)

-- One round of the loop of `_atoms`.
unfoldable pub next_atom : Host → ContextMessage → List ContextMessage → Try Step
unfolding made_step
next_atom host m rest = do
  refuse_if (is_tool m) (structure StructureError.orphan_result)
  refuse_if (has_calls m.message.tool_calls && not (has_role (codes "assistant") m))
      (structure StructureError.calls_of_other)
  normalized ← normalized_rejection_atom host m (leading_tools rest)
  made_step m rest normalized

-- The loop, on fuel: each round takes a message at least.
unfoldable pub atoms_loop : Host → ℕ → List ContextMessage → Try (List Atom)
unfolding next_atom
atoms_loop host fuel [] = returned []
atoms_loop host zero (m ∷ ms) = raised out_of_fuel
atoms_loop host (suc fuel) (m ∷ ms) = do
  step ← next_atom host m ms
  atoms ← atoms_loop host fuel step.1
  returned (step.0 ∷ atoms)

-- `_atoms`
unfoldable pub atoms_of : Host → List ContextMessage → Try (List Atom)
unfolding atoms_loop
atoms_of host ms = atoms_loop host (length ms) ms

abbrev pub or_atom : Atom → Option (List ContextMessage) → List ContextMessage
or_atom a none = messages_of a
or_atom a (some texts) = texts

unfoldable pub wire_atoms : Host → List Atom → Try (List ContextMessage)
wire_atoms host [] = returned []
wire_atoms host (a ∷ atoms) = do
  normalized ← normalized_rejection_atom host a.head a.results
  rest ← wire_atoms host atoms
  returned (or_atom a normalized ++ rest)

-- `_wire_history`
unfoldable pub wire_history : Host → List ContextMessage → Try (List ContextMessage)
unfolding atoms_of wire_atoms
wire_history host ms = do atoms ← atoms_of host ms; wire_atoms host atoms

-- The messages of a list of groups, in order: `_flatten`.
abbrev pub flatten : List (List ContextMessage) → List ContextMessage
flatten [] = []
flatten (g ∷ gs) = g ++ flatten gs

unfoldable pub turns_from : List ContextMessage → List Atom → List (List ContextMessage)
turns_from current [] = current ∷ []
turns_from current (a ∷ atoms) =
    let next = current ∷ turns_from (messages_of a) atoms in
    let same = turns_from (current ++ messages_of a) atoms in
    if has_role (codes "user") a.head then next else same

-- `_turns`
unfoldable pub turns_of_atoms : List Atom → List (List ContextMessage)
unfolding turns_from
turns_of_atoms [] = []
turns_of_atoms (a ∷ atoms) = turns_from (messages_of a) atoms

unfoldable pub turns_of : Host → List ContextMessage → Try (List (List ContextMessage))
unfolding atoms_of turns_of_atoms
turns_of host ms = do atoms ← atoms_of host ms; returned (turns_of_atoms atoms)

abbrev pub is_system : ContextMessage → Bool
is_system = has_role (codes "system")

abbrev pub is_protected : ContextMessage → Bool
is_protected m = elim m.kind [ MessageKind.ordinary ↦ false | _ ↦ true ]

-- A protected message that is ordinary assistant data.
abbrev pub is_plain_protected : ContextMessage → Bool
is_plain_protected m =
    elim m.kind [ MessageKind.protected_data ↦ true | _ ↦ false ]
    && has_role (codes "assistant") m
    && not (has_calls m.message.tool_calls)
    && not (is_some m.message.tool_call_id)
    && not (is_some m.message.tool_name)
    && not (is_some m.message.error_code)
    && not (is_some m.message.provider_state)

-- From the end of the system messages on: the protected ones, and the rest.
abbrev pub Split : Type 0
Split = List ContextMessage × List ContextMessage

abbrev pub with_first : ContextMessage → Split → Split
with_first m (ms, rest) = (m ∷ ms, rest)

unfoldable pub split_protected : List ContextMessage → Try Split
split_protected [] = returned ([], [])
split_protected (m ∷ ms) =
    if is_protected m
    then (do
      refuse_if (not (is_plain_protected m)) (structure StructureError.bad_protected)
      split ← split_protected ms
      returned (with_first m split))
    else (do
      refuse_if (any is_protected (m ∷ ms)) (structure StructureError.scattered_protected)
      returned ([], m ∷ ms))

-- `_protected_prefix_length`, as the prefix and the rest.
unfoldable pub split_prefix : List ContextMessage → Try Split
unfolding split_protected
split_prefix [] = returned ([], [])
split_prefix (m ∷ ms) =
    if is_system m
    then (do split ← split_prefix ms; returned (with_first m split))
    else split_protected (m ∷ ms)
