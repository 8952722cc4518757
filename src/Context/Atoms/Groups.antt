-- ===== src/Context/Atoms/Groups.antt =====
-- The atoms that `_atoms` of src/sasori_context/budget.py lets through: groups of calls with their
-- results.
use sasori.Base.{
  ℕ, zero, suc, ◌≡◌, refl, sym, ap, ◌⊎◌, inl, inr, true, false, Bool-cases, Option, none, some,
  List, [], ◌∷◌, arith, length, All, all,
}
use sasori.Base.Comp.{returned}
use sasori.Base.Try.{Outcome-cases}
use sasori.Text.{Text, text_eq, text_beq, text_beq_iff}
use sasori.Contracts.Types.{ToolCall}
use sasori.Context.Messages.{ContextMessage, Host}
use sasori.Context.Rejections.{is_rejected_turn, filled_ids, all_distinct}
use sasori.Context.Atoms.{
  Atom, Step, is_tool, is_in, is_complete, has_id, has_calls, leading_tools, with_seen, names_agree,
  check_results, check_group, whole_run, single, atoms_loop, atoms_of,
}
use sasori.Context.Atoms.Shape.{IsAtom, next_atom-IsAtom, atoms_loop-suc}

-- The identifiers that results answer.
abbrev pub result_ids : List ContextMessage → List Text
result_ids [] = []
result_ids (r ∷ rs) = with_seen r.message.tool_call_id (result_ids rs)

-- What a result that passed its check is.
check_results-∷ :
    (calls : List ToolCall) (expected seen : List Text) (r : ContextMessage)
    (rs : List ContextMessage) (out : List Text)
    → check_results calls expected seen (r ∷ rs) ≡ returned out
    → (is_in r.message.tool_call_id expected ≡ true)
      × (is_in r.message.tool_call_id seen ≡ false)
      × (names_agree calls r.message ≡ true)
      × (check_results calls expected (with_seen r.message.tool_call_id seen) rs ≡ returned out)
unfolding check_results
check_results-∷ calls expected seen r rs out h = ground arith

IsExpected : List ToolCall → List Text → ContextMessage → Type 0
IsExpected calls expected r =
    (is_in r.message.tool_call_id expected ≡ true) × (names_agree calls r.message ≡ true)

check_results-IsExpected :
    (calls : List ToolCall) (expected seen : List Text) (rs : List ContextMessage) (out : List Text)
    → check_results calls expected seen rs ≡ returned out
    → All (IsExpected calls expected) rs
unfolding IsExpected
check_results-IsExpected calls expected seen [] out h = record {}
check_results-IsExpected calls expected seen (r ∷ rs) out h =
    let (e, f, n, k) = check_results-∷ calls expected seen r rs out h in
    (
      (e, n),
      check_results-IsExpected calls expected (with_seen r.message.tool_call_id seen) rs out k,
    )

is_in-with_seen :
    (i : Text) (o : Option Text) (seen : List Text)
    → is_in (some i) seen ≡ true
    → is_in (some i) (with_seen o seen) ≡ true
is_in-with_seen i none seen h = h
is_in-with_seen i (some j) seen h = ground arith

is_in-with_seen_fresh :
    (i : Text) (o : Option Text) (seen ids : List Text)
    → is_in (some i) seen ≡ true
    → is_in o seen ≡ false
    → is_in (some i) ids ≡ false
    → is_in (some i) (with_seen o ids) ≡ false
is_in-with_seen_fresh i none seen ids s f h = h
is_in-with_seen_fresh i (some j) seen ids s f h = elim (Bool-cases (text_beq j i)) [
  | inl p ↦
      let same : is_in (some i) seen ≡ is_in (some j) seen =
        ap (λ k. is_in (some k) seen) (sym ((text_beq_iff j i).0 p)) in
      ground (arith, same)
  | inr p ↦ ground arith
]

is_in-with_seen_self :
    (i : Text) (seen : List Text) → is_in (some i) (with_seen (some i) seen) ≡ true
is_in-with_seen_self i seen = ground (arith, text_beq_iff i i)

is_in-with_seen_split :
    (i : Text) (o : Option Text) (seen ids : List Text)
    → (is_in (some i) (with_seen o seen) ≡ true) ⊎ (is_in (some i) ids ≡ true)
    → (is_in (some i) seen ≡ true) ⊎ (is_in (some i) (with_seen o ids) ≡ true)
is_in-with_seen_split i none seen ids h = h
is_in-with_seen_split i (some j) seen ids h = ground arith

all_distinct-with_seen :
    (o : Option Text) (ids : List Text)
    → ((i : Text) → o ≡ some i → is_in (some i) ids ≡ false)
    → all_distinct ids ≡ true
    → all_distinct (with_seen o ids) ≡ true
all_distinct-with_seen none ids f h = h
all_distinct-with_seen (some j) ids f h = ground (arith, f j refl)

-- What was seen before is not among the results that follow.
check_results-fresh :
    (calls : List ToolCall) (expected seen : List Text) (rs : List ContextMessage) (out : List Text)
    (i : Text)
    → check_results calls expected seen rs ≡ returned out
    → is_in (some i) seen ≡ true
    → is_in (some i) (result_ids rs) ≡ false
check_results-fresh calls expected seen [] out i h s = refl
check_results-fresh calls expected seen (r ∷ rs) out i h s =
    let (e, f, n, k) = check_results-∷ calls expected seen r rs out h in
    let rest =
      check_results-fresh calls expected (with_seen r.message.tool_call_id seen) rs out i k
        (is_in-with_seen i r.message.tool_call_id seen s) in
    is_in-with_seen_fresh i r.message.tool_call_id seen (result_ids rs) s f rest

check_results-distinct :
    (calls : List ToolCall) (expected seen : List Text) (rs : List ContextMessage) (out : List Text)
    → check_results calls expected seen rs ≡ returned out
    → all_distinct (result_ids rs) ≡ true
check_results-distinct calls expected seen [] out h = refl
check_results-distinct calls expected seen (r ∷ rs) out h =
    let (e, f, n, k) = check_results-∷ calls expected seen r rs out h in
    let rest =
      check_results-distinct calls expected (with_seen r.message.tool_call_id seen) rs out k in
    all_distinct-with_seen r.message.tool_call_id (result_ids rs)
      (λ i p.
        check_results-fresh calls expected (with_seen r.message.tool_call_id seen) rs out i k
          (rw p (is_in-with_seen_self i seen)))
      rest

-- What has been seen at the end was seen before, or is among the results.
check_results-seen :
    (calls : List ToolCall) (expected seen : List Text) (rs : List ContextMessage) (out : List Text)
    (i : Text)
    → check_results calls expected seen rs ≡ returned out
    → is_in (some i) out ≡ true
    → (is_in (some i) seen ≡ true) ⊎ (is_in (some i) (result_ids rs) ≡ true)
unfolding check_results
check_results-seen calls expected seen [] out i h s = inl (ground arith)
check_results-seen calls expected seen (r ∷ rs) out i h s =
    let (e, f, n, k) = check_results-∷ calls expected seen r rs out h in
    let rest =
      check_results-seen calls expected (with_seen r.message.tool_call_id seen) rs out i k s in
    is_in-with_seen_split i r.message.tool_call_id seen (result_ids rs) rest

check_results-answered :
    (calls : List ToolCall) (expected : List Text) (rs : List ContextMessage) (out ids : List Text)
    → check_results calls expected [] rs ≡ returned out
    → all (λ i. is_in (some i) out) ids ≡ true
    → all (λ i. is_in (some i) (result_ids rs)) ids ≡ true
check_results-answered calls expected rs out [] h a = refl
check_results-answered calls expected rs out (i ∷ ids) h a =
    let rest : all (λ i. is_in (some i) out) ids ≡ true = ground arith in
    ground (
      arith,
      check_results-seen calls expected [] rs out i h,
      check_results-answered calls expected rs out ids h rest,
    )

-- The results answer the calls: every call is complete and has an identifier of its own, each result
-- answers one of them under its name, none is answered twice and none is left.
pub record IsAnswered (calls : List ToolCall) (rs : List ContextMessage) : Type 0 where
  calls_are_complete : all is_complete calls ≡ true
  calls_have_ids : all has_id calls ≡ true
  calls_are_distinct : all_distinct (filled_ids calls) ≡ true
  results_are_expected : All (IsExpected calls (filled_ids calls)) rs
  results_are_distinct : all_distinct (result_ids rs) ≡ true
  calls_are_answered : all (λ i. is_in (some i) (result_ids rs)) (filled_ids calls) ≡ true

check_group-returned :
    (calls : List ToolCall) (rs : List ContextMessage)
    → check_group calls rs ≡ returned tt
    → (all is_complete calls ≡ true)
      × (all has_id calls ≡ true)
      × (all_distinct (filled_ids calls) ≡ true)
      × ((out : List Text) × (check_results calls (filled_ids calls) [] rs ≡ returned out)
          × (all (λ i. is_in (some i) out) (filled_ids calls) ≡ true))
unfolding check_group
check_group-returned calls rs h =
    elim (Outcome-cases (check_results calls (filled_ids calls) [] rs)) [
      | inl (out, p) ↦ (ground arith, ground arith, ground arith, (out, p, ground arith))
      | inr (e, p) ↦ ground arith
    ]

check_group-IsAnswered :
    (calls : List ToolCall) (rs : List ContextMessage)
    → check_group calls rs ≡ returned tt
    → IsAnswered calls rs
check_group-IsAnswered calls rs h =
    let (c, i, d, (out, k, a)) = check_group-returned calls rs h in
    record {
      calls_are_complete = c;
      calls_have_ids = i;
      calls_are_distinct = d;
      results_are_expected = check_results-IsExpected calls (filled_ids calls) [] rs out k;
      results_are_distinct = check_results-distinct calls (filled_ids calls) [] rs out k;
      calls_are_answered =
          check_results-answered calls (filled_ids calls) rs out (filled_ids calls) k a;
    }

-- An atom that is a rejected turn, a message alone without calls, or a group that is answered.
abbrev pub IsWhole : Host → Atom → Type 0
IsWhole host a =
    (is_tool a.head ≡ false)
    × (all is_tool a.results ≡ true)
    × ((is_rejected_turn host a.head.message a.results ≡ true)
        ⊎ ((has_calls a.head.message.tool_calls ≡ false) × (a.results ≡ []))
        ⊎ IsAnswered a.head.message.tool_calls a.results)

all-leading_tools : (ms : List ContextMessage) → all is_tool (leading_tools ms) ≡ true
all-leading_tools [] = refl
all-leading_tools (m ∷ ms) = ground (arith, all-leading_tools ms)

IsAtom-IsWhole :
    (host : Host) (m : ContextMessage) (ms : List ContextMessage) (step : Step)
    → is_tool m ≡ false
    → IsAtom host m ms step
    → IsWhole host step.0
IsAtom-IsWhole host m ms step t (inl (r, e)) =
    let whole : IsWhole host (whole_run m ms).0 = (t, all-leading_tools ms, inl r) in rw e whole
IsAtom-IsWhole host m ms step t (inr (inl (c, e))) =
    let whole : IsWhole host (single m ms).0 = (t, refl, inr (inl (c, refl))) in rw e whole
IsAtom-IsWhole host m ms step t (inr (inr (c, e))) =
    let answered = check_group-IsAnswered m.message.tool_calls (leading_tools ms) c in
    let whole : IsWhole host (whole_run m ms).0 = (t, all-leading_tools ms, inr (inr answered)) in
    rw e whole

atoms_loop-IsWhole :
    (host : Host) (fuel : ℕ) (ms : List ContextMessage) (atoms : List Atom)
    → atoms_loop host fuel ms ≡ returned atoms
    → All (IsWhole host) atoms
unfolding atoms_loop
atoms_loop-IsWhole host fuel [] [] h = record {}
atoms_loop-IsWhole host fuel [] (a ∷ atoms) h = cc
atoms_loop-IsWhole host zero (m ∷ ms) atoms h = cc
atoms_loop-IsWhole host (suc fuel) (m ∷ ms) atoms h =
    let (step, rest, s, l, e) = atoms_loop-suc host fuel m ms atoms h in
    let (t, a) = next_atom-IsAtom host m ms step s in
    let whole : All (IsWhole host) (step.0 ∷ rest) =
      (IsAtom-IsWhole host m ms step t a, atoms_loop-IsWhole host fuel step.1 rest l) in
    rw e whole

-- Every atom of a history that is divided is a rejected turn with its results, one message without
-- calls, or the complete calls of a message with the results that answer each of them once; no
-- tool result begins an atom, and all that follows its first message are tool results.
pub atoms_of-IsWhole :
    (host : Host) (ms : List ContextMessage) (atoms : List Atom)
    → atoms_of host ms ≡ returned atoms
    → All (IsWhole host) atoms
unfolding atoms_of
atoms_of-IsWhole host ms atoms h = atoms_loop-IsWhole host (length ms) ms atoms h
