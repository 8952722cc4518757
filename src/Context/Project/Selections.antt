-- ===== src/Context/Project/Selections.antt =====
-- The choice of the turns to keep, of `ContextProjector.project` in src/sasori_context/budget.py.
use sasori.Base.{
  ℕ, zero, suc, ◌≤◌, ◌<◌, ◌≡◌, refl, sym, ◌⊎◌, inl, inr, Bool-cases, List, [], ◌∷◌, ◌++◌, arith,
  take, drop, ltb,
}
use sasori.Base.Comp.{returned}
use sasori.Base.Try.{Outcome-cases}
use sasori.Context.Messages.{ContextMessage, Host, Estimator, measure}
use sasori.Context.Atoms.{flatten, wire_history}
use sasori.Context.Project.{
  ContextProjector, message_units, Turns, Selection, Mark, mark, select_at, widen, hot_start,
  choose,
}

-- A selection whose removed messages are the turns before `start`, and whose messages are the
-- others on the wire, after the prefix and the mark.
pub record IsSelection (host : Host) (estimator : Estimator) (prefix : List ContextMessage)
    (turns : Turns) (start : ℕ) (s : Selection) : Type 0 where
  pub marked : Mark
  pub removes : s.removed ≡ flatten (take start turns)
  pub marks : mark host s.removed ≡ returned marked
  pub digests : s.digest ≡ marked.0
  pub keeps :
      wire_history host (prefix ++ (marked.1 ++ flatten (drop start turns))) ≡ returned s.messages
  pub counts : measure estimator s.messages ≡ returned s.units

pub select_at-IsSelection :
    (host : Host) (estimator : Estimator) (prefix : List ContextMessage) (turns : Turns) (start : ℕ)
    (s : Selection)
    → select_at host estimator prefix turns start ≡ returned s
    → IsSelection host estimator prefix turns start s
unfolding select_at
select_at-IsSelection host estimator prefix turns start s h =
    elim (Outcome-cases (mark host (flatten (take start turns)))) [
      | inr (e, p) ↦ ground arith
      | inl (marked, p) ↦
          let kept = wire_history host (prefix ++ (marked.1 ++ flatten (drop start turns))) in
          elim (Outcome-cases kept) [
            | inr (e, q) ↦ ground arith
            | inl (messages, q) ↦ elim (Outcome-cases (measure estimator messages)) [
              | inr (e, r) ↦ ground arith
              | inl (units, r) ↦
                  let same : record {
                    removed = flatten (take start turns);
                    digest = marked.0;
                    messages = messages;
                    units = units;
                  }
                      ≡ s =
                    ground arith in
                  rw (sym same) (record {
                    marked = marked;
                    removes = refl;
                    marks = p;
                    digests = refl;
                    keeps = q;
                    counts = r;
                  })
            ]
          ]
    ]

-- A point at which the loop stops: at the first turn, or where one more turn does not fit.
abbrev pub IsEnd : Host → ContextProjector → List ContextMessage → Turns → ℕ → Type 0
IsEnd host p prefix turns start =
    (start ≡ 0)
    ⊎ ((before : ℕ) × (over : Selection) × (start ≡ suc before)
        × IsSelection host p.estimator prefix turns before over
        × (message_units p.budget < over.units))

-- The selection is made at a point up to `bound`, fits the budget, and cannot take one turn more.
abbrev pub IsChoice : Host → ContextProjector → List ContextMessage → Turns → ℕ → Selection → Type 0
IsChoice host p prefix turns bound s =
    (start : ℕ) × (start ≤ bound)
    × IsSelection host p.estimator prefix turns start s
    × (s.units ≤ message_units p.budget)
    × IsEnd host p prefix turns start

widen-IsChoice :
    (host : Host) (p : ContextProjector) (prefix : List ContextMessage) (turns : Turns) (start : ℕ)
    (chosen s : Selection)
    → widen host p prefix turns start chosen ≡ returned s
    → IsSelection host p.estimator prefix turns start chosen
    → chosen.units ≤ message_units p.budget
    → IsChoice host p prefix turns start s
unfolding widen
widen-IsChoice host p prefix turns zero chosen s h made fits =
    let same : chosen ≡ s = ground arith in
    let whole : IsChoice host p prefix turns zero chosen =
      (zero, omega arith, made, fits, inl refl) in
    rw (sym same) whole
widen-IsChoice host p prefix turns (suc start) chosen s h made fits =
    elim (Outcome-cases (select_at host p.estimator prefix turns start)) [
      | inr (e, q) ↦ ground arith
      | inl (candidate, q) ↦
          let next = select_at-IsSelection host p.estimator prefix turns start candidate q in
          elim (Bool-cases (ltb (message_units p.budget) candidate.units)) [
            | inl over ↦
                let same : chosen ≡ s = ground arith in
                let whole : IsChoice host p prefix turns (suc start) chosen = (
                  suc start,
                  omega arith,
                  made,
                  fits,
                  inr (start, candidate, refl, next, ground arith),
                ) in
                rw (sym same) whole
            | inr under ↦
                let rest =
                  widen-IsChoice host p prefix turns start candidate s (ground arith) next
                    (ground arith) in
                (rest.0, omega (arith, rest.1), rest.2, rest.3, rest.4)
          ]
    ]

-- The selection that a projection settles on.
pub choose-IsChoice :
    (host : Host) (p : ContextProjector) (prefix : List ContextMessage) (turns : Turns)
    (s : Selection)
    → choose host p prefix turns ≡ returned s
    → IsChoice host p prefix turns (hot_start p.budget turns) s
unfolding choose
choose-IsChoice host p prefix [] s h = ground arith
choose-IsChoice host p prefix (t ∷ ts) s h =
    elim (Outcome-cases
      (select_at host p.estimator prefix (t ∷ ts) (hot_start p.budget (t ∷ ts)))) [
        | inr (e, q) ↦ ground arith
        | inl (hot, q) ↦
            widen-IsChoice host p prefix (t ∷ ts) (hot_start p.budget (t ∷ ts)) hot s (ground arith)
              (select_at-IsSelection host p.estimator prefix (t ∷ ts) (hot_start p.budget (t ∷ ts))
                hot q)
              (ground arith)
      ]
