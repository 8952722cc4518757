-- ===== src/Context/Project/Phases.antt =====
-- What `ContextProjector.project` of src/sasori_context/budget.py computes on the way.
use sasori.Base.{ℕ, ◌≤◌, ◌<◌, ◌≡◌, ◌⊎◌, inl, inr, Bool-cases, List, arith, leb}
use sasori.Base.Comp.{returned}
use sasori.Base.Try.{Outcome-cases}
use sasori.Context.Messages.{ContextMessage, Host, measure}
use sasori.Context.Atoms.{wire_history, split_prefix, Split, turns_of}
use sasori.Context.Project.{
  ContextProjector, ContextProjection, message_units, Turns, Selection, choose, unchanged, finish,
  settle, project,
}

-- What a projection computes before it chooses.
pub record IsMeasured (host : Host) (p : ContextProjector) (history : List ContextMessage)
    (r : ContextProjection) : Type 0 where
  pub split : Split
  pub original : ℕ
  pub wire : List ContextMessage
  pub units : ℕ
  pub splits : split_prefix history ≡ returned split
  pub counts_original : measure p.estimator history ≡ returned original
  pub wires : wire_history host history ≡ returned wire
  pub counts_wire : measure p.estimator wire ≡ returned units
  pub settles : settle host p split.0 split.1 original wire units ≡ returned r

pub project-IsMeasured :
    (host : Host) (p : ContextProjector) (history : List ContextMessage) (r : ContextProjection)
    → project host p history ≡ returned r
    → IsMeasured host p history r
unfolding project
project-IsMeasured host p history r h = elim (Outcome-cases (split_prefix history)) [
  | inr (e, q) ↦ ground arith
  | inl (split, s) ↦ elim (Outcome-cases (measure p.estimator history)) [
    | inr (e, q) ↦ ground arith
    | inl (original, o) ↦ elim (Outcome-cases (wire_history host history)) [
      | inr (e, q) ↦ ground arith
      | inl (wire, w) ↦ elim (Outcome-cases (measure p.estimator wire)) [
        | inr (e, q) ↦ ground arith
        | inl (units, u) ↦ record {
          split = split;
          original = original;
          wire = wire;
          units = units;
          splits = s;
          counts_original = o;
          wires = w;
          counts_wire = u;
          settles = ground arith;
        }
      ]
    ]
  ]
]

-- The turns after the prefix, and the selection among them.
unfoldable pub IsCompacted :
    Host
    → ContextProjector
    → ContextProjection
    → List ContextMessage
    → List ContextMessage
    → ℕ
    → List ContextMessage
    → ℕ
    → Type 0
IsCompacted host p r prefix rest original wire units =
    (turns : Turns) × (chosen : Selection) × (turns_of host rest ≡ returned turns)
    × (choose host p prefix turns ≡ returned chosen)
    × (finish p original wire units chosen ≡ r)

pub settle-cases :
    (host : Host) (p : ContextProjector) (prefix rest : List ContextMessage) (original : ℕ)
    (wire : List ContextMessage) (units : ℕ) (r : ContextProjection)
    → settle host p prefix rest original wire units ≡ returned r
    → ((units ≤ message_units p.budget) × (unchanged p original wire units ≡ r))
      ⊎ ((message_units p.budget < units) × IsCompacted host p r prefix rest original wire units)
unfolding settle IsCompacted
settle-cases host p prefix rest original wire units r h =
    elim (Bool-cases (leb units (message_units p.budget))) [
      | inl q ↦ inl (ground arith, ground arith)
      | inr q ↦ elim (Outcome-cases (turns_of host rest)) [
        | inr (e, z) ↦ ground arith
        | inl (turns, t) ↦ elim (Outcome-cases (choose host p prefix turns)) [
          | inr (e, z) ↦ ground arith
          | inl (chosen, c) ↦ inr (ground arith, (turns, chosen, t, c, ground arith))
        ]
      ]
    ]
