-- ===== src/Context/Project/Total.antt =====
-- `ContextProjector.project` of src/sasori_context/budget.py ends with a projection or with one of
-- the source's errors: the fuel of its loops is enough.
use sasori.Base.{
  ℕ, zero, suc, ◌+◌, ◌≢◌, false, true, List, [], ◌∷◌, ◌++◌, arith, take, drop, ltb, leb, Bool-cases,
  inl, inr,
}
use sasori.Base.Comp.{returned, raised}
use sasori.Base.Try.{◌>>=◌, ◌>>◌, >>=-avoids, refuse_if}
use sasori.Context.Messages.{
  ContextMessage, Host, Try, out_of_fuel, protected_exceeds, Estimator, measure_from, measure,
}
use sasori.Context.Atoms.{
  Atom, flatten, or_atom, wire_atoms, wire_history, atoms_of, turns_of, turns_of_atoms,
  split_protected, split_prefix,
}
use sasori.Context.Atoms.Fuel.{HasFuel, digest-HasFuel, normalized-HasFuel, atoms_of-HasFuel}
use sasori.Context.Rejections.{normalized_rejection_atom}
use sasori.Context.Project.{
  ContextProjector, ContextProjection, Turns, Selection, Mark, mark, message_units, select_at,
  widen, hot_start, choose, finish, settle, project,
}

-- The estimator does not claim that a loop of the projector has stopped.
abbrev IsQuiet : Estimator → Type 0
IsQuiet estimator = (m : ContextMessage) → HasFuel (estimator m)

split_protected-HasFuel : (ms : List ContextMessage) → HasFuel (split_protected ms)
unfolding split_protected
split_protected-HasFuel [] h = ground arith
split_protected-HasFuel (m ∷ ms) h = ground (arith, split_protected-HasFuel ms)

split_prefix-HasFuel : (ms : List ContextMessage) → HasFuel (split_prefix ms)
unfolding split_prefix
split_prefix-HasFuel [] h = ground arith
split_prefix-HasFuel (m ∷ ms) h =
    ground (arith, split_prefix-HasFuel ms, split_protected-HasFuel (m ∷ ms))

module _ (host : Host) where
  wire_atoms-HasFuel : (atoms : List Atom) → HasFuel (wire_atoms host atoms)
  unfolding wire_atoms
  wire_atoms-HasFuel [] = λ h. ground arith
  wire_atoms-HasFuel (a ∷ atoms) =
      >>=-avoids (normalized_rejection_atom host a.head a.results)
        (λ o. wire_atoms host atoms >>= λ rest. returned (or_atom a o ++ rest)) out_of_fuel
        (normalized-HasFuel host a.head a.results)
        (λ o n.
          >>=-avoids (wire_atoms host atoms) (λ rest. returned (or_atom a o ++ rest)) out_of_fuel
            (wire_atoms-HasFuel atoms) (λ rest w h. ground arith))

  wire_history-HasFuel : (ms : List ContextMessage) → HasFuel (wire_history host ms)
  unfolding wire_history
  wire_history-HasFuel ms =
      >>=-avoids (atoms_of host ms) (wire_atoms host) out_of_fuel (atoms_of-HasFuel host ms)
        (λ atoms a. wire_atoms-HasFuel atoms)

  turns_of-HasFuel : (ms : List ContextMessage) → HasFuel (turns_of host ms)
  unfolding turns_of
  turns_of-HasFuel ms =
      >>=-avoids (atoms_of host ms) (λ atoms. returned (turns_of_atoms atoms)) out_of_fuel
        (atoms_of-HasFuel host ms) (λ atoms a h. ground arith)

  mark-HasFuel : (ms : List ContextMessage) → HasFuel (mark host ms)
  unfolding mark
  mark-HasFuel [] h = ground arith
  mark-HasFuel (m ∷ ms) h =
      ground (arith, digest-HasFuel host true (m ∷ ms), digest-HasFuel host false (m ∷ ms))

module _ (host : Host) (estimator : Estimator) (quiet : IsQuiet estimator) where
  measure_from-HasFuel : (n : ℕ) (ms : List ContextMessage) → HasFuel (measure_from n estimator ms)
  unfolding measure_from
  measure_from-HasFuel n [] = λ h. ground arith
  measure_from-HasFuel n (m ∷ ms) =
      >>=-avoids (estimator m) (λ units. measure_from (n + units) estimator ms) out_of_fuel
        (quiet m) (λ units u. measure_from-HasFuel (n + units) ms)

  measure-HasFuel : (ms : List ContextMessage) → HasFuel (measure estimator ms)
  unfolding measure
  measure-HasFuel ms = measure_from-HasFuel 0 ms

  select_at-HasFuel :
      (prefix : List ContextMessage) (turns : Turns) (start : ℕ)
      → HasFuel (select_at host estimator prefix turns start)
  unfolding select_at
  select_at-HasFuel prefix turns start =
      let selected : Mark → List ContextMessage → ℕ → Selection = λ marked messages units. record {
        removed = flatten (take start turns);
        digest = marked.0;
        messages = messages;
        units = units;
      } in
      let kept : Mark → Try (List ContextMessage) =
        λ marked. wire_history host (prefix ++ (marked.1 ++ flatten (drop start turns))) in
      >>=-avoids (mark host (flatten (take start turns)))
        (λ marked. kept marked >>= λ messages.
          measure estimator messages >>= λ units. returned (selected marked messages units))
        out_of_fuel (mark-HasFuel host (flatten (take start turns)))
        (λ marked k.
          >>=-avoids (kept marked)
            (λ messages.
              measure estimator messages >>= λ units. returned (selected marked messages units))
            out_of_fuel
            (wire_history-HasFuel host (prefix ++ (marked.1 ++ flatten (drop start turns))))
            (λ messages w.
              >>=-avoids (measure estimator messages)
                (λ units. returned (selected marked messages units)) out_of_fuel
                (measure-HasFuel messages) (λ units u h. ground arith)))

module _ (host : Host) (p : ContextProjector) (quiet : IsQuiet p.estimator) where
  widen-HasFuel :
      (prefix : List ContextMessage) (turns : Turns) (start : ℕ) (chosen : Selection)
      → HasFuel (widen host p prefix turns start chosen)
  unfolding widen
  widen-HasFuel prefix turns zero chosen h = ground arith
  widen-HasFuel prefix turns (suc start) chosen h =
      >>=-avoids (select_at host p.estimator prefix turns start)
        (λ candidate. elim (ltb (message_units p.budget) candidate.units) [
          | true ↦ returned chosen
          | false ↦ widen host p prefix turns start candidate
        ])
        out_of_fuel (select_at-HasFuel host p.estimator quiet prefix turns start)
        (λ candidate s k. ground (arith, widen-HasFuel prefix turns start candidate)) h

  choose-HasFuel :
      (prefix : List ContextMessage) (turns : Turns) → HasFuel (choose host p prefix turns)
  unfolding choose
  choose-HasFuel prefix [] = λ h. ground arith
  choose-HasFuel prefix (t ∷ ts) =
      let start = hot_start p.budget (t ∷ ts) in
      >>=-avoids (select_at host p.estimator prefix (t ∷ ts) start)
        (λ hot.
          refuse_if (ltb (message_units p.budget) hot.units) protected_exceeds
          >> widen host p prefix (t ∷ ts) start hot)
        out_of_fuel (select_at-HasFuel host p.estimator quiet prefix (t ∷ ts) start)
        (λ hot s h. ground (arith, widen-HasFuel prefix (t ∷ ts) start hot))

  settle-HasFuel :
      (prefix rest : List ContextMessage) (original : ℕ) (wire : List ContextMessage) (units : ℕ)
      → HasFuel (settle host p prefix rest original wire units)
  unfolding settle
  settle-HasFuel prefix rest original wire units h =
      elim (Bool-cases (leb units (message_units p.budget))) [
        | inl q ↦ ground arith
        | inr q ↦
            let compact : Turns → Try ContextProjection = λ turns.
              choose host p prefix turns >>= λ chosen.
              returned (finish p original wire units chosen) in
            >>=-avoids (turns_of host rest) compact out_of_fuel (turns_of-HasFuel host rest)
              (λ turns t.
                >>=-avoids (choose host p prefix turns)
                  (λ chosen. returned (finish p original wire units chosen)) out_of_fuel
                  (choose-HasFuel prefix turns) (λ chosen c k. ground arith))
              (ground arith)
      ]

  project_quiet : (history : List ContextMessage) → HasFuel (project host p history)
  unfolding project
  project_quiet history =
      >>=-avoids (split_prefix history)
        (λ split. measure p.estimator history >>= λ original. wire_history host history >>= λ wire.
          measure p.estimator wire >>= λ units. settle host p split.0 split.1 original wire units)
        out_of_fuel (split_prefix-HasFuel history)
        (λ split s.
          >>=-avoids (measure p.estimator history)
            (λ original. wire_history host history >>= λ wire. measure p.estimator wire >>= λ units.
              settle host p split.0 split.1 original wire units)
            out_of_fuel (measure-HasFuel host p.estimator quiet history)
            (λ original o.
              >>=-avoids (wire_history host history)
                (λ wire. measure p.estimator wire >>= λ units.
                  settle host p split.0 split.1 original wire units)
                out_of_fuel (wire_history-HasFuel host history)
                (λ wire w.
                  >>=-avoids (measure p.estimator wire)
                    (λ units. settle host p split.0 split.1 original wire units) out_of_fuel
                    (measure-HasFuel host p.estimator quiet wire)
                    (λ units u. settle-HasFuel split.0 split.1 original wire units))))

-- A projection ends: with an estimator that does not itself raise the model's error of a loop that
-- has run out of fuel, no history makes the projector raise it.
pub project-HasFuel :
    (host : Host) (p : ContextProjector) (history : List ContextMessage)
    → ((m : ContextMessage) → p.estimator m ≢ raised out_of_fuel)
    → project host p history ≢ raised out_of_fuel
project-HasFuel host p history quiet = project_quiet host p quiet history
