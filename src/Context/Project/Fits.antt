-- ===== src/Context/Project/Fits.antt =====
-- What `ContextProjector.project` of src/sasori_context/budget.py returns.
use sasori.Base.{
  ℕ, ◌≤◌, ◌<◌, ◌≡◌, ◌≢◌, refl, sym, ap, ◌∙◌, ◌⊎◌, inl, inr, false, none, List, [], ◌∷◌, ◌++◌, arith,
  length, length_zero, take, drop, any,
}
use sasori.Base.Comp.{returned}
use sasori.Base.Try.{>>=-returned}
use sasori.Context.Messages.{ContextMessage, Host, Try, measure}
use sasori.Context.Atoms.{flatten, wire_history, Split, turns_of, is_protected}
use sasori.Context.Atoms.Turns.{flatten-take-drop, flatten-turns_of, IsFront, split_prefix-IsFront}
use sasori.Context.Project.{
  ContextProjector, ContextProjection, message_units, Turns, Selection, mark, hot_start, unchanged,
  finish, project, complete_bounded,
}
use sasori.Context.Project.Selections.{IsSelection, IsEnd, choose-IsChoice}
use sasori.Context.Project.Phases.{IsMeasured, project-IsMeasured, IsCompacted, settle-cases}

-- A selection that removes nothing has the messages and units of the whole history.
nothing_removed-IsSelection :
    (host : Host) (p : ContextProjector) (prefix rest : List ContextMessage) (turns : Turns)
    (start : ℕ) (wire : List ContextMessage) (units : ℕ) (s : Selection)
    → wire_history host (prefix ++ rest) ≡ returned wire
    → measure p.estimator wire ≡ returned units
    → flatten turns ≡ rest
    → IsSelection host p.estimator prefix turns start s
    → s.removed ≡ []
    → s.units ≡ units
unfolding mark
nothing_removed-IsSelection host p prefix rest turns start wire units s w u f made e =
    let empty : flatten (take start turns) ≡ [] = ground (arith, made.removes) in
    let marks : mark host [] ≡ returned made.marked = ap (λ l. mark host l) (sym e) ∙ made.marks in
    let no_mark : made.marked.1 ≡ [] = ground arith in
    let whole : flatten (drop start turns) ≡ rest =
      ap (λ l. l ++ flatten (drop start turns)) (sym empty) ∙ (flatten-take-drop start turns ∙ f) in
    let kept : made.marked.1 ++ flatten (drop start turns) ≡ rest =
      ap (λ l. l ++ flatten (drop start turns)) no_mark ∙ whole in
    let keeps : wire_history host (prefix ++ rest) ≡ returned s.messages =
      ap (λ l. wire_history host (prefix ++ l)) (sym kept) ∙ made.keeps in
    let same : s.messages ≡ wire = ground arith in
    let counts : measure p.estimator wire ≡ returned s.units =
      ap (λ l. measure p.estimator l) (sym same) ∙ made.counts in
    ground arith

-- A compacted projection of what stands after the prefix.
pub record IsCompaction (host : Host) (p : ContextProjector) (prefix rest : List ContextMessage)
    (r : ContextProjection) : Type 0 where
  pub turns : Turns
  pub start : ℕ
  pub chosen : Selection
  pub divides : turns_of host rest ≡ returned turns
  pub is_early : start ≤ hot_start p.budget turns
  pub selects : IsSelection host p.estimator prefix turns start chosen
  pub ends : IsEnd host p prefix turns start
  pub fits : chosen.units ≤ message_units p.budget
  pub has_removed : chosen.removed ≢ []
  pub divides_rest : chosen.removed ++ flatten (drop start turns) ≡ rest
  pub gives_messages : r.messages ≡ chosen.messages
  pub gives_units : r.projected_units ≡ chosen.units
  pub gives_count : r.removed_messages ≡ length chosen.removed
  pub gives_digest : r.removed_sha256 ≡ chosen.digest

finish-∷ :
    (p : ContextProjector) (original : ℕ) (wire : List ContextMessage) (units : ℕ) (s : Selection)
    (r : ContextProjection)
    → finish p original wire units s ≡ r
    → s.removed ≢ []
    → (r.messages ≡ s.messages)
      × (r.projected_units ≡ s.units)
      × (r.removed_messages ≡ length s.removed)
      × (r.removed_sha256 ≡ s.digest)
      × (r.original_units ≡ original)
finish-∷ p original wire units s r h n = ground arith

compacted-IsCompaction :
    (host : Host) (p : ContextProjector) (prefix rest : List ContextMessage) (original : ℕ)
    (wire : List ContextMessage) (units : ℕ) (r : ContextProjection)
    → wire_history host (prefix ++ rest) ≡ returned wire
    → measure p.estimator wire ≡ returned units
    → message_units p.budget < units
    → IsCompacted host p r prefix rest original wire units
    → IsCompaction host p prefix rest r
unfolding IsCompacted
compacted-IsCompaction host p prefix rest original wire units r w u over (turns, chosen, t, c, e) =
    let (start, bound, made, fits, end) = choose-IsChoice host p prefix turns chosen c in
    let flat = flatten-turns_of host rest turns t in
    let kept : chosen.removed ≢ [] = λ z. omega (
      arith,
      over,
      fits,
      nothing_removed-IsSelection host p prefix rest turns start wire units chosen w u flat made z,
    ) in
    let whole : chosen.removed ++ flatten (drop start turns) ≡ rest =
      ap (λ l. l ++ flatten (drop start turns)) made.removes
      ∙ (flatten-take-drop start turns ∙ flat) in
    let (m, n, k, d, o) = finish-∷ p original wire units chosen r e kept in
    record {
      turns = turns;
      start = start;
      chosen = chosen;
      divides = t;
      is_early = bound;
      selects = made;
      ends = end;
      fits = fits;
      has_removed = kept;
      divides_rest = whole;
      gives_messages = m;
      gives_units = n;
      gives_count = k;
      gives_digest = d;
    }

finish-original_units :
    (p : ContextProjector) (original : ℕ) (wire : List ContextMessage) (units : ℕ) (s : Selection)
    → (finish p original wire units s).original_units ≡ original
finish-original_units p original wire units s = ground arith

compacted-original_units :
    (host : Host) (p : ContextProjector) (prefix rest : List ContextMessage) (original : ℕ)
    (wire : List ContextMessage) (units : ℕ) (r : ContextProjection)
    → IsCompacted host p r prefix rest original wire units
    → r.original_units ≡ original
unfolding IsCompacted
compacted-original_units host p prefix rest original wire units r (turns, chosen, t, c, e) =
    ap (λ q. q.original_units) (sym e) ∙ finish-original_units p original wire units chosen

-- The two ways in which a projection ends.
measured-cases :
    (host : Host) (p : ContextProjector) (history : List ContextMessage) (r : ContextProjection)
    (m : IsMeasured host p history r)
    → (r.original_units ≡ m.original)
      × (((m.units ≤ message_units p.budget) × (unchanged p m.original m.wire m.units ≡ r))
          ⊎ IsCompaction host p m.split.0 m.split.1 r)
measured-cases host p history r m =
    let whole = (split_prefix-IsFront history m.split m.splits).whole in
    elim (settle-cases host p m.split.0 m.split.1 m.original m.wire m.units r m.settles) [
      | inl (under, same) ↦ (ap (λ q. q.original_units) (sym same), inl (under, same))
      | inr (over, c) ↦ (
        compacted-original_units host p m.split.0 m.split.1 m.original m.wire m.units r c,
        inr (
            compacted-IsCompaction host p m.split.0 m.split.1 m.original m.wire m.units r
              (ap (λ l. wire_history host l) whole ∙ m.wires) m.counts_wire over c),
      )
    ]

-- Every projection that is returned fits the budget: its messages measure to the units it reports,
-- these are at most `max_units - reserve_units`, and the original units are those of the history.
pub project-fits :
    (host : Host) (p : ContextProjector) (history : List ContextMessage) (r : ContextProjection)
    → project host p history ≡ returned r
    → (r.projected_units ≤ message_units p.budget)
      × (measure p.estimator r.messages ≡ returned r.projected_units)
      × (measure p.estimator history ≡ returned r.original_units)
project-fits host p history r h =
    let m = project-IsMeasured host p history r h in
    let (o, cases) = measured-cases host p history r m in
    let original : measure p.estimator history ≡ returned r.original_units =
      m.counts_original ∙ ap returned (sym o) in
    elim cases [
      | inl (under, same) ↦ (
        ground arith,
        ap (λ q. measure p.estimator q.messages) (sym same)
            ∙ (m.counts_wire ∙ ap (λ q. returned q.projected_units) same),
        original,
      )
      | inr c ↦ (
        omega (arith, c.fits, c.gives_units),
        ap (λ l. measure p.estimator l) c.gives_messages
            ∙ (c.selects.counts ∙ ap returned (sym c.gives_units)),
        original,
      )
    ]

any-append_false :
    (xs ys : List ContextMessage)
    → any is_protected (xs ++ ys) ≡ false
    → any is_protected xs ≡ false
any-append_false [] ys h = refl
any-append_false (x ∷ xs) ys h = ground (arith, any-append_false xs ys)

-- A projection is the whole history on the wire with nothing removed, or a compaction: the front
-- stays, which is every system message that the history begins with and the protected data after
-- them; the removed messages are whole turns after it and none of them is protected, at least the
-- configured number of last turns is kept, the messages are the front, the summary of what was
-- removed and the kept turns on the wire, and one turn more would not fit.
pub project-compacts :
    (host : Host) (p : ContextProjector) (history : List ContextMessage) (r : ContextProjection)
    → project host p history ≡ returned r
    → ((wire_history host history ≡ returned r.messages)
        × (r.removed_messages ≡ 0)
        × (r.removed_sha256 ≡ none))
      ⊎ ((split : Split) × IsFront history split
          × (c : IsCompaction host p split.0 split.1 r) × (split.0
                ++ (c.chosen.removed ++ flatten (drop c.start c.turns))
              ≡ history)
          × (any is_protected c.chosen.removed ≡ false)
          × (r.removed_messages ≢ 0))
project-compacts host p history r h =
    let m = project-IsMeasured host p history r h in
    let front = split_prefix-IsFront history m.split m.splits in
    elim ((measured-cases host p history r m).1) [
      | inl (under, same) ↦ inl (
        m.wires ∙ ap (λ q. returned q.messages) same,
        ap (λ q. q.removed_messages) (sym same),
        ap (λ q. q.removed_sha256) (sym same),
      )
      | inr c ↦ inr (
        m.split,
        front,
        c,
        ap (λ l. m.split.0 ++ l) c.divides_rest ∙ front.whole,
        any-append_false c.chosen.removed (flatten (drop c.start c.turns))
            (ap (any is_protected) c.divides_rest ∙ front.none_left),
        λ z. c.has_removed (length_zero c.chosen.removed (sym c.gives_count ∙ z)),
      )
    ]

-- A model behind the projector replies to messages that fit the budget.
pub complete_bounded-fits :
    {A : Type 0} (host : Host) (p : ContextProjector) (model : List ContextMessage → Try A)
    (history : List ContextMessage) (reply : A)
    → complete_bounded host p model history ≡ returned reply
    → (messages : List ContextMessage) × (units : ℕ) × (model messages ≡ returned reply)
      × (measure p.estimator messages ≡ returned units)
      × (units ≤ message_units p.budget)
unfolding complete_bounded
complete_bounded-fits host p model history reply h =
    let (r, q, k) = >>=-returned (project host p history) (λ r. model r.messages) reply h in
    let (fits, counts, original) = project-fits host p history r q in
    (r.messages, r.projected_units, k, counts, fits)
