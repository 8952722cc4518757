-- ===== src/Context/Project.antt =====
-- `ContextBudget`, `ContextProjection` and `ContextProjector` of src/sasori_context/budget.py.
pub mod Selections
pub mod Phases
pub mod Fits
pub mod Total
use sasori.Base.{
  ℕ, zero, suc, ◌+◌, ◌-◌, Bool, true, false, Option, none, some, List, [], ◌∷◌, ◌++◌, length, take,
  drop, leb, ltb, if◌then◌else◌,
}
use sasori.Base.Comp.{Outcome, returned, raised}
use sasori.Base.Try.{◌>>=◌, ◌>>◌, refuse_if}
use sasori.Text.{Text, codes, strip}
use sasori.Json.{Value, integer, ℤ, pos, negsuc}
use sasori.Context.Messages.{
  ContextMessage, Host, Try, ContextError, type_error, value_error, prefix_exceeds,
  protected_exceeds, Estimator, measure, digest,
}
use sasori.Context.Atoms.{wire_history, turns_of, flatten, split_prefix}
use sasori.Context.Summary.{summary_message}

-- `ContextBudget`, with the numbers its checks let through.
pub record ContextBudget : Type 0 where
  pub max_units : ℕ
  pub reserve_units : ℕ
  pub hot_turns : ℕ

abbrev pub message_units : ContextBudget → ℕ
message_units b = b.max_units - b.reserve_units

abbrev exact_int : Value → Try ℤ
exact_int v = elim v [ integer n ↦ returned n | _ ↦ raised type_error ]

abbrev not_negative : ℤ → Try ℕ
not_negative (pos n) = returned n
not_negative (negsuc n) = raised value_error

-- `ContextBudget.__post_init__`
unfoldable pub new_budget : Value → Value → Value → Try ContextBudget
new_budget max_units reserve_units hot_turns = do
  m ← exact_int max_units
  r ← exact_int reserve_units
  h ← exact_int hot_turns
  max ← not_negative m
  refuse_if (leb max 0) value_error
  reserve ← not_negative r
  refuse_if (leb max reserve) value_error
  hot ← not_negative h
  refuse_if (leb hot 0) value_error
  returned (record { max_units = max; reserve_units = reserve; hot_turns = hot })

pub record ContextProjection : Type 0 where
  pub messages : List ContextMessage
  pub original_units : ℕ
  pub projected_units : ℕ
  pub removed_messages : ℕ
  pub removed_sha256 : Option Text
  pub estimator_name : Text

-- `ContextProjector`; its estimator is a function, as the constructor checks.
pub record ContextProjector : Type 0 where
  pub budget : ContextBudget
  pub estimator : Estimator
  pub estimator_name : Text

-- `ContextProjector.__init__`
unfoldable pub new_projector : ContextBudget → Estimator → Text → Try ContextProjector
new_projector budget estimator name = elim (strip name) [
  | [] ↦ raised value_error
  | c ∷ stripped ↦
      returned (record { budget = budget; estimator = estimator; estimator_name = c ∷ stripped })
]

-- The digest of the removed messages, and the message that stands for them.
abbrev pub Mark : Type 0
Mark = Option Text × List ContextMessage

-- A digest in hexadecimal is never the empty text, so the summary is there whenever the digest is.
unfoldable pub mark : Host → List ContextMessage → Try Mark
unfolding digest summary_message
mark host [] = returned (none, [])
mark host (m ∷ ms) = do
  full ← digest host true (m ∷ ms)
  public ← digest host false (m ∷ ms)
  returned (some full, summary_message (m ∷ ms) public ∷ [])

-- A projection that removes the turns before a point.
pub record Selection : Type 0 where
  pub removed : List ContextMessage
  pub digest : Option Text
  pub messages : List ContextMessage
  pub units : ℕ

abbrev pub Turns : Type 0
Turns = List (List ContextMessage)

-- The messages from the prefix on, with the turns before `start` marked: `protected_history` and
-- `candidate_history`.
unfoldable pub select_at : Host → Estimator → List ContextMessage → Turns → ℕ → Try Selection
unfolding mark wire_history measure
select_at host estimator prefix turns start = do
  marked ← mark host (flatten (take start turns))
  messages ← wire_history host (prefix ++ (marked.1 ++ flatten (drop start turns)))
  units ← measure estimator messages
  returned (record {
    removed = flatten (take start turns);
    digest = marked.0;
    messages = messages;
    units = units;
  })

-- The loop that takes back one more turn while the result fits.
unfoldable pub widen :
    Host → ContextProjector → List ContextMessage → Turns → ℕ → Selection → Try Selection
unfolding select_at
widen host p prefix turns zero chosen = returned chosen
widen host p prefix turns (suc start) chosen = do
  candidate ← select_at host p.estimator prefix turns start
  elim (ltb (message_units p.budget) candidate.units) [
    | true ↦ returned chosen
    | false ↦ widen host p prefix turns start candidate
  ]

abbrev pub hot_start : ContextBudget → Turns → ℕ
hot_start b turns = length turns - b.hot_turns

abbrev pub unchanged : ContextProjector → ℕ → List ContextMessage → ℕ → ContextProjection
unchanged p original wire units = record {
  messages = wire;
  original_units = original;
  projected_units = units;
  removed_messages = 0;
  removed_sha256 = none;
  estimator_name = p.estimator_name;
}

-- The end of `project`; the case of no removed message is its `if not removed`.
abbrev pub finish : ContextProjector → ℕ → List ContextMessage → ℕ → Selection → ContextProjection
finish p original wire units chosen = elim chosen.removed [
  | [] ↦ unchanged p original wire units
  | _ ∷ _ ↦ record {
    messages = chosen.messages;
    original_units = original;
    projected_units = chosen.units;
    removed_messages = length chosen.removed;
    removed_sha256 = chosen.digest;
    estimator_name = p.estimator_name;
  }
]

-- The selection among turns that are there.
unfoldable pub choose : Host → ContextProjector → List ContextMessage → Turns → Try Selection
unfolding select_at widen
choose host p prefix [] = raised prefix_exceeds
choose host p prefix (t ∷ ts) = do
  hot ← select_at host p.estimator prefix (t ∷ ts) (hot_start p.budget (t ∷ ts))
  refuse_if (ltb (message_units p.budget) hot.units) protected_exceeds
  widen host p prefix (t ∷ ts) (hot_start p.budget (t ∷ ts)) hot

-- `project`, from the check of the units on.
unfoldable pub settle :
    Host
    → ContextProjector
    → List ContextMessage
    → List ContextMessage
    → ℕ
    → List ContextMessage
    → ℕ
    → Try ContextProjection
unfolding turns_of choose
settle host p prefix rest original wire units = elim (leb units (message_units p.budget)) [
  | true ↦ returned (unchanged p original wire units)
  | false ↦ do
    turns ← turns_of host rest
    chosen ← choose host p prefix turns
    returned (finish p original wire units chosen)
]

-- `ContextProjector.project`
unfoldable pub project : Host → ContextProjector → List ContextMessage → Try ContextProjection
unfolding split_prefix measure wire_history settle
project host p history = do
  split ← split_prefix history
  original ← measure p.estimator history
  wire ← wire_history host history
  units ← measure p.estimator wire
  settle host p split.0 split.1 original wire units

-- `BoundedContextModel.complete`, with the model as a function of the messages it is given.
unfoldable pub complete_bounded :
    {A : Type 0}
    → Host
    → ContextProjector
    → (List ContextMessage → Try A)
    → List ContextMessage
    → Try A
unfolding project
complete_bounded host p model history = do
  projection ← project host p history
  model projection.messages
