-- ===== src/Examples/Contexts.antt =====
-- Projections of a short history into a budget of four messages.
use sasori.Base.{
  ◌≤◌, ◌≡◌, ◌≢◌, ◌⊎◌, refl, All, any, true, false, none, some, List, [], ◌∷◌, ◌++◌, map, drop,
}
use sasori.Base.Comp.{returned, raised}
use sasori.Text.{Text, codes, text_beq, utf8_length}
use sasori.Json.{null, string, boolean, mapping, end}
use sasori.Json.Canonical.{json_dumps}
use sasori.Contracts.Types.{ToolCall, given}
use sasori.Context.Messages.{
  ContextMessage, MessageKind, Host, Try, Estimator, measure, out_of_fuel,
}
use sasori.Context.Rejections.{normalized_rejection_atom}
use sasori.Context.Atoms.{Atom, messages_of, atoms_of, flatten, wire_history, is_protected, Split}
use sasori.Context.Atoms.Shape.{flatten-atoms_of}
use sasori.Context.Atoms.Turns.{IsFront}
use sasori.Context.Atoms.Groups.{IsWhole, atoms_of-IsWhole}
use sasori.Context.Project.{ContextProjector, ContextProjection, message_units, project}
use sasori.Context.Project.Fits.{IsCompaction, project-fits, project-compacts}
use sasori.Context.Project.Total.{project-HasFuel}

abbrev host : Host
host = record {
  dumps = json_dumps;
  sha256 = λ t. codes "00";
  dict_of = λ v. none;
  mark_value = λ t. null;
}

abbrev message : Text → Text → List ToolCall → Text × Text → ContextMessage
message role content calls answer = record {
  message = record {
    role = role;
    content = content;
    tool_calls = calls;
    tool_call_id = elim answer.0 [ [] ↦ none | _ ∷ _ ↦ some answer.0 ];
    tool_name = elim answer.1 [ [] ↦ none | _ ∷ _ ↦ some answer.1 ];
    error_code = none;
    provider_state = none;
  };
  kind = MessageKind.ordinary;
}

abbrev said : Text → Text → ContextMessage
said role content = message role content [] ([], [])

abbrev call : ToolCall
call = record {
  id = string (codes "c1");
  name = string (codes "add");
  arguments = given (mapping end);
  complete = boolean true;
}

abbrev history : List ContextMessage
history =
    said (codes "system") (codes "s")
    ∷ said (codes "user") (codes "a")
    ∷ message (codes "assistant") [] (call ∷ []) ([], [])
    ∷ message (codes "tool") (codes "3") [] (codes "c1", codes "add")
    ∷ said (codes "user") (codes "b")
    ∷ said (codes "assistant") (codes "c")
    ∷ []

abbrev one_each : Estimator
one_each m = returned 1

abbrev projector : ContextProjector
projector = record {
  budget = record { max_units = 5; reserve_units = 1; hot_turns = 1 };
  estimator = one_each;
  estimator_name = codes "messages";
}

abbrev atoms_or_none : Try (List Atom) → List Atom
atoms_or_none t = elim t [ returned atoms ↦ atoms | raised e ↦ [] ]

abbrev atoms : List Atom
unfolding atoms_of text_beq normalized_rejection_atom json_dumps utf8_length
atoms = atoms_or_none (atoms_of host history)

flatten-atoms_of_example : flatten (map messages_of atoms) ≡ history
unfolding atoms_of text_beq normalized_rejection_atom json_dumps utf8_length
flatten-atoms_of_example = flatten-atoms_of host history atoms refl

atoms_of-IsWhole_example : All (IsWhole host) atoms
unfolding atoms_of text_beq normalized_rejection_atom json_dumps utf8_length
atoms_of-IsWhole_example = atoms_of-IsWhole host history atoms refl

abbrev projection_or : Try ContextProjection → ContextProjection
projection_or t = elim t [
  | returned r ↦ r
  | raised e ↦ record {
    messages = [];
    original_units = 0;
    projected_units = 0;
    removed_messages = 0;
    removed_sha256 = none;
    estimator_name = [];
  }
]

abbrev projection : ContextProjection
unfolding project text_beq normalized_rejection_atom json_dumps utf8_length
projection = projection_or (project host projector history)

-- Three messages give way to one.
removed_test : projection.removed_messages ≡ 3
unfolding project text_beq normalized_rejection_atom json_dumps utf8_length
removed_test = refl

project-fits_example :
    (projection.projected_units ≤ message_units projector.budget)
    × (measure projector.estimator projection.messages ≡ returned projection.projected_units)
    × (measure projector.estimator history ≡ returned projection.original_units)
unfolding project text_beq normalized_rejection_atom json_dumps utf8_length
project-fits_example = project-fits host projector history projection refl

project-compacts_example :
    ((wire_history host history ≡ returned projection.messages)
      × (projection.removed_messages ≡ 0)
      × (projection.removed_sha256 ≡ none))
    ⊎ ((split : Split) × IsFront history split
        × (c : IsCompaction host projector split.0 split.1 projection) × (split.0
              ++ (c.chosen.removed ++ flatten (drop c.start c.turns))
            ≡ history)
        × (any is_protected c.chosen.removed ≡ false)
        × (projection.removed_messages ≢ 0))
unfolding project text_beq normalized_rejection_atom json_dumps utf8_length
project-compacts_example = project-compacts host projector history projection refl

one_each_quiet : (m : ContextMessage) → one_each m ≢ raised out_of_fuel
one_each_quiet m h = cc

project-HasFuel_example : project host projector history ≢ raised out_of_fuel
project-HasFuel_example = project-HasFuel host projector history one_each_quiet
