-- ===== src/Context/Summary.antt =====
-- `_summary_message` of src/sasori_context/budget.py: the system message that stands for the turns
-- a projection removes.
use sasori.Base.{ℕ, ◌+◌, Option, none, some, List, [], ◌∷◌, ◌++◌, length, if◌then◌else◌}
use sasori.Text.{Text, codes, text_eq}
use sasori.Dict.{Dict, get, put}
use sasori.Json.Canonical.{text_ltb, decimal}
use sasori.Context.Messages.{ContextMessage, ordinary}

abbrev or_zero : Option ℕ → ℕ
or_zero none = 0
or_zero (some n) = n

-- `roles`, in the order of the first message of each role.
unfoldable pub role_counts : Dict Text ℕ → List ContextMessage → Dict Text ℕ
unfolding get put
role_counts roles [] = roles
role_counts roles (m ∷ ms) =
    let role = m.message.role in role_counts (put role (or_zero (get role roles) + 1) roles) ms

unfoldable pub tool_call_count : List ContextMessage → ℕ
tool_call_count [] = 0
tool_call_count (m ∷ ms) = length m.message.tool_calls + tool_call_count ms

-- `sorted(roles)` with the counts: a stable insertion by name.
unfoldable pub insert_role : Text × ℕ → Dict Text ℕ → Dict Text ℕ
unfolding text_ltb
insert_role r [] = r ∷ []
insert_role r (q ∷ qs) =
    let rest = insert_role r qs in if text_ltb q.0 r.0 then q ∷ rest else r ∷ q ∷ qs

unfoldable pub sorted_roles : Dict Text ℕ → Dict Text ℕ
unfolding insert_role
sorted_roles [] = []
sorted_roles (r ∷ rs) = insert_role r (sorted_roles rs)

abbrev role_count_text : Text × ℕ → Text
role_count_text r = r.0 ++ (codes ":" ++ decimal r.1)

-- `role_text`
unfoldable pub role_text : Dict Text ℕ → Text
unfolding decimal
role_text [] = []
role_text (r ∷ rs) = elim rs [
  | [] ↦ role_count_text r
  | _ ∷ _ ↦ role_count_text r ++ (codes "," ++ role_text rs)
]

-- `_summary_message`
unfoldable pub summary_message : List ContextMessage → Text → ContextMessage
unfolding role_counts tool_call_count sorted_roles role_text decimal
summary_message ms digest = record {
  message = record {
    role = codes "system";
    content =
        codes "[sasori-context/v1 compacted history] messages="
        ++ (decimal (length ms)
            ++ (codes "; tool_calls="
                ++ (decimal (tool_call_count ms)
                    ++ (codes "; roles="
                        ++ (role_text (sorted_roles (role_counts [] ms))
                            ++ (codes "; sha256="
                                ++ (digest
                                    ++ codes
                                        ". Content was removed by deterministic budget projection; do not infer omitted facts.")))))));
    tool_calls = [];
    tool_call_id = none;
    tool_name = none;
    error_code = none;
    provider_state = none;
  };
  kind = ordinary;
}
