-- ===== src/Runtime/Setup.antt =====
-- The checks of `Tool.__post_init__` (contracts.py) and of the tools and skills in
-- `Harness.__init__` (runtime.py), both in packages/sasori-core/src/sasori_core.
pub mod Table
use sasori.Base.{
  ℕ, Bool, true, false, not, ◌&&◌, ◌||◌, Option, none, some, List, [], ◌∷◌, all, is_some, ◌==◌, any,
  ltb, if◌then◌else◌,
}
use sasori.Text.{Text, text_eq, is_blank}
use sasori.Dict.{Dict, put, contains}
use sasori.Json.{Value, string}
use sasori.Contracts.Types.{Effect}
use sasori.Contracts.Ids.{valid_utf8_text}
use sasori.Runtime.World.{Tool, Inspected, signature, no_signature, ParameterKind}

abbrev is_idempotent : Effect → Bool
is_idempotent Effect.idempotent = true
is_idempotent _ = false

abbrev is_read_only : Effect → Bool
is_read_only Effect.read_only = true
is_read_only _ = false

abbrev has_revision : Option Text → Bool
has_revision none = false
has_revision (some r) = not (is_blank r)

-- Whether `Tool(…)` is constructed; otherwise it raises `ValueError`.
unfoldable pub valid_tool : Tool → Bool
valid_tool t =
    (not (is_idempotent t.effect) || is_some t.idempotency_key)
    && (is_read_only t.effect || has_revision t.tool_revision)

abbrev is_keyword_only : Option ParameterKind → Bool
is_keyword_only (some ParameterKind.keyword_only) = true
is_keyword_only _ = false

abbrev key_parameter : Inspected → Option ParameterKind
key_parameter (no_signature e) = none
key_parameter (signature sig) = sig.idempotency_key

abbrev context_parameter : Inspected → Option ParameterKind
context_parameter (no_signature e) = none
context_parameter (signature sig) = sig.tool_context

abbrev bounded_revision : Option Text → Bool
bounded_revision none = true
bounded_revision (some r) = valid_utf8_text (string r) true (some 256)

-- What one round of the loop over `self.tools` tests of the tool alone.
unfoldable pub admissible_tool : Tool → Bool
admissible_tool t =
    valid_utf8_text t.name true (some 256)
    && t.callable
    && bounded_revision t.tool_revision
    && (not (is_idempotent t.effect) || is_keyword_only (key_parameter t.inspected))
    && (not (is_some (context_parameter t.inspected))
        || is_keyword_only (context_parameter t.inspected))

abbrev pub name_of : Value → Text
name_of (string s) = s
name_of _ = []

-- The loop; `none` is `ValueError`.
unfoldable pub register_tools : Dict Text Tool → List Tool → Option (Dict Text Tool)
unfolding admissible_tool
register_tools tools [] = some tools
register_tools tools (t ∷ ts) =
    let rest = register_tools (put (name_of t.name) t tools) ts in
    if not (admissible_tool t) || contains (name_of t.name) tools then none else rest

abbrev text_is_empty : Text → Bool
text_is_empty [] = true
text_is_empty (c ∷ s) = false

pub record SkillSpec : Type 0 where
  pub skill_id : Text
  pub tool_names : List Text

abbrev known_tools : Dict Text Tool → List Text → Bool
known_tools tools names = all (λ n. contains n tools) names

-- Whether the loop over `self.skills` ends without an error, from the identifiers seen.
unfoldable pub valid_skills : Dict Text Tool → List Text → List SkillSpec → Bool
valid_skills tools seen [] = true
valid_skills tools seen (k ∷ ks) =
    not (text_is_empty k.skill_id)
    && not (any (λ i. i == k.skill_id) seen)
    && known_tools tools k.tool_names
    && valid_skills tools (k.skill_id ∷ seen) ks

-- The table of tools of a constructed harness; `max_steps` is at least 1.
unfoldable pub harness_tools : ℕ → List Tool → List SkillSpec → Option (Dict Text Tool)
unfolding register_tools valid_skills
harness_tools max_steps tools skills =
    if ltb max_steps 1 then none else elim (register_tools [] tools) [
      | none ↦ none
      | some table ↦ if valid_skills table [] skills then some table else none
    ]
