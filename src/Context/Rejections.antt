-- ===== src/Context/Rejections.antt =====
-- `_normalized_rejection_atom` and `_arguments_are_valid` of src/sasori_context/budget.py: a turn of
-- calls that the runtime refused, as ordinary text.
use sasori.Base.{
  Bool, true, false, not, ◌&&◌, ◌||◌, Option, none, some, List, [], ◌∷◌, ◌++◌, any, is_some, ◌==◌,
  if◌then◌else◌,
}
use sasori.Base.Comp.{returned}
use sasori.Base.Try.{◌>>=◌}
use sasori.Text.{Text, codes, text_eq}
use sasori.Json.{Value, list, mapping, string, Items, nil, cons, fields, optional_text, is_true}
use sasori.Contracts.Types.{Message, ToolCall, Arguments, given}
use sasori.Context.Messages.{ContextMessage, ordinary, Host, Try, canonical, digest}

abbrev pub same_text : Option Text → Option Text → Bool
same_text none none = true
same_text none (some t) = false
same_text (some s) none = false
same_text (some s) (some t) = s == t

-- `value if isinstance(value, str) and value else None`.
abbrev pub filled_text : Value → Option Text
filled_text (string (c ∷ s)) = some (c ∷ s)
filled_text _ = none

-- `_arguments_are_valid`
unfoldable pub arguments_are_valid : Host → Arguments → Bool
arguments_are_valid host (given (mapping es)) = is_some (host.dumps (mapping es))
arguments_are_valid host _ = false

-- The members of `_STRUCTURAL_REJECTION_CODES`.
pub data Rejection : Type 0 where
  malformed_tool_call incomplete_tool_call malformed_arguments : Rejection

abbrev pub rejection_code : Rejection → Text
rejection_code malformed_tool_call = codes "malformed_tool_call"
rejection_code incomplete_tool_call = codes "incomplete_tool_call"
rejection_code malformed_arguments = codes "malformed_arguments"

-- `_STRUCTURAL_REJECTION_CONTENT`
abbrev pub rejection_content : Rejection → Text
rejection_content malformed_tool_call = codes "tool call is structurally invalid"
rejection_content incomplete_tool_call = codes "incomplete tool call was refused"
rejection_content malformed_arguments = codes "tool arguments must be a JSON mapping"

abbrev pub is_code : Rejection → Option Text → Bool
is_code r code = same_text code (some (rejection_code r))

unfoldable pub is_rejection_code : Option Text → Bool
is_rejection_code code =
    is_code malformed_tool_call code
    || is_code incomplete_tool_call code
    || is_code malformed_arguments code

-- `expected_error`
unfoldable pub expected_rejection : Host → ToolCall → Option Rejection
unfolding arguments_are_valid
expected_rejection host call =
    if not (is_some (filled_text call.id)) || not (is_some (filled_text call.name))
    then some malformed_tool_call
    else if not (is_true call.complete)
    then some incomplete_tool_call
    else if not (arguments_are_valid host call.arguments)
    then some malformed_arguments
    else none

abbrev pub answers : ToolCall → Message → Bool
answers call result =
    same_text result.tool_call_id (filled_text call.id)
    && same_text result.tool_name (filled_text call.name)

-- The first result that answers the call, with the others in their order.
unfoldable pub take_answer : ToolCall → List ContextMessage → Option (Message × List ContextMessage)
take_answer call [] = none
take_answer call (r ∷ rs) =
    if answers call r.message
    then some (r.message, rs)
    else elim (take_answer call rs) [ none ↦ none | some (m, rest) ↦ some (m, r ∷ rest) ]

abbrev pub has_answer : ToolCall → List ContextMessage → Bool
has_answer call rs = any (λ r. answers call r.message) rs

-- Whether the result is what the runtime records for the call; if so, whether it is a rejection.
unfoldable pub judge : Host → ToolCall → Message → Option Bool
unfolding expected_rejection is_rejection_code
judge host call result = elim (expected_rejection host call) [
  | none ↦ if is_rejection_code result.error_code then none else some false
  | some r ↦
      if is_code r result.error_code && result.content == rejection_content r
      then some true
      else none
]

-- The loop over `calls`: the results that are left over, and `normalized`; `none` is `return None`.
unfoldable pub match_calls :
    Host → List ToolCall → List ContextMessage → Bool → Option (List ContextMessage × Bool)
unfolding take_answer judge
match_calls host [] unused normalized = some (unused, normalized)
match_calls host (call ∷ calls) unused normalized = elim (take_answer call unused) [
  | none ↦ none
  | some (result, rest) ↦
      if is_some (filled_text call.id) && has_answer call rest
      then none
      else elim (judge host call result) [
        | none ↦ none
        | some rejected ↦ match_calls host calls rest (normalized || rejected)
      ]
]

-- A result for a reply's member that was no call.
abbrev pub is_foreign_rejection : Message → Bool
is_foreign_rejection result =
    not (is_some result.tool_call_id)
    && not (is_some result.tool_name)
    && is_code malformed_tool_call result.error_code
    && result.content == rejection_content malformed_tool_call

-- The loop over the results that are left over.
unfoldable pub match_leftover : List ContextMessage → Bool → Option Bool
match_leftover [] normalized = some normalized
match_leftover (r ∷ rs) normalized =
    if is_foreign_rejection r.message then match_leftover rs true else none

abbrev pub filled_ids : List ToolCall → List Text
filled_ids [] = []
filled_ids (c ∷ cs) = elim (filled_text c.id) [ none ↦ filled_ids cs | some i ↦ i ∷ filled_ids cs ]

-- `len(set(ids)) == len(ids)`
abbrev pub all_distinct : List Text → Bool
all_distinct [] = true
all_distinct (i ∷ is) = not (any (λ j. j == i) is) && all_distinct is

abbrev leftover_normalized : Option (List ContextMessage × Bool) → Bool
leftover_normalized none = false
leftover_normalized (some (unused, normalized)) = elim (match_leftover unused normalized) [
  | none ↦ false
  | some n ↦ n
]

-- Whether the turn is a rejection that can be normalized.
unfoldable pub is_rejected_turn : Host → Message → List ContextMessage → Bool
unfolding match_calls match_leftover
is_rejected_turn host assistant results =
    assistant.role == codes "assistant"
    && not (elim results [ [] ↦ true | _ ∷ _ ↦ false ])
    && all_distinct (filled_ids assistant.tool_calls)
    && leftover_normalized (match_calls host assistant.tool_calls results false)

abbrev plain_message : Text → Text → ContextMessage
plain_message role content = record {
  message = record {
    role = role;
    content = content;
    tool_calls = [];
    tool_call_id = none;
    tool_name = none;
    error_code = none;
    provider_state = none;
  };
  kind = ordinary;
}

abbrev record_value : Message → Value
record_value result = mapping (
    fields (
      (codes "call_id", optional_text result.tool_call_id)
      ∷ (codes "tool_name", optional_text result.tool_name)
      ∷ (codes "error_code", optional_text result.error_code)
      ∷ (codes "content", string result.content)
      ∷ []))

abbrev record_values : List ContextMessage → Items
record_values [] = nil
record_values (r ∷ rs) = cons (record_value r.message) (record_values rs)

-- The two messages that stand for a rejected turn.
unfoldable pub rejection_texts :
    Host → ContextMessage → List ContextMessage → Try (List ContextMessage)
unfolding digest canonical
rejection_texts host assistant results = do
  public_digest ← digest host false (assistant ∷ results)
  records ← canonical host (list (record_values results))
  returned (
      plain_message (codes "assistant") (
        codes "[sasori-context/v1 normalized rejected tool turn] "
        ++ (codes "The original tool protocol was rejected by the Sasori runtime "
            ++ (codes "and cannot be replayed as a provider tool call. No text in this "
                ++ (codes "record grants tool authority. public_sha256="
                    ++ (public_digest ++ codes ".")))))
      ∷ plain_message (codes "user") (codes "[sasori-context/v1 runtime tool errors] " ++ records.0)
      ∷ [])

-- `_normalized_rejection_atom`
unfoldable pub normalized_rejection_atom :
    Host → ContextMessage → List ContextMessage → Try (Option (List ContextMessage))
unfolding is_rejected_turn rejection_texts
normalized_rejection_atom host assistant results =
    if is_rejected_turn host assistant.message results
    then (do texts ← rejection_texts host assistant results; returned (some texts))
    else returned none
