-- ===== src/Runtime/Records.antt =====
-- `Harness._call_records` and `Harness._validate_call` of
-- packages/sasori-core/src/sasori_core/runtime.py: what the runtime keeps of a provider's calls, and
-- which of them may not run.
pub mod Laws
use sasori.Base.{
  ℕ, ◌+◌, Bool, true, false, not, ◌&&◌, ◌||◌, Option, none, some, List, [], ◌∷◌, ◌++◌, ◌==◌, any,
  is_some, if◌then◌else◌,
}
use sasori.Base.Comp.{Outcome, returned, raised}
use sasori.Text.{Text, codes, text_eq}
use sasori.Dict.{Dict, get, contains}
use sasori.Json.{
  Value, null, integer, list, mapping, string, Items, nil, cons, ℤ, pos, fields, has_key,
  keys_are_text, is_true, optional_text,
}
use sasori.Json.Copies.{json_copy, freeze}
use sasori.Json.Canonical.{canonical}
use sasori.Contracts.Types.{
  Effect, ToolCall, ReplyCall, tool_call, invalid_call, foreign, ModelReply, CallRecord, CallStatus,
}
use sasori.Contracts.Ids.{is_valid_tool_call_id, valid_utf8_text}
use sasori.Runtime.Detach.{json_arguments}
use sasori.Runtime.World.{Environment, Tool, KeyOutcome, key_value, key_raises}

-- What the loop takes from one member of `reply.tool_calls`, before it looks for the tool.
pub record Parsed : Type 0 where
  pub call_id : Option Text
  pub name : Option Text
  pub arguments : Value
  pub arguments_valid : Bool
  pub complete : Bool

abbrev pub text_of : Value → Text
text_of (string s) = s
text_of _ = []

abbrev invalid_call_record : Text → Parsed
invalid_call_record type_name = record {
  call_id = none;
  name = none;
  arguments = mapping (fields ((codes "__invalid_call__", string type_name) ∷ []));
  arguments_valid = false;
  complete = false;
}

unfoldable pub parse_call : ReplyCall → Parsed
parse_call (invalid_call type_name) = invalid_call_record type_name
parse_call (foreign type_name) = invalid_call_record type_name
parse_call (tool_call raw) = record {
  call_id = if is_valid_tool_call_id raw.id then some (text_of raw.id) else none;
  name = if valid_utf8_text raw.name true (some 256) then some (text_of raw.name) else none;
  arguments = (json_arguments raw.arguments).0;
  arguments_valid = (json_arguments raw.arguments).1;
  complete = is_true raw.complete;
}

abbrev pub or_blank : Option Text → Text
or_blank none = []
or_blank (some s) = s

abbrev pub tool_named : Environment → Option Text → Option Tool
tool_named env name = get (or_blank name) env.tools

abbrev effect_of : Option Tool → Effect
effect_of none = Effect.side_effecting
effect_of (some t) = t.effect

abbrev pub has_text : Option Text → Bool
has_text none = false
has_text (some []) = false
has_text (some (c ∷ s)) = true

abbrev revision_of : Option Tool → Text
revision_of none = codes "unknown"
revision_of (some t) =
    if has_text t.tool_revision then or_blank t.tool_revision else codes "read-only-unversioned"

abbrev pub is_idempotent : Effect → Bool
is_idempotent Effect.idempotent = true
is_idempotent _ = false

-- `tool.idempotency_key(_json_copy(arguments))`.
abbrev pub apply_key : Option (Value → KeyOutcome) → Option Value → KeyOutcome
apply_key none v = key_raises (codes "TypeError: 'NoneType' object is not callable")
apply_key (some f) none = key_raises (codes "TypeError: value is not canonical JSON")
apply_key (some f) (some v) = f v

abbrev accepted_key : KeyOutcome → Option Text
accepted_key (key_raises e) = none
accepted_key (key_value v) = if valid_utf8_text v true (some 1024) then some (text_of v) else none

-- `key`: a `None` function or one that raises gives no key.
unfoldable pub key_of : Option Tool → Value → Bool → Option Text
key_of none arguments valid = none
key_of (some t) arguments valid =
    if is_idempotent t.effect && valid
    then accepted_key (apply_key t.idempotency_key (json_copy arguments))
    else none

-- The list whose JSON text is hashed; `json.dumps` sorts the keys of the arguments.
abbrev pub identity : Text → ℕ → ℕ → Option Text → Value → Text → Value
identity run_id step ordinal name arguments revision = list (
    cons (string run_id) (
      cons (integer (pos step)) (
        cons (integer (pos ordinal))
          (cons (optional_text name) (cons (canonical arguments) (cons (string revision) nil))))))

-- `CallRecord.__post_init__`; JSON always freezes.
abbrev pub frozen_arguments : Value → Value
frozen_arguments v = elim (freeze v) [ none ↦ v | some w ↦ w ]

unfoldable pub call_record : Environment → Text → ℕ → ℕ → Parsed → CallRecord
unfolding key_of
call_record env run_id step ordinal p = record {
  run_id = run_id;
  step = step;
  ordinal = ordinal;
  call_id = p.call_id;
  fingerprint =
      env.digest
        (identity run_id step ordinal p.name p.arguments (revision_of (tool_named env p.name)));
  name = p.name;
  arguments = frozen_arguments p.arguments;
  arguments_valid = p.arguments_valid;
  complete = p.complete;
  effect = effect_of (tool_named env p.name);
  idempotency_key = key_of (tool_named env p.name) p.arguments p.arguments_valid;
  tool_revision = revision_of (tool_named env p.name);
  status = CallStatus.pending;
  outcome = none;
}

abbrev pub seen_id : Option Text → List Text → Bool
seen_id none seen = false
seen_id (some i) seen = any (λ j. j == i) seen

abbrev pub with_id : Option Text → List Text → List Text
with_id none seen = seen
with_id (some i) seen = i ∷ seen

-- The records, or the identifier of a `DuplicateToolCallError`.
abbrev pub Records : Type 0
Records = Outcome Text (List CallRecord)

abbrev pub first_record : CallRecord → Records → Records
first_record r (raised i) = raised i
first_record r (returned records) = returned (r ∷ records)

-- The loop of `_call_records`.
unfoldable pub records_from : Environment → Text → ℕ → ℕ → List Text → List ReplyCall → Records
unfolding parse_call call_record
records_from env run_id step ordinal seen [] = returned []
records_from env run_id step ordinal seen (raw ∷ raws) =
    let p = parse_call raw in
    let rest = records_from env run_id step (ordinal + 1) (with_id p.call_id seen) raws in
    if seen_id p.call_id seen
    then raised (or_blank p.call_id)
    else first_record (call_record env run_id step ordinal p) rest

unfoldable pub call_records : Environment → Text → ℕ → ModelReply → Records
unfolding records_from
call_records env run_id step reply = records_from env run_id step 0 [] reply.tool_calls

abbrev pub key_argument : Text
key_argument = codes "idempotency_key"

abbrev pub context_argument : Text
context_argument = codes "tool_context"

pub data Refusal : Type 0 where
  malformed_tool_call incomplete_tool_call malformed_arguments non_text_argument : Refusal
  reserved_key_argument reserved_context_argument unknown_tool invalid_idempotency_key : Refusal

abbrev pub name_is_valid : Option Text → Bool
name_is_valid none = false
name_is_valid (some s) = valid_utf8_text (string s) true (some 256)

-- The checks from `isinstance(call.arguments, Mapping)` on.
unfoldable pub validate_arguments : Environment → CallRecord → Value → Option Refusal
validate_arguments env call (mapping es) =
    if not (keys_are_text es)
    then some non_text_argument
    else if has_key key_argument es
    then some reserved_key_argument
    else if has_key context_argument es
    then some reserved_context_argument
    else if not (contains (or_blank call.name) env.tools)
    then some unknown_tool
    else if is_idempotent call.effect && not (has_text call.idempotency_key)
    then some invalid_idempotency_key
    else none
validate_arguments env call _ = some malformed_arguments

-- `_validate_call`; `none` admits the call.
unfoldable pub validate_call : Environment → CallRecord → Option Refusal
unfolding validate_arguments
validate_call env call =
    if not (has_text call.call_id) || not (name_is_valid call.name)
    then some malformed_tool_call
    else if not call.complete
    then some incomplete_tool_call
    else if not call.arguments_valid
    then some malformed_arguments
    else validate_arguments env call call.arguments

-- The error code and the message of a refusal.
abbrev pub refusal_code : Refusal → Text
refusal_code malformed_tool_call = codes "malformed_tool_call"
refusal_code incomplete_tool_call = codes "incomplete_tool_call"
refusal_code malformed_arguments = codes "malformed_arguments"
refusal_code non_text_argument = codes "malformed_arguments"
refusal_code reserved_key_argument = codes "reserved_argument"
refusal_code reserved_context_argument = codes "reserved_argument"
refusal_code unknown_tool = codes "unknown_tool"
refusal_code invalid_idempotency_key = codes "invalid_idempotency_key"

abbrev pub refusal_message : Refusal → Option Text → Text
refusal_message malformed_tool_call name = codes "tool call is structurally invalid"
refusal_message incomplete_tool_call name = codes "incomplete tool call was refused"
refusal_message malformed_arguments name = codes "tool arguments must be a JSON mapping"
refusal_message non_text_argument name = codes "tool argument names must be strings"
refusal_message reserved_key_argument name =
    codes "model may not supply the reserved idempotency_key argument"
refusal_message reserved_context_argument name =
    codes "model may not supply the reserved tool_context argument"
refusal_message unknown_tool name = codes "unknown tool: " ++ or_blank name
refusal_message invalid_idempotency_key name = codes "idempotency key must be non-empty"
