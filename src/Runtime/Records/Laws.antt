-- ===== src/Runtime/Records/Laws.antt =====
-- What `_call_records` and `_validate_call` (packages/sasori-core/src/sasori_core/runtime.py)
-- guarantee of a provider's calls.
use sasori.Base.{
  not, ◌||◌, ◌&&◌, ℕ, ◌+◌, ◌≡◌, refl, Bool-cases, inl, inr, true, false, none, List, [], ◌∷◌, arith,
  Option-cases, ◌⊎◌, Bool, Option, some, if◌then◌else◌,
}
use sasori.Base.Comp.{returned, raised}
use sasori.Text.{Text, codes, text_eq}
use sasori.Dict.{contains, get}
use sasori.Json.{fields, is_true, string, Value, Entries, mapping, has_key, keys_are_text}
use sasori.Contracts.Types.{
  Effect, tool_call, invalid_call, foreign, ReplyCall, ModelReply, CallRecord, CallStatus,
}
use sasori.Runtime.World.{Environment, Tool}
use sasori.Runtime.Detach.{json_arguments}
use sasori.Json.Copies.{freeze}
use sasori.Contracts.Ids.{is_valid_tool_call_id, valid_utf8_text}
use sasori.Runtime.Records.{
  Records, parse_call, call_record, first_record, records_from, call_records, validate_call,
  validate_arguments, seen_id, with_id, or_blank, key_argument, context_argument, has_text,
  is_idempotent, Parsed, text_of, tool_named, key_of, frozen_arguments,
}

-- A value that is text and passes a test is kept; another one gives nothing.
abbrev IsKept : (Value → Bool) → Value → Option Text → Type 0
IsKept test v o =
    ((t : Text) × (v ≡ string t) × (test v ≡ true) × (o ≡ some t)) ⊎ ((test v ≡ false) × (o ≡ none))

abbrev is_tool_name : Value → Bool
is_tool_name v = valid_utf8_text v true (some 256)

-- The record of a member that is no call of the provider's.
abbrev IsInvalid : Text → CallRecord → Type 0
IsInvalid type_name c =
    (c.call_id ≡ none)
    × (c.name ≡ none)
    × (c.complete ≡ false)
    × (c.arguments_valid ≡ false)
    × (c.arguments ≡ mapping (fields ((codes "__invalid_call__", string type_name) ∷ [])))

-- The record has what the provider gave in the call.
abbrev pub IsCallOf : ReplyCall → CallRecord → Type 0
IsCallOf (tool_call raw) c =
    IsKept is_valid_tool_call_id raw.id c.call_id
    × IsKept is_tool_name raw.name c.name
    × (c.complete ≡ is_true raw.complete)
    × (c.arguments_valid ≡ (json_arguments raw.arguments).1)
    × ((freeze (json_arguments raw.arguments).0 ≡ some c.arguments)
        ⊎ ((freeze (json_arguments raw.arguments).0 ≡ none)
            × (c.arguments ≡ (json_arguments raw.arguments).0)))
IsCallOf (invalid_call type_name) c = IsInvalid type_name c
IsCallOf (foreign type_name) c = IsInvalid type_name c

-- The record has the effect of the tool that is registered under its name, and without one it is
-- taken to have side effects; it has an idempotency key only if it needs one and its arguments are
-- valid.
abbrev pub IsToolOf : Environment → CallRecord → Type 0
IsToolOf env c =
    (((t : Tool) × (get (or_blank c.name) env.tools ≡ some t) × (c.effect ≡ t.effect))
      ⊎ ((get (or_blank c.name) env.tools ≡ none) × (c.effect ≡ Effect.side_effecting)))
    × ((c.idempotency_key ≡ none) ⊎ ((c.effect ≡ Effect.idempotent) × (c.arguments_valid ≡ true)))

-- There is one pending record of the step for each call, in order and numbered from `n`, and no
-- identifier is one of `seen` or is repeated.
abbrev pub IsSequence :
    Environment → Text → ℕ → ℕ → List Text → List ReplyCall → List CallRecord → Type 0
IsSequence env run_id step n seen [] [] = Unit
IsSequence env run_id step n seen (raw ∷ raws) (c ∷ cs) =
    (IsCallOf raw c × IsToolOf env c)
    × ((c.run_id ≡ run_id) × (c.step ≡ step) × (c.ordinal ≡ n))
    × ((c.status ≡ CallStatus.pending) × (c.outcome ≡ none) × (seen_id c.call_id seen ≡ false))
    × IsSequence env run_id step (n + 1) (with_id c.call_id seen) raws cs
IsSequence env run_id step n seen raws cs = ⊥

text-IsKept :
    (test : Value → Bool) (t : Text)
    → IsKept test (string t) (if test (string t) then some t else none)
text-IsKept test t = elim (Bool-cases (test (string t))) [
  | inl p ↦ inl (t, refl, p, rw p refl)
  | inr p ↦ inr (p, rw p refl)
]

valid_id-IsKept :
    (v : Value)
    → IsKept is_valid_tool_call_id v (if is_valid_tool_call_id v then some (text_of v) else none)
unfolding is_valid_tool_call_id
valid_id-IsKept (string t) = text-IsKept is_valid_tool_call_id t
valid_id-IsKept _ = inr (refl, refl)

valid_name-IsKept :
    (v : Value) → IsKept is_tool_name v (if is_tool_name v then some (text_of v) else none)
unfolding valid_utf8_text
valid_name-IsKept (string t) = text-IsKept is_tool_name t
valid_name-IsKept _ = inr (refl, refl)

frozen-cases :
    (v : Value)
    → (freeze v ≡ some (frozen_arguments v)) ⊎ ((freeze v ≡ none) × (frozen_arguments v ≡ v))
frozen-cases v = elim (Option-cases (freeze v)) [
  | inl q ↦ inr (q, rw (frozen_arguments, q) refl)
  | inr (w, q) ↦ inl (rw (frozen_arguments, q) refl)
]

call_record-IsCallOf :
    (env : Environment) (run_id : Text) (step n : ℕ) (raw : ReplyCall)
    → IsCallOf raw (call_record env run_id step n (parse_call raw))
unfolding call_record parse_call freeze keys_are_text
call_record-IsCallOf env run_id step n (tool_call raw) = (
  valid_id-IsKept raw.id,
  valid_name-IsKept raw.name,
  refl,
  refl,
  frozen-cases (json_arguments raw.arguments).0,
)
call_record-IsCallOf env run_id step n (invalid_call t) = (refl, refl, refl, refl, refl)
call_record-IsCallOf env run_id step n (foreign t) = (refl, refl, refl, refl, refl)

call_record-IsToolOf :
    (env : Environment) (run_id : Text) (step n : ℕ) (p : Parsed)
    → IsToolOf env (call_record env run_id step n p)
unfolding call_record key_of
call_record-IsToolOf env run_id step n p = elim (Option-cases (tool_named env p.name)) [
  | inl q ↦ (inr (q, rw q refl), inl (rw q refl))
  | inr (t, q) ↦ (
    inl (t, q, rw q refl),
    elim (Bool-cases (is_idempotent t.effect && p.arguments_valid)) [
      | inl r ↦ inr (rw q (ground arith), ground arith)
      | inr r ↦ inl (rw (q, r) refl)
    ],
  )
]

-- A list begins with a record only where the rest is a list.
first_record-eq :
    (r : CallRecord) (rest : Records) (cs : List CallRecord)
    → first_record r rest ≡ returned cs
    → (ds : List CallRecord) × (rest ≡ returned ds) × (cs ≡ r ∷ ds)
first_record-eq r (raised i) cs h = ground arith
first_record-eq r (returned ds) cs h = (ds, refl, ground arith)

records_from-IsSequence :
    (env : Environment) (run_id : Text) (step n : ℕ) (seen : List Text) (raws : List ReplyCall)
    (cs : List CallRecord)
    → records_from env run_id step n seen raws ≡ returned cs
    → IsSequence env run_id step n seen raws cs
unfolding records_from call_record
records_from-IsSequence env run_id step n seen [] [] h = tt
records_from-IsSequence env run_id step n seen [] (c ∷ cs) h = ground arith
records_from-IsSequence env run_id step n seen (raw ∷ raws) cs h =
    let p = parse_call raw in
    elim (Bool-cases (seen_id p.call_id seen)) [
      | inl e ↦ ground arith
      | inr e ↦
          let (ds, q, r) =
            first_record-eq (call_record env run_id step n p)
              (records_from env run_id step (n + 1) (with_id p.call_id seen) raws) cs
              (ground arith) in
          let seq =
            records_from-IsSequence env run_id step (n + 1) (with_id p.call_id seen) raws ds q in
          let whole : IsSequence env run_id step n seen (raw ∷ raws)
              (call_record env run_id step n p ∷ ds) =
            (
              (
                call_record-IsCallOf env run_id step n raw,
                call_record-IsToolOf env run_id step n p,
              ),
              (refl, refl, refl),
              (refl, refl, e),
              seq,
            ) in
          rw r whole
    ]

-- Where `_call_records` accepts a reply, there is one pending record for each of its calls, in
-- order and numbered from 0, and no two have the same identifier. A record has the identifier and
-- the name that the provider gave, where they are valid, the completeness of the call, and its
-- arguments with their validity, in frozen form where they can be frozen; one of a malformed call
-- has neither identifier nor name, is incomplete, and has the type's name in place of valid
-- arguments. Each has the effect of the tool registered under its name, or counts as having side
-- effects, and it has an idempotency key only if that effect is idempotent and its arguments are
-- valid.
pub call_records-IsSequence :
    (env : Environment) (run_id : Text) (step : ℕ) (r : ModelReply) (cs : List CallRecord)
    → call_records env run_id step r ≡ returned cs
    → IsSequence env run_id step 0 [] r.tool_calls cs
unfolding call_records
call_records-IsSequence env run_id step r cs h =
    records_from-IsSequence env run_id step 0 [] r.tool_calls cs h

validate_arguments-none :
    (env : Environment) (c : CallRecord) (v : Value)
    → validate_arguments env c v ≡ none
    → (es : Entries) × (v ≡ mapping es)
      × (keys_are_text es ≡ true)
      × (has_key key_argument es ≡ false)
      × (has_key context_argument es ≡ false)
      × (contains (or_blank c.name) env.tools ≡ true)
      × ((not (is_idempotent c.effect) || has_text c.idempotency_key) ≡ true)
unfolding validate_arguments
validate_arguments-none env c (mapping es) h =
    (es, refl, ground arith, ground arith, ground arith, ground arith, ground arith)
validate_arguments-none env c _ h = ground arith

-- A call that `_validate_call` admits has an identifier, is complete, and has a text-keyed mapping
-- for its arguments with neither reserved name; its tool is registered, and it has an idempotency
-- key if its effect is idempotent.
pub validate_call_lem :
    (env : Environment) (c : CallRecord)
    → validate_call env c ≡ none
    → (has_text c.call_id ≡ true)
      × (c.complete ≡ true)
      × ((es : Entries) × (c.arguments ≡ mapping es)
          × (keys_are_text es ≡ true)
          × (has_key key_argument es ≡ false)
          × (has_key context_argument es ≡ false)
          × (contains (or_blank c.name) env.tools ≡ true)
          × ((not (is_idempotent c.effect) || has_text c.idempotency_key) ≡ true))
unfolding validate_call
validate_call_lem env c h =
    (ground arith, ground arith, validate_arguments-none env c c.arguments (ground arith))
