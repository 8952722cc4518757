-- ===== src/Contracts/Equality.antt =====
-- Python's `==` on call records, which `EphemeralRunStore.update_call`
-- (packages/sasori-core/src/sasori_core/store.py) compares: field by field, a mapping by its
-- entries in any order, and numbers of different types by value.
use sasori.Base.{
  ℕ, suc, Bool, true, false, ◌&&◌, ◌||◌, Option, none, some, List, [], ◌∷◌, nat_beq, if◌then◌else◌,
}
use sasori.Text.{text_beq}
use sasori.Json.{
  Value, null, boolean, integer, float, string, list, tuple, mapping, object, Items, nil, cons,
  Entries, end, entry, Key, text, other, ℤ, pos, negsuc,
}
use sasori.Contracts.Types.{
  Effect, Arguments, given, invalid_arguments, ToolCall, Message, CallStatus, CallRecord,
}

int_beq : ℤ → ℤ → Bool
int_beq (pos m) (pos n) = nat_beq m n
int_beq (negsuc m) (negsuc n) = nat_beq m n
int_beq _ _ = false

key_beq : Key → Key → Bool
unfolding text_beq
key_beq (text s) (text t) = text_beq s t
key_beq (other s) (other t) = text_beq s t
key_beq _ _ = false

option_beq {ℓ} : {A : Type ℓ} → (A → A → Bool) → Option A → Option A → Bool
option_beq eq none none = true
option_beq eq (some a) (some b) = eq a b
option_beq eq _ _ = false

list_beq {ℓ} : {A : Type ℓ} → (A → A → Bool) → List A → List A → Bool
list_beq eq [] [] = true
list_beq eq (a ∷ xs) (b ∷ ys) = eq a b && list_beq eq xs ys
list_beq eq _ _ = false

-- The integer that a number equals.
integer_of : Value → Option ℤ
integer_of (boolean true) = some (pos 1)
integer_of (boolean false) = some (pos 0)
integer_of (integer n) = some n
integer_of (float x) = x.integral
integer_of _ = none

lookup_entry : Key → Entries → Option Value
unfolding key_beq
lookup_entry k end = none
lookup_entry k (entry j v es) = if key_beq k j then some v else lookup_entry k es

count_entries : Entries → ℕ
count_entries end = 0
count_entries (entry k v es) = suc (count_entries es)

same_integer : Option ℤ → Option ℤ → Bool
unfolding int_beq
same_integer (some m) (some n) = int_beq m n
same_integer _ _ = false

same_leaf : Value → Value → Bool
unfolding same_integer integer_of text_beq
same_leaf null null = true
same_leaf (string s) (string t) = text_beq s t
same_leaf (object s) (object t) = text_beq s t
same_leaf (float x) (float y) = text_beq x.repr y.repr || same_integer x.integral y.integral
same_leaf v w = same_integer (integer_of v) (integer_of w)

unfoldable mutual
  unfolding same_leaf lookup_entry count_entries

  pub value_beq : Value → Value → Bool
  value_beq (list vs) w = elim w [ list ws ↦ items_beq vs ws | _ ↦ false ]
  value_beq (tuple vs) w = elim w [ tuple ws ↦ items_beq vs ws | _ ↦ false ]
  value_beq (mapping es) w = elim w [
    | mapping fs ↦ nat_beq (count_entries es) (count_entries fs) && entries_within es fs
    | _ ↦ false
  ]
  value_beq v w = same_leaf v w

  items_beq : Items → Items → Bool
  items_beq nil ws = elim ws [ nil ↦ true | cons _ _ ↦ false ]
  items_beq (cons v vs) ws = elim ws [ nil ↦ false | cons u us ↦ value_beq v u && items_beq vs us ]

  entries_within : Entries → Entries → Bool
  entries_within end fs = true
  entries_within (entry k v es) fs =
      elim (lookup_entry k fs) [ none ↦ false | some w ↦ value_beq v w ] && entries_within es fs

arguments_beq : Arguments → Arguments → Bool
unfolding value_beq text_beq
arguments_beq (given v) (given w) = value_beq v w
arguments_beq (invalid_arguments s) (invalid_arguments t) = text_beq s t
arguments_beq _ _ = false

tool_call_beq : ToolCall → ToolCall → Bool
unfolding value_beq arguments_beq
tool_call_beq a b =
    value_beq a.id b.id
    && value_beq a.name b.name
    && arguments_beq a.arguments b.arguments
    && value_beq a.complete b.complete

unfoldable pub message_beq : Message → Message → Bool
unfolding tool_call_beq text_beq list_beq option_beq
message_beq a b =
    text_beq a.role b.role
    && text_beq a.content b.content
    && list_beq tool_call_beq a.tool_calls b.tool_calls
    && option_beq text_beq a.tool_call_id b.tool_call_id
    && option_beq text_beq a.tool_name b.tool_name
    && option_beq text_beq a.error_code b.error_code
    && option_beq text_beq a.provider_state b.provider_state

bool_beq : Bool → Bool → Bool
bool_beq true b = b
bool_beq false true = false
bool_beq false false = true

abbrev effect_code : Effect → ℕ
effect_code Effect.read_only = 0
effect_code Effect.idempotent = 1
effect_code Effect.side_effecting = 2

unfoldable pub effect_beq : Effect → Effect → Bool
effect_beq a b = nat_beq (effect_code a) (effect_code b)

abbrev status_code : CallStatus → ℕ
status_code CallStatus.pending = 0
status_code CallStatus.requested = 1
status_code CallStatus.awaiting_approval = 2
status_code CallStatus.approved = 3
status_code CallStatus.denied = 4
status_code CallStatus.dispatching = 5
status_code CallStatus.result = 6
status_code CallStatus.effect_unknown = 7

unfoldable pub call_beq : CallRecord → CallRecord → Bool
unfolding value_beq message_beq bool_beq effect_beq option_beq text_beq
call_beq a b =
    text_beq a.run_id b.run_id
    && nat_beq a.step b.step
    && nat_beq a.ordinal b.ordinal
    && option_beq text_beq a.call_id b.call_id
    && text_beq a.fingerprint b.fingerprint
    && option_beq text_beq a.name b.name
    && value_beq a.arguments b.arguments
    && bool_beq a.arguments_valid b.arguments_valid
    && bool_beq a.complete b.complete
    && effect_beq a.effect b.effect
    && option_beq text_beq a.idempotency_key b.idempotency_key
    && text_beq a.tool_revision b.tool_revision
    && nat_beq (status_code a.status) (status_code b.status)
    && option_beq message_beq a.outcome b.outcome
