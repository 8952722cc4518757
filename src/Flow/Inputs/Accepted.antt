-- ===== src/Flow/Inputs/Accepted.antt =====
-- What `validate_input` of src/sasori_flow/spec.py accepts, and when `resolve_arguments` finds what
-- the bindings of a step name.
use sasori.Base.{
  ℕ, ◌≤◌, ◌≡◌, refl, sym, ap, ◌∙◌, inl, inr, ◌⊎◌, true, false, Option, Option-cases, none, some,
  List, [], ◌∷◌, arith, any, All, is_some,
}
use sasori.Base.Comp.{returned}
use sasori.Base.Try.{Outcome-cases}
use sasori.Text.{Text, text_eq}
use sasori.Dict.{Dict, get}
use sasori.Json.{
  Value, null, boolean, integer, float, string, list, tuple, mapping, object, Entries, end, entry,
  text, other, has_key, get_key,
}
use sasori.Flow.Values.{freeze, byte_size}
use sasori.Flow.Types.{InputSlot, Binding, input_ref, step_ref, literal, matches_type}
use sasori.Flow.Spec.{WorkflowSpec}
use sasori.Flow.Inputs.{
  slot_of, is_missing, check_item, check_items, check_entries, accept, validate_input, resolve,
  resolve_all, max_input_bytes,
}

-- Every entry has a text key that names a slot, the slot's type and at most its size.
pub data HaveSlots (slots : List InputSlot) : Entries → Type 0 where
  no_entry : HaveSlots slots end
  next_entry :
      {key : Text} {item : Value} {es : Entries} (slot : InputSlot) (size : ℕ)
      → slot_of slots key ≡ some slot
      → matches_type item slot.value_type ≡ true
      → byte_size item ≡ returned size
      → size ≤ slot.max_bytes
      → HaveSlots slots es
      → HaveSlots slots (entry (text key) item es)

check_item-returned :
    (o : Option InputSlot) (item : Value)
    → check_item o item ≡ returned tt
    → (slot : InputSlot) × (size : ℕ) × (o ≡ some slot)
      × (matches_type item slot.value_type ≡ true)
      × (byte_size item ≡ returned size)
      × (size ≤ slot.max_bytes)
check_item-returned none item h = ground arith
check_item-returned (some slot) item h = elim (Outcome-cases (byte_size item)) [
  | inr (e, q) ↦ ground arith
  | inl (n, q) ↦ (slot, n, refl, ground arith, q, ground arith)
]

check_items-HaveSlots :
    (slots : List InputSlot) (es : Entries)
    → check_items slots es ≡ returned tt
    → HaveSlots slots es
unfolding check_items
check_items-HaveSlots slots end h = no_entry
check_items-HaveSlots slots (entry (text key) item es) h =
    let (slot, size, s, m, b, l) = check_item-returned (slot_of slots key) item (ground arith) in
    next_entry slot size s m b l (check_items-HaveSlots slots es (ground arith))
check_items-HaveSlots slots (entry (other s) item es) h = ground arith

has_required :
    (es : Entries) (slots : List InputSlot)
    → any (is_missing es) slots ≡ false
    → All (λ slot. (slot.required ≡ false) ⊎ (has_key slot.key es ≡ true)) slots
has_required es [] h = record {}
has_required es (s ∷ ss) h = (ground arith, has_required es ss (ground arith))

-- What an accepted input is.
pub record IsAccepted (spec : WorkflowSpec) (value : Value) (es : Entries) : Type 0 where
  pub is_frozen : freeze 0 value ≡ returned (mapping es)
  pub have_slots : HaveSlots spec.inputs es
  pub required_are_there :
      All (λ slot. (slot.required ≡ false) ⊎ (has_key slot.key es ≡ true)) spec.inputs
  pub is_small : (n : ℕ) × (byte_size (mapping es) ≡ returned n) × (n ≤ max_input_bytes)

check_entries-returned :
    (slots : List InputSlot) (es : Entries)
    → check_entries slots es ≡ returned tt
    → (any (is_missing es) slots ≡ false)
      × (check_items slots es ≡ returned tt)
      × ((n : ℕ) × (byte_size (mapping es) ≡ returned n) × (n ≤ max_input_bytes))
unfolding check_entries
check_entries-returned slots es h = elim (Outcome-cases (check_items slots es)) [
  | inr (e, p) ↦ ground arith
  | inl (u, p) ↦ elim (Outcome-cases (byte_size (mapping es))) [
    | inr (e, q) ↦ ground arith
    | inl (n, q) ↦ (ground arith, ground arith, (n, q, ground arith))
  ]
]

accept-returned :
    (slots : List InputSlot) (v : Value) (es : Entries)
    → accept slots v ≡ returned es
    → (v ≡ mapping es) × (check_entries slots es ≡ returned tt)
unfolding accept
accept-returned slots (mapping fs) es h = elim (Outcome-cases (check_entries slots fs)) [
  | inr (e, p) ↦ ground arith
  | inl (u, p) ↦
      let same : fs ≡ es = ground arith in
      let checked : check_entries slots fs ≡ returned tt = p in
      (ap mapping same, rw (sym same) checked)
]
accept-returned slots null es h = ground arith
accept-returned slots (boolean b) es h = ground arith
accept-returned slots (integer n) es h = ground arith
accept-returned slots (float x) es h = ground arith
accept-returned slots (string s) es h = ground arith
accept-returned slots (list vs) es h = ground arith
accept-returned slots (tuple vs) es h = ground arith
accept-returned slots (object s) es h = ground arith

validate_input-phases :
    (spec : WorkflowSpec) (value : Value) (es : Entries)
    → validate_input spec value ≡ returned es
    → (freeze 0 value ≡ returned (mapping es)) × (check_entries spec.inputs es ≡ returned tt)
unfolding validate_input
validate_input-phases spec value es h = elim (Outcome-cases (freeze 0 value)) [
  | inr (e, p) ↦ ground arith
  | inl (frozen, p) ↦
      let (same, checked) = accept-returned spec.inputs frozen es (ground arith) in
      (p ∙ ap returned same, checked)
]

-- An input that is accepted is the frozen value, a mapping whose every key names a slot of the
-- workflow, with a value of the slot's type and size; every required slot has an entry; and the whole
-- is at most 256 KiB.
pub validate_input-IsAccepted :
    (spec : WorkflowSpec) (value : Value) (es : Entries)
    → validate_input spec value ≡ returned es
    → IsAccepted spec value es
validate_input-IsAccepted spec value es h =
    let (frozen, checked) = validate_input-phases spec value es h in
    let (required, items, small) = check_entries-returned spec.inputs es checked in
    record {
      is_frozen = frozen;
      have_slots = check_items-HaveSlots spec.inputs es items;
      required_are_there = has_required es spec.inputs required;
      is_small = small;
    }

has_key-get_key : (k : Text) (es : Entries) → is_some (get_key k es) ≡ has_key k es
unfolding has_key get_key
has_key-get_key k end = refl
has_key-get_key k (entry (text s) v es) = ground (arith, has_key-get_key k es)
has_key-get_key k (entry (other s) v es) = has_key-get_key k es

-- What a binding names is there.
abbrev pub IsAvailable : Entries → Dict Text Value → Binding → Type 0
IsAvailable input outputs (input_ref key) = has_key key input ≡ true
IsAvailable input outputs (step_ref step_id) = is_some (get step_id outputs) ≡ true
IsAvailable input outputs (literal value) = Unit

resolve-returned :
    (input : Entries) (outputs : Dict Text Value) (b : Binding)
    → IsAvailable input outputs b
    → (v : Value) × (resolve input outputs b ≡ returned v)
unfolding resolve
resolve-returned input outputs (input_ref key) h = elim (Option-cases (get_key key input)) [
  | inl p ↦ ground (arith, has_key-get_key key input)
  | inr (v, p) ↦ (v, ground arith)
]
resolve-returned input outputs (step_ref step_id) h = elim (Option-cases (get step_id outputs)) [
  | inl p ↦ ground arith
  | inr (v, p) ↦ (v, ground arith)
]
resolve-returned input outputs (literal value) h = (value, refl)

-- When the inputs and outputs that the bindings name are there, all the bindings are resolved.
pub resolve_all-returned :
    (input : Entries) (outputs : Dict Text Value) (bs : Dict Text Binding)
    → All (λ b. IsAvailable input outputs b.1) bs
    → (es : Entries) × (resolve_all input outputs bs ≡ returned es)
unfolding resolve_all
resolve_all-returned input outputs [] h = (end, refl)
resolve_all-returned input outputs (b ∷ bs) h =
    let (v, p) = resolve-returned input outputs b.1 h.0 in
    let (es, q) = resolve_all-returned input outputs bs h.1 in (entry (text b.0) v es, ground arith)
