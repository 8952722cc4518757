-- ===== src/Flow/Values/Frozen.antt =====
-- `_freeze_json` of src/sasori_flow/spec.py: what it returns is frozen already.
use sasori.Base.{ℕ, ◌+◌, ◌≡◌, inl, inr, arith}
use sasori.Base.Comp.{returned}
use sasori.Base.Try.{Outcome-cases}
use sasori.Json.{
  Value, null, boolean, integer, float, string, list, tuple, mapping, object, Items, nil, cons,
  Entries, end, entry, keys_are_text,
}
use sasori.Flow.Values.{freeze, freeze_items, freeze_entries, canonical_json}

freeze_entries-keys_are_text :
    (depth : ℕ) (es fs : Entries)
    → freeze_entries depth es ≡ returned fs
    → keys_are_text fs ≡ keys_are_text es
unfolding freeze_entries keys_are_text
freeze_entries-keys_are_text depth end fs h = ground arith
freeze_entries-keys_are_text depth (entry k v es) fs h = elim (Outcome-cases (freeze depth v)) [
  | inr (e, p) ↦ ground arith
  | inl (w, p) ↦ elim (Outcome-cases (freeze_entries depth es)) [
    | inr (e, q) ↦ ground arith
    | inl (gs, q) ↦ ground (arith, freeze_entries-keys_are_text depth es gs q)
  ]
]

mutual
  unfolding freeze freeze_items freeze_entries

  again : (depth : ℕ) (v w : Value) → freeze depth v ≡ returned w → freeze depth w ≡ returned w
  again depth null w h = ground arith
  again depth (boolean b) w h = ground arith
  again depth (integer n) w h = ground arith
  again depth (float x) w h = ground arith
  again depth (string s) w h = ground arith
  again depth (object s) w h = ground arith
  again depth (list vs) w h = elim (Outcome-cases (freeze_items (depth + 1) vs)) [
    | inr (e, p) ↦ ground arith
    | inl (ws, p) ↦ ground (arith, again_items (depth + 1) vs ws p)
  ]
  again depth (tuple vs) w h = elim (Outcome-cases (freeze_items (depth + 1) vs)) [
    | inr (e, p) ↦ ground arith
    | inl (ws, p) ↦ ground (arith, again_items (depth + 1) vs ws p)
  ]
  again depth (mapping es) w h = elim (Outcome-cases (freeze_entries (depth + 1) es)) [
    | inr (e, p) ↦ ground arith
    | inl (fs, p) ↦
        ground (
          arith,
          again_entries (depth + 1) es fs p,
          freeze_entries-keys_are_text (depth + 1) es fs p,
        )
  ]

  again_items :
      (depth : ℕ) (vs ws : Items)
      → freeze_items depth vs ≡ returned ws
      → freeze_items depth ws ≡ returned ws
  again_items depth nil ws h = ground arith
  again_items depth (cons v vs) ws h = elim (Outcome-cases (freeze depth v)) [
    | inr (e, p) ↦ ground arith
    | inl (u, p) ↦ elim (Outcome-cases (freeze_items depth vs)) [
      | inr (e, q) ↦ ground arith
      | inl (us, q) ↦ ground (arith, again depth v u p, again_items depth vs us q)
    ]
  ]

  again_entries :
      (depth : ℕ) (es fs : Entries)
      → freeze_entries depth es ≡ returned fs
      → freeze_entries depth fs ≡ returned fs
  again_entries depth end fs h = ground arith
  again_entries depth (entry k v es) fs h = elim (Outcome-cases (freeze depth v)) [
    | inr (e, p) ↦ ground arith
    | inl (u, p) ↦ elim (Outcome-cases (freeze_entries depth es)) [
      | inr (e, q) ↦ ground arith
      | inl (us, q) ↦ ground (arith, again depth v u p, again_entries depth es us q)
    ]
  ]

-- Frozen data are left as they are, at the depth at which they were frozen, and they have the
-- canonical text of the value they were made of.
pub freeze-stable :
    (value frozen : Value)
    → freeze 0 value ≡ returned frozen
    → (freeze 0 frozen ≡ returned frozen) × (canonical_json frozen ≡ canonical_json value)
unfolding canonical_json again
freeze-stable value frozen h = let stable = again 0 value frozen h in (stable, ground arith)
