-- ===== src/Json/Copies/Laws.antt =====
-- The copies keep the value: freezing twice is freezing once, thawing a frozen value is copying
-- the original, and no bounded JSON value makes a copy raise.
use sasori.Base.{
  ℕ, ◌+◌, ◌≡◌, refl, ◌&&◌, Bool, true, false, Option, none, some, arith, if◌then◌else◌, is_some,
}
use sasori.Json.Bounded.{bounded_json_value, max_json_depth}
use sasori.Json.Bounded.Walk.{bounded_json_value_lem}
use sasori.Json.Tree.{
  Value, null, boolean, integer, float, string, list, tuple, mapping, object, Items, nil, cons,
  Entries, end, entry, Key, text, other, keys_are_text,
}
use sasori.Json.Bounded.{is_json, is_json_items, is_json_entries}
use sasori.Json.Copies.{
  freeze, freeze_items, freeze_entries, json_copy, json_copy_items, json_copy_entries, list?,
  tuple?, mapping?, cons?, entry?,
}

-- The frozen form has tuples for all its sequences, text for all its keys and no foreign object.
unfoldable mutual
  pub is_frozen : Value → Bool
  is_frozen (list vs) = false
  is_frozen (tuple vs) = are_frozen vs
  is_frozen (mapping es) = keys_are_text es && entries_are_frozen es
  is_frozen (object s) = false
  is_frozen _ = true

  pub are_frozen : Items → Bool
  are_frozen nil = true
  are_frozen (cons v vs) = is_frozen v && are_frozen vs

  pub entries_are_frozen : Entries → Bool
  entries_are_frozen end = true
  entries_are_frozen (entry k v es) = is_frozen v && entries_are_frozen es

-- `o` is a frozen form, which freezes to itself and copies to `c`.
abbrev IsFrozen : Option Value → Option Value → Type 0
IsFrozen none c = Unit
IsFrozen (some w) c = (is_frozen w ≡ true) × (freeze w ≡ some w) × (json_copy w ≡ c)

abbrev IsFrozenItems : Option Items → Option Items → Type 0
IsFrozenItems none c = Unit
IsFrozenItems (some ws) c =
    (are_frozen ws ≡ true) × (freeze_items ws ≡ some ws) × (json_copy_items ws ≡ c)

abbrev IsFrozenEntries : Option Entries → Option Entries → Entries → Type 0
IsFrozenEntries none c es = Unit
IsFrozenEntries (some fs) c es =
    (entries_are_frozen fs ≡ true)
    × (freeze_entries fs ≡ some fs)
    × (json_copy_entries fs ≡ c)
    × (keys_are_text fs ≡ keys_are_text es)

tuple-IsFrozen : (o c : Option Items) → IsFrozenItems o c → IsFrozen (tuple? o) (list? c)
unfolding freeze json_copy is_frozen
tuple-IsFrozen none c h = tt
tuple-IsFrozen (some ws) c h = ground arith

mapping-IsFrozen :
    (o c : Option Entries) (es : Entries)
    → IsFrozenEntries o c es
    → IsFrozen (if keys_are_text es then mapping? o else none) (mapping? c)
unfolding freeze json_copy is_frozen
mapping-IsFrozen none c es h = ground arith
mapping-IsFrozen (some fs) c es h = ground arith

cons-IsFrozen :
    (o c : Option Value) (os cs : Option Items)
    → IsFrozen o c
    → IsFrozenItems os cs
    → IsFrozenItems (cons? o os) (cons? c cs)
unfolding freeze json_copy is_frozen
cons-IsFrozen none c os cs h k = tt
cons-IsFrozen (some w) c none cs h k = tt
cons-IsFrozen (some w) c (some ws) cs h k = ground arith

entry-IsFrozen :
    (j : Key) (o c : Option Value) (os cs : Option Entries) (v : Value) (es : Entries)
    → IsFrozen o c
    → IsFrozenEntries os cs es
    → IsFrozenEntries (entry? j o os) (entry? j c cs) (entry j v es)
unfolding freeze json_copy is_frozen keys_are_text
entry-IsFrozen j none c os cs v es h k = tt
entry-IsFrozen j (some w) c none cs v es h k = tt
entry-IsFrozen (text s) (some w) c (some fs) cs v es h k = ground arith
entry-IsFrozen (other s) (some w) c (some fs) cs v es h k = ground arith

mutual
  unfolding freeze json_copy is_frozen

  freeze-IsFrozen : (v : Value) → IsFrozen (freeze v) (json_copy v)
  freeze-IsFrozen null = (refl, refl, refl)
  freeze-IsFrozen (boolean b) = (refl, refl, refl)
  freeze-IsFrozen (integer n) = (refl, refl, refl)
  freeze-IsFrozen (float x) = (refl, refl, refl)
  freeze-IsFrozen (string s) = (refl, refl, refl)
  freeze-IsFrozen (list vs) =
      tuple-IsFrozen (freeze_items vs) (json_copy_items vs) (freeze_items-IsFrozen vs)
  freeze-IsFrozen (tuple vs) =
      tuple-IsFrozen (freeze_items vs) (json_copy_items vs) (freeze_items-IsFrozen vs)
  freeze-IsFrozen (mapping es) =
      mapping-IsFrozen (freeze_entries es) (json_copy_entries es) es (freeze_entries-IsFrozen es)
  freeze-IsFrozen (object s) = tt

  freeze_items-IsFrozen : (vs : Items) → IsFrozenItems (freeze_items vs) (json_copy_items vs)
  freeze_items-IsFrozen nil = (refl, refl, refl)
  freeze_items-IsFrozen (cons v vs) =
      cons-IsFrozen (freeze v) (json_copy v) (freeze_items vs) (json_copy_items vs)
        (freeze-IsFrozen v) (freeze_items-IsFrozen vs)

  freeze_entries-IsFrozen :
      (es : Entries) → IsFrozenEntries (freeze_entries es) (json_copy_entries es) es
  freeze_entries-IsFrozen end = (refl, refl, refl, refl)
  freeze_entries-IsFrozen (entry k v es) =
      entry-IsFrozen k (freeze v) (json_copy v) (freeze_entries es) (json_copy_entries es) v es
        (freeze-IsFrozen v) (freeze_entries-IsFrozen es)

-- A frozen form has tuples for all its sequences, text for all its keys and no foreign object, at
-- every depth; freezing it again gives it back, and it copies to what the value itself copies to.
pub freeze-freeze :
    (v w : Value)
    → freeze v ≡ some w
    → (is_frozen w ≡ true) × (freeze w ≡ some w) × (json_copy w ≡ json_copy v)
freeze-freeze v w h = ground (arith, freeze-IsFrozen v)

-- Both copies of a value that the bounded walk accepts exist.
mutual
  unfolding freeze json_copy is_json

  copies_of_json :
      (m d : ℕ) (v : Value)
      → is_json m d v ≡ true
      → (is_some (freeze v) ≡ true) × (is_some (json_copy v) ≡ true)
  copies_of_json m d null h = (refl, refl)
  copies_of_json m d (boolean b) h = (refl, refl)
  copies_of_json m d (integer n) h = (refl, refl)
  copies_of_json m d (float x) h = (refl, refl)
  copies_of_json m d (string s) h = (refl, refl)
  copies_of_json m d (list vs) h = ground (arith, copies_of_items m (d + 1) vs)
  copies_of_json m d (tuple vs) h = ground (arith, copies_of_items m (d + 1) vs)
  copies_of_json m d (mapping es) h = ground (arith, copies_of_entries m (d + 1) es)
  copies_of_json m d (object s) h = ground arith

  copies_of_items :
      (m d : ℕ) (vs : Items)
      → is_json_items m d vs ≡ true
      → (is_some (freeze_items vs) ≡ true) × (is_some (json_copy_items vs) ≡ true)
  copies_of_items m d nil h = (refl, refl)
  copies_of_items m d (cons v vs) h = ground (arith, copies_of_json m d v, copies_of_items m d vs)

  copies_of_entries :
      (m d : ℕ) (es : Entries)
      → is_json_entries m d es ≡ true
      → (is_some (freeze_entries es) ≡ true) × (is_some (json_copy_entries es) ≡ true)
  copies_of_entries m d end h = (refl, refl)
  copies_of_entries m d (entry k v es) h =
      ground (arith, copies_of_json m d v, copies_of_entries m d es)

-- A value that `_bounded_json_value` accepts can be frozen and copied.
pub bounded_json_value-copies :
    (v : Value)
    → bounded_json_value v ≡ true
    → (is_some (freeze v) ≡ true) × (is_some (json_copy v) ≡ true)
bounded_json_value-copies v h =
    copies_of_json max_json_depth 0 v (ground (arith, bounded_json_value_lem v))
