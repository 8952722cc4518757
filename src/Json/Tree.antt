-- ===== src/Json/Tree.antt =====
-- The data type of values, and its keys.
use sasori.Base.{ℕ, Bool, true, false, ◌||◌, Option, none, some, List, [], ◌∷◌, if◌then◌else◌}
use sasori.Text.{Text, text_beq}

-- `negsuc n` is -(n + 1).
pub data ℤ : Type 0 where
  pos : ℕ → ℤ
  negsuc : ℕ → ℤ

pub record Float : Type 0 where
  pub repr : Text
  pub finite : Bool
  pub integral : Option ℤ

-- A key of a mapping: a text, or an object of some other type, by its `str`.
pub data Key : Type 0 where
  text : Text → Key
  other : Text → Key

-- `object` is a value of a type that JSON does not have, by the type's name.
mutual
  pub data Value : Type 0 where
    null : Value
    boolean : Bool → Value
    integer : ℤ → Value
    float : Float → Value
    string : Text → Value
    list : Items → Value
    tuple : Items → Value
    mapping : Entries → Value
    object : Text → Value

  pub data Items : Type 0 where
    nil : Items
    cons : Value → Items → Items

  pub data Entries : Type 0 where
    end : Entries
    entry : Key → Value → Entries → Entries

abbrev pub is_text : Key → Bool
is_text (text s) = true
is_text (other s) = false

-- `all(isinstance(key, str) for key in value)`.
unfoldable pub keys_are_text : Entries → Bool
keys_are_text end = true
keys_are_text (entry (text s) v es) = keys_are_text es
keys_are_text (entry (other s) v es) = false

-- `isinstance(value, Mapping)`.
abbrev pub is_mapping : Value → Bool
is_mapping (mapping es) = true
is_mapping _ = false

-- `value is True`.
abbrev pub is_true : Value → Bool
is_true (boolean b) = b
is_true _ = false

-- A mapping with text keys, from its items.
abbrev pub fields : List (Text × Value) → Entries
fields [] = end
fields ((k, v) ∷ es) = entry (text k) v (fields es)

abbrev pub optional_text : Option Text → Value
optional_text none = null
optional_text (some s) = string s

-- `key in mapping` for a text key.
unfoldable pub has_key : Text → Entries → Bool
has_key k end = false
has_key k (entry (text s) v es) = text_beq k s || has_key k es
has_key k (entry (other s) v es) = has_key k es

-- `mapping.get(key)` for a text key.
unfoldable pub get_key : Text → Entries → Option Value
get_key k end = none
get_key k (entry (text s) v es) = if text_beq k s then some v else get_key k es
get_key k (entry (other s) v es) = get_key k es

-- `mapping[key] = value` for a text key.
unfoldable pub put_key : Text → Value → Entries → Entries
put_key k v end = entry (text k) v end
put_key k v (entry (text s) w es) =
    if text_beq k s then entry (text s) v es else entry (text s) w (put_key k v es)
put_key k v (entry (other s) w es) = entry (other s) w (put_key k v es)
