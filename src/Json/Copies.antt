-- ===== src/Json/Copies.antt =====
-- `_freeze_event_value` (contracts.py), `_json_copy` (runtime.py) and `_plain` (projection.py), all
-- below packages/sasori-core/src/sasori_core: deep copies that turn every sequence into a tuple,
-- or into a list. `none` is `TypeError`.
pub mod Laws
use sasori.Base.{Option, none, some, if◌then◌else◌}
use sasori.Text.{Text}
use sasori.Json.Tree.{
  Value, null, boolean, integer, float, string, list, tuple, mapping, object, Items, nil, cons,
  Entries, end, entry, Key, text, other, keys_are_text,
}

abbrev pub list? : Option Items → Option Value
list? none = none
list? (some vs) = some (list vs)

abbrev pub tuple? : Option Items → Option Value
tuple? none = none
tuple? (some vs) = some (tuple vs)

abbrev pub mapping? : Option Entries → Option Value
mapping? none = none
mapping? (some es) = some (mapping es)

abbrev pub cons? : Option Value → Option Items → Option Items
cons? none vs = none
cons? (some v) none = none
cons? (some v) (some vs) = some (cons v vs)

abbrev pub entry? : Key → Option Value → Option Entries → Option Entries
entry? k none es = none
entry? k (some v) none = none
entry? k (some v) (some es) = some (entry k v es)

unfoldable mutual
  pub freeze : Value → Option Value
  freeze null = some null
  freeze (boolean b) = some (boolean b)
  freeze (integer n) = some (integer n)
  freeze (float x) = some (float x)
  freeze (string s) = some (string s)
  freeze (list vs) = tuple? (freeze_items vs)
  freeze (tuple vs) = tuple? (freeze_items vs)
  freeze (mapping es) = if keys_are_text es then mapping? (freeze_entries es) else none
  freeze (object s) = none

  pub freeze_items : Items → Option Items
  freeze_items nil = some nil
  freeze_items (cons v vs) = cons? (freeze v) (freeze_items vs)

  pub freeze_entries : Entries → Option Entries
  freeze_entries end = some end
  freeze_entries (entry k v es) = entry? k (freeze v) (freeze_entries es)

unfoldable mutual
  pub json_copy : Value → Option Value
  json_copy null = some null
  json_copy (boolean b) = some (boolean b)
  json_copy (integer n) = some (integer n)
  json_copy (float x) = some (float x)
  json_copy (string s) = some (string s)
  json_copy (list vs) = list? (json_copy_items vs)
  json_copy (tuple vs) = list? (json_copy_items vs)
  json_copy (mapping es) = mapping? (json_copy_entries es)
  json_copy (object s) = none

  pub json_copy_items : Items → Option Items
  json_copy_items nil = some nil
  json_copy_items (cons v vs) = cons? (json_copy v) (json_copy_items vs)

  pub json_copy_entries : Entries → Option Entries
  json_copy_entries end = some end
  json_copy_entries (entry k v es) = entry? k (json_copy v) (json_copy_entries es)

-- `str(key)`.
abbrev key_text : Key → Text
key_text (text s) = s
key_text (other s) = s

unfoldable mutual
  pub plain : Value → Value
  plain null = null
  plain (boolean b) = boolean b
  plain (integer n) = integer n
  plain (float x) = float x
  plain (string s) = string s
  plain (list vs) = list (plain_items vs)
  plain (tuple vs) = list (plain_items vs)
  plain (mapping es) = mapping (plain_entries es)
  plain (object s) = object s

  pub plain_items : Items → Items
  plain_items nil = nil
  plain_items (cons v vs) = cons (plain v) (plain_items vs)

  pub plain_entries : Entries → Entries
  plain_entries end = end
  plain_entries (entry k v es) = entry (text (key_text k)) (plain v) (plain_entries es)
