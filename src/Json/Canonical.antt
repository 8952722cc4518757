-- ===== src/Json/Canonical.antt =====
-- `json.dumps` of the standard library as the core calls it (`ensure_ascii=False, sort_keys=True,
-- separators=(",", ":"), allow_nan=False`), and what `json.loads` reads back from its text.
use sasori.Base.{
  ℕ, zero, suc, ◌+◌, ◌/◌, ◌%◌, ◌^◌, Bool, true, false, ◌&&◌, ◌||◌, Option, none, some, [], ◌∷◌,
  ◌++◌, ltb, leb, nat_beq, if◌then◌else◌,
}
use sasori.Text.{Text, codes}
use sasori.Json.Tree.{
  Value, null, boolean, integer, float, string, list, tuple, mapping, object, Items, nil, cons,
  Entries, end, entry, Key, text, other, ℤ, pos, negsuc,
}

-- Python orders texts by their code points.
unfoldable pub text_ltb : Text → Text → Bool
text_ltb s [] = false
text_ltb [] (d ∷ t) = true
text_ltb (c ∷ s) (d ∷ t) = ltb c d || (nat_beq c d && text_ltb s t)

key_ltb : Key → Key → Bool
unfolding text_ltb
key_ltb (text s) (text t) = text_ltb s t
key_ltb (text s) (other t) = false
key_ltb (other s) k = false

-- A stable insertion by key.
insert_entry : Key → Value → Entries → Entries
unfolding key_ltb
insert_entry k v end = entry k v end
insert_entry k v (entry j w es) =
    if key_ltb j k then entry j w (insert_entry k v es) else entry k v (entry j w es)

-- `json.loads(json.dumps(value, sort_keys=True, …))`: lists for sequences, keys in order.
unfoldable mutual
  unfolding insert_entry

  pub canonical : Value → Value
  canonical null = null
  canonical (boolean b) = boolean b
  canonical (integer n) = integer n
  canonical (float x) = float x
  canonical (string s) = string s
  canonical (list vs) = list (canonical_items vs)
  canonical (tuple vs) = list (canonical_items vs)
  canonical (mapping es) = mapping (canonical_entries es)
  canonical (object s) = object s

  pub canonical_items : Items → Items
  canonical_items nil = nil
  canonical_items (cons v vs) = cons (canonical v) (canonical_items vs)

  pub canonical_entries : Entries → Entries
  canonical_entries end = end
  canonical_entries (entry k v es) = insert_entry k (canonical v) (canonical_entries es)

-- The digits of a number, on fuel; `n` has at most `n + 1` of them.
digits_from : ℕ → ℕ → Text → Text
digits_from zero n acc = acc
digits_from (suc fuel) n acc =
    let rest = digits_from fuel (n / 10) ((48 + n % 10) ∷ acc) in
    if ltb n 10 then (48 + n) ∷ acc else rest

-- `str(n)` of a number.
unfoldable pub decimal : ℕ → Text
unfolding digits_from
decimal n = digits_from (suc n) n []

-- `int.__repr__`, which refuses more than 4300 digits.
nat_text : ℕ → Option Text
unfolding digits_from
nat_text n = if leb (10 ^ 4300) n then none else some (digits_from (suc n) n [])

int_text : ℤ → Option Text
unfolding nat_text
int_text (pos n) = nat_text n
int_text (negsuc n) = elim (nat_text (n + 1)) [ none ↦ none | some t ↦ some (b'-' ∷ t) ]

hex_digit : ℕ → ℕ
hex_digit d = if ltb d 10 then 48 + d else 87 + d

escape_char : ℕ → Text
unfolding hex_digit
escape_char c =
    if nat_beq c 34
    then 92 ∷ 34 ∷ []
    else if nat_beq c 92
    then 92 ∷ 92 ∷ []
    else if nat_beq c 8
    then 92 ∷ 98 ∷ []
    else if nat_beq c 9
    then 92 ∷ 116 ∷ []
    else if nat_beq c 10
    then 92 ∷ 110 ∷ []
    else if nat_beq c 12
    then 92 ∷ 102 ∷ []
    else if nat_beq c 13
    then 92 ∷ 114 ∷ []
    else if ltb c 32
    then 92 ∷ 117 ∷ 48 ∷ 48 ∷ (48 + c / 16) ∷ hex_digit (c % 16) ∷ []
    else c ∷ []

escape : Text → Text
unfolding escape_char
escape [] = []
escape (c ∷ s) = escape_char c ++ escape s

quote : Text → Text
unfolding escape
quote s = 34 ∷ (escape s ++ 34 ∷ [])

abbrev joined : Text → Text → Text → Text
joined first sep [] = first
joined first sep rest = first ++ (sep ++ rest)

abbrev append? : Option Text → Option Text → Option Text
append? none t = none
append? (some s) none = none
append? (some s) (some t) = some (joined s (codes ",") t)

abbrev wrap? : ℕ → Option Text → ℕ → Option Text
wrap? a none b = none
wrap? a (some t) b = some (a ∷ (t ++ b ∷ []))

abbrev prefix? : Text → Option Text → Option Text
prefix? s none = none
prefix? s (some t) = some (s ++ t)

-- The text of a value whose keys are sorted; `none` is `TypeError` or `ValueError`.
unfoldable mutual
  unfolding quote int_text

  pub dump : Value → Option Text
  dump null = some (codes "null")
  dump (boolean true) = some (codes "true")
  dump (boolean false) = some (codes "false")
  dump (integer n) = int_text n
  dump (float x) = if x.finite then some x.repr else none
  dump (string s) = some (quote s)
  dump (list vs) = wrap? b'[' (dump_items vs) b']'
  dump (tuple vs) = wrap? b'[' (dump_items vs) b']'
  dump (mapping es) = wrap? b'{' (dump_entries es) b'}'
  dump (object s) = none

  pub dump_items : Items → Option Text
  dump_items nil = some []
  dump_items (cons v vs) = append? (dump v) (dump_items vs)

  pub dump_entries : Entries → Option Text
  dump_entries end = some []
  dump_entries (entry (text s) v es) =
      append? (prefix? (quote s ++ codes ":") (dump v)) (dump_entries es)
  dump_entries (entry (other s) v es) = none

unfoldable pub json_dumps : Value → Option Text
unfolding canonical dump
json_dumps v = dump (canonical v)
