-- ===== src/Flow/Values.antt =====
-- JSON data of workflows: `_utf8`, `_identifier`, `_freeze_json`, `plain_json`, `canonical_json` and
-- `json_sha256` of src/sasori_flow/spec.py.
pub mod Frozen
use sasori.Base.{
  ℕ, ◌+◌, Bool, true, false, not, ◌||◌, Option, none, some, List, [], ◌∷◌, ltb, nat_beq,
  if◌then◌else◌,
}
use sasori.Base.Comp.{Outcome, returned, raised}
use sasori.Base.Try.{◌>>=◌, ◌>>◌, refuse_if, from_option}
use sasori.Text.{Text, utf8_length, has_nul}
use sasori.Json.{
  Value, null, boolean, integer, float, string, list, tuple, mapping, object, Items, nil, cons,
  Entries, end, entry, Key, text, other, keys_are_text,
}
use sasori.Json.Canonical.{json_dumps}
use sasori.Contracts.Ids.{is_valid_app_id}

-- `WorkflowValidationError`, `WorkflowIntegrityError`, the `UnicodeEncodeError` of an `encode` that
-- no handler stands around, the `KeyError` of a mapping, and what a tool's own code or its
-- inspection raises.
pub data FlowError : Type 0 where
  validation integrity unicode_error key_error tool_error : FlowError

abbrev pub Try : Type 0 → Type 0
Try A = Outcome FlowError A

abbrev pub max_json_depth : ℕ
max_json_depth = 32

-- `_utf8` on a text.
unfoldable pub utf8 : Text → ℕ → Try Text
unfolding utf8_length
utf8 value maximum = elim (utf8_length value) [
  | none ↦ raised validation
  | some n ↦
      if nat_beq n 0 || has_nul value || ltb maximum n then raised validation else returned value
]

-- `_identifier`
unfoldable pub identifier : Text → Try Text
unfolding is_valid_app_id
identifier value = if is_valid_app_id (string value) then returned value else raised validation

abbrev pub within_depth : {A : Type 0} → ℕ → Try A → Try A
within_depth depth m = if ltb max_json_depth depth then raised validation else m

-- `_freeze_json`: tuples for sequences; a mapping's proxy is the mapping.
unfoldable mutual
  pub freeze : ℕ → Value → Try Value
  freeze depth null = within_depth depth (returned null)
  freeze depth (boolean b) = within_depth depth (returned (boolean b))
  freeze depth (integer n) = within_depth depth (returned (integer n))
  freeze depth (float x) =
      within_depth depth (if x.finite then returned (float x) else raised validation)
  freeze depth (string s) =
      within_depth depth
        (elim (utf8_length s) [ none ↦ raised validation | some n ↦ returned (string s) ])
  freeze depth (list vs) =
      within_depth depth (do ws ← freeze_items (depth + 1) vs; returned (tuple ws))
  freeze depth (tuple vs) =
      within_depth depth (do ws ← freeze_items (depth + 1) vs; returned (tuple ws))
  freeze depth (mapping es) = within_depth depth (do
    refuse_if (not (keys_are_text es)) validation
    fs ← freeze_entries (depth + 1) es
    returned (mapping fs))
  freeze depth (object s) = within_depth depth (raised validation)

  pub freeze_items : ℕ → Items → Try Items
  freeze_items depth nil = returned nil
  freeze_items depth (cons v vs) = do
    w ← freeze depth v
    ws ← freeze_items depth vs
    returned (cons w ws)

  pub freeze_entries : ℕ → Entries → Try Entries
  freeze_entries depth end = returned end
  freeze_entries depth (entry k v es) = do
    w ← freeze depth v
    fs ← freeze_entries depth es
    returned (entry k w fs)

abbrev key_text : Key → Key
key_text (text s) = text s
key_text (other s) = text s

-- `plain_json`
unfoldable mutual
  pub plain_json : Value → Value
  plain_json null = null
  plain_json (boolean b) = boolean b
  plain_json (integer n) = integer n
  plain_json (float x) = float x
  plain_json (string s) = string s
  plain_json (list vs) = list (plain_items vs)
  plain_json (tuple vs) = list (plain_items vs)
  plain_json (mapping es) = mapping (plain_entries es)
  plain_json (object s) = object s

  pub plain_items : Items → Items
  plain_items nil = nil
  plain_items (cons v vs) = cons (plain_json v) (plain_items vs)

  pub plain_entries : Entries → Entries
  plain_entries end = end
  plain_entries (entry k v es) = entry (key_text k) (plain_json v) (plain_entries es)

-- `canonical_json`
unfoldable pub canonical_json : Value → Try Text
unfolding freeze plain_json json_dumps
canonical_json value = do
  frozen ← freeze 0 value
  from_option validation (json_dumps (plain_json frozen))

-- `len(canonical_json(value).encode("utf-8"))`
unfoldable pub byte_size : Value → Try ℕ
unfolding canonical_json
byte_size value = do encoded ← canonical_json value; from_option unicode_error (utf8_length encoded)

-- `hashlib.sha256(text.encode("utf-8")).hexdigest()`, the digest being the standard library's.
unfoldable pub text_sha256 : (Text → Text) → Text → Try Text
text_sha256 sha256 encoded = do
  size ← from_option unicode_error (utf8_length encoded)
  returned (sha256 encoded)

-- `json_sha256`
unfoldable pub json_sha256 : (Text → Text) → Value → Try Text
unfolding canonical_json text_sha256
json_sha256 sha256 value = do encoded ← canonical_json value; text_sha256 sha256 encoded
