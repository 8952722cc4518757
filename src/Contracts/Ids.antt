-- ===== src/Contracts/Ids.antt =====
-- Identifiers: `is_valid_app_id`, `is_valid_run_id`, `validate_run_id`, `is_valid_tool_call_id` of
-- packages/sasori-core/src/sasori_core/contracts.py, and `_valid_utf8_text` of runtime.py.
pub mod Grammar
use sasori.Base.{
  ℕ, Bool, true, false, not, ◌&&◌, ◌||◌, Option, none, some, List, [], ◌∷◌, leb, ltb, nat_beq,
  if◌then◌else◌, all, length,
}
use sasori.Text.{Text, utf8_length, is_blank, has_nul}
use sasori.Json.{Value, string}

abbrev pub max_tool_call_id_bytes : ℕ
max_tool_call_id_bytes = 256

abbrev pub max_app_id_bytes : ℕ
max_app_id_bytes = 64

abbrev pub max_run_id_bytes : ℕ
max_run_id_bytes = 64

abbrev pub is_lower : ℕ → Bool
is_lower c = leb b'a' c && leb c b'z'

abbrev pub is_upper : ℕ → Bool
is_upper c = leb b'A' c && leb c b'Z'

abbrev pub is_digit : ℕ → Bool
is_digit c = leb b'0' c && leb c b'9'

abbrev pub is_punctuation : ℕ → Bool
is_punctuation c = nat_beq c b'.' || nat_beq c b'_' || nat_beq c b'-'

-- `value.encode("ascii", "strict")` raises on any other character.
abbrev pub is_ascii : ℕ → Bool
is_ascii c = ltb c 128

abbrev pub is_app_char : ℕ → Bool
is_app_char c = is_lower c || is_digit c || is_punctuation c

abbrev pub is_run_char : ℕ → Bool
is_run_char c = is_lower c || is_upper c || is_digit c || is_punctuation c

unfoldable pub is_valid_app_id : Value → Bool
is_valid_app_id (string (c ∷ s)) =
    if not (all is_ascii (c ∷ s))
    then false
    else (leb (length (c ∷ s)) max_app_id_bytes && (is_lower c || is_digit c)) && all is_app_char s
is_valid_app_id _ = false

unfoldable pub is_valid_run_id : Value → Bool
is_valid_run_id (string (c ∷ s)) =
    if not (all is_ascii (c ∷ s))
    then false
    else leb (length (c ∷ s)) max_run_id_bytes
      && (is_lower c || is_upper c || is_digit c)
      && all is_run_char s
is_valid_run_id _ = false

-- `none` is the `ValueError`.
unfoldable pub validate_run_id : Value → Option Text
unfolding is_valid_run_id
validate_run_id (string s) = if is_valid_run_id (string s) then some s else none
validate_run_id _ = none

unfoldable pub is_valid_tool_call_id : Value → Bool
is_valid_tool_call_id (string (c ∷ s)) = elim (utf8_length (c ∷ s)) [
  | none ↦ false
  | some n ↦ not (has_nul (c ∷ s)) && leb n max_tool_call_id_bytes
]
is_valid_tool_call_id _ = false

abbrev within_bytes : Option ℕ → ℕ → Bool
within_bytes none n = true
within_bytes (some limit) n = leb n limit

-- `_valid_utf8_text(value, nonempty=…, maximum_bytes=…)`.
unfoldable pub valid_utf8_text : Value → Bool → Option ℕ → Bool
valid_utf8_text (string s) nonempty maximum_bytes =
    if nonempty && is_blank s then false else elim (utf8_length s) [
      | none ↦ false
      | some n ↦ not (has_nul s) && within_bytes maximum_bytes n
    ]
valid_utf8_text _ nonempty maximum_bytes = false
