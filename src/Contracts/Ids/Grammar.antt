-- ===== src/Contracts/Ids/Grammar.antt =====
-- What the identifier checks accept, against the grammars that their errors quote, and how the
-- three kinds of identifier are related.
use sasori.Base.{ℕ, ◌≤◌, ◌≡◌, refl, ◌↔◌, ◌⊎◌, true, false, some, [], ◌∷◌, arith, all, length, All}
use sasori.Text.{Text, utf8_length, has_nul}
use sasori.Json.{Value, string}
use sasori.Contracts.Ids.{
  is_valid_app_id, is_valid_run_id, is_valid_tool_call_id, is_run_char, is_app_char, is_ascii,
}

-- The character classes [a-z0-9], [a-z0-9._-], [A-Za-z0-9] and [A-Za-z0-9._-] as orders.
abbrev IsAlnumLower : ℕ → Type 0
IsAlnumLower c = ((97 ≤ c) × (c ≤ 122)) ⊎ ((48 ≤ c) × (c ≤ 57))

abbrev IsAlnum : ℕ → Type 0
IsAlnum c = IsAlnumLower c ⊎ ((65 ≤ c) × (c ≤ 90))

abbrev IsPunctuation : ℕ → Type 0
IsPunctuation c = (c ≡ 45) ⊎ ((c ≡ 46) ⊎ (c ≡ 95))

-- [a-z0-9][a-z0-9._-]{0,63}
abbrev pub MatchesAppId : Text → Type 0
MatchesAppId [] = ⊥
MatchesAppId (c ∷ s) =
    IsAlnumLower c × All (λ d. IsAlnumLower d ⊎ IsPunctuation d) s × (length s ≤ 63)

-- [A-Za-z0-9][A-Za-z0-9._-]{0,63}
abbrev pub MatchesRunId : Text → Type 0
MatchesRunId [] = ⊥
MatchesRunId (c ∷ s) = IsAlnum c × All (λ d. IsAlnum d ⊎ IsPunctuation d) s × (length s ≤ 63)

run_tail_sound : (s : Text) → all is_run_char s ≡ true → All (λ d. IsAlnum d ⊎ IsPunctuation d) s
run_tail_sound [] h = tt
run_tail_sound (c ∷ s) h = (grind arith, run_tail_sound s (ground arith))

run_tail_complete :
    (s : Text)
    → All (λ d. IsAlnum d ⊎ IsPunctuation d) s
    → (all is_run_char s ≡ true) × (all is_ascii s ≡ true)
run_tail_complete [] h = (refl, refl)
run_tail_complete (c ∷ s) h = ground (arith, run_tail_complete s h.1)

app_tail_sound :
    (s : Text) → all is_app_char s ≡ true → All (λ d. IsAlnumLower d ⊎ IsPunctuation d) s
app_tail_sound [] h = tt
app_tail_sound (c ∷ s) h = (grind arith, app_tail_sound s (ground arith))

app_tail_complete :
    (s : Text)
    → All (λ d. IsAlnumLower d ⊎ IsPunctuation d) s
    → (all is_app_char s ≡ true) × (all is_ascii s ≡ true)
app_tail_complete [] h = (refl, refl)
app_tail_complete (c ∷ s) h = ground (arith, app_tail_complete s h.1)

-- The run identifiers are exactly the texts that match [A-Za-z0-9][A-Za-z0-9._-]{0,63}.
pub is_valid_run_id_iff : (s : Text) → (is_valid_run_id (string s) ≡ true) ↔ MatchesRunId s
unfolding is_valid_run_id
is_valid_run_id_iff [] = (λ h. cc, λ h. absurd h)
is_valid_run_id_iff (c ∷ s) = (
  λ h. (grind arith, run_tail_sound s (ground arith), ground arith),
  λ h. ground (arith, run_tail_complete s h.1),
)

-- The application identifiers are exactly the texts that match [a-z0-9][a-z0-9._-]{0,63}.
pub is_valid_app_id_iff : (s : Text) → (is_valid_app_id (string s) ≡ true) ↔ MatchesAppId s
unfolding is_valid_app_id
is_valid_app_id_iff [] = (λ h. cc, λ h. absurd h)
is_valid_app_id_iff (c ∷ s) = (
  λ h. (grind arith, app_tail_sound s (ground arith), ground arith),
  λ h. ground (arith, app_tail_complete s h.1),
)

ascii-utf8 :
    (s : Text) → all is_run_char s ≡ true → (utf8_length s ≡ some (length s)) × (has_nul s ≡ false)
unfolding utf8_length
ascii-utf8 [] h = (refl, refl)
ascii-utf8 (c ∷ s) h = ground (arith, ascii-utf8 s)

app_char-run : (s : Text) → all is_app_char s ≡ true → all is_run_char s ≡ true
app_char-run [] h = refl
app_char-run (c ∷ s) h = ground (arith, app_char-run s)

ids_nested :
    (v : Value)
    → ((is_valid_app_id v ≡ true) → is_valid_run_id v ≡ true)
      × ((is_valid_run_id v ≡ true) → is_valid_tool_call_id v ≡ true)
unfolding is_valid_app_id is_valid_run_id is_valid_tool_call_id
ids_nested (string []) = (λ h. h, λ h. h)
ids_nested (string (c ∷ s)) =
    (λ h. ground (arith, app_char-run s), λ h. ground (arith, ascii-utf8 (c ∷ s)))
ids_nested _ = (λ h. h, λ h. h)

-- Every application identifier is a run identifier, and can stand as a provider's call identifier.
pub is_valid_app_id-nested :
    (v : Value)
    → is_valid_app_id v ≡ true
    → (is_valid_run_id v ≡ true) × (is_valid_tool_call_id v ≡ true)
is_valid_app_id-nested v h = let (to_run, to_call) = ids_nested v in (to_run h, to_call (to_run h))
