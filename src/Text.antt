-- ===== src/Text.antt =====
-- Python's `str` as its code points, lone surrogates included, and what the core's text checks
-- use of it: packages/sasori-core/src/sasori_core/contracts.py and runtime.py.
use Prim.Native.Char.{code}
use sasori.Base.{
  ℕ, ◌+◌, ◌≡◌, ◌↔◌, String, Bool, true, false, ◌&&◌, ◌||◌, Option, none, some, List, [], ◌∷◌, arith,
  leb, ltb, nat_beq, nat_beq_iff, Comparable, if◌then◌else◌, all,
}

abbrev pub Text : Type 0
Text = List ℕ

-- The code points of a literal.
abbrev pub codes : String → Text
codes String.[] = []
codes (String.◌∷◌ c s) = code c ∷ codes s

unfoldable pub text_beq : Text → Text → Bool
text_beq [] [] = true
text_beq [] (d ∷ t) = false
text_beq (c ∷ s) [] = false
text_beq (c ∷ s) (d ∷ t) = nat_beq c d && text_beq s t

pub text_beq_iff : (s t : Text) → (text_beq s t ≡ true) ↔ (s ≡ t)
unfolding text_beq
text_beq_iff [] [] = ground arith
text_beq_iff [] (d ∷ t) = ground arith
text_beq_iff (c ∷ s) [] = ground arith
text_beq_iff (c ∷ s) (d ∷ t) = ground (arith, text_beq_iff s t, nat_beq_iff c d)

instance abbrev pub text_eq : Comparable Text
text_eq = record { same = text_beq; same_iff = text_beq_iff }

-- The bytes of one code point in UTF-8; a surrogate has none.
unfoldable pub utf8_width : ℕ → Option ℕ
utf8_width c =
    if ltb c 0x80
    then some 1
    else if ltb c 0x800
    then some 2
    else if leb 0xD800 c && leb c 0xDFFF
    then none
    else if ltb c 0x10000
    then some 3
    else some 4

-- `len(value.encode("utf-8", "strict"))`; `none` is `UnicodeEncodeError`.
unfoldable pub utf8_length : Text → Option ℕ
unfolding utf8_width
utf8_length [] = some 0
utf8_length (c ∷ s) = elim (utf8_width c) [
  | none ↦ none
  | some w ↦ elim (utf8_length s) [ none ↦ none | some n ↦ some (w + n) ]
]

-- `str.isspace` of one character: what `str.strip` removes.
unfoldable pub is_space : ℕ → Bool
is_space c =
    (leb 9 c && leb c 13)
    || (leb 28 c && leb c 32)
    || nat_beq c 0x85
    || nat_beq c 0xA0
    || nat_beq c 0x1680
    || (leb 0x2000 c && leb c 0x200A)
    || nat_beq c 0x2028
    || nat_beq c 0x2029
    || nat_beq c 0x202F
    || nat_beq c 0x205F
    || nat_beq c 0x3000

-- `str.lstrip` and `str.rstrip`.
abbrev left_stripped : Text → Text
left_stripped [] = []
left_stripped (c ∷ s) = let rest = left_stripped s in if is_space c then rest else c ∷ s

abbrev right_stripped : Text → Text
right_stripped [] = []
right_stripped (c ∷ s) = elim (right_stripped s) [
  | [] ↦ if is_space c then [] else c ∷ []
  | d ∷ t ↦ c ∷ d ∷ t
]

-- `value.strip()`.
unfoldable pub strip : Text → Text
unfolding is_space
strip s = right_stripped (left_stripped s)

-- `not value.strip()`.
unfoldable pub is_blank : Text → Bool
unfolding is_space
is_blank s = all is_space s

abbrev pub has_nul : Text → Bool
has_nul [] = false
has_nul (c ∷ s) = nat_beq c 0 || has_nul s
