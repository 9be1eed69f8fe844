-- ===== src/Js/Text.antt =====
-- JavaScript strings, as lists of UTF-16 code units, with the tests that the program makes on them:
-- strict equality, and the regular expressions of its validators.
use Prim.Native.Char.{code}
use dailydraft_fun.Prelude.{
  ℕ, ◌≡◌, refl, ◌↔◌, String, Bool, true, false, ◌&&◌, ◌||◌, List, [], ◌∷◌, Option, none, some,
  arith, leb, ◌==◌, length, if◌then◌else◌,
}

abbrev pub Text : Type 0
Text = List ℕ

-- The code units of a literal in ASCII.
abbrev pub text : String → Text
text String.[] = []
text (String.◌∷◌ c s) = code c ∷ text s

-- `===` on strings
unfoldable pub text_eq : Text → Text → Bool
text_eq [] [] = true
text_eq [] (y ∷ ys) = false
text_eq (x ∷ xs) [] = false
text_eq (x ∷ xs) (y ∷ ys) = (x == y) && text_eq xs ys

-- `list.includes(value)` and `set.has(value)` on strings
unfoldable pub text_mem : Text → List Text → Bool
unfolding text_eq
text_mem t [] = false
text_mem t (s ∷ ss) = text_eq t s || text_mem t ss

pub text_eq_iff : (s t : Text) → (text_eq s t ≡ true) ↔ (s ≡ t)
unfolding text_eq
text_eq_iff [] [] = ground arith
text_eq_iff [] (y ∷ ys) = ground arith
text_eq_iff (x ∷ xs) [] = ground arith
text_eq_iff (x ∷ xs) (y ∷ ys) = ground (arith, text_eq_iff xs ys)

pub text_eq_refl : (s : Text) → text_eq s s ≡ true
text_eq_refl s = (text_eq_iff s s).1 refl

pub text_eq_comm : (s t : Text) → text_eq s t ≡ text_eq t s
unfolding text_eq
text_eq_comm [] [] = refl
text_eq_comm [] (y ∷ ys) = refl
text_eq_comm (x ∷ xs) [] = refl
text_eq_comm (x ∷ xs) (y ∷ ys) = ground (arith, text_eq_comm xs ys)

-- Classes of code units.
abbrev pub is_digit : ℕ → Bool
is_digit c = leb b'0' c && leb c b'9'

abbrev pub is_lower : ℕ → Bool
is_lower c = leb b'a' c && leb c b'z'

abbrev pub is_upper : ℕ → Bool
is_upper c = leb b'A' c && leb c b'Z'

-- `[class]*` to the end of the string.
unfoldable pub every : (ℕ → Bool) → Text → Bool
every p [] = true
every p (c ∷ cs) = p c && every p cs

-- /^(0|[1-9]\d*)$/
unfoldable pub is_unsigned_integer : Text → Bool
unfolding every
is_unsigned_integer [] = false
is_unsigned_integer (c ∷ []) = is_digit c
is_unsigned_integer (c ∷ cs) = (leb b'1' c && leb c b'9') && every is_digit cs

-- /^[a-f0-9]{64}$/
unfoldable pub is_hash : Text → Bool
unfolding every
is_hash cs = (length cs == 64) && every (λ c. is_digit c || (leb b'a' c && leb c b'f')) cs

-- [a-z0-9._:-]
is_version_tail : ℕ → Bool
is_version_tail c =
    is_lower c || is_digit c || (c == b'.') || (c == b'_') || (c == b':') || (c == b'-')

-- /^[a-z0-9][a-z0-9._:-]{0,127}$/
unfoldable pub is_rules_version : Text → Bool
unfolding every is_version_tail
is_rules_version [] = false
is_rules_version (c ∷ cs) =
    (is_lower c || is_digit c) && leb (length cs) 127 && every is_version_tail cs

is_alphanumeric : ℕ → Bool
is_alphanumeric c = is_lower c || is_upper c || is_digit c

-- [A-Za-z0-9._:-]
is_identifier_tail : ℕ → Bool
unfolding is_alphanumeric
is_identifier_tail c = is_alphanumeric c || (c == b'.') || (c == b'_') || (c == b':') || (c == b'-')

-- /^[A-Za-z0-9][A-Za-z0-9._:-]{0,239}$/
unfoldable pub is_identifier : Text → Bool
unfolding every is_alphanumeric is_identifier_tail
is_identifier [] = false
is_identifier (c ∷ cs) = is_alphanumeric c && leb (length cs) 239 && every is_identifier_tail cs

-- /^[a-z][a-zA-Z0-9_]{0,63}$/
unfoldable pub is_stat_key : Text → Bool
unfolding every is_alphanumeric
is_stat_key [] = false
is_stat_key (c ∷ cs) =
    is_lower c && leb (length cs) 63 && every (λ d. is_alphanumeric d || (d == b'_')) cs

-- `text.startsWith(prefix)` and `text.slice(prefix.length)`
unfoldable pub strip_prefix : Text → Text → Option Text
strip_prefix [] t = some t
strip_prefix (p ∷ ps) [] = none
strip_prefix (p ∷ ps) (c ∷ cs) = if p == c then strip_prefix ps cs else none

-- /^[1-9A-HJ-NP-Za-km-z]{32,44}$/
unfoldable pub is_solana_address : Text → Bool
unfolding every
is_solana_address cs =
    leb 32 (length cs)
    && leb (length cs) 44
    && every
        (λ c.
          (leb b'1' c && leb c b'9')
          || (leb b'A' c && leb c b'H')
          || (leb b'J' c && leb c b'N')
          || (leb b'P' c && leb c b'Z')
          || (leb b'a' c && leb c b'k')
          || (leb b'm' c && leb c b'z'))
        cs

-- /^\d+$/
unfoldable pub is_digits : Text → Bool
unfolding every
is_digits [] = false
is_digits (c ∷ cs) = is_digit c && every is_digit cs
