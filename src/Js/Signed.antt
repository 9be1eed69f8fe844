-- ===== src/Js/Signed.antt =====
-- Signed decimal texts: the pattern of them, `BigInt(text)` and `amount.toString()`.
use dailydraft_fun.Prelude.{
  ℕ, zero, suc, ◌+◌, ◌/◌, ◌%◌, ◌≤◌, ◌<◌, ◌≡◌, refl, ap, ◌∙◌, Bool, false, inl, inr, ◌&&◌, ◌||◌, [],
  ◌∷◌, arith, ltb, leb, ◌==◌, length, if◌then◌else◌, Bool-cases,
}
use dailydraft_fun.Prelude.Int.{ℤ, pos, negsuc, neg_ℤ}
use dailydraft_fun.Js.Text.{Text, is_digit, every}
use dailydraft_fun.Js.Decimal.{big_int, to_string, digits_before, big_int-to_string}

-- [1-9]\d*
is_positive : Text → Bool
unfolding every
is_positive [] = false
is_positive (c ∷ cs) = leb b'1' c && leb c b'9' && every is_digit cs

-- /^(0|-?[1-9]\d*)$/
unfoldable pub is_signed_integer : Text → Bool
unfolding is_positive
is_signed_integer [] = false
is_signed_integer (c ∷ cs) =
    let negative = is_positive cs in
    let zero_only = (c == b'0') && (length cs == 0) in
    if c == b'-' then negative else zero_only || is_positive (c ∷ cs)

-- `BigInt(text)`, where `text` may have a minus sign
unfoldable pub big_int_ℤ : Text → ℤ
unfolding big_int
big_int_ℤ [] = pos 0
big_int_ℤ (c ∷ cs) = if c == b'-' then neg_ℤ (pos (big_int cs)) else pos (big_int (c ∷ cs))

-- `amount.toString()`
unfoldable pub to_string_ℤ : ℤ → Text
unfolding to_string
to_string_ℤ (pos n) = to_string n
to_string_ℤ (negsuc n) = b'-' ∷ to_string (suc n)

-- What is printed starts with a digit.
digits_before_digit :
    (fuel n : ℕ) (acc : Text)
    → n < fuel
    → (c : ℕ) × (cs : Text) × (digits_before fuel n acc ≡ c ∷ cs) × (b'0' ≤ c)
unfolding digits_before
digits_before_digit zero n acc h = absurd (omega arith)
digits_before_digit (suc fuel) n acc h = elim (Bool-cases (ltb n 10)) [
  | inl small ↦ rw small (b'0' + n, acc, refl, omega arith)
  | inr big ↦ rw big (digits_before_digit fuel (n / 10) ((b'0' + n % 10) ∷ acc) (ground arith))
]

to_string-digit : (n : ℕ) → (c : ℕ) × (cs : Text) × (to_string n ≡ c ∷ cs) × (b'0' ≤ c)
unfolding to_string
to_string-digit n = digits_before_digit (suc n) n [] (omega arith)

big_int_ℤ-unsigned :
    (t : Text) {c : ℕ} {cs : Text} → t ≡ c ∷ cs → b'0' ≤ c → big_int_ℤ t ≡ pos (big_int t)
unfolding big_int_ℤ
big_int_ℤ-unsigned t shape h = rw shape (ground arith)

big_int_ℤ-negative : (t : Text) {n : ℕ} → big_int t ≡ suc n → big_int_ℤ (b'-' ∷ t) ≡ negsuc n
unfolding big_int_ℤ
big_int_ℤ-negative t h = ground arith

-- What `toString` prints, `BigInt` reads back.
pub big_int_ℤ-to_string_ℤ : (z : ℤ) → big_int_ℤ (to_string_ℤ z) ≡ z
unfolding to_string_ℤ
big_int_ℤ-to_string_ℤ (pos n) =
    let (_, _, shape, digit) = to_string-digit n in
    big_int_ℤ-unsigned (to_string n) shape digit ∙ ap pos (big_int-to_string n)
big_int_ℤ-to_string_ℤ (negsuc n) =
    big_int_ℤ-negative (to_string (suc n)) (big_int-to_string (suc n))
