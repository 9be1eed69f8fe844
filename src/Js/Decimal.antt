-- ===== src/Js/Decimal.antt =====
-- `BigInt(text)` on digit strings and `amount.toString()`, and that they are inverse.
use dailydraft_fun.Prelude.{
  ℕ, zero, suc, ◌+◌, ◌-◌, ◌*◌, ◌/◌, ◌%◌, ◌<◌, ◌≡◌, inl, inr, [], ◌∷◌, arith, ltb, if◌then◌else◌,
  Bool-cases,
}
use dailydraft_fun.Js.Text.{Text}

-- The value of the digits read so far, extended by the rest.
digits_value : ℕ → Text → ℕ
digits_value n [] = n
digits_value n (c ∷ cs) = digits_value (n * 10 + (c - b'0')) cs

-- `BigInt(text)`, where `text` is a string of decimal digits
unfoldable pub big_int : Text → ℕ
unfolding digits_value
big_int t = digits_value 0 t

-- The decimal digits of `n`, in front of `acc`.
unfoldable pub digits_before : ℕ → ℕ → Text → Text
digits_before zero n acc = acc
digits_before (suc fuel) n acc =
    let rest = digits_before fuel (n / 10) ((b'0' + n % 10) ∷ acc) in
    if ltb n 10 then (b'0' + n) ∷ acc else rest

-- `amount.toString()`; the fuel is more than the number of digits
unfoldable pub to_string : ℕ → Text
unfolding digits_before
to_string n = digits_before (suc n) n []

digits_value-digits_before :
    (fuel n : ℕ) (acc : Text)
    → n < fuel
    → digits_value 0 (digits_before fuel n acc) ≡ digits_value n acc
unfolding digits_value digits_before
digits_value-digits_before zero n acc h = absurd (omega arith)
digits_value-digits_before (suc fuel) n acc h = elim (Bool-cases (ltb n 10)) [
  | inl small ↦ rw small (ap_digits (omega arith))
  | inr big ↦ rw big (
      rw (digits_value-digits_before fuel (n / 10) ((b'0' + n % 10) ∷ acc) (ground arith))
        (ap_digits (omega arith)))
]
  where
    ap_digits : {a b : ℕ} → a ≡ b → digits_value a acc ≡ digits_value b acc
    ap_digits e = rw e

-- What `toString` prints, `BigInt` reads back.
pub big_int-to_string : (n : ℕ) → big_int (to_string n) ≡ n
unfolding big_int to_string
big_int-to_string n = digits_value-digits_before (suc n) n [] (omega arith)
