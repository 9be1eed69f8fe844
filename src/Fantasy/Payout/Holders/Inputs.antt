-- ===== src/Fantasy/Payout/Holders/Inputs.antt =====
-- Each reward of a place belongs to one holder of the input, in the same order.
use dailydraft_fun.Prelude.{
  ℕ, ◌+◌, ◌≡◌, refl, sym, ap, not, List, [], ◌∷◌, arith, ok, ok-injective, from_bind, throw_if,
  require,
}
use dailydraft_fun.Js.Text.{Text, text, text_mem, is_solana_address}
use dailydraft_fun.Js.Decimal.{big_int, big_int-to_string}
use dailydraft_fun.Js.Value.{Value, str, obj, Fields, get, as_string}
use dailydraft_fun.Fantasy.Payout.Types.{invalid_input, parse_unsigned_amount}
use dailydraft_fun.Fantasy.Payout.Holders.{
  Holder, HolderReward, parse_holder, parse_holders, pay_holders,
}

-- A value that holds this wallet and this number of shares.
abbrev pub HoldsShares : Value → Text → ℕ → Type 0
HoldsShares value wallet shares =
    (fields : Fields) × (digits : Text) × (value ≡ obj fields)
    × (get (text "walletAddress") fields ≡ str wallet)
    × (get (text "eligibleShares") fields ≡ str digits)
    × (shares ≡ big_int digits)

abbrev pub AreRewardsOf : List Value → List HolderReward → Type 0
AreRewardsOf [] [] = Unit
AreRewardsOf (v ∷ vs) (r ∷ rs) =
    HoldsShares v r.wallet_address (big_int r.eligible_shares) × AreRewardsOf vs rs
AreRewardsOf _ _ = ⊥

parse_unsigned_amount_lem :
    (limit : ℕ) (value : Value) {n : ℕ}
    → parse_unsigned_amount limit value ≡ ok n
    → (digits : Text) × (value ≡ str digits) × (n ≡ big_int digits)
unfolding parse_unsigned_amount
parse_unsigned_amount_lem limit (str digits) h = (digits, refl, ground arith)
parse_unsigned_amount_lem limit _ h = ground arith

parse_holder-HoldsShares :
    (value : Value) (seen : List Text) {h : Holder}
    → parse_holder value seen ≡ ok h
    → HoldsShares value h.wallet_address h.eligible_shares
unfolding parse_holder
parse_holder-HoldsShares (obj fields) seen e =
    from_bind (require (as_string (get (text "walletAddress") fields)) _) _ e λ wallet named e₁.
      from_bind (throw_if (not (is_solana_address wallet)) _) _ e₁ λ _ _ e₂.
        from_bind (throw_if (text_mem wallet seen) _) _ e₂ λ _ _ e₃.
          from_bind (parse_unsigned_amount 1_000_000_000 (get (text "eligibleShares") fields)) _ e₃
            λ shares parsed e₄.
              let (digits, counted, value_eq) =
                parse_unsigned_amount_lem _ (get (text "eligibleShares") fields) parsed in
              rw (← ok-injective e₄)
                (fields, digits, refl, as_string-eq-some _ named, counted, value_eq)
  where
    as_string-eq-some :
        (v : Value) {t : Text} → require (as_string v) invalid_input ≡ ok t → v ≡ str t
    as_string-eq-some v h = ground arith
parse_holder-HoldsShares _ seen e = ground arith

pub pay_holders-AreRewardsOf :
    (values : List Value) (seen : List Text) (so_far : ℕ) (holders : List Holder) {all : ℕ}
    → parse_holders values seen so_far ≡ ok (holders, all)
    → (allocation total paid : ℕ)
    → AreRewardsOf values (pay_holders allocation total holders paid).0
unfolding parse_holders pay_holders
pay_holders-AreRewardsOf [] seen so_far holders e allocation total paid =
    let nothing : holders ≡ [] = sym (ap (λ p. p.0) (ok-injective e)) in rw nothing tt
pay_holders-AreRewardsOf (v ∷ vs) seen so_far holders e allocation total paid =
    from_bind (parse_holder v seen) _ e λ h parsed e₁.
      from_bind (parse_holders vs (h.wallet_address ∷ seen) (so_far + h.eligible_shares)) _ e₁
        λ rest loop e₂.
          let same : holders ≡ h ∷ rest.0 = sym (ap (λ p. p.0) (ok-injective e₂)) in
          rw same (
            rw (big_int-to_string h.eligible_shares) (
              parse_holder-HoldsShares v seen parsed,
              pay_holders-AreRewardsOf vs (h.wallet_address ∷ seen) (so_far + h.eligible_shares)
                  rest.0 loop allocation total _,
            ))
