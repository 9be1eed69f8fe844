-- ===== src/Treasury/Snapshot.antt =====
-- apps/api/src/treasury/house-treasury.policy.ts: `parseStoredAmount`, `sumAmounts` and
-- `houseTreasurySnapshotIsUsable`.
use dailydraft_fun.Prelude.{
  ℕ, ◌+◌, ◌≤◌, ◌<◌, ◌≡◌, ◌↔◌, Bool, true, ◌&&◌, Option, none, some, List, [], ◌∷◌, arith, ltb, leb,
  ◌==◌, if◌then◌else◌, sum_by, Result, ok, err, ◌>>=◌, from_bind,
}
use dailydraft_fun.Js.Text.{Text, text, text_eq, text_eq_iff, is_digits}
use dailydraft_fun.Js.Decimal.{big_int}
use dailydraft_fun.Treasury.Types.{Config, Snapshot, Error, unavailable}
use dailydraft_fun.Treasury.Config.{is_some_text}

-- `parseStoredAmount`
unfoldable pub parse_stored_amount : Text → Result Error ℕ
parse_stored_amount t = if is_digits t then ok (big_int t) else err unavailable

-- The rest of `sumAmounts`, from a running sum.
unfoldable pub sum_from : ℕ → List Text → Result Error ℕ
unfolding parse_stored_amount
sum_from sum [] = ok sum
sum_from sum (t ∷ ts) = do amount ← parse_stored_amount t; sum_from (sum + amount) ts

-- `sumAmounts`, over the column `amount`
unfoldable pub sum_amounts : List Text → Result Error ℕ
unfolding sum_from
sum_amounts ts = sum_from 0 ts

-- `houseTreasurySnapshotIsUsable`; a stored amount that does not parse makes it unusable
unfoldable pub snapshot_is_usable : Snapshot → Config → ℕ → ℕ → Bool
snapshot_is_usable s c now decimals =
    is_digits s.balance_amount
    && is_digits s.delegated_amount
    && text_eq s.network (text "DEVNET")
    && is_some_text s.wallet c.withdrawal_authority
    && is_some_text s.delegate c.funding_signer
    && is_some_text s.token_account c.token_account
    && is_some_text s.mint c.usdc_mint
    && (s.balance_decimals == decimals)
    && leb s.verified_at (now + 60_000)
    && leb now (c.snapshot_max_age_ms + s.verified_at)
    && ltb 0 (big_int s.delegated_amount)
    && leb (big_int s.delegated_amount) c.max_total_exposure
    && leb (big_int s.delegated_amount) (big_int s.balance_amount)

sum_from_lem :
    (sum : ℕ) (ts : List Text) {total : ℕ}
    → sum_from sum ts ≡ ok total
    → total ≡ sum + sum_by big_int ts
unfolding sum_from
sum_from_lem sum [] h = ground arith
sum_from_lem sum (t ∷ ts) h = from_bind (parse_stored_amount t) _ h λ amount parsed h₁.
    ground (arith, parse_stored_amount_lem t parsed, sum_from_lem (sum + amount) ts h₁)
  where
    parse_stored_amount_lem : (t : Text) {n : ℕ} → parse_stored_amount t ≡ ok n → n ≡ big_int t
    parse_stored_amount_lem t h = ground arith

-- A sum that is computed is the sum of the amounts.
pub sum_amounts_lem :
    (ts : List Text) {total : ℕ} → sum_amounts ts ≡ ok total → total ≡ sum_by big_int ts
unfolding sum_amounts
sum_amounts_lem ts h = omega (arith, sum_from_lem 0 ts h)

-- Fresh evidence of the configured accounts whose delegated amount is covered.
pub record IsUsable (s : Snapshot) (c : Config) (now decimals : ℕ) : Type 0 where
  pub balance : is_digits s.balance_amount ≡ true
  pub delegated : is_digits s.delegated_amount ≡ true
  pub network : s.network ≡ text "DEVNET"
  pub wallet : c.withdrawal_authority ≡ some s.wallet
  pub delegate : c.funding_signer ≡ some s.delegate
  pub token_account : c.token_account ≡ some s.token_account
  pub mint : c.usdc_mint ≡ some s.mint
  pub same_decimals : s.balance_decimals ≡ decimals
  pub not_future : s.verified_at ≤ now + 60_000
  pub not_stale : now ≤ c.snapshot_max_age_ms + s.verified_at
  pub positive : 0 < big_int s.delegated_amount
  pub within_exposure : big_int s.delegated_amount ≤ c.max_total_exposure
  pub covered : big_int s.delegated_amount ≤ big_int s.balance_amount

is_some_text_iff : (t : Text) (o : Option Text) → (is_some_text t o ≡ true) ↔ (o ≡ some t)
unfolding is_some_text
is_some_text_iff t none = ground arith
is_some_text_iff t (some s) = ground (arith, text_eq_iff s t)

-- The test of a snapshot, read as the record of what it checks.
pub snapshot_is_usable_iff :
    (s : Snapshot) (c : Config) (now decimals : ℕ)
    → (snapshot_is_usable s c now decimals ≡ true) ↔ IsUsable s c now decimals
unfolding snapshot_is_usable
snapshot_is_usable_iff s c now decimals = (
  λ h. ground (
    arith,
    text_eq_iff s.network (text "DEVNET"),
    is_some_text_iff s.wallet c.withdrawal_authority,
    is_some_text_iff s.delegate c.funding_signer,
    is_some_text_iff s.token_account c.token_account,
    is_some_text_iff s.mint c.usdc_mint,
  ),
  λ u. ground (
    arith,
    text_eq_iff s.network (text "DEVNET"),
    is_some_text_iff s.wallet c.withdrawal_authority,
    is_some_text_iff s.delegate c.funding_signer,
    is_some_text_iff s.token_account c.token_account,
    is_some_text_iff s.mint c.usdc_mint,
  ),
)
