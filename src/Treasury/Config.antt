-- ===== src/Treasury/Config.antt =====
-- apps/api/src/treasury/house-treasury.policy.ts: `readHouseTreasuryConfig` and
-- `houseTreasuryConfigurationErrors`.
pub mod Ready
use dailydraft_fun.Prelude.{
  ℕ, ◌*◌, ◌≤◌, ◌^◌, Bool, true, false, not, ◌&&◌, ◌||◌, Option, none, some, List, [], ◌∷◌, ◌++◌,
  min, max, leb, ltb, ◌==◌, if◌then◌else◌,
}
use dailydraft_fun.Js.Text.{Text, text, text_eq, is_digits}
use dailydraft_fun.Js.Decimal.{big_int}
use dailydraft_fun.Js.Trim.{trim, split_comma, to_lower}
use dailydraft_fun.Treasury.Types.{
  Config, Disposition, buyback, hold, list, manual_review, promotion,
}

-- The variables of `process.env` that are read.
pub record Environment : Type 0 where
  pub allowed_dispositions : Option Text
  pub daily_loss_limit_usdc_micro : Option Text
  pub enabled : Option Text
  pub devnet_funding_signer : Option Text
  pub devnet_wallet : Option Text
  pub max_active_per_wallet : Option Text
  pub max_concurrent_per_tier : Option Text
  pub max_total_exposure_usdc_micro : Option Text
  pub min_liquidity_usdc_micro : Option Text
  pub network : Option Text
  pub snapshot_max_age_seconds : Option Text
  pub devnet_usdc_token_account : Option Text
  pub devnet_usdc_mint : Option Text
  pub devnet_withdrawal_authority : Option Text

-- `readUnsignedAmount`
unfoldable pub read_unsigned_amount : Option Text → ℕ
read_unsigned_amount none = 0
read_unsigned_amount (some t) = if is_digits t then big_int t else 0

-- The largest integer that a double holds exactly.
abbrev pub max_safe_integer : ℕ
max_safe_integer = 9_007_199_254_740_991

-- `boundedInteger`. A digit string above `max_safe_integer` becomes a double that is not safe.
unfoldable pub bounded_integer : Option Text → ℕ → ℕ → ℕ → ℕ
bounded_integer none fallback minimum maximum = fallback
bounded_integer (some []) fallback minimum maximum = fallback
bounded_integer (some t) fallback minimum maximum =
    let normalized = trim t in
    if is_digits normalized && leb (big_int normalized) max_safe_integer
    then max minimum (min (big_int normalized) maximum)
    else fallback

-- `normalized || null`
abbrev non_empty : Text → Option Text
non_empty [] = none
non_empty t = some t

-- `trimmed`
unfoldable pub trimmed : Option Text → Option Text
trimmed none = none
trimmed (some t) = non_empty (trim t)

-- The disposition of a word, if it is an allowed one.
unfoldable pub disposition : Text → Option Disposition
unfolding text_eq
disposition t =
    if text_eq t (text "buyback")
    then some buyback
    else if text_eq t (text "hold")
    then some hold
    else if text_eq t (text "list")
    then some list
    else if text_eq t (text "manual_review")
    then some manual_review
    else if text_eq t (text "promotion")
    then some promotion
    else none

abbrev pub disposition_eq : Disposition → Disposition → Bool
disposition_eq buyback buyback = true
disposition_eq hold hold = true
disposition_eq list list = true
disposition_eq manual_review manual_review = true
disposition_eq promotion promotion = true
disposition_eq _ _ = false

abbrev pub disposition_mem : Disposition → List Disposition → Bool
disposition_mem d [] = false
disposition_mem d (e ∷ es) = disposition_eq d e || disposition_mem d es

-- The allowed words of a list, each at its first place.
unfoldable pub collect_dispositions : List Text → List Disposition → List Disposition
unfolding disposition
collect_dispositions [] seen = []
collect_dispositions (word ∷ words) seen = elim (disposition (to_lower (trim word))) [
  | none ↦ collect_dispositions words seen
  | some d ↦
      if disposition_mem d seen
      then collect_dispositions words seen
      else d ∷ collect_dispositions words (d ∷ seen)
]

-- `readDispositions`
unfoldable pub read_dispositions : Option Text → List Disposition
unfolding collect_dispositions
read_dispositions none = collect_dispositions (split_comma (text "hold,manual_review")) []
read_dispositions (some t) = collect_dispositions (split_comma t) []

-- `readHouseTreasuryConfig`
unfoldable pub read_config : Environment → Config
read_config env = record {
  allowed_dispositions = read_dispositions env.allowed_dispositions;
  daily_loss_limit = read_unsigned_amount env.daily_loss_limit_usdc_micro;
  enabled = elim env.enabled [ none ↦ false | some t ↦ text_eq t (text "true") ];
  funding_signer = trimmed env.devnet_funding_signer;
  house_wallet = trimmed env.devnet_wallet;
  max_active_per_wallet = bounded_integer env.max_active_per_wallet 1 1 20;
  max_concurrent_per_tier = bounded_integer env.max_concurrent_per_tier 1 1 100;
  max_total_exposure = read_unsigned_amount env.max_total_exposure_usdc_micro;
  minimum_liquidity = read_unsigned_amount env.min_liquidity_usdc_micro;
  network = trimmed env.network;
  snapshot_max_age_ms = bounded_integer env.snapshot_max_age_seconds 300 30 3_600 * 1_000;
  token_account = trimmed env.devnet_usdc_token_account;
  usdc_mint = trimmed env.devnet_usdc_mint;
  withdrawal_authority = trimmed env.devnet_withdrawal_authority;
}

pub data ConfigError : Type 0 where
  house_disabled devnet_required house_wallet_missing funding_signer_missing : ConfigError
  withdrawal_authority_missing usdc_token_account_missing usdc_mint_missing : ConfigError
  funding_signer_must_match_hot_wallet withdrawal_authority_not_separated : ConfigError
  total_exposure_limit_missing daily_loss_limit_missing minimum_liquidity_missing : ConfigError

-- `value === text`, where the value may be null
unfoldable pub is_some_text : Text → Option Text → Bool
is_some_text t none = false
is_some_text t (some s) = text_eq s t

-- `isPublicKey`, over the constructor `new PublicKey(value)`, which returns or throws
unfoldable pub is_key : (Text → Bool) → Option Text → Bool
is_key is_public_key none = false
is_key is_public_key (some []) = false
is_key is_public_key (some t) = is_public_key t

-- `house && signer && house !== signer`
unfoldable pub signer_differs : Option Text → Option Text → Bool
signer_differs (some (c ∷ house)) (some (d ∷ signer)) = not (text_eq (c ∷ house) (d ∷ signer))
signer_differs _ _ = false

-- `authority && [house, signer].includes(authority)`
unfoldable pub authority_shared : Option Text → Option Text → Option Text → Bool
unfolding is_some_text
authority_shared (some (c ∷ authority)) house signer =
    is_some_text (c ∷ authority) house || is_some_text (c ∷ authority) signer
authority_shared _ house signer = false

-- `if (test) errors.push(error)`, in front of the later errors
abbrev pub push_if : Bool → ConfigError → List ConfigError → List ConfigError
push_if true e es = e ∷ es
push_if false e es = es

-- `houseTreasuryConfigurationErrors`
unfoldable pub config_errors : (Text → Bool) → Config → List ConfigError
config_errors is_public_key c = push_if (not c.enabled) house_disabled (
    push_if (not (is_some_text (text "solana-devnet") c.network)) devnet_required (
      push_if (not (is_key is_public_key c.house_wallet)) house_wallet_missing (
        push_if (not (is_key is_public_key c.funding_signer)) funding_signer_missing (
          push_if (not (is_key is_public_key c.withdrawal_authority)) withdrawal_authority_missing (
            push_if (not (is_key is_public_key c.token_account)) usdc_token_account_missing (
              push_if (not (is_key is_public_key c.usdc_mint)) usdc_mint_missing (
                push_if (signer_differs c.house_wallet c.funding_signer)
                  funding_signer_must_match_hot_wallet
                  (push_if (authority_shared c.withdrawal_authority c.house_wallet c.funding_signer)
                    withdrawal_authority_not_separated
                    (push_if (c.max_total_exposure == 0) total_exposure_limit_missing (
                      push_if (c.daily_loss_limit == 0) daily_loss_limit_missing
                        (push_if (c.minimum_liquidity == 0) minimum_liquidity_missing [])))))))))))
