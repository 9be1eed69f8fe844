-- ===== src/Crash/Risk/Admission.antt =====
-- apps/api/src/crash/crash-risk.policy.ts: `assertCanonicalAdmission`, over the configuration, the tables
-- and the limits of the treasury.
use dailydraft_fun.Prelude.{
  ℕ, ◌+◌, ◌-◌, Bool, true, false, not, ◌&&◌, ◌||◌, Option, none, some, List, map, ltb, select,
  Result, ◌>>=◌, ◌>>◌, throw_if, require,
}
use dailydraft_fun.Prelude.Int.{sub_ℕ}
use dailydraft_fun.Js.Text.{Text, text_eq}
use dailydraft_fun.Js.Decimal.{big_int}
use dailydraft_fun.Js.Value.{str}
use dailydraft_fun.Treasury.Types.{Config, Snapshot, Reason, is_active, Database}
use dailydraft_fun.Treasury.Limits.{evaluate_limits}
use dailydraft_fun.Treasury.Config.{Environment, read_config, config_errors}
use dailydraft_fun.Treasury.Snapshot.{snapshot_is_usable}
use dailydraft_fun.Treasury.Reserve.{active_amounts, daily_losses, is_nil}
use dailydraft_fun.Crash.Risk.Types.{
  RiskError, configuration, pot, treasury_exposure, wallet_exposure, RiskRules, parse_amount,
  sum_amounts,
}

-- The query of the active amounts of a wallet.
unfoldable pub wallet_amounts : Text → Database → List Text
unfolding text_eq
wallet_amounts wallet db =
    map (λ r. r.amount)
      (select (λ r. text_eq r.player_wallet wallet && is_active r.status) db.reservations)

-- `!pause || pause.paused`
abbrev pub is_stopped : Option Bool → Bool
is_stopped none = true
is_stopped (some paused) = paused

abbrev pub is_refused : Option Reason → Bool
is_refused none = false
is_refused (some _) = true

-- The admission of a change from `current_amount` to `amount_after`.
pub record Change : Type 0 where
  pub amount_after : ℕ
  pub current_amount : ℕ
  pub now : ℕ
  pub player_wallet : Text

-- The limits of the crash rules, on the sums before the change.
unfoldable pub check_exposure : RiskRules → Change → ℕ → ℕ → Result RiskError (Unit {0})
check_exposure rules c total_before wallet_before = do
  throw_if (ltb total_before c.current_amount || ltb wallet_before c.current_amount) configuration
  throw_if
      (ltb (big_int rules.max_wallet_exposure_amount)
        (wallet_before - c.current_amount + c.amount_after))
      wallet_exposure
  throw_if
      (ltb (big_int rules.max_treasury_exposure_amount)
        (total_before - c.current_amount + c.amount_after))
      treasury_exposure

-- The limits of the house.
unfoldable pub check_house : Config → Change → Snapshot → ℕ → Database → Result RiskError (Unit {0})
check_house config c snapshot total_before db = do
  daily_loss ← sum_amounts (daily_losses c.now db)
  delegated ← parse_amount (str snapshot.delegated_amount)
  balance ← parse_amount (str snapshot.balance_amount)
  throw_if
      (is_refused (
        evaluate_limits config (record {
          active_per_tier = 0;
          active_per_wallet = 0;
          daily_loss_amount = daily_loss;
          delegated_amount = delegated;
          requested = sub_ℕ c.amount_after c.current_amount;
          total = total_before;
          verified_balance = balance;
        })))
      treasury_exposure

-- `assertCanonicalAdmission`
unfoldable pub assert_admission :
    (Text → Bool) → Environment → RiskRules → Change → Database → Result RiskError (Unit {0})
unfolding check_exposure check_house wallet_amounts
assert_admission is_public_key env rules c db = do
  throw_if (ltb (big_int rules.max_pot_amount) c.amount_after) pot
  let config = read_config env
  throw_if
      (not (is_nil (config_errors is_public_key config))
        || ltb config.max_total_exposure (big_int rules.max_treasury_exposure_amount))
      configuration
  throw_if (is_stopped db.paused) configuration
  snapshot ← require db.snapshot configuration
  throw_if (not (snapshot_is_usable snapshot config c.now 6)) configuration
  total_before ← sum_amounts (active_amounts db)
  wallet_before ← sum_amounts (wallet_amounts c.player_wallet db)
  check_exposure rules c total_before wallet_before
  check_house config c snapshot total_before db
