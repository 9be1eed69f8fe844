-- ===== src/Crash/Risk/Round.antt =====
-- apps/api/src/crash/crash-risk.policy.ts: the guards that tie a round to its rules, its stage and its
-- reservation.
use dailydraft_fun.Prelude.{
  ℕ, Bool, true, false, not, ◌||◌, Option, none, some, List, [], ◌∷◌, ltb, leb, ◌==◌, if◌then◌else◌,
  Result, ok, ◌>>=◌, ◌>>◌, throw_if, require,
}
use dailydraft_fun.Js.Text.{Text, text, text_eq, is_identifier, strip_prefix}
use dailydraft_fun.Js.Decimal.{to_string}
use dailydraft_fun.Js.Value.{Number, num, as_natural, str}
use dailydraft_fun.Treasury.Types.{Status, released, settled, is_duel, Reservation}
use dailydraft_fun.Treasury.Config.{is_some_text}
use dailydraft_fun.Crash.Risk.Types.{
  RiskError, configuration, duration, idempotency_mismatch, stage, RiskRules, RoundBinding,
  RiskMoney, parse_amount,
}

-- `assertStageAndDuration`
unfoldable pub assert_stage_and_duration : RiskRules → Number → ℕ → ℕ → Result RiskError ℕ
assert_stage_and_duration rules next_stage expires_at now = do
  n ← require (as_natural (num next_stage)) stage
  throw_if ((n == 0) || ltb rules.max_stage n) stage
  throw_if (leb expires_at now) duration
  ok n

-- `assertRoundBinding`
unfoldable pub assert_round_binding : RoundBinding → RiskRules → Result RiskError (Unit {0})
assert_round_binding round rules =
    throw_if
      (not (text_eq round.risk_rules_hash rules.risk_rules_hash)
        || not (text_eq round.risk_rules_version rules.rules_version))
      configuration

-- `riskWallet`
unfoldable pub risk_wallet : Text → Result RiskError Text
risk_wallet reference = do
  wallet ← require (strip_prefix (text "fixture-wallet:") reference) configuration
  throw_if (not (is_identifier wallet)) configuration
  ok wallet

-- `assertReservationBinding`, for the hash that the rules or the round commit to
unfoldable pub assert_reservation_binding : Reservation → Text → Text → Result RiskError (Unit {0})
unfolding risk_wallet
assert_reservation_binding r reference hash = do
  throw_if (is_duel r.source) idempotency_mismatch
  wallet ← risk_wallet reference
  throw_if (not (text_eq r.player_wallet wallet) || not (is_some_text hash r.risk_rules_hash))
      idempotency_mismatch

-- `assertReservationReplay`
unfoldable pub assert_reservation_replay :
    Reservation → RoundBinding → RiskRules → ℕ → Result RiskError (Unit {0})
unfolding assert_reservation_binding
assert_reservation_replay r round rules amount = do
  assert_reservation_binding r round.player_wallet_reference rules.risk_rules_hash
  throw_if (not (text_eq r.amount (to_string amount))) idempotency_mismatch

-- `requireRiskMoney`; the currency and the decimals of every rule set are USDC and 6
unfoldable pub require_risk_money : RiskMoney → Result RiskError ℕ
unfolding parse_amount
require_risk_money value = do
  throw_if (not (text_eq value.currency (text "USDC")) || not (value.decimals == 6)) configuration
  parse_amount (str value.amount)

-- `findUnique({ where: { crashRoundId } })`
unfoldable pub find_round : Text → List Reservation → Option Reservation
unfolding is_some_text
find_round round_id [] = none
find_round round_id (r ∷ rs) =
    if is_some_text round_id r.crash_round_id then some r else find_round round_id rs

-- `status === RELEASED || status === SETTLED`
abbrev pub is_closed : Status → Bool
is_closed released = true
is_closed settled = true
is_closed _ = false
