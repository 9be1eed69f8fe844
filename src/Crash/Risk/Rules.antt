-- ===== src/Crash/Risk/Rules.antt =====
-- apps/api/src/crash/crash-risk.policy.ts: `validateCrashRiskRules`.
pub mod Sound
use dailydraft_fun.Prelude.{
  ℕ, Bool, true, false, not, ◌||◌, ltb, ◌==◌, Result, ok, err, ◌>>=◌, ◌>>◌, throw_if, require,
}
use dailydraft_fun.Js.Text.{Text, text, text_eq, is_hash, is_identifier}
use dailydraft_fun.Js.Decimal.{to_string}
use dailydraft_fun.Js.Value.{
  Value, Fields, get, is_text, is_number, as_object, as_string, as_natural,
}
use dailydraft_fun.Js.Canonical.{Host}
use dailydraft_fun.Crash.Risk.Types.{
  RiskError, configuration, max_duration_ms, max_evidence_age_ms, max_stages, UnsignedRules,
  RiskRules, hash_risk_rules, parse_amount,
}

-- `validIdentifier(value)`, which returns the text
unfoldable pub valid_identifier : Value → Result RiskError Text
valid_identifier value = do
  t ← require (as_string value) configuration
  throw_if (not (is_identifier t)) configuration
  ok t

-- `typeof value === 'number' && Number.isInteger(value) && value > 0 && value <= limit`
unfoldable pub positive_integer : ℕ → Value → Result RiskError ℕ
positive_integer limit value = do
  n ← require (as_natural value) configuration
  throw_if ((n == 0) || ltb limit n) configuration
  ok n

-- The tests on the literals.
unfoldable pub check_literals : Fields → Result RiskError (Unit {0})
check_literals rules =
    throw_if
      (not (is_text (text "fixture-only") (get (text "activation") rules))
        || not (is_text (text "dailydraft.crash-risk-rules.v1") (get (text "schemaVersion") rules))
        || not (is_text (text "dailydraft.crash-risk-policy.v1") (get (text "policyVersion") rules))
        || not (is_text (text "solana-devnet") (get (text "network") rules))
        || not (is_text (text "USDC") (get (text "currency") rules))
        || not (is_number 6 (get (text "decimals") rules)))
      configuration

-- The amounts, in their order: the pot, the wallet, the treasury.
unfoldable pub read_amounts : Fields → Result RiskError (ℕ × ℕ × ℕ)
read_amounts rules = do
  pot ← parse_amount (get (text "maxPotAmount") rules)
  wallet ← parse_amount (get (text "maxWalletExposureAmount") rules)
  treasury ← parse_amount (get (text "maxTreasuryExposureAmount") rules)
  throw_if ((pot == 0) || ltb wallet pot || ltb treasury wallet) configuration
  ok (pot, wallet, treasury)

-- The committed hash.
unfoldable pub seal_rules : Host → UnsignedRules → Text → Result RiskError RiskRules
seal_rules host unsigned hash = do
  throw_if (not (is_hash hash)) configuration
  throw_if (not (text_eq (hash_risk_rules host unsigned) hash)) configuration
  ok (record { unsigned = unsigned; risk_rules_hash = hash })

-- `validateCrashRiskRules`. Every refusal has the same reason, so the order of the tests does not show.
unfoldable pub validate_risk_rules : Host → Value → Result RiskError RiskRules
validate_risk_rules host value = do
  rules ← require (as_object value) configuration
  check_literals rules
  version ← valid_identifier (get (text "rulesVersion") rules)
  provider ← valid_identifier (get (text "providerReference") rules)
  pool ← valid_identifier (get (text "poolReference") rules)
  stage ← positive_integer max_stages (get (text "maxStage") rules)
  duration ← positive_integer max_duration_ms (get (text "maxDurationMs") rules)
  age ← positive_integer max_evidence_age_ms (get (text "evidenceMaxAgeMs") rules)
  (pot, wallet, treasury) ← read_amounts rules
  hash ← require (as_string (get (text "riskRulesHash") rules)) configuration
  seal_rules host
      (record {
        evidence_max_age_ms = age;
        max_duration = duration;
        max_pot_amount = to_string pot;
        max_stage = stage;
        max_treasury_exposure_amount = to_string treasury;
        max_wallet_exposure_amount = to_string wallet;
        pool_reference = pool;
        provider_reference = provider;
        rules_version = version;
      })
      hash
