-- ===== src/Crash/Risk/Types.antt =====
-- apps/api/src/crash/crash-risk.policy.ts: the risk rules, the health evidence, the binding of a round,
-- their encodings, and the parser of amounts.
use dailydraft_fun.Prelude.{
  ℕ, ◌+◌, ◌≡◌, refl, not, Option, List, [], ◌∷◌, arith, ltb, sum_by, Result, ok, ◌>>=◌, ◌>>◌,
  throw_if, require, from_bind,
}
use dailydraft_fun.Js.Text.{Text, text, is_unsigned_integer}
use dailydraft_fun.Js.Decimal.{big_int}
use dailydraft_fun.Js.Value.{int, Value, num, str, obj, Fields, end, field, as_string}
use dailydraft_fun.Js.Canonical.{Host, hash_value}

-- The reasons of `CrashRiskPolicyError`, and the database's refusal of a duplicate key.
pub data RiskError : Type 0 where
  configuration duration health idempotency_mismatch pot stage : RiskError
  treasury_exposure wallet_exposure : RiskError
  duplicate_key : RiskError

-- `Date.parse` on a date that is not before 1970, and `date.toISOString()`
pub record Dates : Type 0 where
  pub parse : Text → Option ℕ
  pub to_iso_string : ℕ → Text

abbrev pub max_duration_ms : ℕ
max_duration_ms = 86_400_000

abbrev pub max_evidence_age_ms : ℕ
max_evidence_age_ms = 300_000

abbrev pub max_stages : ℕ
max_stages = 64

abbrev pub max_u64 : ℕ
max_u64 = 18_446_744_073_709_551_615

-- The fields of `UnsignedCrashRiskRules` whose type is not one literal.
pub record UnsignedRules : Type 0 where
  pub evidence_max_age_ms : ℕ
  pub max_duration : ℕ
  pub max_pot_amount : Text
  pub max_stage : ℕ
  pub max_treasury_exposure_amount : Text
  pub max_wallet_exposure_amount : Text
  pub pool_reference : Text
  pub provider_reference : Text
  pub rules_version : Text

pub record RiskRules : Type 0 where
  pub unsigned : UnsignedRules
  pub open unsigned use *
  pub risk_rules_hash : Text

-- The properties of an `UnsignedCrashRiskRules`, before other ones.
unfoldable pub rules_fields : UnsignedRules → Fields → Fields
rules_fields u rest = field (text "activation") (str (text "fixture-only")) (
    field (text "currency") (str (text "USDC")) (
      field (text "decimals") (num (int 6)) (
        field (text "evidenceMaxAgeMs") (num (int u.evidence_max_age_ms)) (
          field (text "maxDurationMs") (num (int u.max_duration)) (
            field (text "maxPotAmount") (str u.max_pot_amount) (
              field (text "maxStage") (num (int u.max_stage)) (
                field (text "maxTreasuryExposureAmount") (str u.max_treasury_exposure_amount) (
                  field (text "maxWalletExposureAmount") (str u.max_wallet_exposure_amount) (
                    field (text "network") (str (text "solana-devnet")) (
                      field (text "policyVersion") (str (text "dailydraft.crash-risk-policy.v1")) (
                        field (text "poolReference") (str u.pool_reference) (
                          field (text "providerReference") (str u.provider_reference) (
                            field (text "rulesVersion") (str u.rules_version) (
                              field (text "schemaVersion")
                                (str (text "dailydraft.crash-risk-rules.v1")) rest))))))))))))))

-- The JavaScript objects that an `UnsignedCrashRiskRules` and a `CrashRiskRules` are.
unfoldable pub unsigned_value : UnsignedRules → Value
unfolding rules_fields
unsigned_value u = obj (rules_fields u end)

unfoldable pub risk_rules_value : RiskRules → Value
unfolding rules_fields
risk_rules_value r =
    obj (rules_fields r.unsigned (field (text "riskRulesHash") (str r.risk_rules_hash) end))

-- `hashCrashRiskRules`
unfoldable pub hash_risk_rules : Host → UnsignedRules → Text
unfolding unsigned_value hash_value
hash_risk_rules host u = hash_value host (unsigned_value u)

-- The fields of `CrashRiskHealthFixture` whose type is not one literal.
pub record Health : Type 0 where
  pub observed_at : Text
  pub pool_reference : Text
  pub provider_reference : Text
  pub risk_rules_hash : Text

unfoldable pub health_value : Health → Value
health_value h = obj (
    field (text "observedAt") (str h.observed_at) (
      field (text "poolReference") (str h.pool_reference) (
        field (text "poolStatus") (str (text "healthy")) (
          field (text "providerReference") (str h.provider_reference) (
            field (text "providerStatus") (str (text "healthy")) (
              field (text "riskRulesHash") (str h.risk_rules_hash) (
                field (text "schemaVersion") (str (text "dailydraft.crash-risk-health.v1"))
                  end)))))))

-- `CrashRiskRoundBinding`
pub record RoundBinding : Type 0 where
  pub id : Text
  pub player_wallet_reference : Text
  pub risk_expires_at : ℕ
  pub risk_rules_hash : Text
  pub risk_rules_version : Text

-- The `Money` of an input.
pub record RiskMoney : Type 0 where
  pub amount : Text
  pub currency : Text
  pub decimals : ℕ

-- `parseAmount`
unfoldable pub parse_amount : Value → Result RiskError ℕ
parse_amount value = do
  t ← require (as_string value) configuration
  throw_if (not (is_unsigned_integer t)) configuration
  throw_if (ltb max_u64 (big_int t)) configuration
  ok (big_int t)

-- The rest of `sumAmounts`, from a running sum.
unfoldable pub sum_from : ℕ → List Text → Result RiskError ℕ
unfolding parse_amount
sum_from sum [] = ok sum
sum_from sum (t ∷ ts) = do amount ← parse_amount (str t); sum_from (sum + amount) ts

-- `sumAmounts`, over the column `amount`
unfoldable pub sum_amounts : List Text → Result RiskError ℕ
unfolding sum_from
sum_amounts ts = sum_from 0 ts

pub parse_amount_lem :
    (value : Value) {n : ℕ}
    → parse_amount value ≡ ok n
    → (t : Text) × (value ≡ str t) × (n ≡ big_int t)
unfolding parse_amount
parse_amount_lem (str t) h = (t, refl, ground arith)
parse_amount_lem _ h = ground arith

pub parse_amount-big_int : (t : Text) {n : ℕ} → parse_amount (str t) ≡ ok n → n ≡ big_int t
unfolding parse_amount
parse_amount-big_int t h = ground arith

sum_from_lem :
    (sum : ℕ) (ts : List Text) {total : ℕ}
    → sum_from sum ts ≡ ok total
    → total ≡ sum + sum_by big_int ts
unfolding sum_from
sum_from_lem sum [] h = ground arith
sum_from_lem sum (t ∷ ts) h = from_bind (parse_amount (str t)) _ h λ amount parsed h₁.
    omega (arith, parse_amount-big_int t parsed, sum_from_lem (sum + amount) ts h₁)

-- A sum that is computed is the sum of the amounts.
pub sum_amounts_lem :
    (ts : List Text) {total : ℕ} → sum_amounts ts ≡ ok total → total ≡ sum_by big_int ts
unfolding sum_amounts
sum_amounts_lem ts h = omega (arith, sum_from_lem 0 ts h)
