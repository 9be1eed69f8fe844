-- ===== src/Crash/Calculators/Types.antt =====
-- apps/api/src/crash/crash-calculators.ts: the stage table, its encoding, and the bounded parsers.
use dailydraft_fun.Prelude.{
  ℕ, ◌≤◌, ◌≡◌, not, ◌||◌, List, [], ◌∷◌, arith, ltb, Result, ok, ◌>>=◌, ◌>>◌, throw_if, require,
}
use dailydraft_fun.Js.Text.{Text, text, is_unsigned_integer}
use dailydraft_fun.Js.Decimal.{big_int, to_string}
use dailydraft_fun.Js.Value.{
  int, Value, num, str, arr, obj, Items, nil, cons, end, field, get, is_text, is_number, as_object,
  as_string,
}
use dailydraft_fun.Js.Canonical.{Host, hash_value}
use dailydraft_fun.Domain.{Money}

pub data ErrorCode : Type 0 where
  invalid_input invalid_rules pot_limit_exceeded rules_hash_mismatch : ErrorCode
  stage_not_configured unsupported_rules : ErrorCode

abbrev pub bps_scale : ℕ
bps_scale = 10_000

abbrev pub max_pot_contribution_bps : ℕ
max_pot_contribution_bps = 1_000_000

abbrev pub ppm_scale : ℕ
ppm_scale = 1_000_000

abbrev pub max_rule_stages : ℕ
max_rule_stages = 64

abbrev pub max_u64 : ℕ
max_u64 = 18_446_744_073_709_551_615

pub record StageRule : Type 0 where
  pub bust_threshold_ppm : ℕ
  pub max_pot_amount : Text
  pub pot_contribution_bps : ℕ
  pub stage : ℕ

-- The fields of `UnsignedCrashCalculatorRuleSet` whose type is not one literal.
pub record UnsignedRules : Type 0 where
  pub rules_version : Text
  pub stages : List StageRule

pub record RuleSet : Type 0 where
  pub unsigned : UnsignedRules
  pub open unsigned use *
  pub rules_hash : Text

stages_value : List StageRule → Items
stages_value [] = nil
stages_value (s ∷ ss) =
    cons
      (obj (
        field (text "bustThresholdPpm") (num (int s.bust_threshold_ppm)) (
          field (text "maxPotAmount") (str s.max_pot_amount) (
            field (text "potContributionBps") (num (int s.pot_contribution_bps))
              (field (text "stage") (num (int s.stage)) end)))))
      (stages_value ss)

abbrev nondecreasing : Value
nondecreasing = str (text "nondecreasing")

-- The JavaScript object that an `UnsignedCrashCalculatorRuleSet` is.
unfoldable pub rules_value : UnsignedRules → Value
unfolding stages_value
rules_value u = obj (
    field (text "activation") (str (text "fixture-only")) (
      field (text "calculatorVersion") (str (text "dailydraft.crash-calculators.v1")) (
        field (text "constraints")
          (obj (
            field (text "bustThresholdPpm") nondecreasing (
              field (text "maxPotAmount") nondecreasing
                (field (text "potContributionBps") nondecreasing end))))
          (field (text "currency") (str (text "USDC")) (
            field (text "decimals") (num (int 6)) (
              field (text "rounding") (str (text "floor")) (
                field (text "rulesVersion") (str u.rules_version) (
                  field (text "schemaVersion") (str (text "dailydraft.crash-rules.v1"))
                    (field (text "stages") (arr (stages_value u.stages)) end)))))))))

unfoldable pub hash_rule_set : Host → UnsignedRules → Text
unfolding rules_value hash_value
hash_rule_set host u = hash_value host (rules_value u)

-- `parseUnsignedAmount`
unfoldable pub parse_unsigned_amount : Value → ErrorCode → Result ErrorCode ℕ
parse_unsigned_amount value code = do
  t ← require (as_string value) code
  throw_if (not (is_unsigned_integer t)) code
  throw_if (ltb max_u64 (big_int t)) code
  ok (big_int t)

-- `parseMoney`; the currency and the decimals of every rule set are USDC and 6
unfoldable pub parse_money : Value → Result ErrorCode ℕ
unfolding parse_unsigned_amount
parse_money value = do
  m ← require (as_object value) invalid_input
  throw_if
      (not (is_text (text "USDC") (get (text "currency") m))
        || not (is_number 6 (get (text "decimals") m)))
      invalid_input
  parse_unsigned_amount (get (text "amount") m) invalid_input

-- `money`
unfoldable pub money : ℕ → Money
money n = record { amount = to_string n }

pub parse_unsigned_amount-le :
    (value : Value) (code : ErrorCode) {n : ℕ}
    → parse_unsigned_amount value code ≡ ok n
    → n ≤ max_u64
unfolding parse_unsigned_amount
parse_unsigned_amount-le value code h = ground arith
