-- ===== src/Crash/Calculators/Calculate.antt =====
-- apps/api/src/crash/crash-calculators.ts: `calculateCrashPot` and `calculateCrashBust`.
pub mod Pot
pub mod Bust
use dailydraft_fun.Prelude.{
  ℕ, ◌+◌, ◌-◌, ◌*◌, ◌/◌, ◌%◌, Bool, not, ◌||◌, ltb, leb, ◌==◌, get_elem?, Result, ok, err, ◌>>=◌,
  ◌>>◌, throw_if, require,
}
use dailydraft_fun.Js.Text.{Text, text}
use dailydraft_fun.Js.Decimal.{big_int, to_string}
use dailydraft_fun.Js.Value.{int, Value, bool, num, str, obj, end, field, as_natural}
use dailydraft_fun.Js.Canonical.{Host, hash_value}
use dailydraft_fun.Domain.{Money, money_value}
use dailydraft_fun.Crash.Calculators.Types.{
  ErrorCode, invalid_input, pot_limit_exceeded, stage_not_configured, bps_scale, ppm_scale, max_u64,
  StageRule, RuleSet, parse_money, money,
}
use dailydraft_fun.Crash.Calculators.Rules.{validate_calculator_rule_set}

-- The fields of `CrashPotCalculation` whose type is not one literal, less the calculation hash.
pub record CanonicalPot : Type 0 where
  pub current_pot : Money
  pub max_pot : Money
  pub next_pot : Money
  pub pot_contribution_bps : ℕ
  pub rounding_remainder_numerator : Text
  pub rules_hash : Text
  pub rules_version : Text
  pub stage : ℕ
  pub stage_value : Money
  pub value_change : Money

pub record PotCalculation : Type 0 where
  pub canonical : CanonicalPot
  pub open canonical use *
  pub calculation_hash : Text

pub record CanonicalBust : Type 0 where
  pub bust_threshold_ppm : ℕ
  pub busted : Bool
  pub roll_ppm : ℕ
  pub rules_hash : Text
  pub rules_version : Text
  pub stage : ℕ

pub record BustCalculation : Type 0 where
  pub canonical : CanonicalBust
  pub open canonical use *
  pub calculation_hash : Text

-- The object `canonical` of `calculateCrashPot`.
unfoldable pub pot_value : CanonicalPot → Value
pot_value c = obj (
    field (text "calculatorVersion") (str (text "dailydraft.crash-calculators.v1")) (
      field (text "currentPot") (money_value c.current_pot) (
        field (text "maxPot") (money_value c.max_pot) (
          field (text "nextPot") (money_value c.next_pot) (
            field (text "potContributionBps") (num (int c.pot_contribution_bps)) (
              field (text "rounding") (str (text "floor")) (
                field (text "roundingDenominator") (str (text "10000")) (
                  field (text "roundingRemainderNumerator") (str c.rounding_remainder_numerator) (
                    field (text "rulesHash") (str c.rules_hash) (
                      field (text "rulesVersion") (str c.rules_version) (
                        field (text "stage") (num (int c.stage)) (
                          field (text "stageValue") (money_value c.stage_value) (
                            field (text "valueChange") (money_value c.value_change) end)))))))))))))

-- The object `canonical` of `calculateCrashBust`.
unfoldable pub bust_value : CanonicalBust → Value
bust_value c = obj (
    field (text "bustThresholdPpm") (num (int c.bust_threshold_ppm)) (
      field (text "busted") (bool c.busted) (
        field (text "calculatorVersion") (str (text "dailydraft.crash-calculators.v1")) (
          field (text "comparison") (str (text "roll-lt-threshold")) (
            field (text "probabilityScalePpm") (num (int ppm_scale)) (
              field (text "rollPpm") (num (int c.roll_ppm)) (
                field (text "rulesHash") (str c.rules_hash) (
                  field (text "rulesVersion") (str c.rules_version)
                    (field (text "stage") (num (int c.stage)) end)))))))))

-- `requireStage`
unfoldable pub require_stage : RuleSet → Value → Result ErrorCode StageRule
require_stage rules value = do
  stage ← require (as_natural value) invalid_input
  throw_if (stage == 0) invalid_input
  rule ← require (get_elem? rules.stages (stage - 1)) stage_not_configured
  throw_if (not (rule.stage == stage)) stage_not_configured
  ok rule

-- The arithmetic of `calculateCrashPot` once its inputs are read.
unfoldable pub next_pot : RuleSet → StageRule → ℕ → ℕ → Result ErrorCode CanonicalPot
next_pot rules rule current value = do
  let unrounded = value * rule.pot_contribution_bps
  let change = unrounded / bps_scale
  let remainder = unrounded % bps_scale
  let next = current + change
  let limit = big_int rule.max_pot_amount
  throw_if (ltb max_u64 next || ltb limit next) pot_limit_exceeded
  ok (record {
    current_pot = money current;
    max_pot = money limit;
    next_pot = money next;
    pot_contribution_bps = rule.pot_contribution_bps;
    rounding_remainder_numerator = to_string remainder;
    rules_hash = rules.rules_hash;
    rules_version = rules.rules_version;
    stage = rule.stage;
    stage_value = money value;
    value_change = money change;
  })

-- `calculateCrashPot`
unfoldable pub calculate_pot :
    Host → Value → Value → Value → Value → Result ErrorCode PotCalculation
unfolding pot_value hash_value
calculate_pot host rules_input current_pot stage_value stage = do
  rules ← validate_calculator_rule_set host rules_input
  rule ← require_stage rules stage
  current ← parse_money current_pot
  value ← parse_money stage_value
  canonical ← next_pot rules rule current value
  ok (record { canonical = canonical; calculation_hash = hash_value host (pot_value canonical) })

-- The outcome of a roll at a stage.
unfoldable pub roll_stage : RuleSet → StageRule → ℕ → CanonicalBust
roll_stage rules rule roll = record {
  bust_threshold_ppm = rule.bust_threshold_ppm;
  busted = ltb roll rule.bust_threshold_ppm;
  roll_ppm = roll;
  rules_hash = rules.rules_hash;
  rules_version = rules.rules_version;
  stage = rule.stage;
}

-- `calculateCrashBust`
unfoldable pub calculate_bust : Host → Value → Value → Value → Result ErrorCode BustCalculation
unfolding bust_value hash_value
calculate_bust host rules_input roll_ppm stage = do
  rules ← validate_calculator_rule_set host rules_input
  rule ← require_stage rules stage
  roll ← require (as_natural roll_ppm) invalid_input
  throw_if (leb ppm_scale roll) invalid_input
  let canonical = roll_stage rules rule roll
  ok (record { canonical = canonical; calculation_hash = hash_value host (bust_value canonical) })
