-- ===== src/Crash/Calculators/Tests.antt =====
-- Runs of the crash calculators, and their theorems at concrete inputs.
use dailydraft_fun.Prelude.{
  ℕ, ◌-◌, ◌<◌, get_elem?, ◌≡◌, ◌↔◌, refl, true, false, some, String, ok, err, from_ok, arith,
}
use dailydraft_fun.Js.Text.{text, is_unsigned_integer, is_hash, is_rules_version}
use dailydraft_fun.Js.Decimal.{big_int, to_string}
use dailydraft_fun.Js.Value.{
  int, Value, num, str, arr, obj, nil, cons, end, field, get, is_text, is_number, as_natural,
}
use dailydraft_fun.Js.Sample.{some_hash, host, literal, usdc}
use dailydraft_fun.Crash.Calculators.Types.{
  pot_limit_exceeded, StageRule, RuleSet, hash_rule_set, parse_unsigned_amount, parse_money, money,
}
use dailydraft_fun.Crash.Calculators.Rules.{
  bounded_natural, read_stage, read_stages, check_header, seal_rules, validate_calculator_rule_set,
}
use dailydraft_fun.Crash.Calculators.Rules.Sound.{
  pot_limit, IsValid, CommitsTo, validate_calculator_rule_set-IsValid,
}
use dailydraft_fun.Crash.Calculators.Calculate.{
  PotCalculation, BustCalculation, require_stage, next_pot, calculate_pot, roll_stage,
  calculate_bust,
}
use dailydraft_fun.Crash.Calculators.Calculate.Pot.{
  IsExact, IsFor, calculate_pot-IsExact, calculate_pot_limit,
}
use dailydraft_fun.Crash.Calculators.Calculate.Bust.{calculate_bust_iff, calculate_bust_mono}

abbrev stage_input : ℕ → ℕ → ℕ → String → Value
stage_input stage bps ppm limit = obj (
    field (text "stage") (num (int stage)) (
      field (text "potContributionBps") (num (int bps)) (
        field (text "bustThresholdPpm") (num (int ppm))
          (field (text "maxPotAmount") (literal limit) end))))

abbrev rules_input : Value
rules_input = obj (
    field (text "activation") (literal "fixture-only") (
      field (text "calculatorVersion") (literal "dailydraft.crash-calculators.v1") (
        field (text "constraints")
          (obj (
            field (text "bustThresholdPpm") (literal "nondecreasing") (
              field (text "maxPotAmount") (literal "nondecreasing")
                (field (text "potContributionBps") (literal "nondecreasing") end))))
          (field (text "currency") (literal "USDC") (
            field (text "decimals") (num (int 6)) (
              field (text "rounding") (literal "floor") (
                field (text "rulesVersion") (literal "crash-ci-v1") (
                  field (text "schemaVersion") (literal "dailydraft.crash-rules.v1") (
                    field (text "stages")
                      (arr (
                        cons (stage_input 1 5_000 100_000 "1000")
                          (cons (stage_input 2 10_000 400_000 "5000") nil)))
                      (field (text "rulesHash") (str some_hash) end))))))))))

abbrev number : ℕ → Value
number n = num (int n)

abbrev rules : RuleSet
unfolding validate_calculator_rule_set check_header read_stages read_stage bounded_natural
    seal_rules parse_unsigned_amount hash_rule_set is_unsigned_integer is_hash is_rules_version get
    is_text is_number big_int to_string
rules = from_ok (validate_calculator_rule_set host rules_input) tt

rules-run : validate_calculator_rule_set host rules_input ≡ ok rules
unfolding rules
rules-run = refl

abbrev first_stage : StageRule
unfolding rules require_stage
first_stage = from_ok (require_stage rules (number 1)) tt

-- 301 * 50 % is 150.5.
abbrev pot : PotCalculation
unfolding rules require_stage parse_money next_pot calculate_pot
pot = from_ok (calculate_pot host rules_input (usdc "700") (usdc "301") (number 1)) tt

pot-run : calculate_pot host rules_input (usdc "700") (usdc "301") (number 1) ≡ ok pot
unfolding pot
pot-run = refl

pot-amounts :
    (big_int pot.next_pot.amount ≡ 850) × (big_int pot.rounding_remainder_numerator ≡ 5_000)
unfolding pot money
pot-amounts = (refl, refl)

abbrev early_bust : BustCalculation
unfolding rules require_stage calculate_bust roll_stage
early_bust = from_ok (calculate_bust host rules_input (number 99_999) (number 1)) tt

early_bust-run : calculate_bust host rules_input (number 99_999) (number 1) ≡ ok early_bust
unfolding early_bust
early_bust-run = refl

abbrev late_bust : BustCalculation
unfolding early_bust
late_bust = from_ok (calculate_bust host rules_input (number 99_999) (number 2)) tt

late_bust-run : calculate_bust host rules_input (number 99_999) (number 2) ≡ ok late_bust
unfolding late_bust
late_bust-run = refl

validate_calculator_rule_set-IsValid_example :
    IsValid host rules × CommitsTo rules_input rules.rules_hash
validate_calculator_rule_set-IsValid_example =
    validate_calculator_rule_set-IsValid host rules_input rules-run

calculate_pot-IsExact_example :
    IsExact pot.canonical
    × IsFor host rules_input (usdc "700") (usdc "301") (number 1) pot.canonical
calculate_pot-IsExact_example =
    calculate_pot-IsExact host rules_input (usdc "700") (usdc "301") (number 1) pot-run

calculate_pot_limit_example :
    (calculate_pot host rules_input (usdc "900") (usdc "301") (number 1) ≡ err pot_limit_exceeded)
    ↔ (pot_limit first_stage < 1050)
unfolding first_stage parse_money
calculate_pot_limit_example =
    calculate_pot_limit host rules_input (usdc "900") (usdc "301") (number 1) rules-run refl refl
      refl

calculate_bust_iff_example :
    (r : RuleSet) × (rule : StageRule) × (validate_calculator_rule_set host rules_input ≡ ok r)
    × (get_elem? r.stages (early_bust.stage - 1) ≡ some rule)
    × (early_bust.bust_threshold_ppm ≡ rule.bust_threshold_ppm)
    × (early_bust.roll_ppm < 1_000_000)
    × (as_natural (number 99_999) ≡ some early_bust.roll_ppm)
    × (0 < early_bust.stage)
    × (as_natural (number 1) ≡ some early_bust.stage)
    × ((early_bust.busted ≡ true) ↔ (early_bust.roll_ppm < early_bust.bust_threshold_ppm))
    × (early_bust.bust_threshold_ppm ≡ 0 → early_bust.busted ≡ false)
    × (early_bust.bust_threshold_ppm ≡ 1_000_000 → early_bust.busted ≡ true)
calculate_bust_iff_example =
    calculate_bust_iff host rules_input (number 99_999) (number 1) early_bust-run

calculate_bust_mono_example : late_bust.busted ≡ true
unfolding late_bust
calculate_bust_mono_example =
    calculate_bust_mono host rules_input (number 99_999) (number 1) (number 2) early_bust-run
      late_bust-run (omega arith) refl
