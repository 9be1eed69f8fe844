-- ===== src/Crash/Calculators/Rules.antt =====
-- apps/api/src/crash/crash-calculators.ts: `validateCrashCalculatorRuleSet`.
pub mod Sound
use dailydraft_fun.Prelude.{
  ℕ, ◌+◌, Bool, not, ◌||◌, List, [], ◌∷◌, ltb, ◌==◌, length, Result, ok, err, ◌>>=◌, ◌>>◌, throw_if,
  require,
}
use dailydraft_fun.Prelude.Int.{ℤ, pos, negsuc, ltb_ℤ}
use dailydraft_fun.Js.Text.{Text, text, text_eq, is_hash, is_rules_version}
use dailydraft_fun.Js.Decimal.{to_string}
use dailydraft_fun.Js.Value.{
  Value, Fields, get, is_text, is_number, as_object, as_array, as_string, as_natural,
}
use dailydraft_fun.Js.Canonical.{Host}
use dailydraft_fun.Crash.Calculators.Types.{
  ErrorCode, invalid_rules, rules_hash_mismatch, unsupported_rules, max_pot_contribution_bps,
  ppm_scale, max_rule_stages, StageRule, UnsignedRules, RuleSet, hash_rule_set,
  parse_unsigned_amount,
}

-- The running minima of the loop over the stages.
pub record Previous : Type 0 where
  pub bust_threshold : ℤ
  pub contribution_bps : ℤ
  pub max_pot : ℤ

abbrev pub no_previous : Previous
no_previous = record { bust_threshold = negsuc 0; contribution_bps = negsuc 0; max_pot = negsuc 0 }

-- A natural number that is an own number of the value and at most `limit`.
unfoldable pub bounded_natural : ℕ → Value → Result ErrorCode ℕ
bounded_natural limit value = do
  n ← require (as_natural value) invalid_rules
  throw_if (ltb limit n) invalid_rules
  ok n

-- One turn of the loop: the stage rule, and its pot limit as a number.
unfoldable pub read_stage : ℕ → Previous → Value → Result ErrorCode (StageRule × ℕ)
read_stage index previous candidate = do
  stage ← require (as_object candidate) invalid_rules
  throw_if (not (is_number (index + 1) (get (text "stage") stage))) invalid_rules
  bps ← bounded_natural max_pot_contribution_bps (get (text "potContributionBps") stage)
  ppm ← bounded_natural ppm_scale (get (text "bustThresholdPpm") stage)
  pot ← parse_unsigned_amount (get (text "maxPotAmount") stage) invalid_rules
  throw_if (pot == 0) invalid_rules
  throw_if
      (ltb_ℤ (pos bps) previous.contribution_bps
        || ltb_ℤ (pos ppm) previous.bust_threshold
        || ltb_ℤ (pos pot) previous.max_pot)
      invalid_rules
  ok (
    record {
      bust_threshold_ppm = ppm;
      max_pot_amount = to_string pot;
      pot_contribution_bps = bps;
      stage = index + 1;
    },
    pot,
  )

-- The loop.
unfoldable pub read_stages : ℕ → Previous → List Value → Result ErrorCode (List StageRule)
read_stages index previous [] = ok []
read_stages index previous (candidate ∷ candidates) = do
  (stage, pot) ← read_stage index previous candidate
  let next : Previous = record {
    bust_threshold = pos stage.bust_threshold_ppm;
    contribution_bps = pos stage.pot_contribution_bps;
    max_pot = pos pot;
  }
  stages ← read_stages (index + 1) next candidates
  ok (stage ∷ stages)

-- The tests before the stage list.
unfoldable pub check_header : Fields → Result ErrorCode (Text × Text × List Value)
check_header rules = do
  throw_if
      (not (is_text (text "dailydraft.crash-rules.v1") (get (text "schemaVersion") rules))
        || not (
            is_text (text "dailydraft.crash-calculators.v1") (get (text "calculatorVersion") rules))
        || not (is_text (text "fixture-only") (get (text "activation") rules)))
      unsupported_rules
  throw_if
      (not (is_text (text "USDC") (get (text "currency") rules))
        || not (is_number 6 (get (text "decimals") rules))
        || not (is_text (text "floor") (get (text "rounding") rules)))
      invalid_rules
  constraints ← require (as_object (get (text "constraints") rules)) invalid_rules
  throw_if
      (not (is_text (text "nondecreasing") (get (text "bustThresholdPpm") constraints))
        || not (is_text (text "nondecreasing") (get (text "maxPotAmount") constraints))
        || not (is_text (text "nondecreasing") (get (text "potContributionBps") constraints)))
      invalid_rules
  version ← require (as_string (get (text "rulesVersion") rules)) invalid_rules
  throw_if (not (is_rules_version version)) invalid_rules
  hash ← require (as_string (get (text "rulesHash") rules)) rules_hash_mismatch
  throw_if (not (is_hash hash)) rules_hash_mismatch
  stages ← require (as_array (get (text "stages") rules)) invalid_rules
  throw_if ((length stages == 0) || ltb max_rule_stages (length stages)) invalid_rules
  ok (version, hash, stages)

-- The committed hash.
unfoldable pub seal_rules : Host → UnsignedRules → Text → Result ErrorCode RuleSet
seal_rules host unsigned hash = do
  throw_if (not (text_eq (hash_rule_set host unsigned) hash)) rules_hash_mismatch
  ok (record { unsigned = unsigned; rules_hash = hash_rule_set host unsigned })

-- `validateCrashCalculatorRuleSet`
unfoldable pub validate_calculator_rule_set : Host → Value → Result ErrorCode RuleSet
validate_calculator_rule_set host value = do
  rules ← require (as_object value) unsupported_rules
  (version, hash, candidates) ← check_header rules
  stages ← read_stages 0 no_previous candidates
  seal_rules host (record { rules_version = version; stages = stages }) hash
