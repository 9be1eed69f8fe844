-- ===== src/Fantasy/Scoring/Tests.antt =====
-- Runs of the scoring calculator, and its theorems at concrete inputs.
use dailydraft_fun.Fantasy.Scoring.Calculate.Line.{IsStat, HasUnknown}
use dailydraft_fun.Prelude.{All, ◌≤◌, ◌≡◌, ◌↔◌, refl, String, ok, err, from_ok, require, some}
use dailydraft_fun.Prelude.Int.{pos, ◌+ℤ◌, ◌*ℤ◌, abs_ℤ}
use dailydraft_fun.Js.Text.{text, is_rules_version, is_hash, is_stat_key, text_mem}
use dailydraft_fun.Js.Signed.{big_int_ℤ, to_string_ℤ, is_signed_integer}
use dailydraft_fun.Js.Value.{
  int, Value, num, str, arr, obj, nil, cons, Fields, end, field, keys, is_text, get, is_number,
  has_own,
}
use dailydraft_fun.Js.Sample.{some_hash, host, literal}
use dailydraft_fun.Fantasy.Domain.{forward, as_position, as_sport}
use dailydraft_fun.Fantasy.Scoring.Types.{
  unknown_stat, position_not_configured, PositionRule, RuleSet, parse_signed_milli_points,
  hash_rule_set, parse_stat_units,
}
use dailydraft_fun.Fantasy.Scoring.Rules.{
  validate_scoring_rule_set, check_header, read_positions, read_position, read_components,
  read_component, seal_rules,
}
use dailydraft_fun.Fantasy.Scoring.Rules.Sound.{
  IsValid, CommitsTo, validate_scoring_rule_set-IsValid,
}
use dailydraft_fun.Fantasy.Scoring.Calculate.{
  ScoreInput, PlayerScore, find_position, all_scored, calculate_player_score, seal_score,
}
use dailydraft_fun.Fantasy.Scoring.Calculate.Bounds.{calculate_player_score_bounded}
use dailydraft_fun.Fantasy.Scoring.Calculate.Errors.{HaveUnits, calculate_player_score-unknown_stat}

abbrev component : String → String → Value
component stat weight =
    obj
      (field (text "stat") (literal stat) (field (text "milliPointsPerUnit") (literal weight) end))

abbrev rules_input : Value
rules_input = obj (
    field (text "activation") (literal "fixture-only") (
      field (text "calculatorVersion") (literal "dailydraft.fantasy-scoring.v1") (
        field (text "pointsScale") (num (int 1_000)) (
          field (text "positions")
            (arr (
              cons
                (obj (
                  field (text "baseMilliPoints") (literal "500") (
                    field (text "components")
                      (arr (
                        cons (component "goals" "4000")
                          (cons (component "yellowCards" "-1500") nil)))
                      (field (text "position") (literal "FORWARD") end))))
                nil))
            (field (text "rounding") (literal "exact") (
              field (text "rulesVersion") (literal "soccer-v1") (
                field (text "schemaVersion") (literal "dailydraft.fantasy-scoring-rules.v1") (
                  field (text "sport") (literal "SOCCER")
                    (field (text "rulesHash") (str some_hash) end)))))))))

abbrev line : Fields
line = field (text "yellowCards") (num (int 1)) (field (text "goals") (num (int 2)) end)

abbrev input : Fields → ScoreInput
input stats = record { position = literal "FORWARD"; stat_line = obj stats }

abbrev rules : RuleSet
unfolding validate_scoring_rule_set check_header is_text get is_number as_sport is_rules_version
    is_hash read_positions read_position as_position parse_signed_milli_points is_signed_integer
    big_int_ℤ read_components read_component is_stat_key text_mem seal_rules hash_rule_set
rules = from_ok (validate_scoring_rule_set host rules_input) tt

rules-run : validate_scoring_rule_set host rules_input ≡ ok rules
unfolding rules
rules-run = refl

abbrev score : PlayerScore
unfolding rules calculate_player_score find_position all_scored parse_stat_units has_own
score = from_ok (calculate_player_score host rules_input (input line)) tt

score-run : calculate_player_score host rules_input (input line) ≡ ok score
unfolding score
score-run = refl

-- 500 + 2 * 4000 - 1500.
score-total : big_int_ℤ score.total_milli_points ≡ pos 7_000
unfolding score seal_score to_string_ℤ ◌+ℤ◌ ◌*ℤ◌
score-total = refl

unknown-run :
    calculate_player_score host rules_input (input (field (text "assists") (num (int 1)) end))
    ≡ err unknown_stat
unfolding score
unknown-run = refl

abbrev forward_rule : PositionRule
unfolding rules find_position
forward_rule = from_ok (require (find_position forward rules.positions) position_not_configured) tt

forward_rule-run : find_position forward rules.positions ≡ some forward_rule
unfolding forward_rule
forward_rule-run = refl

validate_scoring_rule_set-IsValid_example :
    IsValid host rules × CommitsTo rules_input rules.rules_hash
validate_scoring_rule_set-IsValid_example =
    validate_scoring_rule_set-IsValid host rules_input rules-run

calculate_player_score_bounded_example :
    abs_ℤ (big_int_ℤ score.total_milli_points) ≤ 640_000_100_000_000
calculate_player_score_bounded_example =
    calculate_player_score_bounded host rules_input (input line) score-run

forward-known : as_position (literal "FORWARD") ≡ some forward
unfolding as_position
forward-known = refl

calculate_player_score-unknown_stat_example :
    ((calculate_player_score host rules_input (input line) ≡ err unknown_stat)
      ↔ HasUnknown (keys line) forward_rule.components)
    × (All (IsStat forward_rule.components) (keys line)
        → HaveUnits line forward_rule.components
        → (s : PlayerScore) × (calculate_player_score host rules_input (input line) ≡ ok s))
calculate_player_score-unknown_stat_example =
    calculate_player_score-unknown_stat host rules_input (input line) rules-run forward-known
      forward_rule-run refl
