-- ===== src/Fantasy/Scoring/Calculate.antt =====
-- apps/api/src/fantasy/fantasy-scoring.ts: `calculateFantasyPlayerScore`.
pub mod Line
pub mod Total
pub mod Bounds
pub mod Errors
use dailydraft_fun.Prelude.{
  ℕ, Bool, true, false, not, ◌&&◌, Option, none, some, List, [], ◌∷◌, map, if◌then◌else◌, Result,
  ok, err, ◌>>=◌, ◌>>◌, throw_if, require,
}
use dailydraft_fun.Prelude.Int.{ℤ, ◌+ℤ◌, ◌*ℤ◌}
use dailydraft_fun.Js.Text.{Text, text, text_mem}
use dailydraft_fun.Js.Signed.{big_int_ℤ, to_string_ℤ}
use dailydraft_fun.Js.Value.{
  int, Value, num, str, arr, obj, Items, nil, cons, Fields, end, field, get, has_own, keys,
  as_object,
}
use dailydraft_fun.Js.Canonical.{Host, hash_value}
use dailydraft_fun.Fantasy.Domain.{
  Sport, Position, as_position, position_eq, sport_text, position_text,
}
use dailydraft_fun.Fantasy.Scoring.Types.{
  ErrorCode, invalid_input, position_not_configured, unknown_stat, points_scale, Component,
  PositionRule, RuleSet, number_of, parse_stat_units,
}
use dailydraft_fun.Fantasy.Scoring.Rules.{validate_scoring_rule_set}

-- `FantasyScoreInput`, whose fields the code checks
pub record ScoreInput : Type 0 where
  pub position : Value
  pub stat_line : Value

pub record ComponentResult : Type 0 where
  pub milli_points : Text
  pub milli_points_per_unit : Text
  pub stat : Text
  pub units : ℤ

-- The fields of `FantasyPlayerScoreResult` whose type is not one literal, less the calculation hash.
pub record CanonicalScore : Type 0 where
  pub breakdown : List ComponentResult
  pub position : Position
  pub rules_hash : Text
  pub rules_version : Text
  pub sport : Sport
  pub total_milli_points : Text

pub record PlayerScore : Type 0 where
  pub canonical : CanonicalScore
  pub open canonical use *
  pub calculation_hash : Text

-- `rules.positions.find((rule) => rule.position === input.position)`
unfoldable pub find_position : Position → List PositionRule → Option PositionRule
find_position p [] = none
find_position p (r ∷ rs) = if position_eq r.position p then some r else find_position p rs

-- Every key of the line is a statistic of the position.
unfoldable pub all_scored : List Text → List Component → Bool
unfolding text_mem
all_scored [] cs = true
all_scored (k ∷ ks) cs = text_mem k (map (λ c. c.stat) cs) && all_scored ks cs

-- `Object.hasOwn(statLine, stat) ? statLine[stat] : 0`
unfoldable pub raw_units : Fields → Text → Value
raw_units line stat = if has_own stat line then get stat line else num (int 0)

-- One turn of the loop: the entry of the breakdown.
unfoldable pub score_component : Fields → Component → Result ErrorCode ComponentResult
unfolding raw_units
score_component line c = do
  units ← parse_stat_units (raw_units line c.stat)
  ok (record {
    milli_points = to_string_ℤ (units *ℤ big_int_ℤ c.milli_points_per_unit);
    milli_points_per_unit = c.milli_points_per_unit;
    stat = c.stat;
    units = units;
  })

-- The loop, from a running total.
unfoldable pub score_components :
    Fields → List Component → ℤ → Result ErrorCode (List ComponentResult × ℤ)
unfolding score_component
score_components line [] total = ok ([], total)
score_components line (c ∷ cs) total = do
  result ← score_component line c
  (results, total') ←
      score_components line cs (total +ℤ (result.units *ℤ big_int_ℤ c.milli_points_per_unit))
  ok (result ∷ results, total')

breakdown_value : List ComponentResult → Items
breakdown_value [] = nil
breakdown_value (r ∷ rs) =
    cons
      (obj (
        field (text "milliPoints") (str r.milli_points) (
          field (text "milliPointsPerUnit") (str r.milli_points_per_unit) (
            field (text "stat") (str r.stat)
              (field (text "units") (num (number_of r.units)) end)))))
      (breakdown_value rs)

-- The object `canonical` of the code.
unfoldable pub score_value : CanonicalScore → Value
unfolding breakdown_value
score_value s = obj (
    field (text "breakdown") (arr (breakdown_value s.breakdown)) (
      field (text "calculatorVersion") (str (text "dailydraft.fantasy-scoring.v1")) (
        field (text "pointsScale") (num (int points_scale)) (
          field (text "position") (str (position_text s.position)) (
            field (text "rounding") (str (text "exact")) (
              field (text "rulesHash") (str s.rules_hash) (
                field (text "rulesVersion") (str s.rules_version) (
                  field (text "sport") (str (sport_text s.sport))
                    (field (text "totalMilliPoints") (str s.total_milli_points) end)))))))))

-- `Object.freeze({ ...canonical, calculationHash })`
unfoldable pub seal_score : Host → CanonicalScore → PlayerScore
unfolding score_value hash_value
seal_score host s = record { canonical = s; calculation_hash = hash_value host (score_value s) }

-- The calculation for the rule of the position.
unfoldable pub score_position :
    Host → RuleSet → Position → PositionRule → Value → Result ErrorCode PlayerScore
unfolding score_components
score_position host rules position rule stat_line = do
  line ← require (as_object stat_line) invalid_input
  throw_if (not (all_scored (keys line) rule.components)) unknown_stat
  (breakdown, total) ← score_components line rule.components (big_int_ℤ rule.base_milli_points)
  ok (
      seal_score host (record {
        breakdown = breakdown;
        position = position;
        rules_hash = rules.rules_hash;
        rules_version = rules.rules_version;
        sport = rules.sport;
        total_milli_points = to_string_ℤ total;
      }))

-- `calculateFantasyPlayerScore`
unfoldable pub calculate_player_score : Host → Value → ScoreInput → Result ErrorCode PlayerScore
unfolding score_position
calculate_player_score host rules_input input = do
  rules ← validate_scoring_rule_set host rules_input
  position ← require (as_position input.position) invalid_input
  rule ← require (find_position position rules.positions) position_not_configured
  score_position host rules position rule input.stat_line
