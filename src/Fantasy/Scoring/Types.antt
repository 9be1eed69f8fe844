-- ===== src/Fantasy/Scoring/Types.antt =====
-- apps/api/src/fantasy/fantasy-scoring.ts: the scoring table, its encoding, and the bounded parsers.
use dailydraft_fun.Prelude.{
  ℕ, ◌≤◌, ◌≡◌, not, ◌||◌, Option, none, some, List, [], ◌∷◌, arith, Result, ok, ◌>>=◌, ◌>>◌,
  throw_if, require,
}
use dailydraft_fun.Prelude.Int.{ℤ, pos, negsuc, neg_ℤ, abs_ℤ, ltb_ℤ}
use dailydraft_fun.Js.Text.{Text, text}
use dailydraft_fun.Js.Signed.{is_signed_integer, big_int_ℤ}
use dailydraft_fun.Js.Value.{
  Number, int, neg_int, Value, num, str, arr, obj, Items, nil, cons, Fields, end, field, as_string,
}
use dailydraft_fun.Js.Canonical.{Host, hash_value}
use dailydraft_fun.Fantasy.Domain.{Sport, Position, sport_text, position_text}

pub data ErrorCode : Type 0 where
  invalid_input invalid_rules position_not_configured : ErrorCode
  rules_hash_mismatch unknown_stat unsupported_rules : ErrorCode

abbrev pub points_scale : ℕ
points_scale = 1_000

abbrev pub max_components_per_position : ℕ
max_components_per_position = 64

abbrev pub max_stat_units : ℕ
max_stat_units = 100_000

abbrev pub max_milli_points_per_unit : ℕ
max_milli_points_per_unit = 100_000_000

pub record Component : Type 0 where
  pub milli_points_per_unit : Text
  pub stat : Text

pub record PositionRule : Type 0 where
  pub base_milli_points : Text
  pub components : List Component
  pub position : Position

-- The fields of `UnsignedFantasyScoringRuleSet` whose type is not one literal.
pub record UnsignedRules : Type 0 where
  pub positions : List PositionRule
  pub rules_version : Text
  pub sport : Sport

pub record RuleSet : Type 0 where
  pub unsigned : UnsignedRules
  pub open unsigned use *
  pub rules_hash : Text

components_value : List Component → Items
components_value [] = nil
components_value (c ∷ cs) =
    cons
      (obj (
        field (text "milliPointsPerUnit") (str c.milli_points_per_unit)
          (field (text "stat") (str c.stat) end)))
      (components_value cs)

positions_value : List PositionRule → Items
unfolding components_value
positions_value [] = nil
positions_value (r ∷ rs) =
    cons
      (obj (
        field (text "baseMilliPoints") (str r.base_milli_points) (
          field (text "components") (arr (components_value r.components))
            (field (text "position") (str (position_text r.position)) end))))
      (positions_value rs)

-- The properties of an `UnsignedFantasyScoringRuleSet`, before other ones.
unfoldable pub rules_fields : UnsignedRules → Fields → Fields
unfolding positions_value
rules_fields u rest = field (text "activation") (str (text "fixture-only")) (
    field (text "calculatorVersion") (str (text "dailydraft.fantasy-scoring.v1")) (
      field (text "pointsScale") (num (int points_scale)) (
        field (text "positions") (arr (positions_value u.positions)) (
          field (text "rounding") (str (text "exact")) (
            field (text "rulesVersion") (str u.rules_version) (
              field (text "schemaVersion") (str (text "dailydraft.fantasy-scoring-rules.v1"))
                (field (text "sport") (str (sport_text u.sport)) rest)))))))

-- `hashFantasyScoringRuleSet`
unfoldable pub hash_rule_set : Host → UnsignedRules → Text
unfolding rules_fields hash_value
hash_rule_set host u = hash_value host (obj (rules_fields u end))

-- `parseSignedMilliPoints`
unfoldable pub parse_signed_milli_points : Value → Result ErrorCode ℤ
parse_signed_milli_points value = do
  t ← require (as_string value) invalid_rules
  throw_if (not (is_signed_integer t)) invalid_rules
  let amount = big_int_ℤ t
  throw_if
      (ltb_ℤ (pos max_milli_points_per_unit) amount
        || ltb_ℤ amount (neg_ℤ (pos max_milli_points_per_unit)))
      invalid_rules
  ok amount

-- `typeof value === 'number' && Number.isInteger(value) && !Object.is(value, -0)`, with the integer
abbrev pub as_integer : Value → Option ℤ
as_integer (num (int n)) = some (pos n)
as_integer (num (neg_int n)) = some (negsuc n)
as_integer _ = none

-- The number that an integer is.
abbrev pub number_of : ℤ → Number
number_of (pos n) = int n
number_of (negsuc n) = neg_int n

-- `parseStatUnits`
unfoldable pub parse_stat_units : Value → Result ErrorCode ℤ
parse_stat_units value = do
  units ← require (as_integer value) invalid_input
  throw_if (ltb_ℤ units (neg_ℤ (pos max_stat_units)) || ltb_ℤ (pos max_stat_units) units)
      invalid_input
  ok units

pub parse_signed_milli_points-le :
    (value : Value) {z : ℤ} → parse_signed_milli_points value ≡ ok z → abs_ℤ z ≤ 100_000_000
unfolding parse_signed_milli_points
parse_signed_milli_points-le value h = ground arith

pub parse_stat_units-le :
    (value : Value) {z : ℤ} → parse_stat_units value ≡ ok z → abs_ℤ z ≤ 100_000
unfolding parse_stat_units
parse_stat_units-le value h = ground arith
