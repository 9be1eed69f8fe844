-- ===== src/Fantasy/Payout/Types.antt =====
-- apps/api/src/fantasy/fantasy-payout.ts: the rule table, its encoding, and the bounded parsers.
use dailydraft_fun.Prelude.{
  ℕ, ◌≤◌, ◌≡◌, not, ◌||◌, List, [], ◌∷◌, arith, ltb, Result, ok, ◌>>=◌, ◌>>◌, throw_if, require,
}
use dailydraft_fun.Js.Text.{Text, text, is_unsigned_integer}
use dailydraft_fun.Js.Decimal.{big_int}
use dailydraft_fun.Js.Value.{
  int, Value, num, str, arr, obj, Items, nil, cons, end, field, get, is_text, is_number, as_object,
  as_string,
}
use dailydraft_fun.Js.Canonical.{Host, hash_value}
use dailydraft_fun.Domain.{Money}
use dailydraft_fun.Fantasy.Domain.{Sport, Position, sport_text, position_text, fantasy_money}

pub data ErrorCode : Type 0 where
  basis_points_total_mismatch duplicate_placement invalid_input invalid_rules : ErrorCode
  place_not_configured position_not_configured rules_hash_mismatch unsupported_rules : ErrorCode

abbrev pub basis_points_total : ℕ
basis_points_total = 10_000

abbrev pub max_positions : ℕ
max_positions = 8

abbrev pub max_places_per_position : ℕ
max_places_per_position = 32

abbrev pub max_holders_per_place : ℕ
max_holders_per_place = 4_096

abbrev pub max_place_basis_points : ℕ
max_place_basis_points = 10_000

abbrev pub max_money_amount : ℕ
max_money_amount = 79_228_162_514_264_337_593_543_950_335

abbrev pub max_eligible_shares : ℕ
max_eligible_shares = 1_000_000_000

pub record PositionRule : Type 0 where
  pub place_basis_points : List Text
  pub position : Position

-- The fields of `UnsignedFantasyPayoutRuleSet` whose type is not one literal.
pub record UnsignedRules : Type 0 where
  pub positions : List PositionRule
  pub rules_version : Text
  pub sport : Sport

pub record RuleSet : Type 0 where
  pub unsigned : UnsignedRules
  pub open unsigned use *
  pub rules_hash : Text

texts_value : List Text → Items
texts_value [] = nil
texts_value (t ∷ ts) = cons (str t) (texts_value ts)

positions_value : List PositionRule → Items
unfolding texts_value
positions_value [] = nil
positions_value (r ∷ rs) =
    cons
      (obj (
        field (text "placeBasisPoints") (arr (texts_value r.place_basis_points))
          (field (text "position") (str (position_text r.position)) end)))
      (positions_value rs)

-- The JavaScript object that an `UnsignedFantasyPayoutRuleSet` is.
unfoldable pub rules_value : UnsignedRules → Value
unfolding positions_value
rules_value u = obj (
    field (text "activation") (str (text "fixture-only")) (
      field (text "basisPointsTotal") (str (text "10000")) (
        field (text "calculatorVersion") (str (text "dailydraft.fantasy-payout.v1")) (
          field (text "currency") (str (text "USDC")) (
            field (text "decimals") (num (int 6)) (
              field (text "positions") (arr (positions_value u.positions)) (
                field (text "rounding") (str (text "floor")) (
                  field (text "rulesVersion") (str u.rules_version) (
                    field (text "schemaVersion") (str (text "dailydraft.fantasy-payout-rules.v1"))
                      (field (text "sport") (str (sport_text u.sport)) end))))))))))

unfoldable pub hash_rule_set : Host → UnsignedRules → Text
unfolding rules_value hash_value
hash_rule_set host u = hash_value host (rules_value u)

-- `parseBasisPoints`
unfoldable pub parse_basis_points : Value → Result ErrorCode ℕ
parse_basis_points value = do
  t ← require (as_string value) invalid_rules
  throw_if (not (is_unsigned_integer t)) invalid_rules
  throw_if (ltb max_place_basis_points (big_int t)) invalid_rules
  ok (big_int t)

-- `parseUnsignedAmount`
unfoldable pub parse_unsigned_amount : ℕ → Value → Result ErrorCode ℕ
parse_unsigned_amount limit value = do
  t ← require (as_string value) invalid_input
  throw_if (not (is_unsigned_integer t)) invalid_input
  throw_if (ltb limit (big_int t)) invalid_input
  ok (big_int t)

-- `parseMoney`
unfoldable pub parse_money : Value → Result ErrorCode Money
unfolding parse_unsigned_amount
parse_money value = do
  money ← require (as_object value) invalid_input
  throw_if
      (not (is_text (text "USDC") (get (text "currency") money))
        || not (is_number 6 (get (text "decimals") money)))
      invalid_input
  amount ← parse_unsigned_amount max_money_amount (get (text "amount") money)
  ok (fantasy_money amount)

pub parse_basis_points-le : (value : Value) {n : ℕ} → parse_basis_points value ≡ ok n → n ≤ 10_000
unfolding parse_basis_points
parse_basis_points-le value h = ground arith

pub parse_unsigned_amount-le :
    (limit : ℕ) (value : Value) {n : ℕ} → parse_unsigned_amount limit value ≡ ok n → n ≤ limit
unfolding parse_unsigned_amount
parse_unsigned_amount-le limit value h = ground arith
