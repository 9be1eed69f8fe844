-- ===== src/Fantasy/Payout/Rules.antt =====
-- apps/api/src/fantasy/fantasy-payout.ts: `validateFantasyPayoutRuleSet`.
pub mod Sound
use dailydraft_fun.Prelude.{
  ℕ, ◌+◌, Bool, true, false, not, ◌||◌, List, [], ◌∷◌, ltb, ◌==◌, length, Result, ok, err, ◌>>=◌,
  ◌>>◌, throw_if, require,
}
use dailydraft_fun.Js.Text.{Text, text, text_eq, is_hash, is_rules_version}
use dailydraft_fun.Js.Decimal.{to_string}
use dailydraft_fun.Js.Value.{Value, Fields, get, is_text, is_number, as_object, as_array, as_string}
use dailydraft_fun.Js.Canonical.{Host}
use dailydraft_fun.Fantasy.Domain.{Sport, Position, as_sport, as_position, position_mem}
use dailydraft_fun.Fantasy.Payout.Types.{
  ErrorCode, basis_points_total_mismatch, invalid_rules, rules_hash_mismatch, unsupported_rules,
  basis_points_total, max_positions, max_places_per_position, PositionRule, UnsignedRules, RuleSet,
  hash_rule_set, parse_basis_points,
}

-- The inner loop: the printed basis points, and the running total.
unfoldable pub read_places : List Value → ℕ → Result ErrorCode (List Text × ℕ)
read_places [] total = ok ([], total)
read_places (raw ∷ raws) total = do
  bps ← parse_basis_points raw
  (texts, total') ← read_places raws (total + bps)
  ok (to_string bps ∷ texts, total')

-- One turn of the outer loop, up to the places.
unfoldable pub read_position : Value → List Position → Result ErrorCode (Position × List Value)
read_position candidate seen = do
  rule ← require (as_object candidate) invalid_rules
  position ← require (as_position (get (text "position") rule)) invalid_rules
  throw_if (position_mem position seen) invalid_rules
  places ← require (as_array (get (text "placeBasisPoints") rule)) invalid_rules
  throw_if ((length places == 0) || ltb max_places_per_position (length places)) invalid_rules
  ok (position, places)

-- The outer loop.
unfoldable pub read_positions :
    List Value → List Position → ℕ → Result ErrorCode (List PositionRule × ℕ)
read_positions [] seen total = ok ([], total)
read_positions (candidate ∷ candidates) seen total = do
  (position, places) ← read_position candidate seen
  (texts, total') ← read_places places total
  (rules, total'') ← read_positions candidates (position ∷ seen) total'
  ok (record { place_basis_points = texts; position = position } ∷ rules, total'')

-- The tests before the position table.
unfoldable pub check_header : Fields → Result ErrorCode (Sport × Text × Text × List Value)
check_header rules = do
  throw_if
      (not (is_text (text "dailydraft.fantasy-payout-rules.v1") (get (text "schemaVersion") rules))
        || not
            (is_text (text "dailydraft.fantasy-payout.v1") (get (text "calculatorVersion") rules))
        || not (is_text (text "fixture-only") (get (text "activation") rules)))
      unsupported_rules
  throw_if
      (not (is_text (text "floor") (get (text "rounding") rules))
        || not (is_text (text "USDC") (get (text "currency") rules))
        || not (is_number 6 (get (text "decimals") rules))
        || not (is_text (text "10000") (get (text "basisPointsTotal") rules)))
      invalid_rules
  sport ← require (as_sport (get (text "sport") rules)) invalid_rules
  version ← require (as_string (get (text "rulesVersion") rules)) invalid_rules
  throw_if (not (is_rules_version version)) invalid_rules
  hash ← require (as_string (get (text "rulesHash") rules)) rules_hash_mismatch
  throw_if (not (is_hash hash)) rules_hash_mismatch
  positions ← require (as_array (get (text "positions") rules)) invalid_rules
  throw_if ((length positions == 0) || ltb max_positions (length positions)) invalid_rules
  ok (sport, version, hash, positions)

-- The total and the committed hash.
unfoldable pub seal_rules : Host → UnsignedRules → ℕ → Text → Result ErrorCode RuleSet
seal_rules host unsigned total hash = do
  throw_if (not (total == basis_points_total)) basis_points_total_mismatch
  throw_if (not (text_eq (hash_rule_set host unsigned) hash)) rules_hash_mismatch
  ok (record { unsigned = unsigned; rules_hash = hash_rule_set host unsigned })

-- `validateFantasyPayoutRuleSet`
unfoldable pub validate_payout_rule_set : Host → Value → Result ErrorCode RuleSet
validate_payout_rule_set host value = do
  rules ← require (as_object value) unsupported_rules
  (sport, version, hash, candidates) ← check_header rules
  (positions, total) ← read_positions candidates [] 0
  seal_rules host (record { positions = positions; rules_version = version; sport = sport }) total
      hash
