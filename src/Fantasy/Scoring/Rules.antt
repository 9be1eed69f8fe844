-- ===== src/Fantasy/Scoring/Rules.antt =====
-- apps/api/src/fantasy/fantasy-scoring.ts: `validateFantasyScoringRuleSet`.
pub mod Sound
use dailydraft_fun.Prelude.{
  ℕ, Bool, true, false, not, ◌||◌, List, [], ◌∷◌, ltb, ◌==◌, length, Result, ok, err, ◌>>=◌, ◌>>◌,
  throw_if, require,
}
use dailydraft_fun.Prelude.Int.{ℤ}
use dailydraft_fun.Js.Text.{Text, text, text_eq, text_mem, is_hash, is_rules_version, is_stat_key}
use dailydraft_fun.Js.Signed.{to_string_ℤ}
use dailydraft_fun.Js.Value.{Value, Fields, get, is_text, is_number, as_object, as_array, as_string}
use dailydraft_fun.Js.Canonical.{Host}
use dailydraft_fun.Fantasy.Domain.{Sport, Position, as_sport, as_position, position_mem}
use dailydraft_fun.Fantasy.Scoring.Types.{
  ErrorCode, invalid_rules, rules_hash_mismatch, unsupported_rules, points_scale,
  max_components_per_position, Component, PositionRule, UnsignedRules, RuleSet, hash_rule_set,
  parse_signed_milli_points,
}

-- One turn of the inner loop.
unfoldable pub read_component : Value → List Text → Result ErrorCode Component
read_component raw seen = do
  component ← require (as_object raw) invalid_rules
  stat ← require (as_string (get (text "stat") component)) invalid_rules
  throw_if (not (is_stat_key stat)) invalid_rules
  throw_if (text_mem stat seen) invalid_rules
  weight ← parse_signed_milli_points (get (text "milliPointsPerUnit") component)
  ok (record { milli_points_per_unit = to_string_ℤ weight; stat = stat })

-- The inner loop.
unfoldable pub read_components : List Value → List Text → Result ErrorCode (List Component)
read_components [] seen = ok []
read_components (raw ∷ raws) seen = do
  component ← read_component raw seen
  components ← read_components raws (component.stat ∷ seen)
  ok (component ∷ components)

-- One turn of the outer loop, up to the components.
unfoldable pub read_position : Value → List Position → Result ErrorCode (Position × ℤ × List Value)
read_position candidate seen = do
  rule ← require (as_object candidate) invalid_rules
  position ← require (as_position (get (text "position") rule)) invalid_rules
  throw_if (position_mem position seen) invalid_rules
  base ← parse_signed_milli_points (get (text "baseMilliPoints") rule)
  components ← require (as_array (get (text "components") rule)) invalid_rules
  throw_if (ltb max_components_per_position (length components)) invalid_rules
  ok (position, base, components)

-- The outer loop.
unfoldable pub read_positions : List Value → List Position → Result ErrorCode (List PositionRule)
read_positions [] seen = ok []
read_positions (candidate ∷ candidates) seen = do
  (position, base, raws) ← read_position candidate seen
  components ← read_components raws []
  rules ← read_positions candidates (position ∷ seen)
  ok (
      record { base_milli_points = to_string_ℤ base; components = components; position = position }
      ∷ rules)

-- The tests before the position table.
unfoldable pub check_header : Fields → Result ErrorCode (Sport × Text × Text × List Value)
check_header rules = do
  throw_if
      (not (is_text (text "dailydraft.fantasy-scoring-rules.v1") (get (text "schemaVersion") rules))
        || not
            (is_text (text "dailydraft.fantasy-scoring.v1") (get (text "calculatorVersion") rules))
        || not (is_text (text "fixture-only") (get (text "activation") rules)))
      unsupported_rules
  throw_if
      (not (is_number points_scale (get (text "pointsScale") rules))
        || not (is_text (text "exact") (get (text "rounding") rules)))
      invalid_rules
  sport ← require (as_sport (get (text "sport") rules)) invalid_rules
  version ← require (as_string (get (text "rulesVersion") rules)) invalid_rules
  throw_if (not (is_rules_version version)) invalid_rules
  hash ← require (as_string (get (text "rulesHash") rules)) rules_hash_mismatch
  throw_if (not (is_hash hash)) rules_hash_mismatch
  positions ← require (as_array (get (text "positions") rules)) invalid_rules
  throw_if (length positions == 0) invalid_rules
  ok (sport, version, hash, positions)

-- The committed hash.
unfoldable pub seal_rules : Host → UnsignedRules → Text → Result ErrorCode RuleSet
seal_rules host unsigned hash = do
  throw_if (not (text_eq (hash_rule_set host unsigned) hash)) rules_hash_mismatch
  ok (record { unsigned = unsigned; rules_hash = hash_rule_set host unsigned })

-- `validateFantasyScoringRuleSet`
unfoldable pub validate_scoring_rule_set : Host → Value → Result ErrorCode RuleSet
validate_scoring_rule_set host value = do
  rules ← require (as_object value) unsupported_rules
  (sport, version, hash, candidates) ← check_header rules
  positions ← read_positions candidates []
  seal_rules host (record { positions = positions; rules_version = version; sport = sport }) hash
