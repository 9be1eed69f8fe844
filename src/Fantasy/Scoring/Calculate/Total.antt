-- ===== src/Fantasy/Scoring/Calculate/Total.antt =====
-- The total of a score, over the statistics that the line gives.
use dailydraft_fun.Fantasy.Scoring.Calculate.Line.{
  HasUnits, IsStat, raw_units-HasUnits, all_scored-IsStat,
}
use dailydraft_fun.Prelude.{
  All, ◌≤◌, ◌≡◌, refl, sym, ap, ◌∙◌, not, some, List, [], ◌∷◌, arith, ok, throw_if, throw_if-eq-ok,
  require, require-eq-ok, from_bind, ok-injective,
}
use dailydraft_fun.Prelude.Int.{ℤ, pos, ◌+ℤ◌, ◌*ℤ◌, abs_ℤ, +ℤ_assoc, +ℤ-zero_right}
use dailydraft_fun.Js.Signed.{big_int_ℤ, big_int_ℤ-to_string_ℤ}
use dailydraft_fun.Js.Value.{Value, obj, Fields, keys, as_object}
use dailydraft_fun.Js.Canonical.{Host}
use dailydraft_fun.Fantasy.Domain.{as_position}
use dailydraft_fun.Fantasy.Scoring.Types.{
  unknown_stat, invalid_input, position_not_configured, Component, PositionRule, RuleSet,
  parse_stat_units, parse_stat_units-le,
}
use dailydraft_fun.Fantasy.Scoring.Rules.{validate_scoring_rule_set}
use dailydraft_fun.Fantasy.Scoring.Rules.Sound.{weight, base}
use dailydraft_fun.Fantasy.Scoring.Calculate.{
  ScoreInput, ComponentResult, PlayerScore, find_position, all_scored, raw_units, score_component,
  score_components, seal_score, score_position, calculate_player_score,
}

-- The points of the entries, added from the last.
abbrev pub points : List ComponentResult → ℤ
points [] = pos 0
points (r ∷ rs) = big_int_ℤ r.milli_points +ℤ points rs

-- An entry of the breakdown for a statistic.
abbrev pub IsScore : Fields → Component → ComponentResult → Type 0
IsScore line c r =
    (r.stat ≡ c.stat)
    × HasUnits line c.stat r.units
    × (abs_ℤ r.units ≤ 100_000)
    × (r.milli_points_per_unit ≡ c.milli_points_per_unit)
    × (big_int_ℤ r.milli_points ≡ r.units *ℤ weight c)

-- The entries tell the statistics of the position in their order, each with its units and its points.
abbrev pub AreScores : Fields → List Component → List ComponentResult → Type 0
AreScores line [] [] = Unit
AreScores line [] (r ∷ rs) = ⊥
AreScores line (c ∷ cs) [] = ⊥
AreScores line (c ∷ cs) (r ∷ rs) = IsScore line c r × AreScores line cs rs

score_component_lem :
    (line : Fields) (c : Component) {r : ComponentResult}
    → score_component line c ≡ ok r
    → IsScore line c r
unfolding score_component
score_component_lem line c h =
    from_bind (parse_stat_units (raw_units line c.stat)) _ h λ z parsed h₁.
      rw (sym (ok-injective h₁)) (
        refl,
        raw_units-HasUnits line c.stat parsed,
        parse_stat_units-le (raw_units line c.stat) parsed,
        refl,
        big_int_ℤ-to_string_ℤ (z *ℤ weight c),
      )

score_components_lem :
    (line : Fields) (cs : List Component) (total : ℤ) {out : List ComponentResult × ℤ}
    → score_components line cs total ≡ ok out
    → AreScores line cs out.0 × (out.1 ≡ total +ℤ points out.0)
unfolding score_components
score_components_lem line [] total h = rw (sym (ok-injective h)) (tt, sym (+ℤ-zero_right total))
score_components_lem line (c ∷ cs) total h = from_bind (score_component line c) _ h λ r scored h₁.
    from_bind (score_components line cs (total +ℤ (r.units *ℤ weight c))) _ h₁ λ rest loop h₂.
      let (scores, sum) = score_components_lem line cs (total +ℤ (r.units *ℤ weight c)) loop in
      let entry = score_component_lem line c scored in
      let (_, _, _, _, printed) = entry in
      let first = ap (λ u. total +ℤ u +ℤ points rest.0) (sym printed) in
      rw (sym (ok-injective h₂))
        ((entry, scores), sum ∙ first ∙ +ℤ_assoc total (big_int_ℤ r.milli_points) (points rest.0))

-- What a score is computed from.
pub record IsScored (host : Host) (rules_input : Value) (input : ScoreInput) (score : PlayerScore)
    : Type 0 where
  pub rules : RuleSet
  pub rule : PositionRule
  pub line : Fields
  pub validated : validate_scoring_rule_set host rules_input ≡ ok rules
  pub position : as_position input.position ≡ some score.position
  pub configured : find_position score.position rules.positions ≡ some rule
  pub stat_line : input.stat_line ≡ obj line
  pub known : All (IsStat rule.components) (keys line)
  pub breakdown : AreScores line rule.components score.breakdown
  pub total : big_int_ℤ score.total_milli_points ≡ base rule +ℤ points score.breakdown
  pub rules_hash : score.rules_hash ≡ rules.rules_hash

as_object-eq :
    (value : Value) {fields : Fields} → as_object value ≡ some fields → value ≡ obj fields
as_object-eq value h = ground arith

pub calculate_player_score-IsScored :
    (host : Host) (rules_input : Value) (input : ScoreInput) {score : PlayerScore}
    → calculate_player_score host rules_input input ≡ ok score
    → IsScored host rules_input input score
unfolding calculate_player_score score_position seal_score
calculate_player_score-IsScored host rules_input input h =
    from_bind (validate_scoring_rule_set host rules_input) _ h λ rules validated h₁.
      from_bind (require (as_position input.position) invalid_input) _ h₁ λ position known h₂.
        from_bind (require (find_position position rules.positions) position_not_configured) _ h₂
          λ rule found h₃.
            from_bind (require (as_object input.stat_line) invalid_input) _ h₃ λ line object h₄.
              from_bind (throw_if (not (all_scored (keys line) rule.components)) unknown_stat) _ h₄
                λ _ scored h₅.
                  from_bind (score_components line rule.components (base rule)) _ h₅ λ out loop h₆.
                    let (scores, sum) =
                      score_components_lem line rule.components (base rule) loop in
                    rw (sym (ok-injective h₆)) (record {
                      rules = rules;
                      rule = rule;
                      line = line;
                      validated = validated;
                      position = require-eq-ok (as_position input.position) invalid_input known;
                      configured =
                          require-eq-ok (find_position position rules.positions)
                            position_not_configured found;
                      stat_line =
                          as_object-eq input.stat_line
                            (require-eq-ok (as_object input.stat_line) invalid_input object);
                      known = all_scored-IsStat (keys line) rule.components (
                          ground (
                            arith,
                            throw_if-eq-ok (not (all_scored (keys line) rule.components))
                                unknown_stat scored,
                          ));
                      breakdown = scores;
                      total = big_int_ℤ-to_string_ℤ out.1 ∙ sum;
                      rules_hash = refl;
                    })
