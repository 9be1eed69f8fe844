-- ===== src/Fantasy/Scoring/Calculate/Errors.antt =====
-- The refusals of a score for rules and a position that are in order.
use dailydraft_fun.Fantasy.Scoring.Calculate.Line.{
  HasUnits, IsStat, HasUnknown, HasUnits-raw_units, all_scored-IsStat, all_scored-HasUnknown,
  HasUnknown-absurd,
}
use dailydraft_fun.Prelude.{
  ◌≤◌, All, ◌≡◌, ◌↔◌, refl, inl, inr, some, List, [], ◌∷◌, arith, ok, err, Bool-cases, bind-err,
}
use dailydraft_fun.Prelude.Int.{ℤ, abs_ℤ, ◌+ℤ◌, ◌*ℤ◌}
use dailydraft_fun.Js.Value.{Value, obj, Fields, keys}
use dailydraft_fun.Js.Canonical.{Host}
use dailydraft_fun.Fantasy.Domain.{Position, as_position}
use dailydraft_fun.Fantasy.Scoring.Types.{
  ErrorCode, invalid_input, unknown_stat, Component, PositionRule, RuleSet, parse_stat_units,
}
use dailydraft_fun.Fantasy.Scoring.Rules.{validate_scoring_rule_set}
use dailydraft_fun.Fantasy.Scoring.Rules.Sound.{weight, base}
use dailydraft_fun.Fantasy.Scoring.Calculate.{
  ScoreInput, PlayerScore, ComponentResult, find_position, all_scored, raw_units, score_component,
  score_components, score_position, calculate_player_score,
}

-- Every statistic of the position has bounded integer units in the line, or none.
abbrev pub HaveUnits : Fields → List Component → Type 0
HaveUnits line [] = Unit
HaveUnits line (c ∷ cs) =
    ((z : ℤ) × (abs_ℤ z ≤ 100_000) × HasUnits line c.stat z) × HaveUnits line cs

score_component-err :
    (line : Fields) (c : Component) {e : ErrorCode}
    → score_component line c ≡ err e
    → e ≡ invalid_input
unfolding score_component parse_stat_units
score_component-err line c h = ground arith

score_components-err :
    (line : Fields) (cs : List Component) (total : ℤ) {e : ErrorCode}
    → score_components line cs total ≡ err e
    → e ≡ invalid_input
unfolding score_components
score_components-err line [] total h = cc
score_components-err line (c ∷ cs) total h = elim (bind-err (score_component line c) _ h) [
  | inl refused ↦ score_component-err line c refused
  | inr (r, _, h₁) ↦
      elim (bind-err (score_components line cs (total +ℤ (r.units *ℤ weight c))) _ h₁) [
        | inl refused ↦ score_components-err line cs (total +ℤ (r.units *ℤ weight c)) refused
        | inr (_, _, h₂) ↦ absurd (cc h₂)
      ]
]

score_component-ok :
    (line : Fields) (c : Component) {z : ℤ}
    → parse_stat_units (raw_units line c.stat) ≡ ok z
    → (r : ComponentResult) × (score_component line c ≡ ok r)
unfolding score_component
score_component-ok line c parsed = rw parsed (_, refl)

score_components-total :
    (line : Fields) (cs : List Component) (total : ℤ)
    → HaveUnits line cs
    → (out : List ComponentResult × ℤ) × (score_components line cs total ≡ ok out)
unfolding score_components
score_components-total line [] total units = (([], total), refl)
score_components-total line (c ∷ cs) total ((z, small, has), units) =
    let (r, first) = score_component-ok line c (HasUnits-raw_units line c.stat z small has) in
    let (out, rest) = score_components-total line cs (total +ℤ (r.units *ℤ weight c)) units in
    rw first (rw rest ((r ∷ out.0, out.1), refl))

-- For a committed table that has a rule for the position, and a line that is an object, the calculation
-- refuses a statistic as unknown exactly if a key of the line is the statistic of no component of the rule;
-- and it gives a score if every key is the statistic of a component, and the line gives to every statistic of
-- the rule an integer of at most 100000 in size, or has no such key.
pub calculate_player_score-unknown_stat :
    (host : Host) (rules_input : Value) (input : ScoreInput) {rules : RuleSet} {position : Position}
    {rule : PositionRule} {line : Fields}
    → validate_scoring_rule_set host rules_input ≡ ok rules
    → as_position input.position ≡ some position
    → find_position position rules.positions ≡ some rule
    → input.stat_line ≡ obj line
    → ((calculate_player_score host rules_input input ≡ err unknown_stat)
        ↔ HasUnknown (keys line) rule.components)
      × (All (IsStat rule.components) (keys line)
          → HaveUnits line rule.components
          → (score : PlayerScore) × (calculate_player_score host rules_input input ≡ ok score))
unfolding calculate_player_score score_position
calculate_player_score-unknown_stat host rules_input input {rules} {position} {rule} {line} valid
      known found object =
    rw valid (
      rw known (
        rw found (
          rw object (elim (Bool-cases (all_scored (keys line) rule.components)) [
            | inl scored ↦ rw scored (
              (
                λ h. elim (bind-err (score_components line rule.components (base rule)) _ h) [
                  | inl refused ↦
                      absurd (cc (score_components-err line rule.components (base rule) refused))
                  | inr (_, _, h₁) ↦ absurd (cc h₁)
                ],
                λ unknown. absurd (
                    HasUnknown-absurd (keys line) rule.components
                      (all_scored-IsStat (keys line) rule.components scored) unknown),
              ),
              λ _ units.
                  let (out, loop) = score_components-total line rule.components (base rule) units in
                  rw loop (_, refl),
            )
            | inr unscored ↦
                let unknown = all_scored-HasUnknown (keys line) rule.components unscored in
                rw unscored (
                  (λ _. unknown, λ _. refl),
                  λ known. absurd (HasUnknown-absurd (keys line) rule.components known unknown),
                )
          ]))))
