-- ===== src/Crash/Calculators/Calculate/Pot.antt =====
-- The pot after a stage: exact floor arithmetic, inside the limits, and the only way to exceed them.
use dailydraft_fun.Prelude.{
  ℕ, ◌+◌, ◌-◌, ◌*◌, ◌/◌, ◌^◌, ◌≤◌, ◌<◌, ◌≡◌, ◌↔◌, refl, sym, ap, ◌∙◌, ◌||◌, arith, ltb, ◌==◌,
  get_elem?, some, ok, err, from_bind, ok-injective, require, require-eq-ok, throw_if,
  throw_if-eq-ok,
}
use dailydraft_fun.Js.Decimal.{big_int, big_int-to_string}
use dailydraft_fun.Js.Value.{Value, as_natural}
use dailydraft_fun.Js.Canonical.{Host}
use dailydraft_fun.Crash.Calculators.Types.{
  max_u64, pot_limit_exceeded, StageRule, RuleSet, parse_money, money,
}
use dailydraft_fun.Crash.Calculators.Rules.{validate_calculator_rule_set}
use dailydraft_fun.Crash.Calculators.Rules.Sound.{
  pot_limit, validate_calculator_rule_set-IsValid, chain_stage,
}
use dailydraft_fun.Crash.Calculators.Calculate.{
  CanonicalPot, PotCalculation, require_stage, next_pot, calculate_pot,
}

-- The stage that is found is the one asked for.
pub require_stage_lem :
    (rules : RuleSet) (value : Value) {rule : StageRule}
    → require_stage rules value ≡ ok rule
    → (as_natural value ≡ some rule.stage)
      × (0 < rule.stage)
      × (get_elem? rules.stages (rule.stage - 1) ≡ some rule)
unfolding require_stage
require_stage_lem rules value h = from_bind (require (as_natural value) _) _ h λ stage asked h₁.
    from_bind (throw_if (stage == 0) _) _ h₁ λ _ _ h₂.
      from_bind (require (get_elem? rules.stages (stage - 1)) _) _ h₂ λ rule found h₃.
        let asked' = require-eq-ok (as_natural value) _ asked in
        let found' = require-eq-ok (get_elem? rules.stages (stage - 1)) _ found in ground arith

-- The amounts of a pot calculation, read back from it.
pub record IsExact (c : CanonicalPot) : Type 0 where
  pub grows :
      big_int c.next_pot.amount ≡ big_int c.current_pot.amount + big_int c.value_change.amount
  pub floor :
      big_int c.stage_value.amount * c.pot_contribution_bps
      ≡ big_int c.value_change.amount * 10_000 + big_int c.rounding_remainder_numerator
  pub remainder : big_int c.rounding_remainder_numerator < 10_000
  pub limit : big_int c.next_pot.amount ≤ big_int c.max_pot.amount
  pub u64 : big_int c.next_pot.amount < 2 ^ 64

-- The inputs of a pot calculation: the rule of the stage asked for in the accepted table, and the amounts.
pub record IsFor (host : Host) (rules_input current_pot stage_value stage : Value)
    (c : CanonicalPot) : Type 0 where
  pub rules : RuleSet
  pub rule : StageRule
  pub accepted : validate_calculator_rule_set host rules_input ≡ ok rules
  pub found : require_stage rules stage ≡ ok rule
  pub current : parse_money current_pot ≡ ok (big_int c.current_pot.amount)
  pub value : parse_money stage_value ≡ ok (big_int c.stage_value.amount)
  pub asked : as_natural stage ≡ some c.stage
  pub contribution : c.pot_contribution_bps ≡ rule.pot_contribution_bps
  pub max_pot : big_int c.max_pot.amount ≡ pot_limit rule

next_pot-IsExact :
    (rules : RuleSet) (rule : StageRule) (current value : ℕ) {c : CanonicalPot}
    → next_pot rules rule current value ≡ ok c
    → IsExact c
      × (c.stage ≡ rule.stage)
      × (c.pot_contribution_bps ≡ rule.pot_contribution_bps)
      × (big_int c.max_pot.amount ≡ pot_limit rule)
      × (big_int c.current_pot.amount ≡ current)
      × (big_int c.stage_value.amount ≡ value)
unfolding next_pot money
next_pot-IsExact rules rule current value h =
    let unrounded = value * rule.pot_contribution_bps in
    let change = unrounded / 10_000 in
    let limit = big_int rule.max_pot_amount in
    from_bind (throw_if (ltb max_u64 (current + change) || ltb limit (current + change)) _) _ h
      λ _ checked h₁.
        let within : (current + change ≤ max_u64) × (current + change ≤ limit) =
          ground (arith, throw_if-eq-ok _ _ checked) in
        rw (← ok-injective h₁) (
          record {
            grows = simp big_int-to_string;
            floor = simp big_int-to_string (omega arith);
            remainder = simp big_int-to_string (omega arith);
            limit = simp big_int-to_string (within.1);
            u64 = simp big_int-to_string (omega (arith, within.0));
          },
          refl,
          refl,
          big_int-to_string _,
          big_int-to_string current,
          big_int-to_string value,
        )

-- A successful pot calculation is for the amounts that were put in and the rule of the stage that was
-- asked for. It adds the floor of the staged value times the rule's contribution, reports the exact
-- remainder, and stays within the rule's limit and 64 bits.
pub calculate_pot-IsExact :
    (host : Host) (rules_input current_pot stage_value stage : Value) {r : PotCalculation}
    → calculate_pot host rules_input current_pot stage_value stage ≡ ok r
    → IsExact r.canonical × IsFor host rules_input current_pot stage_value stage r.canonical
unfolding calculate_pot
calculate_pot-IsExact host rules_input current_pot stage_value stage h =
    from_bind (validate_calculator_rule_set host rules_input) _ h λ rules accepted h₁.
      from_bind (require_stage rules stage) _ h₁ λ rule found h₂.
        from_bind (parse_money current_pot) _ h₂ λ current current_eq h₃.
          from_bind (parse_money stage_value) _ h₃ λ value value_eq h₄.
            from_bind (next_pot rules rule current value) _ h₄ λ canonical calculated h₅.
              let (exact, same, contribution, max_pot, current_same, value_same) =
                next_pot-IsExact rules rule current value calculated in
              let (asked, _, _) = require_stage_lem rules stage found in
              rw (← ok-injective h₅) (
                exact,
                record {
                  rules = rules;
                  rule = rule;
                  accepted = accepted;
                  found = found;
                  current = current_eq ∙ ap ok (sym current_same);
                  value = value_eq ∙ ap ok (sym value_same);
                  asked = asked ∙ ap some (sym same);
                  contribution = contribution;
                  max_pot = max_pot;
                },
              )

-- With an accepted table, a stage of it and amounts that parse, the calculation fails for the pot limit
-- exactly when the grown pot passes the limit of the stage: the u64 test never decides, since every
-- accepted limit fits 64 bits.
pub calculate_pot_limit :
    (host : Host) (rules_input current_pot stage_value stage : Value) {rules : RuleSet}
    {rule : StageRule} {current value : ℕ}
    → validate_calculator_rule_set host rules_input ≡ ok rules
    → require_stage rules stage ≡ ok rule
    → parse_money current_pot ≡ ok current
    → parse_money stage_value ≡ ok value
    → (calculate_pot host rules_input current_pot stage_value stage ≡ err pot_limit_exceeded)
      ↔ (pot_limit rule < current + (value * rule.pot_contribution_bps) / 10_000)
unfolding calculate_pot next_pot
calculate_pot_limit host rules_input current_pot stage_value stage {rules = rules} {rule = rule}
      {current = current} {value = value} accepted found cur val =
    let (valid, _) = validate_calculator_rule_set-IsValid host rules_input accepted in
    let (_, _, entry) = require_stage_lem rules stage found in
    let (_, bounded) = chain_stage rules.stages (rule.stage - 1) valid.chain entry in
    rw (accepted, found, cur, val) (ground (arith, bounded.u64))
