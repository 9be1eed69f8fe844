-- ===== src/Crash/Calculators/Calculate/Bust.antt =====
-- The bust roll: what a roll decides, and that a later stage is never safer.
use dailydraft_fun.Prelude.{
  ◌-◌, ◌≤◌, ◌<◌, ◌≡◌, ◌↔◌, refl, sym, ap, ◌∙◌, true, false, arith, leb, get_elem?, some, ok,
  from_bind, ok-injective, require, require-eq-ok, throw_if, throw_if-eq-ok,
}
use mathlib.Core.Option.{some-injective}
use dailydraft_fun.Js.Value.{Value, as_natural}
use dailydraft_fun.Js.Canonical.{Host}
use dailydraft_fun.Crash.Calculators.Types.{StageRule, RuleSet}
use dailydraft_fun.Crash.Calculators.Rules.{validate_calculator_rule_set}
use dailydraft_fun.Crash.Calculators.Rules.Sound.{validate_calculator_rule_set-IsValid, chain_mono}
use dailydraft_fun.Crash.Calculators.Calculate.{
  BustCalculation, roll_stage, require_stage, calculate_bust,
}
use dailydraft_fun.Crash.Calculators.Calculate.Pot.{require_stage_lem}

-- What a successful call has read: the rules, the stage rule and the roll.
record Reads (host : Host) (rules_input roll_ppm stage : Value) (r : BustCalculation) : Type 0 where
  rules : RuleSet
  rule : StageRule
  accepted : validate_calculator_rule_set host rules_input ≡ ok rules
  found : require_stage rules stage ≡ ok rule
  roll : as_natural roll_ppm ≡ some r.roll_ppm
  in_scale : r.roll_ppm < 1_000_000
  outcome : r.canonical ≡ roll_stage rules rule r.roll_ppm

calculate_bust-Reads :
    (host : Host) (rules_input roll_ppm stage : Value) {r : BustCalculation}
    → calculate_bust host rules_input roll_ppm stage ≡ ok r
    → Reads host rules_input roll_ppm stage r
unfolding calculate_bust roll_stage
calculate_bust-Reads host rules_input roll_ppm stage h =
    from_bind (validate_calculator_rule_set host rules_input) _ h λ rules accepted h₁.
      from_bind (require_stage rules stage) _ h₁ λ rule found h₂.
        from_bind (require (as_natural roll_ppm) _) _ h₂ λ roll asked h₃.
          from_bind (throw_if (leb 1_000_000 roll) _) _ h₃ λ _ low h₄.
            let below : roll < 1_000_000 =
              ground (arith, throw_if-eq-ok (leb 1_000_000 roll) _ low) in
            rw (← ok-injective h₄) (record {
              rules = rules;
              rule = rule;
              accepted = accepted;
              found = found;
              roll = require-eq-ok _ _ asked;
              in_scale = below;
              outcome = refl;
            })

-- A successful roll is the integer below a million that was put in, the threshold that it reports is that of
-- the stage asked for in the accepted rules, and it busts exactly when it is below that threshold: never at
-- threshold 0, always at a million.
pub calculate_bust_iff :
    (host : Host) (rules_input roll_ppm stage : Value) {r : BustCalculation}
    → calculate_bust host rules_input roll_ppm stage ≡ ok r
    → (rules : RuleSet) × (rule : StageRule) × (validate_calculator_rule_set host rules_input
        ≡ ok rules)
      × (get_elem? rules.stages (r.stage - 1) ≡ some rule)
      × (r.bust_threshold_ppm ≡ rule.bust_threshold_ppm)
      × (r.roll_ppm < 1_000_000)
      × (as_natural roll_ppm ≡ some r.roll_ppm)
      × (0 < r.stage)
      × (as_natural stage ≡ some r.stage)
      × ((r.busted ≡ true) ↔ (r.roll_ppm < r.bust_threshold_ppm))
      × (r.bust_threshold_ppm ≡ 0 → r.busted ≡ false)
      × (r.bust_threshold_ppm ≡ 1_000_000 → r.busted ≡ true)
unfolding roll_stage
calculate_bust_iff host rules_input roll_ppm stage h =
    let read = calculate_bust-Reads host rules_input roll_ppm stage h in
    let (asked, from_one, entry) = require_stage_lem read.rules stage read.found in
    let roll_lt = read.in_scale in
    rw read.outcome (
      read.rules,
      read.rule,
      read.accepted,
      entry,
      refl,
      roll_lt,
      read.roll,
      from_one,
      asked,
      ground arith,
      ground arith,
      ground arith,
    )

-- Under one table and one roll, a stage that busts is followed only by stages that bust.
pub calculate_bust_mono :
    (host : Host) (rules_input roll_ppm early late : Value) {r s : BustCalculation}
    → calculate_bust host rules_input roll_ppm early ≡ ok r
    → calculate_bust host rules_input roll_ppm late ≡ ok s
    → r.stage ≤ s.stage
    → r.busted ≡ true
    → s.busted ≡ true
unfolding roll_stage
calculate_bust_mono host rules_input roll_ppm early late {r = r} {s = s} h k le bust =
    let first = calculate_bust-Reads host rules_input roll_ppm early h in
    let second = calculate_bust-Reads host rules_input roll_ppm late k in
    let same_rules : second.rules ≡ first.rules =
      ok-injective (sym second.accepted ∙ first.accepted) in
    let same_roll : r.roll_ppm ≡ s.roll_ppm = some-injective _ _ (sym first.roll ∙ second.roll) in
    let (valid, _) = validate_calculator_rule_set-IsValid host rules_input first.accepted in
    let (_, pos₁, entry₁) = require_stage_lem first.rules early first.found in
    let (_, pos₂, entry₂) = require_stage_lem second.rules late second.found in
    let e₁ = ap (λ c. c.stage) first.outcome in
    let e₂ = ap (λ c. c.stage) second.outcome in
    let (_, threshold, _) =
      chain_mono 0 _ first.rules.stages (first.rule.stage - 1) (second.rule.stage - 1) valid.chain
        (omega (arith, e₁, e₂)) entry₁ (rw same_rules at entry₂) in
    let b₁ = sym (ap (λ c. c.busted) first.outcome) ∙ bust in
    ap (λ c. c.busted) second.outcome ∙ ground (arith, b₁, threshold, same_roll)
