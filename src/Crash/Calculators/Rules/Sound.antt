-- ===== src/Crash/Calculators/Rules/Sound.antt =====
-- What holds of every stage table that `validateCrashCalculatorRuleSet` accepts.
use dailydraft_fun.Prelude.{
  ℕ, zero, suc, ◌+◌, ◌^◌, ◌≤◌, ◌<◌, ◌≡◌, refl, ap, ◌∙◌, true, not, List, [], ◌∷◌, arith, length,
  get_elem?, some, ok, from_bind, ok-injective, throw_if, require,
}
use mathlib.Core.Option.{some-injective}
use dailydraft_fun.Prelude.Int.{pos, ◌≤ℤ◌}
use dailydraft_fun.Js.Text.{Text, text, text_eq_iff, is_rules_version}
use dailydraft_fun.Js.Decimal.{big_int, big_int-to_string}
use dailydraft_fun.Js.Value.{Value, str, obj, Fields, get, is_number, as_object}
use dailydraft_fun.Js.Canonical.{Host}
use dailydraft_fun.Crash.Calculators.Types.{
  StageRule, UnsignedRules, RuleSet, hash_rule_set, parse_unsigned_amount, parse_unsigned_amount-le,
}
use dailydraft_fun.Crash.Calculators.Rules.{
  Previous, no_previous, bounded_natural, read_stage, read_stages, check_header, seal_rules,
  validate_calculator_rule_set,
}

abbrev pub pot_limit : StageRule → ℕ
pot_limit s = big_int s.max_pot_amount

-- The bounds of one stage rule.
pub record IsBounded (s : StageRule) : Type 0 where
  pub contribution : s.pot_contribution_bps ≤ 1_000_000
  pub threshold : s.bust_threshold_ppm ≤ 1_000_000
  pub positive : 1 ≤ pot_limit s
  pub u64 : pot_limit s < 2 ^ 64

-- A stage is not below the running minima in any of its three numbers.
pub record IsAbove (previous : Previous) (s : StageRule) : Type 0 where
  pub contribution : previous.contribution_bps ≤ℤ pos s.pot_contribution_bps
  pub threshold : previous.bust_threshold ≤ℤ pos s.bust_threshold_ppm
  pub limit : previous.max_pot ≤ℤ pos (pot_limit s)

abbrev pub minima_of : StageRule → Previous
minima_of s = record {
  bust_threshold = pos s.bust_threshold_ppm;
  contribution_bps = pos s.pot_contribution_bps;
  max_pot = pos (pot_limit s);
}

-- Numbered from `index + 1`, bounded, and nondecreasing.
abbrev pub IsChain : ℕ → Previous → List StageRule → Type 0
IsChain index previous [] = Unit
IsChain index previous (s ∷ ss) =
    (s.stage ≡ index + 1) × IsBounded s × IsAbove previous s × IsChain (index + 1) (minima_of s) ss

bounded_natural-le :
    (limit : ℕ) (value : Value) {n : ℕ} → bounded_natural limit value ≡ ok n → n ≤ limit
unfolding bounded_natural
bounded_natural-le limit value h = ground arith

read_stage_lem :
    (index : ℕ) (previous : Previous) (candidate : Value) {s : StageRule} {pot : ℕ}
    → read_stage index previous candidate ≡ ok (s, pot)
    → (s.stage ≡ index + 1) × IsBounded s × IsAbove previous s × (pot ≡ pot_limit s)
unfolding read_stage
read_stage_lem index previous candidate h =
    from_bind (require (as_object candidate) _) _ h λ stage _ h₁.
      from_bind (throw_if (not (is_number (index + 1) (get (text "stage") stage))) _) _ h₁ λ _ _ h₂.
        from_bind (bounded_natural 1_000_000 (get (text "potContributionBps") stage)) _ h₂
          λ bps bps_le h₃.
            from_bind (bounded_natural 1_000_000 (get (text "bustThresholdPpm") stage)) _ h₃
              λ ppm ppm_le h₄.
                from_bind (parse_unsigned_amount (get (text "maxPotAmount") stage) _) _ h₄
                  λ pot pot_le h₅. ground (
                    arith,
                    bounded_natural-le 1_000_000 (get (text "potContributionBps") stage) bps_le,
                    bounded_natural-le 1_000_000 (get (text "bustThresholdPpm") stage) ppm_le,
                    parse_unsigned_amount-le (get (text "maxPotAmount") stage) _ pot_le,
                    big_int-to_string pot,
                  )

read_stages_lem :
    (index : ℕ) (previous : Previous) (candidates : List Value) {stages : List StageRule}
    → read_stages index previous candidates ≡ ok stages
    → (length stages ≡ length candidates) × IsChain index previous stages
unfolding read_stages
read_stages_lem index previous [] h = rw (← ok-injective h) (refl, tt)
read_stages_lem index previous (candidate ∷ candidates) h =
    from_bind (read_stage index previous candidate) _ h λ head checked h₁.
      from_bind (read_stages (index + 1) _ candidates) _ h₁ λ rest loop h₂.
        let (number, bounded, above, pot) = read_stage_lem index previous candidate checked in
        let (same_length, chain) = read_stages_lem (index + 1) _ candidates loop in
        rw (← ok-injective h₂) (ap suc same_length, (number, bounded, above, rw pot at chain))

check_header_lem :
    (fields : Fields) {version hash : Text} {candidates : List Value}
    → check_header fields ≡ ok (version, hash, candidates)
    → (get (text "rulesHash") fields ≡ str hash)
      × (is_rules_version version ≡ true)
      × (1 ≤ length candidates)
      × (length candidates ≤ 64)
unfolding check_header
check_header_lem fields h = ground arith

seal_rules_lem :
    (host : Host) (unsigned : UnsignedRules) (hash : Text) {rules : RuleSet}
    → seal_rules host unsigned hash ≡ ok rules
    → (rules ≡ record { unsigned = unsigned; rules_hash = hash_rule_set host unsigned })
      × (hash ≡ hash_rule_set host unsigned)
unfolding seal_rules
seal_rules_lem host unsigned hash h = ground (arith, text_eq_iff (hash_rule_set host unsigned) hash)

-- What the calculators rely on.
pub record IsValid (host : Host) (rules : RuleSet) : Type 0 where
  pub nonempty : 1 ≤ length rules.stages
  pub bounded : length rules.stages ≤ 64
  pub chain : IsChain 0 no_previous rules.stages
  pub version : is_rules_version rules.rules_version ≡ true
  pub hash : rules.rules_hash ≡ hash_rule_set host rules.unsigned

abbrev pub CommitsTo : Value → Text → Type 0
CommitsTo value hash =
    (fields : Fields) × (value ≡ obj fields) × (get (text "rulesHash") fields ≡ str hash)

-- An accepted stage table has from 1 to 64 stages, numbered from 1 without gaps; the contribution,
-- the bust threshold and the pot limit of each stage lie in their ranges and never fall from one
-- stage to the next; and its hash is both the committed one and the hash of its content.
pub validate_calculator_rule_set-IsValid :
    (host : Host) (value : Value) {rules : RuleSet}
    → validate_calculator_rule_set host value ≡ ok rules
    → IsValid host rules × CommitsTo value rules.rules_hash
unfolding validate_calculator_rule_set
validate_calculator_rule_set-IsValid host (obj fields) h =
    from_bind (check_header fields) _ h λ head checked h₁.
      from_bind (read_stages 0 no_previous head.2) _ h₁ λ stages loop h₂.
        let (committed, version, some_stages, few_stages) = check_header_lem fields checked in
        let (same_length, chain) = read_stages_lem 0 no_previous head.2 loop in
        let (same, hash) = seal_rules_lem host _ head.1 h₂ in
        rw same (
          record {
            nonempty = omega arith;
            bounded = omega arith;
            chain = chain;
            version = version;
            hash = refl;
          },
          (fields, refl, committed ∙ ap str hash),
        )
validate_calculator_rule_set-IsValid host _ h = ground arith

-- A later stage is above an earlier one.
IsChain-IsAbove :
    (index : ℕ) (previous : Previous) (stages : List StageRule) (i : ℕ) {s : StageRule}
    → IsChain index previous stages
    → get_elem? stages i ≡ some s
    → (s.stage ≡ suc (index + i)) × IsBounded s × IsAbove previous s
IsChain-IsAbove index previous [] i c e = absurd (cc)
IsChain-IsAbove index previous (x ∷ xs) zero c e =
    rw (← some-injective _ _ e) (omega (arith, c.0), c.1, c.2)
IsChain-IsAbove index previous (x ∷ xs) (suc i) c e =
    let (number, bounded, above) = IsChain-IsAbove (index + 1) (minima_of x) xs i c.3 e in
    (
      omega (arith, number),
      bounded,
      record {
        contribution = omega (arith, c.2.contribution, above.contribution);
        threshold = omega (arith, c.2.threshold, above.threshold);
        limit = omega (arith, c.2.limit, above.limit);
      },
    )

pub chain_mono :
    (index : ℕ) (previous : Previous) (stages : List StageRule) (i j : ℕ) {s t : StageRule}
    → IsChain index previous stages
    → i ≤ j
    → get_elem? stages i ≡ some s
    → get_elem? stages j ≡ some t
    → (s.pot_contribution_bps ≤ t.pot_contribution_bps)
      × (s.bust_threshold_ppm ≤ t.bust_threshold_ppm)
      × (pot_limit s ≤ pot_limit t)
chain_mono index previous [] i j c h e f = absurd (cc)
chain_mono index previous (x ∷ xs) zero zero c h e f =
    rw (← some-injective _ _ e, ← some-injective _ _ f) (omega arith)
chain_mono index previous (x ∷ xs) zero (suc j) c h e f =
    let (_, _, above) = IsChain-IsAbove (index + 1) (minima_of x) xs j c.3 f in
    rw (← some-injective _ _ e) (
      omega (arith, above.contribution),
      omega (arith, above.threshold),
      omega (arith, above.limit),
    )
chain_mono index previous (x ∷ xs) (suc i) zero c h e f = absurd (omega arith)
chain_mono index previous (x ∷ xs) (suc i) (suc j) c h e f =
    chain_mono (index + 1) (minima_of x) xs i j c.3 (omega arith) e f

pub chain_stage :
    (stages : List StageRule) (i : ℕ) {s : StageRule}
    → IsChain 0 no_previous stages
    → get_elem? stages i ≡ some s
    → (s.stage ≡ suc i) × IsBounded s
chain_stage stages i c e =
    let (number, bounded, _) = IsChain-IsAbove 0 no_previous stages i c e in
    (omega (arith, number), bounded)
