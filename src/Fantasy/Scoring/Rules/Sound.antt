-- ===== src/Fantasy/Scoring/Rules/Sound.antt =====
-- What holds of every scoring table that `validateFantasyScoringRuleSet` accepts.
use dailydraft_fun.Prelude.{
  ◌≤◌, ◌≡◌, refl, sym, ap, ◌∙◌, not, true, false, List, [], ◌∷◌, arith, length, All, ok, throw_if,
  require, from_bind, ok-injective,
}
use dailydraft_fun.Prelude.Int.{ℤ, abs_ℤ}
use dailydraft_fun.Js.Text.{Text, text, text_eq_iff, text_mem, is_stat_key, is_rules_version}
use dailydraft_fun.Js.Signed.{big_int_ℤ, to_string_ℤ, big_int_ℤ-to_string_ℤ}
use dailydraft_fun.Js.Value.{Value, str, obj, Fields, get, as_string}
use dailydraft_fun.Js.Canonical.{Host}
use dailydraft_fun.Fantasy.Domain.{Sport, Position, position_mem, as_position}
use dailydraft_fun.Fantasy.Scoring.Types.{
  invalid_rules, Component, PositionRule, UnsignedRules, RuleSet, hash_rule_set,
  parse_signed_milli_points, parse_signed_milli_points-le,
}
use dailydraft_fun.Fantasy.Scoring.Rules.{
  read_component, read_components, read_position, read_positions, check_header, seal_rules,
  validate_scoring_rule_set,
}

-- The weight of a component, and the points that a position starts from.
abbrev pub weight : Component → ℤ
weight c = big_int_ℤ c.milli_points_per_unit

abbrev pub base : PositionRule → ℤ
base r = big_int_ℤ r.base_milli_points

-- No statistic of the list is among the ones seen before it.
abbrev pub AreFreshStats : List Text → List Component → Type 0
AreFreshStats seen [] = Unit
AreFreshStats seen (c ∷ cs) = (text_mem c.stat seen ≡ false) × AreFreshStats (c.stat ∷ seen) cs

-- No position of the table is among the ones seen before it.
abbrev pub AreFreshPositions : List Position → List PositionRule → Type 0
AreFreshPositions seen [] = Unit
AreFreshPositions seen (r ∷ rs) =
    (position_mem r.position seen ≡ false) × AreFreshPositions (r.position ∷ seen) rs

abbrev pub IsWeighted : Component → Type 0
IsWeighted c = (is_stat_key c.stat ≡ true) × (abs_ℤ (weight c) ≤ 100_000_000)

-- A position scores a bounded list of statistics, none twice, each with a bounded weight.
pub record IsBounded (r : PositionRule) : Type 0 where
  pub base_bounded : abs_ℤ (base r) ≤ 100_000_000
  pub few : length r.components ≤ 64
  pub unique : AreFreshStats [] r.components
  pub weighted : All IsWeighted r.components

printed-le : (z : ℤ) → abs_ℤ z ≤ 100_000_000 → abs_ℤ (big_int_ℤ (to_string_ℤ z)) ≤ 100_000_000
printed-le z h = rw (big_int_ℤ-to_string_ℤ z) h

read_component_lem :
    (raw : Value) (seen : List Text) {c : Component}
    → read_component raw seen ≡ ok c
    → (text_mem c.stat seen ≡ false) × IsWeighted c
unfolding read_component
read_component_lem (obj fields) seen h =
    from_bind (require (as_string (get (text "stat") fields)) invalid_rules) _ h λ stat _ h₁.
      from_bind (throw_if (not (is_stat_key stat)) invalid_rules) _ h₁ λ _ key h₂.
        from_bind (throw_if (text_mem stat seen) invalid_rules) _ h₂ λ _ new h₃.
          from_bind (parse_signed_milli_points (get (text "milliPointsPerUnit") fields)) _ h₃
            λ z parsed h₄. ground (
              arith,
              printed-le z
                  (parse_signed_milli_points-le (get (text "milliPointsPerUnit") fields) parsed),
            )
read_component_lem _ seen h = ground arith

read_components_lem :
    (raws : List Value) (seen : List Text) {cs : List Component}
    → read_components raws seen ≡ ok cs
    → (length cs ≡ length raws) × AreFreshStats seen cs × All IsWeighted cs
unfolding read_components
read_components_lem [] seen h = ground arith
read_components_lem (raw ∷ raws) seen h = from_bind (read_component raw seen) _ h λ c read h₁.
    from_bind (read_components raws (c.stat ∷ seen)) _ h₁ λ cs loop h₂.
      ground
        (arith, read_component_lem raw seen read, read_components_lem raws (c.stat ∷ seen) loop)

read_position_lem :
    (candidate : Value) (seen : List Position) {position : Position} {amount : ℤ}
    {raws : List Value}
    → read_position candidate seen ≡ ok (position, amount, raws)
    → (position_mem position seen ≡ false) × (abs_ℤ amount ≤ 100_000_000) × (length raws ≤ 64)
unfolding read_position
read_position_lem (obj rule) seen h =
    from_bind (require (as_position (get (text "position") rule)) invalid_rules) _ h
      λ position _ h₁.
        from_bind (throw_if (position_mem position seen) invalid_rules) _ h₁ λ _ new h₂.
          from_bind (parse_signed_milli_points (get (text "baseMilliPoints") rule)) _ h₂
            λ z parsed h₃.
              ground
                (arith, parse_signed_milli_points-le (get (text "baseMilliPoints") rule) parsed)
read_position_lem _ seen h = ground arith

read_positions_lem :
    (candidates : List Value) (seen : List Position) {rules : List PositionRule}
    → read_positions candidates seen ≡ ok rules
    → (length rules ≡ length candidates) × AreFreshPositions seen rules × All IsBounded rules
unfolding read_positions
read_positions_lem [] seen h = ground arith
read_positions_lem (candidate ∷ candidates) seen h =
    from_bind (read_position candidate seen) _ h λ head checked h₁.
      from_bind (read_components head.2 []) _ h₁ λ components read h₂.
        from_bind (read_positions candidates (head.0 ∷ seen)) _ h₂ λ rest loop h₃.
          let (new, bound, few) = read_position_lem candidate seen checked in
          let (same_length, unique, weighted) = read_components_lem head.2 [] read in
          let (total, fresh, bounded) = read_positions_lem candidates (head.0 ∷ seen) loop in
          let first : IsBounded (record {
            base_milli_points = to_string_ℤ head.1;
            components = components;
            position = head.0;
          }) =
            record {
              base_bounded = printed-le head.1 bound;
              few = omega arith;
              unique = unique;
              weighted = weighted;
            } in
          rw (sym (ok-injective h₃)) (omega arith, (new, fresh), (first, bounded))

check_header_lem :
    (fields : Fields) {sport : Sport} {version hash : Text} {candidates : List Value}
    → check_header fields ≡ ok (sport, version, hash, candidates)
    → (get (text "rulesHash") fields ≡ str hash)
      × (is_rules_version version ≡ true)
      × (1 ≤ length candidates)
unfolding check_header
check_header_lem fields h = ground arith

seal_rules_lem :
    (host : Host) (unsigned : UnsignedRules) (hash : Text) {rules : RuleSet}
    → seal_rules host unsigned hash ≡ ok rules
    → (rules ≡ record { unsigned = unsigned; rules_hash = hash_rule_set host unsigned })
      × (hash ≡ hash_rule_set host unsigned)
unfolding seal_rules
seal_rules_lem host unsigned hash h = ground (arith, text_eq_iff (hash_rule_set host unsigned) hash)

-- What the calculator relies on.
pub record IsValid (host : Host) (rules : RuleSet) : Type 0 where
  pub unique : AreFreshPositions [] rules.positions
  pub nonempty : 1 ≤ length rules.positions
  pub bounded : All IsBounded rules.positions
  pub version : is_rules_version rules.rules_version ≡ true
  pub hash : rules.rules_hash ≡ hash_rule_set host rules.unsigned

abbrev pub CommitsTo : Value → Text → Type 0
CommitsTo value hash =
    (fields : Fields) × (value ≡ obj fields) × (get (text "rulesHash") fields ≡ str hash)

-- An accepted scoring table has a position, and none twice; each position has at most 64 statistics, none
-- twice, and its base and its weights are integers of at most 100000000 in size, as their texts read; its
-- version is well formed; and its hash is both the committed one and the hash of its content.
pub validate_scoring_rule_set-IsValid :
    (host : Host) (value : Value) {rules : RuleSet}
    → validate_scoring_rule_set host value ≡ ok rules
    → IsValid host rules × CommitsTo value rules.rules_hash
unfolding validate_scoring_rule_set
validate_scoring_rule_set-IsValid host (obj fields) h =
    from_bind (check_header fields) _ h λ head checked h₁.
      from_bind (read_positions head.3 []) _ h₁ λ table loop h₂.
        let (committed, version, some_positions) = check_header_lem fields checked in
        let (same_length, fresh, bounds) = read_positions_lem head.3 [] loop in
        let (same, hash) = seal_rules_lem host _ head.2 h₂ in
        rw same (
          record {
            unique = fresh;
            nonempty = omega arith;
            bounded = bounds;
            version = version;
            hash = refl;
          },
          (fields, refl, committed ∙ ap str hash),
        )
validate_scoring_rule_set-IsValid host _ h = ground arith
