-- ===== src/Fantasy/Scoring/Calculate/Bounds.antt =====
-- How large a score may be.
use native.Mathlib.Nat.{mul-le-mul}
use dailydraft_fun.Prelude.{
  ◌+◌, ◌*◌, ◌≤◌, ◌≡◌, sym, inl, inr, List, [], ◌∷◌, some, arith, length, All, ok, Bool-cases,
}
use dailydraft_fun.Prelude.Int.{ℤ, pos, negsuc, ◌+ℤ◌, ◌*ℤ◌, abs_ℤ}
use dailydraft_fun.Js.Signed.{big_int_ℤ}
use dailydraft_fun.Js.Value.{Value, Fields}
use dailydraft_fun.Js.Canonical.{Host}
use dailydraft_fun.Fantasy.Domain.{Position, position_eq}
use dailydraft_fun.Fantasy.Scoring.Types.{Component, PositionRule}
use dailydraft_fun.Fantasy.Scoring.Rules.Sound.{
  weight, base, IsWeighted, IsBounded, validate_scoring_rule_set-IsValid,
}
use dailydraft_fun.Fantasy.Scoring.Calculate.{
  ScoreInput, ComponentResult, PlayerScore, find_position, calculate_player_score,
}
use dailydraft_fun.Fantasy.Scoring.Calculate.Total.{
  points, AreScores, calculate_player_score-IsScored,
}

abs_ℤ-+ℤ : (a b : ℤ) → abs_ℤ (a +ℤ b) ≤ abs_ℤ a + abs_ℤ b
unfolding ◌+ℤ◌
abs_ℤ-+ℤ a b = ground arith

abs_ℤ-*ℤ : (a b : ℤ) → abs_ℤ (a *ℤ b) ≤ abs_ℤ a * abs_ℤ b
unfolding ◌*ℤ◌
abs_ℤ-*ℤ (pos a) (pos b) = ground arith
abs_ℤ-*ℤ (pos a) (negsuc b) = ground arith
abs_ℤ-*ℤ (negsuc a) (pos b) = ground arith
abs_ℤ-*ℤ (negsuc a) (negsuc b) = ground arith

-- The points of one statistic.
product-le :
    (u w : ℤ) → abs_ℤ u ≤ 100_000 → abs_ℤ w ≤ 100_000_000 → abs_ℤ (u *ℤ w) ≤ 10_000_000_000_000
product-le u w small light = omega (arith, abs_ℤ-*ℤ u w, mul-le-mul small light)

points-le :
    (line : Fields) (cs : List Component) (rs : List ComponentResult)
    → AreScores line cs rs
    → All IsWeighted cs
    → abs_ℤ (points rs) ≤ length cs * 10_000_000_000_000
points-le line [] [] scores light = omega arith
points-le line [] (r ∷ rs) scores light = absurd scores
points-le line (c ∷ cs) [] scores light = absurd scores
points-le line (c ∷ cs) (r ∷ rs) ((_, _, small, _, printed), scores) ((_, first), light) =
    rw printed (
      omega (
        arith,
        abs_ℤ-+ℤ (r.units *ℤ weight c) (points rs),
        product-le r.units (weight c) small first,
        points-le line cs rs scores light,
      ))

find_position-All :
    (P : PositionRule → Type 0) (p : Position) (rs : List PositionRule) {r : PositionRule}
    → All P rs
    → find_position p rs ≡ some r
    → P r
unfolding find_position
find_position-All P p [] all h = cc
find_position-All P p (r ∷ rs) {r = r'} all h = elim (Bool-cases (position_eq r.position p)) [
  | inl hit ↦ let same : r ≡ r' = cc (rw hit at h) in rw (sym same) all.0
  | inr miss ↦ find_position-All P p rs all.1 (rw miss at h)
]

-- A score is at most 640000100000000 in size, which a JavaScript number still holds exactly.
pub calculate_player_score_bounded :
    (host : Host) (rules_input : Value) (input : ScoreInput) {score : PlayerScore}
    → calculate_player_score host rules_input input ≡ ok score
    → abs_ℤ (big_int_ℤ score.total_milli_points) ≤ 640_000_100_000_000
calculate_player_score_bounded host rules_input input {score} h =
    let s = calculate_player_score-IsScored host rules_input input {score = score} h in
    let valid = (validate_scoring_rule_set-IsValid host rules_input s.validated).0 in
    let bounded =
      find_position-All IsBounded score.position s.rules.positions valid.bounded s.configured in
    let points_le =
      points-le s.line s.rule.components score.breakdown s.breakdown bounded.weighted in
    rw s.total (
      omega (
        arith,
        abs_ℤ-+ℤ (base s.rule) (points score.breakdown),
        points_le,
        bounded.few,
        bounded.base_bounded,
      ))
