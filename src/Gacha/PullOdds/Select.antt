-- ===== src/Gacha/PullOdds/Select.antt =====
-- apps/api/src/gacha/gacha-pull-odds.ts: `gachaPullOddsBandForRoll` and `gachaPullOddsBandForValue`.
pub mod Bands
use dailydraft_fun.Prelude.{
  ℕ, ◌+◌, Bool, List, [], ◌∷◌, Option, none, some, ltb, leb, if◌then◌else◌, Result, ok, err, ◌>>=◌,
  ◌>>◌, throw_if, require,
}
use dailydraft_fun.Js.Decimal.{big_int}
use dailydraft_fun.Js.Value.{Number, int, neg_int, neg_zero, fractional, Value}
use dailydraft_fun.Gacha.PullOdds.Types.{
  ErrorCode, invalid_rules, probability_scale_ppm, Band, parse_minor_units,
}

-- An integer that is not below zero; -0 is one.
abbrev pub unsigned_integer : Number → Option ℕ
unsigned_integer (int n) = some n
unsigned_integer neg_zero = some 0
unsigned_integer (neg_int n) = none
unsigned_integer (fractional n) = none

-- The loop over the bands, with its upper bound.
unfoldable pub pick : ℕ → ℕ → List Band → Result ErrorCode Band
pick roll upper [] = err invalid_rules
pick roll upper (b ∷ bs) =
    let rest = pick roll (upper + b.probability_ppm) bs in
    if ltb roll (upper + b.probability_ppm) then ok b else rest

-- `gachaPullOddsBandForRoll`
unfoldable pub band_for_roll : List Band → Number → Result ErrorCode Band
unfolding pick
band_for_roll bands roll_ppm = do
  roll ← require (unsigned_integer roll_ppm) invalid_rules
  throw_if (leb probability_scale_ppm roll) invalid_rules
  pick roll 0 bands

-- The loop over the bands that stops at the first minimum above the value.
unfoldable pub reach : ℕ → Option Band → List Band → Option Band
reach value selected [] = selected
reach value selected (b ∷ bs) =
    let rest = reach value (some b) bs in
    if ltb value (big_int b.minimum_insured_value_minor) then selected else rest

abbrev pub first_band : List Band → Option Band
first_band [] = none
first_band (b ∷ bs) = some b

-- `gachaPullOddsBandForValue`
unfoldable pub band_for_value : List Band → Value → Result ErrorCode Band
unfolding reach
band_for_value bands insured_value_minor = do
  value ← parse_minor_units insured_value_minor
  require (reach value (first_band bands) bands) invalid_rules
