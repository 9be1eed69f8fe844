-- ===== src/Gacha/PullOdds/Select/Bands.antt =====
-- Which band a roll and a value fall in.
use dailydraft_fun.Prelude.{
  ℕ, ◌+◌, ◌≤◌, ◌<◌, ◌≡◌, ◌↔◌, refl, sym, ap, ◌∙◌, true, false, List, [], ◌∷◌, ◌++◌, some,
  sum_by-append, arith, ltb, leb, Bool-cases, inl, inr, All, ok, ok-injective,
}
use dailydraft_fun.Prelude.Int.{pos, negsuc}
use dailydraft_fun.Js.Text.{text, text_eq_iff}
use dailydraft_fun.Js.Decimal.{big_int}
use dailydraft_fun.Js.Value.{int, Value}
use dailydraft_fun.Js.Canonical.{Host}
use dailydraft_fun.Gacha.PullOdds.Types.{Band, RuleSet, parse_minor_units}
use dailydraft_fun.Gacha.PullOdds.Rules.{starts_at_zero, validate_pull_odds_rule_set}
use dailydraft_fun.Gacha.PullOdds.Rules.Sound.{
  minimum_of, total_ppm, IsChain, validate_pull_odds_rule_set-IsValid,
}
use dailydraft_fun.Gacha.PullOdds.Select.{pick, band_for_roll, reach, first_band, band_for_value}

-- A band that a roll falls in: the roll lies among the band's own numbers, which begin where the
-- probabilities of the bands before it end.
pub record HasRoll (bands : List Band) (roll : ℕ) (b : Band) : Type 0 where
  pub before : List Band
  pub after : List Band
  pub split : bands ≡ before ++ (b ∷ after)
  pub from : total_ppm before ≤ roll
  pub below : roll < total_ppm before + b.probability_ppm

pick_lem :
    (roll upper : ℕ) (bands : List Band)
    → upper ≤ roll
    → roll < upper + total_ppm bands
    → (b : Band) × (pick roll upper bands ≡ ok b)
      × (before : List Band) × (after : List Band) × (bands ≡ before ++ (b ∷ after))
      × (upper + total_ppm before ≤ roll)
      × (roll < upper + total_ppm before + b.probability_ppm)
unfolding pick
pick_lem roll upper [] h k = absurd (omega (arith, h, k))
pick_lem roll upper (x ∷ xs) h k = elim (Bool-cases (ltb roll (upper + x.probability_ppm))) [
  | inl hits ↦ (x, rw hits refl, [], xs, refl, omega arith, ground (arith, hits))
  | inr misses ↦
      let (b, picked, before, after, split, from, below) =
        pick_lem roll (upper + x.probability_ppm) xs (ground (arith, misses)) (omega (arith, k)) in
      (
        b,
        rw misses picked,
        x ∷ before,
        after,
        ap (◌∷◌ x) split,
        omega (arith, from),
        omega (arith, below),
      )
]

pick_own :
    (roll upper : ℕ) (before : List Band) (b : Band) (after : List Band)
    → upper + total_ppm before ≤ roll
    → roll < upper + total_ppm before + b.probability_ppm
    → pick roll upper (before ++ (b ∷ after)) ≡ ok b
unfolding pick
pick_own roll upper [] b after h k = ground arith
pick_own roll upper (x ∷ xs) b after h k = ground (
  arith,
  pick_own roll (upper + x.probability_ppm) xs b after (omega (arith, h)) (omega (arith, k)),
)

-- A table of a million numbers gives every roll below a million a band.
band_for_roll-total :
    (bands : List Band) (roll : ℕ)
    → total_ppm bands ≡ 1_000_000
    → roll < 1_000_000
    → (b : Band) × (band_for_roll bands (int roll) ≡ ok b) × HasRoll bands roll b
unfolding band_for_roll
band_for_roll-total bands roll total small =
    let (b, picked, before, after, split, from, below) =
      pick_lem roll 0 bands (omega arith) (omega (arith, small, total)) in
    let in_scale : leb 1_000_000 roll ≡ false = ground (arith, small) in
    (
      b,
      rw (in_scale, picked) refl,
      record {
        before = before;
        after = after;
        split = split;
        from = omega (arith, from);
        below = omega (arith, below);
      },
    )

band_for_roll-small :
    (bands : List Band) (roll : ℕ) {b : Band}
    → band_for_roll bands (int roll) ≡ ok b
    → roll < 1_000_000
unfolding band_for_roll
band_for_roll-small bands roll h = ground arith

band_for_roll-own :
    (bands : List Band) (roll : ℕ) (b : Band)
    → total_ppm bands ≡ 1_000_000
    → HasRoll bands roll b
    → band_for_roll bands (int roll) ≡ ok b
unfolding band_for_roll
band_for_roll-own bands roll b total has =
    let sum : total_ppm has.before + total_ppm (b ∷ has.after) ≡ 1_000_000 =
      sym (sum_by-append (λ x. x.probability_ppm) has.before (b ∷ has.after))
      ∙ ap total_ppm (sym has.split)
      ∙ total in
    let in_scale : leb 1_000_000 roll ≡ false = ground (arith, has.below, sum) in
    rw in_scale (
      ap (pick roll 0) has.split
      ∙ pick_own roll 0 has.before b has.after (omega (arith, has.from)) (omega (arith, has.below)))

-- With an accepted table every roll below a million selects a band, and a roll selects a band exactly when
-- it lies among that band's own numbers, of which there are as many as its probability in PPM.
pub band_for_roll_iff :
    (host : Host) (rules_input : Value) {rules : RuleSet} (roll : ℕ)
    → validate_pull_odds_rule_set host rules_input ≡ ok rules
    → (roll < 1_000_000 → (b : Band) × (band_for_roll rules.bands (int roll) ≡ ok b))
      × ((b : Band) → (band_for_roll rules.bands (int roll) ≡ ok b) ↔ HasRoll rules.bands roll b)
band_for_roll_iff host rules_input {rules = rules} roll accepted =
    let (valid, _) = validate_pull_odds_rule_set-IsValid host rules_input accepted in
    (
      λ small.
          let (b, found, _) = band_for_roll-total rules.bands roll valid.total small in (b, found),
      λ b. (
        λ h.
            let (c, found, has) =
              band_for_roll-total rules.bands roll valid.total
                (band_for_roll-small rules.bands roll h) in
            let same : c ≡ b = ok-injective (sym found ∙ h) in rw (← same) has,
        λ has. band_for_roll-own rules.bands roll b valid.total has,
      ),
    )

-- Minima above a value stay above it.
IsChain-All :
    (value minimum : ℕ) (bands : List Band)
    → value < minimum
    → IsChain (pos minimum) bands
    → All (λ b. value < minimum_of b) bands
IsChain-All value minimum [] h c = tt
IsChain-All value minimum (b ∷ bs) h c =
    let above : value < minimum_of b = omega (arith, h, c.0) in
    (above, IsChain-All value (minimum_of b) bs above c.2)

-- The band that a value reaches: its minimum is not above the value, and those of all later bands are.
pub record IsReached (bands : List Band) (value : ℕ) (b : Band) : Type 0 where
  pub before : List Band
  pub after : List Band
  pub split : bands ≡ before ++ (b ∷ after)
  pub reached : minimum_of b ≤ value
  pub beyond : All (λ c. value < minimum_of c) after

reach_lem :
    (value : ℕ) (c : Band) (bands : List Band)
    → minimum_of c ≤ value
    → IsChain (pos (minimum_of c)) bands
    → (b : Band) × (reach value (some c) bands ≡ some b) × IsReached (c ∷ bands) value b
unfolding reach
reach_lem value c [] h chain =
    (c, refl, record { before = []; after = []; split = refl; reached = h; beyond = tt })
reach_lem value c (x ∷ xs) h chain =
    elim (Bool-cases (ltb value (big_int x.minimum_insured_value_minor))) [
      | inl stops ↦
          let above : value < minimum_of x = ground (arith, stops) in
          (
            c,
            rw stops refl,
            record {
              before = [];
              after = x ∷ xs;
              split = refl;
              reached = h;
              beyond = (above, IsChain-All value (minimum_of x) xs above chain.2);
            },
          )
      | inr goes ↦
          let (b, found, r) = reach_lem value x xs (ground (arith, goes)) chain.2 in
          (
            b,
            rw goes found,
            record {
              before = c ∷ r.before;
              after = r.after;
              split = ap (◌∷◌ c) r.split;
              reached = r.reached;
              beyond = r.beyond;
            },
          )
    ]

zero_minimum : (b : Band) (bs : List Band) → starts_at_zero (b ∷ bs) ≡ true → minimum_of b ≡ 0
unfolding starts_at_zero big_int
zero_minimum b bs h =
    let zero_text : b.minimum_insured_value_minor ≡ text "0" = (text_eq_iff _ _).0 h in
    rw zero_text refl

reach_from_zero :
    (value : ℕ) (bands : List Band)
    → starts_at_zero bands ≡ true
    → IsChain (negsuc 0) bands
    → (b : Band) × (reach value (first_band bands) bands ≡ some b) × IsReached bands value b
unfolding reach starts_at_zero
reach_from_zero value [] h chain = absurd (cc h)
reach_from_zero value (x ∷ xs) h chain =
    let least = zero_minimum x xs h in
    let (b, found, r) = reach_lem value x xs (omega (arith, least)) chain.2 in
    (b, ground (arith, least, found), r)

-- With an accepted table every value in minor units selects a band: the last one whose minimum it reaches.
pub band_for_value-IsReached :
    (host : Host) (rules_input insured_value_minor : Value) {rules : RuleSet} {value : ℕ}
    → validate_pull_odds_rule_set host rules_input ≡ ok rules
    → parse_minor_units insured_value_minor ≡ ok value
    → (b : Band) × (band_for_value rules.bands insured_value_minor ≡ ok b)
      × IsReached rules.bands value b
unfolding band_for_value
band_for_value-IsReached host rules_input insured_value_minor {rules = rules} {value = value}
      accepted parsed =
    let (valid, _) = validate_pull_odds_rule_set-IsValid host rules_input accepted in
    let (b, found, r) = reach_from_zero value rules.bands valid.from_zero valid.chain in
    (b, rw (parsed, found) refl, r)
