-- ===== src/Gacha/PullOdds/Tests.antt =====
-- Runs of the pull odds, and their theorems at concrete inputs.
use dailydraft_fun.Prelude.{ℕ, ◌<◌, ◌≡◌, ◌↔◌, refl, true, String, ok, from_ok}
use dailydraft_fun.Js.Text.{text, is_unsigned_integer, is_hash, is_rules_version}
use dailydraft_fun.Js.Decimal.{big_int, to_string}
use dailydraft_fun.Js.Value.{
  int, neg_zero, Value, num, str, arr, obj, nil, cons, end, field, get, is_text, is_number,
}
use dailydraft_fun.Js.Sample.{some_hash, host, literal}
use dailydraft_fun.Gacha.PullOdds.Types.{
  plus, Band, RuleSet, rule_set_value, hash_rule_set, parse_minor_units,
}
use dailydraft_fun.Gacha.PullOdds.Fixture.{
  unsigned_fixture, fixture_rule_set, validate-fixture_rule_set,
}
use dailydraft_fun.Gacha.PullOdds.Rules.{
  read_band, read_bands, check_header, starts_at_zero, seal_rules, validate_pull_odds_rule_set,
}
use dailydraft_fun.Gacha.PullOdds.Rules.Sound.{
  IsValid, CommitsTo, validate_pull_odds_rule_set-IsValid,
}
use dailydraft_fun.Gacha.PullOdds.Select.{pick, band_for_roll, band_for_value}
use dailydraft_fun.Gacha.PullOdds.Select.Bands.{
  HasRoll, band_for_roll_iff, IsReached, band_for_value-IsReached,
}

abbrev band_input : String → String → ℕ → Value
band_input label minimum ppm = obj (
    field (text "label") (literal label) (
      field (text "minimumInsuredValueMinor") (literal minimum)
        (field (text "probabilityPpm") (num (int ppm)) end)))

-- The table of `createFixtureGachaPullOddsRuleSet`.
abbrev rules_input : Value
rules_input = obj (
    field (text "activation") (literal "fixture-only") (
      field (text "bands")
        (arr (
          cons (band_input "base" "0" 620_000) (
            cons (band_input "plus" "50000000" 250_000) (
              cons (band_input "premium" "100000000" 100_000)
                (cons (band_input "chase" "250000000" 30_000) nil)))))
        (field (text "calculatorVersion") (literal "dailydraft.gacha-pull-odds-calculator.v1") (
          field (text "constraints")
            (obj (field (text "minimumInsuredValueMinor") (literal "nondecreasing") end))
            (field (text "currency") (literal "USDC") (
              field (text "decimals") (num (int 6)) (
                field (text "probabilityScalePpm") (num (int 1_000_000)) (
                  field (text "rulesVersion") (literal "sports-pack-gacha-fixture-v1") (
                    field (text "schemaVersion") (literal "dailydraft.gacha-pull-odds.v1") (
                      field (text "snapshotContentHash") (str some_hash)
                        (field (text "rulesHash") (str some_hash) end)))))))))))

abbrev rules : RuleSet
unfolding validate_pull_odds_rule_set check_header read_bands read_band starts_at_zero seal_rules
    parse_minor_units hash_rule_set is_unsigned_integer is_hash is_rules_version get is_text
    is_number big_int to_string
rules = from_ok (validate_pull_odds_rule_set host rules_input) tt

rules-run : validate_pull_odds_rule_set host rules_input ≡ ok rules
unfolding rules
rules-run = refl

abbrev plus_band : Band
unfolding rules band_for_roll pick
plus_band = from_ok (band_for_roll rules.bands (int 620_000)) tt

-- The first number of the second band, and -0, which counts as the first number of all.
plus_band-run : band_for_roll rules.bands (int 620_000) ≡ ok plus_band
unfolding plus_band
plus_band-run = refl

plus_band-label : plus_band.label ≡ plus
unfolding plus_band
plus_band-label = refl

neg_zero-run : band_for_roll rules.bands neg_zero ≡ band_for_roll rules.bands (int 0)
unfolding rules band_for_roll pick
neg_zero-run = refl

value-run : parse_minor_units (literal "99999999") ≡ ok 99_999_999
unfolding parse_minor_units is_unsigned_integer big_int
value-run = refl

validate_pull_odds_rule_set-IsValid_example : IsValid host rules × CommitsTo rules_input rules
validate_pull_odds_rule_set-IsValid_example =
    validate_pull_odds_rule_set-IsValid host rules_input rules-run

band_for_roll_iff_example :
    (620_000 < 1_000_000 → (b : Band) × (band_for_roll rules.bands (int 620_000) ≡ ok b))
    × ((b : Band)
        → (band_for_roll rules.bands (int 620_000) ≡ ok b) ↔ HasRoll rules.bands 620_000 b)
band_for_roll_iff_example = band_for_roll_iff host rules_input 620_000 rules-run

band_for_value-IsReached_example :
    (b : Band) × (band_for_value rules.bands (literal "99999999") ≡ ok b)
    × IsReached rules.bands 99_999_999 b
band_for_value-IsReached_example =
    band_for_value-IsReached host rules_input (literal "99999999") rules-run value-run

well_formed : is_hash some_hash ≡ true
unfolding is_hash
well_formed = refl

well_formed_rules : is_hash (hash_rule_set host (unsigned_fixture some_hash)) ≡ true
unfolding is_hash hash_rule_set
well_formed_rules = refl

validate-fixture_rule_set_example :
    validate_pull_odds_rule_set host (rule_set_value (fixture_rule_set host some_hash))
    ≡ ok (fixture_rule_set host some_hash)
validate-fixture_rule_set_example =
    validate-fixture_rule_set host some_hash well_formed well_formed_rules
