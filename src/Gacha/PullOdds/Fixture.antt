-- ===== src/Gacha/PullOdds/Fixture.antt =====
-- apps/api/src/gacha/gacha-pull-odds.ts: `createFixtureGachaPullOddsRuleSet`.
use dailydraft_fun.Prelude.{ℕ, ◌≡◌, refl, true, [], ◌∷◌, ok}
use dailydraft_fun.Js.Text.{
  Text, text, text_eq_refl, is_unsigned_integer, is_hash, is_rules_version,
}
use dailydraft_fun.Js.Decimal.{big_int, to_string}
use dailydraft_fun.Js.Value.{get, is_text, is_number}
use dailydraft_fun.Js.Canonical.{Host}
use dailydraft_fun.Gacha.PullOdds.Types.{
  base, plus, premium, chase, BandLabel, Band, UnsignedRules, RuleSet, hash_rule_set,
  rule_set_value, parse_minor_units,
}
use dailydraft_fun.Gacha.PullOdds.Rules.{
  read_band, read_bands, check_header, starts_at_zero, seal_rules, validate_pull_odds_rule_set,
}

abbrev fixture_band : BandLabel → Text → ℕ → Band
fixture_band label minimum ppm = record {
  label = label;
  minimum_insured_value_minor = minimum;
  probability_ppm = ppm;
}

unfoldable pub unsigned_fixture : Text → UnsignedRules
unsigned_fixture snapshot_content_hash = record {
  bands =
      fixture_band base (text "0") 620_000
      ∷ fixture_band plus (text "50000000") 250_000
      ∷ fixture_band premium (text "100000000") 100_000
      ∷ fixture_band chase (text "250000000") 30_000
      ∷ [];
  rules_version = text "sports-pack-gacha-fixture-v1";
  snapshot_content_hash = snapshot_content_hash;
}

-- `createFixtureGachaPullOddsRuleSet`
unfoldable pub fixture_rule_set : Host → Text → RuleSet
fixture_rule_set host snapshot_content_hash =
    let unsigned = unsigned_fixture snapshot_content_hash in
    record { unsigned = unsigned; rules_hash = hash_rule_set host unsigned }

-- The fixture that is made for a well-formed snapshot hash passes the validation and comes out unchanged,
-- where the hash function gives a well-formed hash.
pub validate-fixture_rule_set :
    (host : Host) (snapshot_content_hash : Text)
    → is_hash snapshot_content_hash ≡ true
    → is_hash (hash_rule_set host (unsigned_fixture snapshot_content_hash)) ≡ true
    → validate_pull_odds_rule_set host
        (rule_set_value (fixture_rule_set host snapshot_content_hash))
      ≡ ok (fixture_rule_set host snapshot_content_hash)
unfolding validate_pull_odds_rule_set check_header read_bands read_band starts_at_zero seal_rules
    parse_minor_units rule_set_value fixture_rule_set unsigned_fixture is_unsigned_integer
    is_rules_version get is_text is_number big_int to_string
validate-fixture_rule_set host s h k =
    rw (h, k, text_eq_refl (hash_rule_set host (unsigned_fixture s))) refl
