-- ===== src/Gacha/PullOdds/Types.antt =====
-- apps/api/src/gacha/gacha-pull-odds.ts: the bands, their encoding, and the parser of minor units.
use dailydraft_fun.Prelude.{
  ℕ, ◌≤◌, ◌≡◌, not, List, [], ◌∷◌, arith, ltb, Result, ok, ◌>>=◌, ◌>>◌, throw_if, require,
}
use dailydraft_fun.Js.Text.{Text, text, is_unsigned_integer}
use dailydraft_fun.Js.Decimal.{big_int}
use dailydraft_fun.Js.Value.{
  int, Value, num, str, arr, obj, Items, nil, cons, Fields, end, field, as_string,
}
use dailydraft_fun.Js.Canonical.{Host, hash_value}

pub data ErrorCode : Type 0 where
  invalid_rules odds_total_mismatch rules_hash_mismatch unsupported_rules : ErrorCode

pub data BandLabel : Type 0 where
  base plus premium chase : BandLabel

-- `BAND_LABELS`
abbrev pub band_labels : List BandLabel
band_labels = base ∷ plus ∷ premium ∷ chase ∷ []

abbrev pub label_text : BandLabel → Text
label_text base = text "base"
label_text plus = text "plus"
label_text premium = text "premium"
label_text chase = text "chase"

abbrev pub probability_scale_ppm : ℕ
probability_scale_ppm = 1_000_000

abbrev pub max_u64 : ℕ
max_u64 = 18_446_744_073_709_551_615

pub record Band : Type 0 where
  pub label : BandLabel
  pub minimum_insured_value_minor : Text
  pub probability_ppm : ℕ

-- The fields of `UnsignedGachaPullOddsRuleSet` whose type is not one literal.
pub record UnsignedRules : Type 0 where
  pub bands : List Band
  pub rules_version : Text
  pub snapshot_content_hash : Text

pub record RuleSet : Type 0 where
  pub unsigned : UnsignedRules
  pub open unsigned use *
  pub rules_hash : Text

bands_value : List Band → Items
bands_value [] = nil
bands_value (b ∷ bs) =
    cons
      (obj (
        field (text "label") (str (label_text b.label)) (
          field (text "minimumInsuredValueMinor") (str b.minimum_insured_value_minor)
            (field (text "probabilityPpm") (num (int b.probability_ppm)) end))))
      (bands_value bs)

-- The properties of an `UnsignedGachaPullOddsRuleSet`, before other ones.
unfoldable pub rules_fields : UnsignedRules → Fields → Fields
unfolding bands_value
rules_fields u rest = field (text "activation") (str (text "fixture-only")) (
    field (text "bands") (arr (bands_value u.bands)) (
      field (text "calculatorVersion") (str (text "dailydraft.gacha-pull-odds-calculator.v1")) (
        field (text "constraints")
          (obj (field (text "minimumInsuredValueMinor") (str (text "nondecreasing")) end))
          (field (text "currency") (str (text "USDC")) (
            field (text "decimals") (num (int 6)) (
              field (text "probabilityScalePpm") (num (int probability_scale_ppm)) (
                field (text "rulesVersion") (str u.rules_version) (
                  field (text "schemaVersion") (str (text "dailydraft.gacha-pull-odds.v1"))
                    (field (text "snapshotContentHash") (str u.snapshot_content_hash) rest)))))))))

-- The JavaScript objects that an `UnsignedGachaPullOddsRuleSet` and a `GachaPullOddsRuleSet` are.
unfoldable pub rules_value : UnsignedRules → Value
unfolding rules_fields
rules_value u = obj (rules_fields u end)

unfoldable pub rule_set_value : RuleSet → Value
unfolding rules_fields
rule_set_value r = obj (rules_fields r.unsigned (field (text "rulesHash") (str r.rules_hash) end))

unfoldable pub hash_rule_set : Host → UnsignedRules → Text
unfolding rules_value hash_value
hash_rule_set host u = hash_value host (rules_value u)

-- `parseMinorUnits`
unfoldable pub parse_minor_units : Value → Result ErrorCode ℕ
parse_minor_units value = do
  t ← require (as_string value) invalid_rules
  throw_if (not (is_unsigned_integer t)) invalid_rules
  throw_if (ltb max_u64 (big_int t)) invalid_rules
  ok (big_int t)

pub parse_minor_units-le : (value : Value) {n : ℕ} → parse_minor_units value ≡ ok n → n ≤ max_u64
unfolding parse_minor_units
parse_minor_units-le value h = ground arith
