-- ===== src/Gacha/PullOdds/Rules.antt =====
-- apps/api/src/gacha/gacha-pull-odds.ts: `validateGachaPullOddsRuleSet`.
pub mod Sound
use dailydraft_fun.Prelude.{
  ℕ, ◌+◌, Bool, true, false, not, ◌||◌, List, [], ◌∷◌, ltb, ◌==◌, length, Result, ok, err, ◌>>=◌,
  ◌>>◌, throw_if, require,
}
use dailydraft_fun.Prelude.Int.{ℤ, pos, negsuc, ltb_ℤ}
use dailydraft_fun.Js.Text.{Text, text, text_eq, is_hash, is_rules_version}
use dailydraft_fun.Js.Decimal.{to_string}
use dailydraft_fun.Js.Value.{
  Value, undefined, Fields, get, is_text, is_number, as_object, as_array, as_string, as_natural,
}
use dailydraft_fun.Js.Canonical.{Host}
use dailydraft_fun.Gacha.PullOdds.Types.{
  ErrorCode, invalid_rules, odds_total_mismatch, rules_hash_mismatch, unsupported_rules, BandLabel,
  band_labels, label_text, probability_scale_ppm, Band, UnsignedRules, RuleSet, hash_rule_set,
  parse_minor_units,
}

-- One turn of the loop: the band, and its minimum as a number.
unfoldable pub read_band : BandLabel → ℤ → Value → Result ErrorCode (Band × ℕ)
read_band label previous candidate = do
  band ← require (as_object candidate) invalid_rules
  throw_if (not (is_text (label_text label) (get (text "label") band))) invalid_rules
  ppm ← require (as_natural (get (text "probabilityPpm") band)) invalid_rules
  throw_if (ltb probability_scale_ppm ppm) invalid_rules
  minimum ← parse_minor_units (get (text "minimumInsuredValueMinor") band)
  throw_if (ltb_ℤ (pos minimum) previous) invalid_rules
  ok (
    record {
      label = label;
      minimum_insured_value_minor = to_string minimum;
      probability_ppm = ppm;
    },
    minimum,
  )

-- `rules.bands[index]`, and what follows it
abbrev pub entry : List Value → Value
entry [] = undefined
entry (v ∷ vs) = v

abbrev pub later : List Value → List Value
later [] = []
later (v ∷ vs) = vs

-- The loop over the labels, with the total of the probabilities.
unfoldable pub read_bands : List BandLabel → ℤ → ℕ → List Value → Result ErrorCode (List Band × ℕ)
read_bands [] previous total candidates = ok ([], total)
read_bands (label ∷ labels) previous total candidates = do
  (band, minimum) ← read_band label previous (entry candidates)
  (bands, sum) ← read_bands labels (pos minimum) (total + band.probability_ppm) (later candidates)
  ok (band ∷ bands, sum)

-- The tests before the bands: the version, the snapshot's hash, the committed hash and the candidates.
unfoldable pub check_header : Fields → Result ErrorCode (Text × Text × Text × List Value)
check_header rules = do
  throw_if
      (not (is_text (text "dailydraft.gacha-pull-odds.v1") (get (text "schemaVersion") rules))
        || not (
            is_text (text "dailydraft.gacha-pull-odds-calculator.v1")
              (get (text "calculatorVersion") rules))
        || not (is_text (text "fixture-only") (get (text "activation") rules)))
      unsupported_rules
  throw_if
      (not (is_text (text "USDC") (get (text "currency") rules))
        || not (is_number 6 (get (text "decimals") rules))
        || not (is_number probability_scale_ppm (get (text "probabilityScalePpm") rules)))
      invalid_rules
  constraints ← require (as_object (get (text "constraints") rules)) invalid_rules
  throw_if
      (not (is_text (text "nondecreasing") (get (text "minimumInsuredValueMinor") constraints)))
      invalid_rules
  version ← require (as_string (get (text "rulesVersion") rules)) invalid_rules
  throw_if (not (is_rules_version version)) invalid_rules
  snapshot ← require (as_string (get (text "snapshotContentHash") rules)) invalid_rules
  throw_if (not (is_hash snapshot)) invalid_rules
  hash ← require (as_string (get (text "rulesHash") rules)) rules_hash_mismatch
  throw_if (not (is_hash hash)) rules_hash_mismatch
  candidates ← require (as_array (get (text "bands") rules)) invalid_rules
  throw_if (not (length candidates == 4)) invalid_rules
  ok (version, snapshot, hash, candidates)

-- `bands[0]?.minimumInsuredValueMinor !== '0'`, negated
unfoldable pub starts_at_zero : List Band → Bool
starts_at_zero [] = false
starts_at_zero (b ∷ bs) = text_eq b.minimum_insured_value_minor (text "0")

-- The tests after the loop.
unfoldable pub seal_rules : Host → UnsignedRules → ℕ → Text → Result ErrorCode RuleSet
unfolding starts_at_zero
seal_rules host unsigned total hash = do
  throw_if (not (starts_at_zero unsigned.bands)) invalid_rules
  throw_if (not (total == probability_scale_ppm)) odds_total_mismatch
  throw_if (not (text_eq (hash_rule_set host unsigned) hash)) rules_hash_mismatch
  ok (record { unsigned = unsigned; rules_hash = hash_rule_set host unsigned })

-- `validateGachaPullOddsRuleSet`
unfoldable pub validate_pull_odds_rule_set : Host → Value → Result ErrorCode RuleSet
validate_pull_odds_rule_set host value = do
  rules ← require (as_object value) unsupported_rules
  (version, snapshot, hash, candidates) ← check_header rules
  (bands, total) ← read_bands band_labels (negsuc 0) 0 candidates
  seal_rules host
      (record { bands = bands; rules_version = version; snapshot_content_hash = snapshot }) total
      hash
