-- ===== src/Gacha/PullOdds/Rules/Sound.antt =====
-- What holds of every odds table that `validateGachaPullOddsRuleSet` accepts.
use dailydraft_fun.Prelude.{
  ℕ, ◌+◌, ◌≤◌, ◌≡◌, refl, sym, ap, ◌∙◌, true, not, List, [], ◌∷◌, map, sum_by, arith, ltb, ok,
  from_bind, ok-injective, throw_if, require,
}
use dailydraft_fun.Prelude.Int.{ℤ, pos, negsuc, ◌≤ℤ◌}
use dailydraft_fun.Js.Text.{Text, text, text_eq_iff, is_hash, is_rules_version}
use dailydraft_fun.Js.Decimal.{big_int, big_int-to_string}
use dailydraft_fun.Js.Value.{Value, str, obj, Fields, get, is_text, as_object, as_natural}
use dailydraft_fun.Js.Canonical.{Host}
use dailydraft_fun.Gacha.PullOdds.Types.{
  BandLabel, band_labels, label_text, Band, UnsignedRules, RuleSet, hash_rule_set,
  parse_minor_units, parse_minor_units-le,
}
use dailydraft_fun.Gacha.PullOdds.Rules.{
  read_band, entry, later, read_bands, check_header, starts_at_zero, seal_rules,
  validate_pull_odds_rule_set,
}

abbrev pub minimum_of : Band → ℕ
minimum_of b = big_int b.minimum_insured_value_minor

abbrev pub total_ppm : List Band → ℕ
total_ppm bands = sum_by (λ b. b.probability_ppm) bands

-- Minima that do not fall and fit 64 bits, from a lower bound.
abbrev pub IsChain : ℤ → List Band → Type 0
IsChain previous [] = Unit
IsChain previous (b ∷ bs) =
    (previous ≤ℤ pos (minimum_of b))
    × (minimum_of b ≤ 18_446_744_073_709_551_615)
    × IsChain (pos (minimum_of b)) bs

read_band_lem :
    (label : BandLabel) (previous : ℤ) (candidate : Value) {b : Band} {minimum : ℕ}
    → read_band label previous candidate ≡ ok (b, minimum)
    → (b.label ≡ label)
      × (minimum ≡ minimum_of b)
      × (previous ≤ℤ pos (minimum_of b))
      × (minimum_of b ≤ 18_446_744_073_709_551_615)
unfolding read_band
read_band_lem label previous candidate h =
    from_bind (require (as_object candidate) _) _ h λ band _ h₁.
      from_bind (throw_if (not (is_text (label_text label) (get (text "label") band))) _) _ h₁
        λ _ _ h₂.
          from_bind (require (as_natural (get (text "probabilityPpm") band)) _) _ h₂ λ ppm _ h₃.
            from_bind (throw_if (ltb 1_000_000 ppm) _) _ h₃ λ _ _ h₄.
              from_bind (parse_minor_units (get (text "minimumInsuredValueMinor") band)) _ h₄
                λ minimum parsed h₅. ground (
                  arith,
                  parse_minor_units-le (get (text "minimumInsuredValueMinor") band) parsed,
                  big_int-to_string minimum,
                )

read_bands_lem :
    (labels : List BandLabel) (previous : ℤ) (total : ℕ) (candidates : List Value)
    {bands : List Band} {sum : ℕ}
    → read_bands labels previous total candidates ≡ ok (bands, sum)
    → (map (λ b. b.label) bands ≡ labels) × (sum ≡ total + total_ppm bands) × IsChain previous bands
unfolding read_bands
read_bands_lem [] previous total candidates {bands} {sum} h =
    let nothing : bands ≡ [] = ground arith in
    let same : sum ≡ total = ground arith in rw nothing (refl, omega (arith, same), tt)
read_bands_lem (label ∷ labels) previous total candidates {bands} {sum = all} h =
    from_bind (read_band label previous (entry candidates)) _ h λ head checked h₁.
      from_bind (read_bands labels (pos head.1) (total + head.0.probability_ppm) (later candidates))
        _ h₁
        λ rest loop h₂.
          let (name, minimum, above, bound) =
            read_band_lem label previous (entry candidates) checked in
          let (names, sum, chain) =
            read_bands_lem labels (pos head.1) (total + head.0.probability_ppm) (later candidates)
              loop in
          let bands_eq : bands ≡ head.0 ∷ rest.0 = sym (ap (λ p. p.0) (ok-injective h₂)) in
          let all_eq : all ≡ rest.1 = sym (ap (λ p. p.1) (ok-injective h₂)) in
          rw (bands_eq, all_eq)
            (rw (name, names) refl, omega (arith, sum), (above, bound, rw minimum at chain))

check_header_lem :
    (fields : Fields) {version snapshot hash : Text} {candidates : List Value}
    → check_header fields ≡ ok (version, snapshot, hash, candidates)
    → (get (text "rulesHash") fields ≡ str hash)
      × (get (text "snapshotContentHash") fields ≡ str snapshot)
      × (is_rules_version version ≡ true)
      × (is_hash snapshot ≡ true)
unfolding check_header
check_header_lem fields h = ground arith

seal_rules_lem :
    (host : Host) (unsigned : UnsignedRules) (total : ℕ) (hash : Text) {rules : RuleSet}
    → seal_rules host unsigned total hash ≡ ok rules
    → (rules ≡ record { unsigned = unsigned; rules_hash = hash_rule_set host unsigned })
      × (starts_at_zero unsigned.bands ≡ true)
      × (total ≡ 1_000_000)
      × (hash ≡ hash_rule_set host unsigned)
unfolding seal_rules
seal_rules_lem host unsigned total hash h =
    ground (arith, text_eq_iff (hash_rule_set host unsigned) hash)

-- What a pull relies on.
pub record IsValid (host : Host) (rules : RuleSet) : Type 0 where
  pub labels : map (λ b. b.label) rules.bands ≡ band_labels
  pub total : total_ppm rules.bands ≡ 1_000_000
  pub chain : IsChain (negsuc 0) rules.bands
  pub from_zero : starts_at_zero rules.bands ≡ true
  pub version : is_rules_version rules.rules_version ≡ true
  pub snapshot : is_hash rules.snapshot_content_hash ≡ true
  pub hash : rules.rules_hash ≡ hash_rule_set host rules.unsigned

-- The hashes that the input holds.
pub record CommitsTo (value : Value) (rules : RuleSet) : Type 0 where
  pub fields : Fields
  pub object : value ≡ obj fields
  pub rules_hash : get (text "rulesHash") fields ≡ str rules.rules_hash
  pub snapshot_hash : get (text "snapshotContentHash") fields ≡ str rules.snapshot_content_hash

-- An accepted odds table has the four bands in their order, with probabilities that sum to a million
-- exactly and minima that start at zero, never fall and fit 64 bits; its version and its snapshot hash
-- are well formed, the snapshot hash is the committed one, and its own hash is both the committed one
-- and the hash of its content.
pub validate_pull_odds_rule_set-IsValid :
    (host : Host) (value : Value) {rules : RuleSet}
    → validate_pull_odds_rule_set host value ≡ ok rules
    → IsValid host rules × CommitsTo value rules
unfolding validate_pull_odds_rule_set
validate_pull_odds_rule_set-IsValid host (obj fields) h =
    from_bind (check_header fields) _ h λ head checked h₁.
      from_bind (read_bands band_labels (negsuc 0) 0 head.3) _ h₁ λ table loop h₂.
        let (committed, snapshot, version, well_formed) = check_header_lem fields checked in
        let (names, sum, chain) = read_bands_lem band_labels (negsuc 0) 0 head.3 loop in
        let (same, zero, total, hash) = seal_rules_lem host _ table.1 head.2 h₂ in
        rw same (
          record {
            labels = names;
            total = omega (arith, sum, total);
            chain = chain;
            from_zero = zero;
            version = version;
            snapshot = well_formed;
            hash = refl;
          },
          record {
            fields = fields;
            object = refl;
            rules_hash = committed ∙ ap str hash;
            snapshot_hash = snapshot;
          },
        )
validate_pull_odds_rule_set-IsValid host _ h = ground arith
