-- ===== src/Crash/Risk/Rules/Sound.antt =====
-- What holds of the risk rules that `validateCrashRiskRules` accepts.
use dailydraft_fun.Prelude.{ℕ, ◌≤◌, ◌<◌, ◌≡◌, refl, true, arith, ok, from_bind, require}
use dailydraft_fun.Js.Text.{Text, text, text_eq_iff, is_hash, is_identifier}
use dailydraft_fun.Js.Decimal.{big_int, big_int-to_string}
use dailydraft_fun.Js.Value.{Value, str, obj, Fields, get, as_string}
use dailydraft_fun.Js.Canonical.{Host}
use dailydraft_fun.Crash.Risk.Types.{
  configuration, UnsignedRules, RiskRules, hash_risk_rules, parse_amount,
}
use dailydraft_fun.Crash.Risk.Rules.{
  valid_identifier, positive_integer, check_literals, read_amounts, seal_rules, validate_risk_rules,
}

-- Bounded numbers, identifiers, and amounts that nest: pot, wallet, treasury.
pub record IsValid (host : Host) (r : RiskRules) : Type 0 where
  pub stage : (0 < r.max_stage) × (r.max_stage ≤ 64)
  pub duration : (0 < r.max_duration) × (r.max_duration ≤ 86_400_000)
  pub age : (0 < r.evidence_max_age_ms) × (r.evidence_max_age_ms ≤ 300_000)
  pub identifiers :
      (is_identifier r.rules_version ≡ true)
      × (is_identifier r.provider_reference ≡ true)
      × (is_identifier r.pool_reference ≡ true)
  pub pot : 0 < big_int r.max_pot_amount
  pub pot_in_wallet : big_int r.max_pot_amount ≤ big_int r.max_wallet_exposure_amount
  pub wallet_in_treasury :
      big_int r.max_wallet_exposure_amount ≤ big_int r.max_treasury_exposure_amount
  pub treasury : big_int r.max_treasury_exposure_amount ≤ 18_446_744_073_709_551_615
  pub hash : r.risk_rules_hash ≡ hash_risk_rules host r.unsigned
  pub hash_shape : is_hash r.risk_rules_hash ≡ true

valid_identifier_lem :
    (value : Value) {t : Text} → valid_identifier value ≡ ok t → is_identifier t ≡ true
unfolding valid_identifier
valid_identifier_lem value h = ground arith

positive_integer_lem :
    (limit : ℕ) (value : Value) {n : ℕ}
    → positive_integer limit value ≡ ok n
    → (0 < n) × (n ≤ limit)
unfolding positive_integer
positive_integer_lem limit value h = ground arith

read_amounts_lem :
    (rules : Fields) {pot wallet treasury : ℕ}
    → read_amounts rules ≡ ok (pot, wallet, treasury)
    → (0 < pot) × (pot ≤ wallet) × (wallet ≤ treasury) × (treasury ≤ 18_446_744_073_709_551_615)
unfolding read_amounts parse_amount
read_amounts_lem rules h = ground arith

seal_rules_lem :
    (host : Host) (unsigned : UnsignedRules) (hash : Text) {rules : RiskRules}
    → seal_rules host unsigned hash ≡ ok rules
    → (rules ≡ record { unsigned = unsigned; risk_rules_hash = hash })
      × (hash ≡ hash_risk_rules host unsigned)
      × (is_hash hash ≡ true)
unfolding seal_rules
seal_rules_lem host unsigned hash h =
    ground (arith, text_eq_iff (hash_risk_rules host unsigned) hash)

-- Accepted risk rules have bounded stages, duration and evidence age, well-formed references, a positive
-- pot limit within the wallet limit within the treasury limit within 64 bits, and a hash that is both the
-- committed one and the hash of their content.
pub validate_risk_rules-IsValid :
    (host : Host) (value : Value) {rules : RiskRules}
    → validate_risk_rules host value ≡ ok rules
    → IsValid host rules
      × ((fields : Fields) × (value ≡ obj fields)
          × (get (text "riskRulesHash") fields ≡ str rules.risk_rules_hash))
unfolding validate_risk_rules
validate_risk_rules-IsValid host (obj fields) h = from_bind (check_literals fields) _ h λ _ _ h₀.
    from_bind (valid_identifier (get (text "rulesVersion") fields)) _ h₀ λ version version_eq h₁.
      from_bind (valid_identifier (get (text "providerReference") fields)) _ h₁
        λ provider provider_eq h₂.
          from_bind (valid_identifier (get (text "poolReference") fields)) _ h₂ λ pool pool_eq h₃.
            from_bind (positive_integer 64 (get (text "maxStage") fields)) _ h₃ λ stage stage_eq h₄.
              from_bind (positive_integer 86_400_000 (get (text "maxDurationMs") fields)) _ h₄
                λ duration duration_eq h₅.
                  from_bind (positive_integer 300_000 (get (text "evidenceMaxAgeMs") fields)) _ h₅
                    λ age age_eq h₆. from_bind (read_amounts fields) _ h₆ λ amounts amounts_eq h₇.
                      from_bind (require (as_string (get (text "riskRulesHash") fields)) _) _ h₇
                        λ hash hash_eq h₈.
                          let (positive, in_wallet, in_treasury, small) =
                            read_amounts_lem fields amounts_eq in
                          let (same, hashed, shape) = seal_rules_lem host _ hash h₈ in
                          rw same (
                            record {
                              stage = positive_integer_lem 64 _ stage_eq;
                              duration = positive_integer_lem 86_400_000 _ duration_eq;
                              age = positive_integer_lem 300_000 _ age_eq;
                              identifiers = (
                                valid_identifier_lem _ version_eq,
                                valid_identifier_lem _ provider_eq,
                                valid_identifier_lem _ pool_eq,
                              );
                              pot = simp big_int-to_string positive;
                              pot_in_wallet = simp big_int-to_string in_wallet;
                              wallet_in_treasury = simp big_int-to_string in_treasury;
                              treasury = simp big_int-to_string small;
                              hash = hashed;
                              hash_shape = shape;
                            },
                            (fields, refl, as_string-eq-some _ hash_eq),
                          )
  where
    as_string-eq-some :
        (v : Value) {t : Text} → require (as_string v) configuration ≡ ok t → v ≡ str t
    as_string-eq-some v h = ground arith
validate_risk_rules-IsValid host _ h = ground arith
