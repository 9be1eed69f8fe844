-- ===== src/Crash/Risk/Health.antt =====
-- apps/api/src/crash/crash-risk.policy.ts: `validateCrashRiskHealth`.
use dailydraft_fun.Prelude.{
  ℕ, ◌+◌, Bool, true, not, ◌&&◌, ◌||◌, List, [], ◌∷◌, leb, ◌==◌, length, Result, ok, ◌>>=◌, ◌>>◌,
  throw_if, require,
}
use dailydraft_fun.Js.Text.{Text, text, text_eq, text_mem}
use dailydraft_fun.Js.Value.{Value, get, keys, is_text, as_object, as_string}
use dailydraft_fun.Js.Canonical.{Host}
use dailydraft_fun.Crash.Risk.Types.{RiskError, health, Dates, RiskRules, risk_rules_value, Health}
use dailydraft_fun.Crash.Risk.Rules.{validate_risk_rules}

-- `HEALTH_KEYS`
abbrev pub health_keys : List Text
health_keys =
    text "observedAt"
    ∷ text "poolReference"
    ∷ text "poolStatus"
    ∷ text "providerReference"
    ∷ text "providerStatus"
    ∷ text "riskRulesHash"
    ∷ text "schemaVersion"
    ∷ []

-- `keys.every((key) => expected.has(key))`
unfoldable pub all_expected : List Text → Bool
unfolding text_mem
all_expected [] = true
all_expected (k ∷ ks) = text_mem k health_keys && all_expected ks

-- `now - observed <= limit` and `observed <= now + 60000`, on times as integers
unfoldable pub is_fresh : ℕ → ℕ → ℕ → Bool
is_fresh observed now limit = leb observed (now + 60_000) && leb now (limit + observed)

-- `validateCrashRiskHealth` for rules that were validated before; they are validated again
unfoldable pub validate_risk_health : Host → Dates → Value → RiskRules → ℕ → Result RiskError Health
validate_risk_health host dates value rules_input now = do
  rules ← validate_risk_rules host (risk_rules_value rules_input)
  evidence ← require (as_object value) health
  throw_if
      (not (length (keys evidence) == 7)
        || not (all_expected (keys evidence))
        || not
            (is_text (text "dailydraft.crash-risk-health.v1") (get (text "schemaVersion") evidence))
        || not (is_text (text "healthy") (get (text "providerStatus") evidence))
        || not (is_text (text "healthy") (get (text "poolStatus") evidence))
        || not (is_text rules.provider_reference (get (text "providerReference") evidence))
        || not (is_text rules.pool_reference (get (text "poolReference") evidence))
        || not (is_text rules.risk_rules_hash (get (text "riskRulesHash") evidence)))
      health
  observed_at ← require (as_string (get (text "observedAt") evidence)) health
  observed ← require (dates.parse observed_at) health
  throw_if (not (text_eq (dates.to_iso_string observed) observed_at)) health
  throw_if (not (is_fresh observed now rules.evidence_max_age_ms)) health
  ok (record {
    observed_at = observed_at;
    pool_reference = rules.pool_reference;
    provider_reference = rules.provider_reference;
    risk_rules_hash = rules.risk_rules_hash;
  })
