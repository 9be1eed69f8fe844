-- ===== src/Treasury/Limits.antt =====
-- apps/api/src/treasury/house-treasury.policy.ts: `evaluateHouseExposureLimits`, and when it
-- allows a request.
use dailydraft_fun.Prelude.{ℕ, ◌<◌, ◌≡◌, ◌↔◌, Option, none, some, arith, leb, if◌then◌else◌}
use dailydraft_fun.Prelude.Int.{ℤ, pos, ◌+ℤ◌, ltb_ℤ, ◌≤ℤ◌}
use dailydraft_fun.Treasury.Types.{
  Config, Reason, daily_loss, delegated_allowance, minimum_liquidity, player_exposure,
  tier_concurrency, total_exposure,
}

-- `HouseExposureLimitSnapshot`; a caller may put in a negative difference as `requested`
pub record Exposure : Type 0 where
  pub active_per_tier : ℕ
  pub active_per_wallet : ℕ
  pub daily_loss_amount : ℕ
  pub delegated_amount : ℕ
  pub requested : ℤ
  pub total : ℕ
  pub verified_balance : ℕ

abbrev pub requested_exposure : Exposure → ℤ
requested_exposure e = pos e.total +ℤ e.requested

-- `evaluateHouseExposureLimits`: `none` is the decision that allows
unfoldable pub evaluate_limits : Config → Exposure → Option Reason
evaluate_limits c e =
    if leb c.max_active_per_wallet e.active_per_wallet
    then some player_exposure
    else if leb c.max_concurrent_per_tier e.active_per_tier
    then some tier_concurrency
    else if ltb_ℤ (pos c.daily_loss_limit) (pos e.daily_loss_amount +ℤ requested_exposure e)
    then some daily_loss
    else if ltb_ℤ (pos c.max_total_exposure) (requested_exposure e)
    then some total_exposure
    else if ltb_ℤ (pos e.verified_balance) (requested_exposure e +ℤ pos c.minimum_liquidity)
    then some minimum_liquidity
    else if ltb_ℤ (pos e.delegated_amount) (requested_exposure e)
    then some delegated_allowance
    else none

-- Every limit that the policy promises, after the request.
pub record RespectsLimits (c : Config) (e : Exposure) : Type 0 where
  pub wallet : e.active_per_wallet < c.max_active_per_wallet
  pub tier : e.active_per_tier < c.max_concurrent_per_tier
  pub loss : pos e.daily_loss_amount +ℤ requested_exposure e ≤ℤ pos c.daily_loss_limit
  pub exposure : requested_exposure e ≤ℤ pos c.max_total_exposure
  pub liquidity : requested_exposure e +ℤ pos c.minimum_liquidity ≤ℤ pos e.verified_balance
  pub allowance : requested_exposure e ≤ℤ pos e.delegated_amount

-- A request is allowed exactly when all six limits hold with it counted in.
pub evaluate_limits_iff :
    (c : Config) (e : Exposure) → (evaluate_limits c e ≡ none) ↔ RespectsLimits c e
unfolding evaluate_limits
evaluate_limits_iff c e = (
  λ h. ground arith,
  λ r. ground (arith, r.wallet, r.tier, r.loss, r.exposure, r.liquidity, r.allowance),
)
