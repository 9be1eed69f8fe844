-- ===== src/Fantasy/Payout/Report.antt =====
-- apps/api/src/fantasy/fantasy-payout.ts: the result of a payout calculation and its encoding, over
-- which the calculation hash is taken.
use dailydraft_fun.Prelude.{ℕ, List, [], ◌∷◌}
use dailydraft_fun.Js.Text.{Text, text}
use dailydraft_fun.Js.Value.{int, Value, num, str, arr, obj, Items, nil, cons, end, field}
use dailydraft_fun.Js.Canonical.{Host, hash_value}
use dailydraft_fun.Domain.{Money, money_value}
use dailydraft_fun.Fantasy.Domain.{Sport, Position, sport_text, position_text}
use dailydraft_fun.Fantasy.Payout.Holders.{HolderReward}

pub record Allocation : Type 0 where
  pub holder_residual : Money
  pub holder_rewards : List HolderReward
  pub place : ℕ
  pub place_allocation : Money
  pub place_basis_points : Text
  pub player_id : Text
  pub position : Position

-- The fields of `FantasyPayoutResult` whose type is not one literal, less the calculation hash.
pub record Canonical : Type 0 where
  pub allocations : List Allocation
  pub distributed : Money
  pub prize_pool : Money
  pub residual : Money
  pub undistributed : Money
  pub rules_hash : Text
  pub rules_version : Text
  pub sport : Sport

pub record Payouts : Type 0 where
  pub canonical : Canonical
  pub open canonical use *
  pub calculation_hash : Text

rewards_value : List HolderReward → Items
rewards_value [] = nil
rewards_value (r ∷ rs) =
    cons
      (obj (
        field (text "eligibleShares") (str r.eligible_shares) (
          field (text "reward") (money_value r.reward)
            (field (text "walletAddress") (str r.wallet_address) end))))
      (rewards_value rs)

allocations_value : List Allocation → Items
unfolding rewards_value
allocations_value [] = nil
allocations_value (a ∷ rest) =
    cons
      (obj (
        field (text "holderResidual") (money_value a.holder_residual) (
          field (text "holderRewards") (arr (rewards_value a.holder_rewards)) (
            field (text "place") (num (int a.place)) (
              field (text "placeAllocation") (money_value a.place_allocation) (
                field (text "placeBasisPoints") (str a.place_basis_points) (
                  field (text "playerId") (str a.player_id)
                    (field (text "position") (str (position_text a.position)) end))))))))
      (allocations_value rest)

-- The object `canonical` of the code.
unfoldable pub canonical_value : Canonical → Value
unfolding allocations_value
canonical_value c = obj (
    field (text "allocations") (arr (allocations_value c.allocations)) (
      field (text "calculatorVersion") (str (text "dailydraft.fantasy-payout.v1")) (
        field (text "currency") (str (text "USDC")) (
          field (text "decimals") (num (int 6)) (
            field (text "distributed") (money_value c.distributed) (
              field (text "prizePool") (money_value c.prize_pool) (
                field (text "residual") (money_value c.residual) (
                  field (text "rounding") (str (text "floor")) (
                    field (text "rulesHash") (str c.rules_hash) (
                      field (text "rulesVersion") (str c.rules_version) (
                        field (text "sport") (str (sport_text c.sport)) (
                          field (text "undistributed") (money_value c.undistributed) end))))))))))))

-- `Object.freeze({ ...canonical, calculationHash })`
unfoldable pub seal_payouts : Host → Canonical → Payouts
unfolding canonical_value hash_value
seal_payouts host c = record {
  canonical = c;
  calculation_hash = hash_value host (canonical_value c);
}
