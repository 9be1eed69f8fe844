-- ===== src/Fantasy/Payout/Tests.antt =====
-- Runs of the payout calculator, and its theorems at concrete inputs.
use dailydraft_fun.Prelude.{ℕ, ◌<◌, ◌≡◌, refl, sum_by, List, String, ok, from_ok}
use dailydraft_fun.Prelude.Int.{◌+ℤ◌}
use dailydraft_fun.Js.Text.{
  text, text_mem, is_unsigned_integer, is_solana_address, is_hash, is_rules_version,
}
use dailydraft_fun.Js.Decimal.{big_int, to_string}
use dailydraft_fun.Js.Value.{
  int, Value, num, str, arr, obj, Items, nil, cons, end, field, get, is_text, is_number, items,
}
use dailydraft_fun.Js.Sample.{some_hash, host, literal, usdc}
use dailydraft_fun.Fantasy.Domain.{as_sport, as_position, fantasy_money, fantasy_money_ℤ}
use dailydraft_fun.Fantasy.Payout.Types.{
  RuleSet, hash_rule_set, parse_basis_points, parse_unsigned_amount, parse_money,
}
use dailydraft_fun.Fantasy.Payout.Rules.{
  read_places, read_position, read_positions, check_header, seal_rules, validate_payout_rule_set,
}
use dailydraft_fun.Fantasy.Payout.Rules.Sound.{IsValid, CommitsTo, validate_payout_rule_set-IsValid}
use dailydraft_fun.Fantasy.Payout.Holders.{
  Distribution, reward_of, parse_holder, parse_holders, pay_holders, distribution,
  distribute_to_holders,
}
use dailydraft_fun.Fantasy.Payout.Holders.Inputs.{AreRewardsOf}
use dailydraft_fun.Fantasy.Payout.Holders.Bounds.{
  paid_amount, share_amount, IsFair, distribute_to_holders-IsFair,
}
use dailydraft_fun.Fantasy.Payout.Report.{Allocation, Canonical, Payouts, seal_payouts}
use dailydraft_fun.Fantasy.Payout.Calculate.{
  Totals, find_rule, placement_key, read_placement, place_amount, add_place, allocation_of,
  allocate, no_totals, undistributed_amount, settle, calculate_payouts,
}
use dailydraft_fun.Fantasy.Payout.Calculate.Conservation.{
  Splits, settle-total, calculate_payouts-Splits,
}

abbrev rules_input : Value
rules_input = obj (
    field (text "activation") (literal "fixture-only") (
      field (text "basisPointsTotal") (literal "10000") (
        field (text "calculatorVersion") (literal "dailydraft.fantasy-payout.v1") (
          field (text "currency") (literal "USDC") (
            field (text "decimals") (num (int 6)) (
              field (text "positions")
                (arr (
                  cons
                    (obj (
                      field (text "placeBasisPoints")
                        (arr (cons (literal "6000") (cons (literal "3000") nil)))
                        (field (text "position") (literal "FORWARD") end)))
                    (cons
                      (obj (
                        field (text "placeBasisPoints") (arr (cons (literal "1000") nil))
                          (field (text "position") (literal "DEFENDER") end)))
                      nil)))
                (field (text "rounding") (literal "floor") (
                  field (text "rulesVersion") (literal "synthetic-soccer-ci-v1") (
                    field (text "schemaVersion") (literal "dailydraft.fantasy-payout-rules.v1") (
                      field (text "sport") (literal "SOCCER")
                        (field (text "rulesHash") (str some_hash) end)))))))))))

abbrev holder : String → String → Value
holder wallet shares = obj (
    field (text "walletAddress") (literal wallet)
      (field (text "eligibleShares") (literal shares) end))

abbrev placement : ℕ → String → Items → Value
placement place position holders = obj (
    field (text "place") (num (int place)) (
      field (text "playerId") (literal "player")
        (field (text "position") (literal position) (field (text "holders") (arr holders) end))))

-- A paid place with a remainder, and a place that nobody holds.
abbrev placements : Items
placements =
    cons
      (placement 1 "FORWARD" (
        cons (holder "Fwd3A2222222222222222222222222222" "2")
          (cons (holder "Fwd3B2222222222222222222222222222" "1") nil)))
      (cons (placement 1 "DEFENDER" nil) nil)

abbrev pool_input : Value
pool_input = usdc "1001"

abbrev rules : RuleSet
unfolding validate_payout_rule_set read_positions read_position read_places check_header seal_rules
    parse_basis_points hash_rule_set is_unsigned_integer is_hash is_rules_version get is_text
    is_number as_sport as_position big_int to_string
rules = from_ok (validate_payout_rule_set host rules_input) tt

rules-run : validate_payout_rule_set host rules_input ≡ ok rules
unfolding rules
rules-run = refl

abbrev payouts : Payouts
unfolding rules calculate_payouts parse_money parse_unsigned_amount allocate read_placement
    find_rule placement_key place_amount add_place allocation_of distribute_to_holders parse_holders
    parse_holder distribution pay_holders reward_of settle undistributed_amount ◌+ℤ◌
    is_solana_address text_mem seal_payouts fantasy_money fantasy_money_ℤ
payouts = from_ok (calculate_payouts host rules_input pool_input (arr placements)) tt

payouts-run : calculate_payouts host rules_input pool_input (arr placements) ≡ ok payouts
unfolding payouts
payouts-run = refl

-- 1001 * 60 % is 600.6, of which 400 and 200 go to the two holders.
payouts-amounts :
    (big_int payouts.distributed.amount ≡ 600)
    × (big_int payouts.residual.amount ≡ 0)
    × (big_int payouts.undistributed.amount ≡ 401)
unfolding payouts
payouts-amounts = (refl, refl, refl)

abbrev placed : List Allocation × Totals
unfolding payouts
placed = from_ok (allocate rules 1001 (items placements) no_totals) tt

placed-run : allocate rules 1001 (items placements) no_totals ≡ ok (placed.0, placed.1)
unfolding placed
placed-run = refl

validate_payout_rule_set-IsValid_example :
    IsValid host rules × CommitsTo rules_input rules.rules_hash
validate_payout_rule_set-IsValid_example =
    validate_payout_rule_set-IsValid host rules_input rules-run

calculate_payouts-Splits_example :
    (parse_money pool_input ≡ ok payouts.prize_pool)
    × Splits (big_int payouts.prize_pool.amount) payouts.canonical
calculate_payouts-Splits_example =
    calculate_payouts-Splits host rules_input pool_input (arr placements) payouts-run

settle-total_example :
    (r : Canonical) × (settle rules (fantasy_money 1001) placed.0 placed.1 ≡ ok r)
unfolding placed
settle-total_example =
    settle-total host rules_input (fantasy_money 1001) (items placements) rules-run refl

abbrev two_holders : Items
two_holders =
    cons (holder "Fwd3A2222222222222222222222222222" "2")
      (cons (holder "Fwd3B2222222222222222222222222222" "1") nil)

abbrev place_distribution : Distribution
unfolding payouts
place_distribution = from_ok (distribute_to_holders (arr two_holders) 601) tt

distribute_to_holders-IsFair_example :
    ((values : Items) × (arr two_holders ≡ arr values)
      × AreRewardsOf (items values) place_distribution.holder_rewards)
    × (place_distribution.total_shares ≡ sum_by share_amount place_distribution.holder_rewards)
    × (0 < sum_by share_amount place_distribution.holder_rewards → IsFair 601 place_distribution)
    × (sum_by share_amount place_distribution.holder_rewards ≡ 0
        → (place_distribution.holder_distributed ≡ 0)
          × (sum_by paid_amount place_distribution.holder_rewards ≡ 0))
unfolding place_distribution
distribute_to_holders-IsFair_example = distribute_to_holders-IsFair (arr two_holders) 601 refl
