-- ===== src/Fantasy/Payout/Calculate.antt =====
-- apps/api/src/fantasy/fantasy-payout.ts: `calculateFantasyPayouts`.
pub mod Room
pub mod Conservation
use dailydraft_fun.Prelude.{
  ℕ, ◌+◌, ◌-◌, ◌*◌, ◌/◌, Bool, not, List, [], ◌∷◌, ◌++◌, ltb, get_elem?, Option, none, some,
  if◌then◌else◌, Result, ok, err, ◌>>=◌, ◌>>◌, throw_if, require,
}
use dailydraft_fun.Prelude.Int.{ℤ, pos, sub_ℕ, ◌+ℤ◌, eq_ℤ}
use dailydraft_fun.Js.Text.{Text, text, text_mem}
use dailydraft_fun.Js.Decimal.{big_int, to_string}
use dailydraft_fun.Js.Value.{Value, Fields, get, as_object, as_array, as_string, as_natural}
use dailydraft_fun.Js.Canonical.{Host}
use dailydraft_fun.Domain.{Money}
use dailydraft_fun.Fantasy.Domain.{
  Sport, Position, position_text, as_position, position_eq, fantasy_money, fantasy_money_ℤ,
}
use dailydraft_fun.Fantasy.Payout.Types.{
  ErrorCode, duplicate_placement, invalid_input, place_not_configured, position_not_configured,
  PositionRule, RuleSet, parse_money,
}
use dailydraft_fun.Fantasy.Payout.Rules.{validate_payout_rule_set}
use dailydraft_fun.Fantasy.Payout.Report.{Allocation, Canonical, Payouts, seal_payouts}
use dailydraft_fun.Fantasy.Payout.Holders.{Distribution, distribute_to_holders}

-- `seenPlacements` and the three sums of the main loop
pub record Totals : Type 0 where
  pub seen : List Text
  pub distributed : ℕ
  pub residual : ℤ
  pub filled : ℕ

-- `positions.find((rule) => rule.position === position)`
unfoldable pub find_rule : Position → List PositionRule → Option PositionRule
find_rule p [] = none
find_rule p (r ∷ rs) = if position_eq r.position p then some r else find_rule p rs

-- `${position}#${place}`
unfoldable pub placement_key : Position → ℕ → Text
placement_key position place = position_text position ++ (text "#" ++ to_string place)

-- What the tests of one turn establish: the place, and the basis points that it is worth.
pub record Placement : Type 0 where
  pub position : Position
  pub place : ℕ
  pub player_id : Text
  pub basis_points : ℕ
  pub holders : Value

-- One turn of the main loop, up to the amounts.
unfoldable pub read_placement : RuleSet → List Text → Value → Result ErrorCode Placement
read_placement rules seen value = do
  placement ← require (as_object value) invalid_input
  position ← require (as_position (get (text "position") placement)) position_not_configured
  rule ← require (find_rule position rules.positions) position_not_configured
  place ← require (as_natural (get (text "place") placement)) place_not_configured
  throw_if (ltb place 1) place_not_configured
  player ← require (as_string (get (text "playerId") placement)) invalid_input
  throw_if (elim player [ [] ↦ Bool.true | _ ↦ Bool.false ]) invalid_input
  throw_if (text_mem (placement_key position place) seen) duplicate_placement
  entry ← require (get_elem? rule.place_basis_points (place - 1)) place_not_configured
  ok (record {
    position = position;
    place = place;
    player_id = player;
    basis_points = big_int entry;
    holders = get (text "holders") placement;
  })

-- `(prizePoolAmount * placeBasisPoints) / FANTASY_PAYOUT_BASIS_POINTS_TOTAL`
unfoldable pub place_amount : ℕ → ℕ → ℕ
place_amount pool basis_points = (pool * basis_points) / 10_000

-- The sums after one place.
unfoldable pub add_place : Placement → ℕ → Distribution → Totals → Totals
add_place p amount d totals =
    let seen' = placement_key p.position p.place ∷ totals.seen in
    if ltb 0 d.total_shares
    then record {
      seen = seen';
      distributed = totals.distributed + d.holder_distributed;
      residual = totals.residual +ℤ sub_ℕ amount d.holder_distributed;
      filled = totals.filled + amount;
    }
    else record totals { seen = seen' }

-- The allocation that is reported for one place.
unfoldable pub allocation_of : Placement → ℕ → Distribution → Allocation
allocation_of p amount d =
    let paid = ltb 0 d.total_shares in
    record {
      holder_residual = fantasy_money_ℤ (if paid then sub_ℕ amount d.holder_distributed else pos 0);
      holder_rewards = d.holder_rewards;
      place = p.place;
      place_allocation = fantasy_money (if paid then amount else 0);
      place_basis_points = to_string p.basis_points;
      player_id = p.player_id;
      position = p.position;
    }

-- The main loop.
unfoldable pub allocate :
    RuleSet → ℕ → List Value → Totals → Result ErrorCode (List Allocation × Totals)
allocate rules pool [] totals = ok ([], totals)
allocate rules pool (value ∷ values) totals = do
  p ← read_placement rules totals.seen value
  let amount = place_amount pool p.basis_points
  d ← distribute_to_holders p.holders amount
  (allocations, totals') ← allocate rules pool values (add_place p amount d totals)
  ok (allocation_of p amount d ∷ allocations, totals')

abbrev pub no_totals : Totals
no_totals = record { seen = []; distributed = 0; residual = pos 0; filled = 0 }

unfoldable pub undistributed_amount : ℕ → Totals → ℤ
undistributed_amount pool totals = sub_ℕ pool totals.filled

-- The conservation check, and the result without its calculation hash.
unfoldable pub settle : RuleSet → Money → List Allocation → Totals → Result ErrorCode Canonical
settle rules pool allocations totals = do
  let undistributed = undistributed_amount (big_int pool.amount) totals
  throw_if
      (not (
        eq_ℤ (pos totals.distributed +ℤ totals.residual +ℤ undistributed)
          (pos (big_int pool.amount))))
      invalid_input
  ok (record {
    allocations = allocations;
    distributed = fantasy_money totals.distributed;
    prize_pool = pool;
    residual = fantasy_money_ℤ totals.residual;
    undistributed = fantasy_money_ℤ undistributed;
    rules_hash = rules.rules_hash;
    rules_version = rules.rules_version;
    sport = rules.sport;
  })

-- `calculateFantasyPayouts`
unfoldable pub calculate_payouts : Host → Value → Value → Value → Result ErrorCode Payouts
calculate_payouts host rules_input pool_input placements_input = do
  rules ← validate_payout_rule_set host rules_input
  pool ← parse_money pool_input
  placements ← require (as_array placements_input) invalid_input
  (allocations, totals) ← allocate rules (big_int pool.amount) placements no_totals
  canonical ← settle rules pool allocations totals
  ok (seal_payouts host canonical)
