-- ===== src/Fantasy/Payout/Calculate/Conservation.antt =====
-- Every minor unit of the prize pool is accounted for: the pool is what the holders receive, what
-- rounding leaves in paid places, and what no place was paid.
use dailydraft_fun.Prelude.{
  ℕ, ◌+◌, ◌-◌, ◌≤◌, ◌<◌, ◌≡◌, refl, sym, ◌∙◌, ap, Bool, false, inl, inr, List, [], ◌∷◌, arith, ltb,
  get_elem?, Bool-cases, sum_by, ok, from_bind, ok-injective, throw_if, throw_if-eq-ok, require,
  require-eq-ok, ltb→lt,
}
use dailydraft_fun.Prelude.Int.{pos, sub_ℕ, ◌+ℤ◌, pos-+ℤ, sub_ℕ-pos}
use dailydraft_fun.Js.Text.{Text, text, text_mem}
use dailydraft_fun.Js.Decimal.{big_int}
use dailydraft_fun.Js.Value.{Value, get, as_object, as_array, as_string, as_natural}
use dailydraft_fun.Js.Canonical.{Host}
use dailydraft_fun.Domain.{Money}
use dailydraft_fun.Fantasy.Domain.{as_position, fantasy_money, fantasy_money_ℤ}
use dailydraft_fun.Fantasy.Payout.Types.{RuleSet, parse_money}
use dailydraft_fun.Fantasy.Payout.Rules.{validate_payout_rule_set}
use dailydraft_fun.Fantasy.Payout.Rules.Sound.{table_total, validate_payout_rule_set-IsValid}
use dailydraft_fun.Fantasy.Payout.Report.{Allocation, Canonical, Payouts, seal_payouts}
use dailydraft_fun.Fantasy.Payout.Holders.{Distribution, distribute_to_holders}
use dailydraft_fun.Fantasy.Payout.Holders.Bounds.{paid_amount, distribute_to_holders-IsFair}
use dailydraft_fun.Fantasy.Payout.Calculate.{
  Totals, Placement, find_rule, placement_key, read_placement, place_amount, add_place,
  allocation_of, allocate, no_totals, undistributed_amount, settle, calculate_payouts,
}
use dailydraft_fun.Fantasy.Payout.Calculate.Room.{
  open_table, open_table_start, open_table_take, HasRoom, HasRoom-take, HasRoom-skip,
}

-- What one accepted placement takes out of the room of the table.
read_placement_lem :
    (rules : RuleSet) (seen : List Text) (value : Value) {p : Placement}
    → read_placement rules seen value ≡ ok p
    → (text_mem (placement_key p.position p.place) seen ≡ false)
      × (open_table rules.positions (placement_key p.position p.place ∷ seen) + p.basis_points
          ≤ open_table rules.positions seen)
unfolding read_placement
read_placement_lem rules seen value h =
    from_bind (require (as_object value) _) _ h λ placement _ h₁.
      from_bind (require (as_position (get (text "position") placement)) _) _ h₁ λ position _ h₂.
        from_bind (require (find_rule position rules.positions) _) _ h₂ λ rule found h₃.
          from_bind (require (as_natural (get (text "place") placement)) _) _ h₃ λ place _ h₄.
            from_bind (throw_if (ltb place 1) _) _ h₄ λ _ low h₅.
              from_bind (require (as_string (get (text "playerId") placement)) _) _ h₅
                λ player _ h₆.
                  from_bind (throw_if (elim player [ [] ↦ Bool.true | _ ↦ Bool.false ]) _) _ h₆
                    λ _ _ h₇.
                      from_bind (throw_if (text_mem (placement_key position place) seen) _) _ h₇
                        λ _ fresh h₈.
                          from_bind (require (get_elem? rule.place_basis_points (place - 1)) _) _ h₈
                            λ entry configured h₉. rw (← ok-injective h₉) (
                              throw_if-eq-ok _ _ fresh,
                              open_table_take rules.positions position place seen
                                  (require-eq-ok _ _ found) (require-eq-ok _ _ configured)
                                  (ground (arith, throw_if-eq-ok (ltb place 1) _ low))
                                  (throw_if-eq-ok _ _ fresh),
                            )

-- The sums of the main loop while it runs.
pub record IsBalanced (rules : RuleSet) (pool : ℕ) (totals : Totals) : Type 0 where
  pub within : totals.distributed ≤ totals.filled
  pub residual : totals.residual ≡ pos (totals.filled - totals.distributed)
  pub room : HasRoom rules.positions pool totals.filled totals.seen

add_place-IsBalanced :
    (rules : RuleSet) (pool : ℕ) (p : Placement) (d : Distribution) (totals : Totals)
    → IsBalanced rules pool totals
    → open_table rules.positions (placement_key p.position p.place ∷ totals.seen) + p.basis_points
      ≤ open_table rules.positions totals.seen
    → (0 < d.total_shares → d.holder_distributed ≤ place_amount pool p.basis_points)
    → IsBalanced rules pool (add_place p (place_amount pool p.basis_points) d totals)
unfolding add_place
add_place-IsBalanced rules pool p d totals v taken fair =
    let key = placement_key p.position p.place in
    let amount = place_amount pool p.basis_points in
    elim (Bool-cases (ltb 0 d.total_shares)) [
      | inl paid ↦
          let covered = fair (ltb→lt 0 d.total_shares paid) in
          rw paid (record {
            within = omega (arith, v.within, covered);
            residual =
                rw (v.residual, sub_ℕ-pos amount d.holder_distributed covered, pos-+ℤ)
                  (ap pos (omega (arith, v.within, covered)));
            room =
                HasRoom-take rules.positions pool totals.filled key totals.seen p.basis_points
                  v.room taken;
          })
      | inr unpaid ↦ rw unpaid (record {
        within = v.within;
        residual = v.residual;
        room = HasRoom-skip rules.positions pool totals.filled key totals.seen v.room;
      })
    ]

-- All that the holders of one place receive.
abbrev pub place_paid : Allocation → ℕ
place_paid a = sum_by paid_amount a.holder_rewards

add_place-distributed :
    (p : Placement) (amount : ℕ) (d : Distribution) (totals : Totals)
    → (0 < d.total_shares → d.holder_distributed ≡ sum_by paid_amount d.holder_rewards)
    → (d.total_shares ≡ 0 → sum_by paid_amount d.holder_rewards ≡ 0)
    → (add_place p amount d totals).distributed
      ≡ totals.distributed + place_paid (allocation_of p amount d)
unfolding add_place allocation_of
add_place-distributed p amount d totals fair zero = ground arith

pub allocate-IsBalanced :
    (rules : RuleSet) (pool : ℕ) (values : List Value) (totals : Totals)
    {allocations : List Allocation} {totals' : Totals}
    → allocate rules pool values totals ≡ ok (allocations, totals')
    → IsBalanced rules pool totals
    → IsBalanced rules pool totals'
      × (totals'.distributed ≡ totals.distributed + sum_by place_paid allocations)
unfolding allocate
allocate-IsBalanced rules pool [] totals h v =
    rw (← ap (λ p. p.1) (ok-injective h), ← ap (λ p. p.0) (ok-injective h)) (v, omega arith)
allocate-IsBalanced rules pool (value ∷ values) totals h v =
    from_bind (read_placement rules totals.seen value) _ h λ p accepted h₁.
      let amount = place_amount pool p.basis_points in
      from_bind (distribute_to_holders p.holders amount) _ h₁ λ d paid h₂.
        let totals₁ = add_place p amount d totals in
        from_bind (allocate rules pool values totals₁) _ h₂ λ rest loop h₃.
          let (_, taken) = read_placement_lem rules totals.seen value accepted in
          let (_, whole, full, none) = distribute_to_holders-IsFair p.holders amount paid in
          let fair = λ (h : 0 < d.total_shares). full (omega (arith, whole, h)) in
          let zero = λ (e : d.total_shares ≡ 0). none (omega (arith, whole, e)) in
          let kept = add_place-IsBalanced rules pool p d totals v taken (λ h. (fair h).within) in
          let (balanced, sum) = allocate-IsBalanced rules pool values totals₁ loop kept in
          let step =
            add_place-distributed p amount d totals (λ h. (fair h).sum) (λ e. (zero e).1) in
          rw (← ap (λ p. p.1) (ok-injective h₃), ← ap (λ p. p.0) (ok-injective h₃))
            (balanced, omega (arith, sum, step))

start-IsBalanced :
    (rules : RuleSet) (pool : ℕ)
    → table_total rules.positions ≡ 10_000
    → IsBalanced rules pool no_totals
start-IsBalanced rules pool total = record {
  within = omega arith;
  residual = refl;
  room = rw (open_table_start rules.positions, total) (omega arith);
}

-- Money that a result holds, as three natural numbers.
abbrev pub Splits : ℕ → Canonical → Type 0
Splits pool r =
    (distributed : ℕ) × (residual : ℕ) × (undistributed : ℕ) × (r.distributed
      ≡ fantasy_money distributed)
    × (r.residual ≡ fantasy_money residual)
    × (r.undistributed ≡ fantasy_money undistributed)
    × (distributed + residual + undistributed ≡ pool)
    × (distributed ≡ sum_by place_paid r.allocations)

-- The result that `settle` builds when its check passes.
abbrev settled : RuleSet → Money → List Allocation → Totals → Canonical
settled rules pool allocations totals = record {
  allocations = allocations;
  distributed = fantasy_money totals.distributed;
  prize_pool = pool;
  residual = fantasy_money_ℤ totals.residual;
  undistributed = fantasy_money_ℤ (undistributed_amount (big_int pool.amount) totals);
  rules_hash = rules.rules_hash;
  rules_version = rules.rules_version;
  sport = rules.sport;
}

balanced_filled-le :
    (rules : RuleSet) (pool : ℕ) (totals : Totals)
    → IsBalanced rules pool totals
    → totals.filled ≤ pool
balanced_filled-le rules pool totals v = omega (arith, v.room)

-- The check of the code cannot fail on balanced sums.
settle-eq-settled :
    (rules : RuleSet) (pool : Money) (allocations : List Allocation) (totals : Totals)
    → IsBalanced rules (big_int pool.amount) totals
    → settle rules pool allocations totals ≡ ok (settled rules pool allocations totals)
unfolding settle undistributed_amount
settle-eq-settled rules pool allocations totals v =
    let total = big_int pool.amount in
    let within = balanced_filled-le rules total totals v in
    let parts : pos totals.distributed +ℤ totals.residual +ℤ sub_ℕ total totals.filled ≡ pos total =
      rw (v.residual, sub_ℕ-pos total totals.filled within, pos-+ℤ, pos-+ℤ)
        (ap pos (omega (arith, v.within, within))) in
    rw parts (ground arith)

settled-Splits :
    (rules : RuleSet) (pool : Money) (allocations : List Allocation) (totals : Totals)
    → IsBalanced rules (big_int pool.amount) totals
    → totals.distributed ≡ sum_by place_paid allocations
    → Splits (big_int pool.amount) (settled rules pool allocations totals)
unfolding undistributed_amount fantasy_money fantasy_money_ℤ
settled-Splits rules pool allocations totals v sum =
    let total = big_int pool.amount in
    let within = balanced_filled-le rules total totals v in
    (
      totals.distributed,
      totals.filled - totals.distributed,
      total - totals.filled,
      refl,
      rw v.residual,
      rw (sub_ℕ-pos total totals.filled within),
      omega (arith, v.within, within),
      sum,
    )

-- Once the rules are accepted and every placement is, the payout succeeds: the conservation check
-- at the end of the code never throws.
pub settle-total :
    (host : Host) (rules_input : Value) (pool : Money) (placements : List Value) {rules : RuleSet}
    {allocations : List Allocation} {totals : Totals}
    → validate_payout_rule_set host rules_input ≡ ok rules
    → allocate rules (big_int pool.amount) placements no_totals ≡ ok (allocations, totals)
    → (r : Canonical) × (settle rules pool allocations totals ≡ ok r)
settle-total host rules_input pool placements {rules = rules} accepted placed =
    let (valid, _) = validate_payout_rule_set-IsValid host rules_input accepted in
    let start = start-IsBalanced rules (big_int pool.amount) valid.total in
    let (balanced, _) =
      allocate-IsBalanced rules (big_int pool.amount) placements no_totals placed start in
    (_, settle-eq-settled rules pool _ _ balanced)

-- A payout that succeeds accounts for every minor unit of the prize pool that was put in: what the
-- holders of all places receive, the rounding dust and the undistributed rest are natural numbers that
-- add up to the pool.
pub calculate_payouts-Splits :
    (host : Host) (rules_input pool_input placements_input : Value) {r : Payouts}
    → calculate_payouts host rules_input pool_input placements_input ≡ ok r
    → (parse_money pool_input ≡ ok r.prize_pool) × Splits (big_int r.prize_pool.amount) r.canonical
unfolding calculate_payouts seal_payouts
calculate_payouts-Splits host rules_input pool_input placements_input h =
    from_bind (validate_payout_rule_set host rules_input) _ h λ rules accepted h₁.
      from_bind (parse_money pool_input) _ h₁ λ pool parsed h₂.
        from_bind (require (as_array placements_input) _) _ h₂ λ placements _ h₃.
          from_bind (allocate rules (big_int pool.amount) placements no_totals) _ h₃
            λ placed loop h₄.
              let (valid, _) = validate_payout_rule_set-IsValid host rules_input accepted in
              let start = start-IsBalanced rules (big_int pool.amount) valid.total in
              let (balanced, sum) =
                allocate-IsBalanced rules (big_int pool.amount) placements no_totals loop start in
              let done = settle-eq-settled rules pool placed.0 placed.1 balanced in
              from_bind (settle rules pool placed.0 placed.1) _ h₄ λ canonical checked h₅.
                rw (← ok-injective h₅, ← ok-injective (sym done ∙ checked))
                  (
                    parsed,
                    settled-Splits rules pool placed.0 placed.1 balanced (omega (arith, sum)),
                  )
