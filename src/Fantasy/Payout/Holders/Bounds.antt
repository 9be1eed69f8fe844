-- ===== src/Fantasy/Payout/Holders/Bounds.antt =====
-- The rewards of a place: each is the floor of its exact share, and together they exhaust the
-- place's allocation up to less than one minor unit for each holder.
use native.Mathlib.Nat.{
  div-mul-le_self, lt-div-mul-add, le_of_mul-le-mul_right, lt_of_mul-lt-mul_right,
}
use dailydraft_fun.Prelude.{
  ℕ, ◌+◌, ◌*◌, ◌/◌, ◌≤◌, ◌<◌, ◌≡◌, refl, sym, false, List, [], ◌∷◌, arith, ltb, length, All, sum_by,
  ok, ok-injective, from_bind, throw_if,
}
use dailydraft_fun.Js.Text.{Text, text_mem}
use dailydraft_fun.Js.Decimal.{big_int, big_int-to_string}
use dailydraft_fun.Js.Value.{Value, Items, arr, items}
use dailydraft_fun.Fantasy.Domain.{fantasy_money}
use dailydraft_fun.Fantasy.Payout.Types.{invalid_input, parse_unsigned_amount}
use dailydraft_fun.Fantasy.Payout.Holders.{
  Holder, HolderReward, Distribution, parse_holder, parse_holders, reward_of, pay_holders,
  distribution, distribute_to_holders,
}
use dailydraft_fun.Fantasy.Payout.Holders.Inputs.{AreRewardsOf, pay_holders-AreRewardsOf}

-- The amounts, read back from the result.
abbrev pub paid_amount : HolderReward → ℕ
paid_amount r = big_int r.reward.amount

abbrev pub share_amount : HolderReward → ℕ
share_amount r = big_int r.eligible_shares

-- floor(allocation * shares / total), for the exact share of a holder
abbrev pub IsFloorShare : ℕ → ℕ → HolderReward → Type 0
IsFloorShare allocation total r =
    (paid_amount r * total ≤ allocation * share_amount r)
    × (allocation * share_amount r < (paid_amount r + 1) * total)

reward_of-eq-div :
    (allocation total shares : ℕ)
    → 0 < total
    → reward_of allocation total shares ≡ (allocation * shares) / total
unfolding reward_of
reward_of-eq-div allocation total shares h = ground arith

pub reward_of_floor :
    (allocation total shares : ℕ)
    → 0 < total
    → (reward_of allocation total shares * total ≤ allocation * shares)
      × (allocation * shares < (reward_of allocation total shares + 1) * total)
reward_of_floor allocation total shares h = rw (reward_of-eq-div allocation total shares h) (
    omega (
      arith,
      div-mul-le_self (allocation * shares) total,
      lt-div-mul-add {a = allocation * shares} h,
    ))

-- The second loop, from any running sum.
pub pay_holders_lem :
    (allocation total : ℕ) (holders : List Holder) (paid : ℕ)
    → 0 < total
    → let (rewards, paid') = pay_holders allocation total holders paid in
      (paid' ≡ paid + sum_by paid_amount rewards)
      × (length rewards ≡ length holders)
      × (sum_by share_amount rewards ≡ sum_by (λ h. h.eligible_shares) holders)
      × All (IsFloorShare allocation total) rewards
unfolding pay_holders fantasy_money
pay_holders_lem allocation total [] paid h = omega arith
pay_holders_lem allocation total (x ∷ xs) paid h =
    let reward = reward_of allocation total x.eligible_shares in
    let (sum, count, shares, floors) = pay_holders_lem allocation total xs (paid + reward) h in
    rw (big_int-to_string reward, big_int-to_string x.eligible_shares)
      (
        omega (arith, sum),
        omega (arith, count),
        omega (arith, shares),
        (reward_of_floor allocation total x.eligible_shares h, floors),
      )

-- Floors add up to at most the whole, and miss it by less than one unit for each of them.
sum_floors :
    (allocation total : ℕ) (rewards : List HolderReward)
    → All (IsFloorShare allocation total) rewards
    → (sum_by paid_amount rewards * total ≤ allocation * sum_by share_amount rewards)
      × (allocation * sum_by share_amount rewards + length rewards
          ≤ (sum_by paid_amount rewards + length rewards) * total)
sum_floors allocation total [] h = omega arith
sum_floors allocation total (r ∷ rs) h = omega (arith, sum_floors allocation total rs h.1)

reward_of_zero : (allocation total shares : ℕ) → total ≡ 0 → reward_of allocation total shares ≡ 0
unfolding reward_of
reward_of_zero allocation total shares e = ground arith

-- Without shares nothing is paid.
pub pay_holders_zero :
    (allocation total : ℕ) (holders : List Holder) (paid : ℕ)
    → total ≡ 0
    → let (rewards, paid') = pay_holders allocation total holders paid in
      (paid' ≡ paid) × (sum_by paid_amount rewards ≡ 0)
unfolding pay_holders fantasy_money
pay_holders_zero allocation total [] paid e = omega arith
pay_holders_zero allocation total (x ∷ xs) paid e =
    let reward = reward_of allocation total x.eligible_shares in
    let (sum, unpaid) = pay_holders_zero allocation total xs (paid + reward) e in
    let no_reward = reward_of_zero allocation total x.eligible_shares e in
    rw (big_int-to_string reward) (omega (arith, sum, no_reward), omega (arith, unpaid, no_reward))

parse_holder_lem :
    (value : Value) (seen : List Text) {holder : Holder}
    → parse_holder value seen ≡ ok holder
    → (holder.eligible_shares ≤ 1_000_000_000) × (text_mem holder.wallet_address seen ≡ false)
unfolding parse_holder parse_unsigned_amount
parse_holder_lem value seen h = ground arith

-- No wallet of the list is among the ones seen before it.
abbrev pub AreFreshWallets : List Text → List Holder → Type 0
AreFreshWallets seen [] = Unit
AreFreshWallets seen (h ∷ hs) =
    (text_mem h.wallet_address seen ≡ false) × AreFreshWallets (h.wallet_address ∷ seen) hs

pub parse_holders_lem :
    (values : List Value) (seen : List Text) (total : ℕ) {holders : List Holder} {total' : ℕ}
    → parse_holders values seen total ≡ ok (holders, total')
    → (total' ≡ total + sum_by (λ h. h.eligible_shares) holders)
      × (length holders ≡ length values)
      × AreFreshWallets seen holders
      × All (λ h. h.eligible_shares ≤ 1_000_000_000) holders
unfolding parse_holders
parse_holders_lem [] seen total h = ground arith
parse_holders_lem (value ∷ values) seen total h =
    from_bind (parse_holder value seen) _ h λ holder parsed h₁.
      from_bind
        (parse_holders values (holder.wallet_address ∷ seen) (total + holder.eligible_shares)) _ h₁
        λ rest loop h₂. ground (
          arith,
          parse_holder_lem value seen parsed,
          parse_holders_lem values (holder.wallet_address ∷ seen) (total + holder.eligible_shares)
              loop,
        )

cancel_total :
    (paid n allocation total : ℕ)
    → paid * total ≤ allocation * total
    → allocation * total + n ≤ (paid + n) * total
    → 0 < n
    → 0 < total
    → (paid ≤ allocation) × (allocation < paid + n)
cancel_total paid n allocation total low high some_n h =
    (le_of_mul-le-mul_right low h, lt_of_mul-lt-mul_right total (omega arith))

length_pos : {A : Type 0} (f : A → ℕ) (xs : List A) → 0 < sum_by f xs → 0 < length xs
length_pos f [] h = h
length_pos f (x ∷ xs) h = omega arith

-- What a place pays out, when somebody holds a share in it.
pub record IsFair (allocation : ℕ) (d : Distribution) : Type 0 where
  pub sum : d.holder_distributed ≡ sum_by paid_amount d.holder_rewards
  pub shares : d.total_shares ≡ sum_by share_amount d.holder_rewards
  pub within : d.holder_distributed ≤ allocation
  pub exhaustive : allocation < d.holder_distributed + length d.holder_rewards
  pub floors : All (IsFloorShare allocation d.total_shares) d.holder_rewards

distribution-IsFair :
    (allocation total : ℕ) (holders : List Holder)
    → total ≡ sum_by (λ h. h.eligible_shares) holders
    → 0 < total
    → IsFair allocation (distribution allocation holders total)
unfolding distribution
distribution-IsFair allocation total holders e h =
    let (sum, count, shares, floors) = pay_holders_lem allocation total holders 0 h in
    let rewards = (pay_holders allocation total holders 0).0 in
    let whole : sum_by share_amount rewards ≡ total = omega (arith, e, shares) in
    let (low, high) = sum_floors allocation total rewards floors in
    let (within, exhaustive) =
      cancel_total (sum_by paid_amount rewards) (length rewards) allocation total (rw whole at low)
        (rw whole at high) (length_pos share_amount rewards (omega arith)) h in
    record {
      sum = omega (arith, sum);
      shares = sym whole;
      within = omega arith;
      exhaustive = omega arith;
      floors = floors;
    }

distribution_zero :
    (allocation total : ℕ) (holders : List Holder)
    → total ≡ 0
    → let d = distribution allocation holders total in
      (d.holder_distributed ≡ 0) × (sum_by paid_amount d.holder_rewards ≡ 0)
unfolding distribution
distribution_zero allocation total holders e = pay_holders_zero allocation total holders 0 e

-- The entries keep the shares of the holders.
pay_holders-shares :
    (allocation total : ℕ) (holders : List Holder) (paid : ℕ)
    → sum_by share_amount (pay_holders allocation total holders paid).0
      ≡ sum_by (λ h. h.eligible_shares) holders
unfolding pay_holders
pay_holders-shares allocation total [] paid = refl
pay_holders-shares allocation total (x ∷ xs) paid = rw (big_int-to_string x.eligible_shares) (
    omega (
      arith,
      pay_holders-shares allocation total xs (paid + reward_of allocation total x.eligible_shares),
    ))

-- A successful call rewards the holders of the input one by one, and the total of the shares is the sum of
-- theirs. Where they hold shares, the reward of
-- each is the floor of its exact share and all rewards miss the allocation by less than one unit for
-- each holder; where they hold none, nothing is paid.
pub distribute_to_holders-IsFair :
    (value : Value) (allocation : ℕ) {d : Distribution}
    → distribute_to_holders value allocation ≡ ok d
    → ((values : Items) × (value ≡ arr values) × AreRewardsOf (items values) d.holder_rewards)
      × (d.total_shares ≡ sum_by share_amount d.holder_rewards)
      × (0 < sum_by share_amount d.holder_rewards → IsFair allocation d)
      × (sum_by share_amount d.holder_rewards ≡ 0
          → (d.holder_distributed ≡ 0) × (sum_by paid_amount d.holder_rewards ≡ 0))
unfolding distribute_to_holders distribution
distribute_to_holders-IsFair (arr values) allocation h =
    from_bind (throw_if (ltb 4096 (length (items values))) invalid_input) _ h λ _ bounded h₁.
      from_bind (parse_holders (items values) [] 0) _ h₁ λ parsed loop h₂.
        let (shares, _, _, _) = parse_holders_lem (items values) [] 0 loop in
        let kept = pay_holders-shares allocation parsed.1 parsed.0 0 in
        rw (← ok-injective h₂) (
          (
            values,
            refl,
            pay_holders-AreRewardsOf (items values) [] 0 parsed.0 loop allocation parsed.1 0,
          ),
          omega (arith, shares, kept),
          λ some_shares.
              distribution-IsFair allocation parsed.1 parsed.0 (omega (arith, shares))
                (omega (arith, shares, kept, some_shares)),
          λ no_shares.
              distribution_zero allocation parsed.1 parsed.0
                (omega (arith, shares, kept, no_shares)),
        )
distribute_to_holders-IsFair _ allocation h = ground arith
