-- ===== src/Fantasy/Payout/Holders.antt =====
-- apps/api/src/fantasy/fantasy-payout.ts: `distributeToHolders`, which pays one place.
pub mod Inputs
pub mod Bounds
use dailydraft_fun.Prelude.{
  ℕ, ◌+◌, ◌*◌, ◌/◌, not, List, [], ◌∷◌, ltb, if◌then◌else◌, length, Result, ok, err, ◌>>=◌, ◌>>◌,
  throw_if, require,
}
use dailydraft_fun.Js.Text.{Text, text, text_mem, is_solana_address}
use dailydraft_fun.Js.Decimal.{to_string}
use dailydraft_fun.Js.Value.{Value, get, as_object, as_array, as_string}
use dailydraft_fun.Domain.{Money}
use dailydraft_fun.Fantasy.Domain.{fantasy_money}
use dailydraft_fun.Fantasy.Payout.Types.{
  ErrorCode, invalid_input, max_holders_per_place, max_eligible_shares, parse_unsigned_amount,
}

pub record Holder : Type 0 where
  pub eligible_shares : ℕ
  pub wallet_address : Text

pub record HolderReward : Type 0 where
  pub eligible_shares : Text
  pub reward : Money
  pub wallet_address : Text

pub record Distribution : Type 0 where
  pub holder_distributed : ℕ
  pub holder_rewards : List HolderReward
  pub total_shares : ℕ

-- One turn of the first loop.
unfoldable pub parse_holder : Value → List Text → Result ErrorCode Holder
parse_holder value seen = do
  holder ← require (as_object value) invalid_input
  wallet ← require (as_string (get (text "walletAddress") holder)) invalid_input
  throw_if (not (is_solana_address wallet)) invalid_input
  throw_if (text_mem wallet seen) invalid_input
  shares ← parse_unsigned_amount max_eligible_shares (get (text "eligibleShares") holder)
  ok (record { eligible_shares = shares; wallet_address = wallet })

-- The first loop: the parsed holders and the running total of their shares.
unfoldable pub parse_holders : List Value → List Text → ℕ → Result ErrorCode (List Holder × ℕ)
parse_holders [] seen total = ok ([], total)
parse_holders (value ∷ values) seen total = do
  holder ← parse_holder value seen
  (holders, total') ←
      parse_holders values (holder.wallet_address ∷ seen) (total + holder.eligible_shares)
  ok (holder ∷ holders, total')

-- The reward of one holder.
unfoldable pub reward_of : ℕ → ℕ → ℕ → ℕ
reward_of allocation total shares = if ltb 0 total then (allocation * shares) / total else 0

-- The second loop: the rewards and their running sum.
unfoldable pub pay_holders : ℕ → ℕ → List Holder → ℕ → List HolderReward × ℕ
pay_holders allocation total [] paid = ([], paid)
pay_holders allocation total (h ∷ hs) paid =
    let reward = reward_of allocation total h.eligible_shares in
    let (rewards, paid') = pay_holders allocation total hs (paid + reward) in
    (
      record {
        eligible_shares = to_string h.eligible_shares;
        reward = fantasy_money reward;
        wallet_address = h.wallet_address;
      }
          ∷ rewards,
      paid',
    )

-- The result from the parsed holders.
unfoldable pub distribution : ℕ → List Holder → ℕ → Distribution
unfolding pay_holders
distribution allocation holders total =
    let (rewards, paid) = pay_holders allocation total holders 0 in
    record { holder_distributed = paid; holder_rewards = rewards; total_shares = total }

-- `distributeToHolders`
unfoldable pub distribute_to_holders : Value → ℕ → Result ErrorCode Distribution
distribute_to_holders value allocation = do
  values ← require (as_array value) invalid_input
  throw_if (ltb max_holders_per_place (length values)) invalid_input
  (holders, total) ← parse_holders values [] 0
  ok (distribution allocation holders total)
