-- ===== src/Duels/Leaderboard/Types.antt =====
-- apps/api/src/duels/public-duel-leaderboard.ts: the duels as far as the leaderboard reads them, and the
-- ones that it counts.
use dailydraft_fun.Prelude.{
  ℕ, Bool, true, false, not, ◌||◌, Option, none, some, List, [], ◌∷◌, ◌==◌, length, Result, ok,
  ◌>>=◌, ◌>>◌, throw_if, require,
}
use dailydraft_fun.Prelude.Int.{ℤ, pos, ◌+ℤ◌}
use dailydraft_fun.Js.Text.{Text, text, text_eq}
use dailydraft_fun.Js.Signed.{is_signed_integer, big_int_ℤ, to_string_ℤ}
use dailydraft_fun.Duels.State.{DuelStatus, settled, status_eq}

-- The `Money` of an outcome, as it is stored.
pub record CardValue : Type 0 where
  pub amount : Text
  pub currency : Text
  pub decimals : ℕ

-- `DuelPackOutcome`
pub record Outcome : Type 0 where
  pub insured_value : CardValue
  pub is_mock : Bool

pub data ProviderMode : Type 0 where
  collector_crypt_sandbox mock dailydraft_devnet : ProviderMode

-- `winnerWallet?: string | null`
pub data Winner : Type 0 where
  missing nobody : Winner
  wallet : Text → Winner

-- `Duel`; `outcomes` are those of the result, and `null` and a missing field are `none`, which the code
-- does not tell apart here.
pub record Duel : Type 0 where
  pub creator_wallet : Text
  pub opponent_wallet : Option Text
  pub outcomes : Option (List Outcome)
  pub provider_mode : ProviderMode
  pub settled_at : Option Text
  pub status : DuelStatus
  pub winner_wallet : Winner

-- What the leaderboard reads of a duel that it counts; `winner` is `none` for a tie.
pub record RankedDuel : Type 0 where
  pub creator : Text
  pub opponent : Text
  pub outcomes : List Outcome
  pub played_at : Text
  pub winner : Option Text

-- `!text` on a text that may be null
abbrev pub nonempty : Option Text → Option Text
nonempty none = none
nonempty (some []) = none
nonempty (some (c ∷ cs)) = some (c ∷ cs)

abbrev pub is_mock_mode : ProviderMode → Bool
is_mock_mode mock = true
is_mock_mode _ = false

-- `outcomes.some((outcome) => outcome.isMock)`
abbrev pub any_mock : List Outcome → Bool
any_mock [] = false
any_mock (o ∷ os) = o.is_mock || any_mock os

-- `winnerWallet === null || winnerWallet === creatorWallet || winnerWallet === opponentWallet`
unfoldable pub winner_played : Winner → Text → Text → Bool
winner_played missing creator opponent = false
winner_played nobody creator opponent = true
winner_played (wallet w) creator opponent = text_eq w creator || text_eq w opponent

-- `winnerWallet`, `none` where it is not truthy
abbrev pub winner_of : Winner → Option Text
winner_of missing = none
winner_of nobody = none
winner_of (wallet w) = nonempty (some w)

-- `isRankableDuel`, with the fields that it gives a type; it only tells whether it holds.
unfoldable pub rankable : Duel → Result (Unit {0}) RankedDuel
rankable duel = do
  throw_if (not (status_eq duel.status settled)) tt
  opponent ← require (nonempty duel.opponent_wallet) tt
  outcomes ← require duel.outcomes tt
  played_at ← require (nonempty duel.settled_at) tt
  throw_if (is_mock_mode duel.provider_mode || not (length outcomes == 2) || any_mock outcomes) tt
  throw_if (not (winner_played duel.winner_wallet duel.creator_wallet opponent)) tt
  ok (record {
    creator = duel.creator_wallet;
    opponent = opponent;
    outcomes = outcomes;
    played_at = played_at;
    winner = winner_of duel.winner_wallet;
  })

pub data LeaderboardError : Type 0 where
  mixed_money unreadable_amount : LeaderboardError

-- `BigInt(value.amount)`; every writer prints the amount by `toString`
unfoldable pub read_amount : Text → Result LeaderboardError ℤ
read_amount t = do throw_if (not (is_signed_integer t)) unreadable_amount; ok (big_int_ℤ t)

-- `values.some((value) => ...)`
unfoldable pub differs : CardValue → List Outcome → Bool
differs first [] = false
differs first (o ∷ os) =
    not (text_eq o.insured_value.currency first.currency)
    || not (o.insured_value.decimals == first.decimals)
    || differs first os

-- The sum of the amounts, from a running total.
unfoldable pub sum_values : ℤ → List Outcome → Result LeaderboardError ℤ
unfolding read_amount
sum_values total [] = ok total
sum_values total (o ∷ os) = do
  amount ← read_amount o.insured_value.amount
  sum_values (total +ℤ amount) os

abbrev pub zero_value : CardValue
zero_value = record { amount = text "0"; currency = text "USDC"; decimals = 6 }

-- `values[0] ?? ZERO_VALUE`
abbrev pub first_value : List Outcome → CardValue
first_value [] = zero_value
first_value (o ∷ os) = o.insured_value

-- `sumMoney`
unfoldable pub sum_money : List Outcome → Result LeaderboardError CardValue
unfolding differs sum_values
sum_money outcomes = do
  let first = first_value outcomes
  throw_if (differs first outcomes) mixed_money
  total ← sum_values (pos 0) outcomes
  ok (record { amount = to_string_ℤ total; currency = first.currency; decimals = first.decimals })
