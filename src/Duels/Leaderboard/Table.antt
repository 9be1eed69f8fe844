-- ===== src/Duels/Leaderboard/Table.antt =====
-- apps/api/src/duels/public-duel-leaderboard.ts: the loop of `buildPublicDuelLeaderboard`. The map of
-- entries is a list of standings in the order of insertion, whose keys are their wallets.
pub mod Tally
pub mod Counted
pub mod Loop
pub mod Distinct
use dailydraft_fun.Prelude.{
  ℕ, ◌+◌, Bool, true, false, not, Option, none, some, List, [], ◌∷◌, ltb, ◌==◌, if◌then◌else◌,
  Result, ok, err, ◌>>=◌, ◌>>◌, throw_if,
}
use dailydraft_fun.Prelude.Int.{ℤ, pos, ◌+ℤ◌}
use dailydraft_fun.Js.Text.{Text, text_eq}
use dailydraft_fun.Js.Signed.{big_int_ℤ}
use dailydraft_fun.Duels.Leaderboard.Types.{Duel, RankedDuel, rankable, LeaderboardError, sum_money}

-- `MutableLeaderboardEntry`
pub record Standing : Type 0 where
  pub completed : ℕ
  pub last_played_at : Text
  pub losses : ℕ
  pub ties : ℕ
  pub total_won_amount : ℤ
  pub wallet : Text
  pub wins : ℕ

-- `<` on strings
unfoldable pub text_lt : Text → Text → Bool
text_lt [] [] = false
text_lt [] (y ∷ ys) = true
text_lt (x ∷ xs) [] = false
text_lt (x ∷ xs) (y ∷ ys) = let rest = text_lt xs ys in if x == y then rest else ltb x y

-- `entries.get(wallet)`
unfoldable pub find_standing : Text → List Standing → Option Standing
find_standing w [] = none
find_standing w (s ∷ ss) = if text_eq s.wallet w then some s else find_standing w ss

-- `entries.set(wallet, entry)`
unfoldable pub set_standing : Standing → List Standing → List Standing
set_standing s [] = s ∷ []
set_standing s (t ∷ ts) = if text_eq t.wallet s.wallet then s ∷ ts else t ∷ set_standing s ts

-- A wallet that has not been seen.
abbrev pub new_standing : Text → Text → Standing
new_standing w played_at = record {
  completed = 0;
  last_played_at = played_at;
  losses = 0;
  ties = 0;
  total_won_amount = pos 0;
  wallet = w;
  wins = 0;
}

-- `entries.get(wallet) ?? { ... }`
abbrev pub standing_or_new : Option Standing → Text → Text → Standing
standing_or_new none w played_at = new_standing w played_at
standing_or_new (some s) w played_at = s

-- The count of the duel and of its date.
unfoldable pub add_played : Text → Standing → Standing
unfolding text_lt
add_played played_at s = record s {
  completed = s.completed + 1;
  last_played_at = if text_lt s.last_played_at played_at then played_at else s.last_played_at;
}

-- The tie, the win with its value, or the loss.
unfoldable pub add_result : Option Text → Text → ℤ → Standing → Standing
add_result none w value s = record s { ties = s.ties + 1 }
add_result (some winner) w value s =
    if text_eq winner w
    then record s { wins = s.wins + 1; total_won_amount = s.total_won_amount +ℤ value }
    else record s { losses = s.losses + 1 }

-- One turn of the inner loop.
unfoldable pub count_wallet : RankedDuel → ℤ → Text → List Standing → List Standing
unfolding find_standing set_standing add_played add_result
count_wallet duel value w table =
    let s = add_played duel.played_at (standing_or_new (find_standing w table) w duel.played_at) in
    set_standing (add_result duel.winner w value s) table

-- The filter of the inner loop: the house is not counted.
unfoldable pub count_seat : Text → RankedDuel → ℤ → Text → List Standing → List Standing
count_seat house duel value w table =
    let counted = count_wallet duel value w table in
    if not (text_eq w house) then counted else table

-- The inner loop.
unfoldable pub count_wallets : Text → RankedDuel → ℤ → List Standing → List Standing
unfolding count_seat
count_wallets house duel value table =
    count_seat house duel value duel.opponent (count_seat house duel value duel.creator table)

-- The body of the outer loop for a duel that counts.
unfoldable pub count_ranked :
    Text → RankedDuel → List Standing → Result LeaderboardError (List Standing)
unfolding count_wallets sum_money
count_ranked house duel table = do
  total ← sum_money duel.outcomes
  ok (count_wallets house duel (big_int_ℤ total.amount) table)

-- One turn of the outer loop, with the number of duels that counted.
unfoldable pub count_if_ranked :
    Text
    → Result (Unit {0}) RankedDuel
    → ℕ
    → List Standing
    → Result LeaderboardError (ℕ × List Standing)
unfolding count_ranked
count_if_ranked house (err _) sampled table = ok (sampled, table)
count_if_ranked house (ok duel) sampled table = do
  table' ← count_ranked house duel table
  ok (sampled + 1, table')

-- The outer loop.
unfoldable pub count_duels :
    Text → List Duel → ℕ → List Standing → Result LeaderboardError (ℕ × List Standing)
unfolding count_if_ranked
count_duels house [] sampled table = ok (sampled, table)
count_duels house (duel ∷ duels) sampled table = do
  (sampled', table') ← count_if_ranked house (rankable duel) sampled table
  count_duels house duels sampled' table'
