-- ===== src/Duels/Leaderboard/Ranking.antt =====
-- apps/api/src/duels/public-duel-leaderboard.ts: the order of the standings, and
-- `buildPublicDuelLeaderboard` with the result that it returns.
pub mod Sorted
pub mod Board
use dailydraft_fun.Prelude.{
  ℕ, zero, suc, ◌+◌, Bool, true, false, not, List, [], ◌∷◌, ◌++◌, ltb, ◌==◌, if◌then◌else◌, length,
  take, Result, ok, err, ◌>>=◌,
}
use dailydraft_fun.Prelude.Int.{ltb_ℤ, eq_ℤ}
use dailydraft_fun.Js.Text.{Text, text}
use dailydraft_fun.Js.Signed.{to_string_ℤ}
use dailydraft_fun.Duels.Leaderboard.Types.{CardValue, zero_value, Duel, LeaderboardError}
use dailydraft_fun.Duels.Leaderboard.Table.{Standing, count_duels}

-- The sign of a comparison.
pub data Order : Type 0 where
  before same after : Order

-- `left.localeCompare(right)` and `encodeURIComponent(text)`
pub record Platform : Type 0 where
  pub locale_compare : Text → Text → Order
  pub encode_uri_component : Text → Text

abbrev pub is_not_after : Order → Bool
is_not_after before = true
is_not_after same = true
is_not_after after = false

-- `recency || byWallet`, and whether that is not positive
abbrev pub or_else : Order → Order → Bool
or_else before second = true
or_else same second = is_not_after second
or_else after second = false

-- `compareEntries(left, right) <= 0`
unfoldable pub goes_first : Platform → Standing → Standing → Bool
goes_first p left right =
    let recency = p.locale_compare right.last_played_at left.last_played_at in
    let by_wallet = or_else recency (p.locale_compare left.wallet right.wallet) in
    let by_completed =
      if not (left.completed == right.completed)
      then ltb right.completed left.completed
      else by_wallet in
    let by_value =
      if not (eq_ℤ left.total_won_amount right.total_won_amount)
      then ltb_ℤ right.total_won_amount left.total_won_amount
      else by_completed in
    if not (left.wins == right.wins) then ltb right.wins left.wins else by_value

-- `sort(compareEntries)`, a stable sort; it inserts from the last.
unfoldable pub insert_standing : Platform → Standing → List Standing → List Standing
unfolding goes_first
insert_standing p s [] = s ∷ []
insert_standing p s (t ∷ ts) =
    let later = t ∷ insert_standing p s ts in if goes_first p s t then s ∷ t ∷ ts else later

unfoldable pub sort_standings : Platform → List Standing → List Standing
unfolding insert_standing
sort_standings p [] = []
sort_standings p (s ∷ ss) = insert_standing p s (sort_standings p ss)

-- `wallet.slice(-4)`, for a wallet that is longer
abbrev pub last_four : Text → Text
last_four [] = []
last_four (c ∷ cs) = let rest = last_four cs in if ltb (length cs) 4 then c ∷ cs else rest

-- apps/api/src/duels/public-duel-proof.ts: `pseudonymizeWallet`, whose dots are one code unit
unfoldable pub pseudonymize_wallet : Text → Text
pseudonymize_wallet w = if ltb 12 (length w) then take 4 w ++ (8_230 ∷ last_four w) else w

-- `PublicDuelLeaderboardEntry`
pub record PublicEntry : Type 0 where
  pub display : Text
  pub last_played_at : Text
  pub profile_href : Text
  pub rank : ℕ
  pub completed : ℕ
  pub losses : ℕ
  pub ties : ℕ
  pub wins : ℕ
  pub total_won_value : CardValue

unfoldable pub public_entry : Platform → ℕ → Standing → PublicEntry
unfolding pseudonymize_wallet
public_entry p rank s = record {
  display = pseudonymize_wallet s.wallet;
  last_played_at = s.last_played_at;
  profile_href = text "/profile/" ++ p.encode_uri_component s.wallet;
  rank = rank;
  completed = s.completed;
  losses = s.losses;
  ties = s.ties;
  wins = s.wins;
  total_won_value = record zero_value { amount = to_string_ℤ s.total_won_amount };
}

-- `map((entry, index) => ...)`, from a rank
unfoldable pub public_entries : Platform → ℕ → List Standing → List PublicEntry
unfolding public_entry
public_entries p rank [] = []
public_entries p rank (s ∷ ss) = public_entry p rank s ∷ public_entries p (rank + 1) ss

-- The fields of `PublicDuelLeaderboard` whose type is not one literal.
pub record Leaderboard : Type 0 where
  pub entries : List PublicEntry
  pub entry_limit : ℕ
  pub has_more_settled_duels : Bool
  pub sample_limit : ℕ
  pub sampled_settled_duels : ℕ

-- `buildPublicDuelLeaderboard`
unfoldable pub build_leaderboard :
    Platform → List Duel → Bool → ℕ → ℕ → Text → Result LeaderboardError Leaderboard
unfolding sort_standings public_entries count_duels
build_leaderboard p duels has_more sample_limit entry_limit house = do
  (sampled, table) ← count_duels house duels 0 []
  ok (record {
    entries = public_entries p 1 (take entry_limit (sort_standings p table));
    entry_limit = entry_limit;
    has_more_settled_duels = has_more;
    sample_limit = sample_limit;
    sampled_settled_duels = sampled;
  })
