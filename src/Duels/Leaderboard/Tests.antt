-- ===== src/Duels/Leaderboard/Tests.antt =====
-- A run of the leaderboard, and its theorems at concrete inputs.
use dailydraft_fun.Duels.Leaderboard.Table.{count_wallet}
use dailydraft_fun.Duels.Leaderboard.Table.Counted.{Counted}
use dailydraft_fun.Prelude.{
  length, ◌≡◌, refl, false, some, List, [], ◌∷◌, arith, map, String, ok, err, from_ok,
}
use dailydraft_fun.Prelude.Int.{◌+ℤ◌}
use dailydraft_fun.Js.Text.{text, text_eq}
use dailydraft_fun.Js.Signed.{big_int_ℤ, to_string_ℤ, is_signed_integer}
use dailydraft_fun.Duels.State.{settled, opening, status_eq}
use dailydraft_fun.Duels.Leaderboard.Types.{
  Outcome, dailydraft_devnet, Winner, nobody, wallet, Duel, RankedDuel, mixed_money, rankable,
  winner_played,
}
use dailydraft_fun.Duels.Leaderboard.Ranking.{same, Platform, Leaderboard, build_leaderboard}
use dailydraft_fun.Duels.Leaderboard.Ranking.Board.{
  AreEntries, AreRanked, build_leaderboard-AreEntries, build_leaderboard-AreRanked,
}
use dailydraft_fun.Duels.Leaderboard.Cache.{snapshot_ttl_ms, get_snapshot, on_loaded, on_rejected}
use dailydraft_fun.Duels.Leaderboard.Cache.Fresh.{
  State, after_get, after_load, after_rejection, empty_cache, Reached, at_start, requested,
  fulfilled, IsAnswer, get_snapshot-IsAnswer,
}

abbrev platform : Platform
platform = record { locale_compare = λ _ _. same; encode_uri_component = λ t. t }

abbrev card : String → String → Outcome
card amount currency = record {
  insured_value = record { amount = text amount; currency = text currency; decimals = 6 };
  is_mock = false;
}

abbrev duel : String → String → Winner → List Outcome → Duel
duel creator opponent winner outcomes = record {
  creator_wallet = text creator;
  opponent_wallet = some (text opponent);
  outcomes = some outcomes;
  provider_mode = dailydraft_devnet;
  settled_at = some (text "2026-01-01T00:00:00.000Z");
  status = settled;
  winner_wallet = winner;
}

abbrev two_cards : List Outcome
two_cards = card "70" "USDC" ∷ card "30" "USDC" ∷ []

-- A win against the house, a tie, a loss, and a duel that does not count.
abbrev duels : List Duel
duels =
    duel "ann" "house" (wallet (text "ann")) two_cards
    ∷ duel "bob" "ann" nobody two_cards
    ∷ duel "bob" "house" (wallet (text "house")) two_cards
    ∷ record (duel "bob" "ann" nobody two_cards) { status = opening }
    ∷ []

abbrev board : Leaderboard
unfolding build_leaderboard rankable status_eq winner_played text_eq is_signed_integer
board = from_ok (build_leaderboard platform duels false 100 10 (text "house")) tt

board-run : build_leaderboard platform duels false 100 10 (text "house") ≡ ok board
unfolding board
board-run = refl

board-entries :
    (map (λ e. e.display) board.entries ≡ text "ann" ∷ text "bob" ∷ [])
    × (map (λ e. e.wins) board.entries ≡ 1 ∷ 0 ∷ [])
    × (map (λ e. e.total_won_value.amount) board.entries ≡ text "100" ∷ text "0" ∷ [])
    × (board.sampled_settled_duels ≡ 3)
unfolding board count_wallet to_string_ℤ ◌+ℤ◌ big_int_ℤ
board-entries = (refl, refl, refl, refl)

-- The values of one duel must be of one currency.
mixed-run :
    build_leaderboard platform
      (duel "ann" "bob" nobody (card "1" "USDC" ∷ card "1" "SOL" ∷ []) ∷ [])
      false
      100
      10
      (text "house")
    ≡ err mixed_money
unfolding board
mixed-run = refl

build_leaderboard-AreEntries_example :
    (ranked : List RankedDuel) × Counted duels ranked
    × AreEntries platform (text "house") ranked 1 board.entries
    × (board.sampled_settled_duels ≡ length ranked)
build_leaderboard-AreEntries_example =
    build_leaderboard-AreEntries platform duels false 100 10 (text "house") board-run

build_leaderboard-AreRanked_example : AreRanked board.entries
build_leaderboard-AreRanked_example =
    build_leaderboard-AreRanked platform duels false 100 10 (text "house") board-run

-- The cache after a request at 5 whose load ends at 10.
abbrev cached : State
unfolding get_snapshot on_loaded
cached = after_load snapshot_ttl_ms 10 0 (after_get 5 empty_cache)

cached-Reached : Reached snapshot_ttl_ms cached
unfolding cached
cached-Reached = fulfilled 10 0 (omega arith) (requested 5 at_start)

-- It answers with that load until 30010, and then starts another.
answers-run :
    ((get_snapshot 30_009 cached.started cached.entry).0 ≡ 0)
    × ((get_snapshot 30_010 cached.started cached.entry).0 ≡ 1)
unfolding cached
answers-run = (refl, refl)

-- After a load that was rejected, it starts another at once.
abbrev dropped : State
unfolding get_snapshot on_rejected
dropped = after_rejection 0 (after_get 5 empty_cache)

retries-run : (get_snapshot 6 dropped.started dropped.entry).0 ≡ 1
unfolding dropped
retries-run = refl

get_snapshot-IsAnswer_example :
    IsAnswer snapshot_ttl_ms 30_009 cached (get_snapshot 30_009 cached.started cached.entry).0
get_snapshot-IsAnswer_example = get_snapshot-IsAnswer snapshot_ttl_ms 30_009 cached-Reached
