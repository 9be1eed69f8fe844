-- ===== src/Duels/Leaderboard/Ranking/Board.antt =====
-- What a leaderboard tells of the duels.
use dailydraft_fun.Prelude.{
  length, ℕ, ◌+◌, ◌≤◌, ◌≡◌, refl, sym, ◌∙◌, Bool, false, some, List, [], ◌∷◌, ◌++◌, arith, All,
  All-both, All-take, Result, ok, err, from_bind, ok-injective,
}
use dailydraft_fun.Prelude.Int.{◌≤ℤ◌}
use dailydraft_fun.Js.Text.{Text, text, text_eq}
use dailydraft_fun.Js.Signed.{big_int_ℤ, big_int_ℤ-to_string_ℤ}
use dailydraft_fun.Duels.Leaderboard.Types.{Duel, RankedDuel, rankable}
use dailydraft_fun.Duels.Leaderboard.Table.{
  Standing, find_standing, count_ranked, count_if_ranked, count_duels,
}
use dailydraft_fun.Duels.Leaderboard.Table.Counted.{
  Counted, add_ranked, ranked_duels, ranked_duels-Counted,
}
use dailydraft_fun.Duels.Leaderboard.Table.Tally.{Tally, tally_of, tally_in-find}
use dailydraft_fun.Duels.Leaderboard.Table.Loop.{duels_tally, count_duels-all}
use dailydraft_fun.Duels.Leaderboard.Table.Distinct.{IsNot, find-distinct, count_duels-IsTable}
use dailydraft_fun.Duels.Leaderboard.Ranking.{
  Platform, sort_standings, pseudonymize_wallet, PublicEntry, public_entry, public_entries,
  Leaderboard, build_leaderboard,
}
use dailydraft_fun.Duels.Leaderboard.Ranking.Sorted.{
  StandsAbove, IsRanked, All-sort_standings, sort_standings-IsRanked, take-IsRanked,
}

-- The numbers of an entry.
abbrev pub entry_tally : PublicEntry → Tally
entry_tally e = record {
  completed = e.completed;
  losses = e.losses;
  ties = e.ties;
  total_won = big_int_ℤ e.total_won_value.amount;
  wins = e.wins;
}

-- The entry at a rank tells the numbers of one wallet, which is not the house's.
pub record IsEntry (p : Platform) (house : Text) (duels : List RankedDuel) (rank : ℕ)
    (e : PublicEntry) : Type 0 where
  pub wallet : Text
  pub display : e.display ≡ pseudonymize_wallet wallet
  pub profile_href : e.profile_href ≡ text "/profile/" ++ p.encode_uri_component wallet
  pub not_house : text_eq wallet house ≡ false
  pub ranked : e.rank ≡ rank
  pub tally : entry_tally e ≡ duels_tally house wallet duels

abbrev pub AreEntries : Platform → Text → List RankedDuel → ℕ → List PublicEntry → Type 0
AreEntries p house duels rank [] = Unit
AreEntries p house duels rank (e ∷ es) =
    IsEntry p house duels rank e × AreEntries p house duels (rank + 1) es

-- More wins; with as many, no less value; with as many and the same value, no fewer duels.
pub record RanksAbove (a b : PublicEntry) : Type 0 where
  pub by_wins : b.wins ≤ a.wins
  pub by_value :
      a.wins ≡ b.wins → big_int_ℤ b.total_won_value.amount ≤ℤ big_int_ℤ a.total_won_value.amount
  pub by_completed :
      a.wins ≡ b.wins
      → big_int_ℤ a.total_won_value.amount ≡ big_int_ℤ b.total_won_value.amount
      → b.completed ≤ a.completed

abbrev pub AreRanked : List PublicEntry → Type 0
AreRanked [] = Unit
AreRanked (e ∷ es) = All (RanksAbove e) es × AreRanked es

-- Whether a duel counts.
abbrev one_if_ranked : Result (Unit {0}) RankedDuel → ℕ
one_if_ranked (err _) = 0
one_if_ranked (ok _) = 1

add_ranked-length :
    (m : Result (Unit {0}) RankedDuel) (rs : List RankedDuel)
    → length (add_ranked m rs) ≡ one_if_ranked m + length rs
add_ranked-length (err _) rs = omega arith
add_ranked-length (ok r) rs = omega arith

count_if_ranked-sampled :
    (house : Text) (m : Result (Unit {0}) RankedDuel) (sampled : ℕ) (table : List Standing)
    {out : ℕ × List Standing}
    → count_if_ranked house m sampled table ≡ ok out
    → out.0 ≡ sampled + one_if_ranked m
unfolding count_if_ranked
count_if_ranked-sampled house (err _) sampled table h = rw (sym (ok-injective h)) (omega arith)
count_if_ranked-sampled house (ok duel) sampled table h =
    from_bind (count_ranked house duel table) _ h λ table' _ h₁. rw (sym (ok-injective h₁)) refl

count_duels-sampled :
    (house : Text) (duels : List Duel) (sampled : ℕ) (table : List Standing)
    {out : ℕ × List Standing}
    → count_duels house duels sampled table ≡ ok out
    → out.0 ≡ sampled + length (ranked_duels duels)
unfolding count_duels
count_duels-sampled house [] sampled table h = rw (sym (ok-injective h)) (omega arith)
count_duels-sampled house (d ∷ ds) sampled table h =
    from_bind (count_if_ranked house (rankable d) sampled table) _ h λ next turned h₁. omega (
      arith,
      count_if_ranked-sampled house (rankable d) sampled table turned,
      count_duels-sampled house ds next.0 next.1 h₁,
      add_ranked-length (rankable d) (ranked_duels ds),
    )

-- A standing that tells the numbers of its wallet.
abbrev IsCounted : Text → List RankedDuel → Standing → Type 0
IsCounted house duels s =
    (text_eq s.wallet house ≡ false) × (tally_of s ≡ duels_tally house s.wallet duels)

table-IsCounted :
    (house : Text) (duels : List Duel) {out : ℕ × List Standing}
    → count_duels house duels 0 [] ≡ ok out
    → All (IsCounted house (ranked_duels duels)) out.1
table-IsCounted house duels {out} h =
    let t = count_duels-IsTable house duels 0 [] h (record { distinct = tt; no_house = tt }) in
    All-both (IsNot house) (λ s. find_standing s.wallet out.1 ≡ some s)
      (IsCounted house (ranked_duels duels)) out.1
      (λ s other found.
        (other, sym (tally_in-find s.wallet out.1 found) ∙ count_duels-all house duels s.wallet h))
      t.no_house (find-distinct out.1 t.distinct)

public_entries-AreEntries :
    (p : Platform) (house : Text) (duels : List RankedDuel) (rank : ℕ) (ss : List Standing)
    → All (IsCounted house duels) ss
    → AreEntries p house duels rank (public_entries p rank ss)
unfolding public_entries public_entry
public_entries-AreEntries p house duels rank [] counted = tt
public_entries-AreEntries p house duels rank (s ∷ ss) ((other, tally), counted) = (
  record {
    wallet = s.wallet;
    display = refl;
    profile_href = refl;
    not_house = other;
    ranked = refl;
    tally = rw (big_int_ℤ-to_string_ℤ s.total_won_amount) tally;
  },
  public_entries-AreEntries p house duels (rank + 1) ss counted,
)

public_entry-RanksAbove :
    (p : Platform) (i j : ℕ) (a b : Standing)
    → StandsAbove a b
    → RanksAbove (public_entry p i a) (public_entry p j b)
unfolding public_entry
public_entry-RanksAbove p i j a b above = record {
  by_wins = above.by_wins;
  by_value =
      rw (big_int_ℤ-to_string_ℤ a.total_won_amount, big_int_ℤ-to_string_ℤ b.total_won_amount)
        above.by_value;
  by_completed =
      rw (big_int_ℤ-to_string_ℤ a.total_won_amount, big_int_ℤ-to_string_ℤ b.total_won_amount)
        above.by_completed;
}

public_entries-above :
    (p : Platform) (i rank : ℕ) (s : Standing) (ss : List Standing)
    → All (StandsAbove s) ss
    → All (RanksAbove (public_entry p i s)) (public_entries p rank ss)
unfolding public_entries
public_entries-above p i rank s [] all = tt
public_entries-above p i rank s (t ∷ ts) (above, all) =
    (public_entry-RanksAbove p i rank s t above, public_entries-above p i (rank + 1) s ts all)

public_entries-AreRanked :
    (p : Platform) (rank : ℕ) (ss : List Standing)
    → IsRanked ss
    → AreRanked (public_entries p rank ss)
unfolding public_entries
public_entries-AreRanked p rank [] ranked = tt
public_entries-AreRanked p rank (s ∷ ss) (above, ranked) = (
  public_entries-above p rank (rank + 1) s ss above,
  public_entries-AreRanked p (rank + 1) ss ranked,
)

-- A leaderboard is that of the duels that count, which are those settled at a known time by two wallets, in no
-- mock mode, with two outcomes, neither a mock, and won by nobody or by one of the two: the sampled duels are
-- as many as these, and the entries have the ranks from 1 and each tells one wallet, never the house's, whose
-- completed duels, losses, ties, wins and the value that it won are the sums over these duels.
pub build_leaderboard-AreEntries :
    (p : Platform) (duels : List Duel) (has_more : Bool) (sample_limit entry_limit : ℕ)
    (house : Text) {board : Leaderboard}
    → build_leaderboard p duels has_more sample_limit entry_limit house ≡ ok board
    → (ranked : List RankedDuel) × Counted duels ranked
      × AreEntries p house ranked 1 board.entries
      × (board.sampled_settled_duels ≡ length ranked)
unfolding build_leaderboard
build_leaderboard-AreEntries p duels has_more sample_limit entry_limit house h =
    from_bind (count_duels house duels 0 []) _ h λ out counted h₁.
      let ranked = ranked_duels duels in
      let all =
        All-sort_standings p (IsCounted house ranked) out.1 (table-IsCounted house duels counted) in
      let top = All-take (IsCounted house ranked) entry_limit (sort_standings p out.1) all in
      rw (sym (ok-injective h₁)) (
        ranked,
        ranked_duels-Counted duels,
        public_entries-AreEntries p house ranked 1 _ top,
        omega (arith, count_duels-sampled house duels 0 [] counted),
      )

-- Each entry of a leaderboard ranks above the later ones: it has more wins, or as many and no less value,
-- or as many of the same value and no fewer duels, whatever the comparison of texts.
pub build_leaderboard-AreRanked :
    (p : Platform) (duels : List Duel) (has_more : Bool) (sample_limit entry_limit : ℕ)
    (house : Text) {board : Leaderboard}
    → build_leaderboard p duels has_more sample_limit entry_limit house ≡ ok board
    → AreRanked board.entries
unfolding build_leaderboard
build_leaderboard-AreRanked p duels has_more sample_limit entry_limit house h =
    from_bind (count_duels house duels 0 []) _ h λ out counted h₁. rw (sym (ok-injective h₁)) (
      public_entries-AreRanked p 1 _
        (take-IsRanked entry_limit _ (sort_standings-IsRanked p out.1)))
