-- ===== src/Duels/Leaderboard/Ranking/Sorted.antt =====
-- The order of the ranked standings.
use dailydraft_fun.Prelude.{
  ℕ, zero, suc, ◌≤◌, ◌≡◌, sym, ◌∙◌, true, false, inl, inr, List, [], ◌∷◌, arith, All, take,
  All-take, All-both, Bool-cases,
}
use dailydraft_fun.Prelude.Int.{◌≤ℤ◌, int_laws}
use dailydraft_fun.Duels.Leaderboard.Table.{Standing}
use dailydraft_fun.Duels.Leaderboard.Ranking.{Platform, goes_first, insert_standing, sort_standings}

-- More wins; with as many, no less value; with as many and the same value, no fewer duels.
pub record StandsAbove (a b : Standing) : Type 0 where
  pub by_wins : b.wins ≤ a.wins
  pub by_value : a.wins ≡ b.wins → b.total_won_amount ≤ℤ a.total_won_amount
  pub by_completed :
      a.wins ≡ b.wins → a.total_won_amount ≡ b.total_won_amount → b.completed ≤ a.completed

goes_first-StandsAbove : (p : Platform) (a b : Standing) → goes_first p a b ≡ true → StandsAbove a b
unfolding goes_first
goes_first-StandsAbove p a b h = record {
  by_wins = ground arith;
  by_value = λ same. ground arith;
  by_completed = λ same equal. ground (arith, equal);
}

goes_later-StandsAbove :
    (p : Platform) (a b : Standing) → goes_first p a b ≡ false → StandsAbove b a
unfolding goes_first
goes_later-StandsAbove p a b h = record {
  by_wins = ground arith;
  by_value = λ same. ground arith;
  by_completed = λ same equal. ground (arith, equal);
}

StandsAbove-trans : (a b c : Standing) → StandsAbove a b → StandsAbove b c → StandsAbove a c
StandsAbove-trans a b c p q = record {
  by_wins = omega (arith, p.by_wins, q.by_wins);
  by_value = λ same.
      let first : a.wins ≡ b.wins = omega (arith, p.by_wins, q.by_wins) in
      let second : b.wins ≡ c.wins = omega arith in
      omega (arith, p.by_value first, q.by_value second);
  by_completed = λ same equal.
      let first : a.wins ≡ b.wins = omega (arith, p.by_wins, q.by_wins) in
      let second : b.wins ≡ c.wins = omega arith in
      let high : b.total_won_amount ≤ℤ a.total_won_amount = p.by_value first in
      let low : a.total_won_amount ≤ℤ b.total_won_amount = rw equal (q.by_value second) in
      let level : a.total_won_amount ≡ b.total_won_amount = omega (int_laws, high, low) in
      omega (arith, p.by_completed first level, q.by_completed second (sym level ∙ equal));
}

-- Every standing stands above the later ones.
abbrev pub IsRanked : List Standing → Type 0
IsRanked [] = Unit
IsRanked (s ∷ ss) = All (StandsAbove s) ss × IsRanked ss

pub All-insert_standing :
    (p : Platform) (P : Standing → Type 0) (s : Standing) (ts : List Standing)
    → P s
    → All P ts
    → All P (insert_standing p s ts)
unfolding insert_standing
All-insert_standing p P s [] here all = (here, tt)
All-insert_standing p P s (t ∷ ts) here all = elim (Bool-cases (goes_first p s t)) [
  | inl first ↦ rw first (here, all)
  | inr later ↦ rw later (all.0, All-insert_standing p P s ts here all.1)
]

pub All-sort_standings :
    (p : Platform) (P : Standing → Type 0) (ss : List Standing)
    → All P ss
    → All P (sort_standings p ss)
unfolding sort_standings
All-sort_standings p P [] all = tt
All-sort_standings p P (s ∷ ss) all =
    All-insert_standing p P s (sort_standings p ss) all.0 (All-sort_standings p P ss all.1)

above-All :
    (s t : Standing) (ts : List Standing)
    → StandsAbove s t
    → All (StandsAbove t) ts
    → All (StandsAbove s) ts
above-All s t ts high all =
    All-both (StandsAbove t) (StandsAbove t) (StandsAbove s) ts
      (λ u low _. StandsAbove-trans s t u high low) all all

insert_standing-IsRanked :
    (p : Platform) (s : Standing) (ts : List Standing)
    → IsRanked ts
    → IsRanked (insert_standing p s ts)
unfolding insert_standing
insert_standing-IsRanked p s [] ranked = (tt, tt)
insert_standing-IsRanked p s (t ∷ ts) (above, ranked) = elim (Bool-cases (goes_first p s t)) [
  | inl first ↦
      let high = goes_first-StandsAbove p s t first in
      rw first ((high, above-All s t ts high above), (above, ranked))
  | inr later ↦
      let low = goes_later-StandsAbove p s t later in
      rw later (
        All-insert_standing p (StandsAbove t) s ts low above,
        insert_standing-IsRanked p s ts ranked,
      )
]

pub sort_standings-IsRanked : (p : Platform) (ss : List Standing) → IsRanked (sort_standings p ss)
unfolding sort_standings
sort_standings-IsRanked p [] = tt
sort_standings-IsRanked p (s ∷ ss) =
    insert_standing-IsRanked p s (sort_standings p ss) (sort_standings-IsRanked p ss)

pub take-IsRanked : (n : ℕ) (ss : List Standing) → IsRanked ss → IsRanked (take n ss)
take-IsRanked zero ss ranked = tt
take-IsRanked (suc n) [] ranked = tt
take-IsRanked (suc n) (s ∷ ss) (above, ranked) =
    (All-take (StandsAbove s) n ss above, take-IsRanked n ss ranked)
