-- ===== src/Duels/Leaderboard/Table/Distinct.antt =====
-- The map of entries: each wallet has one standing, and the house has none.
use dailydraft_fun.Prelude.{
  ℕ, ◌≡◌, refl, sym, ap, ◌∙◌, false, inl, inr, some, List, [], ◌∷◌, All, All-both, Bool-cases,
  Result, ok, err, from_bind, ok-injective,
}
use dailydraft_fun.Prelude.Int.{ℤ}
use dailydraft_fun.Js.Text.{Text, text_eq, text_eq_iff, text_eq_refl, text_eq_comm}
use dailydraft_fun.Js.Signed.{big_int_ℤ}
use dailydraft_fun.Duels.Leaderboard.Types.{Duel, RankedDuel, rankable, sum_money}
use dailydraft_fun.Duels.Leaderboard.Table.{
  Standing, find_standing, set_standing, standing_or_new, add_played, count_wallet, count_seat,
  count_wallets, count_ranked, count_if_ranked, count_duels,
}
use dailydraft_fun.Duels.Leaderboard.Table.Tally.{standing_or_new-wallet, add_result-wallet}

-- The standing is not of a wallet.
abbrev pub IsNot : Text → Standing → Type 0
IsNot w s = text_eq s.wallet w ≡ false

abbrev pub AreDistinct : List Standing → Type 0
AreDistinct [] = Unit
AreDistinct (s ∷ ss) = All (IsNot s.wallet) ss × AreDistinct ss

pub record IsTable (house : Text) (table : List Standing) : Type 0 where
  pub distinct : AreDistinct table
  pub no_house : All (IsNot house) table

All-set_standing :
    (P : Standing → Type 0) (s : Standing) (ts : List Standing)
    → P s
    → All P ts
    → All P (set_standing s ts)
unfolding set_standing
All-set_standing P s [] here all = (here, tt)
All-set_standing P s (t ∷ ts) here all = elim (Bool-cases (text_eq t.wallet s.wallet)) [
  | inl hit ↦ rw hit (here, all.1)
  | inr miss ↦ rw miss (all.0, All-set_standing P s ts here all.1)
]

set_standing-AreDistinct :
    (s : Standing) (ts : List Standing) → AreDistinct ts → AreDistinct (set_standing s ts)
unfolding set_standing
set_standing-AreDistinct s [] distinct = (tt, tt)
set_standing-AreDistinct s (t ∷ ts) (others, distinct) =
    elim (Bool-cases (text_eq t.wallet s.wallet)) [
      | inl hit ↦
          let same = (text_eq_iff t.wallet s.wallet).0 hit in
          rw hit (
            All-both (IsNot t.wallet) (IsNot t.wallet) (IsNot s.wallet) ts
                (λ u e _. ap (text_eq u.wallet) (sym same) ∙ e) others others,
            distinct,
          )
      | inr miss ↦ rw miss (
        All-set_standing (IsNot t.wallet) s ts (text_eq_comm s.wallet t.wallet ∙ miss) others,
        set_standing-AreDistinct s ts distinct,
      )
    ]

-- Each standing of a table is the one that its wallet finds.
pub find-distinct :
    (table : List Standing)
    → AreDistinct table
    → All (λ s. find_standing s.wallet table ≡ some s) table
unfolding find_standing
find-distinct [] distinct = tt
find-distinct (t ∷ ts) (others, distinct) = (
  rw (text_eq_refl t.wallet) refl,
  All-both (IsNot t.wallet) (λ s. find_standing s.wallet ts ≡ some s)
      (λ s. find_standing s.wallet (t ∷ ts) ≡ some s) ts
      (λ s other found. rw (text_eq_comm t.wallet s.wallet ∙ other) found) others
      (find-distinct ts distinct),
)

count_wallet-IsTable :
    (house : Text) (duel : RankedDuel) (value : ℤ) (w : Text) (table : List Standing)
    → text_eq w house ≡ false
    → IsTable house table
    → IsTable house (count_wallet duel value w table)
unfolding count_wallet
count_wallet-IsTable house duel value w table other t =
    let s = standing_or_new (find_standing w table) w duel.played_at in
    let name =
      add_result-wallet duel.winner w value (add_played duel.played_at s)
      ∙ standing_or_new-wallet w duel.played_at table in
    record {
      distinct = set_standing-AreDistinct _ table t.distinct;
      no_house =
          All-set_standing (IsNot house) _ table (ap (λ u. text_eq u house) name ∙ other)
            t.no_house;
    }

count_seat-IsTable :
    (house : Text) (duel : RankedDuel) (value : ℤ) (w : Text) (table : List Standing)
    → IsTable house table
    → IsTable house (count_seat house duel value w table)
unfolding count_seat
count_seat-IsTable house duel value w table t = elim (Bool-cases (text_eq w house)) [
  | inl out ↦ rw out t
  | inr other ↦ rw other (count_wallet-IsTable house duel value w table other t)
]

count_if_ranked-IsTable :
    (house : Text) (m : Result (Unit {0}) RankedDuel) (sampled : ℕ) (table : List Standing)
    {out : ℕ × List Standing}
    → count_if_ranked house m sampled table ≡ ok out
    → IsTable house table
    → IsTable house out.1
unfolding count_if_ranked count_ranked count_wallets
count_if_ranked-IsTable house (err _) sampled table h t = rw (sym (ok-injective h)) t
count_if_ranked-IsTable house (ok duel) sampled table h t =
    from_bind (count_ranked house duel table) _ h λ table' counted h₁.
      from_bind (sum_money duel.outcomes) _ counted λ total _ h₂.
        let value = big_int_ℤ total.amount in
        let first = count_seat-IsTable house duel value duel.creator table t in
        rw (sym (ok-injective h₁))
          (rw (sym (ok-injective h₂)) (count_seat-IsTable house duel value duel.opponent _ first))

pub count_duels-IsTable :
    (house : Text) (duels : List Duel) (sampled : ℕ) (table : List Standing)
    {out : ℕ × List Standing}
    → count_duels house duels sampled table ≡ ok out
    → IsTable house table
    → IsTable house out.1
unfolding count_duels
count_duels-IsTable house [] sampled table h t = rw (sym (ok-injective h)) t
count_duels-IsTable house (d ∷ ds) sampled table h t =
    from_bind (count_if_ranked house (rankable d) sampled table) _ h λ next turned h₁.
      count_duels-IsTable house ds next.0 next.1 h₁
        (count_if_ranked-IsTable house (rankable d) sampled table turned t)
