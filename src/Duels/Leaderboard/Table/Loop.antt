-- ===== src/Duels/Leaderboard/Table/Loop.antt =====
-- The standings after the loop over the duels.
use dailydraft_fun.Prelude.{
  ℕ, ◌≡◌, refl, sym, ap, ◌∙◌, List, [], ◌∷◌, arith, Result, ok, err, from_bind, throw_if,
  ok-injective,
}
use dailydraft_fun.Prelude.Int.{ℤ, pos, ◌+ℤ◌, +ℤ_assoc, +ℤ-zero_right, +ℤ-zero_left}
use dailydraft_fun.Js.Text.{Text}
use dailydraft_fun.Js.Signed.{big_int_ℤ, big_int_ℤ-to_string_ℤ}
use dailydraft_fun.Duels.Leaderboard.Types.{
  Duel, RankedDuel, rankable, mixed_money, Outcome, CardValue, read_amount, differs, first_value,
  sum_values, sum_money,
}
use dailydraft_fun.Duels.Leaderboard.Table.{Standing, count_ranked, count_if_ranked, count_duels}
use dailydraft_fun.Duels.Leaderboard.Table.Counted.{add_ranked, ranked_duels}
use dailydraft_fun.Duels.Leaderboard.Table.Tally.{
  Tally, zero_tally, add_tally, add_tally-zero, add_zero_tally, add_tally_assoc, tally_in,
  tally_in-empty, duel_tally, count_wallets-tally,
}

-- The value of the outcomes, added from the last.
abbrev pub value_of : List Outcome → ℤ
value_of [] = pos 0
value_of (o ∷ os) = big_int_ℤ o.insured_value.amount +ℤ value_of os

read_amount_lem : (t : Text) {z : ℤ} → read_amount t ≡ ok z → z ≡ big_int_ℤ t
unfolding read_amount
read_amount_lem t h = ground arith

sum_values_lem :
    (total : ℤ) (os : List Outcome) {out : ℤ}
    → sum_values total os ≡ ok out
    → out ≡ total +ℤ value_of os
unfolding sum_values
sum_values_lem total [] h = sym (ok-injective h) ∙ sym (+ℤ-zero_right total)
sum_values_lem total (o ∷ os) h =
    from_bind (read_amount o.insured_value.amount) _ h λ amount read h₁.
      sum_values_lem (total +ℤ amount) os h₁
      ∙ ap (λ u. total +ℤ u +ℤ value_of os) (read_amount_lem o.insured_value.amount read)
      ∙ +ℤ_assoc total (big_int_ℤ o.insured_value.amount) (value_of os)

sum_money_lem :
    (os : List Outcome) {m : CardValue} → sum_money os ≡ ok m → big_int_ℤ m.amount ≡ value_of os
unfolding sum_money
sum_money_lem os h = from_bind (throw_if (differs (first_value os) os) mixed_money) _ h λ _ _ h₁.
    from_bind (sum_values (pos 0) os) _ h₁ λ total summed h₂.
      rw (sym (ok-injective h₂)) (
        big_int_ℤ-to_string_ℤ total ∙ sum_values_lem (pos 0) os summed ∙ +ℤ-zero_left (value_of os))

count_ranked-tally :
    (house : Text) (duel : RankedDuel) (w : Text) (table : List Standing) {table' : List Standing}
    → count_ranked house duel table ≡ ok table'
    → tally_in w table'
      ≡ add_tally (tally_in w table) (duel_tally house w duel (value_of duel.outcomes))
unfolding count_ranked
count_ranked-tally house duel w table h = from_bind (sum_money duel.outcomes) _ h λ total summed h₁.
    rw (sym (ok-injective h₁)) (
      count_wallets-tally house duel (big_int_ℤ total.amount) w table
      ∙ ap (λ v. add_tally (tally_in w table) (duel_tally house w duel v))
          (sum_money_lem duel.outcomes summed))

-- What a duel is to a wallet, if it counts.
abbrev pub ranked_tally : Text → Text → Result (Unit {0}) RankedDuel → Tally
ranked_tally house w (err _) = zero_tally
ranked_tally house w (ok r) = duel_tally house w r (value_of r.outcomes)

-- What all duels that count are to a wallet.
abbrev pub duels_tally : Text → Text → List RankedDuel → Tally
duels_tally house w [] = zero_tally
duels_tally house w (r ∷ rs) =
    add_tally (duel_tally house w r (value_of r.outcomes)) (duels_tally house w rs)

add_ranked-tally :
    (house : Text) (m : Result (Unit {0}) RankedDuel) (w : Text) (rs : List RankedDuel)
    → duels_tally house w (add_ranked m rs)
      ≡ add_tally (ranked_tally house w m) (duels_tally house w rs)
add_ranked-tally house (err _) w rs = sym (add_zero_tally (duels_tally house w rs))
add_ranked-tally house (ok r) w rs = refl

count_if_ranked-tally :
    (house : Text) (m : Result (Unit {0}) RankedDuel) (w : Text) (sampled : ℕ)
    (table : List Standing) {out : ℕ × List Standing}
    → count_if_ranked house m sampled table ≡ ok out
    → tally_in w out.1 ≡ add_tally (tally_in w table) (ranked_tally house w m)
unfolding count_if_ranked
count_if_ranked-tally house (err _) w sampled table h =
    rw (sym (ok-injective h)) (sym (add_tally-zero (tally_in w table)))
count_if_ranked-tally house (ok r) w sampled table h =
    from_bind (count_ranked house r table) _ h
      λ table' ranked h₁. rw (sym (ok-injective h₁)) (count_ranked-tally house r w table ranked)

count_duels-tally :
    (house : Text) (duels : List Duel) (w : Text) (sampled : ℕ) (table : List Standing)
    {out : ℕ × List Standing}
    → count_duels house duels sampled table ≡ ok out
    → tally_in w out.1 ≡ add_tally (tally_in w table) (duels_tally house w (ranked_duels duels))
unfolding count_duels
count_duels-tally house [] w sampled table h =
    rw (sym (ok-injective h)) (sym (add_tally-zero (tally_in w table)))
count_duels-tally house (d ∷ ds) w sampled table h =
    from_bind (count_if_ranked house (rankable d) sampled table) _ h λ next turned h₁.
      count_duels-tally house ds w next.0 next.1 h₁
      ∙ ap (λ t. add_tally t (duels_tally house w (ranked_duels ds)))
          (count_if_ranked-tally house (rankable d) w sampled table turned)
      ∙ add_tally_assoc (tally_in w table) (ranked_tally house w (rankable d))
          (duels_tally house w (ranked_duels ds))
      ∙ ap (add_tally (tally_in w table))
          (sym (add_ranked-tally house (rankable d) w (ranked_duels ds)))

-- From no standings, a wallet has the numbers of all duels.
pub count_duels-all :
    (house : Text) (duels : List Duel) (w : Text) {out : ℕ × List Standing}
    → count_duels house duels 0 [] ≡ ok out
    → tally_in w out.1 ≡ duels_tally house w (ranked_duels duels)
count_duels-all house duels w h =
    count_duels-tally house duels w 0 [] h
    ∙ ap (λ t. add_tally t (duels_tally house w (ranked_duels duels))) (tally_in-empty w)
    ∙ add_zero_tally (duels_tally house w (ranked_duels duels))
