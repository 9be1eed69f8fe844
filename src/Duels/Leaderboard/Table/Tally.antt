-- ===== src/Duels/Leaderboard/Table/Tally.antt =====
-- What a standing counts, told without the loop.
use dailydraft_fun.Prelude.{
  ℕ, ◌+◌, ◌≡◌, refl, sym, ap, ◌∙◌, false, inl, inr, Option, none, some, List, [], ◌∷◌, arith,
  if◌then◌else◌, Bool-cases, Option-cases,
}
use dailydraft_fun.Prelude.Int.{ℤ, pos, ◌+ℤ◌, int_laws}
use dailydraft_fun.Js.Text.{Text, text_eq, text_eq_iff, text_eq_refl}
use dailydraft_fun.Duels.Leaderboard.Types.{RankedDuel}
use dailydraft_fun.Duels.Leaderboard.Table.{
  Standing, find_standing, set_standing, standing_or_new, add_played, add_result, count_wallet,
  count_seat, count_wallets,
}

-- The numbers of a wallet.
pub record Tally : Type 0 where
  pub completed : ℕ
  pub losses : ℕ
  pub ties : ℕ
  pub total_won : ℤ
  pub wins : ℕ

abbrev pub zero_tally : Tally
zero_tally = record { completed = 0; losses = 0; ties = 0; total_won = pos 0; wins = 0 }

abbrev pub add_tally : Tally → Tally → Tally
add_tally a b = record {
  completed = a.completed + b.completed;
  losses = a.losses + b.losses;
  ties = a.ties + b.ties;
  total_won = a.total_won +ℤ b.total_won;
  wins = a.wins + b.wins;
}

abbrev pub tally_of : Standing → Tally
tally_of s = record {
  completed = s.completed;
  losses = s.losses;
  ties = s.ties;
  total_won = s.total_won_amount;
  wins = s.wins;
}

-- The numbers of a wallet in a table.
abbrev pub tally_or_zero : Option Standing → Tally
tally_or_zero none = zero_tally
tally_or_zero (some s) = tally_of s

abbrev pub tally_in : Text → List Standing → Tally
unfolding find_standing
tally_in w table = tally_or_zero (find_standing w table)

-- What one duel is to one of its two wallets: a tie, a win of all its value, or a loss.
abbrev pub result_tally : Option Text → Text → ℤ → Tally
result_tally none w value = record {
  completed = 1;
  losses = 0;
  ties = 1;
  total_won = pos 0;
  wins = 0;
}
result_tally (some winner) w value =
    if text_eq winner w
    then record { completed = 1; losses = 0; ties = 0; total_won = value; wins = 1 }
    else record { completed = 1; losses = 1; ties = 0; total_won = pos 0; wins = 0 }

-- What a duel is to `w` through one of its wallets, which counts unless it is the house's.
abbrev pub seat_tally : Text → RankedDuel → ℤ → Text → Text → Tally
seat_tally house duel value w seat =
    if text_eq seat house
    then zero_tally
    else if text_eq seat w
    then result_tally duel.winner w value
    else zero_tally

find-set-same :
    (s : Standing) (table : List Standing) → find_standing s.wallet (set_standing s table) ≡ some s
unfolding find_standing set_standing
find-set-same s [] = rw (text_eq_refl s.wallet) refl
find-set-same s (t ∷ ts) = elim (Bool-cases (text_eq t.wallet s.wallet)) [
  | inl hit ↦ rw hit (rw (text_eq_refl s.wallet) refl)
  | inr miss ↦ rw miss (rw miss (find-set-same s ts))
]

find-set-other :
    (s : Standing) (w : Text) (table : List Standing)
    → text_eq s.wallet w ≡ false
    → find_standing w (set_standing s table) ≡ find_standing w table
unfolding find_standing set_standing
find-set-other s w [] other = rw other refl
find-set-other s w (t ∷ ts) other = elim (Bool-cases (text_eq t.wallet s.wallet)) [
  | inl hit ↦
      let same : text_eq t.wallet w ≡ false =
        ap (λ u. text_eq u w) ((text_eq_iff t.wallet s.wallet).0 hit) ∙ other in
      rw hit (rw other (rw same refl))
  | inr miss ↦ rw miss (rw (find-set-other s w ts other) refl)
]

find_standing-wallet :
    (w : Text) (table : List Standing) {s : Standing}
    → find_standing w table ≡ some s
    → s.wallet ≡ w
unfolding find_standing
find_standing-wallet w [] h = cc
find_standing-wallet w (t ∷ ts) {s = s} h = elim (Bool-cases (text_eq t.wallet w)) [
  | inl hit ↦
      let same : t ≡ s = cc (rw hit at h) in
      ap (λ u. u.wallet) (sym same) ∙ (text_eq_iff t.wallet w).0 hit
  | inr miss ↦ find_standing-wallet w ts (rw miss at h)
]

pub standing_or_new-wallet :
    (w played_at : Text) (table : List Standing)
    → (standing_or_new (find_standing w table) w played_at).wallet ≡ w
standing_or_new-wallet w played_at table = elim (Option-cases (find_standing w table)) [
  | inl new ↦ rw new refl
  | inr (s, old) ↦ rw old (find_standing-wallet w table old)
]

standing_or_new-tally :
    (o : Option Standing) (w played_at : Text)
    → tally_of (standing_or_new o w played_at) ≡ tally_or_zero o
standing_or_new-tally none w played_at = refl
standing_or_new-tally (some s) w played_at = refl

pub add_result-wallet :
    (winner : Option Text) (w : Text) (value : ℤ) (s : Standing)
    → (add_result winner w value s).wallet ≡ s.wallet
unfolding add_result
add_result-wallet none w value s = refl
add_result-wallet (some winner) w value s = ground arith

-- The standing after a duel.
abbrev counted : RankedDuel → ℤ → Text → Standing → Standing
unfolding add_result add_played
counted duel value w s = add_result duel.winner w value (add_played duel.played_at s)

tally_eq :
    (a b : Tally)
    → a.completed ≡ b.completed
    → a.losses ≡ b.losses
    → a.ties ≡ b.ties
    → a.total_won ≡ b.total_won
    → a.wins ≡ b.wins
    → a ≡ b
tally_eq a b completed losses ties total wins = cc

add_result-tally :
    (winner : Option Text) (w played_at : Text) (value : ℤ) (s : Standing)
    → tally_of (add_result winner w value (add_played played_at s))
      ≡ add_tally (tally_of s) (result_tally winner w value)
unfolding add_result add_played
add_result-tally none w played_at value s =
    tally_eq _ _ refl (omega arith) refl (omega int_laws) (omega arith)
add_result-tally (some winner) w played_at value s = elim (Bool-cases (text_eq winner w)) [
  | inl won ↦ rw won (tally_eq _ _ refl (omega arith) (omega arith) refl refl)
  | inr lost ↦ rw lost (tally_eq _ _ refl refl (omega arith) (omega int_laws) (omega arith))
]

pub add_tally-zero : (t : Tally) → add_tally t zero_tally ≡ t
add_tally-zero t =
    tally_eq _ _ (omega arith) (omega arith) (omega arith) (omega int_laws) (omega arith)

pub add_zero_tally : (t : Tally) → add_tally zero_tally t ≡ t
add_zero_tally t =
    tally_eq _ _ (omega arith) (omega arith) (omega arith) (omega int_laws) (omega arith)

pub add_tally_assoc : (a b c : Tally) → add_tally (add_tally a b) c ≡ add_tally a (add_tally b c)
add_tally_assoc a b c =
    tally_eq _ _ (omega arith) (omega arith) (omega arith) (omega int_laws) (omega arith)

count_wallet-own :
    (duel : RankedDuel) (value : ℤ) (seat : Text) (table : List Standing)
    → tally_in seat (count_wallet duel value seat table)
      ≡ add_tally (tally_in seat table) (result_tally duel.winner seat value)
unfolding count_wallet
count_wallet-own duel value seat table =
    let s = standing_or_new (find_standing seat table) seat duel.played_at in
    let s' = counted duel value seat s in
    let name : s'.wallet ≡ seat =
      add_result-wallet duel.winner seat value (add_played duel.played_at s)
      ∙ standing_or_new-wallet seat duel.played_at table in
    ap (λ u. tally_or_zero (find_standing u (set_standing s' table))) (sym name)
    ∙ ap tally_or_zero (find-set-same s' table)
    ∙ add_result-tally duel.winner seat duel.played_at value s
    ∙ ap (λ t. add_tally t (result_tally duel.winner seat value))
        (standing_or_new-tally (find_standing seat table) seat duel.played_at)

count_wallet-tally :
    (duel : RankedDuel) (value : ℤ) (seat w : Text) (table : List Standing)
    → tally_in w (count_wallet duel value seat table)
      ≡ add_tally
          (tally_in w table)
          (if text_eq seat w then result_tally duel.winner w value else zero_tally)
unfolding count_wallet
count_wallet-tally duel value seat w table =
    let s = standing_or_new (find_standing seat table) seat duel.played_at in
    let s' = counted duel value seat s in
    let name : s'.wallet ≡ seat =
      add_result-wallet duel.winner seat value (add_played duel.played_at s)
      ∙ standing_or_new-wallet seat duel.played_at table in
    elim (Bool-cases (text_eq seat w)) [
      | inl own ↦
          let e = (text_eq_iff seat w).0 own in
          rw own (
            ap (λ u. tally_in u (count_wallet duel value seat table)) (sym e)
            ∙ count_wallet-own duel value seat table
            ∙ ap (λ u. add_tally (tally_in u table) (result_tally duel.winner u value)) e)
      | inr other ↦ rw other (
          ap tally_or_zero (find-set-other s' w table (ap (λ u. text_eq u w) name ∙ other))
          ∙ sym (add_tally-zero (tally_in w table)))
    ]

count_seat-tally :
    (house : Text) (duel : RankedDuel) (value : ℤ) (seat w : Text) (table : List Standing)
    → tally_in w (count_seat house duel value seat table)
      ≡ add_tally (tally_in w table) (seat_tally house duel value w seat)
unfolding count_seat
count_seat-tally house duel value seat w table = elim (Bool-cases (text_eq seat house)) [
  | inl out ↦ rw out (sym (add_tally-zero (tally_in w table)))
  | inr counts ↦ rw counts (count_wallet-tally duel value seat w table)
]

-- What a duel is to a wallet.
abbrev pub duel_tally : Text → Text → RankedDuel → ℤ → Tally
duel_tally house w duel value =
    add_tally (seat_tally house duel value w duel.creator)
      (seat_tally house duel value w duel.opponent)

pub count_wallets-tally :
    (house : Text) (duel : RankedDuel) (value : ℤ) (w : Text) (table : List Standing)
    → tally_in w (count_wallets house duel value table)
      ≡ add_tally (tally_in w table) (duel_tally house w duel value)
unfolding count_wallets
count_wallets-tally house duel value w table =
    count_seat-tally house duel value duel.opponent w
      (count_seat house duel value duel.creator table)
    ∙ ap (λ t. add_tally t (seat_tally house duel value w duel.opponent))
        (count_seat-tally house duel value duel.creator w table)
    ∙ add_tally_assoc (tally_in w table) (seat_tally house duel value w duel.creator)
        (seat_tally house duel value w duel.opponent)

pub tally_in-find :
    (w : Text) (table : List Standing) {s : Standing}
    → find_standing w table ≡ some s
    → tally_in w table ≡ tally_of s
unfolding tally_in find_standing
tally_in-find w table found = ap tally_or_zero found

pub tally_in-empty : (w : Text) → tally_in w [] ≡ zero_tally
unfolding tally_in
tally_in-empty w = refl
