-- ===== src/Treasury/Reserve/Replay.antt =====
-- A repeated call of `reserveHouseExposure` for the same duel.
use dailydraft_fun.Prelude.{
  ℕ, ◌≡◌, refl, sym, ap, ◌∙◌, ◌⊎◌, Bool, true, inl, inr, Option, none, some, List, ◌∷◌, arith, ok,
}
use dailydraft_fun.Js.Text.{Text, text_eq_refl}
use dailydraft_fun.Treasury.Types.{Config, Reservation, Database}
use dailydraft_fun.Treasury.Config.{Environment, read_config, is_some_text}
use dailydraft_fun.Treasury.Reserve.{
  Input, Fresh, check_input, find_duel, same_exposure, assert_exact_replay, new_reservation,
  reserve_exposure,
}
use dailydraft_fun.Treasury.Reserve.Inversion.{Creates, reserve_exposure-cases}
use dailydraft_fun.Treasury.Reserve.Caps.{write_reservation_lem}

-- The call made a new row, rather than find one.
same_exposure-new :
    (fresh : Fresh) (input : Input) (tier : ℕ)
    → same_exposure (new_reservation fresh input tier) input tier ≡ true
unfolding same_exposure new_reservation
same_exposure-new fresh input tier = ground (
  arith,
  text_eq_refl input.amount,
  text_eq_refl input.currency,
  text_eq_refl input.player_wallet,
)

find_duel-created :
    (fresh : Fresh) (input : Input) (tier : ℕ) (rs : List Reservation)
    → find_duel input.duel_id (new_reservation fresh input tier ∷ rs)
      ≡ some (new_reservation fresh input tier)
unfolding find_duel new_reservation is_some_text
find_duel-created fresh input tier rs = ground (arith, text_eq_refl input.duel_id)

-- A call whose first lookup saw a row of the same exposure returns the tables as they are.
reserve_exposure-same :
    (k : Text → Bool) (env : Environment) (fresh : Fresh) (input : Input) (tier : ℕ)
    (r : Reservation) (db : Database)
    → check_input input ≡ ok tier
    → same_exposure r input tier ≡ true
    → reserve_exposure k env fresh (some r) input db ≡ ok db
unfolding reserve_exposure assert_exact_replay
reserve_exposure-same k env fresh input tier r db checked same = rw (checked, same) refl

-- The row that a lookup under the lock would find after a successful call.
find_duel-after :
    (c : Config) (fresh : Fresh) (input : Input) (db : Database) {db' : Database}
    (creates : Creates c fresh input db db')
    → find_duel input.duel_id db'.reservations ≡ some (new_reservation fresh input creates.tier)
find_duel-after c fresh input db {db'} creates =
    let (rows, _, _) =
      write_reservation_lem fresh input creates.tier db {db' = db'} creates.wrote in
    ap (find_duel input.duel_id) rows ∙ find_duel-created fresh input creates.tier db.reservations

-- After a successful call whose first lookup saw the table or nothing, the same call again, with its
-- first lookup on the new tables, succeeds and changes nothing, under any configuration and clock.
pub reserve_exposure-replay :
    (k : Text → Bool) (env again : Environment) (fresh late : Fresh) (seen : Option Reservation)
    (input : Input) (db : Database) {db' : Database}
    → (seen ≡ none) ⊎ (seen ≡ find_duel input.duel_id db.reservations)
    → reserve_exposure k env fresh seen input db ≡ ok db'
    → reserve_exposure k again late (find_duel input.duel_id db'.reservations) input db' ≡ ok db'
reserve_exposure-replay k env again fresh late seen input db {db'} looked h =
    elim (reserve_exposure-cases k env fresh seen input db h) [
      | inl replays ↦
          let row : find_duel input.duel_id db'.reservations ≡ some replays.row =
            ap (λ d. find_duel input.duel_id d.reservations) replays.unchanged
            ∙ found_row seen _ looked replays.found in
          ap (λ o. reserve_exposure k again late o input db') row
          ∙ reserve_exposure-same k again late input replays.tier replays.row db' replays.checked
              replays.same
      | inr (_, creates) ↦
          ap (λ o. reserve_exposure k again late o input db')
            (find_duel-after (read_config env) fresh input db creates)
          ∙ reserve_exposure-same k again late input creates.tier _ db' creates.checked
              (same_exposure-new fresh input creates.tier)
    ]
  where
    found_row :
        (seen o : Option Reservation) {row : Reservation}
        → (seen ≡ none) ⊎ (seen ≡ o)
        → (seen ≡ some row) ⊎ (o ≡ some row)
        → o ≡ some row
    found_row seen o (inl e) (inl f) = cc
    found_row seen o (inr e) (inl f) = sym e ∙ f
    found_row seen o e (inr f) = f
