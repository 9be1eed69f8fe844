-- ===== src/Crash/Risk/Effects.antt =====
-- What the writes of the crash operations do to the sums that the limits are on.
use dailydraft_fun.Prelude.{
  ℕ, ◌+◌, ◌≤◌, ◌≡◌, refl, sym, ap, ◌∙◌, Bool, true, false, not, ◌&&◌, inl, inr, some, List, [], ◌∷◌,
  map, arith, ◌==◌, if◌then◌else◌, Bool-cases, length, select, sum_by, ok, ◌>>=◌, from_bind,
  ok-injective, throw_if, throw_if-eq-ok,
}
use mathlib.Core.Option.{some-injective}
use dailydraft_fun.Js.Text.{Text, text_eq, text_eq_refl}
use dailydraft_fun.Js.Decimal.{big_int}
use dailydraft_fun.Treasury.Types.{is_active, Reservation, LedgerEntry, Database}
use dailydraft_fun.Treasury.Config.{is_some_text}
use dailydraft_fun.Treasury.Reserve.{active_amounts, entry_exists}
use dailydraft_fun.Treasury.Reserve.Caps.{active_exposure}
use dailydraft_fun.Crash.Risk.Round.{find_round}
use dailydraft_fun.Crash.Risk.Admission.{wallet_amounts}
use dailydraft_fun.Crash.Risk.Rows.{append_entry, is_unchanged, change_rows, update_row}

-- What a row counts for in a sum over the rows that pass a test.
abbrev pub counts : (Reservation → Bool) → Reservation → ℕ
counts p r = if p r then big_int r.amount else 0

abbrev pub active_row : Reservation → Bool
active_row r = is_active r.status

abbrev pub wallet_row : Text → Reservation → Bool
wallet_row wallet r = text_eq r.player_wallet wallet && is_active r.status

-- What a wallet has at risk.
abbrev pub wallet_exposure_of : Text → Database → ℕ
wallet_exposure_of wallet db = sum_by big_int (wallet_amounts wallet db)

sum_by-select :
    (p : Reservation → Bool) (rs : List Reservation)
    → sum_by big_int (map (λ r. r.amount) (select p rs)) ≡ sum_by (counts p) rs
sum_by-select p [] = refl
sum_by-select p (r ∷ rs) = elim (Bool-cases (p r)) [
  | inl in_sum ↦ rw in_sum (omega (arith, sum_by-select p rs))
  | inr out ↦ rw out (omega (arith, sum_by-select p rs))
]

pub active_exposure-eq-sum_by :
    (db : Database) → active_exposure db ≡ sum_by (counts active_row) db.reservations
unfolding active_amounts
active_exposure-eq-sum_by db = sum_by-select active_row db.reservations

pub wallet_exposure_of-eq-sum_by :
    (wallet : Text) (db : Database)
    → wallet_exposure_of wallet db ≡ sum_by (counts (wallet_row wallet)) db.reservations
unfolding wallet_amounts
wallet_exposure_of-eq-sum_by wallet db = sum_by-select (wallet_row wallet) db.reservations

module _ (test : Reservation → Bool) (change : Reservation → Reservation) where
  -- A row that is found and passes the test is among those that pass it.
  found_counts :
      (round_id : Text) (rs : List Reservation) {row : Reservation}
      → find_round round_id rs ≡ some row
      → test row ≡ true
      → 1 ≤ length (select test rs)
  unfolding find_round
  found_counts round_id [] h passes = cc
  found_counts round_id (r ∷ rs) {row} h passes =
      elim (Bool-cases (is_some_text round_id r.crash_round_id)) [
        | inl here ↦
            let same : r ≡ row = some-injective _ _ (rw here at h) in
            rw (same, passes) (omega arith)
        | inr later ↦
            let rest = found_counts round_id rs (rw later at h) passes in
            elim (Bool-cases (test r)) [ inl hit ↦ rw hit (omega arith) | inr miss ↦ rw miss rest ]
      ]

  change_rows-none :
      (rs : List Reservation) → length (select test rs) ≡ 0 → change_rows test change rs ≡ rs
  unfolding change_rows
  change_rows-none [] h = refl
  change_rows-none (r ∷ rs) h = elim (Bool-cases (test r)) [
    | inl hit ↦ absurd (omega (arith, rw hit at h))
    | inr miss ↦ rw miss (ap (◌∷◌ r) (change_rows-none rs (rw miss at h)))
  ]

  -- Where one row alone passes the test, and it is found, any sum changes by what that row counts.
  pub change_rows-sum_by :
      (f : Reservation → ℕ) (round_id : Text) (rs : List Reservation) (row : Reservation)
      → find_round round_id rs ≡ some row
      → test row ≡ true
      → length (select test rs) ≡ 1
      → sum_by f (change_rows test change rs) + f row ≡ sum_by f rs + f (change row)
  unfolding find_round change_rows
  change_rows-sum_by f round_id [] row h passes one = cc
  change_rows-sum_by f round_id (r ∷ rs) row h passes one =
      elim (Bool-cases (is_some_text round_id r.crash_round_id)) [
        | inl here ↦
            let same : r ≡ row = some-injective _ _ (rw here at h) in
            let hit : test r ≡ true = ap test same ∙ passes in
            let rest = change_rows-none rs (omega (arith, rw hit at one)) in
            let eq : f r ≡ f row = ap f same in
            let changed : f (change r) ≡ f (change row) = ap (λ x. f (change x)) same in
            rw (hit, rest) (omega (arith, eq, changed))
        | inr later ↦
            let rest = found_counts round_id rs (rw later at h) passes in
            elim (Bool-cases (test r)) [
              | inl hit ↦ absurd (omega (arith, rest, rw hit at one))
              | inr miss ↦
                  let ih =
                    change_rows-sum_by f round_id rs row (rw later at h) passes (rw miss at one) in
                  rw miss (omega (arith, ih))
            ]
      ]

  -- The changed row is found where the row was.
  pub find_round-change_rows :
      (round_id : Text) (rs : List Reservation) (row : Reservation)
      → ((r : Reservation) → (change r).crash_round_id ≡ r.crash_round_id)
      → find_round round_id rs ≡ some row
      → test row ≡ true
      → find_round round_id (change_rows test change rs) ≡ some (change row)
  unfolding find_round change_rows
  find_round-change_rows round_id [] row keeps h passes = cc
  find_round-change_rows round_id (r ∷ rs) row keeps h passes =
      elim (Bool-cases (is_some_text round_id r.crash_round_id)) [
        | inl here ↦
            let same : r ≡ row = some-injective _ _ (rw here at h) in
            let hit : test r ≡ true = ap test same ∙ passes in
            let found : is_some_text round_id (change r).crash_round_id ≡ true =
              ap (is_some_text round_id) (keeps r) ∙ here in
            rw (hit, found) (ap (λ x. some (change x)) same)
        | inr later ↦
            let ih = find_round-change_rows round_id rs row keeps (rw later at h) passes in
            elim (Bool-cases (test r)) [
              | inl hit ↦
                  let other : is_some_text round_id (change r).crash_round_id ≡ false =
                    ap (is_some_text round_id) (keeps r) ∙ later in
                  rw (hit, other) ih
              | inr miss ↦ rw (miss, later) ih
            ]
      ]

-- What an update leaves.
pub update_row_lem :
    (seen : Reservation) (change : Reservation → Reservation) (db : Database) {db' : Database}
    → update_row seen change db ≡ ok db'
    → (db' ≡ record db { reservations = change_rows (is_unchanged seen) change db.reservations })
      × (length (select (is_unchanged seen) db.reservations) ≡ 1)
unfolding update_row
update_row_lem seen change db h =
    from_bind (throw_if (not (length (select (is_unchanged seen) db.reservations) == 1)) _) _ h
      λ _ one h₁. (sym (ok-injective h₁), ground (arith, throw_if-eq-ok _ _ one))

pub append_entry_lem :
    (entry : LedgerEntry) (db : Database) {db' : Database}
    → append_entry entry db ≡ ok db'
    → db' ≡ record db { ledger = entry ∷ db.ledger }
unfolding append_entry
append_entry_lem entry db h =
    from_bind (throw_if (entry_exists entry db.ledger) _) _ h λ _ _ h₁. sym (ok-injective h₁)

pub is_unchanged_refl : (r : Reservation) → is_active r.status ≡ true → is_unchanged r r ≡ true
unfolding is_unchanged
is_unchanged_refl r active = ground (arith, text_eq_refl r.id, active)

-- One row changed and one entry added, and nothing else.
pub record IsUpdated (row : Reservation) (change : Reservation → Reservation) (entry : LedgerEntry)
    (db db' : Database) : Type 0 where
  pub one : length (select (is_unchanged row) db.reservations) ≡ 1
  pub tables : db' ≡ record db {
    reservations = change_rows (is_unchanged row) change db.reservations;
    ledger = entry ∷ db.ledger;
  }

pub update_row-IsUpdated :
    (row : Reservation) (change : Reservation → Reservation) (entry : LedgerEntry) (db : Database)
    {db' : Database}
    → (update_row row change db >>= append_entry entry) ≡ ok db'
    → IsUpdated row change entry db db'
update_row-IsUpdated row change entry db {db'} h =
    from_bind (update_row row change db) _ h λ changed updated h₁.
      let (tables, one) = update_row_lem row change db updated in
      let with_entry : Database → Database = λ d. record d { ledger = entry ∷ d.ledger } in
      record { one = one; tables = append_entry_lem entry changed h₁ ∙ ap with_entry tables }

module _ (round_id : Text) (row : Reservation) (change : Reservation → Reservation)
    (entry : LedgerEntry) (db db' : Database)
    (found : find_round round_id db.reservations ≡ some row) (active : is_active row.status ≡ true)
    (updated : IsUpdated row change entry db db') where
  pub sum_by-updated :
      (f : Reservation → ℕ)
      → sum_by f db'.reservations + f row ≡ sum_by f db.reservations + f (change row)
  sum_by-updated f =
      ap (λ d. sum_by f d.reservations + f row) updated.tables
      ∙ change_rows-sum_by (is_unchanged row) change f round_id db.reservations row found
          (is_unchanged_refl row active) updated.one

  pub active_exposure-updated :
      active_exposure db' + counts active_row row
      ≡ active_exposure db + counts active_row (change row)
  active_exposure-updated = omega (
    arith,
    active_exposure-eq-sum_by db,
    active_exposure-eq-sum_by db',
    sum_by-updated (counts active_row),
  )

  pub wallet_exposure_of-updated :
      (wallet : Text)
      → wallet_exposure_of wallet db' + counts (wallet_row wallet) row
        ≡ wallet_exposure_of wallet db + counts (wallet_row wallet) (change row)
  wallet_exposure_of-updated wallet = omega (
    arith,
    wallet_exposure_of-eq-sum_by wallet db,
    wallet_exposure_of-eq-sum_by wallet db',
    sum_by-updated (counts (wallet_row wallet)),
  )

  pub find_round-updated :
      ((r : Reservation) → (change r).crash_round_id ≡ r.crash_round_id)
      → find_round round_id db'.reservations ≡ some (change row)
  find_round-updated keeps =
      ap (λ d. find_round round_id d.reservations) updated.tables
      ∙ find_round-change_rows (is_unchanged row) change round_id db.reservations row keeps found
          (is_unchanged_refl row active)
