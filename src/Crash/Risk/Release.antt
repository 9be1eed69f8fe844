-- ===== src/Crash/Risk/Release.antt =====
-- What `releaseTerminal` leaves.
use dailydraft_fun.Prelude.{
  ℕ, ◌+◌, ◌≡◌, ◌≢◌, refl, sym, ap, ◌∙◌, true, not, ◌⊎◌, inl, inr, some, ◌++◌, arith, Bool-cases, ok,
  from_bind, ok-injective, throw_if, throw_if-eq-ok, require, require-eq-ok,
}
use dailydraft_fun.Js.Text.{Text, text}
use dailydraft_fun.Js.Decimal.{big_int}
use dailydraft_fun.Treasury.Types.{
  Status, released, settled, reservation_released, is_active, Reservation, LedgerEntry, Database,
}
use dailydraft_fun.Treasury.Reserve.Caps.{active_exposure}
use dailydraft_fun.Crash.Risk.Types.{RoundBinding}
use dailydraft_fun.Crash.Risk.Round.{assert_reservation_binding, find_round, is_closed}
use dailydraft_fun.Crash.Risk.Rows.{Fresh, risk_entry, rules_metadata, release_row}
use dailydraft_fun.Crash.Risk.Operations.{release_found, release_terminal}
use dailydraft_fun.Crash.Risk.Effects.{
  IsUpdated, update_row-IsUpdated, active_exposure-updated, find_round-updated,
}

-- The entry of a release.
abbrev pub release_entry : Fresh → RoundBinding → ℕ → Reservation → LedgerEntry
release_entry fresh round stage row =
    risk_entry fresh (text "crash-reservation-released:" ++ round.id) round.id row.id
      reservation_released row.amount
      (rules_metadata round.risk_rules_hash round.risk_rules_version stage)

-- What a successful release found and did.
pub record Releases (fresh : Fresh) (now : ℕ) (round : RoundBinding) (stage : ℕ) (db db' : Database)
    : Type 0 where
  pub row : Reservation
  pub found : find_round round.id db.reservations ≡ some row
  pub bound :
      assert_reservation_binding row round.player_wallet_reference round.risk_rules_hash ≡ ok tt
  pub outcome :
      ((is_closed row.status ≡ true) × (db' ≡ db))
      ⊎ ((is_active row.status ≡ true)
          × IsUpdated row (release_row now) (release_entry fresh round stage row) db db')

pub release_terminal-Releases :
    (fresh : Fresh) (now : ℕ) (round : RoundBinding) (stage : ℕ) (db : Database) {db' : Database}
    → release_terminal fresh now round stage db ≡ ok db'
    → Releases fresh now round stage db db'
unfolding release_terminal release_found
release_terminal-Releases fresh now round stage db {db'} h =
    from_bind (require (find_round round.id db.reservations) _) _ h λ row found h₁.
      from_bind (assert_reservation_binding row round.player_wallet_reference round.risk_rules_hash)
        _ h₁
        λ _ bound h₂. record {
          row = row;
          found = require-eq-ok _ _ found;
          bound = bound;
          outcome = elim (Bool-cases (is_closed row.status)) [
            | inl closed ↦ inl (closed, sym (ok-injective (rw closed at h₂)))
            | inr open_row ↦
                from_bind (throw_if (not (is_active row.status)) _) _ (rw open_row at h₂)
                  λ _ active h₃. inr (
                    ground (arith, throw_if-eq-ok _ _ active),
                    update_row-IsUpdated row (release_row now) (release_entry fresh round stage row)
                        db h₃,
                  )
          ];
        }

is_closed-status : (s : Status) → is_closed s ≡ true → (s ≡ released) ⊎ (s ≡ settled)
is_closed-status s h = ground arith

-- The row of a round, closed by a release at a time.
abbrev pub IsReleased : Text → ℕ → Database → Type 0
IsReleased id now db =
    (row : Reservation) × (find_round id db.reservations ≡ some row)
    × (row.status ≡ released)
    × (row.released_at ≡ some now)

-- A release finds the reservation of the round. Where that is released or settled, nothing changes; else it
-- becomes released at the time of the call, and exactly its amount is taken off the active exposure.
pub release_terminal-exposure :
    (fresh : Fresh) (now : ℕ) (round : RoundBinding) (stage : ℕ) (db : Database) {db' : Database}
    → release_terminal fresh now round stage db ≡ ok db'
    → (row : Reservation) × (find_round round.id db.reservations ≡ some row)
      × ((((row.status ≡ released) ⊎ (row.status ≡ settled)) × (db' ≡ db))
          ⊎ ((row.status ≢ released)
              × (row.status ≢ settled)
              × IsReleased round.id now db'
              × (active_exposure db' + big_int row.amount ≡ active_exposure db)))
release_terminal-exposure fresh now round stage db {db'} h =
    let r = release_terminal-Releases fresh now round stage db {db' = db'} h in
    (
      r.row,
      r.found,
      elim r.outcome [
        | inl (closed, same) ↦ inl (is_closed-status r.row.status closed, same)
        | inr (active, updated) ↦
            let sum =
              active_exposure-updated round.id r.row (release_row now) _ db db' r.found active
                updated in
            let found =
              find_round-updated round.id r.row (release_row now) _ db db' r.found active updated
                (λ _. refl) in
            inr (
              (λ e. absurd (cc (rw e at active))),
              (λ e. absurd (cc (rw e at active))),
              (release_row now r.row, found, refl, refl),
              ground (arith, sum, active),
            )
      ],
    )

release_found-closed :
    (fresh : Fresh) (now : ℕ) (round : RoundBinding) (stage : ℕ) (row : Reservation) (db : Database)
    → assert_reservation_binding row round.player_wallet_reference round.risk_rules_hash ≡ ok tt
    → is_closed row.status ≡ true
    → release_found fresh now round stage row db ≡ ok db
unfolding release_found
release_found-closed fresh now round stage row db bound closed = rw (bound, closed) refl

assert_reservation_binding-released :
    (row : Reservation) (now : ℕ) (reference hash : Text)
    → assert_reservation_binding (release_row now row) reference hash
      ≡ assert_reservation_binding row reference hash
unfolding assert_reservation_binding
assert_reservation_binding-released row now reference hash = refl

-- After a release of a round, every further release of it succeeds and changes nothing.
pub release_terminal-idempotent :
    (fresh late : Fresh) (now after : ℕ) (round : RoundBinding) (stage other_stage : ℕ)
    (db : Database) {db' : Database}
    → release_terminal fresh now round stage db ≡ ok db'
    → release_terminal late after round other_stage db' ≡ ok db'
unfolding release_terminal
release_terminal-idempotent fresh late now after round stage other_stage db {db'} h =
    let r = release_terminal-Releases fresh now round stage db {db' = db'} h in
    elim r.outcome [
      | inl (closed, same) ↦
          let found : find_round round.id db'.reservations ≡ some r.row =
            ap (λ d. find_round round.id d.reservations) same ∙ r.found in
          rw found (release_found-closed late after round other_stage r.row db' r.bound closed)
      | inr (active, updated) ↦
          let found =
            find_round-updated round.id r.row (release_row now) _ db db' r.found active updated
              (λ _. refl) in
          rw found (
            release_found-closed late after round other_stage (release_row now r.row) db'
              (assert_reservation_binding-released r.row now _ _ ∙ r.bound) refl)
    ]
