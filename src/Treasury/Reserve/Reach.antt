-- ===== src/Treasury/Reserve/Reach.antt =====
-- Any number of calls of `reserveHouseExposure`, one transaction after another, with the states that
-- their failures record in between.
use dailydraft_fun.Prelude.{
  ℕ, ◌+◌, ◌≤◌, ◌≡◌, refl, Bool, true, false, inl, inr, Option, none, List, [], ◌∷◌, arith,
  if◌then◌else◌, sum_by, ok, err, select,
}
use dailydraft_fun.Js.Text.{Text, text_eq, text_eq_iff}
use dailydraft_fun.Js.Decimal.{big_int}
use dailydraft_fun.Treasury.Types.{
  Config, Error, tier_disabled, LedgerType, reservation_created, Reservation, LedgerEntry, Database,
}
use dailydraft_fun.Treasury.Config.{Environment, read_config, is_some_text}
use dailydraft_fun.Treasury.Admission.{record_admission, persist_failure, persist_failure_safely}
use dailydraft_fun.Treasury.Reserve.{
  Input, Fresh, find_duel, active_amounts, new_reservation, new_entry, reserve_exposure,
}
use dailydraft_fun.Treasury.Reserve.Inversion.{Creates, reserve_exposure-cases}
use dailydraft_fun.Treasury.Reserve.Caps.{active_exposure, write_reservation_lem, Creates-IsCapped}

-- A call that commits, and a call that is refused and then records its refusal, or loses the record.
pub data Step (k : Text → Bool) (env : Environment) : Database → Database → Type 0 where
  reserve_commits :
      (fresh : Fresh) (seen : Option Reservation) (input : Input) {db db' : Database}
      → reserve_exposure k env fresh seen input db ≡ ok db'
      → Step k env db db'
  reserve_fails :
      (fresh : Fresh) (seen : Option Reservation) (input : Input) (lost : Bool) {db : Database}
      {error : Error}
      → reserve_exposure k env fresh seen input db ≡ err error
      → Step k env db (persist_failure_safely lost error db)

pub data Steps (k : Text → Bool) (env : Environment) : Database → Database → Type 0 where
  stop : {db : Database} → Steps k env db db
  then_step : {a b c : Database} → Steps k env a b → Step k env b c → Steps k env a c

-- The rows of a duel.
unfoldable pub count_duel : Text → List Reservation → ℕ
unfolding is_some_text
count_duel duel_id [] = 0
count_duel duel_id (r ∷ rs) =
    let rest = count_duel duel_id rs in if is_some_text duel_id r.duel_id then rest + 1 else rest

abbrev is_created : LedgerType → Bool
is_created reservation_created = true
is_created _ = false

-- What the ledger says was reserved.
unfoldable pub booked : List LedgerEntry → ℕ
booked es = sum_by (λ e. big_int e.amount) (select (λ e. is_created e.kind) es)

-- At most one reservation to a duel, every amount reserved booked in the ledger, and the active ones
-- within the total limit.
pub record IsSound (c : Config) (db : Database) : Type 0 where
  pub unique : (duel_id : Text) → count_duel duel_id db.reservations ≤ 1
  pub balanced : sum_by (λ r. big_int r.amount) db.reservations ≡ booked db.ledger
  pub within : active_exposure db ≤ c.max_total_exposure

find_duel-none :
    (duel_id : Text) (rs : List Reservation)
    → find_duel duel_id rs ≡ none
    → count_duel duel_id rs ≡ 0
unfolding find_duel count_duel
find_duel-none duel_id [] h = refl
find_duel-none duel_id (r ∷ rs) h = ground (arith, find_duel-none duel_id rs)

count_duel-created :
    (fresh : Fresh) (input : Input) (tier : ℕ) (rs : List Reservation)
    → find_duel input.duel_id rs ≡ none
    → (duel_id : Text) → count_duel duel_id rs ≤ 1
    → count_duel duel_id (new_reservation fresh input tier ∷ rs) ≤ 1
unfolding count_duel new_reservation is_some_text
count_duel-created fresh input tier rs h duel_id few = go (text_eq input.duel_id duel_id) refl
  where
    go :
        (same : Bool)
        → text_eq input.duel_id duel_id ≡ same
        → (if same then count_duel duel_id rs + 1 else count_duel duel_id rs) ≤ 1
    go true e =
        let eq = (text_eq_iff input.duel_id duel_id).0 e in
        omega (arith, find_duel-none duel_id rs (rw eq at h))
    go false e = few

Creates-IsSound :
    (c : Config) (fresh : Fresh) (input : Input) (db : Database) {db' : Database}
    → Creates c fresh input db db'
    → IsSound c db
    → IsSound c db'
unfolding booked new_entry new_reservation
Creates-IsSound c fresh input db {db'} creates sound =
    let (rows, entries, _) =
      write_reservation_lem fresh input creates.tier db {db' = db'} creates.wrote in
    record {
      unique = λ d. rw rows (
          count_duel-created fresh input creates.tier db.reservations creates.first d
            (sound.unique d));
      balanced = rw (rows, entries) (omega (arith, sound.balanced));
      within = (Creates-IsCapped c fresh input db creates).total;
    }

-- A recorded refusal touches neither reservations nor ledger.
persist_failure_safely-IsSound :
    (c : Config) (lost : Bool) (error : Error) (db : Database)
    → IsSound c db
    → IsSound c (persist_failure_safely lost error db)
unfolding persist_failure_safely persist_failure record_admission active_amounts
persist_failure_safely-IsSound c true error db sound = sound
persist_failure_safely-IsSound c false (tier_disabled status tier reason boundary evaluated_at) db
      sound =
    record { unique = sound.unique; balanced = sound.balanced; within = sound.within }
persist_failure_safely-IsSound c false _ db sound = sound

Step-IsSound :
    (k : Text → Bool) (env : Environment) {a b : Database}
    → Step k env a b
    → IsSound (read_config env) a
    → IsSound (read_config env) b
Step-IsSound k env (reserve_commits fresh seen input {db} h) sound =
    elim (reserve_exposure-cases k env fresh seen input db h) [
      | inl replays ↦ rw replays.unchanged sound
      | inr (_, creates) ↦ Creates-IsSound (read_config env) fresh input db creates sound
    ]
Step-IsSound k env (reserve_fails fresh seen input lost {db} {error} h) sound =
    persist_failure_safely-IsSound (read_config env) lost error db sound

-- From sound tables, however calls that commit and calls that fail follow each other under one
-- configuration, the tables stay sound: no duel is reserved twice, the ledger books every amount
-- reserved, and the active exposure is within the total limit.
pub Steps-IsSound :
    (k : Text → Bool) (env : Environment) {a b : Database}
    → Steps k env a b
    → IsSound (read_config env) a
    → IsSound (read_config env) b
Steps-IsSound k env stop sound = sound
Steps-IsSound k env (then_step before step) sound =
    Step-IsSound k env step (Steps-IsSound k env before sound)
