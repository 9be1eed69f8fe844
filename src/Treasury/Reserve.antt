-- ===== src/Treasury/Reserve.antt =====
-- apps/api/src/treasury/house-treasury.policy.ts: `reserveHouseExposure`. The transaction is a
-- function of the tables as they are once the advisory lock is held; what its first lookup saw,
-- before the lock, is an argument. A thrown error rolls the transaction back, so it returns no tables.
pub mod Inversion
pub mod Caps
pub mod Replay
pub mod Reach
use dailydraft_fun.Prelude.{
  ℕ, ◌+◌, ◌-◌, ◌%◌, Bool, true, false, not, ◌&&◌, ◌||◌, Option, none, some, List, [], ◌∷◌, ◌++◌,
  map, ltb, leb, ◌==◌, if◌then◌else◌, length, select, Result, ok, err, ◌>>=◌, ◌>>◌, throw_if,
  require,
}
use dailydraft_fun.Prelude.Int.{pos}
use dailydraft_fun.Js.Text.{Text, text, text_eq, is_digits}
use dailydraft_fun.Js.Decimal.{big_int}
use dailydraft_fun.Js.Value.{Number, Value, num, obj, end, field, as_natural}
use dailydraft_fun.Treasury.Types.{
  Config, Snapshot, Reason, daily_loss, delegated_allowance, minimum_liquidity, player_exposure,
  reconciliation_discrepancy, tier_concurrency, total_exposure, treasury_configuration,
  treasury_snapshot_stale, HttpStatus, service_unavailable, too_many_requests, Error, unavailable,
  conflict, player_limit, unique_violation, Status, reserved, is_active, Source, duel, is_duel,
  LedgerType, reservation_created, player_win_loss, Reservation, LedgerEntry, Database,
}
use dailydraft_fun.Treasury.Limits.{Exposure, evaluate_limits}
use dailydraft_fun.Treasury.Config.{
  Environment, read_config, is_some_text, ConfigError, config_errors,
}
use dailydraft_fun.Treasury.Snapshot.{parse_stored_amount, sum_amounts, snapshot_is_usable}
use dailydraft_fun.Treasury.Admission.{disable_tier, record_admission}

pub record Input : Type 0 where
  pub amount : Text
  pub currency : Text
  pub decimals : ℕ
  pub duel_id : Text
  pub player_wallet : Text
  pub tier : Number

-- What the call draws from outside: two identifiers, the database's time of insertion, and the clock
-- when the configuration and the limits are evaluated (both are `now` where a caller gives it).
pub record Fresh : Type 0 where
  pub reservation_id : Text
  pub ledger_id : Text
  pub created_at : ℕ
  pub configured_at : ℕ
  pub evaluated_at : ℕ

-- The tests on the input; the tier as a number.
unfoldable pub check_input : Input → Result Error ℕ
check_input input = do
  throw_if
      (not (text_eq input.currency (text "USDC"))
        || not (input.decimals == 6)
        || not (is_digits input.amount)
        || (big_int input.amount == 0))
      unavailable
  tier ← require (as_natural (num input.tier)) unavailable
  throw_if (tier == 0) unavailable
  ok tier

-- `findUnique({ where: { duelId } })`
unfoldable pub find_duel : Text → List Reservation → Option Reservation
unfolding is_some_text
find_duel duel_id [] = none
find_duel duel_id (r ∷ rs) = if is_some_text duel_id r.duel_id then some r else find_duel duel_id rs

unfoldable pub same_exposure : Reservation → Input → ℕ → Bool
same_exposure r input tier =
    text_eq r.amount input.amount
    && text_eq r.currency input.currency
    && (r.decimals == input.decimals)
    && text_eq r.player_wallet input.player_wallet
    && (r.tier == tier)

-- `assertExactReservationReplay`
unfoldable pub assert_exact_replay : Option Reservation → Input → ℕ → Result Error Bool
unfolding same_exposure
assert_exact_replay none input tier = ok false
assert_exact_replay (some r) input tier =
    if same_exposure r input tier then ok true else err conflict

abbrev pub day_ms : ℕ
day_ms = 86_400_000

-- `startOfUtcDay`
unfoldable pub start_of_utc_day : ℕ → ℕ
start_of_utc_day now = now - now % day_ms

-- `startOfNextUtcDay`
unfoldable pub start_of_next_utc_day : ℕ → ℕ
unfolding start_of_utc_day
start_of_next_utc_day now = start_of_utc_day now + day_ms

abbrev pub is_unresolved : Option ℕ → Bool
is_unresolved none = true
is_unresolved (some _) = false

-- The four queries.
unfoldable pub active_amounts : Database → List Text
active_amounts db = map (λ r. r.amount) (select (λ r. is_active r.status) db.reservations)

unfoldable pub wallet_active : Text → Database → ℕ
wallet_active wallet db =
    length (select (λ r. text_eq r.player_wallet wallet && is_active r.status) db.reservations)

unfoldable pub tier_active : ℕ → Database → ℕ
tier_active tier db =
    length
      (select (λ r. is_duel r.source && is_active r.status && (r.tier == tier)) db.reservations)

abbrev pub is_loss : LedgerType → Bool
is_loss player_win_loss = true
is_loss _ = false

unfoldable pub daily_losses : ℕ → Database → List Text
unfolding start_of_utc_day start_of_next_utc_day
daily_losses now db =
    map (λ e. e.amount)
      (select
        (λ e.
          leb (start_of_utc_day now) e.created_at
          && ltb e.created_at (start_of_next_utc_day now)
          && is_loss e.kind)
        db.ledger)

-- The figures that the limits are evaluated on.
unfoldable pub read_exposure : Input → ℕ → ℕ → Snapshot → Database → Result Error Exposure
read_exposure input tier now snapshot db = do
  total ← sum_amounts (active_amounts db)
  loss ← sum_amounts (daily_losses now db)
  balance ← parse_stored_amount snapshot.balance_amount
  delegated ← parse_stored_amount snapshot.delegated_amount
  ok (record {
    active_per_tier = tier_active tier db;
    active_per_wallet = wallet_active input.player_wallet db;
    daily_loss_amount = loss;
    delegated_amount = delegated;
    requested = pos (big_int input.amount);
    total = total;
    verified_balance = balance;
  })

-- The error of a broken limit.
abbrev pub limit_error : ℕ → ℕ → Reason → Error
limit_error tier now player_exposure = player_limit
limit_error tier now tier_concurrency = disable_tier too_many_requests tier tier_concurrency now
limit_error tier now reason = disable_tier service_unavailable tier reason now

abbrev pub refuse_if : Option Reason → ℕ → ℕ → Result Error (Unit {0})
refuse_if none tier now = ok tt
refuse_if (some reason) tier now = err (limit_error tier now reason)

-- `globalControl?.paused`
abbrev pub is_paused : Option Bool → Bool
is_paused none = false
is_paused (some p) = p

-- Everything that may refuse a new reservation, after the second lookup.
unfoldable pub admit : Config → Fresh → Input → ℕ → Database → Result Error (Unit {0})
admit config fresh input tier db = do
  let now = fresh.evaluated_at
  throw_if (is_paused db.paused) unavailable
  throw_if (ltb 0 (length (select is_unresolved db.discrepancies)))
      (disable_tier service_unavailable tier reconciliation_discrepancy now)
  snapshot ← require db.snapshot (disable_tier service_unavailable tier treasury_snapshot_stale now)
  throw_if (not (snapshot_is_usable snapshot config now input.decimals))
      (disable_tier service_unavailable tier treasury_snapshot_stale now)
  exposure ← read_exposure input tier now snapshot db
  refuse_if (evaluate_limits config exposure) tier now

unfoldable pub new_reservation : Fresh → Input → ℕ → Reservation
new_reservation fresh input tier = record {
  id = fresh.reservation_id;
  source = duel;
  duel_id = some input.duel_id;
  crash_round_id = none;
  risk_rules_hash = none;
  player_wallet = input.player_wallet;
  tier = tier;
  amount = input.amount;
  currency = input.currency;
  decimals = input.decimals;
  status = reserved;
  released_at = none;
  version = 1;
}

unfoldable pub new_entry : Fresh → Input → ℕ → LedgerEntry
new_entry fresh input tier = record {
  id = fresh.ledger_id;
  idempotency_key = text "reservation-created:" ++ input.duel_id;
  duel_id = some input.duel_id;
  crash_round_id = none;
  flip_session_id = none;
  reservation_id = some fresh.reservation_id;
  inventory_id = none;
  kind = reservation_created;
  amount = input.amount;
  currency = input.currency;
  decimals = input.decimals;
  metadata = obj (field (text "tier") (num input.tier) end);
  created_at = fresh.created_at;
}

-- A row with one of the unique keys of the new row is there.
unfoldable pub reservation_exists : Text → Text → List Reservation → Bool
unfolding is_some_text
reservation_exists id duel_id [] = false
reservation_exists id duel_id (r ∷ rs) =
    text_eq r.id id || is_some_text duel_id r.duel_id || reservation_exists id duel_id rs

unfoldable pub entry_exists : LedgerEntry → List LedgerEntry → Bool
unfolding text_eq
entry_exists new [] = false
entry_exists new (e ∷ es) =
    text_eq e.id new.id || text_eq e.idempotency_key new.idempotency_key || entry_exists new es

-- The three writes.
unfoldable pub write_reservation : Fresh → Input → ℕ → Database → Result Error Database
unfolding record_admission
write_reservation fresh input tier db = do
  throw_if (reservation_exists fresh.reservation_id input.duel_id db.reservations) unique_violation
  throw_if (entry_exists (new_entry fresh input tier) db.ledger) unique_violation
  let cleared =
      record_admission
        (record {
          tier = tier;
          disabled = false;
          reason = none;
          boundary = none;
          evaluated_at = fresh.evaluated_at;
        })
        db
  ok (record cleared {
    reservations = new_reservation fresh input tier ∷ db.reservations;
    ledger = new_entry fresh input tier ∷ db.ledger;
  })

abbrev pub is_nil : List ConfigError → Bool
is_nil [] = true
is_nil _ = false

-- The part that runs under the lock.
unfoldable pub reserve_locked : Config → Fresh → Input → ℕ → Database → Result Error Database
reserve_locked config fresh input tier db = do
  replayed ← assert_exact_replay (find_duel input.duel_id db.reservations) input tier
  let create = admit config fresh input tier db >> write_reservation fresh input tier db
  if replayed then ok db else create

-- `reserveHouseExposure`
unfoldable pub reserve_exposure :
    (Text → Bool)
    → Environment
    → Fresh
    → Option Reservation
    → Input
    → Database
    → Result Error Database
reserve_exposure is_public_key env fresh first_lookup input db = do
  tier ← check_input input
  replayed ← assert_exact_replay first_lookup input tier
  let config = read_config env
  let continue =
      throw_if (not (is_nil (config_errors is_public_key config)))
        (disable_tier service_unavailable tier treasury_configuration fresh.configured_at)
      >> reserve_locked config fresh input tier db
  if replayed then ok db else continue
