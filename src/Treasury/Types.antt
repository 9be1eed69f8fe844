-- ===== src/Treasury/Types.antt =====
-- apps/api/src/treasury/house-treasury.policy.ts and the tables of packages/db/prisma/schema.prisma
-- that it reads and writes. Times are milliseconds since 1970.
use dailydraft_fun.Prelude.{ℕ, Bool, true, false, List, Option, none, some}
use dailydraft_fun.Js.Text.{Text}
use dailydraft_fun.Js.Value.{Value}

pub data Disposition : Type 0 where
  buyback hold list manual_review promotion : Disposition

pub record Config : Type 0 where
  pub allowed_dispositions : List Disposition
  pub daily_loss_limit : ℕ
  pub enabled : Bool
  pub funding_signer : Option Text
  pub house_wallet : Option Text
  pub max_active_per_wallet : ℕ
  pub max_concurrent_per_tier : ℕ
  pub max_total_exposure : ℕ
  pub minimum_liquidity : ℕ
  pub network : Option Text
  pub snapshot_max_age_ms : ℕ
  pub token_account : Option Text
  pub usdc_mint : Option Text
  pub withdrawal_authority : Option Text

pub record Snapshot : Type 0 where
  pub balance_amount : Text
  pub balance_decimals : ℕ
  pub delegate : Text
  pub delegated_amount : Text
  pub mint : Text
  pub network : Text
  pub token_account : Text
  pub verified_at : ℕ
  pub wallet : Text

-- `HouseExposureLimitReason` and, with the last two, `HouseTierDisableReason`
pub data Reason : Type 0 where
  daily_loss delegated_allowance minimum_liquidity player_exposure : Reason
  reconciliation_discrepancy tier_concurrency total_exposure : Reason
  treasury_configuration treasury_snapshot_stale : Reason

-- `HouseTierReenableBoundary`
pub data Boundary : Type 0 where
  configuration_change fresh_treasury_snapshot : Boundary
  fresh_treasury_snapshot_or_reservation_release next_utc_day_or_reservation_release : Boundary
  reservation_release successful_reconciliation tier_reservation_release : Boundary

-- `HOUSE_TIER_REENABLE_BOUNDARIES`; it has no entry for `player_exposure`, which disables no tier
abbrev pub reenable_boundary : Reason → Option Boundary
reenable_boundary daily_loss = some next_utc_day_or_reservation_release
reenable_boundary delegated_allowance = some fresh_treasury_snapshot_or_reservation_release
reenable_boundary minimum_liquidity = some fresh_treasury_snapshot_or_reservation_release
reenable_boundary player_exposure = none
reenable_boundary reconciliation_discrepancy = some successful_reconciliation
reenable_boundary tier_concurrency = some tier_reservation_release
reenable_boundary total_exposure = some reservation_release
reenable_boundary treasury_configuration = some configuration_change
reenable_boundary treasury_snapshot_stale = some fresh_treasury_snapshot

pub data HttpStatus : Type 0 where
  service_unavailable too_many_requests : HttpStatus

-- What the code throws. `unique_violation` is the database's refusal of a duplicate key.
pub data Error : Type 0 where
  unavailable : Error
  conflict : Error
  player_limit : Error
  tier_disabled : HttpStatus → (tier : ℕ) → Reason → Option Boundary → (evaluated_at : ℕ) → Error
  unique_violation : Error

pub data Status : Type 0 where
  reserved funded settlement_pending recovery_required released settled : Status

-- `ACTIVE_HOUSE_RESERVATION_STATUSES.includes(status)`
abbrev pub is_active : Status → Bool
is_active reserved = true
is_active funded = true
is_active settlement_pending = true
is_active recovery_required = true
is_active released = false
is_active settled = false

pub data Source : Type 0 where
  duel crash : Source

abbrev pub is_duel : Source → Bool
is_duel duel = true
is_duel crash = false

pub data LedgerType : Type 0 where
  reservation_created reservation_adjusted reservation_released house_funding_committed : LedgerType
  player_win_loss house_pack_cost house_win_inventory crash_forfeit_inventory : LedgerType
  flip_recovery_inventory inventory_disposition_set inventory_disposed reconciliation_alert :
      LedgerType

pub record Reservation : Type 0 where
  pub id : Text
  pub source : Source
  pub duel_id : Option Text
  pub crash_round_id : Option Text
  pub risk_rules_hash : Option Text
  pub player_wallet : Text
  pub tier : ℕ
  pub amount : Text
  pub currency : Text
  pub decimals : ℕ
  pub status : Status
  pub released_at : Option ℕ
  pub version : ℕ

pub record LedgerEntry : Type 0 where
  pub id : Text
  pub idempotency_key : Text
  pub duel_id : Option Text
  pub crash_round_id : Option Text
  pub flip_session_id : Option Text
  pub reservation_id : Option Text
  pub inventory_id : Option Text
  pub kind : LedgerType
  pub amount : Text
  pub currency : Text
  pub decimals : ℕ
  pub metadata : Value
  pub created_at : ℕ

pub record AdmissionState : Type 0 where
  pub tier : ℕ
  pub disabled : Bool
  pub reason : Option Reason
  pub boundary : Option Boundary
  pub evaluated_at : ℕ
  pub version : ℕ

-- The tables that the treasury uses. `paused` is the row `global_exposure` of `RuntimeControl`, and
-- `discrepancies` holds the time at which each discrepancy was resolved.
pub record Database : Type 0 where
  pub reservations : List Reservation
  pub ledger : List LedgerEntry
  pub discrepancies : List (Option ℕ)
  pub paused : Option Bool
  pub snapshot : Option Snapshot
  pub admissions : List AdmissionState
