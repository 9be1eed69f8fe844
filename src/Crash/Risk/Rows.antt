-- ===== src/Crash/Risk/Rows.antt =====
-- apps/api/src/crash/crash-risk.policy.ts: the rows that the operations write.
use dailydraft_fun.Prelude.{
  ℕ, ◌+◌, Bool, false, not, ◌&&◌, ◌||◌, none, some, List, [], ◌∷◌, ◌==◌, if◌then◌else◌, length,
  select, Result, ok, ◌>>◌, throw_if,
}
use dailydraft_fun.Js.Text.{Text, text, text_eq}
use dailydraft_fun.Js.Decimal.{to_string}
use dailydraft_fun.Js.Value.{int, Value, num, str, obj, end, field}
use dailydraft_fun.Treasury.Types.{
  released, reserved, crash, LedgerType, is_active, Reservation, LedgerEntry, Database,
}
use dailydraft_fun.Treasury.Config.{is_some_text}
use dailydraft_fun.Treasury.Reserve.{entry_exists}
use dailydraft_fun.Crash.Risk.Types.{
  RiskError, configuration, duplicate_key, RiskRules, RoundBinding,
}

-- What a call draws from outside: identifiers, and the database's time of insertion.
pub record Fresh : Type 0 where
  pub reservation_id : Text
  pub ledger_id : Text
  pub created_at : ℕ

-- The ledger entry of a round; the columns that the code leaves out are null.
unfoldable pub risk_entry : Fresh → Text → Text → Text → LedgerType → Text → Value → LedgerEntry
risk_entry fresh key round_id reservation_id kind amount metadata = record {
  id = fresh.ledger_id;
  idempotency_key = key;
  duel_id = none;
  crash_round_id = some round_id;
  flip_session_id = none;
  reservation_id = some reservation_id;
  inventory_id = none;
  kind = kind;
  amount = amount;
  currency = text "USDC";
  decimals = 6;
  metadata = metadata;
  created_at = fresh.created_at;
}

-- `houseTreasuryLedgerEntry.create`
unfoldable pub append_entry : LedgerEntry → Database → Result RiskError Database
append_entry entry db = do
  throw_if (entry_exists entry db.ledger) duplicate_key
  ok (record db { ledger = entry ∷ db.ledger })

-- The references to the rules, and the stage, that an entry keeps.
unfoldable pub rules_metadata : Text → Text → ℕ → Value
rules_metadata hash version stage = obj (
    field (text "riskRulesHash") (str hash)
      (field (text "riskRulesVersion") (str version) (field (text "stage") (num (int stage)) end)))

-- A row with one of the unique keys of a new row is there.
unfoldable pub round_exists : Text → Text → List Reservation → Bool
unfolding is_some_text
round_exists id round_id [] = false
round_exists id round_id (r ∷ rs) =
    text_eq r.id id || is_some_text round_id r.crash_round_id || round_exists id round_id rs

-- The row of a new round.
unfoldable pub new_round : Fresh → RoundBinding → RiskRules → Text → ℕ → Reservation
new_round fresh round rules wallet amount = record {
  id = fresh.reservation_id;
  source = crash;
  duel_id = none;
  crash_round_id = some round.id;
  risk_rules_hash = some rules.risk_rules_hash;
  player_wallet = wallet;
  tier = 1;
  amount = to_string amount;
  currency = text "USDC";
  decimals = 6;
  status = reserved;
  released_at = none;
  version = 1;
}

-- `where: { id, status: { in: active }, version }`
unfoldable pub is_unchanged : Reservation → Reservation → Bool
is_unchanged seen r = text_eq r.id seen.id && is_active r.status && (r.version == seen.version)

-- The rows with those that pass a test changed.
unfoldable pub change_rows :
    (Reservation → Bool) → (Reservation → Reservation) → List Reservation → List Reservation
change_rows test change [] = []
change_rows test change (r ∷ rs) =
    let rest = change_rows test change rs in if test r then change r ∷ rest else r ∷ rest

-- `updateMany` and the test that it changed one row
unfoldable pub update_row :
    Reservation → (Reservation → Reservation) → Database → Result RiskError Database
unfolding is_unchanged change_rows
update_row seen change db = do
  throw_if (not (length (select (is_unchanged seen) db.reservations) == 1)) configuration
  ok (record db { reservations = change_rows (is_unchanged seen) change db.reservations })

abbrev pub release_row : ℕ → Reservation → Reservation
release_row now r = record r { released_at = some now; status = released; version = r.version + 1 }

abbrev pub adjust_row : ℕ → ℕ → Reservation → Reservation
adjust_row amount stage r = record r {
  amount = to_string amount;
  tier = stage;
  version = r.version + 1;
}
