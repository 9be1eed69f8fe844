-- ===== src/Treasury/Tests.antt =====
-- Runs of the treasury policy, and its theorems at concrete inputs.
use dailydraft_fun.Prelude.{
  ℕ, ◌≤◌, ◌≡◌, ◌↔◌, refl, Bool, false, inl, ◌⊎◌, none, some, [], String, arith, ok, err, from_ok,
}
use dailydraft_fun.Prelude.Int.{pos, ◌+ℤ◌}
use dailydraft_fun.Js.Text.{text, text_eq, is_digits}
use dailydraft_fun.Js.Decimal.{big_int}
use dailydraft_fun.Js.Trim.{trim, split_comma, to_lower}
use dailydraft_fun.Js.Value.{int}
use dailydraft_fun.Treasury.Sample.{any_key, env, no_rows}
use dailydraft_fun.Treasury.Types.{
  Config, tier_concurrency, total_exposure, tier_reservation_release, too_many_requests,
  tier_disabled, Reservation, Database,
}
use dailydraft_fun.Treasury.Limits.{Exposure, evaluate_limits, RespectsLimits, evaluate_limits_iff}
use dailydraft_fun.Treasury.Config.{
  read_unsigned_amount, bounded_integer, trimmed, disposition, collect_dispositions,
  read_dispositions, read_config, is_some_text, is_key, signer_differs, authority_shared,
  config_errors,
}
use dailydraft_fun.Treasury.Config.Ready.{IsReady, config_errors-IsReady, read_config_ranges}
use dailydraft_fun.Treasury.Snapshot.{
  parse_stored_amount, sum_from, sum_amounts, snapshot_is_usable,
}
use dailydraft_fun.Treasury.Admission.{
  AdmissionWrite, overwrite, first_state, upsert, record_admission, persist_failure_safely,
}
use dailydraft_fun.Treasury.Reserve.{
  Input, Fresh, check_input, find_duel, same_exposure, assert_exact_replay, start_of_utc_day,
  start_of_next_utc_day, active_amounts, wallet_active, tier_active, daily_losses, read_exposure,
  admit, new_reservation, new_entry, reservation_exists, entry_exists, write_reservation,
  reserve_locked, limit_error, reserve_exposure,
}
use dailydraft_fun.Treasury.Reserve.Caps.{Finds, IsCapped, reserve_exposure-IsCapped}
use dailydraft_fun.Treasury.Reserve.Replay.{reserve_exposure-replay}
use dailydraft_fun.Treasury.Reserve.Reach.{
  Steps, stop, then_step, reserve_commits, reserve_fails, count_duel, booked, IsSound,
  Steps-IsSound,
}

abbrev config : Config
unfolding read_config read_unsigned_amount bounded_integer trimmed read_dispositions
    collect_dispositions disposition text_eq is_digits big_int trim split_comma to_lower
config = read_config env

abbrev duel_input : String → String → Input
duel_input duel_id amount = record {
  amount = text amount;
  currency = text "USDC";
  decimals = 6;
  duel_id = text duel_id;
  player_wallet = text "player";
  tier = int 5;
}

abbrev fresh : Fresh
fresh = record {
  reservation_id = text "r1";
  ledger_id = text "l1";
  created_at = 1_010_000;
  configured_at = 1_010_000;
  evaluated_at = 1_010_000;
}

abbrev one_row : Database
unfolding config reserve_exposure check_input find_duel same_exposure assert_exact_replay
    start_of_utc_day start_of_next_utc_day active_amounts wallet_active tier_active daily_losses
    read_exposure admit new_reservation new_entry reservation_exists entry_exists write_reservation
    reserve_locked record_admission upsert overwrite first_state parse_stored_amount sum_from
    sum_amounts snapshot_is_usable evaluate_limits config_errors is_some_text is_key signer_differs
    authority_shared ◌+ℤ◌
one_row = from_ok (reserve_exposure any_key env fresh none (duel_input "d1" "100") no_rows) tt

one_row-run : reserve_exposure any_key env fresh none (duel_input "d1" "100") no_rows ≡ ok one_row
unfolding one_row
one_row-run = refl

-- A second request, which the count of its wallet allows and the one place of its tier does not.
second-run :
    reserve_exposure any_key env fresh none (duel_input "d2" "100") one_row
    ≡ err (
        tier_disabled too_many_requests 5 tier_concurrency
          (some tier_reservation_release)
          1_010_000)
unfolding one_row
second-run = refl

abbrev exposure : Exposure
exposure = record {
  active_per_tier = 0;
  active_per_wallet = 1;
  daily_loss_amount = 100;
  delegated_amount = 300;
  requested = pos 200;
  total = 150;
  verified_balance = 1_000;
}

exposure-run : evaluate_limits config exposure ≡ some total_exposure
unfolding config evaluate_limits ◌+ℤ◌
exposure-run = refl

evaluate_limits_iff_example :
    (evaluate_limits config exposure ≡ none) ↔ RespectsLimits config exposure
evaluate_limits_iff_example = evaluate_limits_iff config exposure

config_errors-run : config_errors any_key config ≡ []
unfolding config config_errors is_some_text is_key signer_differs authority_shared
config_errors-run = refl

config_errors-IsReady_example : IsReady any_key config
config_errors-IsReady_example = config_errors-IsReady any_key config config_errors-run

read_config_ranges_example :
    (1 ≤ (read_config env).max_active_per_wallet)
    × ((read_config env).max_active_per_wallet ≤ 20)
    × (1 ≤ (read_config env).max_concurrent_per_tier)
    × ((read_config env).max_concurrent_per_tier ≤ 100)
    × (30_000 ≤ (read_config env).snapshot_max_age_ms)
    × ((read_config env).snapshot_max_age_ms ≤ 3_600_000)
read_config_ranges_example = read_config_ranges env

abbrev admission : Bool → ℕ → AdmissionWrite
admission disabled evaluated_at = record {
  tier = 5;
  disabled = disabled;
  reason = none;
  boundary = none;
  evaluated_at = evaluated_at;
}

reserve_exposure-IsCapped_example :
    Finds none (duel_input "d1" "100") no_rows one_row
    ⊎ IsCapped (read_config env) fresh (duel_input "d1" "100") no_rows one_row
reserve_exposure-IsCapped_example =
    reserve_exposure-IsCapped any_key env fresh none (duel_input "d1" "100") no_rows one_row-run

-- Other identifiers, a day later.
abbrev late : Fresh
late = record {
  reservation_id = text "r2";
  ledger_id = text "l2";
  created_at = 90_000_000;
  configured_at = 90_000_000;
  evaluated_at = 90_000_000;
}

reserve_exposure-replay_example :
    reserve_exposure any_key env late
      (find_duel (text "d1") one_row.reservations)
      (duel_input "d1" "100")
      one_row
    ≡ ok one_row
reserve_exposure-replay_example =
    reserve_exposure-replay any_key env env fresh late none (duel_input "d1" "100") no_rows
      (inl refl) one_row-run

abbrev row : Reservation
unfolding new_reservation
row = new_reservation fresh (duel_input "d1" "100") 5

no_rows-IsSound : IsSound config no_rows
unfolding count_duel booked active_amounts config
no_rows-IsSound = record { unique = λ d. omega arith; balanced = refl; within = omega arith }

abbrev steps :
    Steps any_key env no_rows
      (persist_failure_safely false (limit_error 5 1_010_000 tier_concurrency) one_row)
steps =
    then_step (then_step stop (reserve_commits fresh none (duel_input "d1" "100") one_row-run))
      (reserve_fails fresh none (duel_input "d2" "100") false second-run)

Steps-IsSound_example :
    IsSound
      (read_config env)
      (persist_failure_safely false (limit_error 5 1_010_000 tier_concurrency) one_row)
unfolding read_config config
Steps-IsSound_example = Steps-IsSound any_key env steps no_rows-IsSound
