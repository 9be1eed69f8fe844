-- ===== src/Crash/Risk/Tests.antt =====
-- Runs of the Crash risk policy, and its theorems at concrete inputs.
use dailydraft_fun.Treasury.Snapshot.{snapshot_is_usable}
use dailydraft_fun.Treasury.Reserve.{
  active_amounts, daily_losses, entry_exists, start_of_next_utc_day, start_of_utc_day,
}
use dailydraft_fun.Treasury.Limits.{evaluate_limits}
use dailydraft_fun.Js.Trim.{trim, split_comma, to_lower}
use dailydraft_fun.Crash.Risk.Admission.{assert_admission, check_exposure, check_house}
use dailydraft_fun.Crash.Risk.Health.{validate_risk_health, all_expected, is_fresh}
use dailydraft_fun.Prelude.{
  ℕ, ◌+◌, ◌≤◌, ◌≡◌, ◌≢◌, refl, true, false, inl, ◌⊎◌, none, some, ok, err, from_ok,
}
use dailydraft_fun.Prelude.Int.{◌+ℤ◌}
use dailydraft_fun.Js.Text.{
  Text, text, is_identifier, is_unsigned_integer, is_hash, strip_prefix, is_digits,
}
use dailydraft_fun.Js.Decimal.{big_int, to_string}
use dailydraft_fun.Js.Value.{Value, Fields, obj, str, get, is_text, is_number}
use dailydraft_fun.Js.Sample.{host, some_hash}
use dailydraft_fun.Treasury.Types.{released, settled, Reservation, Database}
use dailydraft_fun.Treasury.Config.{
  read_config, config_errors, trimmed, is_key, signer_differs, authority_shared, bounded_integer,
  collect_dispositions, disposition, is_some_text, read_dispositions, read_unsigned_amount,
}
use dailydraft_fun.Treasury.Reserve.Caps.{active_exposure}
use dailydraft_fun.Treasury.Sample.{any_key, env, no_rows}
use dailydraft_fun.Crash.Risk.Types.{
  Dates, RiskRules, risk_rules_value, health_value, RoundBinding, RiskMoney, pot, parse_amount,
  hash_risk_rules, sum_amounts, sum_from,
}
use dailydraft_fun.Crash.Risk.Rules.{
  check_literals, valid_identifier, positive_integer, read_amounts, seal_rules, validate_risk_rules,
}
use dailydraft_fun.Crash.Risk.Rules.Sound.{IsValid, validate_risk_rules-IsValid}
use dailydraft_fun.Crash.Risk.Round.{
  find_round, require_risk_money, risk_wallet, assert_round_binding, assert_stage_and_duration,
  assert_reservation_binding,
}
use dailydraft_fun.Crash.Risk.Rows.{Fresh, round_exists}
use dailydraft_fun.Crash.Risk.Operations.{
  Service, ReserveInput, reserve_round, TransitionInput, apply_transition, release_terminal,
  write_round,
}
use dailydraft_fun.Crash.Risk.Release.{
  IsReleased, release_terminal-exposure, release_terminal-idempotent,
}
use dailydraft_fun.Crash.Risk.Caps.{IsInRules, IsWithin}
use dailydraft_fun.Crash.Risk.Caps.Reserve.{Finds, reserve_round-IsWithin}
use dailydraft_fun.Crash.Risk.Caps.Transition.{apply_transition-IsWithin}
use dailydraft_fun.Crash.Risk.Budget.{
  BudgetRun, house_limit, round_reserved, round_moved, round_released, Steps, stop, go_on,
  Steps-refines,
}

abbrev dates : Dates
dates = record { parse = λ _. some 1_000_000; to_iso_string = λ _. text "1970-01-01T00:16:40.000Z" }

abbrev service : Service
service = record { host = host; dates = dates; is_public_key = any_key; environment = env }

abbrev rules : RiskRules
rules = record {
  unsigned = record {
    evidence_max_age_ms = 60_000;
    max_duration = 3_600_000;
    max_pot_amount = text "100";
    max_stage = 3;
    max_treasury_exposure_amount = text "200";
    max_wallet_exposure_amount = text "150";
    pool_reference = text "pool:a";
    provider_reference = text "provider";
    rules_version = text "v1";
  };
  risk_rules_hash = some_hash;
}

abbrev health : Value
health = health_value (record {
  observed_at = text "1970-01-01T00:16:40.000Z";
  pool_reference = text "pool:a";
  provider_reference = text "provider";
  risk_rules_hash = some_hash;
})

abbrev round : RoundBinding
round = record {
  id = text "round";
  player_wallet_reference = text "fixture-wallet:player";
  risk_expires_at = 2_000_000;
  risk_rules_hash = some_hash;
  risk_rules_version = text "v1";
}

abbrev tables : Database
tables = record no_rows { paused = some false }

abbrev usdc_micro : Text → RiskMoney
usdc_micro amount = record { amount = amount; currency = text "USDC"; decimals = 6 }

abbrev reserve_input : Text → ReserveInput
reserve_input amount = record {
  health = health;
  initial_pot = usdc_micro amount;
  now = 1_001_000;
  round = round;
  rules = risk_rules_value rules;
}

abbrev transition_input : Text → TransitionInput
transition_input amount = record {
  accepts_risk = true;
  health = health;
  next_pot = usdc_micro amount;
  next_stage = 2;
  round = round;
  terminal = false;
  now = 1_002_000;
  rules = risk_rules_value rules;
}

abbrev fresh_1 : Fresh
fresh_1 = record { reservation_id = text "r1"; ledger_id = text "l1"; created_at = 1_001_000 }

abbrev fresh_2 : Fresh
fresh_2 = record { reservation_id = text "r2"; ledger_id = text "l2"; created_at = 1_002_000 }

abbrev fresh_3 : Fresh
fresh_3 = record { reservation_id = text "r3"; ledger_id = text "l3"; created_at = 1_003_000 }

abbrev rules_checked : RiskRules
unfolding validate_risk_rules risk_rules_value check_literals is_text get is_number valid_identifier
    is_identifier positive_integer read_amounts parse_amount is_unsigned_integer big_int seal_rules
    is_hash hash_risk_rules to_string
rules_checked = from_ok (validate_risk_rules host (risk_rules_value rules)) tt

rules-run : validate_risk_rules host (risk_rules_value rules) ≡ ok rules
unfolding rules_checked
rules-run = refl

abbrev one_round : Database
unfolding rules_checked reserve_round validate_risk_health health_value all_expected is_fresh
    assert_round_binding assert_stage_and_duration require_risk_money find_round risk_wallet
    strip_prefix assert_admission config_errors read_config trimmed trim is_key signer_differs
    sum_amounts sum_from split_comma to_lower ◌+ℤ◌ authority_shared bounded_integer
    collect_dispositions disposition is_some_text read_dispositions read_unsigned_amount
    evaluate_limits active_amounts daily_losses entry_exists start_of_next_utc_day start_of_utc_day
    snapshot_is_usable check_exposure check_house is_digits write_round round_exists
one_round = from_ok (reserve_round service fresh_1 (reserve_input (text "60")) tables) tt

one_round-run : reserve_round service fresh_1 (reserve_input (text "60")) tables ≡ ok one_round
unfolding one_round
one_round-run = refl

-- The pot of the next stage takes the place of the first.
abbrev moved_round : Database
unfolding one_round apply_transition assert_reservation_binding
moved_round = from_ok (apply_transition service fresh_2 (transition_input (text "90")) one_round) tt

moved_round-run :
    apply_transition service fresh_2 (transition_input (text "90")) one_round ≡ ok moved_round
unfolding moved_round
moved_round-run = refl

-- A pot above the limit of the rules is refused.
large_pot-run : apply_transition service fresh_2 (transition_input (text "101")) one_round ≡ err pot
unfolding moved_round
large_pot-run = refl

abbrev closed_round : Database
unfolding moved_round release_terminal
closed_round = from_ok (release_terminal fresh_3 1_003_000 round 3 moved_round) tt

closed_round-run : release_terminal fresh_3 1_003_000 round 3 moved_round ≡ ok closed_round
unfolding closed_round
closed_round-run = refl

exposures-run :
    (active_exposure one_round ≡ 60)
    × (active_exposure moved_round ≡ 90)
    × (active_exposure closed_round ≡ 0)
unfolding closed_round
exposures-run = (refl, refl, refl)

validate_risk_rules-IsValid_example :
    IsValid host rules
    × ((fields : Fields) × (risk_rules_value rules ≡ obj fields)
        × (get (text "riskRulesHash") fields ≡ str some_hash))
validate_risk_rules-IsValid_example =
    validate_risk_rules-IsValid host (risk_rules_value rules) rules-run

reserve_round-IsWithin_example :
    Finds service (reserve_input (text "60")) tables one_round
    ⊎ ((r : RiskRules) × (requested : ℕ) × (wallet : Text) × (validate_risk_rules host
            (risk_rules_value rules)
          ≡ ok r)
        × (require_risk_money (usdc_micro (text "60")) ≡ ok requested)
        × (risk_wallet (text "fixture-wallet:player") ≡ ok wallet)
        × (active_exposure one_round ≡ active_exposure tables + requested)
        × (find_round (text "round") tables.reservations ≡ none)
        × IsInRules r round 1 requested 1_001_000
        × IsWithin (read_config env) r wallet 1_001_000 one_round)
reserve_round-IsWithin_example =
    reserve_round-IsWithin service fresh_1 (reserve_input (text "60")) tables one_round-run

apply_transition-IsWithin_example :
    (r : RiskRules) × (amount : ℕ) × (row : Reservation) × (validate_risk_rules host
        (risk_rules_value rules)
      ≡ ok r)
    × (require_risk_money (usdc_micro (text "90")) ≡ ok amount)
    × (find_round (text "round") one_round.reservations ≡ some row)
    × (active_exposure moved_round + big_int row.amount ≡ active_exposure one_round + amount)
    × (amount ≤ big_int r.max_pot_amount)
    × (2 ≤ r.max_stage)
    × (true ≡ true
        → IsInRules r round 2 amount 1_002_000
          × IsWithin (read_config env) r row.player_wallet 1_002_000 moved_round)
apply_transition-IsWithin_example =
    apply_transition-IsWithin service fresh_2 (transition_input (text "90")) one_round refl
      moved_round-run

release_terminal-exposure_example :
    (row : Reservation) × (find_round (text "round") moved_round.reservations ≡ some row)
    × ((((row.status ≡ released) ⊎ (row.status ≡ settled)) × (closed_round ≡ moved_round))
        ⊎ ((row.status ≢ released)
            × (row.status ≢ settled)
            × IsReleased (text "round") 1_003_000 closed_round
            × (active_exposure closed_round + big_int row.amount ≡ active_exposure moved_round)))
release_terminal-exposure_example =
    release_terminal-exposure fresh_3 1_003_000 round 3 moved_round closed_round-run

release_terminal-idempotent_example :
    release_terminal fresh_1 1_009_000 round 1 closed_round ≡ ok closed_round
release_terminal-idempotent_example =
    release_terminal-idempotent fresh_3 fresh_1 1_003_000 1_009_000 round 3 1 moved_round
      closed_round-run

whole_round : Steps service tables closed_round
whole_round =
    go_on
      (go_on (go_on stop (round_reserved fresh_1 (reserve_input (text "60")) one_round-run))
        (round_moved fresh_2 (transition_input (text "90")) (inl refl) moved_round-run))
      (round_released fresh_3 1_003_000 round 3 closed_round-run)

Steps-refines_example :
    BudgetRun (house_limit service) (active_exposure tables) (active_exposure closed_round)
    × (active_exposure tables ≤ house_limit service
        → active_exposure closed_round ≤ house_limit service)
Steps-refines_example = Steps-refines service whole_round
