-- ===== src/Crash/Risk/Operations.antt =====
-- apps/api/src/crash/crash-risk.policy.ts: `reserveRound`, `applyTransition` and `releaseTerminal`. As in
-- the treasury, each is a function of the tables that it finds under the advisory lock.
use dailydraft_fun.Prelude.{
  ℕ, Bool, not, ◌||◌, none, some, ◌∷◌, ◌++◌, ltb, ◌==◌, if◌then◌else◌, Result, ok, ◌>>=◌, ◌>>◌,
  throw_if, require,
}
use dailydraft_fun.Js.Text.{Text, text}
use dailydraft_fun.Js.Decimal.{big_int, to_string}
use dailydraft_fun.Js.Value.{int, Value, num, str, obj, end, field}
use dailydraft_fun.Js.Canonical.{Host}
use dailydraft_fun.Treasury.Types.{
  reservation_created, reservation_adjusted, reservation_released, is_active, Reservation, Database,
}
use dailydraft_fun.Treasury.Config.{Environment}
use dailydraft_fun.Crash.Risk.Types.{
  RiskError, configuration, pot, duplicate_key, Dates, RiskRules, Health, health_value,
  RoundBinding, RiskMoney, parse_amount,
}
use dailydraft_fun.Crash.Risk.Rules.{validate_risk_rules}
use dailydraft_fun.Crash.Risk.Health.{validate_risk_health}
use dailydraft_fun.Crash.Risk.Round.{
  assert_stage_and_duration, assert_round_binding, risk_wallet, assert_reservation_binding,
  assert_reservation_replay, require_risk_money, find_round, is_closed,
}
use dailydraft_fun.Crash.Risk.Rows.{
  Fresh, risk_entry, append_entry, rules_metadata, round_exists, new_round, update_row, release_row,
  adjust_row,
}
use dailydraft_fun.Crash.Risk.Admission.{assert_admission}

-- The service around the rules: the platform, the test of a public key, and `process.env`.
pub record Service : Type 0 where
  pub host : Host
  pub dates : Dates
  pub is_public_key : Text → Bool
  pub environment : Environment

-- The two writes of a new round.
unfoldable pub write_round :
    Fresh → RoundBinding → RiskRules → Health → Text → ℕ → Database → Result RiskError Database
unfolding round_exists new_round risk_entry append_entry
write_round fresh round rules evidence wallet amount db = do
  throw_if (round_exists fresh.reservation_id round.id db.reservations) duplicate_key
  append_entry
      (risk_entry fresh (text "crash-reservation-created:" ++ round.id) round.id
        fresh.reservation_id reservation_created (to_string amount)
        (obj (
          field (text "health") (health_value evidence) (
            field (text "riskRulesHash") (str rules.risk_rules_hash) (
              field (text "riskRulesVersion") (str rules.rules_version)
                (field (text "stage") (num (int 1)) end))))))
      (record db { reservations = new_round fresh round rules wallet amount ∷ db.reservations })

pub record ReserveInput : Type 0 where
  pub health : Value
  pub initial_pot : RiskMoney
  pub now : ℕ
  pub round : RoundBinding
  pub rules : Value

-- The admission and the writes of a round that has no reservation.
unfoldable pub create_round :
    Service → Fresh → ReserveInput → RiskRules → Health → ℕ → Database → Result RiskError Database
create_round s fresh input rules evidence requested db = do
  wallet ← risk_wallet input.round.player_wallet_reference
  assert_admission s.is_public_key s.environment rules
      (record {
        amount_after = requested;
        current_amount = 0;
        now = input.now;
        player_wallet = wallet;
      })
      db
  write_round fresh input.round rules evidence wallet requested db

-- `reserveRound`
unfoldable pub reserve_round : Service → Fresh → ReserveInput → Database → Result RiskError Database
unfolding create_round
reserve_round s fresh input db = do
  rules ← validate_risk_rules s.host input.rules
  evidence ← validate_risk_health s.host s.dates input.health rules input.now
  assert_round_binding input.round rules
  _ ← assert_stage_and_duration rules (int 1) input.round.risk_expires_at input.now
  requested ← require_risk_money input.initial_pot
  elim (find_round input.round.id db.reservations) [
    | none ↦ create_round s fresh input rules evidence requested db
    | some row ↦ assert_reservation_replay row input.round rules requested >> ok db
  ]

-- `releaseTerminal` once the reservation is found
unfoldable pub release_found :
    Fresh → ℕ → RoundBinding → ℕ → Reservation → Database → Result RiskError Database
unfolding risk_entry append_entry update_row
release_found fresh now round stage row db =
    let release =
      throw_if (not (is_active row.status)) configuration
      >> (update_row row (release_row now) db
          >>= append_entry (
              risk_entry fresh (text "crash-reservation-released:" ++ round.id) round.id row.id
                reservation_released row.amount
                (rules_metadata round.risk_rules_hash round.risk_rules_version stage))) in
    assert_reservation_binding row round.player_wallet_reference round.risk_rules_hash
    >> (if is_closed row.status then ok db else release)

-- `releaseTerminal`
unfoldable pub release_terminal :
    Fresh → ℕ → RoundBinding → ℕ → Database → Result RiskError Database
unfolding release_found
release_terminal fresh now round stage db = do
  row ← require (find_round round.id db.reservations) configuration
  release_found fresh now round stage row db

-- `CrashRiskTransitionInput`; its callers give a stage that is a natural number
pub record TransitionInput : Type 0 where
  pub accepts_risk : Bool
  pub health : Value
  pub next_pot : RiskMoney
  pub next_stage : ℕ
  pub round : RoundBinding
  pub terminal : Bool
  pub now : ℕ
  pub rules : Value

-- The tests before the reservation is read.
unfoldable pub check_next : Service → TransitionInput → RiskRules → ℕ → Result RiskError (Unit {0})
check_next s input rules amount_after =
    let accept = validate_risk_health s.host s.dates input.health rules input.now >>= λ _.
    assert_stage_and_duration rules (int input.next_stage) input.round.risk_expires_at input.now
    >>= λ _. ok tt in
    let refuse =
      throw_if
        (ltb rules.max_stage input.next_stage || ltb (big_int rules.max_pot_amount) amount_after)
        pot in
    if input.accepts_risk then accept else refuse

-- The admission of a transition that accepts risk.
unfoldable pub admit_next :
    Service → TransitionInput → RiskRules → ℕ → ℕ → Database → Result RiskError (Unit {0})
admit_next s input rules amount_after current db =
    let admission = risk_wallet input.round.player_wallet_reference >>= λ wallet.
    assert_admission s.is_public_key s.environment rules
      (record {
        amount_after = amount_after;
        current_amount = current;
        now = input.now;
        player_wallet = wallet;
      })
      db in
    if input.accepts_risk then admission else ok tt

-- The write of a new amount.
unfoldable pub adjust_round :
    Fresh → TransitionInput → RiskRules → ℕ → ℕ → Reservation → Database → Result RiskError Database
unfolding update_row risk_entry append_entry rules_metadata
adjust_round fresh input rules amount_after current row db =
    let adjust =
      update_row row (adjust_row amount_after input.next_stage) db
      >>= append_entry (
          risk_entry fresh
            (text "crash-reservation-adjusted:"
              ++ (input.round.id ++ (text ":" ++ to_string input.next_stage)))
            input.round.id row.id reservation_adjusted (to_string amount_after)
            (rules_metadata rules.risk_rules_hash rules.rules_version input.next_stage)) in
    if amount_after == current then ok db else adjust

-- `applyTransition` on a reservation that is active.
unfoldable pub apply_active :
    Service
    → Fresh
    → TransitionInput
    → RiskRules
    → ℕ
    → Reservation
    → Database
    → Result RiskError Database
unfolding admit_next release_terminal adjust_round
apply_active s fresh input rules amount_after row db = do
  throw_if (not (is_active row.status)) configuration
  current ← parse_amount (str row.amount)
  admit_next s input rules amount_after current db
  let release = release_terminal fresh input.now input.round input.next_stage db
  let adjust = adjust_round fresh input rules amount_after current row db
  if input.terminal then release else adjust

-- `applyTransition`
unfoldable pub apply_transition :
    Service → Fresh → TransitionInput → Database → Result RiskError Database
unfolding check_next apply_active
apply_transition s fresh input db = do
  rules ← validate_risk_rules s.host input.rules
  assert_round_binding input.round rules
  amount_after ← require_risk_money input.next_pot
  check_next s input rules amount_after
  row ← require (find_round input.round.id db.reservations) configuration
  assert_reservation_binding row input.round.player_wallet_reference rules.risk_rules_hash
  let closed = throw_if (not input.terminal) configuration >> ok db
  let active = apply_active s fresh input rules amount_after row db
  if is_closed row.status then closed else active
