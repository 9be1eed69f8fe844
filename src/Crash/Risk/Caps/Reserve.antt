-- ===== src/Crash/Risk/Caps/Reserve.antt =====
-- What `reserveRound` leaves.
use dailydraft_fun.Prelude.{
  ℕ, ◌+◌, ◌≤◌, ◌<◌, ◌≡◌, sym, ap, true, false, Option, ◌⊎◌, inl, inr, none, some, ◌∷◌, ◌++◌, arith,
  Option-cases, ok, from_bind, ok-injective, throw_if, throw_if-eq-ok,
}
use dailydraft_fun.Js.Text.{Text, text, text_eq_iff, text_eq_refl}
use dailydraft_fun.Js.Decimal.{to_string, big_int-to_string}
use dailydraft_fun.Js.Value.{int, num, str, obj, field, end}
use dailydraft_fun.Treasury.Types.{
  Source, crash, is_duel, reservation_created, Reservation, LedgerEntry, Database,
}
use dailydraft_fun.Treasury.Config.{read_config, is_some_text}
use dailydraft_fun.Treasury.Reserve.{active_amounts, daily_losses}
use dailydraft_fun.Treasury.Reserve.Caps.{active_exposure, daily_loss_of}
use dailydraft_fun.Crash.Risk.Types.{RiskRules, Health, health_value, RoundBinding}
use dailydraft_fun.Crash.Risk.Rules.{validate_risk_rules}
use dailydraft_fun.Crash.Risk.Health.{validate_risk_health}
use dailydraft_fun.Crash.Risk.Round.{
  assert_stage_and_duration, assert_round_binding, risk_wallet, assert_reservation_binding,
  assert_reservation_replay, require_risk_money, find_round,
}
use dailydraft_fun.Crash.Risk.Admission.{wallet_amounts, Change, assert_admission}
use dailydraft_fun.Crash.Risk.Rows.{Fresh, risk_entry, round_exists, new_round}
use dailydraft_fun.Crash.Risk.Operations.{
  Service, write_round, ReserveInput, create_round, reserve_round,
}
use dailydraft_fun.Crash.Risk.Effects.{wallet_exposure_of, append_entry_lem}
use dailydraft_fun.Crash.Risk.Caps.{
  IsAdmitted, assert_admission-IsAdmitted, IsWithin, IsAdmitted-IsWithin, IsInRules,
  assert_stage_and_duration_lem,
}

-- The entry of a new round.
abbrev pub created_entry : Fresh → RoundBinding → RiskRules → Health → ℕ → LedgerEntry
created_entry fresh round rules evidence amount =
    risk_entry fresh (text "crash-reservation-created:" ++ round.id) round.id fresh.reservation_id
      reservation_created (to_string amount)
      (obj (
        field (text "health") (health_value evidence) (
          field (text "riskRulesHash") (str rules.risk_rules_hash) (
            field (text "riskRulesVersion") (str rules.rules_version)
              (field (text "stage") (num (int 1)) end)))))

abbrev pub first_change : Text → ℕ → ℕ → Change
first_change wallet requested now = record {
  amount_after = requested;
  current_amount = 0;
  now = now;
  player_wallet = wallet;
}

-- What a call that created a reservation found and did.
pub record Creates (s : Service) (fresh : Fresh) (input : ReserveInput) (db db' : Database)
    : Type 0 where
  pub rules : RiskRules
  pub evidence : Health
  pub requested : ℕ
  pub wallet : Text
  pub valid : validate_risk_rules s.host input.rules ≡ ok rules
  pub healthy : validate_risk_health s.host s.dates input.health rules input.now ≡ ok evidence
  pub money : require_risk_money input.initial_pot ≡ ok requested
  pub named : risk_wallet input.round.player_wallet_reference ≡ ok wallet
  pub staged : (0 < 1) × (1 ≤ rules.max_stage) × (input.now < input.round.risk_expires_at)
  pub first : find_round input.round.id db.reservations ≡ none
  pub admitted :
      IsAdmitted s.is_public_key
        (read_config s.environment)
        rules
        (first_change wallet requested input.now)
        db
  pub tables : db' ≡ record db {
    reservations = new_round fresh input.round rules wallet requested ∷ db.reservations;
    ledger = created_entry fresh input.round rules evidence requested ∷ db.ledger;
  }

write_round_lem :
    (fresh : Fresh) (round : RoundBinding) (rules : RiskRules) (evidence : Health) (wallet : Text)
    (amount : ℕ) (db : Database) {db' : Database}
    → write_round fresh round rules evidence wallet amount db ≡ ok db'
    → db' ≡ record db {
      reservations = new_round fresh round rules wallet amount ∷ db.reservations;
      ledger = created_entry fresh round rules evidence amount ∷ db.ledger;
    }
unfolding write_round
write_round_lem fresh round rules evidence wallet amount db h =
    from_bind (throw_if (round_exists fresh.reservation_id round.id db.reservations) _) _ h
      λ _ _ h₁.
        append_entry_lem (created_entry fresh round rules evidence amount)
          (record db { reservations = new_round fresh round rules wallet amount ∷ db.reservations })
          h₁

-- What a call that found its reservation read.
pub record Finds (s : Service) (input : ReserveInput) (db db' : Database) : Type 0 where
  pub rules : RiskRules
  pub requested : ℕ
  pub wallet : Text
  pub row : Reservation
  pub valid : validate_risk_rules s.host input.rules ≡ ok rules
  pub money : require_risk_money input.initial_pot ≡ ok requested
  pub named : risk_wallet input.round.player_wallet_reference ≡ ok wallet
  pub found : find_round input.round.id db.reservations ≡ some row
  pub of_crash : row.source ≡ crash
  pub of_wallet : row.player_wallet ≡ wallet
  pub of_rules : row.risk_rules_hash ≡ some rules.risk_rules_hash
  pub same_amount : row.amount ≡ to_string requested
  pub unchanged : db' ≡ db

is_duel-false : (source : Source) → is_duel source ≡ false → source ≡ crash
is_duel-false source h = ground arith

is_some_text-eq : (t : Text) (o : Option Text) → is_some_text t o ≡ true → o ≡ some t
unfolding is_some_text
is_some_text-eq t none h = cc
is_some_text-eq t (some u) h = ground (arith, text_eq_iff u t)

replay_lem :
    (row : Reservation) (round : RoundBinding) (rules : RiskRules) (amount : ℕ)
    → assert_reservation_replay row round rules amount ≡ ok tt
    → (wallet : Text) × (risk_wallet round.player_wallet_reference ≡ ok wallet)
      × (row.source ≡ crash)
      × (row.player_wallet ≡ wallet)
      × (row.risk_rules_hash ≡ some rules.risk_rules_hash)
      × (row.amount ≡ to_string amount)
unfolding assert_reservation_replay assert_reservation_binding
replay_lem row round rules amount h =
    from_bind (assert_reservation_binding row round.player_wallet_reference rules.risk_rules_hash) _
      h
      λ _ bound h₁. from_bind (throw_if (is_duel row.source) _) _ bound λ _ source h₂.
        from_bind (risk_wallet round.player_wallet_reference) _ h₂ λ wallet named h₃.
          let tests = throw_if-eq-ok _ _ h₃ in
          (
            wallet,
            named,
            is_duel-false row.source (throw_if-eq-ok _ _ source),
            (text_eq_iff row.player_wallet wallet).0 (ground (arith, tests)),
            is_some_text-eq rules.risk_rules_hash row.risk_rules_hash (ground (arith, tests)),
            (text_eq_iff row.amount (to_string amount)).0 (ground (arith, throw_if-eq-ok _ _ h₁)),
          )

-- A successful call found its reservation, with the binding and the amount that it asked for, or created it.
pub reserve_round-cases :
    (s : Service) (fresh : Fresh) (input : ReserveInput) (db : Database) {db' : Database}
    → reserve_round s fresh input db ≡ ok db'
    → Finds s input db db' ⊎ Creates s fresh input db db'
unfolding reserve_round create_round
reserve_round-cases s fresh input db {db'} h =
    from_bind (validate_risk_rules s.host input.rules) _ h λ rules valid h₁.
      from_bind (validate_risk_health s.host s.dates input.health rules input.now) _ h₁
        λ evidence healthy h₂. from_bind (assert_round_binding input.round rules) _ h₂ λ _ _ h₃.
          from_bind (assert_stage_and_duration rules (int 1) input.round.risk_expires_at input.now)
            _ h₃
            λ _ staged h₄.
              from_bind (require_risk_money input.initial_pot) _ h₄ λ requested money h₅.
                elim (Option-cases (find_round input.round.id db.reservations)) [
                  | inl first ↦
                      from_bind (risk_wallet input.round.player_wallet_reference) _ (rw first at h₅)
                        λ wallet named h₆.
                          from_bind
                            (assert_admission s.is_public_key s.environment rules
                              (first_change wallet requested input.now) db)
                            _ h₆
                            λ _ admitted wrote. inr (record {
                              rules = rules;
                              evidence = evidence;
                              requested = requested;
                              wallet = wallet;
                              valid = valid;
                              healthy = healthy;
                              money = money;
                              named = named;
                              staged =
                                  assert_stage_and_duration_lem rules 1 input.round.risk_expires_at
                                    input.now staged;
                              first = first;
                              admitted =
                                  assert_admission-IsAdmitted s.is_public_key s.environment rules
                                    (first_change wallet requested input.now) db admitted;
                              tables =
                                  write_round_lem fresh input.round rules evidence wallet requested
                                    db wrote;
                            })
                  | inr (row, found) ↦
                      from_bind (assert_reservation_replay row input.round rules requested) _
                        (rw found at h₅)
                        λ _ replay h₆.
                          let (wallet, named, source, own, hash, amount) =
                            replay_lem row input.round rules requested replay in
                          inl (record {
                            rules = rules;
                            requested = requested;
                            wallet = wallet;
                            row = row;
                            valid = valid;
                            money = money;
                            named = named;
                            found = found;
                            of_crash = source;
                            of_wallet = own;
                            of_rules = hash;
                            same_amount = amount;
                            unchanged = sym (ok-injective h₆);
                          })
                ]

-- The sums over the tables with a new round.
Creates-sums :
    (s : Service) (fresh : Fresh) (input : ReserveInput) (db db' : Database)
    (c : Creates s fresh input db db')
    → (active_exposure db' ≡ active_exposure db + c.requested)
      × (wallet_exposure_of c.wallet db' ≡ wallet_exposure_of c.wallet db + c.requested)
      × (daily_loss_of input.now db' ≡ daily_loss_of input.now db)
unfolding active_amounts wallet_amounts daily_losses new_round risk_entry
Creates-sums s fresh input db db' c = rw c.tables (
    rw (text_eq_refl c.wallet, big_int-to_string c.requested)
      (omega arith, omega arith, ground arith))

-- A successful call finds the Crash reservation of the round, of the same wallet, rules and amount, and
-- changes nothing; or it finds none and adds exactly the amount asked for to the active exposure. Then the pot,
-- the first stage and the time are within the accepted rules, and the tables keep the limits of the rules on
-- the wallet and on the treasury, and of the house on the exposure, the day's loss, the liquidity and the
-- allowance.
pub reserve_round-IsWithin :
    (s : Service) (fresh : Fresh) (input : ReserveInput) (db : Database) {db' : Database}
    → reserve_round s fresh input db ≡ ok db'
    → Finds s input db db'
      ⊎ ((rules : RiskRules) × (requested : ℕ) × (wallet : Text) × (validate_risk_rules s.host
              input.rules
            ≡ ok rules)
          × (require_risk_money input.initial_pot ≡ ok requested)
          × (risk_wallet input.round.player_wallet_reference ≡ ok wallet)
          × (active_exposure db' ≡ active_exposure db + requested)
          × (find_round input.round.id db.reservations ≡ none)
          × IsInRules rules input.round 1 requested input.now
          × IsWithin (read_config s.environment) rules wallet input.now db')
reserve_round-IsWithin s fresh input db {db'} h =
    elim (reserve_round-cases s fresh input db {db' = db'} h) [
      | inl finds ↦ inl finds
      | inr c ↦
          let (total, wallet, lost) = Creates-sums s fresh input db db' c in
          inr (
            c.rules,
            c.requested,
            c.wallet,
            c.valid,
            c.money,
            c.named,
            total,
            c.first,
            (let (from, to, in_time) = c.staged in
                record {
                  stage_from = from;
                  stage_to = to;
                  pot = c.admitted.pot;
                  in_time = in_time;
                }),
            IsAdmitted-IsWithin s.is_public_key (read_config s.environment) c.rules
                (first_change c.wallet c.requested input.now) db db' c.admitted
                (ap (λ d. d.snapshot) c.tables) (omega (arith, total)) (omega (arith, wallet)) lost,
          )
    ]
