-- ===== src/Crash/Risk/Caps/Transition.antt =====
-- What `applyTransition` leaves.
use dailydraft_fun.Prelude.{
  ℕ, ◌+◌, ◌≤◌, ◌<◌, ◌≡◌, refl, sym, ap, ◌∙◌, true, false, not, ◌⊎◌, inl, inr, some, ◌++◌, arith,
  ◌==◌, Bool-cases, ok, from_bind, ok-injective, throw_if, throw_if-eq-ok, require, require-eq-ok,
}
use dailydraft_fun.Js.Text.{Text, text, text_eq_iff, text_eq_refl}
use dailydraft_fun.Js.Decimal.{big_int, to_string, big_int-to_string}
use dailydraft_fun.Js.Value.{int, str}
use dailydraft_fun.Treasury.Types.{
  reservation_adjusted, is_active, is_duel, Reservation, LedgerEntry, Database,
}
use dailydraft_fun.Treasury.Config.{read_config}
use dailydraft_fun.Treasury.Reserve.{daily_losses}
use dailydraft_fun.Treasury.Reserve.Caps.{active_exposure, daily_loss_of}
use dailydraft_fun.Crash.Risk.Types.{RiskRules, parse_amount, parse_amount-big_int}
use dailydraft_fun.Crash.Risk.Rules.{validate_risk_rules}
use dailydraft_fun.Crash.Risk.Health.{validate_risk_health}
use dailydraft_fun.Crash.Risk.Round.{
  assert_stage_and_duration, assert_round_binding, risk_wallet, assert_reservation_binding,
  require_risk_money, find_round, is_closed,
}
use dailydraft_fun.Crash.Risk.Admission.{Change}
use dailydraft_fun.Crash.Risk.Rows.{Fresh, risk_entry, rules_metadata, adjust_row}
use dailydraft_fun.Crash.Risk.Operations.{
  Service, TransitionInput, check_next, admit_next, adjust_round, apply_active, apply_transition,
  release_terminal,
}
use dailydraft_fun.Crash.Risk.Effects.{
  wallet_exposure_of, IsUpdated, update_row-IsUpdated, active_exposure-updated,
  wallet_exposure_of-updated,
}
use dailydraft_fun.Crash.Risk.Caps.{
  IsAdmitted, assert_admission-IsAdmitted, IsWithin, IsAdmitted-IsWithin, IsInRules,
  assert_stage_and_duration_lem,
}

-- The entry of an adjustment.
abbrev pub adjust_entry : Fresh → TransitionInput → RiskRules → ℕ → Reservation → LedgerEntry
adjust_entry fresh input rules amount row =
    risk_entry fresh
      (text "crash-reservation-adjusted:"
        ++ (input.round.id ++ (text ":" ++ to_string input.next_stage)))
      input.round.id row.id reservation_adjusted (to_string amount)
      (rules_metadata rules.risk_rules_hash rules.rules_version input.next_stage)

-- The admission of a new amount for a reservation.
abbrev pub next_change : TransitionInput → Text → ℕ → Reservation → Change
next_change input wallet amount row = record {
  amount_after = amount;
  current_amount = big_int row.amount;
  now = input.now;
  player_wallet = wallet;
}

-- A new amount that was admitted where risk was accepted, and written where it differs.
pub record Adjusts (s : Service) (fresh : Fresh) (input : TransitionInput) (rules : RiskRules)
    (amount : ℕ) (row : Reservation) (db db' : Database) : Type 0 where
  pub admitted :
      input.accepts_risk ≡ true
      → (wallet : Text) × (risk_wallet input.round.player_wallet_reference ≡ ok wallet)
        × IsAdmitted s.is_public_key
            (read_config s.environment)
            rules
            (next_change input wallet amount row)
            db
  pub written :
      ((amount ≡ big_int row.amount) × (db' ≡ db))
      ⊎ IsUpdated row
          (adjust_row amount input.next_stage)
          (adjust_entry fresh input rules amount row)
          db
          db'

-- What a successful transition found and did.
pub record Applies (s : Service) (fresh : Fresh) (input : TransitionInput) (db db' : Database)
    : Type 0 where
  pub rules : RiskRules
  pub amount : ℕ
  pub row : Reservation
  pub valid : validate_risk_rules s.host input.rules ≡ ok rules
  pub money : require_risk_money input.next_pot ≡ ok amount
  pub checked : check_next s input rules amount ≡ ok tt
  pub found : find_round input.round.id db.reservations ≡ some row
  pub bound :
      assert_reservation_binding row input.round.player_wallet_reference rules.risk_rules_hash
      ≡ ok tt
  pub outcome :
      ((input.terminal ≡ true) × (is_closed row.status ≡ true) × (db' ≡ db))
      ⊎ (((input.terminal ≡ true)
            × (release_terminal fresh input.now input.round input.next_stage db ≡ ok db'))
          ⊎ ((input.terminal ≡ false)
              × (is_active row.status ≡ true)
              × Adjusts s fresh input rules amount row db db'))

admit_next_lem :
    (s : Service) (input : TransitionInput) (rules : RiskRules) (amount : ℕ) (row : Reservation)
    (db : Database)
    → admit_next s input rules amount (big_int row.amount) db ≡ ok tt
    → input.accepts_risk ≡ true
    → (wallet : Text) × (risk_wallet input.round.player_wallet_reference ≡ ok wallet)
      × IsAdmitted s.is_public_key
          (read_config s.environment)
          rules
          (next_change input wallet amount row)
          db
unfolding admit_next
admit_next_lem s input rules amount row db h accepts =
    from_bind (risk_wallet input.round.player_wallet_reference) _ (rw accepts at h)
      λ wallet named admitted. (
        wallet,
        named,
        assert_admission-IsAdmitted s.is_public_key s.environment rules
            (next_change input wallet amount row) db admitted,
      )

adjust_round_lem :
    (fresh : Fresh) (input : TransitionInput) (rules : RiskRules) (amount : ℕ) (row : Reservation)
    (db : Database) {db' : Database}
    → adjust_round fresh input rules amount (big_int row.amount) row db ≡ ok db'
    → ((amount ≡ big_int row.amount) × (db' ≡ db))
      ⊎ IsUpdated row
          (adjust_row amount input.next_stage)
          (adjust_entry fresh input rules amount row)
          db
          db'
unfolding adjust_round
adjust_round_lem fresh input rules amount row db h =
    elim (Bool-cases (amount == big_int row.amount)) [
      | inl same ↦ inl (ground (arith, same), sym (ok-injective (rw same at h)))
      | inr differs ↦ inr (
          update_row-IsUpdated row (adjust_row amount input.next_stage)
            (adjust_entry fresh input rules amount row) db (rw differs at h))
    ]

apply_active_lem :
    (s : Service) (fresh : Fresh) (input : TransitionInput) (rules : RiskRules) (amount : ℕ)
    (row : Reservation) (db : Database) {db' : Database}
    → apply_active s fresh input rules amount row db ≡ ok db'
    → ((input.terminal ≡ true)
        × (release_terminal fresh input.now input.round input.next_stage db ≡ ok db'))
      ⊎ ((input.terminal ≡ false)
          × (is_active row.status ≡ true)
          × Adjusts s fresh input rules amount row db db')
unfolding apply_active
apply_active_lem s fresh input rules amount row db {db'} h =
    from_bind (throw_if (not (is_active row.status)) _) _ h λ _ active h₁.
      from_bind (parse_amount (str row.amount)) _ h₁ λ current parsed h₂.
        from_bind (admit_next s input rules amount current db) _ h₂ λ _ admits h₃.
          let same : current ≡ big_int row.amount = parse_amount-big_int row.amount parsed in
          elim (Bool-cases input.terminal) [
            | inl ends ↦ inl (ends, rw ends at h₃)
            | inr goes ↦
                let adjusted : adjust_round fresh input rules amount current row db ≡ ok db' =
                  rw goes at h₃ in
                inr (
                  goes,
                  ground (arith, throw_if-eq-ok _ _ active),
                  record {
                    admitted = admit_next_lem s input rules amount row db (rw same at admits);
                    written =
                        adjust_round_lem fresh input rules amount row db (rw same at adjusted);
                  },
                )
          ]

pub apply_transition-Applies :
    (s : Service) (fresh : Fresh) (input : TransitionInput) (db : Database) {db' : Database}
    → apply_transition s fresh input db ≡ ok db'
    → Applies s fresh input db db'
unfolding apply_transition
apply_transition-Applies s fresh input db {db'} h =
    from_bind (validate_risk_rules s.host input.rules) _ h λ rules valid h₁.
      from_bind (assert_round_binding input.round rules) _ h₁ λ _ _ h₂.
        from_bind (require_risk_money input.next_pot) _ h₂ λ amount money h₃.
          from_bind (check_next s input rules amount) _ h₃ λ _ checked h₄.
            from_bind (require (find_round input.round.id db.reservations) _) _ h₄ λ row found h₅.
              from_bind
                (assert_reservation_binding row input.round.player_wallet_reference
                  rules.risk_rules_hash)
                _ h₅
                λ _ bound h₆. record {
                  rules = rules;
                  amount = amount;
                  row = row;
                  valid = valid;
                  money = money;
                  checked = checked;
                  found = require-eq-ok _ _ found;
                  bound = bound;
                  outcome = elim (Bool-cases (is_closed row.status)) [
                    | inl closed ↦
                        from_bind (throw_if (not input.terminal) _) _ (rw closed at h₆) λ _ ends h₇.
                          inl
                            (ground (arith, throw_if-eq-ok _ _ ends), closed, sym (ok-injective h₇))
                    | inr open_row ↦
                        inr (apply_active_lem s fresh input rules amount row db (rw open_row at h₆))
                  ];
                }

-- The tests before the reservation is read.
check_next_lem :
    (s : Service) (input : TransitionInput) (rules : RiskRules) (amount : ℕ)
    → check_next s input rules amount ≡ ok tt
    → (input.next_stage ≤ rules.max_stage)
      × (input.accepts_risk ≡ true
          → (0 < input.next_stage) × (input.now < input.round.risk_expires_at))
      × (input.accepts_risk ≡ false → amount ≤ big_int rules.max_pot_amount)
unfolding check_next
check_next_lem s input rules amount h = elim (Bool-cases input.accepts_risk) [
  | inl accepts ↦
      from_bind (validate_risk_health s.host s.dates input.health rules input.now) _
        (rw accepts at h)
        λ _ _ h₁.
          from_bind
            (assert_stage_and_duration rules (int input.next_stage) input.round.risk_expires_at
              input.now)
            _ h₁
            λ _ staged _.
              let (from, to, in_time) = assert_stage_and_duration_lem rules _ _ _ staged in
              (to, λ _. (from, in_time), λ refuses. absurd (cc (sym accepts ∙ refuses)))
  | inr refuses ↦
      let tests = throw_if-eq-ok _ _ (rw refuses at h) in
      (
        ground (arith, tests),
        λ accepts. absurd (cc (sym refuses ∙ accepts)),
        λ _. ground (arith, tests),
      )
]

-- The binding names the wallet of the row.
assert_reservation_binding-wallet :
    (row : Reservation) (reference hash : Text) {wallet : Text}
    → assert_reservation_binding row reference hash ≡ ok tt
    → risk_wallet reference ≡ ok wallet
    → row.player_wallet ≡ wallet
unfolding assert_reservation_binding
assert_reservation_binding-wallet row reference hash {wallet} h named =
    from_bind (throw_if (is_duel row.source) _) _ h λ _ _ h₁.
      let tests = throw_if-eq-ok _ _ (rw named at h₁) in
      (text_eq_iff row.player_wallet wallet).0 (ground (arith, tests))

-- The sums over the tables with an adjusted amount.
Adjusts-sums :
    (s : Service) (fresh : Fresh) (input : TransitionInput) (rules : RiskRules) (amount : ℕ)
    (row : Reservation) (db db' : Database)
    → find_round input.round.id db.reservations ≡ some row
    → is_active row.status ≡ true
    → Adjusts s fresh input rules amount row db db'
    → (active_exposure db' + big_int row.amount ≡ active_exposure db + amount)
      × (wallet_exposure_of row.player_wallet db' + big_int row.amount
          ≡ wallet_exposure_of row.player_wallet db + amount)
      × (daily_loss_of input.now db' ≡ daily_loss_of input.now db)
      × (db'.snapshot ≡ db.snapshot)
unfolding daily_losses risk_entry
Adjusts-sums s fresh input rules amount row db db' found active a = elim a.written [
  | inl (same, tables) ↦ rw tables (omega (arith, same), omega (arith, same), refl, refl)
  | inr updated ↦
      let change = adjust_row amount input.next_stage in
      let total =
        active_exposure-updated input.round.id row change
          (adjust_entry fresh input rules amount row) db db' found active updated in
      let wallet =
        wallet_exposure_of-updated input.round.id row change
          (adjust_entry fresh input rules amount row) db db' found active updated
          row.player_wallet in
      (
        ground (arith, total, active, big_int-to_string amount),
        ground (arith, wallet, active, big_int-to_string amount, text_eq_refl row.player_wallet),
        ap (daily_loss_of input.now) updated.tables ∙ ground arith,
        ap (λ d. d.snapshot) updated.tables,
      )
]

-- A successful transition that goes on replaces the amount of the reservation by the next pot in the active
-- exposure; the next pot and the next stage are at most those of the accepted rules. Where it accepts risk, the
-- stage is positive and the round has not expired, and the tables then keep the limits of the rules on the
-- wallet and on the treasury, and of the house on the exposure, the day's loss, the liquidity and the
-- allowance.
pub apply_transition-IsWithin :
    (s : Service) (fresh : Fresh) (input : TransitionInput) (db : Database) {db' : Database}
    → input.terminal ≡ false
    → apply_transition s fresh input db ≡ ok db'
    → (rules : RiskRules) × (amount : ℕ) × (row : Reservation) × (validate_risk_rules s.host
          input.rules
        ≡ ok rules)
      × (require_risk_money input.next_pot ≡ ok amount)
      × (find_round input.round.id db.reservations ≡ some row)
      × (active_exposure db' + big_int row.amount ≡ active_exposure db + amount)
      × (amount ≤ big_int rules.max_pot_amount)
      × (input.next_stage ≤ rules.max_stage)
      × (input.accepts_risk ≡ true
          → IsInRules rules input.round input.next_stage amount input.now
            × IsWithin (read_config s.environment) rules row.player_wallet input.now db')
apply_transition-IsWithin s fresh input db {db'} goes h =
    let a = apply_transition-Applies s fresh input db {db' = db'} h in
    elim a.outcome [
      | inl (ends, _, _) ↦ absurd (cc (sym goes ∙ ends))
      | inr (inl (ends, _)) ↦ absurd (cc (sym goes ∙ ends))
      | inr (inr (_, active, adjusts)) ↦
          let (total, wallet, lost, kept) =
            Adjusts-sums s fresh input a.rules a.amount a.row db db' a.found active adjusts in
          let (to, positive, small) = check_next_lem s input a.rules a.amount a.checked in
          let pot : a.amount ≤ big_int a.rules.max_pot_amount =
            elim (Bool-cases input.accepts_risk) [
              | inl accepts ↦ let (_, _, admitted) = adjusts.admitted accepts in admitted.pot
              | inr refuses ↦ small refuses
            ] in
          (
            a.rules,
            a.amount,
            a.row,
            a.valid,
            a.money,
            a.found,
            total,
            pot,
            to,
            λ accepts.
                let (name, named, admitted) = adjusts.admitted accepts in
                let same = assert_reservation_binding-wallet a.row _ _ a.bound named in
                let change = next_change input a.row.player_wallet a.amount a.row in
                let own : IsAdmitted s.is_public_key (read_config s.environment) a.rules change db =
                  rw (← same) at admitted in
                let (from, in_time) = positive accepts in
                (
                  record { stage_from = from; stage_to = to; pot = pot; in_time = in_time },
                  IsAdmitted-IsWithin s.is_public_key (read_config s.environment) a.rules change db
                      db' own kept (omega (arith, total, own.covered))
                      (omega (arith, wallet, own.wallet_covered)) lost,
                ),
          )
    ]
