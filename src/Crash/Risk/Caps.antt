-- ===== src/Crash/Risk/Caps.antt =====
-- The limits that an admitted change of a round's exposure keeps.
pub mod Reserve
pub mod Transition
use dailydraft_fun.Prelude.{
  ℕ, ◌+◌, ◌-◌, ◌≤◌, ◌<◌, ◌≡◌, refl, sym, ap, ◌∙◌, Bool, true, false, not, ◌||◌, Option, none, some,
  List, [], ◌∷◌, arith, ltb, if◌then◌else◌, sum_by, Result, ok, err, ◌>>=◌, ◌>>◌, from_bind,
  throw_if, throw_if-eq-ok, require, require-eq-ok,
}
use dailydraft_fun.Prelude.Int.{pos, sub_ℕ, ◌+ℤ◌, pos-+ℤ-sub_ℕ}
use dailydraft_fun.Js.Text.{Text}
use dailydraft_fun.Js.Decimal.{big_int}
use dailydraft_fun.Js.Value.{int, str}
use dailydraft_fun.Treasury.Types.{Config, Snapshot, Reason, Database}
use dailydraft_fun.Treasury.Limits.{
  Exposure, evaluate_limits, evaluate_limits_iff, requested_exposure,
}
use dailydraft_fun.Treasury.Config.{Environment, read_config, ConfigError, config_errors}
use dailydraft_fun.Treasury.Snapshot.{snapshot_is_usable, IsUsable, snapshot_is_usable_iff}
use dailydraft_fun.Treasury.Reserve.{active_amounts, daily_losses, is_nil}
use dailydraft_fun.Treasury.Reserve.Caps.{active_exposure, daily_loss_of, RespectsLimits→ℕ}
use dailydraft_fun.Crash.Risk.Round.{assert_stage_and_duration}
use dailydraft_fun.Crash.Risk.Types.{
  RiskError, RoundBinding, RiskRules, parse_amount, parse_amount-big_int, sum_amounts,
  sum_amounts_lem,
}
use dailydraft_fun.Crash.Risk.Admission.{
  wallet_amounts, is_stopped, is_refused, Change, check_exposure, check_house, assert_admission,
}
use dailydraft_fun.Crash.Risk.Effects.{wallet_exposure_of}

-- The exposure of a wallet and of the house once a change is made.
abbrev pub wallet_after : Change → Database → ℕ
wallet_after c db = wallet_exposure_of c.player_wallet db - c.current_amount + c.amount_after

abbrev pub total_after : Change → Database → ℕ
total_after c db = active_exposure db - c.current_amount + c.amount_after

-- The limits on the pot and on the exposure after the change, and what the admission rests on.
pub record IsAdmitted (k : Text → Bool) (config : Config) (rules : RiskRules) (c : Change)
    (db : Database) : Type 0 where
  pub snapshot : Snapshot
  pub recorded : db.snapshot ≡ some snapshot
  pub usable : IsUsable snapshot config c.now 6
  pub ready : config_errors k config ≡ []
  pub running : is_stopped db.paused ≡ false
  pub covered : c.current_amount ≤ active_exposure db
  pub wallet_covered : c.current_amount ≤ wallet_exposure_of c.player_wallet db
  pub pot : c.amount_after ≤ big_int rules.max_pot_amount
  pub wallet : wallet_after c db ≤ big_int rules.max_wallet_exposure_amount
  pub treasury : total_after c db ≤ big_int rules.max_treasury_exposure_amount
  pub house : big_int rules.max_treasury_exposure_amount ≤ config.max_total_exposure
  pub loss : daily_loss_of c.now db + total_after c db ≤ config.daily_loss_limit
  pub liquidity : total_after c db + config.minimum_liquidity ≤ big_int snapshot.balance_amount
  pub allowance : total_after c db ≤ big_int snapshot.delegated_amount

check_exposure_lem :
    (rules : RiskRules) (c : Change) (total wallet : ℕ)
    → check_exposure rules c total wallet ≡ ok tt
    → (c.current_amount ≤ total)
      × (c.current_amount ≤ wallet)
      × (wallet - c.current_amount + c.amount_after ≤ big_int rules.max_wallet_exposure_amount)
      × (total - c.current_amount + c.amount_after ≤ big_int rules.max_treasury_exposure_amount)
unfolding check_exposure
check_exposure_lem rules c total wallet h = ground arith

is_refused-false : (o : Option Reason) → is_refused o ≡ false → o ≡ none
is_refused-false none h = refl
is_refused-false (some r) h = cc

is_nil-true : (es : List ConfigError) → not (is_nil es) ≡ false → es ≡ []
is_nil-true [] h = refl
is_nil-true (e ∷ es) h = cc

check_house_lem :
    (config : Config) (c : Change) (snapshot : Snapshot) (total : ℕ) (db : Database)
    → c.current_amount ≤ total
    → check_house config c snapshot total db ≡ ok tt
    → (daily_loss_of c.now db + (total - c.current_amount + c.amount_after)
        ≤ config.daily_loss_limit)
      × (total - c.current_amount + c.amount_after + config.minimum_liquidity
          ≤ big_int snapshot.balance_amount)
      × (total - c.current_amount + c.amount_after ≤ big_int snapshot.delegated_amount)
unfolding check_house
check_house_lem config c snapshot total db covered h =
    from_bind (sum_amounts (daily_losses c.now db)) _ h λ loss loss_eq h₁.
      from_bind (parse_amount (str snapshot.delegated_amount)) _ h₁ λ delegated delegated_eq h₂.
        from_bind (parse_amount (str snapshot.balance_amount)) _ h₂ λ balance balance_eq h₃.
          let e : Exposure = record {
            active_per_tier = 0;
            active_per_wallet = 0;
            daily_loss_amount = loss;
            delegated_amount = delegated;
            requested = sub_ℕ c.amount_after c.current_amount;
            total = total;
            verified_balance = balance;
          } in
          let allowed : evaluate_limits config e ≡ none =
            is_refused-false _ (throw_if-eq-ok _ _ h₃) in
          let (lost, _, liquid, allowance) =
            RespectsLimits→ℕ config e (total - c.current_amount + c.amount_after)
              (pos-+ℤ-sub_ℕ total c.amount_after c.current_amount covered)
              ((evaluate_limits_iff config e).0 allowed) in
          let lost_eq = sum_amounts_lem _ loss_eq in
          let delegated_same = parse_amount-big_int _ delegated_eq in
          let balance_same = parse_amount-big_int _ balance_eq in
          (
            omega (arith, lost, lost_eq),
            omega (arith, liquid, balance_same),
            omega (arith, allowance, delegated_same),
          )

pub assert_admission-IsAdmitted :
    (k : Text → Bool) (env : Environment) (rules : RiskRules) (c : Change) (db : Database)
    → assert_admission k env rules c db ≡ ok tt
    → IsAdmitted k (read_config env) rules c db
unfolding assert_admission
assert_admission-IsAdmitted k env rules c db h =
    let config = read_config env in
    from_bind (throw_if (ltb (big_int rules.max_pot_amount) c.amount_after) _) _ h λ _ pot h₁.
      from_bind
        (throw_if
          (not (is_nil (config_errors k config))
            || ltb config.max_total_exposure (big_int rules.max_treasury_exposure_amount))
          _)
        _ h₁
        λ _ ready h₂. from_bind (throw_if (is_stopped db.paused) _) _ h₂ λ _ running h₃.
          from_bind (require db.snapshot _) _ h₃ λ snapshot recorded h₄.
            from_bind (throw_if (not (snapshot_is_usable snapshot config c.now 6)) _) _ h₄
              λ _ usable h₅. from_bind (sum_amounts (active_amounts db)) _ h₅ λ total total_eq h₆.
                from_bind (sum_amounts (wallet_amounts c.player_wallet db)) _ h₆
                  λ wallet wallet_eq h₇.
                    from_bind (check_exposure rules c total wallet) _ h₇ λ _ bounded h₈.
                      let (covered, wallet_covered, in_wallet, in_treasury) =
                        check_exposure_lem rules c total wallet bounded in
                      let (loss, liquidity, allowance) =
                        check_house_lem config c snapshot total db covered h₈ in
                      let total_same : active_exposure db ≡ total =
                        sym (sum_amounts_lem _ total_eq) in
                      let wallet_same : wallet_exposure_of c.player_wallet db ≡ wallet =
                        sym (sum_amounts_lem _ wallet_eq) in
                      let tests = throw_if-eq-ok _ _ ready in
                      record {
                        snapshot = snapshot;
                        recorded = require-eq-ok _ _ recorded;
                        usable =
                            (snapshot_is_usable_iff _ _ _ _).0
                              (ground (arith, throw_if-eq-ok _ _ usable));
                        ready = is_nil-true _ (ground (arith, tests));
                        running = throw_if-eq-ok _ _ running;
                        covered = omega (arith, covered, total_same);
                        wallet_covered = omega (arith, wallet_covered, wallet_same);
                        pot = ground (arith, throw_if-eq-ok _ _ pot);
                        wallet = omega (arith, in_wallet, wallet_same);
                        treasury = omega (arith, in_treasury, total_same);
                        house = ground (arith, tests);
                        loss = omega (arith, loss, total_same);
                        liquidity = omega (arith, liquidity, total_same);
                        allowance = omega (arith, allowance, total_same);
                      }

-- What the rules ask of a round by itself: its stage, its pot and its time.
pub record IsInRules (rules : RiskRules) (round : RoundBinding) (stage amount now : ℕ)
    : Type 0 where
  pub stage_from : 0 < stage
  pub stage_to : stage ≤ rules.max_stage
  pub pot : amount ≤ big_int rules.max_pot_amount
  pub in_time : now < round.risk_expires_at

pub assert_stage_and_duration_lem :
    (rules : RiskRules) (n expires_at now : ℕ) {m : ℕ}
    → assert_stage_and_duration rules (int n) expires_at now ≡ ok m
    → (0 < n) × (n ≤ rules.max_stage) × (now < expires_at)
unfolding assert_stage_and_duration
assert_stage_and_duration_lem rules n expires_at now h = ground arith

-- Tables whose active exposure keeps the limits of the rules on a wallet and on the treasury, and those of
-- the house on the exposure, the day's loss, the liquidity and the allowance. The house's counts by wallet and
-- by tier are for duels: the code asks for them with zero.
pub record IsWithin (config : Config) (rules : RiskRules) (player_wallet : Text) (now : ℕ)
    (db : Database) : Type 0 where
  pub snapshot : Snapshot
  pub recorded : db.snapshot ≡ some snapshot
  pub usable : IsUsable snapshot config now 6
  pub wallet : wallet_exposure_of player_wallet db ≤ big_int rules.max_wallet_exposure_amount
  pub treasury : active_exposure db ≤ big_int rules.max_treasury_exposure_amount
  pub house : active_exposure db ≤ config.max_total_exposure
  pub loss : daily_loss_of now db + active_exposure db ≤ config.daily_loss_limit
  pub liquidity : active_exposure db + config.minimum_liquidity ≤ big_int snapshot.balance_amount
  pub allowance : active_exposure db ≤ big_int snapshot.delegated_amount

-- Tables that show an admitted change and no other are within the limits.
pub IsAdmitted-IsWithin :
    (k : Text → Bool) (config : Config) (rules : RiskRules) (c : Change) (db db' : Database)
    → IsAdmitted k config rules c db
    → db'.snapshot ≡ db.snapshot
    → active_exposure db' ≡ total_after c db
    → wallet_exposure_of c.player_wallet db' ≡ wallet_after c db
    → daily_loss_of c.now db' ≡ daily_loss_of c.now db
    → IsWithin config rules c.player_wallet c.now db'
IsAdmitted-IsWithin k config rules c db db' a kept total wallet lost = record {
  snapshot = a.snapshot;
  recorded = kept ∙ a.recorded;
  usable = a.usable;
  wallet = omega (arith, wallet, a.wallet);
  treasury = omega (arith, total, a.treasury);
  house = omega (arith, total, a.treasury, a.house);
  loss = omega (arith, total, lost, a.loss);
  liquidity = omega (arith, total, a.liquidity);
  allowance = omega (arith, total, a.allowance);
}
