-- ===== src/Treasury/Reserve/Caps.antt =====
-- What a new house reservation leaves the treasury with.
use dailydraft_fun.Prelude.{
  ℕ, ◌+◌, ◌≤◌, ◌≡◌, refl, true, sym, ap, ◌∙◌, Bool, ◌⊎◌, inl, inr, Option, some, ◌∷◌, arith, sum_by,
  ok, from_bind, ok-injective, throw_if,
}
use dailydraft_fun.Prelude.Int.{pos, ◌+ℤ◌, pos-+ℤ}
use dailydraft_fun.Js.Text.{Text, text_eq_iff, text_eq_refl}
use dailydraft_fun.Js.Decimal.{big_int}
use dailydraft_fun.Js.Value.{int}
use dailydraft_fun.Treasury.Types.{Config, Snapshot, Reservation, Database}
use dailydraft_fun.Treasury.Limits.{Exposure, requested_exposure, RespectsLimits}
use dailydraft_fun.Treasury.Config.{Environment, read_config}
use dailydraft_fun.Treasury.Snapshot.{parse_stored_amount, sum_amounts, sum_amounts_lem, IsUsable}
use dailydraft_fun.Treasury.Admission.{record_admission}
use dailydraft_fun.Treasury.Reserve.{
  Input, Fresh, check_input, find_duel, same_exposure, active_amounts, wallet_active, tier_active,
  daily_losses, read_exposure, new_reservation, new_entry, reservation_exists, entry_exists,
  write_reservation, reserve_exposure,
}
use dailydraft_fun.Treasury.Reserve.Inversion.{Replays, Creates, reserve_exposure-cases}

-- What the house has at risk.
abbrev pub active_exposure : Database → ℕ
active_exposure db = sum_by big_int (active_amounts db)

-- What the house lost on the UTC day of a time.
abbrev pub daily_loss_of : ℕ → Database → ℕ
daily_loss_of now db = sum_by big_int (daily_losses now db)

-- The tables after a new reservation keep every cap, with the reservation counted in.
pub record IsCapped (c : Config) (fresh : Fresh) (input : Input) (db db' : Database) : Type 0 where
  pub tier : ℕ
  pub asked : input.tier ≡ int tier
  pub snapshot : Snapshot
  pub recorded : db'.snapshot ≡ some snapshot
  pub usable : IsUsable snapshot c fresh.evaluated_at input.decimals
  pub added : active_exposure db' ≡ active_exposure db + big_int input.amount
  pub wallet : wallet_active input.player_wallet db' ≤ c.max_active_per_wallet
  pub per_tier : tier_active tier db' ≤ c.max_concurrent_per_tier
  pub total : active_exposure db' ≤ c.max_total_exposure
  pub loss : daily_loss_of fresh.evaluated_at db' + active_exposure db' ≤ c.daily_loss_limit
  pub liquidity : active_exposure db' + c.minimum_liquidity ≤ big_int snapshot.balance_amount
  pub allowance : active_exposure db' ≤ big_int snapshot.delegated_amount

check_input-tier : (input : Input) {tier : ℕ} → check_input input ≡ ok tier → input.tier ≡ int tier
unfolding check_input
check_input-tier input h = ground arith

parse_stored_amount_lem : (t : Text) {n : ℕ} → parse_stored_amount t ≡ ok n → n ≡ big_int t
unfolding parse_stored_amount
parse_stored_amount_lem t h = ground arith

-- The figures of the decision are those of the tables.
record IsRead (input : Input) (tier now : ℕ) (s : Snapshot) (db : Database) (e : Exposure)
    : Type 0 where
  pub per_tier : e.active_per_tier ≡ tier_active tier db
  pub wallet : e.active_per_wallet ≡ wallet_active input.player_wallet db
  pub loss : e.daily_loss_amount ≡ daily_loss_of now db
  pub delegated : e.delegated_amount ≡ big_int s.delegated_amount
  pub requested : e.requested ≡ pos (big_int input.amount)
  pub total : e.total ≡ active_exposure db
  pub balance : e.verified_balance ≡ big_int s.balance_amount

read_exposure-IsRead :
    (input : Input) (tier now : ℕ) (s : Snapshot) (db : Database) {e : Exposure}
    → read_exposure input tier now s db ≡ ok e
    → IsRead input tier now s db e
unfolding read_exposure
read_exposure-IsRead input tier now s db h =
    from_bind (sum_amounts (active_amounts db)) _ h λ total total_eq h₁.
      from_bind (sum_amounts (daily_losses now db)) _ h₁ λ loss loss_eq h₂.
        from_bind (parse_stored_amount s.balance_amount) _ h₂ λ balance balance_eq h₃.
          from_bind (parse_stored_amount s.delegated_amount) _ h₃ λ delegated delegated_eq h₄.
            rw (← ok-injective h₄) (record {
              per_tier = refl;
              wallet = refl;
              loss = sum_amounts_lem _ loss_eq;
              delegated = parse_stored_amount_lem _ delegated_eq;
              requested = refl;
              total = sum_amounts_lem _ total_eq;
              balance = parse_stored_amount_lem _ balance_eq;
            })

-- The rows after the writes.
pub write_reservation_lem :
    (fresh : Fresh) (input : Input) (tier : ℕ) (db : Database) {db' : Database}
    → write_reservation fresh input tier db ≡ ok db'
    → (db'.reservations ≡ new_reservation fresh input tier ∷ db.reservations)
      × (db'.ledger ≡ new_entry fresh input tier ∷ db.ledger)
      × (db'.snapshot ≡ db.snapshot)
unfolding write_reservation record_admission
write_reservation_lem fresh input tier db h =
    from_bind (throw_if (reservation_exists fresh.reservation_id input.duel_id db.reservations) _) _
      h
      λ _ _ h₁.
        from_bind (throw_if (entry_exists (new_entry fresh input tier) db.ledger) _) _ h₁
          λ _ _ h₂. rw (← ok-injective h₂) (refl, refl, refl)

-- The queries on them.
write_reservation-queries :
    (fresh : Fresh) (input : Input) (tier now : ℕ) (db : Database) {db' : Database}
    → write_reservation fresh input tier db ≡ ok db'
    → (active_amounts db' ≡ input.amount ∷ active_amounts db)
      × (wallet_active input.player_wallet db' ≡ 1 + wallet_active input.player_wallet db)
      × (tier_active tier db' ≡ 1 + tier_active tier db)
      × (daily_losses now db' ≡ daily_losses now db)
unfolding active_amounts wallet_active tier_active daily_losses new_reservation new_entry
write_reservation-queries fresh input tier now db h =
    let (rows, entries, _) = write_reservation_lem fresh input tier db h in
    rw (rows, entries)
      (refl, ground (arith, text_eq_refl input.player_wallet), ground arith, ground arith)

-- The limits in natural numbers, for the exposure after the request.
pub RespectsLimits→ℕ :
    (c : Config) (e : Exposure) (after : ℕ)
    → requested_exposure e ≡ pos after
    → RespectsLimits c e
    → (e.daily_loss_amount + after ≤ c.daily_loss_limit)
      × (after ≤ c.max_total_exposure)
      × (after + c.minimum_liquidity ≤ e.verified_balance)
      × (after ≤ e.delegated_amount)
RespectsLimits→ℕ c e after sum r = (
  omega (arith, rw (sum, pos-+ℤ e.daily_loss_amount after) at r.loss),
  omega (arith, rw sum at r.exposure),
  omega (arith, rw (sum, pos-+ℤ after c.minimum_liquidity) at r.liquidity),
  omega (arith, rw sum at r.allowance),
)

pub Creates-IsCapped :
    (c : Config) (fresh : Fresh) (input : Input) (db : Database) {db' : Database}
    → Creates c fresh input db db'
    → IsCapped c fresh input db db'
Creates-IsCapped c fresh input db {db' = db'} creates =
    let admitted = creates.admitted in
    let read =
      read_exposure-IsRead input creates.tier fresh.evaluated_at admitted.snapshot db
        admitted.figures in
    let limits = admitted.limits in
    let (amounts, wallets, tiers, losses) =
      write_reservation-queries fresh input creates.tier fresh.evaluated_at db {db' = db'}
        creates.wrote in
    let (_, _, kept) =
      write_reservation_lem fresh input creates.tier db {db' = db'} creates.wrote in
    let (loss, total, liquidity, allowance) =
      RespectsLimits→ℕ c admitted.exposure (admitted.exposure.total + big_int input.amount)
        (ap (◌+ℤ◌ (pos admitted.exposure.total)) read.requested
          ∙ pos-+ℤ admitted.exposure.total (big_int input.amount))
        limits in
    let lost : daily_loss_of fresh.evaluated_at db' ≡ daily_loss_of fresh.evaluated_at db =
      ap (sum_by big_int) losses in
    let added : active_exposure db' ≡ active_exposure db + big_int input.amount =
      rw amounts (omega arith) in
    record {
      tier = creates.tier;
      asked = check_input-tier input creates.checked;
      snapshot = admitted.snapshot;
      recorded = kept ∙ admitted.recorded;
      usable = admitted.usable;
      added = added;
      wallet = omega (arith, wallets, read.wallet, limits.wallet);
      per_tier = omega (arith, tiers, read.per_tier, limits.tier);
      total = omega (arith, added, total, read.total);
      loss = omega (arith, added, lost, loss, read.loss, read.total);
      liquidity = omega (arith, added, liquidity, read.total, read.balance);
      allowance = omega (arith, added, allowance, read.total, read.delegated);
    }

-- The call found the reservation of its duel, at its first lookup or in the tables, with the same exposure, and
-- changed nothing.
pub record Finds (seen : Option Reservation) (input : Input) (db db' : Database) : Type 0 where
  pub row : Reservation
  pub found : (seen ≡ some row) ⊎ (find_duel input.duel_id db.reservations ≡ some row)
  pub same_amount : row.amount ≡ input.amount
  pub same_currency : row.currency ≡ input.currency
  pub same_decimals : row.decimals ≡ input.decimals
  pub same_wallet : row.player_wallet ≡ input.player_wallet
  pub same_tier : input.tier ≡ int row.tier
  pub unchanged : db' ≡ db

same_exposure-equal :
    (r : Reservation) (input : Input) (tier : ℕ)
    → same_exposure r input tier ≡ true
    → (r.amount ≡ input.amount)
      × (r.currency ≡ input.currency)
      × (r.decimals ≡ input.decimals)
      × (r.player_wallet ≡ input.player_wallet)
      × (r.tier ≡ tier)
unfolding same_exposure
same_exposure-equal r input tier h = ground (
  arith,
  text_eq_iff r.amount input.amount,
  text_eq_iff r.currency input.currency,
  text_eq_iff r.player_wallet input.player_wallet,
)

Replays-Finds :
    (seen : Option Reservation) (input : Input) (db : Database) {db' : Database}
    → Replays seen input db db'
    → Finds seen input db db'
Replays-Finds seen input db replays =
    let (amount, currency, decimals, wallet, tier) =
      same_exposure-equal replays.row input replays.tier replays.same in
    record {
      row = replays.row;
      found = replays.found;
      same_amount = amount;
      same_currency = currency;
      same_decimals = decimals;
      same_wallet = wallet;
      same_tier = check_input-tier input replays.checked ∙ ap int (sym tier);
      unchanged = replays.unchanged;
    }

-- A call that succeeds either finds the reservation of its duel with the same exposure and changes nothing, or
-- adds exactly its amount to the active exposure, and then the exposure with it keeps the total limit, the
-- day's loss limit, the liquidity that must stay, the delegated allowance of a usable snapshot, and the counts
-- of the wallet and of the tier asked for.
pub reserve_exposure-IsCapped :
    (k : Text → Bool) (env : Environment) (fresh : Fresh) (seen : Option Reservation)
    (input : Input) (db : Database) {db' : Database}
    → reserve_exposure k env fresh seen input db ≡ ok db'
    → Finds seen input db db' ⊎ IsCapped (read_config env) fresh input db db'
reserve_exposure-IsCapped k env fresh seen input db h =
    elim (reserve_exposure-cases k env fresh seen input db h) [
      | inl replays ↦ inl (Replays-Finds seen input db replays)
      | inr (_, creates) ↦ inr (Creates-IsCapped (read_config env) fresh input db creates)
    ]
