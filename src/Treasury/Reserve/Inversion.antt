-- ===== src/Treasury/Reserve/Inversion.antt =====
-- What a successful call of `reserveHouseExposure` went through.
use dailydraft_fun.Prelude.{
  ℕ, ◌≡◌, refl, sym, Bool, true, false, not, ◌⊎◌, inl, inr, Option, none, some, List, [], ◌∷◌,
  arith, ltb, if◌then◌else◌, length, select, ok, err, from_bind, ok-injective, throw_if,
  throw_if-eq-ok, require, require-eq-ok,
}
use dailydraft_fun.Js.Text.{Text}
use dailydraft_fun.Treasury.Types.{Config, Snapshot, Reason, conflict, Reservation, Database}
use dailydraft_fun.Treasury.Limits.{Exposure, RespectsLimits, evaluate_limits_iff}
use dailydraft_fun.Treasury.Config.{Environment, read_config, ConfigError, config_errors}
use dailydraft_fun.Treasury.Snapshot.{snapshot_is_usable, IsUsable, snapshot_is_usable_iff}
use dailydraft_fun.Treasury.Reserve.{
  Input, Fresh, check_input, find_duel, same_exposure, assert_exact_replay, is_unresolved,
  is_paused, read_exposure, refuse_if, admit, write_reservation, is_nil, reserve_locked,
  reserve_exposure,
}

-- A new reservation was admitted on these grounds.
pub record Admitted (config : Config) (fresh : Fresh) (input : Input) (tier : ℕ) (db : Database)
    : Type 0 where
  pub snapshot : Snapshot
  pub exposure : Exposure
  pub recorded : db.snapshot ≡ some snapshot
  pub usable : IsUsable snapshot config fresh.evaluated_at input.decimals
  pub figures : read_exposure input tier fresh.evaluated_at snapshot db ≡ ok exposure
  pub limits : RespectsLimits config exposure
  pub running : is_paused db.paused ≡ false
  pub reconciled : length (select is_unresolved db.discrepancies) ≡ 0

refuse_if-eq-ok :
    (reason : Option Reason) (tier now : ℕ) → refuse_if reason tier now ≡ ok tt → reason ≡ none
refuse_if-eq-ok none tier now h = refl
refuse_if-eq-ok (some r) tier now h = cc

pub admit-Admitted :
    (config : Config) (fresh : Fresh) (input : Input) (tier : ℕ) (db : Database) {u : Unit {0}}
    → admit config fresh input tier db ≡ ok u
    → Admitted config fresh input tier db
unfolding admit
admit-Admitted config fresh input tier db h =
    from_bind (throw_if (is_paused db.paused) _) _ h λ _ running h₁.
      from_bind (throw_if (ltb 0 (length (select is_unresolved db.discrepancies))) _) _ h₁
        λ _ reconciled h₂. from_bind (require db.snapshot _) _ h₂ λ snapshot recorded h₃.
          from_bind
            (throw_if (not (snapshot_is_usable snapshot config fresh.evaluated_at input.decimals))
              _)
            _ h₃
            λ _ usable h₄.
              from_bind (read_exposure input tier fresh.evaluated_at snapshot db) _ h₄
                λ exposure figures h₅. record {
                  snapshot = snapshot;
                  exposure = exposure;
                  recorded = require-eq-ok _ _ recorded;
                  usable =
                      (snapshot_is_usable_iff _ _ _ _).0
                        (ground (arith, throw_if-eq-ok _ _ usable));
                  figures = figures;
                  limits = (evaluate_limits_iff _ _).0 (refuse_if-eq-ok _ _ _ h₅);
                  running = throw_if-eq-ok _ _ running;
                  reconciled = ground (arith, throw_if-eq-ok _ _ reconciled);
                }

-- What a call that created a reservation found and did.
pub record Creates (config : Config) (fresh : Fresh) (input : Input) (db db' : Database)
    : Type 0 where
  pub tier : ℕ
  pub checked : check_input input ≡ ok tier
  pub first : find_duel input.duel_id db.reservations ≡ none
  pub admitted : Admitted config fresh input tier db
  pub wrote : write_reservation fresh input tier db ≡ ok db'

-- What a call that found its reservation saw, before the lock or under it.
pub record Replays (seen : Option Reservation) (input : Input) (db db' : Database) : Type 0 where
  pub tier : ℕ
  pub row : Reservation
  pub checked : check_input input ≡ ok tier
  pub found : (seen ≡ some row) ⊎ (find_duel input.duel_id db.reservations ≡ some row)
  pub same : same_exposure row input tier ≡ true
  pub unchanged : db' ≡ db

assert_exact_replay-cases :
    (found : Option Reservation) (input : Input) (tier : ℕ) {replayed : Bool}
    → assert_exact_replay found input tier ≡ ok replayed
    → ((row : Reservation) × (replayed ≡ true)
        × (found ≡ some row)
        × (same_exposure row input tier ≡ true))
      ⊎ ((replayed ≡ false) × (found ≡ none))
unfolding assert_exact_replay
assert_exact_replay-cases none input tier h = inr (sym (ok-injective h), refl)
assert_exact_replay-cases (some r) input tier {replayed} h =
    inl (go (same_exposure r input tier) refl h)
  where
    go :
        (same : Bool)
        → same_exposure r input tier ≡ same
        → (if same then ok true else err conflict) ≡ ok replayed
        → (row : Reservation) × (replayed ≡ true)
          × (some r ≡ some row)
          × (same_exposure row input tier ≡ true)
    go true e k = (r, sym (ok-injective k), refl, e)
    go false e k = cc

reserve_locked-cases :
    (config : Config) (fresh : Fresh) (seen : Option Reservation) (input : Input) (tier : ℕ)
    (db : Database) {db' : Database}
    → check_input input ≡ ok tier
    → reserve_locked config fresh input tier db ≡ ok db'
    → Replays seen input db db' ⊎ Creates config fresh input db db'
unfolding reserve_locked
reserve_locked-cases config fresh seen input tier db checked h =
    from_bind (assert_exact_replay (find_duel input.duel_id db.reservations) input tier) _ h
      λ replayed replay h₁. elim (assert_exact_replay-cases _ input tier replay) [
        | inl (row, again, found, same) ↦ inl (record {
          tier = tier;
          row = row;
          checked = checked;
          found = inr found;
          same = same;
          unchanged = sym (ok-injective (rw again at h₁));
        })
        | inr (fails, first) ↦
            from_bind (admit config fresh input tier db) _ (rw fails at h₁) λ _ admitted wrote.
              inr (record {
                tier = tier;
                checked = checked;
                first = first;
                admitted = admit-Admitted config fresh input tier db admitted;
                wrote = wrote;
              })
      ]

-- A successful call found its reservation or created it.
pub reserve_exposure-cases :
    (k : Text → Bool) (env : Environment) (fresh : Fresh) (seen : Option Reservation)
    (input : Input) (db : Database) {db' : Database}
    → reserve_exposure k env fresh seen input db ≡ ok db'
    → Replays seen input db db'
      ⊎ ((config_errors k (read_config env) ≡ []) × Creates (read_config env) fresh input db db')
unfolding reserve_exposure
reserve_exposure-cases k env fresh seen input db h =
    from_bind (check_input input) _ h λ tier checked h₁.
      from_bind (assert_exact_replay seen input tier) _ h₁ λ replayed replay h₂.
        elim (assert_exact_replay-cases seen input tier replay) [
          | inl (row, again, found, same) ↦ inl (record {
            tier = tier;
            row = row;
            checked = checked;
            found = inl found;
            same = same;
            unchanged = sym (ok-injective (rw again at h₂));
          })
          | inr (fails, _) ↦
              from_bind (throw_if (not (is_nil (config_errors k (read_config env)))) _) _
                (rw fails at h₂)
                λ _ ready h₃.
                  elim (reserve_locked-cases (read_config env) fresh seen input tier db checked
                    h₃) [
                      | inl replays ↦ inl replays
                      | inr creates ↦ inr (is_nil-nil _ (throw_if-eq-ok _ _ ready), creates)
                    ]
        ]
  where
    is_nil-nil : (es : List ConfigError) → not (is_nil es) ≡ false → es ≡ []
    is_nil-nil [] h = refl
    is_nil-nil (e ∷ es) h = cc
