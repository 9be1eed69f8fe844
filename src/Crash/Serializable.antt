-- ===== src/Crash/Serializable.antt =====
-- apps/api/src/crash/crash-stage-state.ts: `runSerializable`, the loop around the transactions of a Crash
-- round. What the transaction of each attempt comes to, a value or the error that is thrown, is an argument.
pub mod Attempts
pub mod Tests
use dailydraft_fun.Prelude.{
  ℕ, zero, suc, ◌+◌, Bool, true, false, Option, none, some, if◌then◌else◌, Result, ok, err,
}
use dailydraft_fun.Js.Value.{Value}
use dailydraft_fun.Treasury.Admission.{should_retry}

-- What follows an attempt, given what the next ones come to.
abbrev pub settle_attempt {ℓ} :
    {A : Type ℓ} → Result Value A → ℕ → Option (Result Value A) → Option (Result Value A)
settle_attempt (ok a) attempt rest = some (ok a)
settle_attempt (err e) attempt rest = if should_retry e attempt then rest else some (err e)

-- `runSerializable`, from an attempt; `none` is a loop that the fuel does not end
unfoldable pub run_serializable {ℓ} :
    {A : Type ℓ} → (ℕ → Result Value A) → ℕ → ℕ → Option (Result Value A)
run_serializable transaction zero attempt = none
run_serializable transaction (suc fuel) attempt =
    let rest = run_serializable transaction fuel (attempt + 1) in
    settle_attempt (transaction attempt) attempt rest
