-- ===== src/Crash/Risk/Budget.antt =====
-- The contract of the exposure tables, as a budget: one number below a limit. The calls of
-- apps/api/src/treasury/house-treasury.policy.ts and apps/api/src/crash/crash-risk.policy.ts, which share
-- the tables and the lock, are steps of it.
use dailydraft_fun.Prelude.{
  ℕ, ◌+◌, ◌≤◌, ◌≡◌, refl, sym, ap, ◌∙◌, Bool, true, false, ◌⊎◌, inl, inr, arith, ok,
}
use dailydraft_fun.Js.Decimal.{big_int}
use dailydraft_fun.Treasury.Types.{Error, tier_disabled, Database}
use dailydraft_fun.Treasury.Config.{read_config}
use dailydraft_fun.Treasury.Admission.{record_admission, persist_failure, persist_failure_safely}
use dailydraft_fun.Treasury.Reserve.{active_amounts}
use dailydraft_fun.Treasury.Reserve.Inversion.{reserve_exposure-cases}
use dailydraft_fun.Treasury.Reserve.Caps.{active_exposure, Creates-IsCapped}
use dailydraft_fun.Treasury.Reserve.Reach as Treasury
use dailydraft_fun.Crash.Risk.Types.{RoundBinding}
use dailydraft_fun.Crash.Risk.Rows.{Fresh}
use dailydraft_fun.Crash.Risk.Operations.{
  Service, ReserveInput, reserve_round, release_terminal, TransitionInput, apply_transition,
}
use dailydraft_fun.Crash.Risk.Release.{release_terminal-exposure}
use dailydraft_fun.Crash.Risk.Caps.Reserve.{reserve_round-IsWithin}
use dailydraft_fun.Crash.Risk.Caps.Transition.{apply_transition-Applies, apply_transition-IsWithin}

-- The abstract machine: keep the total, hold more of it, replace a part, or free a part. What grows stays
-- within the limit.
pub data BudgetStep (limit total total' : ℕ) : Type 0 where
  keep : total' ≡ total → BudgetStep limit total total'
  hold : (amount : ℕ) → total' ≡ total + amount → total' ≤ limit → BudgetStep limit total total'
  replace :
      (old new : ℕ) → total' + old ≡ total + new → total' ≤ limit → BudgetStep limit total total'
  free : (amount : ℕ) → total' + amount ≡ total → BudgetStep limit total total'

pub data BudgetRun (limit : ℕ) : ℕ → ℕ → Type 0 where
  start : {total : ℕ} → BudgetRun limit total total
  then_step : {a b c : ℕ} → BudgetRun limit a b → BudgetStep limit b c → BudgetRun limit a c

BudgetStep-le :
    (limit total total' : ℕ) → BudgetStep limit total total' → total ≤ limit → total' ≤ limit
BudgetStep-le limit total total' (keep e) h = omega arith
BudgetStep-le limit total total' (hold amount e small) h = small
BudgetStep-le limit total total' (replace old new e small) h = small
BudgetStep-le limit total total' (free amount e) h = omega arith

pub BudgetRun-le : {limit a b : ℕ} → BudgetRun limit a b → a ≤ limit → b ≤ limit
BudgetRun-le start h = h
BudgetRun-le (then_step run step) h = BudgetStep-le _ _ _ step (BudgetRun-le run h)

-- One transaction on the tables: a call for a duel, or a call for a Crash round that commits. Its callers
-- in apps/api/src/crash/crash-stage-state.ts end every round that does not accept risk.
pub data Step (s : Service) : Database → Database → Type 0 where
  duel_call : {a b : Database} → Treasury.Step s.is_public_key s.environment a b → Step s a b
  round_reserved :
      (fresh : Fresh) (input : ReserveInput) {a b : Database}
      → reserve_round s fresh input a ≡ ok b
      → Step s a b
  round_moved :
      (fresh : Fresh) (input : TransitionInput) {a b : Database}
      → (input.accepts_risk ≡ true) ⊎ (input.terminal ≡ true)
      → apply_transition s fresh input a ≡ ok b
      → Step s a b
  round_released :
      (fresh : Fresh) (now : ℕ) (round : RoundBinding) (stage : ℕ) {a b : Database}
      → release_terminal fresh now round stage a ≡ ok b
      → Step s a b

pub data Steps (s : Service) : Database → Database → Type 0 where
  stop : {a : Database} → Steps s a a
  go_on : {a b c : Database} → Steps s a b → Step s b c → Steps s a c

persist_failure_safely-exposure :
    (lost : Bool) (error : Error) (db : Database)
    → active_exposure (persist_failure_safely lost error db) ≡ active_exposure db
unfolding persist_failure_safely persist_failure record_admission active_amounts
persist_failure_safely-exposure true error db = refl
persist_failure_safely-exposure false (tier_disabled status tier reason boundary evaluated_at) db =
    refl
persist_failure_safely-exposure false _ db = refl

-- What the budget of the house allows.
abbrev pub house_limit : Service → ℕ
house_limit s = (read_config s.environment).max_total_exposure

release_budget :
    (limit : ℕ) (fresh : Fresh) (now : ℕ) (round : RoundBinding) (stage : ℕ) (a b : Database)
    → release_terminal fresh now round stage a ≡ ok b
    → BudgetStep limit (active_exposure a) (active_exposure b)
release_budget limit fresh now round stage a b h =
    let (row, _, outcome) = release_terminal-exposure fresh now round stage a {db' = b} h in
    elim outcome [
      | inl (_, same) ↦ keep (ap active_exposure same)
      | inr (_, _, _, freed) ↦ free (big_int row.amount) freed
    ]

duel_budget :
    (s : Service) {a b : Database}
    → Treasury.Step s.is_public_key s.environment a b
    → BudgetStep (house_limit s) (active_exposure a) (active_exposure b)
duel_budget s (Treasury.reserve_commits fresh seen input {db} h) =
    elim (reserve_exposure-cases s.is_public_key s.environment fresh seen input db h) [
      | inl replays ↦ keep (ap active_exposure replays.unchanged)
      | inr (_, creates) ↦
          let capped = Creates-IsCapped (read_config s.environment) fresh input db creates in
          hold (big_int input.amount) capped.added capped.total
    ]
duel_budget s (Treasury.reserve_fails fresh seen input lost {db} {error} h) =
    keep (persist_failure_safely-exposure lost error db)

moved_budget :
    (s : Service) (fresh : Fresh) (input : TransitionInput) (a b : Database)
    → (input.accepts_risk ≡ true) ⊎ (input.terminal ≡ true)
    → apply_transition s fresh input a ≡ ok b
    → BudgetStep (house_limit s) (active_exposure a) (active_exposure b)
moved_budget s fresh input a b guarded h =
    elim (apply_transition-Applies s fresh input a {db' = b} h).outcome [
      | inl (_, _, same) ↦ keep (ap active_exposure same)
      | inr (inl (_, released)) ↦
          release_budget (house_limit s) fresh input.now input.round input.next_stage a b released
      | inr (inr (goes, _, _)) ↦ elim guarded [
        | inl accepts ↦
            let (_, amount, row, _, _, _, total, _, _, within) =
              apply_transition-IsWithin s fresh input a {db' = b} goes h in
            replace (big_int row.amount) amount total (within accepts).1.house
        | inr ends ↦ absurd (cc (sym goes ∙ ends))
      ]
    ]

-- Every transaction on the tables is a step of the budget.
Step-budget :
    (s : Service) {a b : Database}
    → Step s a b
    → BudgetStep (house_limit s) (active_exposure a) (active_exposure b)
Step-budget s (duel_call step) = duel_budget s step
Step-budget s (round_reserved fresh input {a} {b} h) =
    elim (reserve_round-IsWithin s fresh input a {db' = b} h) [
      | inl finds ↦ keep (ap active_exposure finds.unchanged)
      | inr (_, requested, _, _, _, _, total, _, _, within) ↦ hold requested total within.house
    ]
Step-budget s (round_moved fresh input {a} {b} guarded h) = moved_budget s fresh input a b guarded h
Step-budget s (round_released fresh now round stage {a} {b} h) =
    release_budget (house_limit s) fresh now round stage a b h

-- The tables refine the budget: however the calls for duels and the committed calls for Crash rounds follow
-- each other under one configuration, where a transition that does not accept risk is terminal, each does to
-- the active exposure what a step of the budget may do, so that exposure within the total limit stays
-- within it.
pub Steps-refines :
    (s : Service) {a b : Database}
    → Steps s a b
    → BudgetRun (house_limit s) (active_exposure a) (active_exposure b)
      × (active_exposure a ≤ house_limit s → active_exposure b ≤ house_limit s)
Steps-refines s stop = (start, λ h. h)
Steps-refines s (go_on before step) =
    let (run, _) = Steps-refines s before in
    let whole = then_step run (Step-budget s step) in (whole, BudgetRun-le whole)
