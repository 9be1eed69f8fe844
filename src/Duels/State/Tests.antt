-- ===== src/Duels/State/Tests.antt =====
-- The theorems on the statuses of a duel at concrete statuses.
use dailydraft_fun.Prelude.{◌≡◌, ◌⊎◌, refl, true, none, some}
use dailydraft_fun.Js.Text.{text, text_eq}
use dailydraft_fun.Duels.State.{
  DuelStatus, opening, failed, can_transition, recovery_status, is_transaction_transition, settling,
  settled,
}
use dailydraft_fun.Duels.State.Paths.{
  PathTo, IsEnded, IsFinal, paths_end, recovery_status-can_transition,
}

settle-run : is_transaction_transition (text "settle") settling settled ≡ true
unfolding is_transaction_transition text_eq
settle-run = refl

paths_end_example :
    ((t : DuelStatus) × IsEnded t × PathTo opening t)
    × (IsEnded opening → (t : DuelStatus) → PathTo opening t → t ≡ opening)
paths_end_example = paths_end opening

recovery_status-can_transition_example :
    ((t : DuelStatus) → recovery_status opening ≡ some t → can_transition opening t ≡ true)
    × (recovery_status opening ≡ none → IsFinal opening ⊎ (opening ≡ failed))
recovery_status-can_transition_example = recovery_status-can_transition opening
