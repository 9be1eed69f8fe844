-- ===== src/Duels/State.antt =====
-- apps/api/src/duels/duel-state.ts: the transitions between the statuses of a duel.
pub mod Paths
pub mod Tests
use dailydraft_fun.Prelude.{
  ℕ, Bool, true, false, ◌&&◌, ◌||◌, Option, none, some, List, [], ◌∷◌, ◌==◌, if◌then◌else◌,
}
use dailydraft_fun.Js.Text.{Text, text, text_eq}

pub data DuelStatus : Type 0 where
  waiting matched committing funded opening awaiting_assets settling settled : DuelStatus
  cancelling cancelled refunding refunded failed : DuelStatus

-- `ALLOWED_TRANSITIONS`
abbrev pub allowed_transitions : DuelStatus → List DuelStatus
allowed_transitions awaiting_assets = settling ∷ refunding ∷ failed ∷ []
allowed_transitions cancelled = []
allowed_transitions cancelling = cancelled ∷ refunding ∷ failed ∷ []
allowed_transitions committing = funded ∷ cancelled ∷ refunding ∷ failed ∷ []
allowed_transitions failed = refunding ∷ []
allowed_transitions funded = opening ∷ refunding ∷ failed ∷ []
allowed_transitions matched = committing ∷ cancelled ∷ failed ∷ []
allowed_transitions opening = awaiting_assets ∷ refunding ∷ failed ∷ []
allowed_transitions refunded = []
allowed_transitions refunding = refunded ∷ settling ∷ failed ∷ []
allowed_transitions settled = []
allowed_transitions settling = settled ∷ refunding ∷ failed ∷ []
allowed_transitions waiting = matched ∷ cancelled ∷ failed ∷ []

-- A number for each status, to compare them by.
abbrev pub tag : DuelStatus → ℕ
tag waiting = 0
tag matched = 1
tag committing = 2
tag funded = 3
tag opening = 4
tag awaiting_assets = 5
tag settling = 6
tag settled = 7
tag cancelling = 8
tag cancelled = 9
tag refunding = 10
tag refunded = 11
tag failed = 12

-- `from === to`
unfoldable pub status_eq : DuelStatus → DuelStatus → Bool
status_eq s t = tag s == tag t

-- `statuses.includes(status)`
unfoldable pub status_mem : DuelStatus → List DuelStatus → Bool
unfolding status_eq
status_mem s [] = false
status_mem s (t ∷ ts) = status_eq t s || status_mem s ts

-- `canTransition`
unfoldable pub can_transition : DuelStatus → DuelStatus → Bool
unfolding status_mem
can_transition s t = status_mem t (allowed_transitions s)

-- `recoveryStatusAfterTransactionFailure`
unfoldable pub recovery_status : DuelStatus → Option DuelStatus
unfolding can_transition
recovery_status s =
    if status_mem s (awaiting_assets ∷ committing ∷ funded ∷ opening ∷ settling ∷ [])
    then some refunding
    else if can_transition s failed
    then some failed
    else none

-- `isTransactionTransition`
unfoldable pub is_transaction_transition : Text → DuelStatus → DuelStatus → Bool
unfolding status_eq
is_transaction_transition action s t =
    if text_eq action (text "fund")
    then status_eq s committing && status_eq t funded
    else if text_eq action (text "settle")
    then status_eq s settling && status_eq t settled
    else if text_eq action (text "commit_result")
    then status_eq s awaiting_assets && status_eq t settling
    else if text_eq action (text "refund") && status_eq s refunding && status_eq t refunding
    then true
    else if text_eq action (text "refund")
    then status_eq s refunding && status_eq t refunded
    else if text_eq action (text "cancel")
    then status_eq s cancelling && status_eq t cancelled
    else false
