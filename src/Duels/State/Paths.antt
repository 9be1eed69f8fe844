-- ===== src/Duels/State/Paths.antt =====
-- Where the transitions of a duel lead.
use dailydraft_fun.Prelude.{◌≡◌, ◌⊎◌, inl, inr, refl, sym, ◌∙◌, true, none, some, []}
use mathlib.Core.Option.{some-injective}
use dailydraft_fun.Duels.State.{
  DuelStatus, waiting, matched, committing, funded, opening, awaiting_assets, settling, settled,
  cancelling, cancelled, refunding, refunded, failed, allowed_transitions, can_transition,
  recovery_status,
}

-- Allowed transitions, one after another.
pub data PathTo : DuelStatus → DuelStatus → Type 0 where
  here : {s : DuelStatus} → PathTo s s
  go_on : {s t : DuelStatus} (u : DuelStatus) → can_transition s u ≡ true → PathTo u t → PathTo s t

abbrev pub IsFinal : DuelStatus → Type 0
IsFinal s = allowed_transitions s ≡ []

-- The ends of a duel, one by one.
abbrev pub IsEnded : DuelStatus → Type 0
IsEnded s = (s ≡ settled) ⊎ (s ≡ cancelled) ⊎ (s ≡ refunded)

then_refunded :
    (s : DuelStatus) → can_transition s refunding ≡ true → (t : DuelStatus) × IsEnded t × PathTo s t
unfolding can_transition
then_refunded s h = (refunded, inr (inr refl), go_on refunding h (go_on refunded refl here))

then_cancelled :
    (s : DuelStatus) → can_transition s cancelled ≡ true → (t : DuelStatus) × IsEnded t × PathTo s t
then_cancelled s h = (cancelled, inr (inl refl), go_on cancelled h here)

leads_to_end : (s : DuelStatus) → (t : DuelStatus) × IsEnded t × PathTo s t
unfolding can_transition
leads_to_end waiting = then_cancelled waiting refl
leads_to_end matched = then_cancelled matched refl
leads_to_end committing = then_refunded committing refl
leads_to_end funded = then_refunded funded refl
leads_to_end opening = then_refunded opening refl
leads_to_end awaiting_assets = then_refunded awaiting_assets refl
leads_to_end settling = then_refunded settling refl
leads_to_end settled = (settled, inl refl, here)
leads_to_end cancelling = then_refunded cancelling refl
leads_to_end cancelled = (cancelled, inr (inl refl), here)
leads_to_end refunding = (refunded, inr (inr refl), go_on refunded refl here)
leads_to_end refunded = (refunded, inr (inr refl), here)
leads_to_end failed = then_refunded failed refl

final_stays : (s t : DuelStatus) → IsFinal s → PathTo s t → t ≡ s
unfolding can_transition
final_stays s t e here = refl
final_stays s t e (go_on u h p) = absurd (cc (rw e at h))

ended_stays : (s t : DuelStatus) → IsEnded s → PathTo s t → t ≡ s
ended_stays s t (inl e) p = final_stays s t (rw e refl) p
ended_stays s t (inr (inl e)) p = final_stays s t (rw e refl) p
ended_stays s t (inr (inr e)) p = final_stays s t (rw e refl) p

-- No duel is stuck and no end is left: from every status, the failed one included, allowed transitions lead
-- to settled, cancelled or refunded, and from these three they lead nowhere else.
pub paths_end :
    (s : DuelStatus)
    → ((t : DuelStatus) × IsEnded t × PathTo s t)
      × (IsEnded s → (t : DuelStatus) → PathTo s t → t ≡ s)
paths_end s = (leads_to_end s, λ e t p. ended_stays s t e p)

-- The recovery of a status goes where it may go.
abbrev Recovers : DuelStatus → Type 0
Recovers s =
    ((t : DuelStatus) → recovery_status s ≡ some t → can_transition s t ≡ true)
    × (recovery_status s ≡ none → IsFinal s ⊎ (s ≡ failed))

some-Recovers :
    (s r : DuelStatus) → recovery_status s ≡ some r → can_transition s r ≡ true → Recovers s
some-Recovers s r h k = (
  λ t e. let same : r ≡ t = some-injective _ _ (sym h ∙ e) in rw (← same) k,
  λ e. absurd (cc (sym h ∙ e)),
)

none-Recovers : (s : DuelStatus) → recovery_status s ≡ none → IsFinal s ⊎ (s ≡ failed) → Recovers s
none-Recovers s h k = (λ t e. absurd (cc (sym h ∙ e)), λ _. k)

-- The recovery from a failed transaction is an allowed transition, and only a final status or the failed
-- one has none.
pub recovery_status-can_transition :
    (s : DuelStatus)
    → ((t : DuelStatus) → recovery_status s ≡ some t → can_transition s t ≡ true)
      × (recovery_status s ≡ none → IsFinal s ⊎ (s ≡ failed))
unfolding recovery_status
recovery_status-can_transition waiting = some-Recovers waiting failed refl refl
recovery_status-can_transition matched = some-Recovers matched failed refl refl
recovery_status-can_transition committing = some-Recovers committing refunding refl refl
recovery_status-can_transition funded = some-Recovers funded refunding refl refl
recovery_status-can_transition opening = some-Recovers opening refunding refl refl
recovery_status-can_transition awaiting_assets = some-Recovers awaiting_assets refunding refl refl
recovery_status-can_transition settling = some-Recovers settling refunding refl refl
recovery_status-can_transition settled = none-Recovers settled refl (inl refl)
recovery_status-can_transition cancelling = some-Recovers cancelling failed refl refl
recovery_status-can_transition cancelled = none-Recovers cancelled refl (inl refl)
recovery_status-can_transition refunding = some-Recovers refunding failed refl refl
recovery_status-can_transition refunded = none-Recovers refunded refl (inl refl)
recovery_status-can_transition failed = none-Recovers failed refl (inr refl)
