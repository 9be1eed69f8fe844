-- ===== src/Treasury/Admission.antt =====
-- apps/api/src/treasury/house-treasury.policy.ts: the recorded admission state of a tier, which is
-- written by transactions that may commit in any order, and the retry rule of its callers.
use dailydraft_fun.Prelude.{
  ℕ, ◌+◌, ◌<◌, ◌≡◌, ◌⊎◌, Bool, true, false, ◌&&◌, Option, none, some, List, [], ◌∷◌, arith, leb,
  ◌==◌, if◌then◌else◌,
}
use dailydraft_fun.Js.Text.{text}
use dailydraft_fun.Js.Value.{Value, get, is_text, as_object}
use dailydraft_fun.Treasury.Types.{
  Reason, Boundary, HttpStatus, Error, tier_disabled, AdmissionState, Database, reenable_boundary,
}

-- The parameter of `recordHouseTierAdmissionState`.
pub record AdmissionWrite : Type 0 where
  pub tier : ℕ
  pub disabled : Bool
  pub reason : Option Reason
  pub boundary : Option Boundary
  pub evaluated_at : ℕ

-- `disableHouseTier`
abbrev pub disable_tier : HttpStatus → ℕ → Reason → ℕ → Error
disable_tier status tier reason evaluated_at =
    tier_disabled status tier reason (reenable_boundary reason) evaluated_at

-- `ON CONFLICT ("tier") DO UPDATE … WHERE "evaluatedAt" <= EXCLUDED."evaluatedAt"`
unfoldable pub overwrite : AdmissionWrite → AdmissionState → AdmissionState
overwrite w s =
    if leb s.evaluated_at w.evaluated_at
    then record {
      tier = s.tier;
      disabled = w.disabled;
      reason = w.reason;
      boundary = w.boundary;
      evaluated_at = w.evaluated_at;
      version = s.version + 1;
    }
    else s

-- The row that `INSERT` makes.
unfoldable pub first_state : AdmissionWrite → AdmissionState
first_state w = record {
  tier = w.tier;
  disabled = w.disabled;
  reason = w.reason;
  boundary = w.boundary;
  evaluated_at = w.evaluated_at;
  version = 1;
}

unfoldable pub upsert : AdmissionWrite → List AdmissionState → List AdmissionState
unfolding overwrite first_state
upsert w [] = first_state w ∷ []
upsert w (s ∷ ss) = if s.tier == w.tier then overwrite w s ∷ ss else s ∷ upsert w ss

-- `recordHouseTierAdmissionState`
unfoldable pub record_admission : AdmissionWrite → Database → Database
unfolding upsert
record_admission w db = record db { admissions = upsert w db.admissions }

-- `persistHouseTierAdmissionFailure`
unfoldable pub persist_failure : Error → Database → Bool × Database
unfolding record_admission
persist_failure (tier_disabled status tier reason boundary evaluated_at) db = (
  true,
  record_admission
      (record {
        tier = tier;
        disabled = true;
        reason = some reason;
        boundary = boundary;
        evaluated_at = evaluated_at;
      })
      db,
)
persist_failure _ db = (false, db)

-- `persistHouseTierAdmissionFailureSafely`, given whether its own transaction fails
unfoldable pub persist_failure_safely : Bool → Error → Database → Database
unfolding persist_failure
persist_failure_safely true error db = db
persist_failure_safely false error db = (persist_failure error db).1

-- `error.cause.originalCode === '40001' && error.cause.kind === 'TransactionWriteConflict'`
unfoldable pub is_write_conflict : Value → Bool
is_write_conflict cause = elim (as_object cause) [
  | none ↦ false
  | some fields ↦
      is_text (text "40001") (get (text "originalCode") fields)
      && is_text (text "TransactionWriteConflict") (get (text "kind") fields)
]

-- `shouldRetryTreasuryTransaction`
unfoldable pub should_retry : Value → ℕ → Bool
unfolding is_write_conflict
should_retry error attempt = if leb 3 attempt then false else elim (as_object error) [
  | none ↦ false
  | some fields ↦
      if is_text (text "P2034") (get (text "code") fields)
      then true
      else is_write_conflict (get (text "cause") fields)
]

-- The state of a tier, if one is recorded.
unfoldable pub find_state : ℕ → List AdmissionState → Option AdmissionState
find_state tier [] = none
find_state tier (s ∷ ss) = if s.tier == tier then some s else find_state tier ss

-- What a reader of the state sees: all but the version.
abbrev pub View : Type 0
View = Option (Bool × Option Reason × Option Boundary × ℕ)

unfoldable pub view : Option AdmissionState → View
view none = none
view (some s) = some (s.disabled, s.reason, s.boundary, s.evaluated_at)

-- The row of a tier after a write.
abbrev written : AdmissionWrite → Option AdmissionState → AdmissionState
written w none = first_state w
written w (some s) = overwrite w s

-- A write reaches the row of its own tier and no other.
pub find_state-upsert :
    (t : ℕ) (w : AdmissionWrite) (ss : List AdmissionState)
    → find_state t (upsert w ss)
      ≡ (if w.tier == t then some (written w (find_state t ss)) else find_state t ss)
unfolding upsert find_state overwrite first_state
find_state-upsert t w [] = ground arith
find_state-upsert t w (s ∷ ss) = ground (arith, find_state-upsert t w ss)

-- What a reader sees of a write.
abbrev pub seen_of : AdmissionWrite → View
seen_of w = some (w.disabled, w.reason, w.boundary, w.evaluated_at)

-- The write is what a reader sees, unless a state that was evaluated later was there before.
abbrev pub Prevails : AdmissionWrite → Option AdmissionState → View → Type 0
Prevails w before after =
    (after ≡ seen_of w)
    ⊎ ((s : AdmissionState) × (before ≡ some s)
        × (w.evaluated_at < s.evaluated_at)
        × (after ≡ view (some s)))
