-- ===== src/Crash/Serializable/Attempts.antt =====
-- How many attempts the loop makes, and which one it returns.
use dailydraft_fun.Prelude.{
  ℕ, zero, suc, ◌+◌, ◌≤◌, ◌<◌, ◌≡◌, ◌∙◌, ◌⊎◌, refl, sym, ap, inl, inr, true, false, ◌==◌, leb, ltb,
  Bool-cases, Option, none, some, arith, if◌then◌else◌, Result, ok, err,
}
use dailydraft_fun.Js.Text.{Text, text, text_eq_iff, text_eq_refl}
use dailydraft_fun.Js.Value.{
  Value, undefined, null, bool, num, str, arr, obj, Fields, get, is_text, as_object,
}
use dailydraft_fun.Treasury.Admission.{is_write_conflict, should_retry}
use dailydraft_fun.Crash.Serializable.{settle_attempt, run_serializable}

-- An error of the database that tells a write conflict, by its code or by its cause.
abbrev pub IsConflict : Value → Type 0
IsConflict error =
    (fields : Fields) × (error ≡ obj fields)
    × ((get (text "code") fields ≡ str (text "P2034"))
        ⊎ ((cause : Fields) × (get (text "cause") fields ≡ obj cause)
            × (get (text "originalCode") cause ≡ str (text "40001"))
            × (get (text "kind") cause ≡ str (text "TransactionWriteConflict"))))

-- The attempt failed with a write conflict.
abbrev pub IsRetried {ℓ} : {A : Type ℓ} → Result Value A → Type 0
IsRetried (ok a) = ⊥
IsRetried (err e) = IsConflict e

-- The attempt succeeded, or failed with no write conflict, or was the third.
abbrev pub IsLast {ℓ} : {A : Type ℓ} → Result Value A → ℕ → Type 0
IsLast (ok a) attempt = Unit
IsLast (err e) attempt = ¬ IsConflict e ⊎ (attempt ≡ 3)

is_text-eq : (t : Text) (v : Value) → is_text t v ≡ true → v ≡ str t
unfolding is_text
is_text-eq t (str s) h = ap str ((text_eq_iff s t).0 h)
is_text-eq t undefined h = cc
is_text-eq t null h = cc
is_text-eq t (bool b) h = cc
is_text-eq t (num n) h = cc
is_text-eq t (arr vs) h = cc
is_text-eq t (obj fs) h = cc

is_text_refl : (t : Text) (v : Value) → v ≡ str t → is_text t v ≡ true
unfolding is_text
is_text_refl t v e = rw (e, text_eq_refl t) refl

is_write_conflict-fields :
    (v : Value)
    → is_write_conflict v ≡ true
    → (cause : Fields) × (v ≡ obj cause)
      × (get (text "originalCode") cause ≡ str (text "40001"))
      × (get (text "kind") cause ≡ str (text "TransactionWriteConflict"))
unfolding is_write_conflict
is_write_conflict-fields (obj fs) h = (
  fs,
  refl,
  is_text-eq _ (get (text "originalCode") fs) (ground (arith, h)),
  is_text-eq _ (get (text "kind") fs) (ground (arith, h)),
)
is_write_conflict-fields undefined h = cc
is_write_conflict-fields null h = cc
is_write_conflict-fields (bool b) h = cc
is_write_conflict-fields (num n) h = cc
is_write_conflict-fields (str t) h = cc
is_write_conflict-fields (arr vs) h = cc

fields-is_write_conflict :
    (v : Value) (cause : Fields)
    → v ≡ obj cause
    → get (text "originalCode") cause ≡ str (text "40001")
    → get (text "kind") cause ≡ str (text "TransactionWriteConflict")
    → is_write_conflict v ≡ true
unfolding is_write_conflict
fields-is_write_conflict v cause e code kind =
    rw e (rw (is_text_refl _ _ code, is_text_refl _ _ kind) refl)

-- The tests of the rule, without the number of the attempt.
IsConflict-of :
    (error : Value)
    → (elim (as_object error) [
      | none ↦ false
      | some fields ↦
          if is_text (text "P2034") (get (text "code") fields)
          then true
          else is_write_conflict (get (text "cause") fields)
    ])
      ≡ true
    → IsConflict error
IsConflict-of (obj fs) h = elim (Bool-cases (is_text (text "P2034") (get (text "code") fs))) [
  | inl own ↦ (fs, refl, inl (is_text-eq _ _ own))
  | inr other ↦ (fs, refl, inr (is_write_conflict-fields _ (rw other at h)))
]
IsConflict-of undefined h = cc
IsConflict-of null h = cc
IsConflict-of (bool b) h = cc
IsConflict-of (num n) h = cc
IsConflict-of (str t) h = cc
IsConflict-of (arr vs) h = cc

-- What the retry rule says.
should_retry-IsConflict :
    (error : Value) (attempt : ℕ)
    → should_retry error attempt ≡ true
    → (attempt < 3) × IsConflict error
unfolding should_retry
should_retry-IsConflict error attempt h = elim (Bool-cases (leb 3 attempt)) [
  | inl late ↦ absurd (cc (rw late at h))
  | inr early ↦ (ground arith, IsConflict-of error (rw early at h))
]

IsConflict-should_retry :
    (error : Value) (attempt : ℕ)
    → attempt < 3
    → IsConflict error
    → should_retry error attempt ≡ true
unfolding should_retry
IsConflict-should_retry error attempt early (fields, e, told) =
    let in_time : leb 3 attempt ≡ false = ground arith in
    rw (in_time, e)
      (elim told [
        | inl code ↦ rw (is_text_refl _ _ code) refl
        | inr (cause, same, code, kind) ↦
            let conflict =
              fields-is_write_conflict (get (text "cause") fields) cause same code kind in
            elim (Bool-cases (is_text (text "P2034") (get (text "code") fields))) [
              | inl own ↦ rw own refl
              | inr other ↦ rw other conflict
            ]
      ])

-- The attempts from `first` to `last`: the loop returns the last, which is at most the third, and each of the
-- others failed with a write conflict.
pub record Ends {ℓ} {A : Type ℓ} (transaction : ℕ → Result Value A) (first : ℕ)
    (result : Option (Result Value A)) : Type ℓ where
  pub last : ℕ
  pub from_first : first ≤ last
  pub at_most_three : last ≤ 3
  pub retried : (i : ℕ) → first ≤ i → i < last → IsRetried (transaction i)
  pub ends : IsLast (transaction last) last
  pub returned : result ≡ some (transaction last)

IsRetried-here {ℓ} :
    {A : Type ℓ} (transaction : ℕ → Result Value A) (attempt i : ℕ) (x : Value)
    → transaction attempt ≡ err x
    → IsConflict x
    → i ≡ attempt
    → IsRetried (transaction i)
IsRetried-here transaction attempt i x e conflict same = rw (same, e) conflict

-- A failure that is not tried again is no write conflict, or is the third.
IsLast-stopped :
    (x : Value) (attempt : ℕ)
    → attempt ≤ 3
    → should_retry x attempt ≡ false
    → ¬ IsConflict x ⊎ (attempt ≡ 3)
IsLast-stopped x attempt few stops = elim (Bool-cases (ltb attempt 3)) [
  | inl early ↦ inl (λ conflict.
      absurd (cc (sym stops ∙ IsConflict-should_retry x attempt (ground arith) conflict)))
  | inr third ↦ inr (ground arith)
]

-- An attempt, before what the next ones come to.
settle_attempt-Ends {ℓ} :
    {A : Type ℓ} (transaction : ℕ → Result Value A) (attempt : ℕ) (m : Result Value A)
    (rest : Option (Result Value A))
    → transaction attempt ≡ m
    → attempt ≤ 3
    → (attempt < 3 → Ends transaction (attempt + 1) rest)
    → Ends transaction attempt (settle_attempt m attempt rest)
settle_attempt-Ends transaction attempt (ok a) rest e few next = record {
  last = attempt;
  from_first = omega arith;
  at_most_three = few;
  retried = λ i low high. absurd (omega arith);
  ends = rw e tt;
  returned = rw e refl;
}
settle_attempt-Ends transaction attempt (err x) rest e few next =
    elim (Bool-cases (should_retry x attempt)) [
      | inr stops ↦ rw stops (record {
        last = attempt;
        from_first = omega arith;
        at_most_three = few;
        retried = λ i low high. absurd (omega arith);
        ends = rw e (IsLast-stopped x attempt few stops);
        returned = rw e refl;
      })
      | inl again ↦
          let later = next ((should_retry-IsConflict x attempt again).0) in
          rw again (record {
            last = later.last;
            from_first = omega (arith, later.from_first);
            at_most_three = later.at_most_three;
            retried = λ i low high. elim (Bool-cases (i == attempt)) [
              | inl here ↦
                  IsRetried-here transaction attempt i x e
                    (should_retry-IsConflict x attempt again).1 (ground arith)
              | inr after ↦ later.retried i (ground arith) high
            ];
            ends = later.ends;
            returned = later.returned;
          })
    ]

run_serializable_lem {ℓ} :
    {A : Type ℓ} (transaction : ℕ → Result Value A) (fuel attempt : ℕ)
    → attempt ≤ 3
    → 3 < fuel + attempt
    → Ends transaction attempt (run_serializable transaction fuel attempt)
unfolding run_serializable
run_serializable_lem transaction zero attempt few enough = absurd (omega arith)
run_serializable_lem transaction (suc fuel) attempt few enough =
    settle_attempt-Ends transaction attempt (transaction attempt) _ refl few
      λ more. run_serializable_lem transaction fuel (attempt + 1) (omega arith) (omega arith)

-- However the transactions come out, three turns are enough for the loop to end: it makes at most three
-- attempts, each but the last of which failed with a write conflict, and returns what the last came to, which
-- is a value, or an error that tells no write conflict, or the error of the third.
pub run_serializable-Ends {ℓ} :
    {A : Type ℓ} (transaction : ℕ → Result Value A)
    → Ends transaction 1 (run_serializable transaction 3 1)
run_serializable-Ends transaction = run_serializable_lem transaction 3 1 (omega arith) (omega arith)
