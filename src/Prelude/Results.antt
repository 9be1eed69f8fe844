-- ===== src/Prelude/Results.antt =====
-- The outcome of code that may throw: a value, or the code of the error that was thrown.
use mathlib.Core.Path.{◌≡◌, refl}
use mathlib.Core.Bool.{Bool, true, false}
use mathlib.Core.Logic.{◌⊎◌, inl, inr}
use mathlib.Core.Option.{Option, none, some}

pub data Result {ℓ} (E : Type 0) (A : Type ℓ) : Type ℓ where
  ok : A → Result E A
  err : E → Result E A

infixl 5 ◌>>=◌ ◌>>◌
abbrev pub ◌>>=◌ {ℓ κ} :
    {E : Type 0} {A : Type ℓ} {B : Type κ} → Result E A → (A → Result E B) → Result E B
ok a >>= f = f a
err e >>= f = err e

abbrev pub ◌>>◌ {ℓ} : {E : Type 0} {B : Type ℓ} → Result E (Unit {0}) → Result E B → Result E B
m >> k = m >>= λ _. k

-- `if (test) throw e`
abbrev pub throw_if : {E : Type 0} → Bool → E → Result E (Unit {0})
throw_if true e = err e
throw_if false e = ok tt

-- A value that must be there.
abbrev pub require {ℓ} : {E : Type 0} {A : Type ℓ} → Option A → E → Result E A
require none e = err e
require (some a) e = ok a

-- To read a successful chain backwards: the first step returned some value, and the rest did with it.
pub from_bind {ℓ κ ι} :
    {E : Type 0} {A : Type ℓ} {B : Type κ} {P : Type ι} (m : Result E A) (f : A → Result E B)
    {b : B}
    → (m >>= f) ≡ ok b
    → ((a : A) → m ≡ ok a → f a ≡ ok b → P)
    → P
from_bind (ok a) f h k = k a refl h
from_bind (err e) f h k = absurd (cc h)

-- To read a chain that fails backwards: its first step failed, or its rest.
pub bind-err {ℓ κ} :
    {E : Type 0} {A : Type ℓ} {B : Type κ} (m : Result E A) (f : A → Result E B) {e : E}
    → (m >>= f) ≡ err e
    → (m ≡ err e) ⊎ ((a : A) × (m ≡ ok a) × (f a ≡ err e))
bind-err (ok a) f h = inr (a, refl, h)
bind-err (err e) f h = inl cc

pub ok-injective {ℓ} :
    {E : Type 0} {A : Type ℓ} {a b : A} → ◌≡◌ {A = Result E A} (ok a) (ok b) → a ≡ b
ok-injective h = cc

pub throw_if-eq-ok :
    {E : Type 0} (test : Bool) (e : E) {u : Unit {0}} → throw_if test e ≡ ok u → test ≡ false
throw_if-eq-ok true e h = cc
throw_if-eq-ok false e h = refl

pub require-eq-ok {ℓ} :
    {E : Type 0} {A : Type ℓ} (o : Option A) (e : E) {a : A} → require o e ≡ ok a → o ≡ some a
require-eq-ok none e h = cc
require-eq-ok (some x) e h = cc

-- The value of a run that is known to succeed.
abbrev pub IsOk {ℓ} : {E : Type 0} {A : Type ℓ} → Result E A → Type 0
IsOk (ok _) = Unit
IsOk (err _) = ⊥

abbrev pub from_ok {ℓ} : {E : Type 0} {A : Type ℓ} (m : Result E A) → IsOk m → A
from_ok (ok a) h = a
from_ok (err e) h = absurd h
