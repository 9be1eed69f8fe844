-- ===== src/Fantasy/Scoring/Calculate/Line.antt =====
-- What a line gives to a statistic, and which keys of a line a position knows.
use dailydraft_fun.Prelude.{
  ◌≤◌, ◌≡◌, ◌≢◌, refl, sym, ◌∙◌, true, false, ◌⊎◌, inl, inr, List, [], ◌∷◌, map, arith, All,
  Bool-cases, ok,
}
use dailydraft_fun.Prelude.Int.{ℤ, pos, negsuc, abs_ℤ}
use dailydraft_fun.Js.Text.{Text, text_eq, text_eq_iff, text_eq_refl, text_mem}
use dailydraft_fun.Js.Value.{int, neg_int, num, Value, Fields, end, field, get, has_own, keys}
use dailydraft_fun.Fantasy.Scoring.Types.{Component, parse_stat_units}
use dailydraft_fun.Fantasy.Scoring.Calculate.{all_scored, raw_units}

-- The line has the key, and the first field of that name has the value.
abbrev pub Gives : Text → Value → Fields → Type 0
Gives k v end = ⊥
Gives k v (field j w fs) = ((j ≡ k) × (w ≡ v)) ⊎ ((j ≢ k) × Gives k v fs)

-- The value is this integer.
abbrev pub IsInteger : ℤ → Value → Type 0
IsInteger (pos n) v = v ≡ num (int n)
IsInteger (negsuc n) v = v ≡ num (neg_int n)

-- The units of a statistic: the integer that the line gives to it, or zero where it has no such key.
abbrev pub HasUnits : Fields → Text → ℤ → Type 0
HasUnits line stat z =
    ((v : Value) × Gives stat v line × IsInteger z v)
    ⊎ (All (λ k. k ≢ stat) (keys line) × (z ≡ pos 0))

-- One of the keys.
abbrev pub HasKey : Text → List Text → Type 0
HasKey k [] = ⊥
HasKey k (j ∷ js) = (j ≡ k) ⊎ HasKey k js

-- A statistic of one of the components.
abbrev pub IsStat : List Component → Text → Type 0
IsStat [] k = ⊥
IsStat (c ∷ cs) k = (c.stat ≡ k) ⊎ IsStat cs k

-- A key that is the statistic of no component.
abbrev pub HasUnknown : List Text → List Component → Type 0
HasUnknown ks cs = (k : Text) × HasKey k ks × All (λ c. c.stat ≢ k) cs

text_eq-false : (a b : Text) → text_eq a b ≡ false → a ≢ b
text_eq-false a b h = λ e. absurd (cc (sym (text_eq_refl b) ∙ (rw e at h)))

has_own-Gives :
    (k : Text) (v : Value) (line : Fields) → has_own k line ≡ true → get k line ≡ v → Gives k v line
unfolding has_own get
has_own-Gives k v end h e = cc
has_own-Gives k v (field j w fs) h e = elim (Bool-cases (text_eq j k)) [
  | inl same ↦ inl ((text_eq_iff j k).0 same, rw same at e)
  | inr other ↦ inr (text_eq-false j k other, has_own-Gives k v fs (rw other at h) (rw other at e))
]

has_own-missing : (k : Text) (line : Fields) → has_own k line ≡ false → All (λ j. j ≢ k) (keys line)
unfolding has_own
has_own-missing k end h = tt
has_own-missing k (field j v fs) h = elim (Bool-cases (text_eq j k)) [
  | inl same ↦ absurd (cc (rw same at h))
  | inr other ↦ (text_eq-false j k other, has_own-missing k fs (rw other at h))
]

text_neq : (a b : Text) → a ≢ b → text_eq a b ≡ false
text_neq a b ne = elim (Bool-cases (text_eq a b)) [
  | inl same ↦ absurd (ne ((text_eq_iff a b).0 same))
  | inr other ↦ other
]

missing-has_own : (k : Text) (line : Fields) → All (λ j. j ≢ k) (keys line) → has_own k line ≡ false
unfolding has_own
missing-has_own k end all = refl
missing-has_own k (field j v fs) (ne, all) = rw (text_neq j k ne) (missing-has_own k fs all)

Gives-get :
    (k : Text) (v : Value) (line : Fields)
    → Gives k v line
    → (has_own k line ≡ true) × (get k line ≡ v)
unfolding has_own get
Gives-get k v end gives = absurd gives
Gives-get k v (field j w fs) (inl (same, value)) = rw ((text_eq_iff j k).1 same) (refl, value)
Gives-get k v (field j w fs) (inr (ne, gives)) = rw (text_neq j k ne) (Gives-get k v fs gives)

-- What the parser of units reads.
parse_stat_units-IsInteger : (v : Value) (z : ℤ) → parse_stat_units v ≡ ok z → IsInteger z v
unfolding parse_stat_units
parse_stat_units-IsInteger (num (int n)) (pos m) h = ground arith
parse_stat_units-IsInteger (num (int n)) (negsuc m) h = ground arith
parse_stat_units-IsInteger (num (neg_int n)) (pos m) h = ground arith
parse_stat_units-IsInteger (num (neg_int n)) (negsuc m) h = ground arith
parse_stat_units-IsInteger v z h = ground arith

IsInteger-parse_stat_units :
    (z : ℤ) (v : Value) → abs_ℤ z ≤ 100_000 → IsInteger z v → parse_stat_units v ≡ ok z
unfolding parse_stat_units
IsInteger-parse_stat_units (pos n) v small is = rw is (ground arith)
IsInteger-parse_stat_units (negsuc n) v small is = rw is (ground arith)

zero_units : (z : ℤ) → parse_stat_units (num (int 0)) ≡ ok z → z ≡ pos 0
unfolding parse_stat_units
zero_units z h = ground arith

pub raw_units-HasUnits :
    (line : Fields) (k : Text) {z : ℤ}
    → parse_stat_units (raw_units line k) ≡ ok z
    → HasUnits line k z
unfolding raw_units
raw_units-HasUnits line k {z} h = elim (Bool-cases (has_own k line)) [
  | inl own ↦ inl (
    get k line,
    has_own-Gives k (get k line) line own refl,
    parse_stat_units-IsInteger (get k line) z (rw own at h),
  )
  | inr other ↦ inr (has_own-missing k line other, zero_units z (rw other at h))
]

pub HasUnits-raw_units :
    (line : Fields) (k : Text) (z : ℤ)
    → abs_ℤ z ≤ 100_000
    → HasUnits line k z
    → parse_stat_units (raw_units line k) ≡ ok z
unfolding raw_units
HasUnits-raw_units line k z small (inl (v, gives, is)) =
    let (own, value) = Gives-get k v line gives in
    rw (own, value) (IsInteger-parse_stat_units z v small is)
HasUnits-raw_units line k z small (inr (missing, e)) =
    rw (missing-has_own k line missing, e)
      (IsInteger-parse_stat_units (pos 0) (num (int 0)) (omega arith) refl)

text_mem-IsStat :
    (k : Text) (cs : List Component) → text_mem k (map (λ c. c.stat) cs) ≡ true → IsStat cs k
unfolding text_mem
text_mem-IsStat k [] h = cc
text_mem-IsStat k (c ∷ cs) h = elim (Bool-cases (text_eq k c.stat)) [
  | inl same ↦ inl (sym ((text_eq_iff k c.stat).0 same))
  | inr other ↦ inr (text_mem-IsStat k cs (rw other at h))
]

text_mem-unknown :
    (k : Text) (cs : List Component)
    → text_mem k (map (λ c. c.stat) cs) ≡ false
    → All (λ c. c.stat ≢ k) cs
unfolding text_mem
text_mem-unknown k [] h = tt
text_mem-unknown k (c ∷ cs) h = elim (Bool-cases (text_eq k c.stat)) [
  | inl same ↦ absurd (cc (rw same at h))
  | inr other ↦ (λ e. text_eq-false k c.stat other (sym e), text_mem-unknown k cs (rw other at h))
]

pub all_scored-IsStat :
    (ks : List Text) (cs : List Component) → all_scored ks cs ≡ true → All (IsStat cs) ks
unfolding all_scored
all_scored-IsStat [] cs h = tt
all_scored-IsStat (k ∷ ks) cs h = elim (Bool-cases (text_mem k (map (λ c. c.stat) cs))) [
  | inl known ↦ (text_mem-IsStat k cs known, all_scored-IsStat ks cs (rw known at h))
  | inr unknown ↦ absurd (cc (rw unknown at h))
]

pub all_scored-HasUnknown :
    (ks : List Text) (cs : List Component) → all_scored ks cs ≡ false → HasUnknown ks cs
unfolding all_scored
all_scored-HasUnknown [] cs h = cc
all_scored-HasUnknown (k ∷ ks) cs h = elim (Bool-cases (text_mem k (map (λ c. c.stat) cs))) [
  | inl known ↦
      let (j, has, none) = all_scored-HasUnknown ks cs (rw known at h) in (j, inr has, none)
  | inr unknown ↦ (k, inl refl, text_mem-unknown k cs unknown)
]

IsStat-unknown : (k : Text) (cs : List Component) → IsStat cs k → All (λ c. c.stat ≢ k) cs → ⊥
IsStat-unknown k [] stat all = stat
IsStat-unknown k (c ∷ cs) (inl e) (ne, all) = ne e
IsStat-unknown k (c ∷ cs) (inr later) (ne, all) = IsStat-unknown k cs later all

HasKey-All :
    (k : Text) (ks : List Text) (cs : List Component)
    → HasKey k ks
    → All (IsStat cs) ks
    → IsStat cs k
HasKey-All k [] cs has all = absurd has
HasKey-All k (j ∷ js) cs (inl e) (known, all) = rw (← e) known
HasKey-All k (j ∷ js) cs (inr later) (known, all) = HasKey-All k js cs later all

pub HasUnknown-absurd :
    (ks : List Text) (cs : List Component) → All (IsStat cs) ks → HasUnknown ks cs → ⊥
HasUnknown-absurd ks cs all (k, has, unknown) =
    IsStat-unknown k cs (HasKey-All k ks cs has all) unknown
