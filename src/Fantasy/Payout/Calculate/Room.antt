-- ===== src/Fantasy/Payout/Calculate/Room.antt =====
-- The basis points of a payout table that no placement has used yet: every accepted placement takes
-- its own share out of them, so the places together never promise more than the pool.
use native.Mathlib.Nat.{mul-le-mul_left}
use mathlib.Core.Path.{ap₂}
use mathlib.Core.Option.{some-injective}
use dailydraft_fun.Prelude.{
  ℕ, zero, suc, ◌+◌, ◌-◌, ◌*◌, ◌≤◌, ◌≡◌, refl, sym, ◌∙◌, ap, true, false, inl, inr, List, [], ◌∷◌,
  arith, get_elem?, some, Bool-cases, if◌then◌else◌,
}
use dailydraft_fun.Js.Text.{Text, text_mem, text_eq_refl}
use dailydraft_fun.Js.Decimal.{big_int}
use dailydraft_fun.Fantasy.Domain.{Position, position_eq}
use dailydraft_fun.Fantasy.Payout.Types.{PositionRule}
use dailydraft_fun.Fantasy.Payout.Rules.Sound.{places_total, table_total}
use dailydraft_fun.Fantasy.Payout.Calculate.{find_rule, placement_key, place_amount}

-- The unused basis points of a place list that starts at `place`.
pub open_places : Position → List Text → ℕ → List Text → ℕ
open_places p [] place seen = 0
open_places p (t ∷ ts) place seen =
    (if text_mem (placement_key p place) seen then 0 else big_int t)
    + open_places p ts (suc place) seen

pub open_table : List PositionRule → List Text → ℕ
open_table [] seen = 0
open_table (r ∷ rs) seen = open_places r.position r.place_basis_points 1 seen + open_table rs seen

open_places-cons :
    (p : Position) (ts : List Text) (place : ℕ) (key : Text) (seen : List Text)
    → open_places p ts place (key ∷ seen) ≤ open_places p ts place seen
unfolding open_places text_mem
open_places-cons p [] place key seen = omega arith
open_places-cons p (t ∷ ts) place key seen =
    ground (arith, open_places-cons p ts (suc place) key seen)

pub open_table-cons :
    (rs : List PositionRule) (key : Text) (seen : List Text)
    → open_table rs (key ∷ seen) ≤ open_table rs seen
unfolding open_table
open_table-cons [] key seen = omega arith
open_table-cons (r ∷ rs) key seen = omega (
  arith,
  open_places-cons r.position r.place_basis_points 1 key seen,
  open_table-cons rs key seen,
)

mem-cons : (j k : Text) (seen : List Text) → text_mem j seen ≡ true → text_mem j (k ∷ seen) ≡ true
unfolding text_mem
mem-cons j k seen h = ground arith

mem_here : (k j : Text) (seen : List Text) → k ≡ j → text_mem j (k ∷ seen) ≡ true
unfolding text_mem
mem_here k j seen e = rw (e, text_eq_refl j)

open_places_take :
    (p : Position) (ts : List Text) (place i : ℕ) (key : Text) (seen : List Text) {t : Text}
    → get_elem? ts i ≡ some t
    → key ≡ placement_key p (place + i)
    → text_mem key seen ≡ false
    → open_places p ts place (key ∷ seen) + big_int t ≤ open_places p ts place seen
unfolding open_places
open_places_take p [] place i key seen e k fresh = absurd (cc)
open_places_take p (t ∷ ts) place zero key seen e k fresh =
    let same : key ≡ placement_key p place = k ∙ ap (placement_key p) (omega arith) in
    let unused : text_mem (placement_key p place) seen ≡ false = rw (← same) fresh in
    ground (
      arith,
      mem_here key (placement_key p place) seen same,
      unused,
      open_places-cons p ts (suc place) key seen,
    )
open_places_take p (t ∷ ts) place (suc i) key seen e k fresh =
    let same : key ≡ placement_key p (suc place + i) = k ∙ ap (placement_key p) (omega arith) in
    ground (
      arith,
      open_places_take p ts (suc place) i key seen e same fresh,
      mem-cons (placement_key p place) key seen,
    )

open_places_start :
    (p : Position) (ts : List Text) (place : ℕ) → open_places p ts place [] ≡ places_total ts
unfolding open_places text_mem
open_places_start p [] place = refl
open_places_start p (t ∷ ts) place = omega (arith, open_places_start p ts (suc place))

pub open_table_start : (rs : List PositionRule) → open_table rs [] ≡ table_total rs
unfolding open_table
open_table_start [] = refl
open_table_start (r ∷ rs) =
    omega (arith, open_places_start r.position r.place_basis_points 1, open_table_start rs)

position_eq→eq : (p q : Position) → position_eq p q ≡ true → p ≡ q
position_eq→eq p q h = ground arith

-- A placement takes the basis points of its place out of the room that is left.
pub open_table_take :
    (rs : List PositionRule) (p : Position) (place : ℕ) (seen : List Text) {r : PositionRule}
    {t : Text}
    → find_rule p rs ≡ some r
    → get_elem? r.place_basis_points (place - 1) ≡ some t
    → 1 ≤ place
    → text_mem (placement_key p place) seen ≡ false
    → open_table rs (placement_key p place ∷ seen) + big_int t ≤ open_table rs seen
unfolding open_table find_rule
open_table_take [] p place seen found entry h fresh = absurd (cc)
open_table_take (r ∷ rs) p place seen {t = t} found entry h fresh =
    elim (Bool-cases (position_eq r.position p)) [
      | inl here ↦
          let key = placement_key p place in
          let same_rule = some-injective _ _ (rw here at found) in
          let own : key ≡ placement_key r.position (1 + (place - 1)) =
            ap₂ placement_key (sym (position_eq→eq r.position p here)) (omega arith) in
          omega (
            arith,
            open_places_take r.position r.place_basis_points 1 (place - 1) key seen {t = t}
                (rw same_rule entry) own fresh,
            open_table-cons rs key seen,
          )
      | inr there ↦ omega (
        arith,
        open_places-cons r.position r.place_basis_points 1 (placement_key p place) seen,
        open_table_take rs p place seen (rw there at found) entry h fresh,
      )
    ]

-- The room that a loop over the placements has left, in units of pool times basis points.
abbrev pub HasRoom : List PositionRule → ℕ → ℕ → List Text → Type 0
HasRoom rs pool filled seen = filled * 10_000 + pool * open_table rs seen ≤ pool * 10_000

place_amount-le : (pool bps : ℕ) → place_amount pool bps * 10_000 ≤ pool * bps
unfolding place_amount
place_amount-le pool bps = omega arith

pub HasRoom-take :
    (rs : List PositionRule) (pool filled : ℕ) (key : Text) (seen : List Text) (bps : ℕ)
    → HasRoom rs pool filled seen
    → open_table rs (key ∷ seen) + bps ≤ open_table rs seen
    → HasRoom rs pool (filled + place_amount pool bps) (key ∷ seen)
HasRoom-take rs pool filled key seen bps room taken =
    omega (arith, place_amount-le pool bps, mul-le-mul_left pool taken)

pub HasRoom-skip :
    (rs : List PositionRule) (pool filled : ℕ) (key : Text) (seen : List Text)
    → HasRoom rs pool filled seen
    → HasRoom rs pool filled (key ∷ seen)
HasRoom-skip rs pool filled key seen room =
    omega (arith, mul-le-mul_left pool (open_table-cons rs key seen))
