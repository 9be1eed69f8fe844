-- ===== src/Fantasy/Domain.antt =====
-- apps/api/src/fantasy/fantasy-domain.ts: sports, positions and amounts.
use dailydraft_fun.Prelude.{
  ℕ, suc, Bool, true, false, ◌||◌, List, [], ◌∷◌, Option, none, some, ◌++◌, if◌then◌else◌,
}
use dailydraft_fun.Prelude.Int.{ℤ, pos, negsuc}
use dailydraft_fun.Js.Text.{Text, text, text_eq}
use dailydraft_fun.Js.Decimal.{to_string}
use dailydraft_fun.Js.Value.{Value, str}
use dailydraft_fun.Domain.{Money}

pub data Sport : Type 0 where
  soccer football baseball basketball : Sport

pub data Position : Type 0 where
  goalkeeper defender midfielder forward : Position

abbrev pub sport_text : Sport → Text
sport_text soccer = text "SOCCER"
sport_text football = text "FOOTBALL"
sport_text baseball = text "BASEBALL"
sport_text basketball = text "BASKETBALL"

abbrev pub position_text : Position → Text
position_text goalkeeper = text "GOALKEEPER"
position_text defender = text "DEFENDER"
position_text midfielder = text "MIDFIELDER"
position_text forward = text "FORWARD"

-- `isFantasySport`, with the sport that the value names
unfoldable pub as_sport : Value → Option Sport
unfolding text_eq
as_sport (str t) =
    if text_eq t (text "SOCCER")
    then some soccer
    else if text_eq t (text "FOOTBALL")
    then some football
    else if text_eq t (text "BASEBALL")
    then some baseball
    else if text_eq t (text "BASKETBALL")
    then some basketball
    else none
as_sport _ = none

-- `isFantasyPosition`, with the position that the value names
unfoldable pub as_position : Value → Option Position
unfolding text_eq
as_position (str t) =
    if text_eq t (text "GOALKEEPER")
    then some goalkeeper
    else if text_eq t (text "DEFENDER")
    then some defender
    else if text_eq t (text "MIDFIELDER")
    then some midfielder
    else if text_eq t (text "FORWARD")
    then some forward
    else none
as_position _ = none

-- `===` on positions
abbrev pub position_eq : Position → Position → Bool
position_eq goalkeeper goalkeeper = true
position_eq defender defender = true
position_eq midfielder midfielder = true
position_eq forward forward = true
position_eq _ _ = false

-- `seenPositions.has(position)`
abbrev pub position_mem : Position → List Position → Bool
position_mem p [] = false
position_mem p (q ∷ qs) = position_eq p q || position_mem p qs

unfoldable pub fantasy_money : ℕ → Money
fantasy_money n = record { amount = to_string n }

-- `fantasyMoney` of a BigInt difference
unfoldable pub fantasy_money_ℤ : ℤ → Money
fantasy_money_ℤ (pos n) = record { amount = to_string n }
fantasy_money_ℤ (negsuc n) = record { amount = text "-" ++ to_string (suc n) }
