-- ===== src/Js/Value.antt =====
-- A value of JavaScript type `unknown`, as far as the validators can tell one from another: plain
-- data with own properties only. An object's properties stand in the order of `Object.keys`.
use dailydraft_fun.Prelude.{
  ℕ, Bool, true, false, List, [], ◌∷◌, Option, none, some, ◌==◌, if◌then◌else◌,
}
use dailydraft_fun.Js.Text.{Text, text_eq}

-- A double: `int` and `neg_int` are the integers n and -(n + 1); `neg_zero` is -0; `fractional` is a
-- number that is not an integer, NaN and the infinities included.
pub data Number : Type 0 where
  int : ℕ → Number
  neg_int : ℕ → Number
  neg_zero : Number
  fractional : ℕ → Number

mutual
  pub data Value : Type 0 where
    undefined : Value
    null : Value
    bool : Bool → Value
    num : Number → Value
    str : Text → Value
    arr : Items → Value
    obj : Fields → Value

  pub data Items : Type 0 where
    nil : Items
    cons : Value → Items → Items

  pub data Fields : Type 0 where
    end : Fields
    field : Text → Value → Fields → Fields

-- `object[key]`, `undefined` where the key is missing
unfoldable pub get : Text → Fields → Value
unfolding text_eq
get k end = undefined
get k (field j v fs) = if text_eq j k then v else get k fs

unfoldable pub has_own : Text → Fields → Bool
unfolding text_eq
has_own k end = false
has_own k (field j v fs) = if text_eq j k then true else has_own k fs

abbrev pub keys : Fields → List Text
keys end = []
keys (field k v fs) = k ∷ keys fs

abbrev pub items : Items → List Value
items nil = []
items (cons v vs) = v ∷ items vs

-- `value && typeof value === 'object' && !Array.isArray(value)`
abbrev pub as_object : Value → Option Fields
as_object (obj fs) = some fs
as_object _ = none

-- `Array.isArray(value)`
abbrev pub as_array : Value → Option (List Value)
as_array (arr vs) = some (items vs)
as_array _ = none

-- `typeof value === 'string'`
abbrev pub as_string : Value → Option Text
as_string (str t) = some t
as_string _ = none

-- `value === 'literal'`
unfoldable pub is_text : Text → Value → Bool
unfolding text_eq
is_text t (str s) = text_eq s t
is_text t _ = false

-- `value === n`, for a natural number n
unfoldable pub is_number : ℕ → Value → Bool
is_number n (num (int m)) = m == n
is_number n (num neg_zero) = n == 0
is_number n _ = false

-- `Number.isInteger(value) && !Object.is(value, -0) && value >= 0`
abbrev pub as_natural : Value → Option ℕ
as_natural (num (int n)) = some n
as_natural _ = none
