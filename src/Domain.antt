-- ===== src/Domain.antt =====
-- apps/api/src/domain.ts: amounts of money.
use dailydraft_fun.Js.Text.{Text, text}
use dailydraft_fun.Js.Value.{int, Value, num, str, obj, end, field}

-- `currency` and `decimals` have one value each, USDC and 6, and are not stored.
pub record Money : Type 0 where
  pub amount : Text

-- The JavaScript object that a `Money` is.
abbrev pub money_value : Money → Value
money_value m = obj (
    field (text "amount") (str m.amount)
      (field (text "currency") (str (text "USDC")) (field (text "decimals") (num (int 6)) end)))
