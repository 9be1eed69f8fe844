-- ===== src/Js/Sample.antt =====
-- A concrete host for the tests, and short ways to write values.
use dailydraft_fun.Prelude.{String, [], true}
use dailydraft_fun.Js.Text.{Text, text}
use dailydraft_fun.Js.Value.{int, Value, num, str, obj, end, field}
use dailydraft_fun.Js.Canonical.{Host}

abbrev pub some_hash : Text
some_hash = text "aaaaaaaaaaaaaaaaaaaaaaaaaaaaaaaaaaaaaaaaaaaaaaaaaaaaaaaaaaaaaaaa"

-- A host whose hash function is constant.
abbrev pub host : Host
host = record {
  sha256 = λ _. some_hash;
  json_string = λ t. t;
  json_number = λ _. [];
  locale_le = λ _ _. true;
}

abbrev pub literal : String → Value
literal s = str (text s)

abbrev pub usdc : String → Value
usdc amount = obj (
    field (text "amount") (literal amount)
      (field (text "currency") (literal "USDC") (field (text "decimals") (num (int 6)) end)))
