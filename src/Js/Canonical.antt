-- ===== src/Js/Canonical.antt =====
-- apps/api/src/providers/valuation-policy.ts: `stableStringify`, the canonical text of a value that
-- the rule sets are hashed over. The built-in and library routines that it calls are parameters.
use dailydraft_fun.Prelude.{Bool, true, false, List, [], ◌∷◌, ◌++◌, if◌then◌else◌}
use dailydraft_fun.Js.Text.{Text, text}
use dailydraft_fun.Js.Value.{
  Number, Value, undefined, null, bool, num, str, arr, obj, Items, nil, cons, Fields, end, field,
}

-- `createHash('sha256').update(t).digest('hex')`, `JSON.stringify` on a string and on a number, and
-- `left.localeCompare(right) <= 0`.
pub record Host : Type 0 where
  pub sha256 : Text → Text
  pub json_string : Text → Text
  pub json_number : Number → Text
  pub locale_le : Text → Text → Bool

abbrev Entry : Type 0
Entry = Text × Text

-- `array.join(',')`
join : List Text → Text
join [] = []
join (t ∷ []) = t
join (t ∷ ts) = t ++ (text "," ++ join ts)

module _ (host : Host) where
  -- A stable sort by insertion; an entry goes in front of those that are not below it.
  insert_entry : Entry → List Entry → List Entry
  insert_entry e [] = e ∷ []
  insert_entry e (f ∷ fs) = if host.locale_le e.0 f.0 then e ∷ f ∷ fs else f ∷ insert_entry e fs

  sort_entries : List Entry → List Entry
  unfolding insert_entry
  sort_entries [] = []
  sort_entries (e ∷ es) = insert_entry e (sort_entries es)

  print_entries : List Entry → List Text
  print_entries [] = []
  print_entries ((k, t) ∷ es) = (host.json_string k ++ (text ":" ++ t)) ∷ print_entries es

  unfoldable mutual
    unfolding join sort_entries print_entries

    pub stable_stringify : Value → Text
    stable_stringify undefined = text "null"
    stable_stringify null = text "null"
    stable_stringify (bool true) = text "true"
    stable_stringify (bool false) = text "false"
    stable_stringify (num n) = host.json_number n
    stable_stringify (str t) = host.json_string t
    stable_stringify (arr vs) = text "[" ++ (join (stringify_items vs) ++ text "]")
    stable_stringify (obj fs) =
        text "{" ++ (join (print_entries (sort_entries (stringify_fields fs))) ++ text "}")

    pub stringify_items : Items → List Text
    stringify_items nil = []
    stringify_items (cons v vs) = stable_stringify v ∷ stringify_items vs

    pub stringify_fields : Fields → List (Text × Text)
    stringify_fields end = []
    stringify_fields (field k v fs) = (k, stable_stringify v) ∷ stringify_fields fs

  -- `sha256(stableStringify(value))`
  unfoldable pub hash_value : Value → Text
  unfolding stable_stringify
  hash_value v = host.sha256 (stable_stringify v)
