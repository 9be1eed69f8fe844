-- ===== src/Fantasy/Payout/Rules/Sound.antt =====
-- What holds of every payout table that `validateFantasyPayoutRuleSet` accepts.
use dailydraft_fun.Prelude.{
  ℕ, ◌+◌, ◌≤◌, ◌≡◌, refl, ap, ◌∙◌, true, false, List, [], ◌∷◌, arith, length, All, sum_by, ok,
  from_bind,
}
use dailydraft_fun.Js.Text.{Text, text, text_eq_iff, is_rules_version}
use dailydraft_fun.Js.Decimal.{big_int, big_int-to_string}
use dailydraft_fun.Js.Value.{Value, str, obj, Fields, get}
use dailydraft_fun.Js.Canonical.{Host}
use dailydraft_fun.Fantasy.Domain.{Sport, Position, position_mem}
use dailydraft_fun.Fantasy.Payout.Types.{
  PositionRule, UnsignedRules, RuleSet, hash_rule_set, parse_basis_points, parse_basis_points-le,
}
use dailydraft_fun.Fantasy.Payout.Rules.{
  check_header, read_places, read_position, read_positions, seal_rules, validate_payout_rule_set,
}

-- The basis points of a place list, and of a whole table.
abbrev pub places_total : List Text → ℕ
places_total = sum_by big_int

abbrev pub table_total : List PositionRule → ℕ
table_total [] = 0
table_total (r ∷ rs) = places_total r.place_basis_points + table_total rs

-- No position of the table is among the ones seen before it.
abbrev pub AreFresh : List Position → List PositionRule → Type 0
AreFresh seen [] = Unit
AreFresh seen (r ∷ rs) = (position_mem r.position seen ≡ false) × AreFresh (r.position ∷ seen) rs

-- A place list is short, not empty, and no place takes more than the whole pool.
abbrev pub IsBounded : PositionRule → Type 0
IsBounded r =
    (1 ≤ length r.place_basis_points)
    × (length r.place_basis_points ≤ 32)
    × All (λ t. big_int t ≤ 10_000) r.place_basis_points

pub read_places_lem :
    (raws : List Value) (total : ℕ) {texts : List Text} {total' : ℕ}
    → read_places raws total ≡ ok (texts, total')
    → (length texts ≡ length raws)
      × (total' ≡ total + places_total texts)
      × All (λ t. big_int t ≤ 10_000) texts
unfolding read_places
read_places_lem [] total h = ground arith
read_places_lem (raw ∷ raws) total h = from_bind (parse_basis_points raw) _ h λ bps parsed h₁.
    from_bind (read_places raws (total + bps)) _ h₁ λ rest loop h₂. ground (
      arith,
      parse_basis_points-le raw parsed,
      read_places_lem raws (total + bps) loop,
      big_int-to_string bps,
    )

pub read_position_lem :
    (candidate : Value) (seen : List Position) {position : Position} {places : List Value}
    → read_position candidate seen ≡ ok (position, places)
    → (position_mem position seen ≡ false) × (1 ≤ length places) × (length places ≤ 32)
unfolding read_position
read_position_lem candidate seen h = ground arith

pub read_positions_lem :
    (candidates : List Value) (seen : List Position) (total : ℕ) {rules : List PositionRule}
    {total' : ℕ}
    → read_positions candidates seen total ≡ ok (rules, total')
    → (length rules ≡ length candidates)
      × (total' ≡ total + table_total rules)
      × AreFresh seen rules
      × All IsBounded rules
unfolding read_positions
read_positions_lem [] seen total h = ground arith
read_positions_lem (candidate ∷ candidates) seen total h =
    from_bind (read_position candidate seen) _ h λ head checked h₁.
      from_bind (read_places head.1 total) _ h₁ λ sums summed h₂.
        from_bind (read_positions candidates (head.0 ∷ seen) sums.1) _ h₂ λ rest loop h₃. ground (
          arith,
          read_position_lem candidate seen checked,
          read_places_lem head.1 total summed,
          read_positions_lem candidates (head.0 ∷ seen) sums.1 loop,
        )

pub check_header_lem :
    (fields : Fields) {sport : Sport} {version hash : Text} {candidates : List Value}
    → check_header fields ≡ ok (sport, version, hash, candidates)
    → (get (text "rulesHash") fields ≡ str hash)
      × (is_rules_version version ≡ true)
      × (1 ≤ length candidates)
      × (length candidates ≤ 8)
unfolding check_header
check_header_lem fields h = ground arith

pub seal_rules_lem :
    (host : Host) (unsigned : UnsignedRules) (total : ℕ) (hash : Text) {rules : RuleSet}
    → seal_rules host unsigned total hash ≡ ok rules
    → (rules ≡ record { unsigned = unsigned; rules_hash = hash_rule_set host unsigned })
      × (total ≡ 10_000)
      × (hash ≡ hash_rule_set host unsigned)
unfolding seal_rules
seal_rules_lem host unsigned total hash h =
    ground (arith, text_eq_iff (hash_rule_set host unsigned) hash)

-- What the calculator relies on.
pub record IsValid (host : Host) (rules : RuleSet) : Type 0 where
  pub total : table_total rules.positions ≡ 10_000
  pub unique : AreFresh [] rules.positions
  pub nonempty : 1 ≤ length rules.positions
  pub bounded : length rules.positions ≤ 8
  pub places : All IsBounded rules.positions
  pub version : is_rules_version rules.rules_version ≡ true
  pub hash : rules.rules_hash ≡ hash_rule_set host rules.unsigned

abbrev pub CommitsTo : Value → Text → Type 0
CommitsTo value hash =
    (fields : Fields) × (value ≡ obj fields) × (get (text "rulesHash") fields ≡ str hash)

-- An accepted payout table has from 1 to 8 positions, none twice, each with a bounded list of places;
-- the shares of all places sum to 10000 basis points exactly; its version is well formed; and its hash
-- is both the committed one and the hash of its content.
pub validate_payout_rule_set-IsValid :
    (host : Host) (value : Value) {rules : RuleSet}
    → validate_payout_rule_set host value ≡ ok rules
    → IsValid host rules × CommitsTo value rules.rules_hash
unfolding validate_payout_rule_set
validate_payout_rule_set-IsValid host (obj fields) h =
    from_bind (check_header fields) _ h λ head checked h₁.
      from_bind (read_positions head.3 [] 0) _ h₁ λ table loop h₂.
        let (committed, version, some_positions, few_positions) = check_header_lem fields checked in
        let (same_length, sum, fresh, bounds) = read_positions_lem head.3 [] 0 loop in
        let (same, total, hash) = seal_rules_lem host _ table.1 head.2 h₂ in
        rw same (
          record {
            total = omega arith;
            unique = fresh;
            nonempty = omega arith;
            bounded = omega arith;
            places = bounds;
            version = version;
            hash = refl;
          },
          (fields, refl, committed ∙ ap str hash),
        )
validate_payout_rule_set-IsValid host _ h = ground arith
