-- ===== src/Js/Trim.antt =====
-- `text.trim()`, `text.split(',')` and, as far as words in ASCII go, `text.toLowerCase()`.
use dailydraft_fun.Prelude.{ℕ, ◌+◌, Bool, ◌||◌, ◌&&◌, List, [], ◌∷◌, map, leb, ◌==◌, if◌then◌else◌}
use dailydraft_fun.Js.Text.{Text, is_upper}

-- White space and line terminators.
is_space : ℕ → Bool
is_space c =
    (leb 9 c && leb c 13)
    || (c == 32)
    || (c == 160)
    || (c == 0x1680)
    || (leb 0x2000 c && leb c 0x200a)
    || (c == 0x2028)
    || (c == 0x2029)
    || (c == 0x202f)
    || (c == 0x205f)
    || (c == 0x3000)
    || (c == 0xfeff)

trim_start : Text → Text
trim_start [] = []
trim_start (c ∷ cs) = if is_space c then trim_start cs else c ∷ cs

-- A code unit in front of a trimmed text: white space that ends the text goes.
keep : ℕ → Text → Text
keep c [] = if is_space c then [] else c ∷ []
keep c (d ∷ ds) = c ∷ d ∷ ds

trim_end : Text → Text
trim_end [] = []
trim_end (c ∷ cs) = keep c (trim_end cs)

unfoldable pub trim : Text → Text
unfolding is_space trim_start keep trim_end
trim t = trim_end (trim_start t)

-- A code unit in front of the parts of the rest.
push : ℕ → List Text → List Text
push c [] = (c ∷ []) ∷ []
push c (part ∷ parts) = (c ∷ part) ∷ parts

unfoldable pub split_comma : Text → List Text
unfolding push
split_comma [] = [] ∷ []
split_comma (c ∷ cs) = let parts = split_comma cs in if c == b',' then [] ∷ parts else push c parts

-- Only A to Z and the Kelvin sign have a lower case in ASCII.
lower_unit : ℕ → ℕ
lower_unit c = if is_upper c then c + 32 else if c == 0x212a then b'k' else c

unfoldable pub to_lower : Text → Text
unfolding lower_unit
to_lower t = map lower_unit t
