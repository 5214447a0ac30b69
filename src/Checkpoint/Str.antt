-- ===== src/Checkpoint/Str.antt =====
-- What clients/checkpoint/src/lib.rs uses of Rust's `str`, on the UTF-8 bytes of a text: splitting,
-- joining, prefixes, and the decimal form of a `usize` of 64 bits.
use index_one.Base.{
  Text, ℕ, zero, suc, ◌+◌, ◌-◌, ◌*◌, ◌/◌, ◌%◌, Bool, true, false, ◌||◌, none, some, List, [], ◌∷◌,
  ◌++◌, ltb, if◌then◌else◌, ◌==◌, nat_eq, list_eq, option_eq, Option,
}
use mathlib.Core.Option.{map as option_map}

-- The first item goes to the front of the first of these texts.
abbrev pub push_front : ℕ → List Text → List Text
push_front b [] = (b ∷ []) ∷ []
push_front b (w ∷ ws) = (b ∷ w) ∷ ws

-- `split`, at each byte `c`
unfoldable pub split : ℕ → Text → List Text
split c [] = [] ∷ []
split c (b ∷ s) = let rest = split c s in if b == c then [] ∷ rest else push_front b rest

-- `if lines.last() == Some(&"") { lines.pop(); }`
unfoldable pub pop_empty : List Text → List Text
pop_empty [] = []
pop_empty (w ∷ []) = if w == [] then [] else w ∷ []
pop_empty (w ∷ v ∷ ws) = w ∷ pop_empty (v ∷ ws)

-- `join("\n")`
unfoldable pub join_lines : List Text → Text
join_lines [] = []
join_lines (w ∷ []) = w
join_lines (w ∷ v ∷ ws) = w ++ (10 ∷ join_lines (v ∷ ws))

-- `strip_prefix`; `starts_with` asks whether it gives a rest.
unfoldable pub strip_prefix : Text → Text → Option Text
strip_prefix [] s = some s
strip_prefix (p ∷ ps) [] = none
strip_prefix (p ∷ ps) (b ∷ s) = let rest = strip_prefix ps s in if b == p then rest else none

abbrev pub is_some : Option Text → Bool
is_some none = false
is_some (some s) = true

abbrev pub starts_with : Text → Text → Bool
starts_with prefix s = is_some (strip_prefix prefix s)

-- `iter().position(p)`
unfoldable pub position : (Text → Bool) → List Text → Option ℕ
position p [] = none
position p (w ∷ ws) = let later = option_map suc (position p ws) in if p w then some 0 else later

-- `split_once`, at the first byte `c`
unfoldable pub split_once : ℕ → Text → Option (Text × Text)
split_once c [] = none
split_once c (b ∷ s) =
    let later = option_map (λ (p : Text × Text). (b ∷ p.0, p.1)) (split_once c s) in
    if b == c then some ([], s) else later

-- A line without the carriage return at its end.
abbrev pub strip_cr : Text → Text
strip_cr [] = []
strip_cr (c ∷ []) = if c == 13 then [] else c ∷ []
strip_cr (c ∷ d ∷ s) = c ∷ strip_cr (d ∷ s)

-- `lines`, of the pieces between newlines: the last one has no newline behind it.
abbrev pub lines_of : List Text → List Text
lines_of [] = []
lines_of (w ∷ []) = if w == [] then [] else w ∷ []
lines_of (w ∷ v ∷ ws) = strip_cr w ∷ lines_of (v ∷ ws)

unfoldable pub lines : Text → List Text
lines s = lines_of (split 10 s)

abbrev pub usize_max : ℕ
usize_max = 18446744073709551615

-- `{}` of a `usize`, which has 20 digits at most.
unfoldable pub digits : ℕ → ℕ → Text
digits zero n = []
digits (suc rounds) n =
    let before = digits rounds (n / 10) in
    if n / 10 == 0 then (48 + n % 10) ∷ [] else before ++ (48 + n % 10) ∷ []

unfoldable pub to_string : ℕ → Text
to_string n = digits 20 n

-- The loop of `parse::<usize>`: no digit and no value above the maximum is let through.
unfoldable pub parse_digits : ℕ → Text → Option ℕ
parse_digits acc [] = some acc
parse_digits acc (c ∷ s) =
    let next = parse_digits (acc * 10 + (c - 48)) s in
    if ltb c 48 || ltb 57 c
    then none
    else if ltb usize_max (acc * 10 + (c - 48))
    then none
    else next

-- One plus sign may stand in front of the digits.
unfoldable pub parse_usize : Text → Option ℕ
parse_usize [] = none
parse_usize (c ∷ []) = parse_digits 0 (c ∷ [])
parse_usize (c ∷ d ∷ s) = if c == 43 then parse_digits 0 (d ∷ s) else parse_digits 0 (c ∷ d ∷ s)
