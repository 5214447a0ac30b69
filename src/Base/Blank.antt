-- ===== src/Base/Blank.antt =====
-- `s.trim().is_empty()`: every character of the text has the Unicode property White_Space. The text
-- is its UTF-8 bytes, so such a character is one, two or three of them.
use Prim.Native.Nat.{ℕ}
use Prim.Native.Char.{code}
use Prim.Native.String.{String}
use mathlib.Core.Bool.{Bool, true, false, ◌&&◌, ◌||◌}
use mathlib.Core.List.{List, [], ◌∷◌}
use index_one.Base.Tests.{leb, nat_beq, if◌then◌else◌}

abbrev white1 : ℕ → Bool
white1 a = (leb 9 a && leb a 13) || nat_beq a 32

-- U+0085 and U+00A0
abbrev white2 : ℕ → ℕ → Bool
white2 a b = nat_beq a 0xc2 && (nat_beq b 0x85 || nat_beq b 0xa0)

-- U+1680, U+2000 to U+200A, U+2028, U+2029, U+202F, U+205F and U+3000
abbrev white3 : ℕ → ℕ → ℕ → Bool
white3 a b c =
    (nat_beq a 0xe1 && nat_beq b 0x9a && nat_beq c 0x80)
    || (nat_beq a 0xe2
        && nat_beq b 0x80
        && ((leb 0x80 c && leb c 0x8a) || nat_beq c 0xa8 || nat_beq c 0xa9 || nat_beq c 0xaf))
    || (nat_beq a 0xe2 && nat_beq b 0x81 && nat_beq c 0x9f)
    || (nat_beq a 0xe3 && nat_beq b 0x80 && nat_beq c 0x80)

unfoldable pub is_blank : List ℕ → Bool
is_blank [] = true
is_blank (a ∷ []) = white1 a
is_blank (a ∷ b ∷ []) = let rest = is_blank (b ∷ []) in if white1 a then rest else white2 a b
is_blank (a ∷ b ∷ c ∷ l) =
    let after1 = is_blank (b ∷ c ∷ l) in
    let after2 = is_blank (c ∷ l) in
    let after3 = is_blank l in
    if white1 a
    then after1
    else if white2 a b
    then after2
    else if white3 a b c
    then after3
    else false

-- `s.trim_start()`
unfoldable pub trim_start : List ℕ → List ℕ
trim_start [] = []
trim_start (a ∷ []) = if white1 a then [] else a ∷ []
trim_start (a ∷ b ∷ []) =
    let rest = trim_start (b ∷ []) in
    if white1 a then rest else if white2 a b then [] else a ∷ b ∷ []
trim_start (a ∷ b ∷ c ∷ l) =
    let after1 = trim_start (b ∷ c ∷ l) in
    let after2 = trim_start (c ∷ l) in
    let after3 = trim_start l in
    if white1 a
    then after1
    else if white2 a b
    then after2
    else if white3 a b c
    then after3
    else a ∷ b ∷ c ∷ l

-- `s.trim_end()`: what is blank from there to the end is cut off.
unfoldable pub trim_end : List ℕ → List ℕ
trim_end [] = []
trim_end (a ∷ l) = let rest = trim_end l in if is_blank (a ∷ l) then [] else a ∷ rest

unfoldable pub trim : List ℕ → List ℕ
trim s = trim_end (trim_start s)

-- The bytes of an ASCII literal.
abbrev pub codes : String → List ℕ
codes String.[] = []
codes (String.◌∷◌ c s) = code c ∷ codes s
