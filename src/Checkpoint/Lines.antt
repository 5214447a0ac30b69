-- ===== src/Checkpoint/Lines.antt =====
-- How texts made of lines come apart again.
use mathlib.Core.List.{append_assoc}
use index_one.Checkpoint.Str.{
  split, pop_empty, join_lines, strip_prefix, split_once, strip_cr, lines_of, lines,
}
use index_one.Base.{
  Text, ℕ, ◌≡◌, refl, sym, ap, ◌∙◌, ◌≢◌, true, false, some, List, [], ◌∷◌, ◌++◌, map, arith, All,
  ◌==◌, nat_eq, list_eq, option_eq,
}

-- The text has no such byte.
abbrev pub Lacks : ℕ → Text → Type 0
Lacks c s = All (λ b. b ≢ c) s

-- The lines, each with its newline.
abbrev pub unlines : List Text → Text
unlines [] = []
unlines (w ∷ ws) = w ++ (10 ∷ unlines ws)

pub unlines-append : (xs ys : List Text) → unlines (xs ++ ys) ≡ unlines xs ++ unlines ys
unlines-append [] ys = refl
unlines-append (x ∷ xs) ys =
    rw (unlines-append xs ys) (sym (append_assoc x (10 ∷ unlines xs) (unlines ys)))

split-line : (w s : Text) → Lacks 10 w → split 10 (w ++ (10 ∷ s)) ≡ w ∷ split 10 s
unfolding split
split-line [] s lacks = refl
split-line (b ∷ w) s lacks =
    let other : (b == 10) ≡ false = ground (arith, lacks.0) in rw (other, split-line w s lacks.1)

pub split-unlines : (ws : List Text) → All (Lacks 10) ws → split 10 (unlines ws) ≡ ws ++ [] ∷ []
unfolding split
split-unlines [] lacks = refl
split-unlines (w ∷ ws) lacks =
    split-line w (unlines ws) lacks.0 ∙ ap (λ t. w ∷ t) (split-unlines ws lacks.1)

pub pop_empty-snoc : (ws : List Text) → pop_empty (ws ++ [] ∷ []) ≡ ws
unfolding pop_empty
pop_empty-snoc [] = refl
pop_empty-snoc (w ∷ []) = refl
pop_empty-snoc (w ∷ v ∷ ws) = ap (λ t. w ∷ t) (pop_empty-snoc (v ∷ ws))

lines_of-snoc : (ws : List Text) → lines_of (ws ++ [] ∷ []) ≡ map strip_cr ws
lines_of-snoc [] = refl
lines_of-snoc (w ∷ []) = refl
lines_of-snoc (w ∷ v ∷ ws) = ap (λ t. strip_cr w ∷ t) (lines_of-snoc (v ∷ ws))

pub lines-unlines : (ws : List Text) → All (Lacks 10) ws → lines (unlines ws) ≡ map strip_cr ws
unfolding lines
lines-unlines ws lacks = ap lines_of (split-unlines ws lacks) ∙ lines_of-snoc ws

-- A text with no carriage return at its end.
pub strip_cr_none : (w : Text) → Lacks 13 w → strip_cr w ≡ w
strip_cr_none [] lacks = refl
strip_cr_none (c ∷ []) lacks = ground (arith, lacks.0)
strip_cr_none (c ∷ d ∷ s) lacks = ap (λ t. c ∷ t) (strip_cr_none (d ∷ s) lacks.1)

pub strip_prefix-append : (p s : Text) → strip_prefix p (p ++ s) ≡ some s
unfolding strip_prefix
strip_prefix-append [] s = refl
strip_prefix-append (c ∷ p) s =
    let same : (c == c) ≡ true = ground arith in rw (same, strip_prefix-append p s)

pub split_once-append : (c : ℕ) (w s : Text) → Lacks c w → split_once c (w ++ (c ∷ s)) ≡ some (w, s)
unfolding split_once
split_once-append c [] s lacks = let same : (c == c) ≡ true = ground arith in rw same
split_once-append c (b ∷ w) s lacks =
    let other : (b == c) ≡ false = ground (arith, lacks.0) in
    rw (other, split_once-append c w s lacks.1)

pub join_lines-unlines :
    (w : Text) (ws : List Text) → join_lines (w ∷ ws) ++ 10 ∷ [] ≡ unlines (w ∷ ws)
unfolding join_lines
join_lines-unlines w [] = refl
join_lines-unlines w (v ∷ ws) =
    append_assoc w (10 ∷ join_lines (v ∷ ws)) (10 ∷ [])
    ∙ ap (λ t. w ++ (10 ∷ t)) (join_lines-unlines v ws)

pub Lacks-append : (c : ℕ) (u v : Text) → Lacks c u → Lacks c v → Lacks c (u ++ v)
Lacks-append c [] v hu hv = hv
Lacks-append c (b ∷ u) v hu hv = (hu.0, Lacks-append c u v hu.1 hv)
