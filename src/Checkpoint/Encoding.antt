-- ===== src/Checkpoint/Encoding.antt =====
-- A concrete note format for the tests: a hash that keeps 32 bytes, and a reversible encoding that
-- writes each number as so many letters A and a letter B.
use index_one.Base.{
  Text, ℕ, zero, suc, ◌+◌, ◌≡◌, refl, ap, ◌∙◌, none, some, [], ◌∷◌, arith, if◌then◌else◌, All, ◌==◌,
  Bytes, nat_eq, list_eq, option_eq, Option,
}
use index_one.Checkpoint.Note.{NotePrimitives}
use index_one.Checkpoint.Written.{IsVisible, IsNoteFormat}
use index_one.Sample.{fixed}
use index_one.Sample.Length.{length-fixed}
use mathlib.Core.Option.{map as option_map}

abbrev tally_marks : ℕ → Text → Text
tally_marks zero s = 66 ∷ s
tally_marks (suc n) s = 65 ∷ tally_marks n s

abbrev in_marks : Bytes → Text
in_marks [] = []
in_marks (n ∷ x) = tally_marks n (in_marks x)

abbrev read_marks : ℕ → Text → Option Bytes
read_marks k [] = if k == 0 then some [] else none
read_marks k (c ∷ s) =
    let more = read_marks (k + 1) s in
    let next = option_map (λ x. k ∷ x) (read_marks 0 s) in
    if c == 65 then more else if c == 66 then next else none

instance abbrev pub sample_notes : NotePrimitives
sample_notes = record { sha256 = fixed 32; encode = in_marks; decode = read_marks 0 }

read-tally_marks :
    (n k : ℕ) (s : Text)
    → read_marks k (tally_marks n s) ≡ option_map (λ x. (k + n) ∷ x) (read_marks 0 s)
read-tally_marks zero k s = ap (λ m. option_map (λ x. m ∷ x) (read_marks 0 s)) (omega arith)
read-tally_marks (suc n) k s =
    read-tally_marks n (k + 1) s ∙ ap (λ m. option_map (λ x. m ∷ x) (read_marks 0 s)) (omega arith)

read_marks-in_marks : (x : Bytes) → read_marks 0 (in_marks x) ≡ some x
read_marks-in_marks [] = refl
read_marks-in_marks (n ∷ x) =
    read-tally_marks n 0 (in_marks x)
    ∙ ap (option_map (λ y. (0 + n) ∷ y)) (read_marks-in_marks x)
    ∙ ap (λ m. some (m ∷ x)) (omega arith)

tally_marks-IsVisible : (n : ℕ) (s : Text) → All IsVisible s → All IsVisible (tally_marks n s)
tally_marks-IsVisible zero s h = ((omega arith, omega arith), h)
tally_marks-IsVisible (suc n) s h = ((omega arith, omega arith), tally_marks-IsVisible n s h)

in_marks-IsVisible : (x : Bytes) → All IsVisible (in_marks x)
in_marks-IsVisible [] = tt
in_marks-IsVisible (n ∷ x) = tally_marks-IsVisible n (in_marks x) (in_marks-IsVisible x)

pub sample_notes-IsNoteFormat : IsNoteFormat sample_notes
sample_notes-IsNoteFormat = record {
  hash_size = λ x. length-fixed 32 x;
  decodes = read_marks-in_marks;
  visible = in_marks-IsVisible;
}
