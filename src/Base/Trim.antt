-- ===== src/Base/Trim.antt =====
-- Texts of printing ASCII characters have nothing to trim.
use Prim.Native.Nat.{ℕ, ◌<◌}
use mathlib.Core.Path.{◌≡◌, refl, ap, ◌∙◌}
use mathlib.Core.Bool.{false}
use mathlib.Core.List.{List, [], ◌∷◌}
use native.Mathlib.Omega.{arith}
use index_one.Base.Lists.{All}
use index_one.Base.Blank.{is_blank, trim_start, trim_end, trim}

-- A printing character that is no space.
abbrev pub IsGraphic : ℕ → Type 0
IsGraphic c = (32 < c) × (c < 128)

is_blank_graphic : (a : ℕ) (l : List ℕ) → IsGraphic a → is_blank (a ∷ l) ≡ false
unfolding is_blank
is_blank_graphic a [] (h, h') = ground (arith, h, h')
is_blank_graphic a (b ∷ []) (h, h') = ground (arith, h, h')
is_blank_graphic a (b ∷ c ∷ l) (h, h') = ground (arith, h, h')

trim_start_graphic : (a : ℕ) (l : List ℕ) → IsGraphic a → trim_start (a ∷ l) ≡ a ∷ l
unfolding trim_start
trim_start_graphic a [] (h, h') = ground (arith, h, h')
trim_start_graphic a (b ∷ []) (h, h') = ground (arith, h, h')
trim_start_graphic a (b ∷ c ∷ l) (h, h') = ground (arith, h, h')

trim_end_graphic : (s : List ℕ) → All IsGraphic s → trim_end s ≡ s
unfolding trim_end
trim_end_graphic [] g = refl
trim_end_graphic (a ∷ l) (g, gs) =
    rw (is_blank_graphic a l g) (ap (λ t. a ∷ t) (trim_end_graphic l gs))

pub trim_graphic : (s : List ℕ) → All IsGraphic s → trim s ≡ s
unfolding trim trim_start
trim_graphic [] g = trim_end_graphic [] g
trim_graphic (a ∷ l) (g, gs) =
    ap trim_end (trim_start_graphic a l g) ∙ trim_end_graphic (a ∷ l) (g, gs)
