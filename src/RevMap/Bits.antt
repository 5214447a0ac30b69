-- ===== src/RevMap/Bits.antt =====
-- The order of the keys, bit by bit.
use index_one.Base.{
  ℕ, zero, suc, ◌+◌, ◌-◌, ◌/◌, ◌%◌, ◌^◌, ◌<◌, ◌≡◌, refl, ◌∷◌, arith, ◌*◌, sym, ap, ◌∙◌, subst, ◌⊎◌,
  inl, inr, false, [], ltb, length, All, Bool-cases,
}
use index_one.RevMap.Defs.{Hash, bit}
use index_one.RevMap.Map.{lex_lt}

-- Bit `i` of a byte, from the top.
abbrev bit_of : ℕ → ℕ → ℕ
bit_of x i = x / 2 ^ (7 - i) % 2

head_bits :
    (x y d : ℕ)
    → x < 256
    → y < 256
    → d < 8
    → ((i : ℕ) → i < d → bit_of x i ≡ bit_of y i)
    → bit_of x d ≡ 1
    → bit_of y d ≡ 0
    → y < x
head_bits x y zero hx hy hd same one none' = omega (arith, one, none')
head_bits x y (suc zero) hx hy hd same one none' = omega (arith, same 0 (omega arith), one, none')
head_bits x y (suc (suc zero)) hx hy hd same one none' =
    omega (arith, same 0 (omega arith), same 1 (omega arith), one, none')
head_bits x y (suc (suc (suc zero))) hx hy hd same one none' =
    omega (arith, same 0 (omega arith), same 1 (omega arith), same 2 (omega arith), one, none')
head_bits x y (suc (suc (suc (suc zero)))) hx hy hd same one none' = omega (
  arith,
  same 0 (omega arith),
  same 1 (omega arith),
  same 2 (omega arith),
  same 3 (omega arith),
  one,
  none',
)
head_bits x y (suc (suc (suc (suc (suc zero))))) hx hy hd same one none' = omega (
  arith,
  same 0 (omega arith),
  same 1 (omega arith),
  same 2 (omega arith),
  same 3 (omega arith),
  same 4 (omega arith),
  one,
  none',
)
head_bits x y (suc (suc (suc (suc (suc (suc zero)))))) hx hy hd same one none' = omega (
  arith,
  same 0 (omega arith),
  same 1 (omega arith),
  same 2 (omega arith),
  same 3 (omega arith),
  same 4 (omega arith),
  same 5 (omega arith),
  one,
  none',
)
head_bits x y (suc (suc (suc (suc (suc (suc (suc zero))))))) hx hy hd same one none' = omega (
  arith,
  same 0 (omega arith),
  same 1 (omega arith),
  same 2 (omega arith),
  same 3 (omega arith),
  same 4 (omega arith),
  same 5 (omega arith),
  same 6 (omega arith),
  one,
  none',
)
head_bits x y (suc (suc (suc (suc (suc (suc (suc (suc d)))))))) hx hy hd same one none' =
    absurd (omega (arith, hd))

same_byte : (x y : ℕ) → x < 256 → y < 256 → ((i : ℕ) → i < 8 → bit_of x i ≡ bit_of y i) → x ≡ y
same_byte x y hx hy same = omega (
  arith,
  same 0 (omega arith),
  same 1 (omega arith),
  same 2 (omega arith),
  same 3 (omega arith),
  same 4 (omega arith),
  same 5 (omega arith),
  same 6 (omega arith),
  same 7 (omega arith),
)

bit_head : (x : ℕ) (xs : Hash) (i : ℕ) → i < 8 → bit (x ∷ xs) i ≡ bit_of x i
unfolding bit
bit_head x xs i h =
    let first : i / 8 ≡ 0 = omega (arith, h) in
    let same : i % 8 ≡ i = omega (arith, h) in rw (first, same) refl

bit_tail : (x : ℕ) (xs : Hash) (i : ℕ) → bit (x ∷ xs) (8 + i) ≡ bit xs i
unfolding bit
bit_tail x xs i =
    let next : (8 + i) / 8 ≡ suc (i / 8) = omega arith in
    let same : (8 + i) % 8 ≡ i % 8 = omega arith in rw (next, same) refl

zero_bit : (i : ℕ) → bit [] i ≡ 0
unfolding bit
zero_bit i = grind arith

-- The two hashes have the same bits above a depth.
abbrev pub SameTo : ℕ → Hash → Hash → Type 0
SameTo depth a b = (i : ℕ) → i < depth → bit a i ≡ bit b i

near_or_far : (d : ℕ) → (d < 8) ⊎ ((e : ℕ) × (d ≡ 8 + e))
near_or_far d = elim (Bool-cases (ltb d 8)) [
  | inl near ↦ inl (ground (arith, near))
  | inr far ↦ inr (d - 8, ground (arith, far))
]

SameTo-head :
    (depth : ℕ) (x y : ℕ) (a b : Hash)
    → SameTo depth (x ∷ a) (y ∷ b)
    → (i : ℕ) → i < depth
    → i < 8
    → bit_of x i ≡ bit_of y i
SameTo-head depth x y a b same i h near = sym (bit_head x a i near) ∙ same i h ∙ bit_head y b i near

SameTo-tail :
    (depth : ℕ) (x y : ℕ) (a b : Hash) → SameTo (8 + depth) (x ∷ a) (y ∷ b) → SameTo depth a b
SameTo-tail depth x y a b same i h =
    sym (bit_tail x a i) ∙ same (8 + i) (omega (arith, h)) ∙ bit_tail y b i

-- Of two hashes that agree above a depth, the one with the bit set there is not the smaller one.
pub bit-lex_lt :
    (a b : Hash) (depth : ℕ)
    → All (λ x. x < 256) a
    → All (λ x. x < 256) b
    → SameTo depth a b
    → bit a depth ≡ 1
    → bit b depth ≡ 0
    → lex_lt a b ≡ false
bit-lex_lt [] b depth ha hb same one none' = absurd (omega (arith, zero_bit depth, one))
bit-lex_lt (x ∷ a) [] depth ha hb same one none' = refl
bit-lex_lt (x ∷ a) (y ∷ b) depth ha hb same one none' = elim (near_or_far depth) [
  | inl near ↦
      let less : y < x =
        head_bits x y depth ha.0 hb.0 near
          (λ i h. SameTo-head depth x y a b same i h (omega (arith, h, near)))
          (sym (bit_head x a depth near) ∙ one) (sym (bit_head y b depth near) ∙ none') in
      ground (arith, less)
  | inr (d, far) ↦
      let same' : SameTo (8 + d) (x ∷ a) (y ∷ b) = subst (λ n. SameTo n (x ∷ a) (y ∷ b)) far same in
      let heads : x ≡ y =
        same_byte x y ha.0 hb.0
          (λ i near. SameTo-head (8 + d) x y a b same' i (omega (arith, near)) near) in
      let rest =
        bit-lex_lt a b d ha.1 hb.1 (SameTo-tail d x y a b same')
          (sym (bit_tail x a d) ∙ ap (bit (x ∷ a)) (sym far) ∙ one)
          (sym (bit_tail y b d) ∙ ap (bit (y ∷ b)) (sym far) ∙ none') in
      ground (arith, heads, rest)
]

-- Keys of one size that agree in all their bits are the same.
pub SameTo-eq :
    (a b : Hash) (n : ℕ)
    → All (λ x. x < 256) a
    → All (λ x. x < 256) b
    → length a ≡ n
    → length b ≡ n
    → SameTo (8 * n) a b
    → a ≡ b
SameTo-eq [] [] n ha hb la lb same = refl
SameTo-eq [] (y ∷ b) n ha hb la lb same = absurd (omega (arith, la, lb))
SameTo-eq (x ∷ a) [] n ha hb la lb same = absurd (omega (arith, la, lb))
SameTo-eq (x ∷ a) (y ∷ b) n ha hb la lb same =
    let split : 8 * n ≡ 8 + 8 * length a = omega (arith, la) in
    let same' : SameTo (8 + 8 * length a) (x ∷ a) (y ∷ b) =
      subst (λ m. SameTo m (x ∷ a) (y ∷ b)) split same in
    let heads : x ≡ y =
      same_byte x y ha.0 hb.0
        (λ i near. SameTo-head (8 + 8 * length a) x y a b same' i (omega (arith, near)) near) in
    let tails =
      SameTo-eq a b (length a) ha.1 hb.1 refl (omega (arith, la, lb))
        (SameTo-tail (8 * length a) x y a b same') in
    cc (heads, tails)

-- A bit is zero or one.
pub bit-cases : (a : Hash) (i : ℕ) → (bit a i ≡ 0) ⊎ (bit a i ≡ 1)
unfolding bit
bit-cases a i = grind arith
