-- ===== src/Witness/Split.antt =====
-- The split of RFC 6962: the largest power of two below the size.
use index_one.Base.{
  ℕ, zero, suc, ◌+◌, ◌-◌, ◌*◌, ◌^◌, ◌≤◌, ◌<◌, ◌≡◌, refl, sym, ap, ◌∙◌, inl, inr, arith, ltb,
  Bool-cases, ltb→lt, subst,
}
use native.Mathlib.Nat.{pow-suc}
use index_one.Witness.Tree.{split_loop, split_point}

pub record IsSplit (n k : ℕ) : Type 0 where
  pub exponent : ℕ
  pub power : k ≡ 2 ^ exponent
  pub below : k < n
  pub half : n ≤ k * 2

pub two_pow-suc : (i : ℕ) → 2 ^ suc i ≡ 2 ^ i * 2
two_pow-suc i = pow-suc 2 i

split_loop-IsSplit :
    (fuel n k i : ℕ) → k ≡ 2 ^ i → 0 < k → k < n → n ≤ k + fuel → IsSplit n (split_loop fuel n k)
unfolding split_loop
split_loop-IsSplit zero n k i e p h f = absurd (omega arith)
split_loop-IsSplit (suc fuel) n k i e p h f = elim (Bool-cases (ltb (k * 2) n)) [
  | inl more ↦ rw more (
      split_loop-IsSplit fuel n (k * 2) (suc i) (ap (λ (x : ℕ). x * 2) e ∙ sym (two_pow-suc i))
        (omega arith) (ltb→lt _ _ more) (omega arith))
  | inr done ↦ rw done (record { exponent = i; power = e; below = h; half = ground (arith, done) })
]

-- `split_point` of a size above 1 is a power of two below it, and at least half of it.
pub split_point-IsSplit : (n : ℕ) → 1 < n → IsSplit n (split_point n)
unfolding split_point
split_point-IsSplit n h = split_loop-IsSplit n n 1 0 refl (omega arith) h (omega arith)

pub split_point_bounds :
    (n : ℕ) → 1 < n → (0 < split_point n) × (split_point n < n) × (n ≤ split_point n * 2)
split_point_bounds n h = let s = split_point-IsSplit n h in (omega (arith, s.half), s.below, s.half)

pub two_pow_pos : (i : ℕ) → 0 < 2 ^ i
two_pow_pos zero = omega arith
two_pow_pos (suc i) = omega (arith, two_pow-suc i, two_pow_pos i)

-- A power of two below another is at most its half.
pub two_pow_half : (i d : ℕ) → 2 ^ i < 2 ^ suc d → 2 ^ i ≤ 2 ^ d
two_pow_half zero d h = omega (arith, two_pow_pos d)
two_pow_half (suc i) zero h = omega (arith, two_pow-suc i, two_pow_pos i, h)
two_pow_half (suc i) (suc d) h = omega (
  arith,
  two_pow-suc i,
  two_pow-suc d,
  two_pow-suc (suc d),
  two_pow_half i d (omega (arith, two_pow-suc i, two_pow-suc (suc d), h)),
)

-- Both parts of a tree of at most 2 ^ (d + 1) leaves have at most 2 ^ d leaves.
pub split_point_depth :
    (n d : ℕ) → 1 < n → n ≤ 2 ^ suc d → (split_point n ≤ 2 ^ d) × (n - split_point n ≤ 2 ^ d)
split_point_depth n d h le =
    let s = split_point-IsSplit n h in
    let half : split_point n ≤ 2 ^ d =
      subst (λ (x : ℕ). x ≤ 2 ^ d) (sym s.power)
        (two_pow_half s.exponent d
          (subst (λ (x : ℕ). x < 2 ^ suc d) s.power (omega (arith, s.below, le)))) in
    (half, omega (arith, s.half, half))
