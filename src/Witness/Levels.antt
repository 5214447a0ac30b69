-- ===== src/Witness/Levels.antt =====
-- Numbers and trees by the level: the bits above a level, and the split at a power of two.
use index_one.Base.{
  ℕ, suc, ◌+◌, ◌-◌, ◌*◌, ◌^◌, ◌≤◌, ◌<◌, ◌≡◌, refl, sym, subst, arith, zero, ◌/◌, ◌%◌, ap, ◌∙◌, inl,
  inr, List, ltb, Bool-cases, ltb→lt,
}
use native.Mathlib.Nat.{mul_assoc, mul_right_comm, add-mul, one-mul, mul-one}
use mathlib.Core.Path.{ap₂}
use index_one.Crypto.{Primitives}
use index_one.Witness.Defs.{Digest, hash_node}
use index_one.Witness.Tree.{split_point}
use index_one.Witness.Split.{IsSplit, split_point-IsSplit, two_pow-suc, two_pow_half, two_pow_pos}
use index_one.Witness.TreeHash.{tree_hash, tree_hash_split}
use index_one.Witness.Rounds.{strip, strip_odd, strip_even}

split_unique : (n k k' : ℕ) → IsSplit n k → IsSplit n k' → k ≤ k'
split_unique n k k' s t =
    subst (λ (x : ℕ). k ≤ x) (sym t.power)
      (subst (λ (x : ℕ). x ≤ 2 ^ t.exponent) (sym s.power)
        (two_pow_half s.exponent t.exponent (
          subst (λ (x : ℕ). x < 2 ^ suc t.exponent) s.power
            (omega (arith, s.below, t.half, t.power, two_pow-suc t.exponent)))))

-- The split of a size is the one power of two below it that is at least its half.
pub split_point-eq :
    (n level : ℕ) → 1 < n → 2 ^ level < n → n ≤ 2 ^ level * 2 → split_point n ≡ 2 ^ level
split_point-eq n level more below half =
    let s = split_point-IsSplit n more in
    let t : IsSplit n (2 ^ level) = record {
      exponent = level;
      power = refl;
      below = below;
      half = half;
    } in
    omega (
      arith,
      split_unique n (split_point n) (2 ^ level) s t,
      split_unique n (2 ^ level) (split_point n) t s,
    )

-- A number with the bits `u` above a level and the value `x` below it.
abbrev pub lift : ℕ → ℕ → ℕ → ℕ
lift level u x = u * 2 ^ level + x

lift_double : (level u x : ℕ) → lift (suc level) u x ≡ u * 2 ^ level * 2 + x
lift_double level u x =
    ap (λ t. t + x) (ap (λ t. u * t) (two_pow-suc level) ∙ sym (mul_assoc u (2 ^ level) 2))

-- One level down, with a bit that is not set and with one that is.
pub lift_low : (level u x : ℕ) → lift (suc level) u x ≡ lift level (u * 2) x
lift_low level u x = lift_double level u x ∙ ap (λ t. t + x) (mul_right_comm u (2 ^ level) 2)

pub lift_high :
    (level u x : ℕ) → 2 ^ level ≤ x → lift (suc level) u x ≡ lift level (u * 2 + 1) (x - 2 ^ level)
lift_high level u x h =
    omega (arith, lift_low level u x, add-mul (u * 2) 1 (2 ^ level), one-mul (2 ^ level))

-- A number one level down, whatever its bit is there.
pub record Lowered (level v r : ℕ) : Type 0 where
  pub high : ℕ
  pub low : ℕ
  pub same : lift (suc level) v r ≡ lift level high low
  pub above : high / 2 ≡ v
  pub at_least : v * 2 ≤ high
  pub small : low < 2 ^ level

pub lowered : (level v r : ℕ) → r < 2 ^ suc level → Lowered level v r
lowered level v r h = elim (Bool-cases (ltb r (2 ^ level))) [
  | inl less ↦ record {
    high = v * 2;
    low = r;
    same = lift_low level v r;
    above = omega arith;
    at_least = omega arith;
    small = ltb→lt r (2 ^ level) less;
  }
  | inr more ↦
      let reach : 2 ^ level ≤ r = ground (arith, more) in
      record {
        high = v * 2 + 1;
        low = r - 2 ^ level;
        same = lift_high level v r reach;
        above = omega arith;
        at_least = omega arith;
        small = omega (arith, reach, h, two_pow-suc level, two_pow_pos level);
      }
]

module _ ⦃prim : Primitives⦄ where
  -- All bits below a level are set: they are stripped.
  pub strip_full :
      (level u v r : ℕ)
      → u % 2 ≡ 0
      → r < 2 ^ level
      → strip (lift level u (2 ^ level - 1)) (lift level v r) ≡ (u, v)
  strip_full zero u v r even small =
      let at_u : lift 0 u (2 ^ 0 - 1) ≡ u = omega (arith, mul-one u) in
      let at_v : lift 0 v r ≡ v = omega (arith, mul-one v, small) in
      ap₂ strip at_u at_v ∙ strip_even u v even
  strip_full (suc level) u v r even small =
      let p = 2 ^ level in
      let positive = two_pow_pos level in
      let double = two_pow-suc level in
      let node = lift_double level u (2 ^ suc level - 1) in
      let odd : lift (suc level) u (2 ^ suc level - 1) % 2 ≡ 1 =
        omega (arith, node, double, positive) in
      let half : lift (suc level) u (2 ^ suc level - 1) / 2 ≡ lift level u (p - 1) =
        omega (arith, node, double, positive) in
      let last : lift (suc level) v r / 2 ≡ lift level v (r / 2) =
        omega (arith, lift_double level v r) in
      strip_odd (lift (suc level) u (2 ^ suc level - 1)) (lift (suc level) v r) odd
      ∙ ap₂ strip half last
      ∙ strip_full level u v (r / 2) even (omega (arith, small, double))

  -- The tree hash of a range between a power of two and its double.
  pub tree_hash_at :
      (leaves : List Digest) (start n level : ℕ)
      → 2 ^ level < n
      → n ≤ 2 ^ level * 2
      → tree_hash leaves start n
        ≡ hash_node
            (tree_hash leaves start (2 ^ level))
            (tree_hash leaves (start + 2 ^ level) (n - 2 ^ level))
  tree_hash_at leaves start n level below half =
      let more : 1 < n = omega (arith, below, two_pow_pos level) in
      subst
        (λ k.
          tree_hash leaves start n
          ≡ hash_node (tree_hash leaves start k) (tree_hash leaves (start + k) (n - k)))
        (split_point-eq n level more below half) (tree_hash_split leaves start n more)
