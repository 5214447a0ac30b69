-- ===== src/Witness/TreeHash.antt =====
-- RFC 6962's Merkle tree hash by recomputation: the specification of the memoized tree core.
use index_one.Base.{
  ℕ, zero, suc, ◌+◌, ◌-◌, ◌≤◌, ◌<◌, ◌≡◌, refl, ◌∙◌, List, [], ◌∷◌, ◌++◌, arith, if◌then◌else◌,
  length, ◌==◌, nat_eq, list_eq, option_eq,
}
use mathlib.Core.Path.{ap₂}
use index_one.Crypto.{Primitives}
use index_one.Witness.Defs.{Digest, hash_node, empty_root}
use index_one.Witness.Tree.{split_point, leaf_at}
use index_one.Witness.Split.{split_point_bounds}

module _ ⦃prim : Primitives⦄ where
  -- RFC 6962's MTH(D[start : start + len]) by recomputation, with no cache.
  unfoldable pub tree_hash_fuel : ℕ → List Digest → ℕ → ℕ → Digest
  tree_hash_fuel zero leaves start len = empty_root
  tree_hash_fuel (suc fuel) leaves start len =
      let k = split_point len in
      let node =
        hash_node (tree_hash_fuel fuel leaves start k)
          (tree_hash_fuel fuel leaves (start + k) (len - k)) in
      if len == 0 then empty_root else if len == 1 then leaf_at leaves start else node

  unfoldable pub tree_hash : List Digest → ℕ → ℕ → Digest
  tree_hash leaves start len = tree_hash_fuel (suc len) leaves start len

  tree_hash_fuel_enough :
      (fuel fuel' : ℕ) (leaves : List Digest) (start len : ℕ)
      → len < fuel
      → len < fuel'
      → tree_hash_fuel fuel leaves start len ≡ tree_hash_fuel fuel' leaves start len
  unfolding tree_hash_fuel
  tree_hash_fuel_enough zero fuel' leaves start len h h' = absurd (omega arith)
  tree_hash_fuel_enough (suc fuel) zero leaves start len h h' = absurd (omega arith)
  tree_hash_fuel_enough (suc fuel) (suc fuel') leaves start len h h' = ground (
    arith,
    split_point_bounds len,
    tree_hash_fuel_enough fuel fuel' leaves start (split_point len),
    tree_hash_fuel_enough fuel fuel' leaves (start + split_point len) (len - split_point len),
  )

  tree_hash_fuel_split :
      (fuel : ℕ) (leaves : List Digest) (start len : ℕ)
      → 1 < len
      → tree_hash_fuel (suc fuel) leaves start len
        ≡ hash_node
            (tree_hash_fuel fuel leaves start (split_point len))
            (tree_hash_fuel fuel leaves (start + split_point len) (len - split_point len))
  unfolding tree_hash_fuel
  tree_hash_fuel_split fuel leaves start len h = ground arith

  -- With fuel to spare it is `tree_hash`.
  pub tree_hash_fuel-eq :
      (fuel : ℕ) (leaves : List Digest) (start len : ℕ)
      → len < fuel
      → tree_hash_fuel fuel leaves start len ≡ tree_hash leaves start len
  unfolding tree_hash
  tree_hash_fuel-eq fuel leaves start len h =
      tree_hash_fuel_enough fuel (suc len) leaves start len h (omega arith)

  tree_hash_first :
      (leaves : List Digest) (start len : ℕ)
      → 1 < len
      → tree_hash leaves start len
        ≡ hash_node
            (tree_hash_fuel len leaves start (split_point len))
            (tree_hash_fuel len leaves (start + split_point len) (len - split_point len))
  unfolding tree_hash
  tree_hash_first leaves start len h = tree_hash_fuel_split len leaves start len h

  -- The equation of RFC 6962 for more than one leaf.
  pub tree_hash_split :
      (leaves : List Digest) (start len : ℕ)
      → 1 < len
      → tree_hash leaves start len
        ≡ hash_node
            (tree_hash leaves start (split_point len))
            (tree_hash leaves (start + split_point len) (len - split_point len))
  tree_hash_split leaves start len h =
      let (pos, below, half) = split_point_bounds len h in
      let k = split_point len in
      tree_hash_first leaves start len h
      ∙ ap₂ hash_node (tree_hash_fuel-eq len leaves start k below)
          (tree_hash_fuel-eq len leaves (start + k) (len - k) (omega arith))

  pub tree_hash_one :
      (leaves : List Digest) (start : ℕ) → tree_hash leaves start 1 ≡ leaf_at leaves start
  unfolding tree_hash tree_hash_fuel
  tree_hash_one leaves start = refl

  pub tree_hash_zero : (leaves : List Digest) (start : ℕ) → tree_hash leaves start 0 ≡ empty_root
  unfolding tree_hash tree_hash_fuel
  tree_hash_zero leaves start = refl

  pub leaf_at-append :
      (xs ys : List Digest) (i : ℕ) → i < length xs → leaf_at (xs ++ ys) i ≡ leaf_at xs i
  leaf_at-append [] ys i h = absurd (omega arith)
  leaf_at-append (x ∷ xs) ys zero h = refl
  leaf_at-append (x ∷ xs) ys (suc i) h = leaf_at-append xs ys i (omega arith)

  tree_hash_fuel-append :
      (fuel : ℕ) (leaves more : List Digest) (start len : ℕ)
      → start + len ≤ length leaves
      → tree_hash_fuel fuel (leaves ++ more) start len ≡ tree_hash_fuel fuel leaves start len
  unfolding tree_hash_fuel
  tree_hash_fuel-append zero leaves more start len h = refl
  tree_hash_fuel-append (suc fuel) leaves more start len h = ground (
    arith,
    leaf_at-append leaves more start,
    split_point_bounds len,
    tree_hash_fuel-append fuel leaves more start (split_point len),
    tree_hash_fuel-append fuel leaves more (start + split_point len) (len - split_point len),
  )

  -- Appending leaves does not change the hash of a range that is there: the log only grows.
  pub tree_hash-append :
      (leaves more : List Digest) (start len : ℕ)
      → start + len ≤ length leaves
      → tree_hash (leaves ++ more) start len ≡ tree_hash leaves start len
  unfolding tree_hash
  tree_hash-append leaves more start len h = tree_hash_fuel-append (suc len) leaves more start len h

  -- The tree hash of all leaves.
  abbrev pub log_root : List Digest → Digest
  log_root leaves = tree_hash leaves 0 (length leaves)
