-- ===== src/Witness/Memo.antt =====
-- The memoized tree core computes RFC 6962's tree hash, and its cache never has to be invalidated.
use index_one.Base.{
  ℕ, zero, suc, ◌+◌, ◌-◌, ◌≤◌, ◌<◌, ◌≡◌, refl, sym, ◌∙◌, subst, inl, inr, Bool, true, false, Option,
  none, some, List, [], ◌∷◌, ◌++◌, arith, if◌then◌else◌, length, All, size_cases, Option-cases,
  length-append,
}
use mathlib.Core.Path.{ap₂}
use index_one.Crypto.{Primitives}
use index_one.Witness.Defs.{
  Digest, ActionReceipt, WitnessEncoding, hash_leaf, hash_node, empty_root,
}
use index_one.Witness.Tree.{split_point, Cache, cached, leaf_at, perfect, store, subtree}
use index_one.Witness.TreeHash.{
  tree_hash, tree_hash_zero, tree_hash_one, tree_hash_split, tree_hash-append, log_root,
}
use index_one.Witness.Split.{split_point_bounds}
use index_one.Witness.Log.{Witness, size, root, append, new}

module _ ⦃prim : Primitives⦄ where
  -- Every entry of the cache is the hash of a range of leaves that are there.
  abbrev pub IsSound : List Digest → Cache → Type 0
  IsSound leaves c =
      All
        (λ (e : (ℕ × ℕ) × Digest).
          (e.0.0 + e.0.1 ≤ length leaves) × (e.1 ≡ tree_hash leaves e.0.0 e.0.1))
        c

  cached-IsSound :
      (leaves : List Digest) (start len : ℕ) (c : Cache) (h : Digest)
      → IsSound leaves c
      → cached start len c ≡ some h
      → h ≡ tree_hash leaves start len
  unfolding cached
  cached-IsSound leaves start len [] h v e = cc
  cached-IsSound leaves start len (((s, l), d) ∷ c) h v e =
      ground (arith, cached-IsSound leaves start len c h v.1)

  -- What the cache answers for a range.
  abbrev memo : ℕ → ℕ → Cache → Option Digest
  memo start len c = if perfect start len then cached start len c else none

  memo-IsSound :
      (leaves : List Digest) (start len : ℕ) (c : Cache) (h : Digest)
      → IsSound leaves c
      → memo start len c ≡ some h
      → h ≡ tree_hash leaves start len
  memo-IsSound leaves start len c h v e = ground (arith, cached-IsSound leaves start len c h v)

  subtree_zero :
      (fuel : ℕ) (leaves : List Digest) (start : ℕ) (c : Cache)
      → subtree (suc fuel) leaves start 0 c ≡ (empty_root, c)
  unfolding subtree
  subtree_zero fuel leaves start c = refl

  subtree_one :
      (fuel : ℕ) (leaves : List Digest) (start : ℕ) (c : Cache)
      → subtree (suc fuel) leaves start 1 c ≡ (leaf_at leaves start, c)
  unfolding subtree
  subtree_one fuel leaves start c = refl

  subtree_hit :
      (fuel : ℕ) (leaves : List Digest) (start len : ℕ) (c : Cache) (h : Digest)
      → 1 < len
      → memo start len c ≡ some h
      → subtree (suc fuel) leaves start len c ≡ (h, c)
  unfolding subtree
  subtree_hit fuel leaves start len c h more e = ground arith

  subtree_miss :
      (fuel : ℕ) (leaves : List Digest) (start len : ℕ) (c : Cache)
      → 1 < len
      → memo start len c ≡ none
      → let k = split_point len in
        let (left, c1) = subtree fuel leaves start k c in
        let (right, c2) = subtree fuel leaves (start + k) (len - k) c1 in
        subtree (suc fuel) leaves start len c
        ≡ store (perfect start len) start len (hash_node left right, c2)
  unfolding subtree
  subtree_miss fuel leaves start len c more e = ground arith

  -- A computed range: its hash, and a cache that is still sound.
  abbrev pub Computes : List Digest → ℕ → ℕ → Digest × Cache → Type 0
  Computes leaves start len x = (x.0 ≡ tree_hash leaves start len) × IsSound leaves x.1

  store-Computes :
      (b : Bool) (leaves : List Digest) (start len : ℕ) (h : Digest) (c : Cache)
      → start + len ≤ length leaves
      → h ≡ tree_hash leaves start len
      → IsSound leaves c
      → Computes leaves start len (store b start len (h, c))
  store-Computes true leaves start len h c fits e v = (e, ((fits, e), v))
  store-Computes false leaves start len h c fits e v = (e, v)

  pub subtree-Computes :
      (fuel : ℕ) (leaves : List Digest) (start len : ℕ) (c : Cache)
      → len < fuel
      → start + len ≤ length leaves
      → IsSound leaves c
      → Computes leaves start len (subtree fuel leaves start len c)
  subtree-Computes zero leaves start len c h fits v = absurd (omega arith)
  subtree-Computes (suc fuel) leaves start len c h fits v = elim (size_cases len) [
    | inl none_left ↦
        subst (λ (n : ℕ). Computes leaves start n (subtree (suc fuel) leaves start n c))
          (sym none_left)
          (subst (Computes leaves start 0) (sym (subtree_zero fuel leaves start c))
            (sym (tree_hash_zero leaves start), v))
    | inr (inl one) ↦
        subst (λ (n : ℕ). Computes leaves start n (subtree (suc fuel) leaves start n c)) (sym one)
          (subst (Computes leaves start 1) (sym (subtree_one fuel leaves start c))
            (sym (tree_hash_one leaves start), v))
    | inr (inr more) ↦ elim (Option-cases (memo start len c)) [
      | inr (d, hit) ↦
          subst (Computes leaves start len) (sym (subtree_hit fuel leaves start len c d more hit))
            (memo-IsSound leaves start len c d v hit, v)
      | inl miss ↦
          let (pos, below, half) = split_point_bounds len more in
          let k = split_point len in
          let (el, v1) = subtree-Computes fuel leaves start k c (omega arith) (omega arith) v in
          let (er, v2) =
            subtree-Computes fuel leaves (start + k) (len - k) (subtree fuel leaves start k c).1
              (omega arith) (omega arith) v1 in
          subst (Computes leaves start len) (sym (subtree_miss fuel leaves start len c more miss)) (
            store-Computes (perfect start len) leaves start len _ _ fits
              (ap₂ hash_node el er ∙ sym (tree_hash_split leaves start len more)) v2)
    ]
  ]

  -- The invariant of a witness: its cache holds hashes of its leaves.
  abbrev pub IsValid : Witness → Type 0
  IsValid w = IsSound w.leaf_hashes w.subtree_cache

  -- On a valid witness the memoized root is the RFC 6962 hash of all leaves, recomputed with no
  -- cache; the call keeps the leaves and leaves a valid witness.
  pub root-eq-log_root :
      (w : Witness)
      → IsValid w
      → ((root w).0 ≡ log_root w.leaf_hashes)
        × ((root w).1.leaf_hashes ≡ w.leaf_hashes)
        × IsValid (root w).1
  unfolding root
  root-eq-log_root w v =
      let (e, v') =
        subtree-Computes (suc (size w)) w.leaf_hashes 0 (size w) w.subtree_cache (omega arith)
          (omega arith) v in
      (e, refl, v')

  pub new-IsValid : IsValid new
  new-IsValid = tt

  IsSound-append :
      (leaves more : List Digest) (c : Cache) → IsSound leaves c → IsSound (leaves ++ more) c
  IsSound-append leaves more [] v = tt
  IsSound-append leaves more (e ∷ c) v = (
    (
      omega (arith, v.0.0, length-append leaves more),
      v.0.1 ∙ sym (tree_hash-append leaves more e.0.0 e.0.1 v.0.0),
    ),
    IsSound-append leaves more c v.1,
  )

module _ ⦃prim : Primitives⦄ ⦃enc : WitnessEncoding⦄ where
  -- `append` keeps a valid witness valid without touching the cache, and returns the index at which
  -- the leaf hash of the receipt now stands; the leaves before it are unchanged.
  pub append-IsValid :
      (w : Witness) (receipt : ActionReceipt)
      → IsValid w
      → IsValid (append w receipt).1
        × ((append w receipt).1.leaf_hashes
            ≡ w.leaf_hashes ++ hash_leaf (enc.receipt_bytes receipt) ∷ [])
        × (leaf_at (append w receipt).1.leaf_hashes (append w receipt).0
            ≡ hash_leaf (enc.receipt_bytes receipt))
  unfolding append
  append-IsValid w receipt v = (
    IsSound-append w.leaf_hashes _ w.subtree_cache v,
    refl,
    leaf_at_end w.leaf_hashes (hash_leaf (enc.receipt_bytes receipt)),
  )
    where
      leaf_at_end : (xs : List Digest) (y : Digest) → leaf_at (xs ++ y ∷ []) (length xs) ≡ y
      leaf_at_end [] y = refl
      leaf_at_end (x ∷ xs) y = leaf_at_end xs y
