-- ===== src/RevMap/Paths.antt =====
-- The path from a key to the root, and the leaf that it starts from.
use index_one.Base.{
  ℕ, zero, suc, ◌-◌, ◌≤◌, ◌≡◌, refl, sym, ap, ◌∙◌, subst, inl, inr, Bool, true, false, List, [],
  ◌∷◌, arith, if◌then◌else◌, length, ◌==◌, ==_iff, Bool-cases, contains, nat_eq, list_eq, option_eq,
}
use index_one.RevMap.Defs.{Hash, max_depth, bit, leaf_hash, empty_leaf, at_height, fold_up}
use index_one.RevMap.Map.{halves, subtree_root}
use index_one.RevMap.Order.{IsKey}
use index_one.RevMap.Bits.{SameTo-eq}
use index_one.RevMap.Halves.{Region, halves-Region, contains-halves, node_over, subtree_root-halves}
use index_one.RevMap.NonInclusion.{below, fold_up-node, fold_up-nil}
use index_one.Crypto.{Primitives}

-- The keys that are left on the side of the key after so many levels.
unfoldable pub bottom : ℕ → List Hash → Hash → List Hash
bottom zero ks key = ks
bottom (suc h) ks key = bottom h (halves (max_depth - suc h) key ks).0 key

pub bottom-Region :
    (h : ℕ) (ks : List Hash) (key : Hash)
    → h ≤ max_depth
    → Region key (max_depth - h) ks
    → Region key max_depth (bottom h ks key)
      × (contains ks key ≡ true → contains (bottom h ks key) key ≡ true)
unfolding bottom
bottom-Region zero ks key inside r = (r, λ there. there)
bottom-Region (suc h) ks key inside r =
    let same = (halves (max_depth - suc h) key ks).0 in
    let (narrow, kept) = halves-Region key (max_depth - suc h) ks r in
    let (rest, still) =
      bottom-Region h same key (omega (arith, inside))
        (subst (λ d. Region key d same) (below h inside) narrow) in
    (rest, λ there. still (kept there))

contains-bottom :
    (h : ℕ) (ks : List Hash) (key other : Hash)
    → contains (bottom h ks key) other ≡ true
    → contains ks other ≡ true
unfolding bottom
contains-bottom zero ks key other there = there
contains-bottom (suc h) ks key other there =
    contains-halves key other (max_depth - suc h) ks
      (contains-bottom h (halves (max_depth - suc h) key ks).0 key other there)

module _ ⦃prim : Primitives⦄ where
  -- The siblings on the path, from the top.
  unfoldable pub path_of : ℕ → List Hash → Hash → List Hash
  path_of zero ks key = []
  path_of (suc h) ks key =
      let (same, other) = halves (max_depth - suc h) key ks in
      subtree_root h other ∷ path_of h same key

  pub length-path_of : (h : ℕ) (ks : List Hash) (key : Hash) → length (path_of h ks key) ≡ h
  unfolding path_of
  length-path_of zero ks key = refl
  length-path_of (suc h) ks key =
      ap suc (length-path_of h (halves (max_depth - suc h) key ks).0 key)

  -- The path folds to the root from what is left at the bottom.
  pub fold_up-path_of :
      (h : ℕ) (ks : List Hash) (key : Hash)
      → h ≤ max_depth
      → fold_up key (subtree_root zero (bottom h ks key)) (max_depth - h) (path_of h ks key)
        ≡ subtree_root h ks
  unfolding path_of bottom
  fold_up-path_of zero ks key inside = fold_up-nil key (subtree_root zero ks) (max_depth - 0)
  fold_up-path_of (suc h) ks key inside =
      let depth = max_depth - suc h in
      let sides = halves depth key ks in
      let leaf = subtree_root zero (bottom h sides.0 key) in
      fold_up-node key leaf (subtree_root h sides.1) depth (path_of h sides.0 key)
      ∙ ap (λ c. node_over (bit key depth == 0) c (subtree_root h sides.1))
          (ap (λ d. fold_up key leaf d (path_of h sides.0 key)) (below h inside)
            ∙ fold_up-path_of h sides.0 key (omega (arith, inside)))
      ∙ sym (subtree_root-halves key h ks)

  leaf_over :
      (ks : List Hash) (key : Hash) (here : Bool)
      → IsKey key
      → Region key max_depth ks
      → (contains ks key ≡ here)
      → subtree_root zero ks ≡ (if here then leaf_hash key else empty_leaf)
  unfolding subtree_root at_height
  leaf_over [] key true is_key r there = absurd (ground (arith, there))
  leaf_over [] key false is_key r there = refl
  leaf_over (k ∷ ks) key here is_key r there =
      let same : key ≡ k =
        SameTo-eq key k 32 is_key.bytes r.all_keys.0.bytes is_key.size r.all_keys.0.size
          r.under.0 in
      let is_here : here ≡ true = ground (arith, there, ==_iff k key, same) in
      rw is_here (ap leaf_hash (sym same))

  -- What is left at the bottom is the leaf of the key, or nothing.
  pub bottom_leaf :
      (ks : List Hash) (key : Hash)
      → IsKey key
      → Region key 0 ks
      → subtree_root zero (bottom max_depth ks key)
        ≡ (if contains ks key then leaf_hash key else empty_leaf)
  bottom_leaf ks key is_key r =
      let (rest, still) = bottom-Region max_depth ks key (omega arith) r in
      let same : contains (bottom max_depth ks key) key ≡ contains ks key =
        elim (Bool-cases (contains ks key)) [
          | inl there ↦ still there ∙ sym there
          | inr absent ↦ elim (Bool-cases (contains (bottom max_depth ks key) key)) [
            | inl there ↦
                absurd (ground (arith, absent, contains-bottom max_depth ks key key there))
            | inr none' ↦ none' ∙ sym absent
          ]
        ] in
      leaf_over (bottom max_depth ks key) key (contains ks key) is_key rest same
