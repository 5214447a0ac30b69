-- ===== src/RevMap/NonInclusion.antt =====
-- A key that is proved not revoked is not in the map.
use index_one.Base.{
  ℕ, zero, suc, ◌-◌, ◌≤◌, ◌≡◌, refl, sym, ap, ◌∙◌, subst, ◌⊎◌, inl, inr, Bool, true, false, some,
  List, [], ◌∷◌, arith, length, All, ◌==◌, ==_iff, Bool-cases, contains, nat_eq, list_eq, option_eq,
}
use index_one.RevMap.Defs.{
  Hash, MapProof, max_depth, bit, empty_leaf, expand_from, expand, fold_up, recompute_root,
  verify_non_inclusion,
}
use index_one.RevMap.Map.{RevocationMap, halves, subtree_root, map_root}
use index_one.RevMap.Order.{IsValid}
use index_one.RevMap.Bits.{SameTo}
use index_one.RevMap.Halves.{Region, halves-Region, node_over, subtree_root-halves}
use index_one.RevMap.Soundness.{
  leaf-empty, same_node_hash, length-subtree_root, length-fold_up, subtree_root_leaf, mapped,
  expanded,
}
use index_one.Crypto.{Primitives}
use index_one.Witness.Collision.{Collision, IsSized}

-- One level down is one level less left.
pub below : (h : ℕ) → suc h ≤ max_depth → suc (max_depth - suc h) ≡ max_depth - h
below h inside = omega (arith, inside)

All-SameTo-zero : (key : Hash) (ks : List Hash) → All (SameTo 0 key) ks
All-SameTo-zero key [] = tt
All-SameTo-zero key (k ∷ ks) = (λ i h. absurd (omega (arith, h)), All-SameTo-zero key ks)

pub IsValid-Region : (m : RevocationMap) (key : Hash) → IsValid m → Region key 0 m.keys
IsValid-Region m key valid = record {
  all_keys = valid.keys;
  increasing = valid.increasing;
  under = All-SameTo-zero key m.keys;
}

module _ ⦃prim : Primitives⦄ where
  same_sides :
      (b : Bool) (c s c' s' : Hash)
      → length c ≡ 32
      → length s ≡ 32
      → length c' ≡ 32
      → length s' ≡ 32
      → node_over b c s ≡ node_over b c' s'
      → (c ≡ c') ⊎ Collision
  same_sides true c s c' s' lc ls lc' ls' e = elim (same_node_hash c s c' s' lc lc' e) [
    | inl (same, _) ↦ inl same
    | inr x ↦ inr x
  ]
  same_sides false c s c' s' lc ls lc' ls' e = elim (same_node_hash s c s' c' ls ls' e) [
    | inl (_, same) ↦ inl same
    | inr x ↦ inr x
  ]

  pub fold_up-node :
      (key leaf sib : Hash) (depth : ℕ) (sibs : List Hash)
      → fold_up key leaf depth (sib ∷ sibs)
        ≡ node_over (bit key depth == 0) (fold_up key leaf (suc depth) sibs) sib
  unfolding fold_up
  fold_up-node key leaf sib depth sibs =
      ap (λ d. node_over (bit key depth == 0) (fold_up key leaf d sibs) sib) (omega arith)

  pub fold_up-nil : (key leaf : Hash) (depth : ℕ) → fold_up key leaf depth [] ≡ leaf
  unfolding fold_up
  fold_up-nil key leaf depth = refl

  length-empty_leaf : IsSized → length empty_leaf ≡ 32
  unfolding empty_leaf
  length-empty_leaf sized = sized _

  -- A path from the empty leaf of the key to the root of a subtree that holds the key exhibits a
  -- collision.
  full_path :
      (key : Hash) (h : ℕ) (ks sibs : List Hash)
      → IsSized
      → h ≤ max_depth
      → Region key (max_depth - h) ks
      → contains ks key ≡ true
      → length sibs ≡ h
      → All (λ s. length s ≡ 32) sibs
      → fold_up key empty_leaf (max_depth - h) sibs ≡ subtree_root h ks
      → Collision
  full_path key h [] sibs sized inside r there n sizes e = absurd (ground (arith, there))
  full_path key zero (k ∷ ks) [] sized inside r there n sizes e =
      leaf-empty k
        (sym (subtree_root_leaf sized k ks) ∙ sym e ∙ fold_up-nil key empty_leaf (max_depth - 0))
  full_path key zero (k ∷ ks) (sib ∷ sibs) sized inside r there n sizes e =
      absurd (omega (arith, n))
  full_path key (suc h) (k ∷ ks) [] sized inside r there n sizes e = absurd (omega (arith, n))
  full_path key (suc h) (k ∷ ks) (sib ∷ sibs) sized inside r there n sizes e =
      let depth = max_depth - suc h in
      let sides = halves depth key (k ∷ ks) in
      let (narrow, kept) = halves-Region key depth (k ∷ ks) r in
      let cur = fold_up key empty_leaf (suc depth) sibs in
      let node =
        sym (fold_up-node key empty_leaf sib depth sibs) ∙ e ∙ subtree_root-halves key h (k ∷ ks) in
      elim (same_sides (bit key depth == 0) cur sib (subtree_root h sides.0)
        (subtree_root h sides.1)
        (length-fold_up sized key empty_leaf (suc depth) sibs (length-empty_leaf sized)) sizes.0
        (length-subtree_root sized h sides.0) (length-subtree_root sized h sides.1) node) [
          | inr c ↦ c
          | inl same ↦
              full_path key h sides.0 sibs sized (omega (arith, inside))
                (subst (λ d. Region key d sides.0) (below h inside) narrow) (kept there)
                (omega (arith, n)) sizes.1
                (ap (λ d. fold_up key empty_leaf d sibs) (sym (below h inside)) ∙ same)
        ]

  -- Where `blake3` gives 32 bytes, the keys of a map are in order and the siblings of a proof have 32
  -- bytes, a key that `verify_non_inclusion` accepts against the root of the map is not one of its
  -- keys, or two inputs are exhibited that `blake3` hashes alike.
  pub verify_non_inclusion-map_root :
      (m : RevocationMap) (key : Hash) (proof : MapProof)
      → IsSized
      → IsValid m
      → All (λ s. length s ≡ 32) proof.siblings
      → verify_non_inclusion (map_root m) key proof ≡ true
      → (contains m.keys key ≡ false) ⊎ Collision
  unfolding verify_non_inclusion recompute_root expand map_root
  verify_non_inclusion-map_root m key proof sized valid sizes h =
      let (full, unfolded, folded) =
        mapped (λ full. fold_up key empty_leaf 0 full) (expand proof) (map_root m)
          ((==_iff (recompute_root key empty_leaf proof) (some (map_root m))).0 h) in
      let whole : expand_from max_depth 0 proof.present proof.siblings ≡ some full =
        ground (arith, unfolded) in
      let (n, sizes') = expanded sized max_depth 0 proof.present proof.siblings full sizes whole in
      elim (Bool-cases (contains m.keys key)) [
        | inr absent ↦ inl absent
        | inl there ↦ inr (
            full_path key max_depth m.keys full sized (omega arith) (IsValid-Region m key valid)
              there n sizes' folded)
      ]
