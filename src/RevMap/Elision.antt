-- ===== src/RevMap/Elision.antt =====
-- Which siblings a proof carries.
use index_one.Base.{
  ℕ, zero, suc, ◌+◌, ◌-◌, ◌≤◌, ◌≡◌, refl, sym, ap, ◌∙◌, ◌⊎◌, inl, inr, true, List, [], ◌∷◌, ◌++◌,
  arith, length, length-append, take, drop, Bytes, Bool-cases, ◌!=◌, !=_iff, list_eq, nat_eq, ◌<◌,
  option_eq,
}
use index_one.Crypto.{Primitives}
use index_one.Witness.Collision.{Collision, IsSized}
use index_one.RevMap.Defs.{Hash, max_depth, leaf_hash, node_hash, empty_leaf, at_height, at_depth}
use index_one.RevMap.Map.{
  RevocationMap, set_bit, subtree_root, halves, collect_siblings, prove, no_bits,
}
use index_one.RevMap.Soundness.{
  same_node_hash, length-at_height, length-subtree_root, subtree_root_split, subtree_root_empty,
  subtree_root_leaf,
}

module _ ⦃prim : Primitives⦄ where
  empty-node : (l r : Hash) → empty_leaf ≡ node_hash l r → Collision
  unfolding empty_leaf node_hash
  empty-node l r h = (_, _, λ e. ground (arith, e), h)

  leaf-node_hash : (k l r : Hash) → leaf_hash k ≡ node_hash l r → Collision
  unfolding leaf_hash node_hash
  leaf-node_hash k l r h = (_, _, λ e. ground (arith, e), h)

  at_height-zero : at_height zero ≡ empty_leaf
  unfolding at_height
  at_height-zero = refl

  at_height-suc : (h : ℕ) → at_height (suc h) ≡ node_hash (at_height h) (at_height h)
  unfolding at_height
  at_height-suc h = refl

  module _ (sized : IsSized) where
    -- The hash of a subtree is never the default of the height above it.
    higher : (h : ℕ) (keys : List Hash) → subtree_root h keys ≡ at_height (suc h) → Collision
    higher zero [] e =
        empty-node (at_height zero) (at_height zero)
          (sym at_height-zero ∙ sym (subtree_root_empty sized zero) ∙ e ∙ at_height-suc zero)
    higher zero (k ∷ ks) e =
        leaf-node_hash k (at_height zero) (at_height zero)
          (sym (subtree_root_leaf sized k ks) ∙ e ∙ at_height-suc zero)
    higher (suc h) [] e =
        elim (same_node_hash (at_height h) (at_height h) (at_height (suc h)) (at_height (suc h))
          (length-at_height sized h) (length-at_height sized (suc h))
          (sym (at_height-suc h)
            ∙ sym (subtree_root_empty sized (suc h))
            ∙ e
            ∙ at_height-suc (suc h))) [
              | inl (same, _) ↦ higher h [] (subtree_root_empty sized h ∙ same)
              | inr c ↦ c
            ]
    higher (suc h) (k ∷ ks) e =
        let (split, node) = subtree_root_split sized h k ks in
        let left = take split (k ∷ ks) in
        elim (same_node_hash (subtree_root h left) (subtree_root h (drop split (k ∷ ks)))
          (at_height (suc h)) (at_height (suc h)) (length-subtree_root sized h left)
          (length-at_height sized (suc h)) (sym node ∙ e ∙ at_height-suc (suc h))) [
            | inl (same, _) ↦ higher h left same
            | inr c ↦ c
          ]

    -- The test of `collect_siblings`, at the depth above a sibling of this height.
    pub kept :
        (h : ℕ) (keys : List Hash)
        → h < max_depth
        → ((subtree_root h keys != at_depth (max_depth - suc h)) ≡ true) ⊎ Collision
    unfolding at_depth
    kept h keys inside = elim (Bool-cases (subtree_root h keys != at_depth (max_depth - suc h))) [
      | inl differs ↦ inl differs
      | inr same ↦
          let height : max_depth - (max_depth - suc h) ≡ suc h = omega (arith, inside) in
          inr (
            higher h keys (
              (!=_iff (subtree_root h keys) (at_depth (max_depth - suc h))).0 same
              ∙ ap at_height height))
    ]

    -- A level whose sibling is kept.
    pub collect_step :
        (h : ℕ) (keys : List Hash) (key : Hash) (siblings : List Hash) (present : Bytes)
        → let (same, other) = halves (max_depth - suc h) key keys in
          ((subtree_root h other != at_depth (max_depth - suc h)) ≡ true)
          → collect_siblings (suc h) keys key siblings present
            ≡ collect_siblings h same key
                (siblings ++ subtree_root h other ∷ [])
                (set_bit (max_depth - suc h) present)
    unfolding collect_siblings
    collect_step h keys key siblings present differs = rw (collect_siblings, differs) refl

    collect_done :
        (keys : List Hash) (key : Hash) (siblings : List Hash) (present : Bytes)
        → length (collect_siblings zero keys key siblings present).0 ≡ length siblings + 0
    unfolding collect_siblings
    collect_done keys key siblings present = omega arith

    length-collect_siblings :
        (h : ℕ) (keys : List Hash) (key : Hash) (siblings : List Hash) (present : Bytes)
        → h ≤ max_depth
        → (length (collect_siblings h keys key siblings present).0 ≡ length siblings + h)
          ⊎ Collision
    length-collect_siblings zero keys key siblings present inside =
        inl (collect_done keys key siblings present)
    length-collect_siblings (suc h) keys key siblings present inside =
        let (same, other) = halves (max_depth - suc h) key keys in
        let step = collect_step h keys key siblings present in
        elim (kept h other (omega (arith, inside))) [
          | inr c ↦ inr c
          | inl differs ↦
              elim (length-collect_siblings h same key (siblings ++ subtree_root h other ∷ [])
                (set_bit (max_depth - suc h) present) (omega (arith, inside))) [
                  | inr c ↦ inr c
                  | inl n ↦ inl (
                      ap (λ (x : List Hash × Bytes). length x.0) (step differs)
                      ∙ omega (arith, n, length-append siblings (subtree_root h other ∷ [])))
                ]
        ]

  -- A proof carries a sibling for each of the 256 levels, those of empty subtrees too, or two inputs
  -- are exhibited that `blake3` hashes alike: nothing is elided.
  pub prove_carries_all :
      (m : RevocationMap) (key : Hash) → IsSized → (length (prove m key).siblings ≡ 256) ⊎ Collision
  unfolding prove
  prove_carries_all m key sized =
      length-collect_siblings sized max_depth m.keys key [] no_bits (omega arith)
