-- ===== src/RevMap/Soundness.antt =====
-- A key that is proved revoked is in the map.
use index_one.Base.{
  ℕ, zero, suc, ◌+◌, ◌-◌, ◌≡◌, refl, sym, ap, ◌∙◌, subst, ◌⊎◌, inl, inr, true, Option, none, some,
  List, [], ◌∷◌, ◌++◌, arith, All, length, take, drop, contains, Bytes, Bool-cases, ◌==◌, ==_iff,
  list_eq, nat_eq, option_eq, ==_refl,
}
use mathlib.Core.Option.{map as option_map, some-injective}
use index_one.Crypto.{Primitives}
use index_one.Witness.Collision.{Collision, IsSized, same_input, append_cancel}
use index_one.RevMap.Defs.{
  Hash, MapProof, max_depth, bit, leaf_hash, node_hash, empty_leaf, at_height, expand_from, expand,
  fold_up, recompute_root, verify_inclusion,
}
use index_one.RevMap.Map.{RevocationMap, subtree_root, map_root}

pub contains-take :
    (n : ℕ) (ks : List Hash) (key : Hash) → contains (take n ks) key ≡ true → contains ks key ≡ true
contains-take zero ks key h = cc
contains-take (suc n) [] key h = cc
contains-take (suc n) (k ∷ ks) key h = ground (arith, h, contains-take n ks key)

pub contains-drop :
    (n : ℕ) (ks : List Hash) (key : Hash) → contains (drop n ks) key ≡ true → contains ks key ≡ true
contains-drop zero ks key h = h
contains-drop (suc n) [] key h = cc
contains-drop (suc n) (k ∷ ks) key h = ground (arith, contains-drop n ks key h)

pub mapped :
    {A B : Type 0} (f : A → B) (m : Option A) (y : B)
    → option_map f m ≡ some y
    → (x : A) × (m ≡ some x) × (f x ≡ y)
mapped f none y e = cc
mapped f (some x) y e = (x, refl, some-injective _ _ e)

module _ ⦃prim : Primitives⦄ where
  same_leaf_hash : (a b : Hash) → leaf_hash a ≡ leaf_hash b → (a ≡ b) ⊎ Collision
  unfolding leaf_hash
  same_leaf_hash a b h = elim (same_input (0 ∷ a) (0 ∷ b) h) [ inl e ↦ inl cc | inr c ↦ inr c ]

  -- A present leaf is not the empty leaf.
  pub leaf-empty : (a : Hash) → leaf_hash a ≡ empty_leaf → Collision
  unfolding leaf_hash empty_leaf
  leaf-empty a h = (_, _, λ e. ground (arith, e), h)

  pub same_node_hash :
      (l r l' r' : Hash)
      → length l ≡ 32
      → length l' ≡ 32
      → node_hash l r ≡ node_hash l' r'
      → ((l ≡ l') × (r ≡ r')) ⊎ Collision
  unfolding node_hash
  same_node_hash l r l' r' h h' e = elim (same_input (1 ∷ (l ++ r)) (1 ∷ (l' ++ r')) e) [
    | inl same ↦ inl (append_cancel l l' r r' (h ∙ sym h') cc)
    | inr c ↦ inr c
  ]

  module _ (sized : IsSized) where
    pub length-at_height : (h : ℕ) → length (at_height h) ≡ 32
    unfolding at_height empty_leaf node_hash
    length-at_height zero = sized _
    length-at_height (suc h) = sized _

    pub length-subtree_root : (h : ℕ) (keys : List Hash) → length (subtree_root h keys) ≡ 32
    unfolding subtree_root leaf_hash node_hash
    length-subtree_root h [] = length-at_height h
    length-subtree_root zero (k ∷ ks) = sized _
    length-subtree_root (suc h) (k ∷ ks) = sized _

    pub length-fold_up :
        (key leaf : Hash) (depth : ℕ) (sibs : List Hash)
        → length leaf ≡ 32
        → length (fold_up key leaf depth sibs) ≡ 32
    unfolding fold_up node_hash
    length-fold_up key leaf depth [] h = h
    length-fold_up key leaf depth (sib ∷ sibs) h = elim (Bool-cases (bit key depth == 0)) [
      | inl left ↦ rw left (sized _)
      | inr right ↦ rw right (sized _)
    ]

    leaf_size : (key : Hash) → length (leaf_hash key) ≡ 32
    unfolding leaf_hash
    leaf_size key = sized (0 ∷ key)

    -- A path from the leaf of the key to the root of an empty subtree exhibits a collision.
    empty_path :
        (key : Hash) (depth : ℕ) (sibs : List Hash)
        → All (λ s. length s ≡ 32) sibs
        → fold_up key (leaf_hash key) depth sibs ≡ at_height (length sibs)
        → Collision
    unfolding fold_up at_height
    empty_path key depth [] sizes e = leaf-empty key e
    empty_path key depth (sib ∷ sibs) sizes e = elim (Bool-cases (bit key depth == 0)) [
      | inl left ↦
          elim (same_node_hash (fold_up key (leaf_hash key) (depth + 1) sibs) sib
            (at_height (length sibs)) (at_height (length sibs))
            (length-fold_up key (leaf_hash key) (depth + 1) sibs (leaf_size key))
            (length-at_height (length sibs)) (rw left at e)) [
              | inl (same, _) ↦ empty_path key (depth + 1) sibs sizes.1 same
              | inr c ↦ c
            ]
      | inr right ↦
          elim (same_node_hash sib (fold_up key (leaf_hash key) (depth + 1) sibs)
            (at_height (length sibs)) (at_height (length sibs)) sizes.0
            (length-at_height (length sibs)) (rw right at e)) [
              | inl (_, same) ↦ empty_path key (depth + 1) sibs sizes.1 same
              | inr c ↦ c
            ]
    ]

    pub subtree_root_split :
        (h : ℕ) (k : Hash) (ks : List Hash)
        → (split : ℕ) × (subtree_root (suc h) (k ∷ ks)
            ≡ node_hash
                (subtree_root h (take split (k ∷ ks)))
                (subtree_root h (drop split (k ∷ ks))))
    unfolding subtree_root
    subtree_root_split h k ks = (_, refl)

    pub subtree_root_empty : (h : ℕ) → subtree_root h [] ≡ at_height h
    unfolding subtree_root
    subtree_root_empty h = refl

    pub subtree_root_leaf : (k : Hash) (ks : List Hash) → subtree_root zero (k ∷ ks) ≡ leaf_hash k
    unfolding subtree_root
    subtree_root_leaf k ks = refl

    fold_step :
        (key leaf sib : Hash) (depth : ℕ) (sibs : List Hash)
        → let cur = fold_up key leaf (depth + 1) sibs in
          (fold_up key leaf depth (sib ∷ sibs) ≡ node_hash cur sib)
          ⊎ (fold_up key leaf depth (sib ∷ sibs) ≡ node_hash sib cur)
    unfolding fold_up
    fold_step key leaf sib depth sibs = elim (Bool-cases (bit key depth == 0)) [
      | inl left ↦ inl (rw (left, fold_up))
      | inr right ↦ inr (rw (right, fold_up))
    ]

    fold_nil : (key : Hash) (depth : ℕ) → fold_up key (leaf_hash key) depth [] ≡ leaf_hash key
    unfolding fold_up
    fold_nil key depth = refl

    -- A path from the leaf of the key to the root of a subtree shows the key in the subtree.
    path_key :
        (key : Hash) (h depth : ℕ) (keys sibs : List Hash)
        → length sibs ≡ h
        → All (λ s. length s ≡ 32) sibs
        → fold_up key (leaf_hash key) depth sibs ≡ subtree_root h keys
        → (contains keys key ≡ true) ⊎ Collision
    path_key key h depth [] sibs n sizes e =
        inr (empty_path key depth sibs sizes (e ∙ subtree_root_empty h ∙ ap at_height (sym n)))
    path_key key zero depth (k ∷ ks) [] n sizes e =
        elim (same_leaf_hash key k (sym (fold_nil key depth) ∙ e ∙ subtree_root_leaf k ks)) [
          | inl same ↦ inl (ground (arith, same, ==_iff k key, ==_refl key))
          | inr c ↦ inr c
        ]
    path_key key zero depth (k ∷ ks) (sib ∷ sibs) n sizes e = absurd (omega arith)
    path_key key (suc h) depth (k ∷ ks) [] n sizes e = absurd (omega arith)
    path_key key (suc h) depth (k ∷ ks) (sib ∷ sibs) n sizes e =
        let cur = fold_up key (leaf_hash key) (depth + 1) sibs in
        let cur_size = length-fold_up key (leaf_hash key) (depth + 1) sibs (leaf_size key) in
        let (split, node) = subtree_root_split h k ks in
        let left = subtree_root h (take split (k ∷ ks)) in
        let right = subtree_root h (drop split (k ∷ ks)) in
        let left_size = length-subtree_root h (take split (k ∷ ks)) in
        elim (fold_step key (leaf_hash key) sib depth sibs) [
          | inl step ↦
              elim (same_node_hash cur sib left right cur_size left_size (sym step ∙ e ∙ node)) [
                | inl (same, _) ↦
                    elim (path_key key h (depth + 1) (take split (k ∷ ks)) sibs (omega (arith, n))
                      sizes.1 same) [
                        | inl found ↦ inl (contains-take split (k ∷ ks) key found)
                        | inr c ↦ inr c
                      ]
                | inr c ↦ inr c
              ]
          | inr step ↦
              elim (same_node_hash sib cur left right sizes.0 left_size (sym step ∙ e ∙ node)) [
                | inl (_, same) ↦
                    elim (path_key key h (depth + 1) (drop split (k ∷ ks)) sibs (omega (arith, n))
                      sizes.1 same) [
                        | inl found ↦ inl (contains-drop split (k ∷ ks) key found)
                        | inr c ↦ inr c
                      ]
                | inr c ↦ inr c
              ]
        ]

    -- An expanded proof has a sibling for each level, each of 32 bytes.
    pub expanded :
        (n d : ℕ) (present : Bytes) (siblings full : List Hash)
        → All (λ s. length s ≡ 32) siblings
        → expand_from n d present siblings ≡ some full
        → (length full ≡ n) × All (λ s. length s ≡ 32) full
    unfolding expand_from
    expanded zero d present [] full sizes e =
        subst (λ (l : List Hash). (length l ≡ 0) × All (λ s. length s ≡ 32) l)
          (some-injective _ _ e) (refl, tt)
    expanded zero d present (s ∷ rest) full sizes e = cc
    expanded (suc n) d present [] full sizes e = elim (Bool-cases (bit present d == 1)) [
      | inr absent ↦
          let (rest, e', made) =
            mapped (λ r. at_height (max_depth - d - 1) ∷ r) (expand_from n (d + 1) present []) full
              (rw absent at e) in
          let (n_is, sizes') = expanded n (d + 1) present [] rest sizes e' in
          subst (λ (l : List Hash). (length l ≡ suc n) × All (λ s. length s ≡ 32) l) made
            (ap suc n_is, (length-at_height (max_depth - d - 1), sizes'))
      | inl carried ↦ absurd (ground (arith, carried, e))
    ]
    expanded (suc n) d present (s ∷ more) full sizes e = elim (Bool-cases (bit present d == 1)) [
      | inr absent ↦
          let (rest, e', made) =
            mapped (λ r. at_height (max_depth - d - 1) ∷ r)
              (expand_from n (d + 1) present (s ∷ more)) full (rw absent at e) in
          let (n_is, sizes') = expanded n (d + 1) present (s ∷ more) rest sizes e' in
          subst (λ (l : List Hash). (length l ≡ suc n) × All (λ s. length s ≡ 32) l) made
            (ap suc n_is, (length-at_height (max_depth - d - 1), sizes'))
      | inl carried ↦
          let (rest, e', made) =
            mapped (λ r. s ∷ r) (expand_from n (d + 1) present more) full (rw carried at e) in
          let (n_is, sizes') = expanded n (d + 1) present more rest sizes.1 e' in
          subst (λ (l : List Hash). (length l ≡ suc n) × All (λ x. length x ≡ 32) l) made
            (ap suc n_is, (sizes.0, sizes'))
    ]

  -- A key that `verify_inclusion` accepts against the root of a map is one of the map's keys, or two
  -- inputs are exhibited that `blake3` hashes alike. The siblings of the proof have 32 bytes.
  pub verify_inclusion-map_root :
      (m : RevocationMap) (key : Hash) (proof : MapProof)
      → IsSized
      → All (λ s. length s ≡ 32) proof.siblings
      → verify_inclusion (map_root m) key proof ≡ true
      → (contains m.keys key ≡ true) ⊎ Collision
  unfolding verify_inclusion recompute_root expand map_root
  verify_inclusion-map_root m key proof sized sizes h =
      let (full, unfolded, folded) =
        mapped (λ full. fold_up key (leaf_hash key) 0 full) (expand proof) (map_root m)
          ((==_iff (recompute_root key (leaf_hash key) proof) (some (map_root m))).0 h) in
      let whole : expand_from max_depth 0 proof.present proof.siblings ≡ some full =
        ground (arith, unfolded) in
      let (n, sizes') = expanded sized max_depth 0 proof.present proof.siblings full sizes whole in
      path_key sized key max_depth 0 m.keys full n sizes' folded
