-- ===== src/Witness/Inclusion.antt =====
-- The inclusion proofs that the log gives verify against its root.
use index_one.Base.{
  ℕ, zero, suc, ◌+◌, ◌-◌, ◌^◌, ◌≤◌, ◌<◌, ◌≡◌, refl, true, false, List, [], ◌∷◌, ◌++◌, arith, length,
  sym, ap, ◌∙◌, subst, inl, inr, ltb, Bool-cases, size_cases, length-append, ltb→lt, some, Option,
  ==_iff, nat_eq, list_eq, option_eq,
}
use mathlib.Core.Path.{ap₂}
use index_one.Crypto.{Primitives}
use index_one.Witness.Defs.{
  Digest, ActionReceipt, PathStep, InclusionProof, WitnessEncoding, hash_leaf, hash_node,
}
use index_one.Witness.Tree.{split_point, Cache, leaf_at, beside, subtree_of, subtree_path}
use index_one.Witness.TreeHash.{tree_hash, tree_hash_one, tree_hash_split, log_root}
use index_one.Witness.Split.{split_point_bounds, split_point_depth}
use index_one.Witness.Memo.{IsSound, IsValid, Computes, subtree-Computes}
use index_one.Witness.Log.{keep, Witness, size, inclusion_proof}
use index_one.Witness.Check.{climb, climb_step, verify_inclusion}

module _ ⦃prim : Primitives⦄ where
  pub climb-append :
      (acc : Digest) (path : List PathStep) (s : PathStep)
      → climb acc (path ++ s ∷ []) ≡ climb_step (climb acc path) s
  unfolding climb
  climb-append acc [] s = refl
  climb-append acc (x ∷ path) s = climb-append (climb_step acc x) path s

  path_short :
      (fuel : ℕ) (leaves : List Digest) (start len index : ℕ) (c : Cache)
      → len ≤ 1
      → subtree_path (suc fuel) leaves start len index c ≡ ([], c)
  unfolding subtree_path
  path_short fuel leaves start len index c h = ground arith

  path_left :
      (fuel : ℕ) (leaves : List Digest) (start len index : ℕ) (c : Cache)
      → 1 < len
      → index < split_point len
      → let k = split_point len in
        let (path, c1) = subtree_path fuel leaves start k index c in
        let (h, c2) = subtree_of leaves (start + k) (len - k) c1 in
        subtree_path (suc fuel) leaves start len index c ≡ (path ++ beside h false ∷ [], c2)
  unfolding subtree_path
  path_left fuel leaves start len index c h i = ground arith

  path_right :
      (fuel : ℕ) (leaves : List Digest) (start len index : ℕ) (c : Cache)
      → 1 < len
      → split_point len ≤ index
      → let k = split_point len in
        let (path, c1) = subtree_path fuel leaves (start + k) (len - k) (index - k) c in
        let (h, c2) = subtree_of leaves start k c1 in
        subtree_path (suc fuel) leaves start len index c ≡ (path ++ beside h true ∷ [], c2)
  unfolding subtree_path
  path_right fuel leaves start len index c h i = ground arith

  -- What a computed path is good for: it climbs from the leaf to the hash of the range, it is no
  -- longer than the depth of the tree, and the cache is still sound.
  abbrev pub Leads : List Digest → ℕ → ℕ → ℕ → ℕ → List PathStep × Cache → Type 0
  Leads leaves start len index depth x =
      (climb (leaf_at leaves (start + index)) x.0 ≡ tree_hash leaves start len)
      × (length x.0 ≤ depth)
      × IsSound leaves x.1

  Leads-left :
      (leaves : List Digest) (start len index depth : ℕ) (path : List PathStep × Cache)
      (h : Digest × Cache)
      → 1 < len
      → Leads leaves start (split_point len) index depth path
      → Computes leaves (start + split_point len) (len - split_point len) h
      → Leads leaves start len index (suc depth) (path.0 ++ beside h.0 false ∷ [], h.1)
  Leads-left leaves start len index depth path h more p q = (
    climb-append (leaf_at leaves (start + index)) path.0 (beside h.0 false)
        ∙ ap₂ hash_node p.0 q.0
        ∙ sym (tree_hash_split leaves start len more),
    omega (arith, length-append path.0 (beside h.0 false ∷ []), p.1),
    q.1,
  )

  Leads-right :
      (leaves : List Digest) (start len index depth : ℕ) (path : List PathStep × Cache)
      (h : Digest × Cache)
      → 1 < len
      → split_point len ≤ index
      → Leads leaves
          (start + split_point len)
          (len - split_point len)
          (index - split_point len)
          depth
          path
      → Computes leaves start (split_point len) h
      → Leads leaves start len index (suc depth) (path.0 ++ beside h.0 true ∷ [], h.1)
  Leads-right leaves start len index depth path h more i p q =
      let at : start + split_point len + (index - split_point len) ≡ start + index = omega arith in
      (
        climb-append (leaf_at leaves (start + index)) path.0 (beside h.0 true)
            ∙ ap₂ hash_node q.0 (ap (λ (n : ℕ). climb (leaf_at leaves n) path.0) (sym at) ∙ p.0)
            ∙ sym (tree_hash_split leaves start len more),
        omega (arith, length-append path.0 (beside h.0 true ∷ []), p.1),
        q.1,
      )

  Leads-single :
      (leaves : List Digest) (start len index depth : ℕ) (c : Cache)
      → len ≡ 1
      → index ≡ 0
      → IsSound leaves c
      → Leads leaves start len index depth ([], c)
  unfolding climb
  Leads-single leaves start len index depth c one here v = (
    subst (λ (n : ℕ). leaf_at leaves (start + index) ≡ tree_hash leaves start n) (sym one)
        (ap (leaf_at leaves) (omega arith) ∙ sym (tree_hash_one leaves start)),
    omega arith,
    v,
  )

  pub subtree_path-Leads :
      (fuel : ℕ) (leaves : List Digest) (start len index depth : ℕ) (c : Cache)
      → len < fuel
      → index < len
      → len ≤ 2 ^ depth
      → start + len ≤ length leaves
      → IsSound leaves c
      → Leads leaves start len index depth (subtree_path fuel leaves start len index c)
  subtree_path-Leads zero leaves start len index depth c h i d fits v = absurd (omega arith)
  subtree_path-Leads (suc fuel) leaves start len index zero c h i d fits v =
      let one : len ≡ 1 = omega arith in
      let here : index ≡ 0 = omega arith in
      subst (Leads leaves start len index 0)
        (sym (path_short fuel leaves start len index c (omega arith)))
        (Leads-single leaves start len index 0 c one here v)
  subtree_path-Leads (suc fuel) leaves start len index (suc depth) c h i d fits v =
      elim (size_cases len) [
        | inl empty ↦ absurd (omega arith)
        | inr (inl one) ↦
            subst (Leads leaves start len index (suc depth))
              (sym (path_short fuel leaves start len index c (omega arith)))
              (Leads-single leaves start len index (suc depth) c one (omega arith) v)
        | inr (inr more) ↦
            let (pos, below, half) = split_point_bounds len more in
            let (dl, dr) = split_point_depth len depth more d in
            let k = split_point len in
            elim (Bool-cases (ltb index k)) [
              | inl left ↦
                  let p =
                    subtree_path-Leads fuel leaves start k index depth c (omega arith)
                      (ltb→lt _ _ left) dl (omega arith) v in
                  let q =
                    subtree-Computes (suc (len - k)) leaves (start + k) (len - k)
                      (subtree_path fuel leaves start k index c).1 (omega arith) (omega arith)
                      p.2 in
                  subst (Leads leaves start len index (suc depth))
                    (sym (path_left fuel leaves start len index c more (ltb→lt _ _ left)))
                    (Leads-left leaves start len index depth
                      (subtree_path fuel leaves start k index c)
                      (subtree_of leaves (start + k) (len - k)
                        (subtree_path fuel leaves start k index c).1)
                      more p q)
              | inr right ↦
                  let beyond : k ≤ index = ground (arith, right) in
                  let p =
                    subtree_path-Leads fuel leaves (start + k) (len - k) (index - k) depth c
                      (omega arith) (omega arith) dr (omega arith) v in
                  let q =
                    subtree-Computes (suc k) leaves start k
                      (subtree_path fuel leaves (start + k) (len - k) (index - k) c).1 (omega arith)
                      (omega arith) p.2 in
                  subst (Leads leaves start len index (suc depth))
                    (sym (path_right fuel leaves start len index c more beyond))
                    (Leads-right leaves start len index depth
                      (subtree_path fuel leaves (start + k) (len - k) (index - k) c)
                      (subtree_of leaves start k
                        (subtree_path fuel leaves (start + k) (len - k) (index - k) c).1)
                      more beyond p q)
            ]
      ]

  path_of : Witness → ℕ → List PathStep × Cache
  path_of w index = subtree_path (suc (size w)) w.leaf_hashes 0 (size w) index w.subtree_cache

  inclusion_proof_in_range :
      (w : Witness) (index : ℕ)
      → index < size w
      → inclusion_proof w index
        ≡ keep w (
          some (record { leaf_index = index; tree_size = size w; path = (path_of w index).0 }),
          (path_of w index).1,
        )
  unfolding inclusion_proof path_of
  inclusion_proof_in_range w index h = ground arith

module _ ⦃prim : Primitives⦄ ⦃enc : WitnessEncoding⦄ where
  verify_inclusion_of_climb :
      (receipt : ActionReceipt) (proof : InclusionProof) (root : Digest)
      → proof.leaf_index < proof.tree_size
      → length proof.path ≤ 64
      → climb (hash_leaf (enc.receipt_bytes receipt)) proof.path ≡ root
      → verify_inclusion receipt proof root ≡ true
  unfolding verify_inclusion
  verify_inclusion_of_climb receipt proof root h short e =
      ground (arith, ==_iff (climb (hash_leaf (enc.receipt_bytes receipt)) proof.path) root)

  -- For every index of a log of at most 2 ^ 64 leaves, the log gives an inclusion proof that names
  -- the index and the size, and with which the receipt that stands there is accepted against the
  -- log's root; the call keeps the witness valid.
  pub verify_inclusion-inclusion_proof :
      (w : Witness) (index : ℕ) (receipt : ActionReceipt)
      → IsValid w
      → index < size w
      → size w ≤ 2 ^ 64
      → leaf_at w.leaf_hashes index ≡ hash_leaf (enc.receipt_bytes receipt)
      → (proof : InclusionProof) × ((inclusion_proof w index).0 ≡ some proof)
        × (proof.leaf_index ≡ index)
        × (proof.tree_size ≡ size w)
        × (verify_inclusion receipt proof (log_root w.leaf_hashes) ≡ true)
        × IsValid (inclusion_proof w index).1
  unfolding path_of
  verify_inclusion-inclusion_proof w index receipt v i small at =
      let n = size w in
      let (e, short, v') =
        subtree_path-Leads (suc n) w.leaf_hashes 0 n index 64 w.subtree_cache (omega arith) i small
          (omega arith) v in
      let proof : InclusionProof = record {
        leaf_index = index;
        tree_size = n;
        path = (path_of w index).0;
      } in
      let given = inclusion_proof_in_range w index i in
      let here : leaf_at w.leaf_hashes (0 + index) ≡ hash_leaf (enc.receipt_bytes receipt) =
        ap (leaf_at w.leaf_hashes) (omega arith) ∙ at in
      (
        proof,
        ap (λ (r : Option InclusionProof × Witness). r.0) given,
        refl,
        refl,
        verify_inclusion_of_climb receipt proof (log_root w.leaf_hashes) i short
            (ap (λ (d : Digest). climb d proof.path) (sym here) ∙ e),
        subst (λ (r : Option InclusionProof × Witness). IsValid r.1) (sym given) v',
      )
