-- ===== src/Witness/Omission.antt =====
-- A receipt that the log does not hold has no inclusion proof that is accepted.
use index_one.Base.{
  ℕ, zero, suc, ◌+◌, ◌≤◌, ◌<◌, ◌≡◌, refl, sym, ap, ◌∙◌, subst, ◌⊎◌, inl, inr, some, List, [], ◌∷◌,
  arith, length, get_elem?, All, Bytes, size_cases, snoc_cases, ◌-◌, true, map, Bool-cases,
  All-suffix, All-prefix, ==_iff, nat_eq, list_eq, option_eq,
}
use index_one.Crypto.{Primitives}
use index_one.Witness.Defs.{
  Digest, ActionReceipt, PathStep, InclusionProof, WitnessEncoding, hash_leaf, hash_node,
}
use index_one.Witness.Tree.{split_point, leaf_at}
use index_one.Witness.TreeHash.{tree_hash, tree_hash_one, tree_hash_split, log_root}
use index_one.Witness.Split.{split_point_bounds}
use index_one.Witness.Collision.{
  Collision, IsSized, same_leaf, same_node, leaf_node, length-hash_leaf, length-hash_node,
  length-climb,
}
use index_one.Witness.Inclusion.{climb-append}
use index_one.Witness.Check.{climb, climb_step, verify_inclusion}

module _ ⦃prim : Primitives⦄ where
  -- The bytes stand at some index of the range.
  abbrev Found : List Bytes → ℕ → ℕ → Bytes → Type 0
  Found ds start len d = (i : ℕ) × (start ≤ i) × (i < start + len) × (get_elem? ds i ≡ some d)

  -- The leaf hashes of the data.
  abbrev pub leaves_of : List Bytes → List Digest
  leaves_of [] = []
  leaves_of (d ∷ ds) = hash_leaf d ∷ leaves_of ds

  leaf_at-leaves_of :
      (ds : List Bytes) (i : ℕ)
      → i < length ds
      → (d : Bytes) × (get_elem? ds i ≡ some d) × (leaf_at (leaves_of ds) i ≡ hash_leaf d)
  leaf_at-leaves_of [] i h = absurd (omega arith)
  leaf_at-leaves_of (d ∷ ds) zero h = (d, refl, refl)
  leaf_at-leaves_of (d ∷ ds) (suc i) h = leaf_at-leaves_of ds i (omega arith)

  abbrev pub HasSizes : List PathStep → Type 0
  HasSizes path = All (λ s. length s.sibling ≡ 32) path

  climb_nil : (d : Digest) → climb d [] ≡ d
  unfolding climb
  climb_nil d = refl

  widen_left :
      (ds : List Bytes) (start k len : ℕ) (d : Bytes)
      → k < len
      → Found ds start k d ⊎ Collision
      → Found ds start len d ⊎ Collision
  widen_left ds start k len d h (inl (i, lo, hi, at)) = inl (i, lo, omega arith, at)
  widen_left ds start k len d h (inr c) = inr c

  widen_right :
      (ds : List Bytes) (start k len : ℕ) (d : Bytes)
      → k < len
      → Found ds (start + k) (len - k) d ⊎ Collision
      → Found ds start len d ⊎ Collision
  widen_right ds start k len d h (inl (i, lo, hi, at)) = inl (i, omega arith, omega arith, at)
  widen_right ds start k len d h (inr c) = inr c

  climb_step-node :
      (acc : Digest) (s : PathStep) → (l r : Digest) × (climb_step acc s ≡ hash_node l r)
  climb_step-node acc s = elim (Bool-cases s.sibling_is_left) [
    | inl left ↦ (s.sibling, acc, rw left)
    | inr right ↦ (acc, s.sibling, rw right)
  ]

  -- A step that makes a known node came from one of its children.
  step_child :
      (acc : Digest) (s : PathStep) (l r : Digest)
      → length acc ≡ 32
      → length s.sibling ≡ 32
      → length l ≡ 32
      → climb_step acc s ≡ hash_node l r
      → (acc ≡ l) ⊎ (acc ≡ r) ⊎ Collision
  step_child acc s l r ha hs hl h = elim (Bool-cases s.sibling_is_left) [
    | inl left ↦ elim (same_node s.sibling acc l r hs hl (rw left at h)) [
      | inl (_, same) ↦ inr (inl same)
      | inr c ↦ inr (inr c)
    ]
    | inr right ↦ elim (same_node acc s.sibling l r ha hl (rw right at h)) [
      | inl (same, _) ↦ inl same
      | inr c ↦ inr (inr c)
    ]
  ]

  module _ (sized : IsSized) where
    length-tree_hash :
        (ds : List Bytes) (start len : ℕ)
        → 0 < len
        → start + len ≤ length ds
        → length (tree_hash (leaves_of ds) start len) ≡ 32
    length-tree_hash ds start len pos fits = elim (size_cases len) [
      | inl empty ↦ absurd (omega arith)
      | inr (inl one) ↦
          let (d, _, e) = leaf_at-leaves_of ds start (omega arith) in
          subst (λ (n : ℕ). length (tree_hash (leaves_of ds) start n) ≡ 32) (sym one)
            (rw (tree_hash_one (leaves_of ds) start, e) (length-hash_leaf sized d))
      | inr (inr more) ↦
          rw (tree_hash_split (leaves_of ds) start len more) (length-hash_node sized _ _)
    ]

    -- A path that climbs to the one leaf of a range.
    Found-single :
        (ds : List Bytes) (start : ℕ) (d : Bytes) (path : List PathStep)
        → start < length ds
        → climb (hash_leaf d) path ≡ leaf_at (leaves_of ds) start
        → Found ds start 1 d ⊎ Collision
    Found-single ds start d path fits h =
        let (d', at, e) = leaf_at-leaves_of ds start fits in
        elim (snoc_cases path) [
          | inl nil ↦
              elim (same_leaf d d'
                (sym (ap (climb (hash_leaf d)) nil ∙ climb_nil (hash_leaf d)) ∙ h ∙ e)) [
                  | inl same ↦
                      inl (start, omega arith, omega arith, at ∙ ap (λ x. some x) (sym same))
                  | inr c ↦ inr c
                ]
          | inr (init, s, last) ↦
              let (l, r, node) = climb_step-node (climb (hash_leaf d) init) s in
              inr (
                leaf_node d' l r (
                  sym e
                  ∙ sym h
                  ∙ ap (climb (hash_leaf d)) last
                  ∙ climb-append (hash_leaf d) init s
                  ∙ node))
        ]

    -- A path of genuine digests that climbs to the hash of a range starts at a leaf of the range.
    found :
        (fuel : ℕ) (ds : List Bytes) (start len : ℕ) (d : Bytes) (path : List PathStep)
        → len < fuel
        → 0 < len
        → start + len ≤ length ds
        → HasSizes path
        → climb (hash_leaf d) path ≡ tree_hash (leaves_of ds) start len
        → Found ds start len d ⊎ Collision
    found zero ds start len d path h pos fits sizes e = absurd (omega arith)
    found (suc fuel) ds start len d path h pos fits sizes e = elim (size_cases len) [
      | inl empty ↦ absurd (omega arith)
      | inr (inl one) ↦
          subst (λ (n : ℕ). Found ds start n d ⊎ Collision) (sym one)
            (Found-single ds start d path (omega arith)
              (e ∙ ap (tree_hash (leaves_of ds) start) one ∙ tree_hash_one (leaves_of ds) start))
      | inr (inr more) ↦
          let k = split_point len in
          let (kpos, below, half) = split_point_bounds len more in
          let l = tree_hash (leaves_of ds) start k in
          let r = tree_hash (leaves_of ds) (start + k) (len - k) in
          let node = e ∙ tree_hash_split (leaves_of ds) start len more in
          elim (snoc_cases path) [
            | inl nil ↦ inr (
                leaf_node d l r
                  (sym (ap (climb (hash_leaf d)) nil ∙ climb_nil (hash_leaf d)) ∙ node))
            | inr (init, s, last) ↦
                let sizes' = subst HasSizes last sizes in
                let acc = climb (hash_leaf d) init in
                let step =
                  step_child acc s l r
                    (length-climb sized (hash_leaf d) init (length-hash_leaf sized d))
                    (All-suffix (λ (x : PathStep). length x.sibling ≡ 32) init (s ∷ []) sizes').0
                    (length-tree_hash ds start k kpos (omega arith))
                    (sym (ap (climb (hash_leaf d)) last ∙ climb-append (hash_leaf d) init s)
                      ∙ node) in
                let inner =
                  All-prefix (λ (x : PathStep). length x.sibling ≡ 32) init (s ∷ []) sizes' in
                elim step [
                  | inl left ↦
                      widen_left ds start k len d below
                        (found fuel ds start k d init (omega arith) kpos (omega arith) inner left)
                  | inr (inl right) ↦ widen_right ds start k len d below (
                      found fuel ds (start + k) (len - k) d init (omega arith) (omega arith)
                        (omega arith) inner right)
                  | inr (inr c) ↦ inr c
                ]
          ]
    ]

length-leaves_of : ⦃prim : Primitives⦄ → (ds : List Bytes) → length (leaves_of ds) ≡ length ds
length-leaves_of [] = refl
length-leaves_of (d ∷ ds) = ap suc (length-leaves_of ds)

length-map : {A B : Type 0} → (f : A → B) (l : List A) → length (map f l) ≡ length l
length-map f [] = refl
length-map f (x ∷ l) = ap suc (length-map f l)

module _ ⦃prim : Primitives⦄ ⦃enc : WitnessEncoding⦄ where
  verify_inclusion-climb :
      (receipt : ActionReceipt) (proof : InclusionProof) (root : Digest)
      → verify_inclusion receipt proof root ≡ true
      → climb (hash_leaf (enc.receipt_bytes receipt)) proof.path ≡ root
  unfolding verify_inclusion
  verify_inclusion-climb receipt proof root h =
      ground (arith, h, ==_iff (climb (hash_leaf (enc.receipt_bytes receipt)) proof.path) root)

  -- Omission is detected: where an inclusion proof (of 32-byte siblings) is accepted for a receipt
  -- against the root of a log, the log holds a receipt with the same canonical bytes, or the proof
  -- exhibits two different inputs that `blake3` hashes alike. The log is not empty.
  pub accepted_is_logged :
      (receipts : List ActionReceipt) (receipt : ActionReceipt) (proof : InclusionProof)
      → IsSized
      → 0 < length receipts
      → HasSizes proof.path
      → verify_inclusion receipt proof (log_root (leaves_of (map enc.receipt_bytes receipts)))
        ≡ true
      → ((i : ℕ) × (i < length receipts)
          × (get_elem? (map enc.receipt_bytes receipts) i ≡ some (enc.receipt_bytes receipt)))
        ⊎ Collision
  accepted_is_logged receipts receipt proof sized pos sizes h =
      let ds = map enc.receipt_bytes receipts in
      let same = length-map enc.receipt_bytes receipts in
      let n = length (leaves_of ds) in
      let n_is = length-leaves_of ds in
      elim (found sized (suc n) ds 0 n (enc.receipt_bytes receipt) proof.path (omega arith)
        (omega arith) (omega arith) sizes (verify_inclusion-climb receipt proof _ h)) [
          | inl (i, lo, hi, at) ↦ inl (i, omega arith, at)
          | inr c ↦ inr c
        ]
