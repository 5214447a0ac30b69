-- ===== src/Witness/Growth.antt =====
-- The consistency proofs that the log gives are accepted between an old root and its root.
use index_one.Base.{
  ℕ, zero, suc, ◌-◌, ◌^◌, ◌≤◌, ◌<◌, ◌≡◌, refl, sym, ap, ◌∙◌, inl, inr, true, false, some, [], ◌++◌,
  arith, length, ◌==◌, ==_iff, Bool-cases, nat_eq, list_eq, option_eq, List, subst, ltb, ◌⊎◌,
  Option, length-append, ltb→lt,
}
use mathlib.Core.List.{append-nil}
use mathlib.Core.Path.{ap₂}
use index_one.Crypto.{Primitives}
use index_one.Witness.Defs.{Digest, ConsistencyProof}
use index_one.Witness.Tree.{Cache, subproof}
use index_one.Witness.Log.{keep, Witness, size, consistency_proof}
use index_one.Witness.Check.{agrees, seeded, strip_ones, verify_consistency}
use index_one.Witness.Split.{two_pow-suc, two_pow_pos}
use index_one.Witness.TreeHash.{tree_hash, tree_hash-append, log_root}
use index_one.Witness.Memo.{IsValid}
use index_one.Witness.Rounds.{run_end, strip}
use index_one.Witness.Levels.{lift}
use index_one.Witness.Consistency.{sub_nodes}
use index_one.Witness.Pushes.{subproof-Pushes}
use index_one.Witness.Spine.{begun, spine, seeded-begin, strip_ones_le}

module _ ⦃prim : Primitives⦄ where
  pub le_two_pow : (n : ℕ) → n ≤ 2 ^ n
  le_two_pow zero = omega arith
  le_two_pow (suc n) = omega (arith, le_two_pow n, two_pow-suc n, two_pow_pos n)

  -- The nodes for the whole tree pass from the old root to the new.
  nodes_pass :
      (leaves : List Digest) (m n : ℕ)
      → 0 < m
      → m < n
      → let s = strip (m - 1) (n - 1) in
        seeded (tree_hash leaves 0 m) s.0 s.1 (sub_nodes (suc n) leaves m 0 n true)
        ≡ some ([], tree_hash leaves 0 m, tree_hash leaves 0 n)
  nodes_pass leaves m n pos less =
      let old = tree_hash leaves 0 m in
      let nodes = sub_nodes (suc n) leaves m 0 n true in
      let flat : (x : ℕ) → lift n 0 x ≡ x = λ x. omega arith in
      let lead =
        spine n (suc n) 0 (n - 1) m n leaves [] (omega arith) pos (omega (arith, less))
          (le_two_pow n) (inr (refl, refl)) (inl less) in
      let s = strip (m - 1) (n - 1) in
      seeded-begin old s.0 s.1 nodes
        (strip_ones_le (suc (m - 1)) (m - 1) (n - 1) (omega (arith, less)))
      ∙ sym (ap₂ (λ a b. begun old a b nodes) (flat (m - 1)) (flat (n - 1)))
      ∙ ap (begun old (lift n 0 (m - 1)) (lift n 0 (n - 1))) (sym (append-nil nodes))
      ∙ lead
      ∙ run_end [] old (tree_hash leaves 0 n)

  same : (d : Digest) → (d == d) ≡ true
  same d = (==_iff d d).1 refl

  agrees_end : (old new : Digest) → agrees old new (some ([], old, new)) ≡ true
  agrees_end old new = rw (same new, same old) refl

  verify_consistency_between :
      (old new : Digest) (nodes : List Digest) (m n : ℕ)
      → 0 < m
      → m < n
      → (let s = strip (m - 1) (n - 1) in seeded old s.0 s.1 nodes ≡ some ([], old, new))
      → verify_consistency old new (record { nodes = nodes }) m n ≡ true
  unfolding verify_consistency
  verify_consistency_between old new nodes m n pos less e =
      let fuel : suc (m - 1) ≡ m = omega (arith, pos) in
      let walked : (let s = strip_ones m (m - 1) (n - 1) in
            agrees old new (seeded old s.0 s.1 nodes))
          ≡ true =
        subst
          (λ k.
            (let s = strip_ones k (m - 1) (n - 1) in agrees old new (seeded old s.0 s.1 nodes))
            ≡ true)
          fuel (ap (agrees old new) e ∙ agrees_end old new) in
      let b1 : ltb n m ≡ false = ground (arith, less) in
      let b2 : (m == n) ≡ false = ground (arith, less) in
      let b3 : (m == 0) ≡ false = ground (arith, pos) in rw (b1, b2, b3) walked

  verify_consistency_same :
      (root : Digest) (m n : ℕ)
      → m ≡ n
      → verify_consistency root root (record { nodes = [] }) m n ≡ true
  unfolding verify_consistency
  verify_consistency_same root m n e =
      let b1 : ltb n m ≡ false = ground (arith, e) in
      let b2 : (m == n) ≡ true = ground (arith, e) in rw (b1, b2, same root) refl

  verify_consistency_zero :
      (old new : Digest) (m n : ℕ)
      → m ≡ 0
      → m < n
      → verify_consistency old new (record { nodes = [] }) m n ≡ true
  unfolding verify_consistency
  verify_consistency_zero old new m n e less =
      let b1 : ltb n m ≡ false = ground (arith, less) in
      let b2 : (m == n) ≡ false = ground (arith, less) in
      let b3 : (m == 0) ≡ true = ground (arith, e) in rw (b1, b2, b3) refl

  subproof_of : Witness → ℕ → List Digest × Cache
  subproof_of w m = subproof (suc (size w)) w.leaf_hashes m 0 (size w) true [] w.subtree_cache

  consistency_proof_between :
      (w : Witness) (m : ℕ)
      → 0 < m
      → m < size w
      → consistency_proof w m (size w)
        ≡ keep w (some (record { nodes = (subproof_of w m).0 }), (subproof_of w m).1)
  unfolding consistency_proof subproof_of
  consistency_proof_between w m pos less = ground (arith, pos, less)

  consistency_proof_trivial :
      (w : Witness) (m : ℕ)
      → (m ≡ 0) ⊎ (m ≡ size w)
      → consistency_proof w m (size w) ≡ (some (record { nodes = [] }), w)
  unfolding consistency_proof
  consistency_proof_trivial w m h = ground (arith, h)

  -- What the proof from an old size is: accepted between the old root and the root.
  abbrev pub Proves : Witness → ℕ → Option ConsistencyProof × Witness → Type 0
  Proves w m x =
      (proof : ConsistencyProof) × (x.0 ≡ some proof)
      × (verify_consistency (tree_hash w.leaf_hashes 0 m) (log_root w.leaf_hashes) proof m (size w)
          ≡ true)
      × IsValid x.1

  proof_between :
      (w : Witness) (m : ℕ)
      → IsValid w
      → 0 < m
      → m < size w
      → Proves w m (consistency_proof w m (size w))
  unfolding subproof_of
  proof_between w m v pos less =
      let n = size w in
      let (e, v') =
        subproof-Pushes (suc n) w.leaf_hashes m 0 n true [] w.subtree_cache pos
          (omega (arith, less)) (omega arith) (omega arith) v in
      let s = strip (m - 1) (n - 1) in
      let old = tree_hash w.leaf_hashes 0 m in
      let new = tree_hash w.leaf_hashes 0 n in
      let passes : seeded old s.0 s.1 (subproof_of w m).0 ≡ some ([], old, new) =
        ap (seeded old s.0 s.1) e ∙ nodes_pass w.leaf_hashes m n pos less in
      subst (Proves w m) (sym (consistency_proof_between w m pos less)) (
        record { nodes = (subproof_of w m).0 },
        refl,
        verify_consistency_between old new (subproof_of w m).0 m n pos less passes,
        v',
      )

  pub proof_of_size :
      (w : Witness) (m : ℕ) → IsValid w → m ≤ size w → Proves w m (consistency_proof w m (size w))
  proof_of_size w m v le = elim (Bool-cases (m == size w)) [
    | inl whole ↦
        let e = (==_iff m (size w)).0 whole in
        subst (Proves w m) (sym (consistency_proof_trivial w m (inr e))) (
          record { nodes = [] },
          refl,
          subst
              (λ k.
                verify_consistency (tree_hash w.leaf_hashes 0 m) (tree_hash w.leaf_hashes 0 k)
                  (record { nodes = [] }) m (size w)
                ≡ true)
              e (verify_consistency_same (tree_hash w.leaf_hashes 0 m) m (size w) e),
          v,
        )
    | inr other ↦
        let less : m < size w = ground (arith, other, le) in
        elim (Bool-cases (ltb 0 m)) [
          | inl some_old ↦ proof_between w m v (ltb→lt 0 m some_old) less
          | inr no_old ↦
              let e : m ≡ 0 = ground (arith, no_old) in
              subst (Proves w m) (sym (consistency_proof_trivial w m (inl e))) (
                record { nodes = [] },
                refl,
                verify_consistency_zero (tree_hash w.leaf_hashes 0 m) (log_root w.leaf_hashes) m
                    (size w) e less,
                v,
              )
        ]
  ]

  -- The root of an old log is a tree hash in the log that has grown from it.
  pub log_root_prefix :
      (leaves old more : List Digest)
      → leaves ≡ old ++ more
      → (length old ≤ length leaves) × (tree_hash leaves 0 (length old) ≡ log_root old)
  log_root_prefix leaves old more grown = (
    omega (arith, length-append old more, ap (length {A = Digest}) grown),
    ap (λ l. tree_hash l 0 (length old)) grown
        ∙ tree_hash-append old more 0 (length old) (omega arith),
  )

  -- Whenever the leaves of a valid log begin with those of an old log, the log gives a consistency
  -- proof from the old size to its own size that is accepted between the old log's root and its own
  -- root; the call keeps the witness valid.
  pub verify_consistency-consistency_proof :
      (w : Witness) (old more : List Digest)
      → IsValid w
      → w.leaf_hashes ≡ old ++ more
      → (proof : ConsistencyProof) × ((consistency_proof w (length old) (size w)).0 ≡ some proof)
        × (verify_consistency (log_root old) (log_root w.leaf_hashes) proof (length old) (size w)
            ≡ true)
        × IsValid (consistency_proof w (length old) (size w)).1
  verify_consistency-consistency_proof w old more v grown =
      let (fits, prefix) = log_root_prefix w.leaf_hashes old more grown in
      let (proof, given, accepted, v') = proof_of_size w (length old) v fits in
      (
        proof,
        given,
        subst
            (λ r. verify_consistency r (log_root w.leaf_hashes) proof (length old) (size w) ≡ true)
            prefix accepted,
        v',
      )
