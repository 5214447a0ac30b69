-- ===== src/Witness/Kept.antt =====
-- What a call that reads the log leaves: the same leaves, and a cache that is sound.
use index_one.Base.{
  ℕ, suc, ◌≤◌, ◌≡◌, refl, sym, subst, inl, inr, true, ◌&&◌, ◌||◌, arith, ltb, leb, ◌!=◌, !=_iff,
  Bool-cases, nat_eq, list_eq, option_eq,
}
use index_one.Crypto.{Primitives}
use index_one.Witness.Log.{Witness, size, inclusion_proof, consistency_proof}
use index_one.Witness.Memo.{IsValid}
use index_one.Witness.Inclusion.{subtree_path-Leads}
use index_one.Witness.Heads.{inclusion_proof-keeps}
use index_one.Witness.Growth.{le_two_pow, proof_of_size}

module _ ⦃prim : Primitives⦄ where
  abbrev pub IsKept : Witness → Witness → Type 0
  IsKept w w' = (w'.leaf_hashes ≡ w.leaf_hashes) × IsValid w'

  inclusion_proof-IsValid : (w : Witness) (i : ℕ) → IsValid w → IsValid (inclusion_proof w i).1
  unfolding inclusion_proof
  inclusion_proof-IsValid w i v = elim (Bool-cases (leb (size w) i)) [
    | inl out ↦ rw out v
    | inr inside ↦
        let n = size w in
        let (_, _, v') =
          subtree_path-Leads (suc n) w.leaf_hashes 0 n i n w.subtree_cache (omega arith)
            (ground (arith, inside)) (le_two_pow n) (omega arith) v in
        rw inside v'
  ]

  pub inclusion_proof-IsKept : (w : Witness) (i : ℕ) → IsValid w → IsKept w (inclusion_proof w i).1
  inclusion_proof-IsKept w i v = (inclusion_proof-keeps w i, inclusion_proof-IsValid w i v)

  consistency_proof-keeps :
      (w : Witness) (m n : ℕ) → (consistency_proof w m n).1.leaf_hashes ≡ w.leaf_hashes
  unfolding consistency_proof
  consistency_proof-keeps w m n = elim (Bool-cases (n != size w || ltb n m)) [
    | inl refused ↦ rw refused refl
    | inr fits ↦ elim (Bool-cases (m != 0 && m != n)) [
      | inl between ↦ rw (fits, between) refl
      | inr trivial ↦ rw (fits, trivial) refl
    ]
  ]

  refused_sizes :
      (w : Witness) (m n : ℕ) → (n != size w || ltb n m) ≡ true → (consistency_proof w m n).1 ≡ w
  unfolding consistency_proof
  refused_sizes w m n h = rw h refl

  pub consistency_proof-IsKept :
      (w : Witness) (m n : ℕ) → IsValid w → IsKept w (consistency_proof w m n).1
  consistency_proof-IsKept w m n v = (
    consistency_proof-keeps w m n,
    elim (Bool-cases (n != size w || ltb n m)) [
      | inl refused ↦ subst IsValid (sym (refused_sizes w m n refused)) v
      | inr fits ↦
          let whole : n ≡ size w = ground (arith, fits, !=_iff n (size w)) in
          let le : m ≤ size w = ground (arith, fits, whole) in
          let (_, _, _, v') = proof_of_size w m v le in
          subst (λ k. IsValid (consistency_proof w m k).1) (sym whole) v'
    ],
  )
