-- ===== src/Witness/Heads.antt =====
-- Signed heads: what signing one leaves alone, and what two heads of one log say.
use index_one.Base.{
  ℕ, ◌≡◌, refl, sym, subst, ◌↔◌, inl, inr, true, false, Option, none, some, arith, ltb, ok,
  ok-injective, bind_then, ◌==◌, ==_iff, list_eq, nat_eq, option_eq, Bool-cases, leb,
}
use index_one.Crypto.{PublicKey, Primitives, Signer, IsGenuine}
use index_one.Witness.Defs.{SignedTreeHead, ConsistencyProof, WitnessEncoding}
use index_one.Witness.Log.{Witness, size, root, signed_head, inclusion_proof}
use index_one.Witness.TreeHash.{log_root}
use index_one.Witness.Memo.{IsValid, root-eq-log_root}
use index_one.Witness.Check.{verify_signed_head, verify_consistency, reconcile_heads}

pub inclusion_proof-keeps :
    ⦃prim : Primitives⦄ (w : Witness) (i : ℕ) → (inclusion_proof w i).1.leaf_hashes ≡ w.leaf_hashes
unfolding inclusion_proof
inclusion_proof-keeps w i = elim (Bool-cases (leb (size w) i)) [
  | inl out ↦ rw out
  | inr inside ↦ rw inside
]

module _ ⦃prim : Primitives⦄ ⦃enc : WitnessEncoding⦄ where
  pub signed_head-keeps :
      (w : Witness) (signer : Signer)
      → IsValid w
      → ((signed_head w signer).1.leaf_hashes ≡ w.leaf_hashes) × IsValid (signed_head w signer).1
  unfolding signed_head
  signed_head-keeps w signer v = let (_, same, valid) = root-eq-log_root w v in (same, valid)

  -- The head that a genuine log signs over a valid witness carries its size and its tree hash, and
  -- verifies under the log's key.
  pub signed_head-verify_signed_head :
      (w : Witness) (signer : Signer) (head : SignedTreeHead)
      → IsValid w
      → IsGenuine signer
      → (signed_head w signer).0 ≡ ok head
      → (head.tree_size ≡ size w)
        × (head.root ≡ log_root w.leaf_hashes)
        × (verify_signed_head head signer.public_key ≡ true)
  unfolding signed_head verify_signed_head
  signed_head-verify_signed_head w signer head v genuine h =
      let (e, _, _) = root-eq-log_root w v in
      let payload = enc.head_bytes (size w) (root w).0 in
      let (signature, signed, made) = bind_then (signer.sign payload) _ h in
      subst
        (λ (x : SignedTreeHead).
          (x.tree_size ≡ size w)
          × (x.root ≡ log_root w.leaf_hashes)
          × (verify_signed_head x signer.public_key ≡ true))
        (ok-injective made) (refl, e, rw (genuine payload signature signed, verify_signed_head))

  -- Two heads that reconcile are signed by the log, and of one size and root, or a consistency proof
  -- takes the smaller to the larger.
  pub record IsReconciled (a b : SignedTreeHead) (log_key : PublicKey)
      (proof : Option ConsistencyProof) : Type 0 where
    pub signed_a : verify_signed_head a log_key ≡ true
    pub signed_b : verify_signed_head b log_key ≡ true
    pub same_size : a.tree_size ≡ b.tree_size → a.root ≡ b.root
    pub smaller :
        ltb a.tree_size b.tree_size ≡ true
        → (p : ConsistencyProof) × (proof ≡ some p)
          × (verify_consistency a.root b.root p a.tree_size b.tree_size ≡ true)
    pub larger :
        ltb b.tree_size a.tree_size ≡ true
        → (p : ConsistencyProof) × (proof ≡ some p)
          × (verify_consistency b.root a.root p b.tree_size a.tree_size ≡ true)

  IsReconciled-of_ok :
      (a b : SignedTreeHead) (log_key : PublicKey) (proof : Option ConsistencyProof)
      → reconcile_heads a b log_key proof ≡ ok tt
      → IsReconciled a b log_key proof
  unfolding reconcile_heads
  IsReconciled-of_ok a b log_key none h = record {
    signed_a = ground (arith, h);
    signed_b = ground (arith, h);
    same_size = λ e. ground (arith, h, e, ==_iff a.root b.root);
    smaller = λ lt. absurd (ground (arith, h, lt));
    larger = λ lt. absurd (ground (arith, h, lt));
  }
  IsReconciled-of_ok a b log_key (some p) h = record {
    signed_a = ground (arith, h);
    signed_b = ground (arith, h);
    same_size = λ e. ground (arith, h, e, ==_iff a.root b.root);
    smaller = λ lt. (p, refl, ground (arith, h, lt));
    larger = λ lt. (p, refl, ground (arith, h, lt));
  }

  -- The checks of the signatures and of the order of the sizes, done.
  reconcile_same :
      (a b : SignedTreeHead) (log_key : PublicKey) (proof : Option ConsistencyProof)
      → verify_signed_head a log_key ≡ true
      → verify_signed_head b log_key ≡ true
      → (a.tree_size == b.tree_size) ≡ true
      → a.root ≡ b.root
      → reconcile_heads a b log_key proof ≡ ok tt
  unfolding reconcile_heads
  reconcile_same a b log_key proof sa sb same e = rw (sa, sb, same, (==_iff a.root b.root).1 e)

  reconcile_smaller :
      (a b : SignedTreeHead) (log_key : PublicKey) (p : ConsistencyProof)
      → verify_signed_head a log_key ≡ true
      → verify_signed_head b log_key ≡ true
      → (a.tree_size == b.tree_size) ≡ false
      → ltb a.tree_size b.tree_size ≡ true
      → verify_consistency a.root b.root p a.tree_size b.tree_size ≡ true
      → reconcile_heads a b log_key (some p) ≡ ok tt
  unfolding reconcile_heads
  reconcile_smaller a b log_key p sa sb other lt h = rw (sa, sb, other, lt, h)

  reconcile_larger :
      (a b : SignedTreeHead) (log_key : PublicKey) (p : ConsistencyProof)
      → verify_signed_head a log_key ≡ true
      → verify_signed_head b log_key ≡ true
      → (a.tree_size == b.tree_size) ≡ false
      → ltb a.tree_size b.tree_size ≡ false
      → verify_consistency b.root a.root p b.tree_size a.tree_size ≡ true
      → reconcile_heads a b log_key (some p) ≡ ok tt
  unfolding reconcile_heads
  reconcile_larger a b log_key p sa sb other ge h = rw (sa, sb, other, ge, h)

  IsReconciled-ok :
      (a b : SignedTreeHead) (log_key : PublicKey) (proof : Option ConsistencyProof)
      → IsReconciled a b log_key proof
      → reconcile_heads a b log_key proof ≡ ok tt
  IsReconciled-ok a b log_key proof r = elim (Bool-cases (a.tree_size == b.tree_size)) [
    | inl same ↦
        reconcile_same a b log_key proof r.signed_a r.signed_b same
          (r.same_size ((==_iff a.tree_size b.tree_size).0 same))
    | inr other ↦ elim (Bool-cases (ltb a.tree_size b.tree_size)) [
      | inl lt ↦
          let (p, e, h) = r.smaller lt in
          subst (λ (x : Option ConsistencyProof). reconcile_heads a b log_key x ≡ ok tt) (sym e)
            (reconcile_smaller a b log_key p r.signed_a r.signed_b other lt h)
      | inr ge ↦
          let gt : ltb b.tree_size a.tree_size ≡ true =
            ground (arith, other, ge, ==_iff a.tree_size b.tree_size) in
          let (p, e, h) = r.larger gt in
          subst (λ (x : Option ConsistencyProof). reconcile_heads a b log_key x ≡ ok tt) (sym e)
            (reconcile_larger a b log_key p r.signed_a r.signed_b other ge h)
    ]
  ]

  -- `reconcile_heads` accepts two heads exactly when both are signed by the log, heads of one size
  -- have one root, and for different sizes the given proof is a consistency proof from the smaller
  -- head to the larger.
  pub reconcile_heads_iff :
      (a b : SignedTreeHead) (log_key : PublicKey) (proof : Option ConsistencyProof)
      → (reconcile_heads a b log_key proof ≡ ok tt) ↔ IsReconciled a b log_key proof
  reconcile_heads_iff a b log_key proof =
      (IsReconciled-of_ok a b log_key proof, IsReconciled-ok a b log_key proof)
