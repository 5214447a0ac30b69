-- ===== src/Witness/Honest.antt =====
-- A log that only appends: what it signs and proves at two times is reconciled.
use index_one.Base.{
  ◌≡◌, sym, ap, ◌∙◌, true, Option, some, List, ◌++◌, arith, ltb, length, ok, ltb→lt,
}
use index_one.Crypto.{Primitives, Signer, IsGenuine}
use index_one.Witness.Defs.{Digest, SignedTreeHead, ConsistencyProof, WitnessEncoding}
use index_one.Witness.Log.{Witness, size, signed_head, consistency_proof}
use index_one.Witness.TreeHash.{tree_hash, log_root}
use index_one.Witness.Memo.{IsValid}
use index_one.Witness.Check.{verify_signed_head, verify_consistency, reconcile_heads}
use index_one.Witness.Heads.{IsReconciled, reconcile_heads_iff, signed_head-verify_signed_head}
use index_one.Witness.Growth.{log_root_prefix, verify_consistency-consistency_proof}

module _ ⦃prim : Primitives⦄ ⦃enc : WitnessEncoding⦄ where
  -- A head that carries a log's size and root, and holds under its key.
  abbrev IsHeadOf : Witness → Signer → SignedTreeHead → Type 0
  IsHeadOf w signer head =
      (head.tree_size ≡ size w)
      × (head.root ≡ log_root w.leaf_hashes)
      × (verify_signed_head head signer.public_key ≡ true)

  same_root :
      (before after more : List Digest)
      → after ≡ before ++ more
      → length before ≡ length after
      → log_root before ≡ log_root after
  same_root before after more grown e =
      sym (log_root_prefix after before more grown).1 ∙ ap (tree_hash after 0) e

  heads_reconcile :
      (before after : Witness) (more : List Digest) (signer : Signer) (a b : SignedTreeHead)
      (proof : Option ConsistencyProof) (p : ConsistencyProof)
      → after.leaf_hashes ≡ before.leaf_hashes ++ more
      → IsHeadOf before signer a
      → IsHeadOf after signer b
      → proof ≡ some p
      → verify_consistency
          (log_root before.leaf_hashes)
          (log_root after.leaf_hashes)
          p
          (size before)
          (size after)
        ≡ true
      → IsReconciled a b signer.public_key proof × IsReconciled b a signer.public_key proof
  heads_reconcile before after more signer a b proof p grown (na, ra, sa) (nb, rb, sb) given
        accepted =
      let (le, _) = log_root_prefix after.leaf_hashes before.leaf_hashes more grown in
      let same : a.tree_size ≡ b.tree_size → a.root ≡ b.root = λ e.
        ra ∙ same_root before.leaf_hashes after.leaf_hashes more grown (sym na ∙ e ∙ nb) ∙ sym rb in
      let passes : verify_consistency a.root b.root p a.tree_size b.tree_size ≡ true =
        rw (ra, rb, na, nb) accepted in
      let not_after : ltb b.tree_size a.tree_size ≡ true → ⊥ =
        λ lt. omega (arith, ltb→lt _ _ lt, na, nb, le) in
      (
        record {
          signed_a = sa;
          signed_b = sb;
          same_size = same;
          smaller = λ _. (p, given, passes);
          larger = λ lt. absurd (not_after lt);
        },
        record {
          signed_a = sb;
          signed_b = sa;
          same_size = λ e. sym (same (sym e));
          smaller = λ lt. absurd (not_after lt);
          larger = λ _. (p, given, passes);
        },
      )

  -- Where a valid log has grown to a later one by further leaves and a genuine signer signs the
  -- heads of both, the consistency proof of the later log reconciles the two heads, in either order.
  pub reconcile_heads-signed_head :
      (before after : Witness) (more : List Digest) (signer : Signer) (a b : SignedTreeHead)
      → IsValid before
      → IsValid after
      → after.leaf_hashes ≡ before.leaf_hashes ++ more
      → IsGenuine signer
      → (signed_head before signer).0 ≡ ok a
      → (signed_head after signer).0 ≡ ok b
      → let proof = (consistency_proof after (size before) (size after)).0 in
        (reconcile_heads a b signer.public_key proof ≡ ok tt)
        × (reconcile_heads b a signer.public_key proof ≡ ok tt)
  reconcile_heads-signed_head before after more signer a b v v' grown genuine made made' =
      let (p, given, accepted, _) =
        verify_consistency-consistency_proof after before.leaf_hashes more v' grown in
      let proof = (consistency_proof after (size before) (size after)).0 in
      let (ab, ba) =
        heads_reconcile before after more signer a b proof p grown
          (signed_head-verify_signed_head before signer a v genuine made)
          (signed_head-verify_signed_head after signer b v' genuine made') given accepted in
      (
        (reconcile_heads_iff a b signer.public_key proof).1 ab,
        (reconcile_heads_iff b a signer.public_key proof).1 ba,
      )
