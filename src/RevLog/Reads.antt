-- ===== src/RevLog/Reads.antt =====
-- core/revlog/src/lib.rs: the calls that read the log of checkpoints.
use index_one.Base.{ℕ, Option, Result}
use index_one.Crypto.{Primitives, Signer, CryptoError}
use index_one.Witness.{
  SignedTreeHead, ConsistencyProof, WitnessEncoding, signed_head as log_head,
  consistency_proof as log_consistency,
}
use index_one.RevLog.Defs.{LogBackedRevocation}

module _ ⦃prim : Primitives⦄ where
  unfoldable pub consistency_proof :
      LogBackedRevocation → ℕ → ℕ → Option ConsistencyProof × LogBackedRevocation
  consistency_proof l old_size new_size =
      let (proof, w) = log_consistency l.witness old_size new_size in
      (proof, record l { witness = w })

module _ ⦃prim : Primitives⦄ ⦃enc : WitnessEncoding⦄ where
  -- The `expect` on the signature is an error here.
  unfoldable pub signed_head :
      LogBackedRevocation → Signer → Result CryptoError SignedTreeHead × LogBackedRevocation
  signed_head l log_signer =
      let (head, w) = log_head l.witness log_signer in (head, record l { witness = w })
