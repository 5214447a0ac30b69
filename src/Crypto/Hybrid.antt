-- ===== src/Crypto/Hybrid.antt =====
-- core/crypto/src/hybrid.rs: the hybrid signer, and the check of a hybrid signature. The check
-- calls `verify_signature` on each component, which is passed in as an argument here.
use index_one.Base.{
  Bool, true, false, Bytes, ◌==◌, Result, ok, err, if◌then◌else◌, ◌>>=◌, nat_eq, list_eq, option_eq,
}
use index_one.Crypto.Defs.{
  hybrid, algorithm_eq, PublicKey, Signature, CryptoError, algorithm_mismatch, Signer,
}
use index_one.Crypto.Framing.{Component, frame_two, decode_two}

pub record HybridSigner : Type 0 where
  pub classical : Signer
  pub post_quantum : Signer
  pub public_key : PublicKey

-- `HybridSigner::new`
unfoldable pub new : Signer → Signer → Result CryptoError HybridSigner
new classical post_quantum = do
  bytes ←
      frame_two classical.public_key.algorithm classical.public_key.bytes
        post_quantum.public_key.algorithm post_quantum.public_key.bytes
  ok (record {
    classical = classical;
    post_quantum = post_quantum;
    public_key = record { algorithm = hybrid; bytes = bytes };
  })

unfoldable pub sign : HybridSigner → Bytes → Result CryptoError Signature
sign s payload = do
  c_sig ← s.classical.sign payload
  q_sig ← s.post_quantum.sign payload
  bytes ← frame_two c_sig.algorithm c_sig.bytes q_sig.algorithm q_sig.bytes
  ok (record { algorithm = hybrid; bytes = bytes })

-- `impl Signer for HybridSigner`
unfoldable pub signer : HybridSigner → Signer
signer s = record { algorithm = hybrid; public_key = s.public_key; sign = sign s }

abbrev pub Check : Type 0
Check = Bytes → Signature → PublicKey → Result CryptoError Bool

abbrev pub component_sig : Component → Signature
component_sig c = record { algorithm = c.0; bytes = c.1 }

abbrev pub component_key : Component → PublicKey
component_key c = record { algorithm = c.0; bytes = c.1 }

-- One round of the loop: the new value of `both_valid`.
unfoldable pub verify_component :
    Check → Bytes → Bool → Component → Component → Result CryptoError Bool
verify_component check payload both_valid sig key =
    if sig.0 == key.0
    then (do
      valid ← check payload (component_sig sig) (component_key key)
      ok (if valid then both_valid else false))
    else err (algorithm_mismatch sig.0 key.0)

unfoldable pub verify : Check → Bytes → Bytes → Bytes → Result CryptoError Bool
verify check payload sig_bytes pubkey_bytes = do
  sigs ← decode_two sig_bytes
  keys ← decode_two pubkey_bytes
  both_valid ← verify_component check payload true sigs.0 keys.0
  verify_component check payload both_valid sigs.1 keys.1
