-- ===== src/RevLog/Defs.antt =====
-- core/revlog/src/lib.rs: checkpoints, the log-backed map, and the checks of its proofs. A reading
-- method comes with the state as it leaves it, since the log may fill its cache.
use index_one.Base.{
  ℕ, ◌+◌, Bool, ◌&&◌, Option, none, some, ◌++◌, Bytes, codes, Result, ok, ◌>>=◌, ◌==◌, ◌!=◌,
  if◌then◌else◌, list_eq, nat_eq, [], option_eq,
}
use index_one.Crypto.{PublicKey, Primitives, Signer, CryptoError}
use index_one.Witness.{
  Digest, ActionReceipt, InclusionProof, SignedTreeHead, WitnessEncoding, Witness, root, append,
  inclusion_proof, signed_head, verify_signed_head, u64_be,
  verify_inclusion as verify_log_inclusion, new as new_witness,
}
use index_one.RevMap.{
  Hash, MapProof, RevocationMap, revoke as map_revoke, map_root, prove as map_prove,
  verify_inclusion as verify_map_inclusion, verify_non_inclusion,
}

abbrev checkpoint_domain : Bytes
checkpoint_domain = codes "indexone-revlog/MapCheckpoint/v1"

abbrev nonce_domain : Bytes
nonce_domain = codes "indexone-revlog/checkpoint-nonce/v1"

pub record MapCheckpoint : Type 0 where
  pub epoch : ℕ
  pub map_root : Hash
  pub prev_log_root : Digest

pub record Committed : Type 0 where
  pub checkpoint : MapCheckpoint
  pub leaf_index : ℕ

pub record LogBackedRevocation : Type 0 where
  pub map : RevocationMap
  pub witness : Witness
  pub epoch : ℕ
  pub latest : Option Committed

pub record LogBackedProof : Type 0 where
  pub checkpoint : MapCheckpoint
  pub map_proof : MapProof
  pub inclusion : InclusionProof
  pub sth : SignedTreeHead

abbrev pub new : LogBackedRevocation
new = record { map = record { keys = [] }; witness = new_witness; epoch = 0; latest = none }

module _ ⦃prim : Primitives⦄ where
  unfoldable pub checkpoint_leaf_tag : Digest
  checkpoint_leaf_tag = prim.blake3 checkpoint_domain

  unfoldable pub checkpoint_digest : MapCheckpoint → Digest
  checkpoint_digest c =
      prim.blake3 (checkpoint_domain ++ (u64_be c.epoch ++ (c.map_root ++ c.prev_log_root)))

  unfoldable pub receipt : MapCheckpoint → ActionReceipt
  receipt c = record {
    chain_digest = checkpoint_leaf_tag;
    action_digest = checkpoint_digest c;
    nonce = prim.blake3 (nonce_domain ++ (u64_be c.epoch ++ c.map_root));
    prev_root = c.prev_log_root;
  }

  unfoldable pub revoke : LogBackedRevocation → Hash → LogBackedRevocation
  revoke l key = record l { map = map_revoke l.map key }

module _ ⦃prim : Primitives⦄ ⦃enc : WitnessEncoding⦄ where
  abbrev pub next_checkpoint : LogBackedRevocation → MapCheckpoint
  next_checkpoint l = record {
    epoch = l.epoch;
    map_root = map_root l.map;
    prev_log_root = (root l.witness).0;
  }

  -- The `expect` on the signature of the head is an error here.
  unfoldable pub publish_checkpoint :
      LogBackedRevocation → Signer → Result CryptoError SignedTreeHead × LogBackedRevocation
  publish_checkpoint l log_signer =
      let checkpoint = next_checkpoint l in
      let (leaf_index, w) = append (root l.witness).1 (receipt checkpoint) in
      let (head, w') = signed_head w log_signer in
      (
        head,
        record l {
          witness = w';
          epoch = l.epoch + 1;
          latest = some (record { checkpoint = checkpoint; leaf_index = leaf_index });
        },
      )

  -- The last part of `prove`, from the inclusion proof on.
  abbrev pub prove_included :
      LogBackedRevocation
      → Committed
      → Hash
      → Signer
      → Option InclusionProof
      → Witness
      → Result CryptoError (Option LogBackedProof) × LogBackedRevocation
  prove_included l committed key log_signer none w = (ok none, record l { witness = w })
  prove_included l committed key log_signer (some inclusion) w = (
    (do
      sth ← (signed_head w log_signer).0
      ok (
          some (record {
            checkpoint = committed.checkpoint;
            map_proof = map_prove l.map key;
            inclusion = inclusion;
            sth = sth;
          }))),
    record l { witness = (signed_head w log_signer).1 },
  )

  unfoldable pub prove :
      LogBackedRevocation
      → Hash
      → Signer
      → Result CryptoError (Option LogBackedProof) × LogBackedRevocation
  prove l key log_signer = elim l.latest [
    | none ↦ (ok none, l)
    | some committed ↦
        if map_root l.map != committed.checkpoint.map_root
        then (ok none, l)
        else prove_included l committed key log_signer
            (inclusion_proof l.witness committed.leaf_index).0
            (inclusion_proof l.witness committed.leaf_index).1
  ]

  unfoldable pub map_root_is_logged : LogBackedProof → PublicKey → Bool
  map_root_is_logged proof log_key =
      let r = receipt proof.checkpoint in
      r.chain_digest == checkpoint_leaf_tag
      && r.action_digest == checkpoint_digest proof.checkpoint
      && verify_signed_head proof.sth log_key
      && verify_log_inclusion r proof.inclusion proof.sth.root

  unfoldable pub verify_not_revoked : LogBackedProof → Hash → PublicKey → Bool
  verify_not_revoked proof key log_key =
      map_root_is_logged proof log_key
      && verify_non_inclusion proof.checkpoint.map_root key proof.map_proof

  unfoldable pub verify_revoked : LogBackedProof → Hash → PublicKey → Bool
  verify_revoked proof key log_key =
      map_root_is_logged proof log_key
      && verify_map_inclusion proof.checkpoint.map_root key proof.map_proof
