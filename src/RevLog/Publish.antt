-- ===== src/RevLog/Publish.antt =====
-- Every checkpoint that is published stands in the log, and `prove` shows it there.
use index_one.Base.{
  ℕ, ◌+◌, ◌^◌, ◌≤◌, ◌<◌, ◌≡◌, refl, sym, ap, ◌∙◌, subst, true, false, none, some, Option, List, [],
  ◌∷◌, ◌++◌, arith, length, length-append, ok, ◌!=◌, ==_refl, !=_iff, list_eq, nat_eq, option_eq,
}
use index_one.Crypto.{PublicKey, Primitives, Signer, IsGenuine}
use index_one.Witness.{
  Digest, ActionReceipt, InclusionProof, SignedTreeHead, WitnessEncoding, Witness, size, root,
  append, inclusion_proof, signed_head, verify_signed_head, hash_leaf,
  verify_inclusion as verify_log_inclusion,
}
use index_one.Witness.{leaf_at}
use index_one.Witness.TreeHash.{log_root}
use index_one.Witness.Memo.{IsValid, root-eq-log_root, append-IsValid}
use index_one.Witness.Inclusion.{verify_inclusion-inclusion_proof}
use index_one.Witness.Heads.{
  inclusion_proof-keeps, signed_head-keeps, signed_head-verify_signed_head,
}
use index_one.RevMap.{Hash, map_root, prove as map_prove}
use index_one.RevLog.Defs.{
  MapCheckpoint, Committed, LogBackedRevocation, LogBackedProof, new, receipt, next_checkpoint,
  publish_checkpoint, revoke, prove, checkpoint_digest, checkpoint_leaf_tag, map_root_is_logged,
}

module _ ⦃prim : Primitives⦄ ⦃enc : WitnessEncoding⦄ where
  -- The committed checkpoint, where there is one, is the leaf that its index names.
  abbrev pub IsCommitted : Witness → Option Committed → Type 0
  IsCommitted w none = Unit {0}
  IsCommitted w (some c) =
      (c.leaf_index < size w)
      × (leaf_at w.leaf_hashes c.leaf_index ≡ hash_leaf (enc.receipt_bytes (receipt c.checkpoint)))

  -- The log is valid, it has one leaf for each epoch, and it holds the committed checkpoint.
  pub record IsConsistent (l : LogBackedRevocation) : Type 0 where
    pub valid : IsValid l.witness
    pub epochs : size l.witness ≡ l.epoch
    pub committed : IsCommitted l.witness l.latest

  pub new-IsConsistent : IsConsistent new
  new-IsConsistent = record { valid = tt; epochs = refl; committed = tt }

  pub revoke-IsConsistent :
      (l : LogBackedRevocation) (key : Hash) → IsConsistent l → IsConsistent (revoke l key)
  unfolding revoke
  revoke-IsConsistent l key c = record {
    valid = c.valid;
    epochs = c.epochs;
    committed = c.committed;
  }

  -- The state that `publish_checkpoint` leaves, whatever the signer does.
  abbrev published : LogBackedRevocation → Witness → LogBackedRevocation
  published l w = record l {
    witness = w;
    epoch = l.epoch + 1;
    latest = some (record { checkpoint = next_checkpoint l; leaf_index = size (root l.witness).1 });
  }

  publish_checkpoint_state :
      (l : LogBackedRevocation) (signer : Signer)
      → (publish_checkpoint l signer).1
        ≡ published l
            (signed_head (append (root l.witness).1 (receipt (next_checkpoint l))).1 signer).1
  unfolding publish_checkpoint append
  publish_checkpoint_state l signer = refl

  append_index : (w : Witness) (r : ActionReceipt) → (append w r).0 ≡ size w
  unfolding append
  append_index w r = refl

  -- `publish_checkpoint` keeps the state consistent: it appends one leaf, which is the new committed
  -- checkpoint with the current map root, and raises the epoch by one.
  pub publish_checkpoint-IsConsistent :
      (l : LogBackedRevocation) (signer : Signer)
      → IsConsistent l
      → IsConsistent (publish_checkpoint l signer).1
        × ((publish_checkpoint l signer).1.latest
            ≡ some (record { checkpoint = next_checkpoint l; leaf_index = l.epoch }))
        × ((publish_checkpoint l signer).1.epoch ≡ l.epoch + 1)
  publish_checkpoint-IsConsistent l signer c =
      let w = (root l.witness).1 in
      let (_, same, valid) = root-eq-log_root l.witness c.valid in
      let r = receipt (next_checkpoint l) in
      let (valid', leaves, at) = append-IsValid w r valid in
      let (kept, valid'') = signed_head-keeps (append w r).1 signer valid' in
      let grown : LogBackedRevocation = published l (signed_head (append w r).1 signer).1 in
      let size_same : size w ≡ l.epoch = ap length same ∙ c.epochs in
      let at_end : leaf_at (append w r).1.leaf_hashes (size w) ≡ hash_leaf (enc.receipt_bytes r) =
        subst (λ (i : ℕ). leaf_at (append w r).1.leaf_hashes i ≡ hash_leaf (enc.receipt_bytes r))
          (append_index w r) at in
      let hashes = kept ∙ leaves in
      let one_more : length (w.leaf_hashes ++ hash_leaf (enc.receipt_bytes r) ∷ []) ≡ l.epoch + 1 =
        omega
          (arith, length-append w.leaf_hashes (hash_leaf (enc.receipt_bytes r) ∷ []), size_same) in
      let whole : size (signed_head (append w r).1 signer).1 ≡ l.epoch + 1 =
        ap length hashes ∙ one_more in
      subst
        (λ (x : LogBackedRevocation).
          IsConsistent x
          × (x.latest ≡ some (record { checkpoint = next_checkpoint l; leaf_index = l.epoch }))
          × (x.epoch ≡ l.epoch + 1))
        (sym (publish_checkpoint_state l signer))
        (
          record {
            valid = valid'';
            epochs = whole;
            committed = (
              omega (arith, whole, size_same),
              ap (λ (hs : List Digest). leaf_at hs (size w)) kept ∙ at_end,
            );
          },
          ap (λ (i : ℕ). some (record { checkpoint = next_checkpoint l; leaf_index = i }))
              size_same,
          refl,
        )

  same_root_test :
      (l : LogBackedRevocation) (c : Committed)
      → map_root l.map ≡ c.checkpoint.map_root
      → (map_root l.map != c.checkpoint.map_root) ≡ false
  same_root_test l c e = (!=_iff (map_root l.map) c.checkpoint.map_root).1 e

  -- What `prove` returns for a committed checkpoint whose map root is the current one.
  prove_found :
      (l : LogBackedRevocation) (c : Committed) (key : Hash) (signer : Signer)
      (inclusion : InclusionProof) (sth : SignedTreeHead)
      → l.latest ≡ some c
      → map_root l.map ≡ c.checkpoint.map_root
      → (inclusion_proof l.witness c.leaf_index).0 ≡ some inclusion
      → (signed_head (inclusion_proof l.witness c.leaf_index).1 signer).0 ≡ ok sth
      → (prove l key signer).0
        ≡ ok (
            some (record {
              checkpoint = c.checkpoint;
              map_proof = map_prove l.map key;
              inclusion = inclusion;
              sth = sth;
            }))
  unfolding prove
  prove_found l c key signer inclusion sth latest same found signed =
      rw (prove, latest, same_root_test l c same, found, signed)

  head_logged :
      (c : MapCheckpoint) (inclusion : InclusionProof) (sth : SignedTreeHead) (log_key : PublicKey)
      (proof : LogBackedProof)
      → proof.checkpoint ≡ c
      → proof.inclusion ≡ inclusion
      → proof.sth ≡ sth
      → verify_signed_head sth log_key ≡ true
      → verify_log_inclusion (receipt c) inclusion sth.root ≡ true
      → map_root_is_logged proof log_key ≡ true
  unfolding map_root_is_logged receipt
  head_logged c inclusion sth log_key proof ec ei es signed included =
      rw (ec, ei, es, ==_refl checkpoint_leaf_tag, ==_refl (checkpoint_digest c), signed) included

  -- A log with a committed checkpoint of the current map, of at most 2 ^ 64 leaves, proves the state
  -- of every key to a relying party: where the log's signer is genuine and signs the head, `prove`
  -- returns the map's proof with the current map root, which passes as logged under the signer's key.
  pub prove-map_root_is_logged :
      (l : LogBackedRevocation) (c : Committed) (key : Hash) (signer : Signer)
      (sth : SignedTreeHead)
      → IsConsistent l
      → l.latest ≡ some c
      → map_root l.map ≡ c.checkpoint.map_root
      → size l.witness ≤ 2 ^ 64
      → IsGenuine signer
      → (signed_head (inclusion_proof l.witness c.leaf_index).1 signer).0 ≡ ok sth
      → (proof : LogBackedProof) × ((prove l key signer).0 ≡ ok (some proof))
        × (proof.checkpoint.map_root ≡ map_root l.map)
        × (proof.map_proof ≡ map_prove l.map key)
        × (map_root_is_logged proof signer.public_key ≡ true)
  prove-map_root_is_logged l c key signer sth k latest same fits genuine signed =
      let (inside, at) = subst (IsCommitted l.witness) latest k.committed in
      let (inclusion, found, _, _, accepted, valid) =
        verify_inclusion-inclusion_proof l.witness c.leaf_index (receipt c.checkpoint) k.valid
          inside fits at in
      let (_, root_is, holds) =
        signed_head-verify_signed_head (inclusion_proof l.witness c.leaf_index).1 signer sth valid
          genuine signed in
      (
        record {
          checkpoint = c.checkpoint;
          map_proof = map_prove l.map key;
          inclusion = inclusion;
          sth = sth;
        },
        prove_found l c key signer inclusion sth latest same found signed,
        sym same,
        refl,
        head_logged c.checkpoint inclusion sth signer.public_key _ refl refl refl holds (
            subst (λ (d : Digest). verify_log_inclusion (receipt c.checkpoint) inclusion d ≡ true)
              (sym (root_is ∙ ap log_root (inclusion_proof-keeps l.witness c.leaf_index)))
              accepted),
      )
