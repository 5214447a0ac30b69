-- ===== src/RevLog/Verdicts.antt =====
-- What a relying party learns of a key from a log-backed proof.
use index_one.Base.{
  ◌^◌, ◌≤◌, ◌≡◌, refl, sym, ◌∙◌, ◌⊎◌, inl, inr, true, false, some, length, All, ok, subst, &&_iff,
}
use index_one.RevMap.{
  map_contains, Hash, RevocationMap, map_root, prove as map_prove,
  verify_inclusion as verify_map_inclusion, verify_non_inclusion,
}
use index_one.RevMap.Order.{IsKey, IsValid, map_contains-eq-contains}
use index_one.RevMap.Soundness.{verify_inclusion-map_root}
use index_one.RevMap.NonInclusion.{verify_non_inclusion-map_root}
use index_one.RevMap.Completeness.{prove_complete}
use index_one.RevLog.Defs.{
  Committed, LogBackedRevocation, LogBackedProof, prove, map_root_is_logged, verify_not_revoked,
  verify_revoked,
}
use index_one.RevLog.Publish.{IsConsistent, prove-map_root_is_logged}
use index_one.Crypto.{Primitives, PublicKey, Signer, IsGenuine}
use index_one.Witness.{WitnessEncoding, SignedTreeHead, size, signed_head, inclusion_proof}
use index_one.Witness.Collision.{Collision, IsSized}

module _ ⦃prim : Primitives⦄ ⦃enc : WitnessEncoding⦄ where
  logged_revoked :
      (proof : LogBackedProof) (key : Hash) (log_key : PublicKey) (m : RevocationMap)
      → map_root_is_logged proof log_key ≡ true
      → proof.checkpoint.map_root ≡ map_root m
      → proof.map_proof ≡ map_prove m key
      → verify_map_inclusion (map_root m) key (map_prove m key) ≡ true
      → verify_revoked proof key log_key ≡ true
  unfolding verify_revoked
  logged_revoked proof key log_key m logged same carries accepted =
      rw (logged, same, carries, accepted) refl

  logged_not_revoked :
      (proof : LogBackedProof) (key : Hash) (log_key : PublicKey) (m : RevocationMap)
      → map_root_is_logged proof log_key ≡ true
      → proof.checkpoint.map_root ≡ map_root m
      → proof.map_proof ≡ map_prove m key
      → verify_non_inclusion (map_root m) key (map_prove m key) ≡ true
      → verify_not_revoked proof key log_key ≡ true
  unfolding verify_not_revoked
  logged_not_revoked proof key log_key m logged same carries accepted =
      rw (logged, same, carries, accepted) refl

  -- Where `blake3` gives 32 bytes, a consistent log of at most 2 ^ 64 leaves has a committed checkpoint
  -- of the current map, the keys of the map are in order, and a genuine signer signs the head, `prove`
  -- returns for a key of 32 bytes a proof that `verify_revoked` accepts under the key of the signer if
  -- the map has the key and that `verify_not_revoked` accepts if it has not, or two inputs are
  -- exhibited that `blake3` hashes alike.
  pub prove-verify_not_revoked :
      (l : LogBackedRevocation) (c : Committed) (key : Hash) (signer : Signer)
      (sth : SignedTreeHead)
      → IsSized
      → IsConsistent l
      → IsValid l.map
      → IsKey key
      → l.latest ≡ some c
      → map_root l.map ≡ c.checkpoint.map_root
      → size l.witness ≤ 2 ^ 64
      → IsGenuine signer
      → (signed_head (inclusion_proof l.witness c.leaf_index).1 signer).0 ≡ ok sth
      → ((proof : LogBackedProof) × ((prove l key signer).0 ≡ ok (some proof))
          × (map_contains l.map key ≡ true → verify_revoked proof key signer.public_key ≡ true)
          × (map_contains l.map key ≡ false
              → verify_not_revoked proof key signer.public_key ≡ true))
        ⊎ Collision
  prove-verify_not_revoked l c key signer sth sized k valid is_key latest same fits genuine signed =
      let (proof, returned, root_is, carries, logged) =
        prove-map_root_is_logged l c key signer sth k latest same fits genuine signed in
      let held = map_contains-eq-contains l.map key valid in
      elim (prove_complete l.map key sized valid is_key) [
        | inr x ↦ inr x
        | inl (included, excluded) ↦ inl (
          proof,
          returned,
          λ there.
              logged_revoked proof key signer.public_key l.map logged root_is carries
                (included (sym held ∙ there)),
          λ absent.
              logged_not_revoked proof key signer.public_key l.map logged root_is carries
                (excluded (sym held ∙ absent)),
        )
      ]

  -- Where `blake3` gives 32 bytes, the checkpoint of a proof commits to the root of a map with its keys
  -- in order, and the siblings of the proof have 32 bytes, the map has a key that `verify_revoked`
  -- accepts and has not a key that `verify_not_revoked` accepts, or two inputs are exhibited that
  -- `blake3` hashes alike.
  pub verify_not_revoked_sound :
      (proof : LogBackedProof) (key : Hash) (log_key : PublicKey) (m : RevocationMap)
      → IsSized
      → IsValid m
      → All (λ s. length s ≡ 32) proof.map_proof.siblings
      → proof.checkpoint.map_root ≡ map_root m
      → (verify_revoked proof key log_key ≡ true → (map_contains m key ≡ true) ⊎ Collision)
        × (verify_not_revoked proof key log_key ≡ true → (map_contains m key ≡ false) ⊎ Collision)
  unfolding verify_revoked verify_not_revoked
  verify_not_revoked_sound proof key log_key m sized valid sizes same =
      let held = map_contains-eq-contains m key valid in
      (
        λ accepted.
            (let test = ((&&_iff _ _).0 accepted).1 in
              elim (verify_inclusion-map_root m key proof.map_proof sized sizes
                (subst (λ r. verify_map_inclusion r key proof.map_proof ≡ true) same test)) [
                  | inl there ↦ inl (held ∙ there)
                  | inr x ↦ inr x
                ]),
        λ accepted.
            (let test = ((&&_iff _ _).0 accepted).1 in
              elim (verify_non_inclusion-map_root m key proof.map_proof sized valid sizes
                (subst (λ r. verify_non_inclusion r key proof.map_proof ≡ true) same test)) [
                  | inl absent ↦ inl (held ∙ absent)
                  | inr x ↦ inr x
                ]),
      )
