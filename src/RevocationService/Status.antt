-- ===== src/RevocationService/Status.antt =====
-- What the clients of the second version are told: a proof after a checkpoint, and else a conflict.
use index_one.Base.{
  ◌^◌, ◌<◌, ◌≡◌, refl, ◌⊎◌, true, false, some, ok, Bytes, sym, ap, ◌∙◌, subst, inl, inr, arith, err,
  Result-cases, Option, none, Result, ok_or, ok-injective, ◌>>=◌,
}
use index_one.Crypto.{Primitives, Signer, IsGenuine, Signature, CryptoError}
use index_one.Witness.{
  Witness, WitnessEncoding, SignedTreeHead, size, root, signed_head, inclusion_proof,
}
use index_one.Witness.Collision.{Collision, IsSized}
use index_one.RevMap.{Hash, map_root, map_contains}
use index_one.RevLog.{
  Committed, LogBackedProof, next_checkpoint, publish_checkpoint, prove, verify_revoked,
  verify_not_revoked,
}
use index_one.RevLog.Publish.{publish_checkpoint-IsConsistent}
use index_one.RevLog.Verdicts.{prove-verify_not_revoked}
use index_one.RevLog.Kept.{prove_closed}
use index_one.RevocationService.Requests.{HexCodec, KeyQuery, ApiError, hash_from_hex}
use index_one.RevocationService.Handlers.{AppState, no_checkpoint, v2_checkpoint, v2_status}
use index_one.RevocationService.Serving.{IsBytewise, IsServing, hash_from_hex-IsKey}

module _ ⦃prim : Primitives⦄ ⦃enc : WitnessEncoding⦄ ⦃hex : HexCodec⦄ where
  -- A signer that never fails.
  abbrev pub IsSigning : Signer → Type 0
  IsSigning signer =
      (payload : Bytes) → (signature : Signature) × (signer.sign payload ≡ ok signature)

  pub head_signed :
      (w : Witness) (signer : Signer)
      → IsSigning signer
      → (sth : SignedTreeHead) × ((signed_head w signer).0 ≡ ok sth)
  unfolding signed_head
  head_signed w signer signs =
      let (signature, e) = signs (enc.head_bytes (size w) (root w).0) in
      (record { tree_size = size w; root = (root w).0; signature = signature }, rw e refl)

  pub v2_status_proof :
      (st : AppState) (q : KeyQuery) (key : Hash) (proof : LogBackedProof)
      → hash_from_hex q.key ≡ ok key
      → (prove st.logbacked key st.signer).0 ≡ ok (some proof)
      → (v2_status st q).0 ≡ ok (ok proof)
  unfolding v2_status
  v2_status_proof st q key proof parsed proved = rw (v2_status, parsed, proved) refl

  -- Where `blake3` gives 32 bytes, `hex::decode` returns bytes, the signer is genuine and never
  -- fails, the state has the invariant of the service and its log has fewer than 2 ^ 64 checkpoints:
  -- after `v2_checkpoint`, `v2_status` answers a key that parses with a proof that `verify_revoked`
  -- accepts under the service's key if the map has the key, and that `verify_not_revoked` accepts if
  -- it has not, or two inputs are exhibited that `blake3` hashes alike.
  pub v2_status-v2_checkpoint :
      (signer : Signer) (st : AppState) (q : KeyQuery) (key : Hash)
      → IsSized
      → IsBytewise
      → IsGenuine signer
      → IsSigning signer
      → IsServing signer st
      → hash_from_hex q.key ≡ ok key
      → st.logbacked.epoch < 2 ^ 64
      → ((proof : LogBackedProof) × ((v2_status (v2_checkpoint st).1 q).0 ≡ ok (ok proof))
          × (map_contains st.logbacked.map key ≡ true
              → verify_revoked proof key st.operator_key ≡ true)
          × (map_contains st.logbacked.map key ≡ false
              → verify_not_revoked proof key st.operator_key ≡ true))
        ⊎ Collision
  unfolding v2_checkpoint publish_checkpoint
  v2_status-v2_checkpoint signer st q key sized bytewise genuine signs s parsed room =
      let l = (publish_checkpoint st.logbacked st.signer).1 in
      let (consistent, latest, epoch) =
        publish_checkpoint-IsConsistent st.logbacked st.signer s.consistent in
      let c : Committed = record {
        checkpoint = next_checkpoint st.logbacked;
        leaf_index = st.logbacked.epoch;
      } in
      let (sth, signed) =
        head_signed (inclusion_proof l.witness c.leaf_index).1 st.signer
          (subst IsSigning (sym s.signs) signs) in
      elim (prove-verify_not_revoked l c key st.signer sth sized consistent s.keys
        (hash_from_hex-IsKey q.key key bytewise parsed) latest refl
        (omega (arith, consistent.epochs, epoch, room)) (subst IsGenuine (sym s.signs) genuine)
        signed) [
          | inr x ↦ inr x
          | inl (proof, proved, revoked, live) ↦
              let key_is : st.signer.public_key ≡ st.operator_key =
                ap (λ (x : Signer). x.public_key) s.signs ∙ sym s.pinned in
              inl (
                proof,
                v2_status_proof (v2_checkpoint st).1 q key proof parsed proved,
                λ there. subst (λ k. verify_revoked proof key k ≡ true) key_is (revoked there),
                λ absent. subst (λ k. verify_not_revoked proof key k ≡ true) key_is (live absent),
              )
        ]

  v2_status_refuses :
      (st : AppState) (q : KeyQuery) (e : ApiError)
      → hash_from_hex q.key ≡ err e
      → (v2_status st q).0 ≡ ok (err e)
  unfolding v2_status
  v2_status_refuses st q e bad = rw (v2_status, bad) refl

  answered :
      (proved : Result CryptoError (Option LogBackedProof)) (e : ApiError) (proof : LogBackedProof)
      → (do found ← proved; ok (ok_or found e)) ≡ ok (ok proof)
      → proved ≡ ok (some proof)
  answered (err problem) e proof h = cc
  answered (ok none) e proof h = cc
  answered (ok (some found)) e proof h = ap (λ p. ok (some p)) (ok-injective (ok-injective h))

  v2_status_parsed :
      (st : AppState) (q : KeyQuery) (key : Hash)
      → hash_from_hex q.key ≡ ok key
      → (v2_status st q).0
        ≡ (do found ← (prove st.logbacked key st.signer).0; ok (ok_or found no_checkpoint))
  unfolding v2_status
  v2_status_parsed st q key parsed = rw (v2_status, parsed) refl

  -- `v2_status` gives a proof only of the committed checkpoint, and only while its root is the root
  -- of the map.
  pub v2_status_closed :
      (st : AppState) (q : KeyQuery) (proof : LogBackedProof)
      → (v2_status st q).0 ≡ ok (ok proof)
      → (c : Committed) × (st.logbacked.latest ≡ some c)
        × (map_root st.logbacked.map ≡ c.checkpoint.map_root)
        × (proof.checkpoint ≡ c.checkpoint)
  v2_status_closed st q proof h = elim (Result-cases (hash_from_hex q.key)) [
    | inl (key, parsed) ↦ prove_closed st.logbacked key st.signer proof (
        answered (prove st.logbacked key st.signer).0 no_checkpoint proof
          (sym (v2_status_parsed st q key parsed) ∙ h))
    | inr (e, bad) ↦ let refused = sym (v2_status_refuses st q e bad) ∙ h in cc
  ]
