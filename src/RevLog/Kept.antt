-- ===== src/RevLog/Kept.antt =====
-- The calls that read the log of checkpoints leave it consistent, and the map alone.
use index_one.Base.{
  ℕ, ◌≡◌, refl, ap, ◌∙◌, inl, inr, Option, none, some, arith, length, ◌!=◌, Bool-cases,
  Option-cases, nat_eq, list_eq, option_eq, sym, ok, bind_then, ok-injective, !=_iff, ◌⊎◌, true,
  false, Result,
}
use index_one.Crypto.{Primitives, Signer, CryptoError}
use index_one.Witness.{
  Digest, Witness, WitnessEncoding, InclusionProof, leaf_at, inclusion_proof,
  signed_head as log_head,
}
use index_one.Witness.Heads.{signed_head-keeps}
use index_one.Witness.Kept.{IsKept, inclusion_proof-IsKept, consistency_proof-IsKept}
use index_one.RevMap.{Hash, map_root}
use index_one.RevLog.Defs.{
  LogBackedProof, MapCheckpoint, Committed, LogBackedRevocation, prove, prove_included,
}
use index_one.RevLog.Reads.{signed_head, consistency_proof}
use index_one.RevLog.Publish.{IsCommitted, IsConsistent}

module _ ⦃prim : Primitives⦄ ⦃enc : WitnessEncoding⦄ where
  IsCommitted-kept :
      (w w' : Witness) (latest : Option Committed)
      → w'.leaf_hashes ≡ w.leaf_hashes
      → IsCommitted w latest
      → IsCommitted w' latest
  IsCommitted-kept w w' none same c = tt
  IsCommitted-kept w w' (some c) same (inside, at) = (
    omega (arith, inside, ap (length {A = Digest}) same),
    ap (λ hs. leaf_at hs c.leaf_index) same ∙ at,
  )

  -- The state with another cache of its log.
  abbrev pub IsReread : LogBackedRevocation → LogBackedRevocation → Type 0
  IsReread l l' = IsConsistent l' × (l'.map ≡ l.map)

  reread :
      (l : LogBackedRevocation) (w' : Witness)
      → IsConsistent l
      → IsKept l.witness w'
      → IsReread l (record l { witness = w' })
  reread l w' c (same, valid) = (
    record {
      valid = valid;
      epochs = ap length same ∙ c.epochs;
      committed = IsCommitted-kept l.witness w' l.latest same c.committed;
    },
    refl,
  )

  pub signed_head-IsReread :
      (l : LogBackedRevocation) (signer : Signer)
      → IsConsistent l
      → IsReread l (signed_head l signer).1
  unfolding signed_head
  signed_head-IsReread l signer c =
      reread l (log_head l.witness signer).1 c (signed_head-keeps l.witness signer c.valid)

  pub consistency_proof-IsReread :
      (l : LogBackedRevocation) (m n : ℕ) → IsConsistent l → IsReread l (consistency_proof l m n).1
  unfolding consistency_proof
  consistency_proof-IsReread l m n c = reread l _ c (consistency_proof-IsKept l.witness m n c.valid)

  prove_included-IsReread :
      (l : LogBackedRevocation) (c : Committed) (key : Hash) (signer : Signer)
      (found : Option InclusionProof) (w : Witness)
      → IsConsistent l
      → IsKept l.witness w
      → IsReread l (prove_included l c key signer found w).1
  prove_included-IsReread l c key signer none w k kept = reread l w k kept
  prove_included-IsReread l c key signer (some inclusion) w k (same, valid) =
      let (same', valid') = signed_head-keeps w signer valid in
      reread l (log_head w signer).1 k (same' ∙ same, valid')

  pub prove-IsReread :
      (l : LogBackedRevocation) (key : Hash) (signer : Signer)
      → IsConsistent l
      → IsReread l (prove l key signer).1
  unfolding prove
  prove-IsReread l key signer k = elim (Option-cases l.latest) [
    | inl empty ↦ rw (prove, empty) (k, refl)
    | inr (c, latest) ↦ elim (Bool-cases (map_root l.map != c.checkpoint.map_root)) [
      | inl changed ↦ rw (prove, latest, changed) (k, refl)
      | inr same ↦
          rw (prove, latest, same)
            (prove_included-IsReread l c key signer (inclusion_proof l.witness c.leaf_index).0
              (inclusion_proof l.witness c.leaf_index).1 k
              (inclusion_proof-IsKept l.witness c.leaf_index k.valid))
    ]
  ]

  included_checkpoint :
      (l : LogBackedRevocation) (c : Committed) (key : Hash) (signer : Signer)
      (found : Option InclusionProof) (w : Witness) (proof : LogBackedProof)
      → (prove_included l c key signer found w).0 ≡ ok (some proof)
      → proof.checkpoint ≡ c.checkpoint
  included_checkpoint l c key signer none w proof h = cc
  included_checkpoint l c key signer (some inclusion) w proof h =
      let (_, _, made) = bind_then (log_head w signer).0 _ h in
      ap (λ (o : Option LogBackedProof). checkpoint_or c.checkpoint o) (sym (ok-injective made))
    where
      checkpoint_or : MapCheckpoint → Option LogBackedProof → MapCheckpoint
      checkpoint_or d none = d
      checkpoint_or d (some p) = p.checkpoint

  prove_refuses :
      (l : LogBackedRevocation) (key : Hash) (signer : Signer)
      → (l.latest ≡ none)
        ⊎ ((c : Committed) × (l.latest ≡ some c)
            × ((map_root l.map != c.checkpoint.map_root) ≡ true))
      → (prove l key signer).0 ≡ ok none
  unfolding prove
  prove_refuses l key signer (inl empty) = rw (prove, empty) refl
  prove_refuses l key signer (inr (c, latest, changed)) = rw (prove, latest, changed) refl

  prove_goes_on :
      (l : LogBackedRevocation) (c : Committed) (key : Hash) (signer : Signer)
      (x : Result CryptoError (Option LogBackedProof) × LogBackedRevocation)
      → l.latest ≡ some c
      → (map_root l.map != c.checkpoint.map_root) ≡ false
      → prove_included l c key signer
          (inclusion_proof l.witness c.leaf_index).0
          (inclusion_proof l.witness c.leaf_index).1
        ≡ x
      → prove l key signer ≡ x
  unfolding prove
  prove_goes_on l c key signer x latest same h = rw (prove, latest, same) h

  -- A proof is of the committed checkpoint, which has the root of the map.
  pub prove_closed :
      (l : LogBackedRevocation) (key : Hash) (signer : Signer) (proof : LogBackedProof)
      → (prove l key signer).0 ≡ ok (some proof)
      → (c : Committed) × (l.latest ≡ some c)
        × (map_root l.map ≡ c.checkpoint.map_root)
        × (proof.checkpoint ≡ c.checkpoint)
  prove_closed l key signer proof h = elim (Option-cases l.latest) [
    | inl empty ↦ let none_is = sym (prove_refuses l key signer (inl empty)) ∙ h in cc
    | inr (c, latest) ↦ elim (Bool-cases (map_root l.map != c.checkpoint.map_root)) [
      | inl changed ↦
          let none_is = sym (prove_refuses l key signer (inr (c, latest, changed))) ∙ h in cc
      | inr same ↦ (
        c,
        latest,
        (!=_iff (map_root l.map) c.checkpoint.map_root).0 same,
        included_checkpoint l c key signer (inclusion_proof l.witness c.leaf_index).0
            (inclusion_proof l.witness c.leaf_index).1 proof
            (ap (λ (x : Result CryptoError (Option LogBackedProof) × LogBackedRevocation). x.0)
                (sym (prove_goes_on l c key signer _ latest same refl))
              ∙ h),
      )
    ]
  ]
