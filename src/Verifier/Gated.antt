-- ===== src/Verifier/Gated.antt =====
-- What the gates add to an accepted action.
use mathlib.Core.Option.{some-injective}
use index_one.Base.{
  ℕ, ◌≡◌, refl, sym, ap, ◌∙◌, ◌↔◌, ◌⊎◌, true, none, some, List, [], ◌∷◌, All, length, last?, Result,
  ok, ok_or, ◌>>◌, guard_then, bind_then, unit_then, guard-eq-ok, ◌==◌, ==_iff, list_eq, nat_eq,
  Option, option_eq,
}
use index_one.Crypto.{PublicKey, Primitives}
use index_one.Chain.{ChainEncoding, DelegationBlock}
use index_one.Chain.Scope.{Scope}
use index_one.Witness.{Digest, WitnessEncoding, bind_action}
use index_one.Witness.Collision.{Collision}
use index_one.Witness.Purpose.{bind_action_injective}
use index_one.Attestation.{AttestationEncoding}
use index_one.Revocation.{RevocationId, find_id, revocation_ids_for_chain}
use index_one.RevLog.{LogBackedProof, verify_not_revoked}
use index_one.Verifier.Defs.{
  VerifyPolicy, VerifiableAction, VerifiableThresholdAction, VerifyError, not_unrevoked,
  purpose_mismatch, verify, verify_threshold,
}
use index_one.Verifier.Accepted.{IsAccepted, verify-IsAccepted}
use index_one.Verifier.AcceptedThreshold.{IsAcceptedBundle, verify_threshold-IsAcceptedBundle}
use index_one.Verifier.Gates.{
  RevocationEvidence, each_not_revoked, verify_chain_not_revoked, verify_with_revocation,
  verify_threshold_with_revocation, verify_action_purpose_binding, verify_with_purpose,
}

ok_or-eq-ok : {E A : Type 0} (m : Option A) (e : E) {a : A} → ok_or m e ≡ ok a → m ≡ some a
ok_or-eq-ok none e h = cc
ok_or-eq-ok (some a) e h = cc

module _ ⦃prim : Primitives⦄ ⦃we : WitnessEncoding⦄ where
  -- The evidence holds a proof for the id, of 32 bytes, that shows it not revoked.
  abbrev pub IsUnrevoked : RevocationEvidence → RevocationId → Type 0
  IsUnrevoked evidence id =
      (proof : LogBackedProof) × (find_id evidence.proofs id ≡ some proof)
      × (length id ≡ 32)
      × (verify_not_revoked proof id evidence.log_key ≡ true)

  each_not_revoked_iff :
      (evidence : RevocationEvidence) (ids : List RevocationId)
      → (each_not_revoked evidence ids ≡ ok tt) ↔ All (IsUnrevoked evidence) ids
  unfolding each_not_revoked
  each_not_revoked_iff evidence [] = (λ _. tt, λ _. refl)
  each_not_revoked_iff evidence (id ∷ ids) = (
    λ h.
        (let (proof, found, h1) =
            bind_then (ok_or (find_id evidence.proofs id) not_unrevoked) _ h in
          let (wide, h2) = guard_then (length id == 32) not_unrevoked _ h1 in
          let (shown, h3) =
            guard_then (verify_not_revoked proof id evidence.log_key) not_unrevoked _ h2 in
          (
            (
              proof,
              ok_or-eq-ok (find_id evidence.proofs id) not_unrevoked found,
              (==_iff (length id) 32).0 wide,
              shown,
            ),
            (each_not_revoked_iff evidence ids).0 h3,
          )),
    λ every.
        (let (proof, found, wide, shown) = every.0 in
          rw (
            found,
            (==_iff (length id) 32).1 wide,
            shown,
            (each_not_revoked_iff evidence ids).1 every.1,
          )),
  )

module _ ⦃prim : Primitives⦄ ⦃ce : ChainEncoding⦄ ⦃we : WitnessEncoding⦄
    ⦃ae : AttestationEncoding⦄ where
  gate_iff :
      {A : Type 0} (gate : Result VerifyError (Unit {0})) (m : Result VerifyError A) (a : A)
      → ((gate >> m) ≡ ok a) ↔ ((gate ≡ ok tt) × (m ≡ ok a))
  gate_iff gate m a = (λ h. unit_then gate m h, λ (opened, h). rw opened h)

  -- `verify_with_revocation` returns the scope `s` exactly when the action is accepted with `s` and
  -- the evidence shows the root block and every delegation block not revoked.
  pub verify_with_revocation-IsAccepted :
      (action : VerifiableAction) (root_key : PublicKey) (trusted_root : Digest)
      (policy : VerifyPolicy) (revocation : RevocationEvidence) (s : Scope)
      → (verify_with_revocation action root_key trusted_root policy revocation ≡ ok s) ↔ (
          All (IsUnrevoked revocation) (revocation_ids_for_chain action.chain)
          × IsAccepted action root_key trusted_root policy s)
  unfolding verify_with_revocation verify_chain_not_revoked
  verify_with_revocation-IsAccepted action root_key trusted_root policy revocation s =
      let ids = revocation_ids_for_chain action.chain in
      let gate =
        gate_iff (each_not_revoked revocation ids) (verify action root_key trusted_root policy) s in
      (
        λ h.
            (let (opened, accepted) = gate.0 h in
              (
                (each_not_revoked_iff revocation ids).0 opened,
                (verify-IsAccepted action root_key trusted_root policy s).0 accepted,
              )),
        λ (unrevoked, accepted). gate.1 (
          (each_not_revoked_iff revocation ids).1 unrevoked,
          (verify-IsAccepted action root_key trusted_root policy s).1 accepted,
        ),
      )

  -- `verify_threshold_with_revocation` returns the scope `s` exactly when the action with the k-of-n
  -- aggregate is accepted with `s` and the evidence shows every block of the chain not revoked.
  pub verify_threshold_with_revocation-IsAcceptedBundle :
      (action : VerifiableThresholdAction) (root_key : PublicKey) (trusted_root : Digest)
      (required_threshold : ℕ) (policy : VerifyPolicy) (revocation : RevocationEvidence) (s : Scope)
      → (verify_threshold_with_revocation action root_key trusted_root required_threshold policy
            revocation
          ≡ ok s)
        ↔ (All (IsUnrevoked revocation) (revocation_ids_for_chain action.chain)
            × IsAcceptedBundle action root_key trusted_root required_threshold policy s)
  unfolding verify_threshold_with_revocation verify_chain_not_revoked
  verify_threshold_with_revocation-IsAcceptedBundle action root_key trusted_root required_threshold
        policy revocation s =
      let ids = revocation_ids_for_chain action.chain in
      let accept =
        verify_threshold-IsAcceptedBundle action root_key trusted_root required_threshold policy
          s in
      let gate =
        gate_iff (each_not_revoked revocation ids)
          (verify_threshold action root_key trusted_root required_threshold policy) s in
      (
        λ h.
            (let (opened, accepted) = gate.0 h in
              ((each_not_revoked_iff revocation ids).0 opened, accept.0 accepted)),
        λ (unrevoked, accepted).
            gate.1 ((each_not_revoked_iff revocation ids).1 unrevoked, accept.1 accepted),
      )

  -- The receipt's action digest binds the purpose of the last hop and these parameters.
  abbrev pub IsPurposeBound : VerifiableAction → Digest → Type 0
  IsPurposeBound action params_digest =
      (hop : DelegationBlock) × (last? action.chain.delegations ≡ some hop)
      × (bind_action hop.purpose params_digest ≡ action.action_receipt.action_digest)

  purpose_iff :
      (action : VerifiableAction) (params_digest : Digest)
      → (verify_action_purpose_binding action params_digest ≡ ok tt)
        ↔ IsPurposeBound action params_digest
  unfolding verify_action_purpose_binding
  purpose_iff action params_digest = (
    λ h.
        (let (hop, found, h1) =
            bind_then (ok_or (last? action.chain.delegations) purpose_mismatch) _ h in
          (
            hop,
            ok_or-eq-ok (last? action.chain.delegations) purpose_mismatch found,
            (==_iff (bind_action hop.purpose params_digest) action.action_receipt.action_digest).0
                (guard-eq-ok _ purpose_mismatch h1),
          )),
    λ (hop, found, bound). rw (
      found,
      (==_iff (bind_action hop.purpose params_digest) action.action_receipt.action_digest).1 bound,
    ),
  )

  -- `verify_with_purpose` returns the scope `s` exactly when the action is accepted with `s`, the
  -- chain has a delegation, and the action digest of the receipt is the one that binds the purpose
  -- of the last delegation and the parameters.
  pub verify_with_purpose-IsAccepted :
      (action : VerifiableAction) (root_key : PublicKey) (trusted_root : Digest)
      (policy : VerifyPolicy) (params_digest : Digest) (s : Scope)
      → (verify_with_purpose action root_key trusted_root policy params_digest ≡ ok s)
        ↔ (IsPurposeBound action params_digest × IsAccepted action root_key trusted_root policy s)
  unfolding verify_with_purpose
  verify_with_purpose-IsAccepted action root_key trusted_root policy params_digest s =
      let gate =
        gate_iff (verify_action_purpose_binding action params_digest)
          (verify action root_key trusted_root policy) s in
      (
        λ h.
            (let (opened, accepted) = gate.0 h in
              (
                (purpose_iff action params_digest).0 opened,
                (verify-IsAccepted action root_key trusted_root policy s).0 accepted,
              )),
        λ (bound, accepted). gate.1 (
          (purpose_iff action params_digest).1 bound,
          (verify-IsAccepted action root_key trusted_root policy s).1 accepted,
        ),
      )

  -- No receipt serves two purposes: where two actions with one action digest are accepted for their
  -- purposes, the last hops have one purpose and the parameters are the same, or two inputs are
  -- exhibited that `blake3` hashes alike. The digests of the parameters have 32 bytes.
  pub one_purpose :
      (a b : VerifiableAction) (root_key : PublicKey) (trusted_root : Digest)
      (policy : VerifyPolicy) (p q : Digest) (s t : Scope) (hop hop' : DelegationBlock)
      → length p ≡ 32
      → length q ≡ 32
      → a.action_receipt.action_digest ≡ b.action_receipt.action_digest
      → last? a.chain.delegations ≡ some hop
      → last? b.chain.delegations ≡ some hop'
      → verify_with_purpose a root_key trusted_root policy p ≡ ok s
      → verify_with_purpose b root_key trusted_root policy q ≡ ok t
      → ((hop.purpose ≡ hop'.purpose) × (p ≡ q)) ⊎ Collision
  one_purpose a b root_key trusted_root policy p q s t hop hop' wp wq same last_a last_b ha hb =
      let ((h, found, bound), _) =
        (verify_with_purpose-IsAccepted a root_key trusted_root policy p s).0 ha in
      let ((h', found', bound'), _) =
        (verify_with_purpose-IsAccepted b root_key trusted_root policy q t).0 hb in
      let eh : h ≡ hop = some-injective _ _ (sym found ∙ last_a) in
      let eh' : h' ≡ hop' = some-injective _ _ (sym found' ∙ last_b) in
      bind_action_injective hop.purpose p hop'.purpose q wp wq (
        ap (λ (x : DelegationBlock). bind_action x.purpose p) (sym eh)
        ∙ bound
        ∙ same
        ∙ sym bound'
        ∙ ap (λ (x : DelegationBlock). bind_action x.purpose q) eh')
