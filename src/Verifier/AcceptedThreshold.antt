-- ===== src/Verifier/AcceptedThreshold.antt =====
-- What an action with an accepted k-of-n aggregate is.
use index_one.Base.{
  ℕ, ◌≤◌, ◌≡◌, refl, ◌↔◌, Bool, true, false, not, ◌||◌, List, [], ◌∷◌, arith, any, All, ltb, ok,
  map_err, guard_then, bind_then, unit_then, map_err-eq-ok, ok-injective, subst, ◌==◌, ◌!=◌, ==_iff,
  !=_iff, list_eq, nat_eq, option_eq,
}
use index_one.Crypto.{PublicKey, public_key_eq, Primitives}
use index_one.Chain.{Chain, ChainEncoding, executor_key, digest, verify as verify_chain}
use index_one.Chain.Scope.{Scope}
use index_one.Chain.Spec.{IsAuthorized, IsAuthorized-of_ok, IsAuthorized-ok}
use index_one.Witness.{Digest, ActionReceipt, WitnessEncoding, verify_inclusion}
use index_one.Attestation.{CompletionAttestation, AttestationEncoding, verify_bundle}
use index_one.Attestation.Quorum.{HasQuorum, threshold_iff}
use index_one.Verifier.Defs.{
  VerifyPolicy, VerifiableThresholdAction, chain_invalid, omission, equivocation, threshold_failed,
  insufficient_attestation, outcome_mismatch, attester_not_anchored, chain_binding_mismatch,
  action_digest_inconsistent, attester_is_anchored, each_included, each_consistent,
  verify_threshold,
}
use index_one.Verifier.Accepted.{IsAnchored, IsAnchored-iff}

-- No item fails a test exactly when the test holds of all.
All-iff :
    {A : Type 0} (bad : A → Bool) (P : A → Type 0) (l : List A)
    → ((a : A) → (bad a ≡ false) ↔ P a)
    → (any bad l ≡ false) ↔ All P l
All-iff bad P [] h = (λ _. tt, λ _. refl)
All-iff bad P (a ∷ l) h = (
  λ none. ((h a).0 (ground (arith, none)), (All-iff bad P l h).0 (ground (arith, none))),
  λ every. rw ((h a).1 every.0, (All-iff bad P l h).1 every.1),
)

module _ ⦃prim : Primitives⦄ ⦃we : WitnessEncoding⦄ where
  included_iff :
      (receipt : ActionReceipt) (trusted_root : Digest) (l : List CompletionAttestation)
      → (each_included receipt trusted_root l ≡ ok tt)
        ↔ All (λ a. verify_inclusion receipt a.inclusion trusted_root ≡ true) l
  unfolding each_included
  included_iff receipt trusted_root [] = (λ _. tt, λ _. refl)
  included_iff receipt trusted_root (a ∷ l) = (
    λ h.
        (let (this, rest) =
            guard_then (verify_inclusion receipt a.inclusion trusted_root) omission _ h in
          (this, (included_iff receipt trusted_root l).0 rest)),
    λ every. rw (every.0, (included_iff receipt trusted_root l).1 every.1),
  )

-- The attested outcome and request are the action of the receipt.
abbrev pub IsConsistent : ActionReceipt → CompletionAttestation → Type 0
IsConsistent receipt a =
    (a.outcome_digest ≡ receipt.action_digest) × (a.requested_action_digest ≡ receipt.action_digest)

IsConsistent-iff :
    (receipt : ActionReceipt) (l : List CompletionAttestation)
    → (each_consistent receipt l ≡ ok tt) ↔ All (IsConsistent receipt) l
unfolding each_consistent
IsConsistent-iff receipt [] = (λ _. tt, λ _. refl)
IsConsistent-iff receipt (a ∷ l) = (
  λ h.
      (let (outcome, h1) =
          guard_then (a.outcome_digest == receipt.action_digest) outcome_mismatch _ h in
        let (requested, h2) =
          guard_then (a.requested_action_digest == receipt.action_digest) action_digest_inconsistent
            _ h1 in
        (
          (
            (==_iff a.outcome_digest receipt.action_digest).0 outcome,
            (==_iff a.requested_action_digest receipt.action_digest).0 requested,
          ),
          (IsConsistent-iff receipt l).0 h2,
        )),
  λ every. rw (
    (==_iff a.outcome_digest receipt.action_digest).1 every.0.0,
    (==_iff a.requested_action_digest receipt.action_digest).1 every.0.1,
    (IsConsistent-iff receipt l).1 every.1,
  ),
)

module _ ⦃prim : Primitives⦄ ⦃ce : ChainEncoding⦄ ⦃we : WitnessEncoding⦄
    ⦃ae : AttestationEncoding⦄ where
  pub record IsAcceptedBundle (action : VerifiableThresholdAction) (root_key : PublicKey)
      (trusted_root : Digest) (required_threshold : ℕ) (policy : VerifyPolicy) (s : Scope)
      : Type 0 where
    pub authorized : IsAuthorized action.chain root_key s
    pub sufficient : required_threshold ≤ action.completion.threshold
    pub receipt_bound : action.action_receipt.chain_digest ≡ digest action.chain
    pub bound : All (λ a. a.chain_digest ≡ digest action.chain) action.completion.attestations
    pub roots : All (λ a. a.witnessed_root ≡ trusted_root) action.completion.attestations
    pub included :
        All
          (λ a. verify_inclusion action.action_receipt a.inclusion trusted_root ≡ true)
          action.completion.attestations
    pub quorum : HasQuorum action.completion (executor_key action.chain)
    pub anchored : All (λ a. IsAnchored action.chain a policy) action.completion.attestations
    pub consistent : All (IsConsistent action.action_receipt) action.completion.attestations

  bound_iff :
      (d : Digest) (l : List CompletionAttestation)
      → (any (λ a. a.chain_digest != d) l ≡ false) ↔ All (λ a. a.chain_digest ≡ d) l
  bound_iff d l =
      All-iff (λ a. a.chain_digest != d) (λ a. a.chain_digest ≡ d) l (λ a. !=_iff a.chain_digest d)

  roots_iff :
      (r : Digest) (l : List CompletionAttestation)
      → (any (λ a. a.witnessed_root != r) l ≡ false) ↔ All (λ a. a.witnessed_root ≡ r) l
  roots_iff r l =
      All-iff (λ a. a.witnessed_root != r) (λ a. a.witnessed_root ≡ r) l
        (λ a. !=_iff a.witnessed_root r)

  IsAnchored-each :
      (chain : Chain) (policy : VerifyPolicy) (l : List CompletionAttestation)
      → (any (λ a. not (attester_is_anchored chain a policy)) l ≡ false)
        ↔ All (λ a. IsAnchored chain a policy) l
  IsAnchored-each chain policy l =
      All-iff (λ a. not (attester_is_anchored chain a policy)) (λ a. IsAnchored chain a policy) l
        (λ a. (
          λ h. (IsAnchored-iff chain a policy).0 (ground (arith, h)),
          λ i. rw ((IsAnchored-iff chain a policy).1 i),
        ))

  IsAcceptedBundle-of_ok :
      (action : VerifiableThresholdAction) (root_key : PublicKey) (trusted_root : Digest)
      (required : ℕ) (policy : VerifyPolicy) (s : Scope)
      → verify_threshold action root_key trusted_root required policy ≡ ok s
      → IsAcceptedBundle action root_key trusted_root required policy s
  unfolding verify_threshold
  IsAcceptedBundle-of_ok action root_key trusted_root required policy s h =
      let r = action.action_receipt in
      let b = action.completion in
      let l = b.attestations in
      let d = digest action.chain in
      let key = executor_key action.chain in
      let (scope, chain_ok, h1) =
        bind_then (map_err chain_invalid (verify_chain action.chain root_key)) _ h in
      let (sufficient, h2) =
        guard_then (not (ltb b.threshold required)) (insufficient_attestation required b.threshold)
          _ h1 in
      let (bound, h3) =
        guard_then (not (r.chain_digest != d || any (λ a. a.chain_digest != d) l))
          chain_binding_mismatch _ h2 in
      let (roots, h4) =
        guard_then (not (any (λ a. a.witnessed_root != trusted_root) l)) equivocation _ h3 in
      let (included, h5) = unit_then (each_included r trusted_root l) _ h4 in
      let (quorum, h6) = unit_then (map_err threshold_failed (verify_bundle b key)) _ h5 in
      let (anchored, h7) =
        guard_then (not (any (λ a. not (attester_is_anchored action.chain a policy)) l))
          attester_not_anchored _ h6 in
      let (consistent, h8) = unit_then (each_consistent r l) _ h7 in
      record {
        authorized =
            subst (λ (x : Scope). IsAuthorized action.chain root_key x) (ok-injective h8)
              (IsAuthorized-of_ok action.chain root_key scope
                (map_err-eq-ok chain_invalid (verify_chain action.chain root_key) chain_ok));
        sufficient = ground (arith, sufficient);
        receipt_bound = ground (arith, bound, !=_iff r.chain_digest d);
        bound = (bound_iff d l).0 (ground (arith, bound));
        roots = (roots_iff trusted_root l).0 (ground (arith, roots));
        included = (included_iff r trusted_root l).0 included;
        quorum =
            (threshold_iff b key).0 (map_err-eq-ok threshold_failed (verify_bundle b key) quorum);
        anchored = (IsAnchored-each action.chain policy l).0 (ground (arith, anchored));
        consistent = (IsConsistent-iff r l).0 consistent;
      }

  IsAcceptedBundle-ok :
      (action : VerifiableThresholdAction) (root_key : PublicKey) (trusted_root : Digest)
      (required : ℕ) (policy : VerifyPolicy) (s : Scope)
      → IsAcceptedBundle action root_key trusted_root required policy s
      → verify_threshold action root_key trusted_root required policy ≡ ok s
  unfolding verify_threshold
  IsAcceptedBundle-ok action root_key trusted_root required policy s a =
      let r = action.action_receipt in
      let b = action.completion in
      let l = b.attestations in
      let sufficient : ltb b.threshold required ≡ false = ground (arith, a.sufficient) in
      rw (
        IsAuthorized-ok action.chain root_key s a.authorized,
        sufficient,
        (!=_iff r.chain_digest (digest action.chain)).1 a.receipt_bound,
        (bound_iff (digest action.chain) l).1 a.bound,
        (roots_iff trusted_root l).1 a.roots,
        (included_iff r trusted_root l).1 a.included,
        (threshold_iff b (executor_key action.chain)).1 a.quorum,
        (IsAnchored-each action.chain policy l).1 a.anchored,
        (IsConsistent-iff r l).1 a.consistent,
      )

  -- `verify_threshold` returns the scope `s` exactly when the chain is authorized with `s`, the
  -- declared threshold is at least the required one, the receipt and every attestation bind to the
  -- chain, every attestation commits to the trusted root, proves the receipt under it, has an
  -- attester that the policy trusts and attests the action of the receipt, and the attestations are
  -- a quorum.
  pub verify_threshold-IsAcceptedBundle :
      (action : VerifiableThresholdAction) (root_key : PublicKey) (trusted_root : Digest)
      (required_threshold : ℕ) (policy : VerifyPolicy) (s : Scope)
      → (verify_threshold action root_key trusted_root required_threshold policy ≡ ok s)
        ↔ IsAcceptedBundle action root_key trusted_root required_threshold policy s
  verify_threshold-IsAcceptedBundle action root_key trusted_root required_threshold policy s = (
    IsAcceptedBundle-of_ok action root_key trusted_root required_threshold policy s,
    IsAcceptedBundle-ok action root_key trusted_root required_threshold policy s,
  )
