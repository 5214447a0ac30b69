-- ===== src/Verifier/Accepted.antt =====
-- What an accepted action is: every claim that the composed check makes of it, together.
use index_one.Base.{
  ◌≡◌, refl, ◌↔◌, ◌⊎◌, inl, inr, true, not, ◌||◌, arith, contains, ok, map_err, guard_then,
  bind_then, unit_then, map_err-eq-ok, ok-injective, subst, ◌==◌, ◌!=◌, ==_iff, !=_iff, list_eq,
  nat_eq, option_eq,
}
use index_one.Crypto.{PublicKey, public_key_eq, Primitives}
use index_one.Chain.{Chain, ChainEncoding, executor_key, digest, verify as verify_chain}
use index_one.Chain.Scope.{Scope}
use index_one.Chain.Spec.{IsAuthorized, IsAuthorized-of_ok, IsAuthorized-ok}
use index_one.Witness.{Digest, WitnessEncoding, verify_inclusion}
use index_one.Attestation.{
  AttesterRole, counter_signed, third_party, CompletionAttestation, AttestationEncoding,
  verify_completion,
}
use index_one.Attestation.Independence.{IsIndependent, IsIndependent-of_ok, IsIndependent-ok}
use index_one.Verifier.Defs.{
  VerifyPolicy, VerifiableAction, chain_invalid, omission, equivocation, attestation_failed,
  outcome_mismatch, attester_not_anchored, chain_binding_mismatch, action_digest_inconsistent,
  chain_has_key, attester_is_anchored, verify,
}

-- The attester is one that the policy trusts for its role: a third party that it names, or, where
-- it allows counter-signing, a party of the chain.
abbrev pub IsAnchored : Chain → CompletionAttestation → VerifyPolicy → Type 0
IsAnchored chain a policy =
    ((a.role ≡ third_party) × (contains policy.trusted_attesters a.attester_key ≡ true))
    ⊎ ((a.role ≡ counter_signed)
        × (policy.allow_counter_signed ≡ true)
        × (chain_has_key chain a.attester_key ≡ true))

pub IsAnchored-iff :
    (chain : Chain) (a : CompletionAttestation) (policy : VerifyPolicy)
    → (attester_is_anchored chain a policy ≡ true) ↔ IsAnchored chain a policy
unfolding attester_is_anchored
IsAnchored-iff chain a policy = (to_spec a.role refl, of_spec)
  where
    to_spec :
        (r : AttesterRole)
        → a.role ≡ r
        → attester_is_anchored chain a policy ≡ true
        → IsAnchored chain a policy
    to_spec third_party e h = inl (e, ground (arith, e, h))
    to_spec counter_signed e h = inr (e, ground (arith, e, h), ground (arith, e, h))

    of_spec : IsAnchored chain a policy → attester_is_anchored chain a policy ≡ true
    of_spec (inl (e, h)) = rw (attester_is_anchored, e) h
    of_spec (inr (e, allowed, h)) = rw (attester_is_anchored, e, allowed) h

module _ ⦃prim : Primitives⦄ ⦃ce : ChainEncoding⦄ ⦃we : WitnessEncoding⦄
    ⦃ae : AttestationEncoding⦄ where
  pub record IsAccepted (action : VerifiableAction) (root_key : PublicKey) (trusted_root : Digest)
      (policy : VerifyPolicy) (s : Scope) : Type 0 where
    pub authorized : IsAuthorized action.chain root_key s
    pub receipt_bound : action.action_receipt.chain_digest ≡ digest action.chain
    pub completion_bound : action.completion.chain_digest ≡ digest action.chain
    pub root : action.completion.witnessed_root ≡ trusted_root
    pub included :
        verify_inclusion action.action_receipt action.completion.inclusion trusted_root ≡ true
    pub independent : IsIndependent action.completion (executor_key action.chain)
    pub anchored : IsAnchored action.chain action.completion policy
    pub outcome : action.completion.outcome_digest ≡ action.action_receipt.action_digest
    pub requested : action.completion.requested_action_digest ≡ action.action_receipt.action_digest

  pub IsAccepted-of_ok :
      (action : VerifiableAction) (root_key : PublicKey) (trusted_root : Digest)
      (policy : VerifyPolicy) (s : Scope)
      → verify action root_key trusted_root policy ≡ ok s
      → IsAccepted action root_key trusted_root policy s
  unfolding verify
  IsAccepted-of_ok action root_key trusted_root policy s h =
      let r = action.action_receipt in
      let c = action.completion in
      let d = digest action.chain in
      let (scope, chain_ok, h1) =
        bind_then (map_err chain_invalid (verify_chain action.chain root_key)) _ h in
      let (bound, h2) =
        guard_then (not (r.chain_digest != d || c.chain_digest != d)) chain_binding_mismatch _ h1 in
      let (same_root, h3) = guard_then (c.witnessed_root == trusted_root) equivocation _ h2 in
      let (included, h4) = guard_then (verify_inclusion r c.inclusion trusted_root) omission _ h3 in
      let (attested, h5) =
        unit_then (map_err attestation_failed (verify_completion c (executor_key action.chain))) _
          h4 in
      let (anchored, h6) =
        guard_then (attester_is_anchored action.chain c policy) attester_not_anchored _ h5 in
      let (outcome, h7) = guard_then (c.outcome_digest == r.action_digest) outcome_mismatch _ h6 in
      let (requested, h8) =
        guard_then (c.requested_action_digest == r.action_digest) action_digest_inconsistent _ h7 in
      let (_, h9) =
        guard_then (c.requested_action_digest == r.action_digest) action_digest_inconsistent _ h8 in
      record {
        authorized =
            subst (λ (x : Scope). IsAuthorized action.chain root_key x) (ok-injective h9)
              (IsAuthorized-of_ok action.chain root_key scope
                (map_err-eq-ok chain_invalid (verify_chain action.chain root_key) chain_ok));
        receipt_bound = ground (arith, bound, !=_iff r.chain_digest d);
        completion_bound = ground (arith, bound, !=_iff c.chain_digest d);
        root = (==_iff c.witnessed_root trusted_root).0 same_root;
        included = included;
        independent = IsIndependent-of_ok c (executor_key action.chain) (
            map_err-eq-ok attestation_failed (verify_completion c (executor_key action.chain))
              attested);
        anchored = (IsAnchored-iff action.chain c policy).0 anchored;
        outcome = (==_iff c.outcome_digest r.action_digest).0 outcome;
        requested = (==_iff c.requested_action_digest r.action_digest).0 requested;
      }

  pub IsAccepted-ok :
      (action : VerifiableAction) (root_key : PublicKey) (trusted_root : Digest)
      (policy : VerifyPolicy) (s : Scope)
      → IsAccepted action root_key trusted_root policy s
      → verify action root_key trusted_root policy ≡ ok s
  unfolding verify
  IsAccepted-ok action root_key trusted_root policy s a =
      let r = action.action_receipt in
      let c = action.completion in
      let d = digest action.chain in
      rw (
        IsAuthorized-ok action.chain root_key s a.authorized,
        (!=_iff r.chain_digest d).1 a.receipt_bound,
        (!=_iff c.chain_digest d).1 a.completion_bound,
        (==_iff c.witnessed_root trusted_root).1 a.root,
        a.included,
        IsIndependent-ok c (executor_key action.chain) a.independent,
        (IsAnchored-iff action.chain c policy).1 a.anchored,
        (==_iff c.outcome_digest r.action_digest).1 a.outcome,
        (==_iff c.requested_action_digest r.action_digest).1 a.requested,
      )

  -- `verify` returns the scope `s` exactly when everything that it claims holds at once: the chain
  -- is authorized with `s` under the root key, the receipt and the completion bind to it, the
  -- completion commits to the trusted root, the receipt is included under that root, the completion
  -- is signed by an attester other than the executor, the policy trusts the attester for its role,
  -- and the outcome and the request are the action of the receipt.
  pub verify-IsAccepted :
      (action : VerifiableAction) (root_key : PublicKey) (trusted_root : Digest)
      (policy : VerifyPolicy) (s : Scope)
      → (verify action root_key trusted_root policy ≡ ok s)
        ↔ IsAccepted action root_key trusted_root policy s
  verify-IsAccepted action root_key trusted_root policy s = (
    IsAccepted-of_ok action root_key trusted_root policy s,
    IsAccepted-ok action root_key trusted_root policy s,
  )
