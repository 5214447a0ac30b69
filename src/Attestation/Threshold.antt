-- ===== src/Attestation/Threshold.antt =====
-- core/attestation/src/lib.rs: the k-of-n aggregate and its check.
use index_one.Base.{
  ℕ, zero, suc, Bool, true, false, not, ◌&&◌, List, [], ◌∷◌, ltb, any, if◌then◌else◌, contains,
  Result, ok, ◌>>◌, guard, is_ok, ◌==◌, list_eq, nat_eq, option_eq,
}
use index_one.Crypto.{PublicKey, public_key_eq, Primitives}
use index_one.Attestation.Completion.{
  CompletionAttestation, AttestationEncoding, verify as verify_completion,
}

pub record ThresholdAttestation : Type 0 where
  pub attestations : List CompletionAttestation
  pub threshold : ℕ

pub data ThresholdError : Type 0 where
  not_enough_independent_attestations : ℕ → ℕ → ThresholdError
  duplicate_attester inconsistent_binding : ThresholdError

-- `Self::binding(a) == Self::binding(b)`
abbrev pub same_binding : CompletionAttestation → CompletionAttestation → Bool
same_binding a b =
    a.chain_digest == b.chain_digest
    && a.requested_action_digest == b.requested_action_digest
    && a.outcome_digest == b.outcome_digest
    && a.witnessed_root == b.witnessed_root

-- The first check: is some binding other than the first one's?
unfoldable pub inconsistent : List CompletionAttestation → Bool
inconsistent [] = false
inconsistent (first ∷ rest) = any (λ a. not (same_binding a first)) (first ∷ rest)

-- The second: the keys seen so far, and whether `insert` meets one of them again.
unfoldable pub repeats : List PublicKey → List CompletionAttestation → Bool
repeats seen [] = false
repeats seen (a ∷ rest) =
    let later = repeats (a.attester_key ∷ seen) rest in
    if contains seen a.attester_key then true else later

module _ ⦃prim : Primitives⦄ ⦃enc : AttestationEncoding⦄ where
  -- The third: those that verify by themselves.
  unfoldable pub individually : PublicKey → List CompletionAttestation → List CompletionAttestation
  individually executor_key [] = []
  individually executor_key (a ∷ rest) =
      let kept = individually executor_key rest in
      if is_ok (verify_completion a executor_key) then a ∷ kept else kept

  abbrev pub count : List CompletionAttestation → ℕ
  count [] = zero
  count (a ∷ rest) = suc (count rest)

  unfoldable pub verify : ThresholdAttestation → PublicKey → Result ThresholdError (Unit {0})
  verify bundle executor_key = do
    guard (not (inconsistent bundle.attestations)) inconsistent_binding
    guard (not (repeats [] bundle.attestations)) duplicate_attester
    let have = count (individually executor_key bundle.attestations)
    guard (not (ltb have bundle.threshold))
        (not_enough_independent_attestations have bundle.threshold)
    ok tt
