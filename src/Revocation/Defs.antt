-- ===== src/Revocation/Defs.antt =====
-- core/revocation/src/lib.rs: revocation ids, statuses, errors and the check of a whole chain.
use index_one.Base.{ℕ, List, [], ◌∷◌, ◌++◌, map, Bytes, Text, codes, Result, ok, err}
use index_one.Crypto.{Signature, Primitives}
use index_one.Chain.{Chain}

-- The bytes of a `RevocationId`.
abbrev pub RevocationId : Type 0
RevocationId = Bytes

pub record TransparencyLogEntry : Type 0 where
  pub revoked : RevocationId
  pub revoked_at : ℕ
  pub reason : Text

pub data RevocationStatus : Type 0 where
  live : RevocationStatus
  revoked : Text → RevocationStatus
  stale : ℕ → RevocationStatus

-- The text of a `LogUnreachable` error is left as what it prints: the transport's own words, the
-- missing transport of a url, a bad signature, a rolled back epoch, or an age above its bound.
pub data Unreachable : Type 0 where
  transport_failed no_transport : Text → Unreachable
  bad_signature rolled_back : Unreachable
  too_old : ℕ → ℕ → Unreachable

pub data RevocationError : Type 0 where
  revoked_block : RevocationId → Text → RevocationError
  stale_block : RevocationId → ℕ → RevocationError
  log_unreachable : Unreachable → RevocationError

-- The trait `RevocationChecker`: `is_revoked`, with the state that it reads and leaves.
abbrev pub Checker : Type 0 → Type 0
Checker S = S → RevocationId → Result RevocationError RevocationStatus × S

abbrev revocation_id_domain : Bytes
revocation_id_domain = codes "indexone-revocation/RevocationId/v1"

module _ ⦃prim : Primitives⦄ where
  unfoldable pub from_signature : Signature → RevocationId
  from_signature signature = prim.blake3 (revocation_id_domain ++ signature.bytes)

  unfoldable pub revocation_ids_for_chain : Chain → List RevocationId
  revocation_ids_for_chain chain =
      from_signature chain.root.signature
      ∷ map (λ block. from_signature block.signature) chain.delegations

module _ {S : Type 0} where
  -- The loop of `check_chain_revocation`.
  unfoldable pub check_ids :
      Checker S → S → List RevocationId → Result RevocationError (Unit {0}) × S
  check_ids checker s [] = (ok tt, s)
  check_ids checker s (id ∷ ids) =
      let (answer, s') = checker s id in
      let rest = check_ids checker s' ids in
      elim answer [
        | err e ↦ (err e, s')
        | ok live ↦ rest
        | ok (revoked reason) ↦ (err (revoked_block id reason), s')
        | ok (stale ttl_seconds) ↦ (err (stale_block id ttl_seconds), s')
      ]

  unfoldable pub check_chain_revocation :
      ⦃prim : Primitives⦄ → Chain → Checker S → S → Result RevocationError (Unit {0}) × S
  check_chain_revocation chain checker s = check_ids checker s (revocation_ids_for_chain chain)
