-- ===== src/RevocationService.antt =====
-- services/revocation-log/src/lib.rs: the operator's set of revoked ids and its signed snapshots, on
-- decoded requests. `reasons` holds the newest reason of an id first.
pub mod Requests
pub mod Handlers
pub mod Serving
pub mod Status
pub mod Listing
pub mod Served
pub mod Epochs
pub mod Tests
pub mod ServiceTests
use index_one.Base.{ℕ, ◌+◌, List, [], ◌∷◌, Text, Result, ok, err}
use index_one.Crypto.{Primitives, Signer, CryptoError}
use index_one.Revocation.{RevocationId, SignedRevocationSnapshot, sign_snapshot}
use index_one.RevMap.{binary_search, insert_at}

pub record RevocationLog : Type 0 where
  pub revoked : List RevocationId
  pub reasons : List (RevocationId × Text)
  pub epoch : ℕ

abbrev pub new_log : RevocationLog
new_log = record { revoked = []; reasons = []; epoch = 0 }

-- The change that the handler `revoke` makes: a `BTreeSet` keeps its ids in order.
unfoldable pub revoke_id : RevocationLog → RevocationId → Text → RevocationLog
revoke_id log id reason = elim (binary_search log.revoked id) [
  | ok pos ↦ record log { reasons = (id, reason) ∷ log.reasons }
  | err pos ↦ record {
    revoked = insert_at pos id log.revoked;
    reasons = (id, reason) ∷ log.reasons;
    epoch = log.epoch + 1;
  }
]

module _ ⦃prim : Primitives⦄ where
  -- The `expect` on the signature is an error here.
  unfoldable pub current_snapshot :
      Signer → RevocationLog → ℕ → Result CryptoError SignedRevocationSnapshot
  current_snapshot signer log now = sign_snapshot signer log.epoch now log.revoked

  unfoldable pub revoke :
      Signer
      → RevocationLog
      → RevocationId
      → Text
      → ℕ
      → Result CryptoError SignedRevocationSnapshot × RevocationLog
  revoke signer log id reason now =
      let log' = revoke_id log id reason in (current_snapshot signer log' now, log')
