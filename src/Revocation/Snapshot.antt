-- ===== src/Revocation/Snapshot.antt =====
-- core/revocation/src/lib.rs: the signed snapshot of all revoked ids, and its checker.
use index_one.Base.{
  ℕ, ◌-◌, Bool, false, not, List, [], ◌∷◌, ◌++◌, ltb, length, Bytes, Text, codes, contains,
  if◌then◌else◌, Result, ok, err, ◌>>=◌, ◌>>◌, guard, map_err, unwrap_or, list_eq, nat_eq,
  option_eq,
}
use index_one.Crypto.{PublicKey, Signature, CryptoError, Primitives, Signer, verify_signature}
use index_one.Witness.{u64_be}
use index_one.Revocation.Defs.{
  RevocationId, RevocationStatus, live, revoked, RevocationError, log_unreachable, transport_failed,
  bad_signature, rolled_back, too_old,
}

-- `revoked` is a `BTreeSet`: its ids in increasing order.
pub record SignedRevocationSnapshot : Type 0 where
  pub epoch : ℕ
  pub published_at : ℕ
  pub revoked : List RevocationId
  pub signature : Signature

abbrev snapshot_domain : Bytes
snapshot_domain = codes "indexone-revocation/SignedRevocationSnapshot/v1"

-- What the set's hasher reads: each id behind its length.
unfoldable pub set_bytes : List RevocationId → Bytes
set_bytes [] = []
set_bytes (id ∷ ids) = u64_be (length id) ++ (id ++ set_bytes ids)

module _ ⦃prim : Primitives⦄ where
  unfoldable pub snapshot_signing_bytes : ℕ → ℕ → List RevocationId → Bytes
  snapshot_signing_bytes epoch published_at ids =
      snapshot_domain ++ (u64_be epoch ++ (u64_be published_at ++ prim.blake3 (set_bytes ids)))

  -- The `expect` on the signature is an error here.
  unfoldable pub sign_snapshot :
      Signer → ℕ → ℕ → List RevocationId → Result CryptoError SignedRevocationSnapshot
  sign_snapshot signer epoch published_at ids = do
    signature ← signer.sign (snapshot_signing_bytes epoch published_at ids)
    ok (record { epoch = epoch; published_at = published_at; revoked = ids; signature = signature })

  -- `SignedRevocationSnapshot::verify_signature`
  unfoldable pub snapshot_verifies : SignedRevocationSnapshot → PublicKey → Bool
  snapshot_verifies snapshot operator_key =
      unwrap_or
        (verify_signature
          (snapshot_signing_bytes snapshot.epoch snapshot.published_at snapshot.revoked)
          snapshot.signature operator_key)
        false

  -- The source and the clock are read anew by each query, so they are arguments of it.
  pub record SnapshotChecker : Type 0 where
    pub operator_key : PublicKey
    pub max_staleness_secs : ℕ
    pub last_seen_epoch : ℕ

  abbrev pub new_snapshot_checker : PublicKey → ℕ → SnapshotChecker
  new_snapshot_checker operator_key max_staleness_secs = record {
    operator_key = operator_key;
    max_staleness_secs = max_staleness_secs;
    last_seen_epoch = 0;
  }

  -- The checks up to the store of the epoch.
  unfoldable pub accept_snapshot :
      SnapshotChecker
      → Result Text SignedRevocationSnapshot
      → ℕ
      → Result RevocationError SignedRevocationSnapshot
  accept_snapshot c fetched now = do
    snapshot ← map_err (λ failure. log_unreachable (transport_failed failure)) fetched
    guard (snapshot_verifies snapshot c.operator_key) (log_unreachable bad_signature)
    guard (not (ltb snapshot.epoch c.last_seen_epoch)) (log_unreachable rolled_back)
    let age = now - snapshot.published_at
    guard (not (ltb c.max_staleness_secs age)) (log_unreachable (too_old age c.max_staleness_secs))
    ok snapshot

  abbrev pub listed : Text
  listed = codes "listed in the signed revocation snapshot"

  unfoldable pub snapshot_is_revoked :
      SnapshotChecker
      → Result Text SignedRevocationSnapshot
      → ℕ
      → RevocationId
      → Result RevocationError RevocationStatus × SnapshotChecker
  snapshot_is_revoked c fetched now id = elim (accept_snapshot c fetched now) [
    | err e ↦ (err e, c)
    | ok snapshot ↦ (
      (if contains snapshot.revoked id then ok (revoked listed) else ok live),
      record c { last_seen_epoch = snapshot.epoch },
    )
  ]
