-- ===== src/RevocationService/Served.antt =====
-- What the clients of the service are told.
use index_one.Base.{
  ℕ, ◌+◌, ◌≤◌, ◌≡◌, sym, ap, ◌∙◌, subst, inl, inr, true, ◌||◌, List, [], ◌∷◌, arith, contains, Text,
  ok, ok-injective, bind_then, Result-cases, if◌then◌else◌, ◌==◌, list_eq, nat_eq, option_eq,
}
use index_one.Crypto.{Primitives, Signer, IsGenuine, PublicKey}
use index_one.Revocation.{
  RevocationId, live, revoked, listed, SignedRevocationSnapshot, SnapshotChecker, sign_snapshot,
  snapshot_is_revoked, snapshot_verifies, snapshot_signing_bytes,
}
use index_one.Revocation.Rollback.{
  IsCurrent-ok, accepted_answer, sign_snapshot-snapshot_verifies, IsCurrent,
}
use index_one.RevMap.{binary_search}
use index_one.RevMap.Order.{contains-insert_at, known_id}
use index_one.RevocationService.{RevocationLog, revoke_id, current_snapshot, revoke}

binary_search-contains :
    (ids : List RevocationId) (id : RevocationId) (pos : ℕ)
    → binary_search ids id ≡ ok pos
    → contains ids id ≡ true
unfolding binary_search
binary_search-contains [] id pos h = cc
binary_search-contains (x ∷ ids) id pos h = elim (Result-cases (binary_search ids id)) [
  | inl (p, e) ↦ ground (arith, binary_search-contains ids id p e)
  | inr (p, e) ↦ ground (arith, h, e)
]

-- Revoking adds the id to the set and takes none away, and the epoch never falls.
pub contains-revoke_id :
    (log : RevocationLog) (id other : RevocationId) (reason : Text)
    → (contains (revoke_id log id reason).revoked other
        ≡ (id == other || contains log.revoked other))
      × (log.epoch ≤ (revoke_id log id reason).epoch)
unfolding revoke_id
contains-revoke_id log id other reason = elim (Result-cases (binary_search log.revoked id)) [
  | inl (pos, e) ↦
      let known = binary_search-contains log.revoked id pos e in
      (rw (revoke_id, e) (known_id log.revoked id other known), rw (revoke_id, e) (omega arith))
  | inr (pos, e) ↦ (
    rw (revoke_id, e) (contains-insert_at pos log.revoked id other),
    rw (revoke_id, e) (omega arith),
  )
]

module _ ⦃prim : Primitives⦄ where
  signed_fields :
      (signer : Signer) (log : RevocationLog) (now : ℕ) (snapshot : SignedRevocationSnapshot)
      → current_snapshot signer log now ≡ ok snapshot
      → (snapshot.epoch ≡ log.epoch)
        × (snapshot.published_at ≡ now)
        × (snapshot.revoked ≡ log.revoked)
  unfolding current_snapshot sign_snapshot
  signed_fields signer log now snapshot h =
      let (signature, _, made) =
        bind_then (signer.sign (snapshot_signing_bytes log.epoch now log.revoked)) _ h in
      let same = sym (ok-injective made) in
      (
        ap (λ (x : SignedRevocationSnapshot). x.epoch) same,
        ap (λ (x : SignedRevocationSnapshot). x.published_at) same,
        ap (λ (x : SignedRevocationSnapshot). x.revoked) same,
      )

  current_snapshot-IsCurrent :
      (signer : Signer) (log : RevocationLog) (published now : ℕ) (c : SnapshotChecker)
      (snapshot : SignedRevocationSnapshot)
      → IsGenuine signer
      → current_snapshot signer log published ≡ ok snapshot
      → c.operator_key ≡ signer.public_key
      → c.last_seen_epoch ≤ log.epoch
      → now ≤ published + c.max_staleness_secs
      → IsCurrent c snapshot now
  unfolding current_snapshot
  current_snapshot-IsCurrent signer log published now c snapshot genuine made key known young =
      let (epoch, at, _) = signed_fields signer log published snapshot made in
      record {
        signed =
            subst (λ (k : PublicKey). snapshot_verifies snapshot k ≡ true) (sym key)
              (sign_snapshot-snapshot_verifies signer log.epoch published log.revoked snapshot
                genuine made);
        epoch = omega (arith, epoch, known);
        age = omega (arith, at, young);
      }

  -- What a revocation tells the clients: when a genuine operator revokes an id and signs the snapshot,
  -- a checker with the operator's key that has seen no later epoch and still finds the snapshot fresh
  -- answers that an id is revoked exactly when it is the id just revoked or was revoked before, and
  -- that it is live otherwise.
  pub snapshot_is_revoked-revoke :
      (signer : Signer) (log : RevocationLog) (id other : RevocationId) (reason : Text)
      (published now : ℕ) (c : SnapshotChecker) (snapshot : SignedRevocationSnapshot)
      → IsGenuine signer
      → (revoke signer log id reason published).0 ≡ ok snapshot
      → c.operator_key ≡ signer.public_key
      → c.last_seen_epoch ≤ log.epoch
      → now ≤ published + c.max_staleness_secs
      → (snapshot_is_revoked c (ok snapshot) now other).0
        ≡ (if id == other || contains log.revoked other then ok (revoked listed) else ok live)
  unfolding revoke
  snapshot_is_revoked-revoke signer log id other reason published now c snapshot genuine made key
        known young =
      let log' = revoke_id log id reason in
      let (ids, later) = contains-revoke_id log id other reason in
      let (_, _, set) = signed_fields signer log' published snapshot made in
      let current =
        current_snapshot-IsCurrent signer log' published now c snapshot genuine made key
          (omega (arith, known, later)) young in
      ap (λ x. x.0)
        (accepted_answer c (ok snapshot) now other snapshot (IsCurrent-ok c now snapshot current))
      ∙ ap (λ b. if b then ok (revoked listed) else ok live) (ap (λ l. contains l other) set ∙ ids)
