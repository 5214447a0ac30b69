-- ===== src/Revocation/Rollback.antt =====
-- When a signed snapshot is used, and that its epochs never go back.
use index_one.Base.{
  ℕ, ◌-◌, ◌+◌, ◌≤◌, ◌≡◌, sym, ap, ◌∙◌, ◌↔◌, inl, inr, true, false, not, List, [], ◌∷◌, arith, Text,
  Result, ok, err, guard_then, bind_then, map_err-eq-ok, map_err, ltb, contains, Result-cases,
  ok-injective, list_eq, nat_eq, subst, if◌then◌else◌, option_eq,
}
use index_one.Crypto.{Primitives, Signer, IsGenuine}
use index_one.Revocation.Defs.{
  RevocationId, RevocationStatus, live, revoked, RevocationError, log_unreachable, transport_failed,
  bad_signature, rolled_back, too_old,
}
use index_one.Revocation.Snapshot.{
  SignedRevocationSnapshot, SnapshotChecker, snapshot_verifies, snapshot_signing_bytes,
  sign_snapshot, accept_snapshot, snapshot_is_revoked, listed,
}

module _ ⦃prim : Primitives⦄ where
  -- Signed by the operator, of no earlier epoch than the last one, and no older than is allowed.
  pub record IsCurrent (c : SnapshotChecker) (snapshot : SignedRevocationSnapshot) (now : ℕ)
      : Type 0 where
    pub signed : snapshot_verifies snapshot c.operator_key ≡ true
    pub epoch : c.last_seen_epoch ≤ snapshot.epoch
    pub age : now ≤ snapshot.published_at + c.max_staleness_secs

  IsCurrent-of_ok :
      (c : SnapshotChecker) (fetched : Result Text SignedRevocationSnapshot) (now : ℕ)
      (snapshot : SignedRevocationSnapshot)
      → accept_snapshot c fetched now ≡ ok snapshot
      → (fetched ≡ ok snapshot) × IsCurrent c snapshot now
  unfolding accept_snapshot
  IsCurrent-of_ok c fetched now snapshot h =
      let (got, e, h1) =
        bind_then (map_err (λ failure. log_unreachable (transport_failed failure)) fetched) _ h in
      let (signed, h2) =
        guard_then (snapshot_verifies got c.operator_key) (log_unreachable bad_signature) _ h1 in
      let (epoch, h3) =
        guard_then (not (ltb got.epoch c.last_seen_epoch)) (log_unreachable rolled_back) _ h2 in
      let age = now - got.published_at in
      let (young, h4) =
        guard_then (not (ltb c.max_staleness_secs age))
          (log_unreachable (too_old age c.max_staleness_secs)) _ h3 in
      subst (λ (x : SignedRevocationSnapshot). (fetched ≡ ok x) × IsCurrent c x now)
        (ok-injective h4)
        (
          map_err-eq-ok (λ failure. log_unreachable (transport_failed failure)) fetched e,
          record { signed = signed; epoch = ground (arith, epoch); age = ground (arith, young) },
        )

  pub IsCurrent-ok :
      (c : SnapshotChecker) (now : ℕ) (snapshot : SignedRevocationSnapshot)
      → IsCurrent c snapshot now
      → accept_snapshot c (ok snapshot) now ≡ ok snapshot
  unfolding accept_snapshot
  IsCurrent-ok c now snapshot i =
      let epoch : ltb snapshot.epoch c.last_seen_epoch ≡ false = ground (arith, i.epoch) in
      let age : ltb c.max_staleness_secs (now - snapshot.published_at) ≡ false =
        ground (arith, i.age) in
      rw (i.signed, epoch, age)

  pub accepted_answer :
      (c : SnapshotChecker) (fetched : Result Text SignedRevocationSnapshot) (now : ℕ)
      (id : RevocationId) (snapshot : SignedRevocationSnapshot)
      → accept_snapshot c fetched now ≡ ok snapshot
      → snapshot_is_revoked c fetched now id ≡ (
        (if contains snapshot.revoked id then ok (revoked listed) else ok live),
        record c { last_seen_epoch = snapshot.epoch },
      )
  unfolding snapshot_is_revoked
  accepted_answer c fetched now id snapshot h = rw (h, snapshot_is_revoked)

  refused_answer :
      (c : SnapshotChecker) (fetched : Result Text SignedRevocationSnapshot) (now : ℕ)
      (id : RevocationId) (e : RevocationError)
      → accept_snapshot c fetched now ≡ err e
      → snapshot_is_revoked c fetched now id ≡ (err e, c)
  unfolding snapshot_is_revoked
  refused_answer c fetched now id e h = rw (h, snapshot_is_revoked)

  live_unlisted :
      (l : List RevocationId) (id : RevocationId)
      → ◌≡◌ {A = Result RevocationError RevocationStatus}
          (if contains l id then ok (revoked listed) else ok live)
          (ok live)
      → contains l id ≡ false
  live_unlisted l id h = ground (arith, h)

  -- The snapshot checker says that a block is live exactly when the fetch gave a snapshot that is
  -- signed by the operator, of no earlier epoch than the last accepted one and not too old, and the
  -- snapshot does not list the block.
  pub snapshot_live_iff :
      (c : SnapshotChecker) (fetched : Result Text SignedRevocationSnapshot) (now : ℕ)
      (id : RevocationId)
      → ((snapshot_is_revoked c fetched now id).0 ≡ ok live) ↔ (
          (snapshot : SignedRevocationSnapshot) × (fetched ≡ ok snapshot)
          × IsCurrent c snapshot now
          × (contains snapshot.revoked id ≡ false))
  snapshot_live_iff c fetched now id = (
    λ h. elim (Result-cases (accept_snapshot c fetched now)) [
      | inl (snapshot, accepted) ↦
          let (got, current) = IsCurrent-of_ok c fetched now snapshot accepted in
          (
            snapshot,
            got,
            current,
            live_unlisted snapshot.revoked id
                (sym (ap (λ x. x.0) (accepted_answer c fetched now id snapshot accepted)) ∙ h),
          )
      | inr (e, refused) ↦
          absurd
            (ground (arith, sym (ap (λ x. x.0) (refused_answer c fetched now id e refused)) ∙ h))
    ],
    λ (snapshot, got, current, unlisted).
        (let accepted =
            ap (λ f. accept_snapshot c f now) got ∙ IsCurrent-ok c now snapshot current in
          ap (λ x. x.0) (accepted_answer c fetched now id snapshot accepted) ∙ rw unlisted),
  )

  -- A query: what the source returns, the time, and the id.
  abbrev pub Query : Type 0
  Query = Result Text SignedRevocationSnapshot × (ℕ × RevocationId)

  abbrev pub ask : SnapshotChecker → Query → SnapshotChecker
  ask c q = (snapshot_is_revoked c q.0 q.1.0 q.1.1).1

  -- The checker after some queries.
  abbrev pub after_queries : SnapshotChecker → List Query → SnapshotChecker
  after_queries c [] = c
  after_queries c (q ∷ qs) = after_queries (ask c q) qs

  ask_epoch : (c : SnapshotChecker) (q : Query) → c.last_seen_epoch ≤ (ask c q).last_seen_epoch
  ask_epoch c q = elim (Result-cases (accept_snapshot c q.0 q.1.0)) [
    | inl (snapshot, accepted) ↦
        let (_, current) = IsCurrent-of_ok c q.0 q.1.0 snapshot accepted in
        subst
          (λ (x : Result RevocationError RevocationStatus × SnapshotChecker).
            c.last_seen_epoch ≤ x.1.last_seen_epoch)
          (sym (accepted_answer c q.0 q.1.0 q.1.1 snapshot accepted)) current.epoch
    | inr (e, refused) ↦
        subst
          (λ (x : Result RevocationError RevocationStatus × SnapshotChecker).
            c.last_seen_epoch ≤ x.1.last_seen_epoch)
          (sym (refused_answer c q.0 q.1.0 q.1.1 e refused)) (omega arith)
  ]

  after_queries_epoch :
      (c : SnapshotChecker) (qs : List Query)
      → c.last_seen_epoch ≤ (after_queries c qs).last_seen_epoch
  after_queries_epoch c [] = omega arith
  after_queries_epoch c (q ∷ qs) = omega (arith, ask_epoch c q, after_queries_epoch (ask c q) qs)

  -- No rollback: once a snapshot was accepted, and after any further queries, a snapshot that is
  -- accepted has no earlier epoch than it.
  pub no_rollback :
      (c : SnapshotChecker) (first : Query) (qs : List Query) (last : Query)
      (older newer : SignedRevocationSnapshot)
      → accept_snapshot c first.0 first.1.0 ≡ ok older
      → accept_snapshot (after_queries c (first ∷ qs)) last.0 last.1.0 ≡ ok newer
      → older.epoch ≤ newer.epoch
  no_rollback c first qs last older newer accepted later =
      let (_, current) =
        IsCurrent-of_ok (after_queries c (first ∷ qs)) last.0 last.1.0 newer later in
      let kept : (ask c first).last_seen_epoch ≡ older.epoch =
        ap (λ (x : Result RevocationError RevocationStatus × SnapshotChecker). x.1.last_seen_epoch)
          (accepted_answer c first.0 first.1.0 first.1.1 older accepted) in
      omega (arith, kept, after_queries_epoch (ask c first) qs, current.epoch)

  -- A snapshot that a genuine operator signs verifies under the operator's key.
  pub sign_snapshot-snapshot_verifies :
      (signer : Signer) (epoch published_at : ℕ) (ids : List RevocationId)
      (snapshot : SignedRevocationSnapshot)
      → IsGenuine signer
      → sign_snapshot signer epoch published_at ids ≡ ok snapshot
      → snapshot_verifies snapshot signer.public_key ≡ true
  unfolding sign_snapshot snapshot_verifies
  sign_snapshot-snapshot_verifies signer epoch published_at ids snapshot genuine h =
      let payload = snapshot_signing_bytes epoch published_at ids in
      let (signature, signed, made) = bind_then (signer.sign payload) _ h in
      subst (λ (x : SignedRevocationSnapshot). snapshot_verifies x signer.public_key ≡ true)
        (ok-injective made) (rw (genuine payload signature signed, snapshot_verifies))
