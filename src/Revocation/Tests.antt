-- ===== src/Revocation/Tests.antt =====
-- The theorems on revocation at concrete checkers and snapshots.
use index_one.Base.{
  ℕ, ◌+◌, ◌≤◌, ◌≡◌, refl, ◌≢◌, ◌↔◌, true, false, List, [], ◌∷◌, ok, err, arith, Text, Result,
  contains, list_eq, nat_eq, sym, subst, option_eq, ap,
}
use index_one.Crypto.{PublicKey}
use index_one.Revocation.Defs.{
  RevocationStatus, live, revoked, RevocationError, log_unreachable, rolled_back, Checker,
}
use index_one.Revocation.Checkers.{ShortTtlChecker, register, new_ttl, composite_is_revoked}
use index_one.Revocation.Snapshot.{
  SignedRevocationSnapshot, SnapshotChecker, snapshot_signing_bytes, sign_snapshot,
  snapshot_verifies, new_snapshot_checker, accept_snapshot, snapshot_is_revoked,
}
use index_one.Revocation.Composition.{AllLive, FirstDefinite, composite_iff}
use index_one.Revocation.Rollback.{
  IsCurrent, IsCurrent-ok, snapshot_live_iff, Query, after_queries, accepted_answer, no_rollback,
  sign_snapshot-snapshot_verifies, after_queries,
}
use index_one.Sample.{sample, key_of, signed_by, signer_of}
use index_one.Sample.Length.{signer_of-IsGenuine}

abbrev one_hour : ShortTtlChecker
one_hour = register (new_ttl 3600) (7 ∷ []) 1000

-- A checker that cannot reach its log, and one that knows of a revocation.
abbrev unreachable_log : Checker ℕ
unreachable_log s id = (err (log_unreachable rolled_back), s + 1)

abbrev knowing : Checker ℕ
knowing s id = (ok (revoked (107 ∷ [])), s + 1)

abbrev both : List (Checker ℕ)
both = unreachable_log ∷ knowing ∷ []

composite_iff_example :
    (((composite_is_revoked both 0 (7 ∷ [])).0 ≡ ok live) ↔ AllLive both 0 (7 ∷ []))
    × (revoked (107 ∷ []) ≢ live
        → ((composite_is_revoked both 0 (7 ∷ [])).0 ≡ ok (revoked (107 ∷ [])))
          ↔ FirstDefinite both 0 (7 ∷ []) (revoked (107 ∷ [])))
composite_iff_example = composite_iff both 0 (7 ∷ []) (revoked (107 ∷ []))

-- The snapshot of an epoch, published at 100, that lists one id.
abbrev snapshot_of : ℕ → SignedRevocationSnapshot
snapshot_of epoch = record {
  epoch = epoch;
  published_at = 100;
  revoked = (7 ∷ []) ∷ [];
  signature = signed_by 1 (snapshot_signing_bytes epoch 100 ((7 ∷ []) ∷ []));
}

signed_snapshot :
    (epoch : ℕ) → sign_snapshot (signer_of 1) epoch 100 ((7 ∷ []) ∷ []) ≡ ok (snapshot_of epoch)
unfolding sign_snapshot
signed_snapshot epoch = refl

abbrev fresh_checker : SnapshotChecker
fresh_checker = new_snapshot_checker (key_of 1) 60

snapshot_live_iff_example :
    ((snapshot_is_revoked fresh_checker (ok (snapshot_of 3)) 120 (8 ∷ [])).0 ≡ ok live) ↔ (
      (snapshot : SignedRevocationSnapshot) × (◌≡◌ {A = Result Text SignedRevocationSnapshot}
        (ok (snapshot_of 3))
        (ok snapshot))
      × IsCurrent fresh_checker snapshot 120
      × (contains snapshot.revoked (8 ∷ []) ≡ false))
snapshot_live_iff_example = snapshot_live_iff fresh_checker (ok (snapshot_of 3)) 120 (8 ∷ [])

accepts :
    (c : SnapshotChecker) (epoch : ℕ)
    → c.operator_key ≡ key_of 1
    → c.max_staleness_secs ≡ 60
    → c.last_seen_epoch ≤ epoch
    → accept_snapshot c (ok (snapshot_of epoch)) 120 ≡ ok (snapshot_of epoch)
accepts c epoch key bound later = IsCurrent-ok c 120 (snapshot_of epoch) (record {
  signed =
      subst (λ (k : PublicKey). snapshot_verifies (snapshot_of epoch) k ≡ true) (sym key)
        (sign_snapshot-snapshot_verifies (signer_of 1) epoch 100 ((7 ∷ []) ∷ []) (snapshot_of epoch)
          (signer_of-IsGenuine 1) (signed_snapshot epoch));
  epoch = later;
  age = omega (arith, bound);
})

abbrev third : Query
third = (ok (snapshot_of 3), (120, 8 ∷ []))

abbrev fourth : Query
fourth = (ok (snapshot_of 4), (120, 8 ∷ []))

third_taken :
    after_queries fresh_checker (third ∷ []) ≡ record fresh_checker { last_seen_epoch = 3 }
third_taken =
    ap (λ (x : Result RevocationError RevocationStatus × SnapshotChecker). x.1)
      (accepted_answer fresh_checker (ok (snapshot_of 3)) 120 (8 ∷ []) (snapshot_of 3)
        (accepts fresh_checker 3 refl refl (omega arith)))

no_rollback_example : 3 ≤ 4
no_rollback_example =
    no_rollback fresh_checker third [] fourth (snapshot_of 3) (snapshot_of 4)
      (accepts fresh_checker 3 refl refl (omega arith))
      (accepts (after_queries fresh_checker (third ∷ [])) 4
        (ap (λ (c : SnapshotChecker). c.operator_key) third_taken)
        (ap (λ (c : SnapshotChecker). c.max_staleness_secs) third_taken)
        (omega (arith, ap (λ (c : SnapshotChecker). c.last_seen_epoch) third_taken)))
