-- ===== src/RevocationService/Tests.antt =====
-- The operator's set of revoked ids at a concrete operator.
use index_one.Base.{◌≡◌, refl, [], ◌∷◌, ok, Text, arith, list_eq, nat_eq, option_eq}
use index_one.Revocation.{
  live, SignedRevocationSnapshot, sign_snapshot, snapshot_signing_bytes, snapshot_is_revoked,
  new_snapshot_checker,
}
use index_one.RevMap.{binary_search}
use index_one.RevocationService.{RevocationLog, new_log, revoke_id, current_snapshot, revoke}
use index_one.RevocationService.Served.{snapshot_is_revoked-revoke}
use index_one.Sample.{sample, key_of, signed_by, signer_of}
use index_one.Sample.Length.{signer_of-IsGenuine}

abbrev theft : Text
theft = 116 ∷ []

abbrev one_revoked : RevocationLog
one_revoked = record { revoked = (7 ∷ []) ∷ []; reasons = (7 ∷ [], theft) ∷ []; epoch = 1 }

first_revocation : revoke_id new_log (7 ∷ []) theft ≡ one_revoked
unfolding revoke_id binary_search
first_revocation = refl

-- Revoking an id again keeps the set and the epoch.
second_revocation : (revoke_id one_revoked (7 ∷ []) theft).epoch ≡ 1
unfolding revoke_id binary_search
second_revocation = refl

abbrev two_listed : SignedRevocationSnapshot
two_listed = record {
  epoch = 2;
  published_at = 100;
  revoked = (7 ∷ []) ∷ (9 ∷ []) ∷ [];
  signature = signed_by 1 (snapshot_signing_bytes 2 100 ((7 ∷ []) ∷ (9 ∷ []) ∷ []));
}

served : (revoke (signer_of 1) one_revoked (9 ∷ []) theft 100).0 ≡ ok two_listed
unfolding revoke revoke_id binary_search current_snapshot sign_snapshot
served = refl

snapshot_is_revoked-revoke_example :
    (snapshot_is_revoked (new_snapshot_checker (key_of 1) 60) (ok two_listed) 120 (8 ∷ [])).0
    ≡ ok live
snapshot_is_revoked-revoke_example =
    snapshot_is_revoked-revoke (signer_of 1) one_revoked (9 ∷ []) (8 ∷ []) theft 100 120
      (new_snapshot_checker (key_of 1) 60) two_listed (signer_of-IsGenuine 1) served refl
      (omega arith) (omega arith)
