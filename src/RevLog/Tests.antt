-- ===== src/RevLog/Tests.antt =====
-- The theorems on checkpoints at a log that has published one.
use index_one.Base.{◌+◌, ◌≡◌, refl, true, some, [], ◌∷◌, arith, ◌⊎◌, false}
use index_one.Witness.{Witness, root, size, inclusion_proof, SignedTreeHead}
use index_one.RevMap.{Hash, new_map, map_contains}
use index_one.RevMap.Order.{revoke-IsValid}
use index_one.RevLog.Verdicts.{verify_not_revoked_sound}
use index_one.Witness.Collision.{Collision, IsSized}
use index_one.RevLog.Defs.{
  Committed, LogBackedRevocation, LogBackedProof, new, revoke, next_checkpoint, publish_checkpoint,
  verify_revoked, verify_not_revoked,
}
use index_one.RevLog.Publish.{
  IsConsistent, new-IsConsistent, revoke-IsConsistent, publish_checkpoint-IsConsistent,
}
use index_one.Sample.{signed_by, fixed, sample, sample_witness, signer_of, key_of}
use index_one.Sample.Length.{length-fixed}

abbrev with_key : LogBackedRevocation
with_key = revoke new (fixed 32 (128 ∷ []))

with_key-IsConsistent : IsConsistent with_key
with_key-IsConsistent = revoke-IsConsistent new (fixed 32 (128 ∷ [])) new-IsConsistent

abbrev logged : LogBackedRevocation
logged = (publish_checkpoint with_key (signer_of 1)).1

abbrev first_commit : Committed
first_commit = record { checkpoint = next_checkpoint with_key; leaf_index = with_key.epoch }

first_published :
    IsConsistent logged × (logged.latest ≡ some first_commit) × (logged.epoch ≡ with_key.epoch + 1)
first_published = publish_checkpoint-IsConsistent with_key (signer_of 1) with_key-IsConsistent

abbrev at_proof : Witness
at_proof = (inclusion_proof logged.witness first_commit.leaf_index).1

abbrev first_head : SignedTreeHead
first_head = record {
  tree_size = size at_proof;
  root = (root at_proof).0;
  signature = signed_by 1 (sample_witness.head_bytes (size at_proof) (root at_proof).0);
}

abbrev other_key : Hash
other_key = fixed 32 (9 ∷ [])

sample-IsSized : IsSized
sample-IsSized x = length-fixed 32 x

abbrev some_proof : LogBackedProof
some_proof = record {
  checkpoint = next_checkpoint with_key;
  map_proof = record { present = fixed 32 []; siblings = [] };
  inclusion = record { leaf_index = 0; tree_size = 1; path = [] };
  sth = first_head;
}

verify_not_revoked_sound_example :
    (verify_revoked some_proof other_key (key_of 1) ≡ true
      → (map_contains with_key.map other_key ≡ true) ⊎ Collision)
    × (verify_not_revoked some_proof other_key (key_of 1) ≡ true
        → (map_contains with_key.map other_key ≡ false) ⊎ Collision)
unfolding revoke
verify_not_revoked_sound_example =
    verify_not_revoked_sound some_proof other_key (key_of 1) with_key.map sample-IsSized
      (revoke-IsValid new_map (fixed 32 (128 ∷ [])) other_key
        (record { keys = tt; increasing = tt }) (record { size = refl; bytes = omega arith })).0
      tt refl
