-- ===== src/RevocationService/ServiceTests.antt =====
-- The theorems on the life of the service at a service that takes four requests.
use index_one.Base.{
  ℕ, ◌≡◌, refl, List, [], ◌∷◌, map, length, ok, is_blank, trim, trim_start, trim_end, ◌^◌, ◌<◌, ◌⊎◌,
  true, false, some, arith,
}
use index_one.Witness.Collision.{Collision, IsSized}
use index_one.Witness.{SignedTreeHead, signed_head, inclusion_proof}
use index_one.RevLog.Publish.{
  publish_checkpoint-IsConsistent, new-IsConsistent, prove-map_root_is_logged,
}
use index_one.RevMap.{map_root, map_contains}
use index_one.RevLog.{
  Committed, LogBackedProof, next_checkpoint, publish_checkpoint, revoke as revoke_key,
  new as new_logbacked, verify_revoked, verify_not_revoked,
}
use index_one.RevocationService.Requests.{
  RevokeRequest, KeyQuery, EntryDto, to_string, revocation_id_from_hex, hash_from_hex,
}
use index_one.RevocationService.Handlers.{
  AppState, with_clock, get_entries, v2_checkpoint, v2_status, v2_revoke,
}
use index_one.RevocationService.Serving.{
  Call, reads, revokes, v2_revokes, v2_checkpoints, v2_heads, handle, serve, IsServing,
  serve-IsServing, serve-IsLater,
}
use index_one.RevocationService.Epochs.{IsLater}
use index_one.RevocationService.Status.{
  v2_status-v2_checkpoint, v2_status_closed, v2_status_proof, head_signed,
}
use index_one.RevocationService.Listing.{revocation_id_from_hex-get_entries}
use index_one.Sample.{sample, sample_witness, fixed, signed_by, signer_of}
use index_one.Sample.Length.{length-fixed, signer_of-IsGenuine}
use index_one.Sample.Hex.{sample_hex, decode-bytes, decode-to_string}

abbrev asked : ℕ → RevokeRequest
asked n = record { revocation_id = to_string (fixed 32 (n ∷ [])); reason = 116 ∷ [] }

abbrev four_calls : List Call
four_calls = revokes (asked 9) 100 ∷ v2_revokes (asked 7) ∷ v2_checkpoints ∷ reads ∷ []

abbrev two_more : List Call
two_more = revokes (asked 3) 110 ∷ v2_heads ∷ []

serve-IsServing_example : IsServing (signer_of 1) (serve (with_clock (signer_of 1)) four_calls)
serve-IsServing_example = serve-IsServing (signer_of 1) four_calls decode-bytes

serve-IsLater_example :
    IsLater
      (serve (with_clock (signer_of 1)) four_calls).log
      (serve (serve (with_clock (signer_of 1)) four_calls) two_more).log
serve-IsLater_example = serve-IsLater (signer_of 1) four_calls two_more decode-bytes

revocation_id_from_hex-get_entries_example :
    (map
        (λ (e : EntryDto). revocation_id_from_hex e.revocation_id)
        (get_entries (serve (with_clock (signer_of 1)) four_calls)).entries
      ≡ map ok (serve (with_clock (signer_of 1)) four_calls).log.revoked)
    × ((get_entries (serve (with_clock (signer_of 1)) four_calls)).epoch
        ≡ length (serve (with_clock (signer_of 1)) four_calls).log.revoked)
revocation_id_from_hex-get_entries_example =
    revocation_id_from_hex-get_entries (signer_of 1) four_calls decode-bytes decode-to_string

abbrev about : ℕ → KeyQuery
about n = record { key = to_string (fixed 32 (n ∷ [])) }

read_back : hash_from_hex (about 8).key ≡ ok (fixed 32 (8 ∷ []))
unfolding hash_from_hex trim trim_start trim_end is_blank to_string
read_back = refl

abbrev one_call : List Call
one_call = v2_revokes (asked 7) ∷ []

abbrev one_revoked : AppState
one_revoked = serve (with_clock (signer_of 1)) one_call

room_left : one_revoked.logbacked.epoch < 2 ^ 64
unfolding serve handle v2_revoke hash_from_hex trim trim_start trim_end is_blank to_string
    revoke_key
room_left = omega arith

sample-IsSized : IsSized
sample-IsSized x = length-fixed 32 x

v2_status-v2_checkpoint_example :
    ((proof : LogBackedProof) × ((v2_status (v2_checkpoint one_revoked).1 (about 8)).0
        ≡ ok (ok proof))
      × (map_contains one_revoked.logbacked.map (fixed 32 (8 ∷ [])) ≡ true
          → verify_revoked proof (fixed 32 (8 ∷ [])) one_revoked.operator_key ≡ true)
      × (map_contains one_revoked.logbacked.map (fixed 32 (8 ∷ [])) ≡ false
          → verify_not_revoked proof (fixed 32 (8 ∷ [])) one_revoked.operator_key ≡ true))
    ⊎ Collision
v2_status-v2_checkpoint_example =
    v2_status-v2_checkpoint (signer_of 1) one_revoked (about 8) (fixed 32 (8 ∷ [])) sample-IsSized
      decode-bytes (signer_of-IsGenuine 1) (λ payload. (signed_by 1 payload, refl))
      (serve-IsServing (signer_of 1) one_call decode-bytes) read_back room_left

abbrev checkpointed : AppState
checkpointed = (v2_checkpoint (with_clock (signer_of 1))).1

abbrev first_commit : Committed
first_commit = record { checkpoint = next_checkpoint new_logbacked; leaf_index = 0 }

first_head :
    (sth : SignedTreeHead) × ((signed_head
        (inclusion_proof checkpointed.logbacked.witness 0).1
        (signer_of 1)).0
      ≡ ok sth)
first_head = head_signed _ (signer_of 1) (λ payload. (signed_by 1 payload, refl))

first_proof : (proof : LogBackedProof) × ((v2_status checkpointed (about 8)).0 ≡ ok (ok proof))
unfolding v2_checkpoint publish_checkpoint
first_proof =
    let (consistent, latest, epoch) =
      publish_checkpoint-IsConsistent new_logbacked (signer_of 1) new-IsConsistent in
    let (proof, proved, _, _, _) =
      prove-map_root_is_logged checkpointed.logbacked first_commit (fixed 32 (8 ∷ [])) (signer_of 1)
        first_head.0 consistent latest refl (omega (arith, consistent.epochs, epoch))
        (signer_of-IsGenuine 1) first_head.1 in
    (proof, v2_status_proof checkpointed (about 8) (fixed 32 (8 ∷ [])) proof read_back proved)

v2_status_closed_example :
    (c : Committed) × (checkpointed.logbacked.latest ≡ some c)
    × (map_root checkpointed.logbacked.map ≡ c.checkpoint.map_root)
    × (first_proof.0.checkpoint ≡ c.checkpoint)
v2_status_closed_example = v2_status_closed checkpointed (about 8) first_proof.0 first_proof.1
