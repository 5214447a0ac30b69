-- ===== src/Checkpoint/Tests.antt =====
-- The theorems on notes, cosigners and quorums at a concrete log and witness.
use index_one.Base.{
  Text, ◌≤◌, ◌≡◌, refl, ◌↔◌, inl, some, List, [], ◌∷◌, arith, ok, Bytes, none, ◌++◌,
}
use index_one.Checkpoint.Str.{
  split, pop_empty, join_lines, strip_prefix, position, split_once, lines, digits, to_string,
  parse_digits, parse_usize,
}
use index_one.Checkpoint.Note.{
  Checkpoint, checkpoint_body, key_hash, signature_line, sign_checkpoint, cosign, note_body,
  note_parts, parse_body, line_holds, verify_checkpoint,
}
use index_one.Checkpoint.Written.{IsKeyName, IsWritable, sig_text, note_of}
use index_one.Checkpoint.RoundTrip.{entry, sign_checkpoint-eq, verify_checkpoint-sign_checkpoint}
use index_one.Checkpoint.Cosigned.{cosign-eq}
use index_one.Checkpoint.Cosigner.{CosigningWitness, new_cosigner, verify_quorum}
use index_one.Checkpoint.History.{Call}
use index_one.Checkpoint.Quorum.{
  Any, signs, number_of, number_of-Any, verify_quorum_iff, verify_quorum_overlap,
}
use index_one.Checkpoint.Encoding.{sample_notes, sample_notes-IsNoteFormat}
use index_one.Crypto.{PublicKey, verify_signature, ed25519_verify}
use index_one.Crypto.Verify.{verify_levels}
use index_one.Sample.{fixed, sample, key_of, signed_by, signer_of}
use index_one.Sample.Length.{signer_of-IsGenuine, length-fixed}
use index_one.Witness.{ConsistencyProof}

abbrev log_name : Text
log_name = 108 ∷ []

abbrev cosigner_name : Text
cosigner_name = 119 ∷ []

abbrev cp : Checkpoint
cp = record { origin = 111 ∷ []; size = 42; root = fixed 32 (7 ∷ []) }

cp-IsWritable : IsWritable cp
unfolding strip_prefix
cp-IsWritable = record {
  one_line = omega arith;
  no_return = omega arith;
  unmarked = refl;
  size = omega arith;
  root = length-fixed 32 (7 ∷ []);
}

log_name-IsKeyName : IsKeyName log_name
log_name-IsKeyName = record { one_line = omega arith; one_word = omega arith }

cosigner_name-IsKeyName : IsKeyName cosigner_name
cosigner_name-IsKeyName = record { one_line = omega arith; one_word = omega arith }

abbrev log_entry : Text × Bytes
log_entry = entry log_name (signer_of 1) (signed_by 1 (checkpoint_body cp))

abbrev cosigner_entry : Text × Bytes
cosigner_entry = entry cosigner_name (signer_of 2) (signed_by 2 (checkpoint_body cp))

abbrev log_note : Text
log_note = note_of cp (log_entry ∷ [])

abbrev cosigned_note : Text
cosigned_note = note_of cp (log_entry ∷ cosigner_entry ∷ [])

signed : sign_checkpoint (signer_of 1) log_name cp ≡ ok log_note
signed = sign_checkpoint-eq cp log_name (signer_of 1) (signed_by 1 (checkpoint_body cp)) refl

cosigned_by : cosign log_note (signer_of 2) cosigner_name ≡ some (ok cosigned_note)
cosigned_by =
    cosign-eq sample_notes-IsNoteFormat cp cp-IsWritable log_entry [] (log_name-IsKeyName, tt)
      cosigner_name (signer_of 2) (signed_by 2 (checkpoint_body cp)) refl

verify_checkpoint-sign_checkpoint_example : verify_checkpoint log_note log_name (key_of 1) ≡ some cp
verify_checkpoint-sign_checkpoint_example =
    verify_checkpoint-sign_checkpoint cp log_name log_note (signer_of 1) sample_notes-IsNoteFormat
      cp-IsWritable log_name-IsKeyName (signer_of-IsGenuine 1) refl signed

abbrev cosigner : CosigningWitness
cosigner = new_cosigner (signer_of 2) cosigner_name log_name (key_of 1)

abbrev no_nodes : ConsistencyProof
no_nodes = record { nodes = [] }

abbrev calls : List Call
calls = (log_note, 0, no_nodes) ∷ (log_note, 42, no_nodes) ∷ []

abbrev witnesses : List (Text × PublicKey)
witnesses = (log_name, key_of 1) ∷ []

verify_quorum_iff_example : (verify_quorum log_note witnesses 1 ≡ some cp) ↔ (
    (1 ≤ number_of (signs log_note) witnesses)
    × Any (λ w. verify_checkpoint log_note w.0 w.1 ≡ some cp) witnesses)
verify_quorum_iff_example = verify_quorum_iff log_note witnesses 1 cp

signed_once : verify_quorum log_note witnesses 1 ≡ some cp
signed_once =
    let found : verify_checkpoint log_note log_name (key_of 1) ≡ some cp =
      verify_checkpoint-sign_checkpoint cp log_name log_note (signer_of 1) sample_notes-IsNoteFormat
        cp-IsWritable log_name-IsKeyName (signer_of-IsGenuine 1) refl signed in
    (verify_quorum_iff log_note witnesses 1 cp).1
      (omega (arith, number_of-Any (signs log_note) witnesses (inl (rw found refl))), inl found)

verify_quorum_overlap_example :
    Any
      (λ w.
        (verify_checkpoint log_note w.0 w.1 ≡ some cp)
        × (verify_checkpoint log_note w.0 w.1 ≡ some cp))
      witnesses
verify_quorum_overlap_example =
    verify_quorum_overlap log_note log_note witnesses 1 1 cp cp signed_once signed_once
      (omega arith)

-- The log's note without its last newline is taken as it is, but a cosignature of it joins the line of
-- the log, and then neither signature is found.
abbrev unterminated : Text
unterminated = drop_last log_note
  where
    drop_last : Text → Text
    drop_last [] = []
    drop_last (c ∷ []) = []
    drop_last (c ∷ d ∷ s) = c ∷ drop_last (d ∷ s)

abbrev joined : Text
joined = unterminated ++ line
  where
    line : Text
    line = sig_text cosigner_name cosigner_entry.1 ++ 10 ∷ []

unterminated_taken : verify_checkpoint unterminated log_name (key_of 1) ≡ some cp
unfolding verify_checkpoint note_parts split pop_empty position strip_prefix line_holds split_once
    key_hash verify_signature verify_levels ed25519_verify parse_body lines parse_usize parse_digits
    join_lines checkpoint_body to_string digits
unterminated_taken = refl

cosign-unterminated : cosign unterminated (signer_of 2) cosigner_name ≡ some (ok joined)
unfolding cosign note_body note_parts split pop_empty position strip_prefix signature_line key_hash
    join_lines checkpoint_body to_string digits
cosign-unterminated = refl

joined_refused :
    (verify_checkpoint joined log_name (key_of 1) ≡ none)
    × (verify_checkpoint joined cosigner_name (key_of 2) ≡ none)
unfolding verify_checkpoint note_parts split pop_empty position strip_prefix line_holds split_once
    key_hash verify_signature verify_levels ed25519_verify parse_body lines parse_usize parse_digits
    join_lines checkpoint_body to_string digits
joined_refused = (refl, refl)
