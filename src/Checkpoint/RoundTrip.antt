-- ===== src/Checkpoint/RoundTrip.antt =====
-- What a signed note says is read back from it, and cosignatures take nothing away.
use index_one.Checkpoint.Lines.{unlines, strip_prefix-append, split_once-append}
use index_one.Checkpoint.Note.{
  NotePrimitives, Checkpoint, sig_marker, checkpoint_body, key_hash, signature_line,
  sign_checkpoint, blob_holds, named_holds, rest_holds, line_holds, verified, verify_checkpoint,
}
use index_one.Checkpoint.Written.{
  IsNoteFormat, IsKeyName, IsWritable, sig_text, line_of-unlines, sig_texts, note_of,
  note_parts-note_of, parse_body-checkpoint_body,
}
use index_one.Base.{
  Text, ◌≡◌, ap, ◌∙◌, true, some, ◌∷◌, ◌++◌, arith, length, ok, Bytes, refl, sym, subst, ◌≢◌, inl,
  inr, false, none, List, [], if◌then◌else◌, take, drop, any, All, err, ◌>>=◌, ok-injective, ◌!=◌,
  !=_refl, Result-cases, length-append, take-append_length, length-take_le, drop-append_length,
  nat_eq, list_eq, option_eq,
}
use index_one.Crypto.{
  Primitives, PublicKey, Signature, Signer, CryptoError, ed25519, verify_signature, ed25519_verify,
  IsGenuine,
}
use index_one.Crypto.Verify.{verify_levels}

module _ ⦃prim : Primitives⦄ where
  -- A signature that holds under an Ed25519 key is an Ed25519 signature of 64 bytes.
  ed25519_shape :
      (payload : Bytes) (sig : Signature) (key : PublicKey)
      → key.algorithm ≡ ed25519
      → verify_signature payload sig key ≡ ok true
      → (sig.algorithm ≡ ed25519) × (length sig.bytes ≡ 64)
  unfolding verify_signature verify_levels ed25519_verify
  ed25519_shape payload sig key e h = ground (arith, e, h)

module _ ⦃np : NotePrimitives⦄ ⦃prim : Primitives⦄ where
  blob_accepted :
      (body : Text) (id sig_bytes : Bytes) (key : PublicKey)
      → length id ≡ 4
      → length sig_bytes ≡ 64
      → verify_signature body (record { algorithm = ed25519; bytes = sig_bytes }) key ≡ ok true
      → blob_holds body id key (some (id ++ sig_bytes)) ≡ true
  blob_accepted body id sig_bytes key four size valid =
      let front : take 4 (id ++ sig_bytes) ≡ id =
        ap (λ n. take n (id ++ sig_bytes)) (sym four) ∙ take-append_length id sig_bytes in
      let back : drop 4 (id ++ sig_bytes) ≡ sig_bytes =
        ap (λ n. drop n (id ++ sig_bytes)) (sym four) ∙ drop-append_length id sig_bytes in
      let whole : (length (id ++ sig_bytes) != 68) ≡ false =
        ground (arith, length-append id sig_bytes, four, size) in
      rw (whole, front, back, !=_refl id, valid) refl

  pub line_holds-sig_text :
      (body name key_name : Text) (blob : Bytes) (key : PublicKey)
      → IsNoteFormat np
      → IsKeyName name
      → line_holds body key_name key (sig_text name blob)
        ≡ named_holds body key_name key (some (name, np.encode blob))
  unfolding line_holds
  line_holds-sig_text body name key_name blob key format named =
      ap (rest_holds body key_name key)
        (strip_prefix-append sig_marker (name ++ (32 ∷ np.encode blob)))
      ∙ ap (named_holds body key_name key)
          (split_once-append 32 name (np.encode blob) named.one_word)

  four_bytes : (name : Text) (pubkey : Bytes) → IsNoteFormat np → length (key_hash name pubkey) ≡ 4
  unfolding key_hash
  four_bytes name pubkey format =
      let hash = np.sha256 (name ++ (10 ∷ (1 ∷ pubkey))) in
      length-take_le 4 hash (omega (arith, format.hash_size (name ++ (10 ∷ (1 ∷ pubkey)))))

  unsigned :
      (cp : Checkpoint) (name : Text) (signer : Signer) (e : CryptoError) {note : Text}
      → signer.sign (checkpoint_body cp) ≡ err e
      → sign_checkpoint signer name cp ≢ ok note
  unfolding sign_checkpoint signature_line
  unsigned cp name signer e failed made = ground (arith, failed, made)

  -- What an Ed25519 signer signs is taken from its signature line.
  pub genuine_line :
      (body name : Text) (signer : Signer) (sig : Signature)
      → IsNoteFormat np
      → IsKeyName name
      → IsGenuine signer
      → signer.public_key.algorithm ≡ ed25519
      → signer.sign body ≡ ok sig
      → line_holds body name signer.public_key
          (sig_text name (key_hash name signer.public_key.bytes ++ sig.bytes))
        ≡ true
  genuine_line body name signer sig format named genuine classical signed =
      let id = key_hash name signer.public_key.bytes in
      let valid = genuine body sig signed in
      let (alg, size) = ed25519_shape body sig signer.public_key classical valid in
      let plain : verify_signature body (record { algorithm = ed25519; bytes = sig.bytes })
            signer.public_key
          ≡ ok true =
        subst
          (λ a.
            verify_signature body (record { algorithm = a; bytes = sig.bytes }) signer.public_key
            ≡ ok true)
          alg valid in
      line_holds-sig_text body name name (id ++ sig.bytes) signer.public_key format named
      ∙ rw (!=_refl name, format.decodes (id ++ sig.bytes))
          (blob_accepted body id sig.bytes signer.public_key
            (four_bytes name signer.public_key.bytes format) size plain)

  -- A note over a checkpoint gives the checkpoint to those whose key has signed it.
  pub verify_checkpoint-note_of :
      (cp : Checkpoint) (first : Text × Bytes) (sigs : List (Text × Bytes)) (key_name : Text)
      (key : PublicKey)
      → IsNoteFormat np
      → IsWritable cp
      → All (λ s. IsKeyName s.0) (first ∷ sigs)
      → verify_checkpoint (note_of cp (first ∷ sigs)) key_name key ≡ (
          if any (line_holds (checkpoint_body cp) key_name key) (sig_texts (first ∷ sigs))
          then some cp
          else none)
  unfolding verify_checkpoint
  verify_checkpoint-note_of cp first sigs key_name key format w named =
      ap (verified key_name key) (note_parts-note_of format cp first sigs w named)
      ∙ ap
          (λ t.
            if any (line_holds (checkpoint_body cp) key_name key) (sig_texts (first ∷ sigs))
            then t
            else none)
          (parse_body-checkpoint_body format cp w)

  -- The signature that a signer of this name makes over a body.
  abbrev pub entry : Text → Signer → Signature → Text × Bytes
  entry name signer sig = (name, key_hash name signer.public_key.bytes ++ sig.bytes)

  pub signature_line-eq :
      (body name : Text) (signer : Signer) (sig : Signature)
      → signer.sign body ≡ ok sig
      → signature_line body signer name ≡ ok (unlines (sig_texts (entry name signer sig ∷ [])))
  unfolding signature_line
  signature_line-eq body name signer sig signed =
      rw signed (ap ok (line_of-unlines name (key_hash name signer.public_key.bytes ++ sig.bytes)))

  pub sign_checkpoint-eq :
      (cp : Checkpoint) (name : Text) (signer : Signer) (sig : Signature)
      → signer.sign (checkpoint_body cp) ≡ ok sig
      → sign_checkpoint signer name cp ≡ ok (note_of cp (entry name signer sig ∷ []))
  unfolding sign_checkpoint
  sign_checkpoint-eq cp name signer sig signed =
      ap (λ r. r >>= λ line. ok (checkpoint_body cp ++ line))
        (signature_line-eq (checkpoint_body cp) name signer sig signed)

  -- Where a genuine Ed25519 signer with a key name of one word signs a checkpoint that fits into a
  -- note, the note that `sign_checkpoint` makes verifies under the name and key of the signer, and
  -- gives the checkpoint back.
  pub verify_checkpoint-sign_checkpoint :
      (cp : Checkpoint) (name note : Text) (signer : Signer)
      → IsNoteFormat np
      → IsWritable cp
      → IsKeyName name
      → IsGenuine signer
      → signer.public_key.algorithm ≡ ed25519
      → sign_checkpoint signer name cp ≡ ok note
      → verify_checkpoint note name signer.public_key ≡ some cp
  verify_checkpoint-sign_checkpoint cp name note signer format w named genuine classical made =
      elim (Result-cases (signer.sign (checkpoint_body cp))) [
        | inl (sig, signed) ↦
            let holds =
              genuine_line (checkpoint_body cp) name signer sig format named genuine classical
                signed in
            ap (λ n. verify_checkpoint n name signer.public_key)
              (ok-injective (sym made ∙ sign_checkpoint-eq cp name signer sig signed))
            ∙ verify_checkpoint-note_of cp (entry name signer sig) [] name signer.public_key format
                w (named, tt)
            ∙ rw holds refl
        | inr (e, failed) ↦ absurd (unsigned cp name signer e failed made)
      ]
