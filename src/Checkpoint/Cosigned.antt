-- ===== src/Checkpoint/Cosigned.antt =====
-- What a cosignature adds to a note, and that it takes nothing away.
use mathlib.Core.List.{append_assoc}
use index_one.Checkpoint.Lines.{unlines, unlines-append}
use index_one.Checkpoint.Note.{
  NotePrimitives, Checkpoint, body_of, note_body, checkpoint_body, signature_line, cosign,
  line_holds, verify_checkpoint,
}
use index_one.Checkpoint.Written.{
  IsNoteFormat, IsKeyName, IsWritable, sig_text, sig_texts, note_of, note_parts-note_of,
}
use index_one.Checkpoint.RoundTrip.{
  entry, signature_line-eq, genuine_line, line_holds-sig_text, verify_checkpoint-note_of,
}
use index_one.Base.{
  Text, ◌≡◌, refl, sym, ap, ◌∙◌, ◌≢◌, Bool, ◌||◌, none, some, List, [], ◌∷◌, ◌++◌, arith,
  if◌then◌else◌, any, All, ok, err, ◌>>=◌, Bytes, inl, inr, true, false, ok-injective, ◌!=◌, ==_iff,
  Result-cases, nat_eq, list_eq, option_eq, Option,
}
use index_one.Crypto.{Primitives, PublicKey, Signature, Signer, CryptoError, ed25519, IsGenuine}
use mathlib.Core.Option.{some-injective}

any-snoc {ℓ} :
    {A : Type ℓ} (p : A → Bool) (xs : List A) (y : A) → any p (xs ++ y ∷ []) ≡ (any p xs || p y)
any-snoc p [] y = ground arith
any-snoc p (x ∷ xs) y = ground (arith, any-snoc p xs y)

either_second : (a b : Bool) (x : Option Checkpoint) → b ≡ true → (if a || b then x else none) ≡ x
either_second a b x h = ground (arith, h)

either_first :
    (a b : Bool) (cp : Checkpoint)
    → (if a then some cp else none) ≡ some cp
    → (if a || b then some cp else none) ≡ some cp
either_first a b cp h = ground (arith, h)

neither_second :
    (a b : Bool) (x : Option Checkpoint)
    → b ≡ false
    → (if a || b then x else none) ≡ (if a then x else none)
neither_second a b x h = ground (arith, h)

All-append {ℓ} :
    {A : Type ℓ} (P : A → Type 0) (xs : List A) (y : A) → All P xs → P y → All P (xs ++ y ∷ [])
All-append P [] y h hy = (hy, tt)
All-append P (x ∷ xs) y h hy = (h.0, All-append P xs y h.1 hy)

module _ ⦃np : NotePrimitives⦄ where
  sig_texts-append :
      (xs ys : List (Text × Bytes)) → sig_texts (xs ++ ys) ≡ sig_texts xs ++ sig_texts ys
  sig_texts-append [] ys = refl
  sig_texts-append ((name, blob) ∷ xs) ys =
      ap (λ t. sig_text name blob ∷ t) (sig_texts-append xs ys)

  -- A line behind a note is one more signature in it.
  note_of-append :
      (cp : Checkpoint) (sigs : List (Text × Bytes)) (last : Text × Bytes)
      → note_of cp sigs ++ unlines (sig_texts (last ∷ [])) ≡ note_of cp (sigs ++ last ∷ [])
  note_of-append cp sigs last =
      append_assoc (checkpoint_body cp) (unlines (sig_texts sigs)) (unlines (sig_texts (last ∷ [])))
      ∙ ap (λ t. checkpoint_body cp ++ t)
          (sym (unlines-append (sig_texts sigs) (sig_texts (last ∷ [])))
            ∙ ap unlines (sym (sig_texts-append sigs (last ∷ []))))

  note_body-note_of :
      (cp : Checkpoint) (first : Text × Bytes) (sigs : List (Text × Bytes))
      → IsNoteFormat np
      → IsWritable cp
      → All (λ s. IsKeyName s.0) (first ∷ sigs)
      → note_body (note_of cp (first ∷ sigs)) ≡ some (checkpoint_body cp)
  unfolding note_body
  note_body-note_of cp first sigs format w named =
      ap body_of (note_parts-note_of format cp first sigs w named)

module _ ⦃np : NotePrimitives⦄ ⦃prim : Primitives⦄ (format : IsNoteFormat np) (cp : Checkpoint)
    (w : IsWritable cp) (first : Text × Bytes) (sigs : List (Text × Bytes))
    (names : All (λ s. IsKeyName s.0) (first ∷ sigs)) where
  pub cosign-eq :
      (name : Text) (signer : Signer) (sig : Signature)
      → signer.sign (checkpoint_body cp) ≡ ok sig
      → cosign (note_of cp (first ∷ sigs)) signer name
        ≡ some (ok (note_of cp (first ∷ (sigs ++ entry name signer sig ∷ []))))
  unfolding cosign
  cosign-eq name signer sig signed =
      let note = note_of cp (first ∷ sigs) in
      rw (note_body-note_of cp first sigs format w names, cosign)
        (ap (λ r. some (r >>= λ line. ok (note ++ line)))
            (signature_line-eq (checkpoint_body cp) name signer sig signed)
          ∙ ap (λ n. some (ok n)) (note_of-append cp (first ∷ sigs) (entry name signer sig)))

  unsigned :
      (name : Text) (signer : Signer) (e : CryptoError) {note : Text}
      → signer.sign (checkpoint_body cp) ≡ err e
      → cosign (note_of cp (first ∷ sigs)) signer name ≢ some (ok note)
  unfolding cosign signature_line
  unsigned name signer e failed made =
      ground (arith, note_body-note_of cp first sigs format w names, failed, made)

  -- The note with one more signature, to any reader.
  verify_longer :
      (name key_name : Text) (blob : Bytes) (key : PublicKey)
      → IsKeyName name
      → verify_checkpoint (note_of cp (first ∷ (sigs ++ (name, blob) ∷ []))) key_name key ≡ (
          if any (line_holds (checkpoint_body cp) key_name key) (sig_texts (first ∷ sigs))
            || line_holds (checkpoint_body cp) key_name key (sig_text name blob)
          then some cp
          else none)
  verify_longer name key_name blob key named =
      let p = line_holds (checkpoint_body cp) key_name key in
      verify_checkpoint-note_of cp first (sigs ++ (name, blob) ∷ []) key_name key format w
        (All-append (λ (s : Text × Bytes). IsKeyName s.0) (first ∷ sigs) (name, blob) names named)
      ∙ ap (λ b. if b then some cp else none)
          (ap (any p) (sig_texts-append (first ∷ sigs) ((name, blob) ∷ []))
            ∙ any-snoc p (sig_texts (first ∷ sigs)) (sig_text name blob))

  other_name :
      (name key_name : Text) (blob : Bytes) (key : PublicKey)
      → IsKeyName name
      → name ≢ key_name
      → line_holds (checkpoint_body cp) key_name key (sig_text name blob) ≡ false
  other_name name key_name blob key named apart =
      let differs : (name != key_name) ≡ true = ground (arith, ==_iff name key_name, apart) in
      line_holds-sig_text (checkpoint_body cp) name key_name blob key format named ∙ rw differs refl

  -- Where a genuine Ed25519 signer with a key name of one word cosigns a note over a checkpoint, the
  -- longer note gives the checkpoint under the name and key of the signer, still gives it to every
  -- name and key that the note gave it to, and tells every other name what the note tells it.
  pub verify_checkpoint-cosign :
      (name note : Text) (signer : Signer)
      → IsKeyName name
      → IsGenuine signer
      → signer.public_key.algorithm ≡ ed25519
      → cosign (note_of cp (first ∷ sigs)) signer name ≡ some (ok note)
      → (verify_checkpoint note name signer.public_key ≡ some cp)
        × ((key_name : Text) (key : PublicKey)
            → verify_checkpoint (note_of cp (first ∷ sigs)) key_name key ≡ some cp
            → verify_checkpoint note key_name key ≡ some cp)
        × ((key_name : Text) (key : PublicKey)
            → name ≢ key_name
            → verify_checkpoint note key_name key
              ≡ verify_checkpoint (note_of cp (first ∷ sigs)) key_name key)
  verify_checkpoint-cosign name note signer named genuine classical made =
      elim (Result-cases (signer.sign (checkpoint_body cp))) [
        | inr (e, failed) ↦ absurd (unsigned name signer e failed made)
        | inl (sig, signed) ↦
            let blob = (entry name signer sig).1 in
            let same : note ≡ note_of cp (first ∷ (sigs ++ (name, blob) ∷ [])) =
              ok-injective (some-injective _ _ (sym made ∙ cosign-eq name signer sig signed)) in
            let old = λ (key_name : Text) (key : PublicKey).
              verify_checkpoint-note_of cp first sigs key_name key format w names in
            let long =
              λ (key_name : Text) (key : PublicKey). verify_longer name key_name blob key named in
            let read = λ (key_name : Text) (key : PublicKey).
              ap (λ n. verify_checkpoint n key_name key) same ∙ long key_name key in
            let holds =
              genuine_line (checkpoint_body cp) name signer sig format named genuine classical
                signed in
            (
              read name signer.public_key ∙ either_second _ _ (some cp) holds,
              λ key_name key before.
                  read key_name key ∙ either_first _ _ cp (sym (old key_name key) ∙ before),
              λ key_name key apart.
                  read key_name key
                  ∙ neither_second _ _ (some cp) (other_name name key_name blob key named apart)
                  ∙ sym (old key_name key),
            )
      ]
