-- ===== src/Checkpoint/Quorum.antt =====
-- What a quorum of witnesses means, and that two quorums share a witness.
use mathlib.Core.Option.{some-injective}
use index_one.Checkpoint.Note.{
  NotePrimitives, Checkpoint, checkpoint_eq, note_parts, parse_body, verified, verify_checkpoint,
}
use index_one.Checkpoint.Cosigner.{tally, decided, verify_quorum}
use index_one.Base.{
  Text, ℕ, suc, ◌+◌, ◌≤◌, ◌<◌, ◌≡◌, refl, sym, ap, ◌∙◌, ◌↔◌, ◌⊎◌, inl, inr, Bool, true, false,
  Option, none, some, List, [], ◌∷◌, arith, if◌then◌else◌, length, !=_refl, Bool-cases,
  Option-cases, ◌≢◌,
}
use index_one.Crypto.{Primitives, PublicKey}

-- Some item satisfies `P`; a sum by recursion.
abbrev pub Any {ℓ} : {A : Type ℓ} → (A → Type 0) → List A → Type 0
Any P [] = ⊥
Any P (x ∷ xs) = P x ⊎ Any P xs

-- How many items pass a test.
abbrev pub number_of {ℓ} : {A : Type ℓ} → (A → Bool) → List A → ℕ
number_of p [] = 0
number_of p (x ∷ xs) = let more = number_of p xs in if p x then suc more else more

Any-map {ℓ} :
    {A : Type ℓ} {P Q : A → Type 0} → ((x : A) → P x → Q x) → (xs : List A) → Any P xs → Any Q xs
Any-map f [] h = h
Any-map f (x ∷ xs) (inl h) = inl (f x h)
Any-map f (x ∷ xs) (inr h) = inr (Any-map f xs h)

number_of-le {ℓ} : {A : Type ℓ} (p : A → Bool) (xs : List A) → number_of p xs ≤ length xs
number_of-le p [] = omega arith
number_of-le p (x ∷ xs) = ground (arith, number_of-le p xs)

-- Two tests that together pass more often than there are items pass on a common one.
pigeonhole {ℓ} :
    {A : Type ℓ} (p q : A → Bool) (xs : List A)
    → length xs < number_of p xs + number_of q xs
    → Any (λ x. (p x ≡ true) × (q x ≡ true)) xs
pigeonhole p q [] h = absurd (omega (arith, h))
pigeonhole p q (x ∷ xs) h = elim (Bool-cases (p x)) [
  | inl yes_p ↦ elim (Bool-cases (q x)) [
    | inl yes_q ↦ inl (yes_p, yes_q)
    | inr no_q ↦ inr (pigeonhole p q xs (ground (arith, yes_p, no_q, h)))
  ]
  | inr no_p ↦ inr (pigeonhole p q xs (ground (arith, no_p, h)))
]

-- A test that passes at all passes on some item.
Any-number_of {ℓ} :
    {A : Type ℓ} (p : A → Bool) (xs : List A) → 0 < number_of p xs → Any (λ x. p x ≡ true) xs
Any-number_of p [] h = absurd (omega (arith, h))
Any-number_of p (x ∷ xs) h = elim (Bool-cases (p x)) [
  | inl passes ↦ inl passes
  | inr fails ↦ inr (Any-number_of p xs (ground (arith, fails, h)))
]

pub number_of-Any {ℓ} :
    {A : Type ℓ} (p : A → Bool) (xs : List A) → Any (λ x. p x ≡ true) xs → 0 < number_of p xs
number_of-Any p [] h = absurd h
number_of-Any p (x ∷ xs) (inl h) = ground (arith, h)
number_of-Any p (x ∷ xs) (inr h) = ground (arith, number_of-Any p xs h)

abbrev holds_some : Option Checkpoint → Bool
holds_some none = false
holds_some (some cp) = true

module _ ⦃np : NotePrimitives⦄ ⦃prim : Primitives⦄ where
  -- Whether the note has a valid signature of the witness.
  abbrev pub signs : Text → Text × PublicKey → Bool
  signs note (name, key) = holds_some (verify_checkpoint note name key)

  -- The checkpoint that the body of a note reads as, whoever signed it.
  abbrev read_parts : Option (Text × List Text) → Option Checkpoint
  read_parts none = none
  read_parts (some (body, sigs)) = parse_body body

  abbrev view : Text → Option Checkpoint
  view note = read_parts (note_parts note)

  verified-view :
      (name : Text) (key : PublicKey) (parts : Option (Text × List Text)) (cp : Checkpoint)
      → verified name key parts ≡ some cp
      → read_parts parts ≡ some cp
  verified-view name key none cp h = cc
  verified-view name key (some (body, sigs)) cp h = ground (arith, h)

  -- All who take a checkpoint from a note take the same one.
  verify_checkpoint-view :
      (note name : Text) (key : PublicKey) (cp : Checkpoint)
      → verify_checkpoint note name key ≡ some cp
      → view note ≡ some cp
  unfolding verify_checkpoint
  verify_checkpoint-view note name key cp h = verified-view name key (note_parts note) cp h

  signs-eq-true :
      (note : Text) (cp : Checkpoint) (w : Text × PublicKey)
      → view note ≡ some cp
      → signs note w ≡ true
      → verify_checkpoint note w.0 w.1 ≡ some cp
  signs-eq-true note cp w seen h = elim (Option-cases (verify_checkpoint note w.0 w.1)) [
    | inl silent ↦ absurd (ground (arith, silent, h))
    | inr (cp', found) ↦ found ∙ sym (verify_checkpoint-view note w.0 w.1 cp' found) ∙ seen
  ]

  tally_agreed :
      (note : Text) (witnesses : List (Text × PublicKey)) (cp : Checkpoint) (n : ℕ)
      → view note ≡ some cp
      → tally note witnesses (some cp) n ≡ some (some cp, n + number_of (signs note) witnesses)
  unfolding tally
  tally_agreed note [] cp n seen = ap (λ m. some (some cp, m)) (omega arith)
  tally_agreed note ((name, key) ∷ witnesses) cp n seen =
      elim (Option-cases (verify_checkpoint note name key)) [
        | inl silent ↦ rw (silent, tally) (tally_agreed note witnesses cp n seen)
        | inr (cp', found) ↦
            let same : cp' ≡ cp =
              some-injective _ _ (sym (verify_checkpoint-view note name key cp' found) ∙ seen) in
            rw (found ∙ ap some same, tally, !=_refl cp)
              (tally_agreed note witnesses cp (n + 1) seen
                ∙ ap (λ m. some (some cp, m)) (omega arith))
      ]

  tally_fresh :
      (note : Text) (witnesses : List (Text × PublicKey)) (n : ℕ)
      → ((number_of (signs note) witnesses ≡ 0) × (tally note witnesses none n ≡ some (none, n)))
        ⊎ ((cp : Checkpoint) × (view note ≡ some cp)
            × (0 < number_of (signs note) witnesses)
            × (tally note witnesses none n ≡ some (some cp, n + number_of (signs note) witnesses)))
  unfolding tally
  tally_fresh note [] n = inl (refl, refl)
  tally_fresh note ((name, key) ∷ witnesses) n =
      elim (Option-cases (verify_checkpoint note name key)) [
        | inl silent ↦ rw (silent, tally) (tally_fresh note witnesses n)
        | inr (cp, found) ↦
            let seen = verify_checkpoint-view note name key cp found in
            inr (
              cp,
              seen,
              rw found (omega arith),
              rw (found, tally)
                  (tally_agreed note witnesses cp (n + 1) seen
                    ∙ ap (λ m. some (some cp, m)) (omega arith)),
            )
      ]

  no_view : (threshold n : ℕ) (cp : Checkpoint) → decided threshold (some (none, n)) ≢ some cp
  no_view threshold n cp h = ground (arith, h)

  one_view :
      (threshold n : ℕ) (cp' cp : Checkpoint)
      → decided threshold (some (some cp', n)) ≡ some cp
      → (threshold ≤ n) × (cp' ≡ cp)
  one_view threshold n cp' cp h = ground (arith, h)

  view_of :
      (threshold n : ℕ) (cp : Checkpoint)
      → threshold ≤ n
      → decided threshold (some (some cp, n)) ≡ some cp
  view_of threshold n cp h = ground (arith, h)

  Any-signs :
      (note : Text) (cp : Checkpoint) (witnesses : List (Text × PublicKey))
      → Any (λ w. verify_checkpoint note w.0 w.1 ≡ some cp) witnesses
      → Any (λ w. signs note w ≡ true) witnesses
  Any-signs note cp witnesses h = Any-map (λ w found. ap holds_some found) witnesses h

  Any-view :
      (note : Text) (cp : Checkpoint) (witnesses : List (Text × PublicKey))
      → Any (λ w. verify_checkpoint note w.0 w.1 ≡ some cp) witnesses
      → view note ≡ some cp
  Any-view note cp [] h = absurd h
  Any-view note cp (w ∷ witnesses) (inl h) = verify_checkpoint-view note w.0 w.1 cp h
  Any-view note cp (w ∷ witnesses) (inr h) = Any-view note cp witnesses h

  -- `verify_quorum` gives the checkpoint `cp` exactly when at least `threshold` entries of the list of
  -- witnesses have a valid signature in the note, and one of them takes `cp` from it.
  pub verify_quorum_iff :
      (note : Text) (witnesses : List (Text × PublicKey)) (threshold : ℕ) (cp : Checkpoint)
      → (verify_quorum note witnesses threshold ≡ some cp) ↔ (
          (threshold ≤ number_of (signs note) witnesses)
          × Any (λ w. verify_checkpoint note w.0 w.1 ≡ some cp) witnesses)
  unfolding verify_quorum
  verify_quorum_iff note witnesses threshold cp = elim (tally_fresh note witnesses 0) [
    | inl (zero_of, told) ↦ (
      λ h. absurd (no_view threshold 0 cp (sym (ap (decided threshold) told) ∙ h)),
      λ (enough, some_sign). absurd (
          omega (
            arith,
            zero_of,
            number_of-Any (signs note) witnesses (Any-signs note cp witnesses some_sign),
          )),
    )
    | inr (cp', seen, some_of, told) ↦ (
      λ h.
          (let (enough, same) =
              one_view threshold (0 + number_of (signs note) witnesses) cp' cp
                (sym (ap (decided threshold) told) ∙ h) in
            (
              omega (arith, enough),
              Any-map (λ w. signs-eq-true note cp w (seen ∙ ap some same)) witnesses
                  (Any-number_of (signs note) witnesses some_of),
            )),
      λ (enough, some_sign).
          ap (decided threshold) told
          ∙ view_of threshold (0 + number_of (signs note) witnesses) cp' (omega (arith, enough))
          ∙ sym seen
          ∙ Any-view note cp witnesses some_sign,
    )
  ]

  -- Where two notes have a quorum of the same witnesses, and the two thresholds together exceed their
  -- number, some witness has signed both: it takes from each note the checkpoint of its quorum.
  pub verify_quorum_overlap :
      (note note' : Text) (witnesses : List (Text × PublicKey)) (threshold threshold' : ℕ)
      (cp cp' : Checkpoint)
      → verify_quorum note witnesses threshold ≡ some cp
      → verify_quorum note' witnesses threshold' ≡ some cp'
      → length witnesses < threshold + threshold'
      → Any
          (λ w.
            (verify_checkpoint note w.0 w.1 ≡ some cp)
            × (verify_checkpoint note' w.0 w.1 ≡ some cp'))
          witnesses
  verify_quorum_overlap note note' witnesses threshold threshold' cp cp' h h' many =
      let (enough, found) = (verify_quorum_iff note witnesses threshold cp).0 h in
      let (enough', found') = (verify_quorum_iff note' witnesses threshold' cp').0 h' in
      let seen = Any-view note cp witnesses found in
      let seen' = Any-view note' cp' witnesses found' in
      Any-map
        (λ w both. (signs-eq-true note cp w seen both.0, signs-eq-true note' cp' w seen' both.1))
        witnesses
        (pigeonhole (signs note) (signs note') witnesses (omega (arith, many, enough, enough')))
