-- ===== src/Checkpoint/Written.antt =====
-- A note that is written over a checkpoint comes apart into the body and the signature lines.
use mathlib.Core.List.{append_assoc}
use index_one.Checkpoint.Str.{
  usize_max, starts_with, strip_prefix, split, pop_empty, position, to_string,
}
use index_one.Checkpoint.Lines.{
  Lacks, Lacks-append, unlines, unlines-append, split-unlines, pop_empty-snoc, lines-unlines,
  strip_cr_none, strip_prefix-append, join_lines-unlines,
}
use index_one.Checkpoint.Decimal.{IsDigit, to_string-IsDigit, parse_usize-to_string}
use index_one.Checkpoint.Note.{
  NotePrimitives, Checkpoint, sig_marker, note_parts, cut_at, checkpoint_body, line_of, parse_body,
}
use index_one.Base.{
  Text, ℕ, ◌≤◌, ◌<◌, ◌≡◌, refl, sym, ap, ◌∙◌, ◌≢◌, ◌⊎◌, inl, Bool, true, false, some, List, [], ◌∷◌,
  ◌++◌, arith, length, All, ◌==◌, Bytes, nat_eq, list_eq, option_eq, inr,
}

position_third :
    (p : Text → Bool) (a b c s : Text) (sigs : List Text)
    → p a ≡ false
    → p b ≡ false
    → p c ≡ false
    → p s ≡ true
    → position p (a ∷ b ∷ c ∷ s ∷ sigs) ≡ some 3
unfolding position
position_third p a b c s sigs ha hb hc hs = rw (ha, hb, hc, hs) refl

-- A text of three lines and signature lines.
note_parts-unlines :
    (a b c s : Text) (sigs : List Text)
    → All (Lacks 10) (a ∷ b ∷ c ∷ s ∷ sigs)
    → starts_with sig_marker a ≡ false
    → starts_with sig_marker b ≡ false
    → starts_with sig_marker c ≡ false
    → starts_with sig_marker s ≡ true
    → note_parts (unlines (a ∷ b ∷ c ∷ s ∷ sigs)) ≡ some (unlines (a ∷ b ∷ c ∷ []), s ∷ sigs)
unfolding note_parts
note_parts-unlines a b c s sigs lacks ha hb hc hs =
    let whole = a ∷ b ∷ c ∷ s ∷ sigs in
    let pieces : pop_empty (split 10 (unlines whole)) ≡ whole =
      ap pop_empty (split-unlines whole lacks) ∙ pop_empty-snoc whole in
    let third = position_third (starts_with sig_marker) a b c s sigs ha hb hc hs in
    ap (λ ls. cut_at ls (position (starts_with sig_marker) ls)) pieces
    ∙ ap (cut_at whole) third
    ∙ ap (λ t. some (t, s ∷ sigs)) (join_lines-unlines a (b ∷ c ∷ []))

-- No line of digits or of plain bytes begins like a signature.
unmarked : (w : Text) → Lacks 226 w → starts_with sig_marker w ≡ false
unfolding strip_prefix
unmarked [] lacks = refl
unmarked (b ∷ w) lacks = let other : (b == 226) ≡ false = ground (arith, lacks.0) in rw other refl

marked : (s : Text) → starts_with sig_marker (sig_marker ++ s) ≡ true
marked s = rw (strip_prefix-append sig_marker s) refl

All-Lacks : {P : ℕ → Type 0} (c : ℕ) → ((b : ℕ) → P b → b ≢ c) → (w : Text) → All P w → Lacks c w
All-Lacks c other [] h = tt
All-Lacks c other (b ∷ w) h = (other b h.0, All-Lacks c other w h.1)

-- A byte of the base64 alphabet is a visible one of ASCII.
abbrev pub IsVisible : ℕ → Type 0
IsVisible b = (32 < b) × (b < 127)

-- What sha2 and base64 promise.
pub record IsNoteFormat (np : NotePrimitives) : Type 0 where
  pub hash_size : (x : Bytes) → length (np.sha256 x) ≡ 32
  pub decodes : (x : Bytes) → np.decode (np.encode x) ≡ some x
  pub visible : (x : Bytes) → All IsVisible (np.encode x)

-- A name that fits into a signature line.
pub record IsKeyName (name : Text) : Type 0 where
  pub one_line : Lacks 10 name
  pub one_word : Lacks 32 name

-- A checkpoint that fits into a note: its origin is a line of text that does not look like a
-- signature, its size is a `usize` and its root has 32 bytes.
pub record IsWritable (cp : Checkpoint) : Type 0 where
  pub one_line : Lacks 10 cp.origin
  pub no_return : Lacks 13 cp.origin
  pub unmarked : starts_with sig_marker cp.origin ≡ false
  pub size : cp.size ≤ usize_max
  pub root : length cp.root ≡ 32

module _ ⦃np : NotePrimitives⦄ where
  -- A signature line without its newline.
  abbrev pub sig_text : Text → Bytes → Text
  sig_text name blob = sig_marker ++ (name ++ (32 ∷ np.encode blob))

  pub line_of-unlines :
      (name : Text) (blob : Bytes) → line_of name blob ≡ unlines (sig_text name blob ∷ [])
  line_of-unlines name blob =
      ap (λ t. sig_marker ++ t) (sym (append_assoc name (32 ∷ np.encode blob) (10 ∷ [])))

  -- The lines of a note over a checkpoint: each has a name and a blob.
  abbrev pub sig_texts : List (Text × Bytes) → List Text
  sig_texts [] = []
  sig_texts ((name, blob) ∷ sigs) = sig_text name blob ∷ sig_texts sigs

  -- A note over a checkpoint with these signatures.
  abbrev pub note_of : Checkpoint → List (Text × Bytes) → Text
  note_of cp sigs = checkpoint_body cp ++ unlines (sig_texts sigs)

  module _ (format : IsNoteFormat np) where
    encode-Lacks : (c : ℕ) (x : Bytes) → (c ≤ 32) ⊎ (127 ≤ c) → Lacks c (np.encode x)
    encode-Lacks c x outside =
        All-Lacks c (λ b (v : IsVisible b). ground (arith, outside)) (np.encode x)
          (format.visible x)

    digits-Lacks : (c n : ℕ) → (c < 48) ⊎ (57 < c) → Lacks c (to_string n)
    digits-Lacks c n outside =
        All-Lacks c (λ b (v : IsDigit b). ground (arith, outside)) (to_string n)
          (to_string-IsDigit n)

    sig_text-Lacks : (name : Text) (blob : Bytes) → IsKeyName name → Lacks 10 (sig_text name blob)
    sig_text-Lacks name blob named =
        Lacks-append 10 sig_marker (name ++ (32 ∷ np.encode blob)) (omega arith) (
          Lacks-append 10 name (32 ∷ np.encode blob) named.one_line
            (omega arith, encode-Lacks 10 blob (inl (omega arith))))

    pub parse_body-checkpoint_body :
        (cp : Checkpoint) → IsWritable cp → parse_body (checkpoint_body cp) ≡ some cp
    unfolding parse_body checkpoint_body
    parse_body-checkpoint_body cp w =
        let lacks : All (Lacks 10) (cp.origin ∷ to_string cp.size ∷ np.encode cp.root ∷ []) = (
          w.one_line,
          (
            digits-Lacks 10 cp.size (inl (omega arith)),
            (encode-Lacks 10 cp.root (inl (omega arith)), tt),
          ),
        ) in
        let whole = lines-unlines (cp.origin ∷ to_string cp.size ∷ np.encode cp.root ∷ []) lacks in
        rw
          (
            whole,
            strip_cr_none cp.origin w.no_return,
            strip_cr_none (to_string cp.size) (digits-Lacks 13 cp.size (inl (omega arith))),
            strip_cr_none (np.encode cp.root) (encode-Lacks 13 cp.root (inl (omega arith))),
            parse_usize-to_string cp.size w.size,
            format.decodes cp.root,
            w.root,
          )
          refl

    sig_texts-Lacks :
        (sigs : List (Text × Bytes))
        → All (λ s. IsKeyName s.0) sigs
        → All (Lacks 10) (sig_texts sigs)
    sig_texts-Lacks [] named = tt
    sig_texts-Lacks ((name, blob) ∷ sigs) named =
        (sig_text-Lacks name blob named.0, sig_texts-Lacks sigs named.1)

    regroup :
        (cp : Checkpoint) (sigs : List Text)
        → checkpoint_body cp ++ unlines sigs
          ≡ unlines (cp.origin ∷ to_string cp.size ∷ np.encode cp.root ∷ sigs)
    unfolding checkpoint_body
    regroup cp sigs =
        sym (unlines-append (cp.origin ∷ to_string cp.size ∷ np.encode cp.root ∷ []) sigs)

    pub note_parts-note_of :
        (cp : Checkpoint) (first : Text × Bytes) (sigs : List (Text × Bytes))
        → IsWritable cp
        → All (λ s. IsKeyName s.0) (first ∷ sigs)
        → note_parts (note_of cp (first ∷ sigs))
          ≡ some (checkpoint_body cp, sig_texts (first ∷ sigs))
    unfolding checkpoint_body
    note_parts-note_of cp (name, blob) sigs w named =
        let texts = sig_texts-Lacks ((name, blob) ∷ sigs) named in
        let digits = digits-Lacks 10 cp.size (inl (omega arith)) in
        let encoded = encode-Lacks 10 cp.root (inl (omega arith)) in
        ap note_parts (regroup cp (sig_texts ((name, blob) ∷ sigs)))
        ∙ note_parts-unlines cp.origin (to_string cp.size) (np.encode cp.root) (sig_text name blob)
            (sig_texts sigs) (w.one_line, (digits, (encoded, texts))) w.unmarked
            (unmarked (to_string cp.size) (digits-Lacks 226 cp.size (inr (omega arith))))
            (unmarked (np.encode cp.root) (encode-Lacks 226 cp.root (inr (omega arith))))
            (marked (name ++ (32 ∷ np.encode blob)))
