-- ===== src/WitnessService/Durable.antt =====
-- Whatever a submission does, a restart recovers the log that the service holds.
use index_one.Base.{
  ℕ, ◌<◌, ◌≡◌, refl, sym, ap, ◌∙◌, subst, inl, inr, true, false, Option, none, some, List, [], ◌∷◌,
  ◌++◌, arith, lt→ltb, take, length, All, Bytes, Bool-cases, Result, ok, err, ◌!=◌, list_eq, nat_eq,
  option_eq,
}
use mathlib.Core.List.{append_assoc, append-nil}
use index_one.Crypto.{Primitives, Signer}
use index_one.Witness.{
  Digest, ActionReceipt, WitnessEncoding, Witness, root, append, inclusion_proof, signed_head,
  hash_leaf, new,
}
use index_one.Witness.Heads.{inclusion_proof-keeps}
use index_one.WitnessService.Store.{ReceiptParser, frame, store_append, open_store, write_failed}
use index_one.WitnessService.Submit.{
  AppState, ApiError, SubmitResponse, accept, submit, stale_prev_root, internal,
}
use index_one.WitnessService.Recovery.{IsReadable, frames, append_all, open_store-frames}

module _ ⦃prim : Primitives⦄ ⦃enc : WitnessEncoding⦄ where
  signed_head-leaves :
      (w : Witness) (signer : Signer) → (signed_head w signer).1.leaf_hashes ≡ w.leaf_hashes
  unfolding signed_head root
  signed_head-leaves w signer = refl

  root-leaves : (w : Witness) → (root w).1.leaf_hashes ≡ w.leaf_hashes
  unfolding root
  root-leaves w = refl

  append-leaves :
      (w : Witness) (r : ActionReceipt)
      → (append w r).1.leaf_hashes ≡ w.leaf_hashes ++ hash_leaf (enc.receipt_bytes r) ∷ []
  unfolding append
  append-leaves w r = refl

  accept-leaves :
      (st : AppState) (w : Witness) (store : Option Bytes) (r : ActionReceipt)
      → (accept st w store r).1.witness.leaf_hashes
        ≡ w.leaf_hashes ++ hash_leaf (enc.receipt_bytes r) ∷ []
  unfolding accept
  accept-leaves st w store r =
      let w1 = (append w r).1 in
      signed_head-leaves (inclusion_proof w1 (append w r).0).1 st.log_signer
      ∙ inclusion_proof-keeps w1 (append w r).0
      ∙ append-leaves w r

  accept-store :
      (st : AppState) (w : Witness) (store : Option Bytes) (r : ActionReceipt)
      → (accept st w store r).1.store ≡ store
  unfolding accept
  accept-store st w store r = refl

  submit_stale :
      (st : AppState) (r : ActionReceipt) (fault : Option ℕ)
      → (r.prev_root != (root st.witness).0) ≡ true
      → submit st r fault ≡ (err stale_prev_root, record st { witness = (root st.witness).1 })
  unfolding submit
  submit_stale st r fault h = rw (submit, h)

  submit_written :
      (st : AppState) (r : ActionReceipt) (file : Bytes)
      → (r.prev_root != (root st.witness).0) ≡ false
      → st.store ≡ some file
      → length (enc.receipt_bytes r) < 4294967296
      → submit st r none ≡ accept st (root st.witness).1 (some (file ++ frame r)) r
  unfolding submit store_append
  submit_written st r file h stored fits = rw (submit, h, stored, store_append, lt→ltb _ _ fits)

  submit_failed :
      (st : AppState) (r : ActionReceipt) (file : Bytes) (n : ℕ)
      → (r.prev_root != (root st.witness).0) ≡ false
      → st.store ≡ some file
      → length (enc.receipt_bytes r) < 4294967296
      → submit st r (some n) ≡ (
        err (internal write_failed),
        record st { witness = (root st.witness).1; store = some (file ++ take n (frame r)) },
      )
  unfolding submit store_append
  submit_failed st r file n h stored fits = rw (submit, h, stored, store_append, lt→ltb _ _ fits)

module _ ⦃prim : Primitives⦄ ⦃enc : WitnessEncoding⦄ ⦃parser : ReceiptParser⦄ where
  frames-snoc :
      (rs : List ActionReceipt) (r : ActionReceipt) → frames (rs ++ r ∷ []) ≡ frames rs ++ frame r
  frames-snoc [] r = append-nil (frame r)
  frames-snoc (x ∷ rs) r =
      ap (λ (t : Bytes). frame x ++ t) (frames-snoc rs r)
      ∙ sym (append_assoc (frame x) (frames rs) (frame r))

  append_all-snoc :
      (w : Witness) (rs : List ActionReceipt) (r : ActionReceipt)
      → append_all w (rs ++ r ∷ []) ≡ (append (append_all w rs) r).1
  append_all-snoc w [] r = refl
  append_all-snoc w (x ∷ rs) r = append_all-snoc (append w x).1 rs r

  -- The file holds the frames of these receipts, and the log in memory their leaves.
  pub record InStep (st : AppState) (rs : List ActionReceipt) : Type 0 where
    pub file : st.store ≡ some (frames rs)
    pub leaves : (append_all new rs).leaf_hashes ≡ st.witness.leaf_hashes

  -- Opening the file again gives a log with these leaves.
  abbrev pub Recovers : Option Bytes → List Digest → Type 0
  Recovers store leaves =
      (file kept : Bytes) × (w : Witness) × (store ≡ some file)
      × (open_store file new ≡ ok (kept, w))
      × (w.leaf_hashes ≡ leaves)

  Recovers-torn :
      (rs : List ActionReceipt) (r : ActionReceipt) (n : ℕ) (leaves : List Digest)
      → All IsReadable rs
      → IsReadable r
      → n < length (frame r)
      → (append_all new rs).leaf_hashes ≡ leaves
      → Recovers (some (frames rs ++ take n (frame r))) leaves
  Recovers-torn rs r n leaves readable i torn e = (
    frames rs ++ take n (frame r),
    frames rs,
    append_all new rs,
    refl,
    open_store-frames rs r n new readable i torn,
    e,
  )

  Recovers-whole :
      (rs : List ActionReceipt) (r : ActionReceipt) (leaves : List Digest)
      → All IsReadable rs
      → IsReadable r
      → (append_all new rs).leaf_hashes ≡ leaves
      → Recovers (some (frames rs)) leaves
  Recovers-whole rs r leaves readable i e =
      subst (λ (f : Bytes). Recovers (some f) leaves) (append-nil (frames rs))
        (Recovers-torn rs r 0 leaves readable i (omega arith) e)

  All-snoc :
      (rs : List ActionReceipt) (r : ActionReceipt)
      → All IsReadable rs
      → IsReadable r
      → All IsReadable (rs ++ r ∷ [])
  All-snoc [] r h i = (i, tt)
  All-snoc (x ∷ rs) r h i = (h.0, All-snoc rs r h.1 i)

  -- A service whose file and log are in step stays recoverable through a submission, whether it is
  -- stale, accepted, or its write fails after a part of the frame: opening the file again gives a
  -- log with exactly the leaves that the service holds in memory. The receipts are readable.
  pub submit-Recovers :
      (st : AppState) (rs : List ActionReceipt) (r : ActionReceipt) (fault : Option ℕ)
      → InStep st rs
      → All IsReadable rs
      → IsReadable r
      → ((n : ℕ) → fault ≡ some n → n < length (frame r))
      → Recovers (submit st r fault).1.store (submit st r fault).1.witness.leaf_hashes
  submit-Recovers st rs r fault s readable i torn =
      elim (Bool-cases (r.prev_root != (root st.witness).0)) [
        | inl stale ↦
            subst
              (λ (x : Result ApiError SubmitResponse × AppState).
                Recovers x.1.store x.1.witness.leaf_hashes)
              (sym (submit_stale st r fault stale))
              (subst (λ (o : Option Bytes). Recovers o (root st.witness).1.leaf_hashes) (sym s.file)
                (Recovers-whole rs r (root st.witness).1.leaf_hashes readable i
                  (s.leaves ∙ sym (root-leaves st.witness))))
        | inr current ↦ current_submission fault torn current
      ]
    where
      current_submission :
          (f : Option ℕ)
          → ((n : ℕ) → f ≡ some n → n < length (frame r))
          → (r.prev_root != (root st.witness).0) ≡ false
          → Recovers (submit st r f).1.store (submit st r f).1.witness.leaf_hashes
      current_submission none t h =
          let w = (root st.witness).1 in
          let file = frames rs ++ frame r in
          subst
            (λ (x : Result ApiError SubmitResponse × AppState).
              Recovers x.1.store x.1.witness.leaf_hashes)
            (sym (submit_written st r (frames rs) h s.file i.fits))
            (subst
              (λ (o : Option Bytes). Recovers o (accept st w (some file) r).1.witness.leaf_hashes)
              (ap (λ (b : Bytes). some b) (frames-snoc rs r)
                ∙ sym (accept-store st w (some file) r))
              (Recovers-whole (rs ++ r ∷ []) r _ (All-snoc rs r readable i) i (
                ap (λ (x : Witness). x.leaf_hashes) (append_all-snoc new rs r)
                ∙ append-leaves (append_all new rs) r
                ∙ ap (λ (l : List Digest). l ++ hash_leaf (enc.receipt_bytes r) ∷ [])
                    (s.leaves ∙ sym (root-leaves st.witness))
                ∙ sym (accept-leaves st w (some file) r))))
      current_submission (some n) t h =
          subst
            (λ (x : Result ApiError SubmitResponse × AppState).
              Recovers x.1.store x.1.witness.leaf_hashes)
            (sym (submit_failed st r (frames rs) n h s.file i.fits))
            (Recovers-torn rs r n (root st.witness).1.leaf_hashes readable i (t n refl)
              (s.leaves ∙ sym (root-leaves st.witness)))
