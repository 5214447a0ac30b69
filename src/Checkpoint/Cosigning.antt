-- ===== src/Checkpoint/Cosigning.antt =====
-- When a witness cosigns.
use index_one.Checkpoint.Note.{NotePrimitives, Checkpoint, note_body, verify_checkpoint}
use index_one.Checkpoint.Cosigner.{
  CosignError, CosigningWitness, last_seen, last_size, extends_view, line_over, add_checkpoint,
}
use index_one.Base.{Text, ℕ, ◌≤◌, ◌≡◌, true, some, err, nat_eq, list_eq, option_eq}
use index_one.Crypto.{Primitives}
use index_one.Witness.{ConsistencyProof}

module _ ⦃np : NotePrimitives⦄ ⦃prim : Primitives⦄ where
  -- The log has signed the checkpoint, the client knows the size last cosigned, the checkpoint is no
  -- smaller, and the proof shows that it extends what was last cosigned.
  pub record MayCosign (w : CosigningWitness) (note : Text) (old_size : ℕ)
      (consistency : ConsistencyProof) (cp : Checkpoint) : Type 0 where
    pub signed : verify_checkpoint note w.log_origin w.log_key ≡ some cp
    pub agreed : old_size ≡ last_size w
    pub grows : last_size w ≤ cp.size
    pub extends : extends_view (last_seen w.seen) cp consistency ≡ true

  -- The two outcomes of a call.
  abbrev pub Cosigns : CosigningWitness → Text → ℕ → ConsistencyProof → Type 0
  Cosigns w note old_size consistency =
      (cp : Checkpoint) × MayCosign w note old_size consistency cp
      × (add_checkpoint w note old_size consistency
          ≡ (line_over w (note_body note), record w { seen = some (cp.size, cp.root) }))

  abbrev pub Refuses : CosigningWitness → Text → ℕ → ConsistencyProof → Type 0
  Refuses w note old_size consistency =
      ((e : CosignError) × (add_checkpoint w note old_size consistency ≡ (err e, w)))
      × ((cp : Checkpoint) → MayCosign w note old_size consistency cp → ⊥)
