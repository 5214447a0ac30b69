-- ===== src/Checkpoint/History.antt =====
-- What all the cosignatures of a witness together say.
use index_one.Checkpoint.Note.{NotePrimitives, Checkpoint, verify_checkpoint}
use index_one.Checkpoint.Cosigner.{CosigningWitness, add_checkpoint}
use index_one.Base.{
  Text, ℕ, ◌≤◌, ◌<◌, ◌≡◌, Option, none, some, List, [], ◌∷◌, if◌then◌else◌, All, is_ok, nat_eq,
  list_eq, option_eq,
}
use index_one.Crypto.{Primitives}
use index_one.Witness.{Digest, ConsistencyProof}

module _ ⦃np : NotePrimitives⦄ ⦃prim : Primitives⦄ where
  -- A call: the note, the old size and the proof.
  abbrev pub Call : Type 0
  Call = Text × ℕ × ConsistencyProof

  abbrev pub after : CosigningWitness → Call → CosigningWitness
  after w (note, old_size, consistency) = (add_checkpoint w note old_size consistency).1

  -- The checkpoint that a call cosigns.
  abbrev pub cosigned : CosigningWitness → Call → Option Checkpoint
  cosigned w (note, old_size, consistency) =
      if is_ok (add_checkpoint w note old_size consistency).0
      then verify_checkpoint note w.log_origin w.log_key
      else none

  abbrev pub put_first : Option Checkpoint → List Checkpoint → List Checkpoint
  put_first none later = later
  put_first (some cp) later = cp ∷ later

  -- The checkpoints that the witness cosigns over some calls.
  unfoldable pub all_cosigned : CosigningWitness → List Call → List Checkpoint
  all_cosigned w [] = []
  all_cosigned w (call ∷ calls) = put_first (cosigned w call) (all_cosigned (after w call) calls)

  -- A later checkpoint is no smaller than a view, and at the same size has the same root.
  abbrev pub Follows : ℕ × Digest → Checkpoint → Type 0
  Follows (size, root) cp = (size ≤ cp.size) × (0 < size → cp.size ≡ size → cp.root ≡ root)

  -- Every checkpoint has no smaller size than those before it, and the root of each of the same
  -- positive size.
  abbrev pub Agree : List Checkpoint → Type 0
  Agree [] = Unit
  Agree (cp ∷ later) = All (Follows (cp.size, cp.root)) later × Agree later

  -- What a list of checkpoints is after a view.
  abbrev Good : ℕ × Digest → List Checkpoint → Type 0
  Good view cps = All (Follows view) cps × Agree cps
