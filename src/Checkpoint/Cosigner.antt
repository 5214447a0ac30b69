-- ===== src/Checkpoint/Cosigner.antt =====
-- clients/checkpoint/src/lib.rs: `CosigningWitness`, and the quorum of a relying party.
use index_one.Checkpoint.Note.{
  NotePrimitives, Checkpoint, checkpoint_eq, note_body, signature_line, verify_checkpoint,
}
use index_one.Base.{
  Text, ℕ, zero, suc, ◌+◌, Bool, not, Option, none, some, List, [], ◌∷◌, ltb, leb, if◌then◌else◌,
  Result, err, map_err, ◌==◌, ◌!=◌, Bytes, nat_eq, list_eq, option_eq,
}
use index_one.Crypto.{Primitives, PublicKey, Signer, CryptoError}
use index_one.Witness.{Digest, ConsistencyProof, verify_consistency}

-- `panicked` is the `expect` on a signature.
pub data CosignError : Type 0 where
  bad_log_signature inconsistent_proof : CosignError
  size_mismatch : ℕ → CosignError
  rollback : ℕ → ℕ → CosignError
  panicked : CryptoError → CosignError

pub record CosigningWitness : Type 0 where
  pub signer : Signer
  pub key_name : Text
  pub log_origin : Text
  pub log_key : PublicKey
  pub seen : Option (ℕ × Digest)

abbrev pub new_cosigner : Signer → Text → Text → PublicKey → CosigningWitness
new_cosigner signer key_name log_origin log_key = record {
  signer = signer;
  key_name = key_name;
  log_origin = log_origin;
  log_key = log_key;
  seen = none;
}

abbrev zeros : ℕ → Bytes
zeros zero = []
zeros (suc n) = 0 ∷ zeros n

-- `self.seen.unwrap_or((0, [0u8; 32]))`
abbrev pub last_seen : Option (ℕ × Digest) → ℕ × Digest
last_seen none = (0, zeros 32)
last_seen (some view) = view

unfoldable pub last_size : CosigningWitness → ℕ
last_size w = (last_seen w.seen).0

module _ ⦃np : NotePrimitives⦄ ⦃prim : Primitives⦄ where
  -- Whether the proof shows that the checkpoint extends what the witness last cosigned.
  unfoldable pub extends_view : ℕ × Digest → Checkpoint → ConsistencyProof → Bool
  extends_view (our_size, our_root) cp consistency =
      if our_size == 0
      then consistency.nodes == []
      else verify_consistency our_root cp.root consistency our_size cp.size

  abbrev pub line_over : CosigningWitness → Option Text → Result CosignError Text
  line_over w none = err bad_log_signature
  line_over w (some body) = map_err panicked (signature_line body w.signer w.key_name)

  -- What follows the check of the log's signature.
  abbrev pub add_verified :
      CosigningWitness
      → Text
      → ℕ
      → ConsistencyProof
      → Option Checkpoint
      → Result CosignError Text × CosigningWitness
  add_verified w note old_size consistency none = (err bad_log_signature, w)
  add_verified w note old_size consistency (some cp) =
      let our_size = (last_seen w.seen).0 in
      if old_size != our_size
      then (err (size_mismatch our_size), w)
      else if ltb cp.size our_size
      then (err (rollback our_size cp.size), w)
      else if not (extends_view (last_seen w.seen) cp consistency)
      then (err inconsistent_proof, w)
      else (line_over w (note_body note), record w { seen = some (cp.size, cp.root) })

  unfoldable pub add_checkpoint :
      CosigningWitness → Text → ℕ → ConsistencyProof → Result CosignError Text × CosigningWitness
  add_checkpoint w note old_size consistency =
      add_verified w note old_size consistency (verify_checkpoint note w.log_origin w.log_key)

  -- The loop of `verify_quorum`, with the checkpoint agreed on and the count so far; `none` is the
  -- early return at a second view.
  unfoldable pub tally :
      Text → List (Text × PublicKey) → Option Checkpoint → ℕ → Option (Option Checkpoint × ℕ)
  tally note [] agreed count = some (agreed, count)
  tally note ((name, key) ∷ witnesses) agreed count = elim (verify_checkpoint note name key) [
    | none ↦ tally note witnesses agreed count
    | some cp ↦ elim agreed [
      | none ↦ tally note witnesses (some cp) (count + 1)
      | some existing ↦
          let next = tally note witnesses (some existing) (count + 1) in
          if existing != cp then none else next
    ]
  ]

  abbrev pub decided : ℕ → Option (Option Checkpoint × ℕ) → Option Checkpoint
  decided threshold none = none
  decided threshold (some (agreed, count)) = if leb threshold count then agreed else none

  unfoldable pub verify_quorum : Text → List (Text × PublicKey) → ℕ → Option Checkpoint
  verify_quorum note witnesses threshold = decided threshold (tally note witnesses none 0)
