-- ===== src/Witness/Check.antt =====
-- core/witness/src/lib.rs: the stateless checks of a relying party.
use index_one.Base.{
  ℕ, zero, suc, ◌-◌, ◌/◌, ◌%◌, Bool, false, not, ◌&&◌, ◌||◌, Option, none, some, List, [], ◌∷◌, ltb,
  leb, if◌then◌else◌, length, Result, ok, err, unwrap_or, ◌==◌, nat_eq, list_eq, option_eq,
}
use index_one.Crypto.{PublicKey, Primitives, verify_signature}
use index_one.Witness.Defs.{
  Digest, ActionReceipt, PathStep, InclusionProof, ConsistencyProof, SignedTreeHead,
  WitnessEncoding, hash_leaf, hash_node,
}

abbrev pub max_proof_path : ℕ
max_proof_path = 64

pub data EquivocationError : Type 0 where
  invalid_signed_head : EquivocationError
  forked_root : ℕ → EquivocationError
  inconsistent : ℕ → ℕ → EquivocationError

module _ ⦃prim : Primitives⦄ where
  abbrev pub climb_step : Digest → PathStep → Digest
  climb_step acc step =
      if step.sibling_is_left then hash_node step.sibling acc else hash_node acc step.sibling

  -- The loop of `verify_inclusion`.
  unfoldable pub climb : Digest → List PathStep → Digest
  climb acc [] = acc
  climb acc (step ∷ path) = climb (climb_step acc step) path

  -- `while node & 1 == 1 { node >>= 1; last >>= 1 }`
  unfoldable pub strip_ones : ℕ → ℕ → ℕ → ℕ × ℕ
  strip_ones zero node last = (node, last)
  strip_ones (suc fuel) node last =
      let next = strip_ones fuel (node / 2) (last / 2) in
      if node % 2 == 1 then next else (node, last)

  -- `while last > 0`, which takes a node of the proof each time; `none` where they run out.
  unfoldable pub absorb : ℕ → ℕ → List Digest → Digest → Option (List Digest × Digest)
  absorb zero last proof new_hash = some (proof, new_hash)
  absorb (suc fuel) last [] new_hash = if last == 0 then some ([], new_hash) else none
  absorb (suc fuel) last (sibling ∷ rest) new_hash =
      let next = absorb fuel (last / 2) rest (hash_node new_hash sibling) in
      if last == 0 then some (sibling ∷ rest, new_hash) else next

  -- `while node > 0`, and then the remaining right spine: what is left of the proof, the old hash
  -- and the new one.
  unfoldable pub walk :
      ℕ → ℕ → ℕ → List Digest → Digest → Digest → Option (List Digest × Digest × Digest)
  walk zero node last proof old_hash new_hash = none
  walk (suc fuel) node last proof old_hash new_hash =
      let done : Option (List Digest × Digest × Digest) =
        elim (absorb (suc last) last proof new_hash) [
          | none ↦ none
          | some (rest, h) ↦ some (rest, old_hash, h)
        ] in
      let take_left : Option (List Digest × Digest × Digest) = elim proof [
        | [] ↦ none
        | sibling ∷ rest ↦
            walk fuel (node / 2) (last / 2) rest (hash_node sibling old_hash)
              (hash_node sibling new_hash)
      ] in
      let take_right : Option (List Digest × Digest × Digest) = elim proof [
        | [] ↦ none
        | sibling ∷ rest ↦
            walk fuel (node / 2) (last / 2) rest old_hash (hash_node new_hash sibling)
      ] in
      let skip = walk fuel (node / 2) (last / 2) proof old_hash new_hash in
      if node == 0
      then done
      else if node % 2 == 1
      then take_left
      else if ltb node last
      then take_right
      else skip

  abbrev pub agrees : Digest → Digest → Option (List Digest × Digest × Digest) → Bool
  agrees old_root new_root none = false
  agrees old_root new_root (some (rest, old_hash, new_hash)) =
      rest == [] && new_hash == new_root && old_hash == old_root

  -- The seed: a power of two starts from the old root, any other size from the proof.
  abbrev pub seeded : Digest → ℕ → ℕ → List Digest → Option (List Digest × Digest × Digest)
  seeded old_root node last proof =
      let from_proof : Option (List Digest × Digest × Digest) = elim proof [
        | [] ↦ none
        | seed ∷ rest ↦ walk (suc node) node last rest seed seed
      ] in
      let from_root = walk (suc node) node last proof old_root old_root in
      if ltb 0 node then from_proof else from_root

  unfoldable pub verify_consistency : Digest → Digest → ConsistencyProof → ℕ → ℕ → Bool
  verify_consistency old_root new_root proof old_size new_size =
      let walked =
        (let (node, last) = strip_ones old_size (old_size - 1) (new_size - 1) in
          agrees old_root new_root (seeded old_root node last proof.nodes)) in
      if ltb new_size old_size
      then false
      else if old_size == new_size
      then proof.nodes == [] && old_root == new_root
      else if old_size == 0
      then proof.nodes == []
      else walked

module _ ⦃prim : Primitives⦄ ⦃enc : WitnessEncoding⦄ where
  unfoldable pub verify_inclusion : ActionReceipt → InclusionProof → Digest → Bool
  verify_inclusion receipt proof root =
      if leb proof.tree_size proof.leaf_index || ltb max_proof_path (length proof.path)
      then false
      else climb (hash_leaf (enc.receipt_bytes receipt)) proof.path == root

  unfoldable pub verify_signed_head : SignedTreeHead → PublicKey → Bool
  verify_signed_head sth log_key =
      unwrap_or (verify_signature (enc.head_bytes sth.tree_size sth.root) sth.signature log_key)
        false

  abbrev reconcile_sizes :
      SignedTreeHead
      → SignedTreeHead
      → Option ConsistencyProof
      → Result EquivocationError (Unit {0})
  reconcile_sizes small large none = err (inconsistent small.tree_size large.tree_size)
  reconcile_sizes small large (some proof) =
      if verify_consistency small.root large.root proof small.tree_size large.tree_size
      then ok tt
      else err (inconsistent small.tree_size large.tree_size)

  unfoldable pub reconcile_heads :
      SignedTreeHead
      → SignedTreeHead
      → PublicKey
      → Option ConsistencyProof
      → Result EquivocationError (Unit {0})
  reconcile_heads a b log_key proof =
      if not (verify_signed_head a log_key) || not (verify_signed_head b log_key)
      then err invalid_signed_head
      else if a.tree_size == b.tree_size
      then (if a.root == b.root then ok tt else err (forked_root a.tree_size))
      else if ltb a.tree_size b.tree_size
      then reconcile_sizes a b proof
      else reconcile_sizes b a proof
