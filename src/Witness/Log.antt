-- ===== src/Witness/Log.antt =====
-- core/witness/src/lib.rs: `Witness` and its methods. Each reading method comes with the witness as
-- it leaves it, since it may fill the cache.
use index_one.Base.{
  ℕ, suc, true, ◌&&◌, ◌||◌, Option, none, some, List, [], ◌∷◌, ◌++◌, ltb, leb, if◌then◌else◌,
  length, Result, ok, ◌!=◌, nat_eq, list_eq, option_eq, ◌>>=◌,
}
use index_one.Crypto.{CryptoError, Primitives, Signer}
use index_one.Witness.Defs.{
  Digest, ActionReceipt, InclusionProof, ConsistencyProof, SignedTreeHead, WitnessEncoding,
  hash_leaf,
}
use index_one.Witness.Tree.{Cache, subtree_of, subtree_path, subproof}

pub record Witness : Type 0 where
  pub leaf_hashes : List Digest
  pub subtree_cache : Cache

abbrev pub new : Witness
new = record { leaf_hashes = []; subtree_cache = [] }

-- `len`
abbrev pub size : Witness → ℕ
size w = length w.leaf_hashes

-- A result, and the witness with the cache that the computation left.
abbrev pub keep {ℓ} : {A : Type ℓ} → Witness → A × Cache → A × Witness
keep w (a, c) = (a, record w { subtree_cache = c })

module _ ⦃prim : Primitives⦄ where
  unfoldable pub root : Witness → Digest × Witness
  root w = keep w (subtree_of w.leaf_hashes 0 (size w) w.subtree_cache)

  unfoldable pub inclusion_proof : Witness → ℕ → Option InclusionProof × Witness
  inclusion_proof w index =
      if leb (size w) index
      then (none, w)
      else (let (path, c) =
            subtree_path (suc (size w)) w.leaf_hashes 0 (size w) index w.subtree_cache in
          keep w (some (record { leaf_index = index; tree_size = size w; path = path }), c))

  unfoldable pub consistency_proof : Witness → ℕ → ℕ → Option ConsistencyProof × Witness
  consistency_proof w old_size new_size =
      let walked =
        (let (nodes, c) =
            subproof (suc new_size) w.leaf_hashes old_size 0 new_size true [] w.subtree_cache in
          keep w (some (record { nodes = nodes }), c)) in
      if new_size != size w || ltb new_size old_size
      then (none, w)
      else if old_size != 0 && old_size != new_size
      then walked
      else (some (record { nodes = [] }), w)

module _ ⦃prim : Primitives⦄ ⦃enc : WitnessEncoding⦄ where
  unfoldable pub append : Witness → ActionReceipt → ℕ × Witness
  append w receipt = (
    size w,
    record w { leaf_hashes = w.leaf_hashes ++ hash_leaf (enc.receipt_bytes receipt) ∷ [] },
  )

  -- The `expect` on the signature is an error here.
  unfoldable pub signed_head : Witness → Signer → Result CryptoError SignedTreeHead × Witness
  signed_head w signer =
      let (r, w') = root w in
      (
        (do
          signature ← signer.sign (enc.head_bytes (size w) r)
          ok (record { tree_size = size w; root = r; signature = signature })),
        w',
      )
