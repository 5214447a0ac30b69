-- ===== src/RevMap/Defs.antt =====
-- core/revmap/src/lib.rs: the hashes of the tree, and the checks of a proof.
use index_one.Base.{
  ℕ, zero, suc, ◌+◌, ◌-◌, ◌/◌, ◌%◌, ◌^◌, Bool, Option, none, some, List, [], ◌∷◌, ◌++◌,
  if◌then◌else◌, length, Bytes, codes, ◌==◌, ◌!=◌, list_eq, nat_eq, option_eq,
}
use index_one.Crypto.{Primitives}
use mathlib.Core.Option.{map as option_map}

abbrev pub Hash : Type 0
Hash = Bytes

-- DEPTH
abbrev pub max_depth : ℕ
max_depth = 256

abbrev empty_leaf_domain : Bytes
empty_leaf_domain = codes "indexone-revmap/empty-leaf/v1"

-- An element of an array; the index is in range wherever the code reads one.
abbrev pub byte_at : Bytes → ℕ → ℕ
byte_at [] i = 0
byte_at (b ∷ bs) zero = b
byte_at (b ∷ bs) (suc i) = byte_at bs i

-- `(key[i / 8] >> (7 - (i % 8))) & 1`
unfoldable pub bit : Bytes → ℕ → ℕ
bit key i = byte_at key (i / 8) / 2 ^ (7 - i % 8) % 2

pub record MapProof : Type 0 where
  pub present : Bytes
  pub siblings : List Hash

module _ ⦃prim : Primitives⦄ where
  -- LEAF_TAG = 0x00, NODE_TAG = 0x01
  unfoldable pub leaf_hash : Hash → Hash
  leaf_hash key = prim.blake3 (0 ∷ key)

  unfoldable pub node_hash : Hash → Hash → Hash
  node_hash left right = prim.blake3 (1 ∷ (left ++ right))

  unfoldable pub empty_leaf : Hash
  empty_leaf = prim.blake3 empty_leaf_domain

  -- `Defaults::at_height`, an entry of the table that `Defaults::new` fills.
  unfoldable pub at_height : ℕ → Hash
  at_height zero = empty_leaf
  at_height (suc h) = let d = at_height h in node_hash d d

  unfoldable pub at_depth : ℕ → Hash
  at_depth depth = at_height (max_depth - depth)

  -- The loop of `expand` from depth `d`, over the `n` levels that are left.
  unfoldable pub expand_from : ℕ → ℕ → Bytes → List Hash → Option (List Hash)
  expand_from zero d present [] = some []
  expand_from zero d present (s ∷ rest) = none
  expand_from (suc n) d present siblings =
      let default = expand_from n (d + 1) present siblings in
      let carried : Option (List Hash) = elim siblings [
        | [] ↦ none
        | s ∷ rest ↦ option_map (λ full. s ∷ full) (expand_from n (d + 1) present rest)
      ] in
      if bit present d == 1
      then carried
      else option_map (λ full. at_height (max_depth - d - 1) ∷ full) default

  unfoldable pub expand : MapProof → Option (List Hash)
  expand proof =
      if length proof.present != 32
      then none
      else expand_from max_depth 0 proof.present proof.siblings

  -- The loop of `recompute_root`, which folds from the bottom: the siblings from `depth` down.
  unfoldable pub fold_up : Hash → Hash → ℕ → List Hash → Hash
  fold_up key claimed_leaf depth [] = claimed_leaf
  fold_up key claimed_leaf depth (sib ∷ sibs) =
      let cur = fold_up key claimed_leaf (depth + 1) sibs in
      if bit key depth == 0 then node_hash cur sib else node_hash sib cur

  unfoldable pub recompute_root : Hash → Hash → MapProof → Option Hash
  recompute_root key claimed_leaf proof =
      option_map (λ full. fold_up key claimed_leaf 0 full) (expand proof)

  unfoldable pub verify_inclusion : Hash → Hash → MapProof → Bool
  verify_inclusion root key proof = recompute_root key (leaf_hash key) proof == some root

  unfoldable pub verify_non_inclusion : Hash → Hash → MapProof → Bool
  verify_non_inclusion root key proof = recompute_root key empty_leaf proof == some root
