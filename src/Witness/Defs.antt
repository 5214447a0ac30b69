-- ===== src/Witness/Defs.antt =====
-- core/witness/src/lib.rs: the data of the log and its domain-separated hashes. A `Digest` is the
-- 32 bytes of a `[u8; 32]`.
use index_one.Base.{ℕ, ◌/◌, ◌%◌, Bool, List, [], ◌∷◌, ◌++◌, length, Bytes, Text, codes}
use index_one.Crypto.{Signature, signature_eq, Primitives}

abbrev pub Digest : Type 0
Digest = List ℕ

pub record ActionReceipt : Type 0 where
  pub chain_digest : Digest
  pub action_digest : Digest
  pub nonce : Digest
  pub prev_root : Digest

pub record PathStep : Type 0 where
  pub sibling : Digest
  pub sibling_is_left : Bool

pub record InclusionProof : Type 0 where
  pub leaf_index : ℕ
  pub tree_size : ℕ
  pub path : List PathStep

pub record ConsistencyProof : Type 0 where
  pub nodes : List Digest

pub record SignedTreeHead : Type 0 where
  pub tree_size : ℕ
  pub root : Digest
  pub signature : Signature

-- Code that is not the repository's: `serde_jcs::to_vec` of a receipt, and of the pair of a tree
-- size and a root.
pub record WitnessEncoding : Type 0 where
  pub receipt_bytes : ActionReceipt → Bytes
  pub head_bytes : ℕ → Digest → Bytes

-- `u64::to_be_bytes`
abbrev pub u64_be : ℕ → Bytes
u64_be n =
    n / 72057594037927936 % 256
    ∷ n / 281474976710656 % 256
    ∷ n / 1099511627776 % 256
    ∷ n / 4294967296 % 256
    ∷ n / 16777216 % 256
    ∷ n / 65536 % 256
    ∷ n / 256 % 256
    ∷ n % 256
    ∷ []

-- The bytes of "indexone-witness/action-digest/v1".
abbrev pub action_digest_domain : Bytes
action_digest_domain = codes "indexone-witness/action-digest/v1"

module _ ⦃prim : Primitives⦄ where
  -- LEAF_PREFIX = 0x00, NODE_PREFIX = 0x01
  unfoldable pub hash_leaf : Bytes → Digest
  hash_leaf data' = prim.blake3 (0 ∷ data')

  unfoldable pub hash_node : Digest → Digest → Digest
  hash_node left right = prim.blake3 (1 ∷ (left ++ right))

  unfoldable pub empty_root : Digest
  empty_root = hash_leaf []

  -- `purpose.len()` counts the bytes of the text.
  unfoldable pub bind_action : Text → Digest → Digest
  bind_action purpose params_digest =
      prim.blake3 (action_digest_domain ++ (u64_be (length purpose) ++ (purpose ++ params_digest)))
