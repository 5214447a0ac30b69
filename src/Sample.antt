-- ===== src/Sample.antt =====
-- Concrete parameters for the tests: a hash that keeps 32 bytes, a signature scheme that repeats
-- the key and the payload, encodings that join fields, and signers, scopes and receipts made of them.
pub mod Length
pub mod Hex
use index_one.Base.{
  ℕ, zero, suc, true, none, some, List, [], ◌∷◌, ◌++◌, Bytes, Text, ok, ◌==◌, nat_eq, list_eq,
  option_eq,
}
use index_one.Crypto.{ed25519, PublicKey, Signature, Primitives, Signer}
use index_one.Chain.{Principal, RootBlock, DelegationBlock, Chain, ChainEncoding}
use index_one.Chain.Scope.{Scope, Permission, amount_max}
use index_one.Attestation.{AttestationEncoding}
use index_one.Witness.{ActionReceipt, WitnessEncoding}

-- The first bytes, or zeros behind those that are there.
abbrev pub fixed : ℕ → Bytes → Bytes
fixed zero x = []
fixed (suc n) [] = 0 ∷ fixed n []
fixed (suc n) (b ∷ x) = b ∷ fixed n x

instance abbrev pub sample : Primitives
sample = record {
  blake3 = fixed 32;
  dalek_key = λ key. true;
  dalek_verify = λ key payload sig. sig == fixed 64 (key ++ payload);
  fips_key = λ key. true;
  fips_verify = λ key payload sig. sig == fixed 4627 (key ++ payload);
}

abbrev pub key_of : ℕ → PublicKey
key_of seed = record { algorithm = ed25519; bytes = fixed 32 (seed ∷ []) }

abbrev pub signed_by : ℕ → Bytes → Signature
signed_by seed payload = record {
  algorithm = ed25519;
  bytes = fixed 64 (fixed 32 (seed ∷ []) ++ payload);
}

abbrev pub signer_of : ℕ → Signer
signer_of seed = record {
  algorithm = ed25519;
  public_key = key_of seed;
  sign = λ payload. ok (signed_by seed payload);
}

instance abbrev pub sample_chain : ChainEncoding
sample_chain = record {
  root_payload = λ principal key scope. principal.id ++ key.bytes;
  delegation_payload =
      λ from from_key to to_key scope purpose prev. purpose ++ (to.id ++ from.id) ++ prev;
  root_bytes = λ root. root.principal.id ++ root.signature.bytes;
  delegation_bytes = λ block. block.purpose ++ block.signature.bytes;
  chain_bytes = λ c. c.root.principal.id;
}

abbrev pub party : ℕ → Principal
party n = record { id = n ∷ []; display_name = n ∷ [] }

-- To pay at most this amount, through at most this many hops.
abbrev pub paying : ℕ → ℕ → Scope
paying amount depth = record {
  permissions = record { action = 112 ∷ []; constraints = amount_max amount ∷ [] } ∷ [];
  budget = some amount;
  currency = some (36 ∷ []);
  max_depth = depth;
  expires_at = 1000;
}

instance abbrev pub sample_witness : WitnessEncoding
sample_witness = record {
  receipt_bytes = λ r. r.chain_digest ++ r.nonce;
  head_bytes = λ size root. size ∷ root;
}

abbrev pub receipt_of : ℕ → ActionReceipt
receipt_of n = record { chain_digest = n ∷ []; action_digest = []; nonce = n ∷ []; prev_root = [] }

instance abbrev pub sample_attestation : AttestationEncoding
sample_attestation = record {
  signing_payload = λ chain_digest requested outcome root inclusion attester key role.
      outcome ++ (attester.id ++ chain_digest);
}
