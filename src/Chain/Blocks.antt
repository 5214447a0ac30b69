-- ===== src/Chain/Blocks.antt =====
-- core/chain/src/lib.rs: the blocks of a chain, its canonical bytes and its tail.
use index_one.Base.{
  ◌≡◌, ◌↔◌, Bool, true, ◌&&◌, Option, none, some, List, arith, last?, PartialEq, ◌==◌, ==_iff,
  Bytes, Text, nat_eq, list_eq, option_eq,
}
use index_one.Crypto.{PublicKey, public_key_eq, Signature, signature_eq, Primitives}
use index_one.Chain.Scope.{Scope}

pub record Principal : Type 0 where
  pub id : Text
  pub display_name : Text

abbrev pub principal_beq : Principal → Principal → Bool
principal_beq a b = a.id == b.id && a.display_name == b.display_name

pub principal_beq_iff : (a b : Principal) → (principal_beq a b ≡ true) ↔ (a ≡ b)
principal_beq_iff a b = ground (arith, ==_iff a.id b.id, ==_iff a.display_name b.display_name)

instance abbrev pub principal_eq : PartialEq Principal
principal_eq = record { eq = principal_beq; eq_iff = principal_beq_iff }

pub record RootBlock : Type 0 where
  pub principal : Principal
  pub principal_key : PublicKey
  pub scope : Scope
  pub signature : Signature

pub record DelegationBlock : Type 0 where
  pub from : Principal
  pub from_key : PublicKey
  pub to : Principal
  pub to_key : PublicKey
  pub scope : Scope
  pub purpose : Text
  pub prev_block_hash : Bytes
  pub signature : Signature

pub record Chain : Type 0 where
  pub root : RootBlock
  pub delegations : List DelegationBlock

-- Code that is not the repository's: `serde_jcs::to_vec` at each type that it is called with. The
-- two payloads are tuples.
pub record ChainEncoding : Type 0 where
  pub root_payload : Principal → PublicKey → Scope → Bytes
  pub delegation_payload :
      Principal → PublicKey → Principal → PublicKey → Scope → Text → Bytes → Bytes
  pub root_bytes : RootBlock → Bytes
  pub delegation_bytes : DelegationBlock → Bytes
  pub chain_bytes : Chain → Bytes

-- What the next hop continues from: the scope to narrow, the key to sign with, the principal to be
-- named as `from`, and the hash to link to.
pub record Tail : Type 0 where
  pub scope : Scope
  pub key : PublicKey
  pub principal : Principal
  pub hash : Bytes

-- The public key of the party at the end of the chain.
abbrev pub last_key : PublicKey → Option DelegationBlock → PublicKey
last_key root_key none = root_key
last_key root_key (some last) = last.to_key

unfoldable pub executor_key : Chain → PublicKey
executor_key c = last_key c.root.principal_key (last? c.delegations)

module _ ⦃prim : Primitives⦄ ⦃enc : ChainEncoding⦄ where
  unfoldable pub root_hash : RootBlock → Bytes
  root_hash root = prim.blake3 (enc.root_bytes root)

  unfoldable pub delegation_hash : DelegationBlock → Bytes
  delegation_hash block = prim.blake3 (enc.delegation_bytes block)

  abbrev pub root_tail : RootBlock → Tail
  root_tail root = record {
    scope = root.scope;
    key = root.principal_key;
    principal = root.principal;
    hash = root_hash root;
  }

  abbrev pub block_tail : DelegationBlock → Tail
  block_tail last = record {
    scope = last.scope;
    key = last.to_key;
    principal = last.to;
    hash = delegation_hash last;
  }

  abbrev pub last_tail : RootBlock → Option DelegationBlock → Tail
  last_tail root none = root_tail root
  last_tail root (some last) = block_tail last

  unfoldable pub tail : Chain → Tail
  tail c = last_tail c.root (last? c.delegations)

  unfoldable pub digest : Chain → Bytes
  digest c = prim.blake3 (enc.chain_bytes c)
