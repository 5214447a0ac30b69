-- ===== src/Chain/Verify.antt =====
-- core/chain/src/lib.rs: `issue`, `from_root`, `attenuate` and `verify`.
use index_one.Base.{
  ℕ, ◌+◌, not, List, [], ◌∷◌, ◌++◌, ltb, Result, ok, err, ◌>>=◌, guard, map_err, ◌==◌, ◌!=◌, Text,
  is_blank, nat_eq, list_eq, option_eq, ◌>>◌,
}
use index_one.Crypto.{PublicKey, public_key_eq, CryptoError, Primitives, Signer, verify_signature}
use index_one.Chain.Scope.{
  Scope, ChainError, scope_widened, depth_exceeded, missing_purpose, broken_hash_link,
  signature_invalid, wrong_signer, principal_mismatch, root_key_mismatch, crypto, is_narrowing_of,
}
use index_one.Chain.Blocks.{
  Principal, principal_eq, RootBlock, DelegationBlock, Chain, ChainEncoding, Tail, root_tail,
  block_tail, tail,
}

module _ ⦃prim : Primitives⦄ ⦃enc : ChainEncoding⦄ where
  -- The `expect` on the signature is an error here.
  unfoldable pub issue : Signer → Principal → Scope → Result CryptoError Chain
  issue signer principal scope = do
    let key = signer.public_key
    signature ← signer.sign (enc.root_payload principal key scope)
    ok (record {
      root = record {
        principal = principal;
        principal_key = key;
        scope = scope;
        signature = signature;
      };
      delegations = [];
    })

  abbrev pub check_root : RootBlock → Result ChainError (Unit {0})
  check_root root = do
    valid ← map_err crypto (
        verify_signature (enc.root_payload root.principal root.principal_key root.scope)
          root.signature root.principal_key)
    guard valid (signature_invalid 0)

  unfoldable pub from_root : RootBlock → Result ChainError Chain
  from_root root = do check_root root; ok (record { root = root; delegations = [] })

  -- The block that `attenuate` appends, or the reason why it appends none.
  unfoldable pub next_block :
      Tail → Signer → Principal → PublicKey → Scope → Text → Result ChainError DelegationBlock
  next_block t signer to to_key new_scope purpose = do
    guard (not (is_blank purpose)) missing_purpose
    guard (signer.public_key == t.key) wrong_signer
    guard (t.scope.max_depth != 0) depth_exceeded
    is_narrowing_of new_scope t.scope
    guard (ltb new_scope.max_depth t.scope.max_depth) scope_widened
    signature ←
        map_err crypto (
          signer.sign (enc.delegation_payload t.principal t.key to to_key new_scope purpose t.hash))
    ok (record {
      from = t.principal;
      from_key = t.key;
      to = to;
      to_key = to_key;
      scope = new_scope;
      purpose = purpose;
      prev_block_hash = t.hash;
      signature = signature;
    })

  -- The chain is changed in place: the result comes with the chain as it is left.
  unfoldable pub attenuate :
      Chain → Signer → Principal → PublicKey → Scope → Text → Result ChainError (Unit {0}) × Chain
  attenuate c signer to to_key new_scope purpose =
      elim (next_block (tail c) signer to to_key new_scope purpose) [
        | err e ↦ (err e, c)
        | ok block ↦ (ok tt, record c { delegations = c.delegations ++ block ∷ [] })
      ]

  -- The body of the loop of `verify`, at the block with this index.
  unfoldable pub check_block : Tail → ℕ → DelegationBlock → Result ChainError Tail
  check_block prev block_index block = do
    guard (block.from_key == prev.key) wrong_signer
    guard (block.from == prev.principal) principal_mismatch
    guard (block.prev_block_hash == prev.hash) broken_hash_link
    guard (not (is_blank block.purpose)) missing_purpose
    guard (prev.scope.max_depth != 0) depth_exceeded
    is_narrowing_of block.scope prev.scope
    guard (ltb block.scope.max_depth prev.scope.max_depth) scope_widened
    valid ← map_err crypto (
        verify_signature
          (enc.delegation_payload block.from block.from_key block.to block.to_key block.scope
            block.purpose block.prev_block_hash)
          block.signature block.from_key)
    guard valid (signature_invalid block_index)
    ok (block_tail block)

  unfoldable pub check_blocks : Tail → ℕ → List DelegationBlock → Result ChainError Tail
  check_blocks prev block_index [] = ok prev
  check_blocks prev block_index (block ∷ blocks) =
      check_block prev block_index block >>= λ next. check_blocks next (block_index + 1) blocks

  unfoldable pub verify : Chain → PublicKey → Result ChainError Scope
  verify c root_key = do
    guard (c.root.principal_key == root_key) root_key_mismatch
    check_root c.root
    last ← check_blocks (root_tail c.root) 1 c.delegations
    ok last.scope
