-- ===== src/Chain/Spec.antt =====
-- What a verified chain is, independently of the loop that checks it.
use index_one.Base.{
  ℕ, ◌<◌, ◌≡◌, true, false, List, [], ◌∷◌, ok, bind_then, ◌==◌, is_blank, nat_eq, list_eq,
  option_eq, arith, guard_then, unit_then, valid_then, ◌!=◌, ==_iff, ltb→lt, lt→ltb, ◌+◌, refl,
  subst, not, ltb, ◌≤◌, ◌↔◌, length, valid_only, Text, ap,
}
use index_one.Crypto.{PublicKey, public_key_eq, Primitives, verify_signature}
use index_one.Chain.Scope.{
  Scope, is_narrowing_of, u64_max, wrong_signer, root_key_mismatch, principal_mismatch, crypto,
  broken_hash_link, signature_invalid, missing_purpose, depth_exceeded, scope_widened,
}
use index_one.Chain.Scope.Order.{Narrows, is_narrowing_of_iff, Narrows-refl, Narrows-trans}
use index_one.Chain.Scope.Allows.{AnyAllows, permissions_narrow-Allows}
use index_one.Chain.Blocks.{
  principal_eq, DelegationBlock, Chain, ChainEncoding, Tail, root_tail, block_tail,
}
use index_one.Chain.Verify.{check_root, check_block, check_blocks, verify}

module _ ⦃prim : Primitives⦄ ⦃enc : ChainEncoding⦄ where
  -- A hop carries authority on from `prev`: it is made and signed by the party that `prev` names,
  -- linked to the block before it, for a stated purpose, within a scope that narrows.
  pub record IsHop (prev : Tail) (block : DelegationBlock) : Type 0 where
    pub signer : block.from_key ≡ prev.key
    pub principal : block.from ≡ prev.principal
    pub link : block.prev_block_hash ≡ prev.hash
    pub purpose : is_blank block.purpose ≡ false
    pub narrows : Narrows block.scope prev.scope
    pub depth : block.scope.max_depth < prev.scope.max_depth
    pub signed :
        verify_signature
          (enc.delegation_payload block.from block.from_key block.to block.to_key block.scope
            block.purpose block.prev_block_hash)
          block.signature
          block.from_key
        ≡ ok true

  -- Each block is a hop from the one before it, and the last has the scope `s`.
  abbrev pub Carries : Tail → List DelegationBlock → Scope → Type 0
  Carries prev [] s = prev.scope ≡ s
  Carries prev (block ∷ blocks) s = IsHop prev block × Carries (block_tail block) blocks s

  pub record IsAuthorized (c : Chain) (root_key : PublicKey) (s : Scope) : Type 0 where
    pub anchor : c.root.principal_key ≡ root_key
    pub signed :
        verify_signature
          (enc.root_payload c.root.principal c.root.principal_key c.root.scope)
          c.root.signature
          c.root.principal_key
        ≡ ok true
    pub carried : Carries (root_tail c.root) c.delegations s

  IsHop-of_ok :
      (prev : Tail) (i : ℕ) (block : DelegationBlock) (next : Tail)
      → check_block prev i block ≡ ok next
      → IsHop prev block × (next ≡ block_tail block)
  unfolding check_block
  IsHop-of_ok prev i block next h =
      let (signer, h1) = guard_then (block.from_key == prev.key) wrong_signer _ h in
      let (principal, h2) = guard_then (block.from == prev.principal) principal_mismatch _ h1 in
      let (link, h3) = guard_then (block.prev_block_hash == prev.hash) broken_hash_link _ h2 in
      let (purpose, h4) = guard_then (not (is_blank block.purpose)) missing_purpose _ h3 in
      let (_, h5) = guard_then (prev.scope.max_depth != 0) depth_exceeded _ h4 in
      let (narrows, h6) = unit_then (is_narrowing_of block.scope prev.scope) _ h5 in
      let (depth, h7) =
        guard_then (ltb block.scope.max_depth prev.scope.max_depth) scope_widened _ h6 in
      let (signed, h8) = valid_then crypto _ (signature_invalid i) (ok (block_tail block)) h7 in
      (
        record {
          signer = (==_iff block.from_key prev.key).0 signer;
          principal = (==_iff block.from prev.principal).0 principal;
          link = (==_iff block.prev_block_hash prev.hash).0 link;
          purpose = ground (arith, purpose);
          narrows = (is_narrowing_of_iff block.scope prev.scope).0 narrows;
          depth = ltb→lt _ _ depth;
          signed = signed;
        },
        ground (arith, h8),
      )

  IsHop-ok :
      (prev : Tail) (i : ℕ) (block : DelegationBlock)
      → IsHop prev block
      → check_block prev i block ≡ ok (block_tail block)
  unfolding check_block
  IsHop-ok prev i block h =
      let positive : (prev.scope.max_depth != 0) ≡ true = ground (arith, h.depth) in
      rw (
        (==_iff block.from_key prev.key).1 h.signer,
        (==_iff block.from prev.principal).1 h.principal,
        (==_iff block.prev_block_hash prev.hash).1 h.link,
        h.purpose,
        positive,
        (is_narrowing_of_iff block.scope prev.scope).1 h.narrows,
        lt→ltb _ _ h.depth,
        h.signed,
      )

  Carries-of_ok :
      (prev : Tail) (i : ℕ) (blocks : List DelegationBlock) (last : Tail)
      → check_blocks prev i blocks ≡ ok last
      → Carries prev blocks last.scope
  unfolding check_blocks
  Carries-of_ok prev i [] last h = ground arith
  Carries-of_ok prev i (block ∷ blocks) last h =
      let (next, first, rest) = bind_then (check_block prev i block) _ h in
      let (hop, e) = IsHop-of_ok prev i block next first in
      (
        hop,
        subst (λ (t : Tail). Carries t blocks last.scope) e
            (Carries-of_ok next (i + 1) blocks last rest),
      )

  Carries-ok :
      (prev : Tail) (i : ℕ) (blocks : List DelegationBlock) (s : Scope)
      → Carries prev blocks s
      → (last : Tail) × (check_blocks prev i blocks ≡ ok last) × (last.scope ≡ s)
  unfolding check_blocks
  Carries-ok prev i [] s h = (prev, refl, h)
  Carries-ok prev i (block ∷ blocks) s h =
      let (last, e, es) = Carries-ok (block_tail block) (i + 1) blocks s h.1 in
      (last, rw (IsHop-ok prev i block h.0) e, es)

  pub IsAuthorized-of_ok :
      (c : Chain) (root_key : PublicKey) (s : Scope)
      → verify c root_key ≡ ok s
      → IsAuthorized c root_key s
  unfolding verify
  IsAuthorized-of_ok c root_key s h =
      let (anchor, h1) = guard_then (c.root.principal_key == root_key) root_key_mismatch _ h in
      let (root_ok, h2) = unit_then (check_root c.root) _ h1 in
      let (last, blocks_ok, h3) =
        bind_then (check_blocks (root_tail c.root) 1 c.delegations) _ h2 in
      record {
        anchor = (==_iff c.root.principal_key root_key).0 anchor;
        signed = valid_only crypto _ (signature_invalid 0) root_ok;
        carried =
            subst (λ (x : Scope). Carries (root_tail c.root) c.delegations x) (ground (arith, h3))
              (Carries-of_ok (root_tail c.root) 1 c.delegations last blocks_ok);
      }

  pub IsAuthorized-ok :
      (c : Chain) (root_key : PublicKey) (s : Scope)
      → IsAuthorized c root_key s
      → verify c root_key ≡ ok s
  unfolding verify
  IsAuthorized-ok c root_key s h =
      let (last, e, es) = Carries-ok (root_tail c.root) 1 c.delegations s h.carried in
      rw ((==_iff c.root.principal_key root_key).1 h.anchor, h.signed, e, es)

  -- `Chain::verify` accepts exactly the authorized chains, and returns the scope of the last hop:
  -- the root is signed by the trusted key, and every block carries authority on from the one
  -- before it (signer, principal, hash link, purpose, narrowing, depth and signature).
  pub verify_iff :
      (c : Chain) (root_key : PublicKey) (s : Scope)
      → (verify c root_key ≡ ok s) ↔ IsAuthorized c root_key s
  verify_iff c root_key s = (IsAuthorized-of_ok c root_key s, IsAuthorized-ok c root_key s)

  Carries-Narrows :
      (prev : Tail) (blocks : List DelegationBlock) (s : Scope)
      → Carries prev blocks s
      → Narrows s prev.scope × (s.max_depth + length blocks ≤ prev.scope.max_depth)
  Carries-Narrows prev [] s h = (
    subst (λ (x : Scope). Narrows x prev.scope) h (Narrows-refl prev.scope),
    omega (arith, ap (λ (x : Scope). x.max_depth) h),
  )
  Carries-Narrows prev (block ∷ blocks) s h =
      let (n, d) = Carries-Narrows (block_tail block) blocks s h.1 in
      (Narrows-trans s block.scope prev.scope n h.0.narrows, omega (arith, h.0.depth, d))

  -- The authority at the end of a verified chain is within the root's, however many hops there are:
  -- the scope narrows the root's scope, and each hop has used up at least one level of depth.
  pub verify_attenuates :
      (c : Chain) (root_key : PublicKey) (s : Scope)
      → verify c root_key ≡ ok s
      → (is_narrowing_of s c.root.scope ≡ ok tt)
        × (s.max_depth + length c.delegations ≤ c.root.scope.max_depth)
  verify_attenuates c root_key s h =
      let (n, d) =
        Carries-Narrows (root_tail c.root) c.delegations s
          (IsAuthorized-of_ok c root_key s h).carried in
      ((is_narrowing_of_iff s c.root.scope).1 n, d)

  -- Whatever use the returned scope allows, the human root allowed: the same action at the same
  -- amount (a 64-bit number) on the same resource.
  pub verify-Allows :
      (c : Chain) (root_key : PublicKey) (s : Scope) (action : Text) (amount : ℕ) (resource : Text)
      → verify c root_key ≡ ok s
      → amount ≤ u64_max
      → AnyAllows s.permissions action amount resource
      → AnyAllows c.root.scope.permissions action amount resource
  verify-Allows c root_key s action amount resource h =
      permissions_narrow-Allows s.permissions c.root.scope.permissions action amount resource
        (Carries-Narrows (root_tail c.root) c.delegations s
          (IsAuthorized-of_ok c root_key s h).carried).0.permissions
