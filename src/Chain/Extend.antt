-- ===== src/Chain/Extend.antt =====
-- A chain that is issued verifies, and so does a chain that is extended by `attenuate`.
use index_one.Base.{
  ◌≡◌, refl, sym, not, List, [], ◌∷◌, ◌++◌, ltb, last?, ok, map_err, bind_then, guard_then,
  unit_then, ◌==◌, ◌!=◌, Text, is_blank, nat_eq, list_eq, option_eq, subst, inl, inr, true, arith,
  ok-injective, map_err-eq-ok, ==_iff, Result-cases, last?-append, ltb→lt, ◌<◌, false, is_ok,
  lt→ltb,
}
use index_one.Crypto.{
  PublicKey, public_key_eq, Signature, Primitives, Signer, verify_signature, IsGenuine,
}
use index_one.Chain.Scope.{
  Scope, is_narrowing_of, missing_purpose, wrong_signer, depth_exceeded, scope_widened, crypto,
}
use index_one.Chain.Scope.Order.{Narrows, is_narrowing_of_iff}
use index_one.Chain.Blocks.{
  Principal, principal_eq, RootBlock, DelegationBlock, Chain, ChainEncoding, Tail, root_tail,
  block_tail, tail, executor_key, last_tail,
}
use index_one.Chain.Verify.{issue, next_block, attenuate, verify}
use index_one.Chain.Spec.{IsHop, Carries, IsAuthorized-of_ok, IsAuthorized-ok}

module _ ⦃prim : Primitives⦄ ⦃enc : ChainEncoding⦄ where
  -- The tail behind a list of blocks.
  abbrev after : Tail → List DelegationBlock → Tail
  after prev [] = prev
  after prev (block ∷ blocks) = after (block_tail block) blocks

  after-last? :
      (prev : Tail) (root : RootBlock) (b : DelegationBlock) (blocks : List DelegationBlock)
      → after prev (b ∷ blocks) ≡ last_tail root (last? (b ∷ blocks))
  after-last? prev root b [] = refl
  after-last? prev root b (b' ∷ blocks) = after-last? (block_tail b) root b' blocks

  tail-eq-after : (c : Chain) → tail c ≡ after (root_tail c.root) c.delegations
  unfolding tail
  tail-eq-after c = go c.root c.delegations
    where
      go :
          (root : RootBlock) (bs : List DelegationBlock)
          → last_tail root (last? bs) ≡ after (root_tail root) bs
      go root [] = refl
      go root (b ∷ bs) = sym (after-last? (root_tail root) root b bs)

  Carries-append :
      (prev : Tail) (blocks : List DelegationBlock) (s : Scope) (block : DelegationBlock)
      → Carries prev blocks s
      → IsHop (after prev blocks) block
      → Carries prev (blocks ++ block ∷ []) block.scope
  Carries-append prev [] s block h hop = (hop, refl)
  Carries-append prev (b ∷ blocks) s block h hop =
      (h.0, Carries-append (block_tail b) blocks s block h.1 hop)

  -- A chain that a genuine signer issues verifies under the signer's key, with the issued scope.
  pub verify-issue :
      (signer : Signer) (principal : Principal) (scope : Scope) (c : Chain)
      → IsGenuine signer
      → issue signer principal scope ≡ ok c
      → verify c signer.public_key ≡ ok scope
  unfolding issue
  verify-issue signer principal scope c genuine h =
      let (sig, signed, e) =
        bind_then (signer.sign (enc.root_payload principal signer.public_key scope)) _ h in
      subst (λ (x : Chain). verify x signer.public_key ≡ ok scope) (ok-injective e)
        (IsAuthorized-ok _ signer.public_key scope
          (record { anchor = refl; signed = genuine _ sig signed; carried = refl }))

  next_block-IsHop :
      (t : Tail) (signer : Signer) (to : Principal) (to_key : PublicKey) (new_scope : Scope)
      (purpose : Text) (block : DelegationBlock)
      → IsGenuine signer
      → next_block t signer to to_key new_scope purpose ≡ ok block
      → IsHop t block × (block.scope ≡ new_scope) × (block.to_key ≡ to_key)
  unfolding next_block
  next_block-IsHop t signer to to_key new_scope purpose block genuine h =
      let (stated, h1) = guard_then (not (is_blank purpose)) missing_purpose _ h in
      let (key, h2) = guard_then (signer.public_key == t.key) wrong_signer _ h1 in
      let (_, h3) = guard_then (t.scope.max_depth != 0) depth_exceeded _ h2 in
      let (narrows, h4) = unit_then (is_narrowing_of new_scope t.scope) _ h3 in
      let (depth, h5) = guard_then (ltb new_scope.max_depth t.scope.max_depth) scope_widened _ h4 in
      let payload = enc.delegation_payload t.principal t.key to to_key new_scope purpose t.hash in
      let (sig, signed, h6) = bind_then (map_err crypto (signer.sign payload)) _ h5 in
      let same : signer.public_key ≡ t.key = (==_iff signer.public_key t.key).0 key in
      let holds = genuine payload sig (map_err-eq-ok crypto (signer.sign payload) signed) in
      subst (λ (b : DelegationBlock). IsHop t b × (b.scope ≡ new_scope) × (b.to_key ≡ to_key))
        (ok-injective h6)
        (
          record {
            signer = refl;
            principal = refl;
            link = refl;
            purpose = ground (arith, stated);
            narrows = (is_narrowing_of_iff new_scope t.scope).0 narrows;
            depth = ltb→lt _ _ depth;
            signed = subst (λ (k : PublicKey). verify_signature payload sig k ≡ ok true) same holds;
          },
          refl,
          refl,
        )

  -- What `attenuate` leaves: on an error the chain as it was, else the chain and one more block.
  attenuate_cases :
      (c : Chain) (signer : Signer) (to : Principal) (to_key : PublicKey) (new_scope : Scope)
      (purpose : Text) (c' : Chain)
      → attenuate c signer to to_key new_scope purpose ≡ (ok tt, c')
      → (block : DelegationBlock) × (next_block (tail c) signer to to_key new_scope purpose
          ≡ ok block)
        × (c' ≡ record c { delegations = c.delegations ++ block ∷ [] })
  unfolding attenuate
  attenuate_cases c signer to to_key new_scope purpose c' h =
      elim (Result-cases (next_block (tail c) signer to to_key new_scope purpose)) [
        | inl (block, e) ↦ (block, e, ground (arith, h, e))
        | inr (e, bad) ↦ absurd (ground (arith, h, bad))
      ]

  -- Where a verified chain is extended by a genuine signer and `attenuate` returns `Ok`, the new
  -- chain verifies under the same root key, its effective scope is the new scope, and its executor
  -- is the key that was delegated to.
  pub attenuate-verify :
      (c : Chain) (root_key : PublicKey) (s : Scope) (signer : Signer) (to : Principal)
      (to_key : PublicKey) (new_scope : Scope) (purpose : Text) (c' : Chain)
      → verify c root_key ≡ ok s
      → IsGenuine signer
      → attenuate c signer to to_key new_scope purpose ≡ (ok tt, c')
      → (verify c' root_key ≡ ok new_scope) × (executor_key c' ≡ to_key)
  unfolding executor_key
  attenuate-verify c root_key s signer to to_key new_scope purpose c' verified genuine h =
      let (block, made, e) = attenuate_cases c signer to to_key new_scope purpose c' h in
      let (hop, same_scope, same_key) =
        next_block-IsHop (tail c) signer to to_key new_scope purpose block genuine made in
      let a = IsAuthorized-of_ok c root_key s verified in
      let grown : Chain = record c { delegations = c.delegations ++ block ∷ [] } in
      let carried =
        Carries-append (root_tail c.root) c.delegations s block a.carried
          (subst (λ (t : Tail). IsHop t block) (tail-eq-after c) hop) in
      subst (λ (x : Chain). (verify x root_key ≡ ok new_scope) × (executor_key x ≡ to_key)) (sym e)
        (
          subst (λ (x : Scope). verify grown root_key ≡ ok x) same_scope
              (IsAuthorized-ok grown root_key block.scope
                (record { anchor = a.anchor; signed = a.signed; carried = carried })),
          rw (last?-append c.delegations block) same_key,
        )

  -- The conditions under which a hop may be appended.
  pub record MayExtend (t : Tail) (signer : Signer) (new_scope : Scope) (purpose : Text)
      : Type 0 where
    pub stated : is_blank purpose ≡ false
    pub key : signer.public_key ≡ t.key
    pub narrows : Narrows new_scope t.scope
    pub depth : new_scope.max_depth < t.scope.max_depth

  MayExtend-next_block :
      (t : Tail) (signer : Signer) (to : Principal) (to_key : PublicKey) (new_scope : Scope)
      (purpose : Text) (sig : Signature)
      → signer.sign (enc.delegation_payload t.principal t.key to to_key new_scope purpose t.hash)
        ≡ ok sig
      → MayExtend t signer new_scope purpose
      → is_ok (next_block t signer to to_key new_scope purpose) ≡ true
  unfolding next_block
  MayExtend-next_block t signer to to_key new_scope purpose sig signed m =
      let positive : (t.scope.max_depth != 0) ≡ true = ground (arith, m.depth) in
      rw (
        m.stated,
        (==_iff signer.public_key t.key).1 m.key,
        positive,
        (is_narrowing_of_iff new_scope t.scope).1 m.narrows,
        lt→ltb _ _ m.depth,
        signed,
      )

  MayExtend-of_next_block :
      (t : Tail) (signer : Signer) (to : Principal) (to_key : PublicKey) (new_scope : Scope)
      (purpose : Text) (block : DelegationBlock)
      → next_block t signer to to_key new_scope purpose ≡ ok block
      → MayExtend t signer new_scope purpose
  unfolding next_block
  MayExtend-of_next_block t signer to to_key new_scope purpose block h =
      let (stated, h1) = guard_then (not (is_blank purpose)) missing_purpose _ h in
      let (key, h2) = guard_then (signer.public_key == t.key) wrong_signer _ h1 in
      let (_, h3) = guard_then (t.scope.max_depth != 0) depth_exceeded _ h2 in
      let (narrows, h4) = unit_then (is_narrowing_of new_scope t.scope) _ h3 in
      let (depth, _) = guard_then (ltb new_scope.max_depth t.scope.max_depth) scope_widened _ h4 in
      record {
        stated = ground (arith, stated);
        key = (==_iff signer.public_key t.key).0 key;
        narrows = (is_narrowing_of_iff new_scope t.scope).0 narrows;
        depth = ltb→lt _ _ depth;
      }

  -- Where the signer produces a signature, `attenuate` returns `Ok` exactly when the purpose is not
  -- blank, the signer holds the key that the tail delegated to, the scope narrows and the depth
  -- falls; in every other case it returns an error and the chain is unchanged.
  pub attenuate_iff :
      (c : Chain) (signer : Signer) (to : Principal) (to_key : PublicKey) (new_scope : Scope)
      (purpose : Text) (sig : Signature)
      → signer.sign (
          enc.delegation_payload
            (tail c).principal
            (tail c).key
            to
            to_key
            new_scope
            purpose
            (tail c).hash)
        ≡ ok sig
      → (MayExtend (tail c) signer new_scope purpose
          → (attenuate c signer to to_key new_scope purpose).0 ≡ ok tt)
        × (¬ MayExtend (tail c) signer new_scope purpose
            → (is_ok (attenuate c signer to to_key new_scope purpose).0 ≡ false)
              × ((attenuate c signer to to_key new_scope purpose).1 ≡ c))
  unfolding attenuate
  attenuate_iff c signer to to_key new_scope purpose sig signed =
      elim (Result-cases (next_block (tail c) signer to to_key new_scope purpose)) [
        | inl (block, e) ↦ (
          λ _. rw (e, attenuate),
          λ not_may. absurd (
              not_may
                (MayExtend-of_next_block (tail c) signer to to_key new_scope purpose block e)),
        )
        | inr (x, e) ↦ (
          λ may. absurd (
              ground (
                arith,
                e,
                MayExtend-next_block (tail c) signer to to_key new_scope purpose sig signed may,
              )),
          λ _. rw (e, attenuate) (refl, refl),
        )
      ]
