-- ===== src/Witness/Purpose.antt =====
-- An action digest binds its purpose and its parameters.
use index_one.Base.{◌≡◌, refl, ap, ◌⊎◌, inl, inr, ◌++◌, arith, length, length-append, Text}
use index_one.Crypto.{Primitives}
use index_one.Witness.Defs.{Digest, u64_be, bind_action, action_digest_domain}
use index_one.Witness.Collision.{Collision, same_input, append_cancel}

module _ ⦃prim : Primitives⦄ where
  -- Equal action digests bind one purpose and one digest of parameters, or they exhibit a collision
  -- of the hash function.
  pub bind_action_injective :
      (purpose : Text) (params : Digest) (purpose' : Text) (params' : Digest)
      → length params ≡ 32
      → length params' ≡ 32
      → bind_action purpose params ≡ bind_action purpose' params'
      → ((purpose ≡ purpose') × (params ≡ params')) ⊎ Collision
  unfolding bind_action
  bind_action_injective purpose params purpose' params' w w' h = elim (same_input _ _ h) [
    | inr c ↦ inr c
    | inl same ↦
        let (_, behind_domain) =
          append_cancel action_digest_domain action_digest_domain
            (u64_be (length purpose) ++ (purpose ++ params))
            (u64_be (length purpose') ++ (purpose' ++ params')) refl same in
        let (_, behind_length) =
          append_cancel (u64_be (length purpose)) (u64_be (length purpose')) (purpose ++ params)
            (purpose' ++ params') refl behind_domain in
        inl (
          append_cancel purpose purpose' params params'
            (omega (
              arith,
              length-append purpose params,
              length-append purpose' params',
              ap length behind_length,
              w,
              w',
            ))
            behind_length)
  ]
