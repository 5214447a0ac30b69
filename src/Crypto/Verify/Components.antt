-- ===== src/Crypto/Verify/Components.antt =====
-- What a hybrid check needs of its two components, and that two levels of calls are enough.
use index_one.Base.{
  ℕ, suc, ◌≡◌, ◌≢◌, ◌∷◌, arith, ok, Bytes, inl, inr, Bool, true, Result-cases, ◌+◌, [], bind_then,
  ap, ◌∙◌, sym, ◌==◌, nat_eq, list_eq, option_eq,
}
use native.Mathlib.Numerals.{towards_suc}
use index_one.Crypto.Defs.{hybrid, algorithm_eq, Primitives, PublicKey, Signature, Signer}
use index_one.Crypto.Framing.{Component, decode_two, tag_algorithm, read_component, frame_two}
use index_one.Crypto.Framing.RoundTrip.{decode_two-frame_two, decode_two_reads}
use index_one.Crypto.Hybrid
use index_one.Crypto.Hybrid.{component_sig, component_key}
use index_one.Crypto.Verify.{verify_levels, verify_signature, IsGenuine}

-- A component that was read is never itself a hybrid.
tag_algorithm-ne-hybrid : (t : ℕ) → tag_algorithm t ≢ ok hybrid
unfolding tag_algorithm
tag_algorithm-ne-hybrid t h = ground arith

read_component_plain :
    (input : Bytes) (c : Component) (rest : Bytes)
    → read_component input ≡ ok (c, rest)
    → c.0 ≢ hybrid
unfolding read_component
read_component_plain (t ∷ a ∷ b ∷ c ∷ d ∷ l) comp rest h e =
    let (alg, ealg, g) = bind_then (tag_algorithm t) _ h in
    tag_algorithm-ne-hybrid t (ground (arith, ealg, g, e))
read_component_plain (t ∷ a ∷ b ∷ c ∷ []) comp rest h e = cc
read_component_plain _ comp rest h e = cc

decode_two_plain :
    (input : Bytes) (c0 c1 : Component)
    → decode_two input ≡ ok (c0, c1)
    → (c0.0 ≢ hybrid) × (c1.0 ≢ hybrid)
decode_two_plain input c0 c1 h =
    let (rest, e0, e1) = decode_two_reads input c0.0 c0.1 c1.0 c1.1 h in
    (read_component_plain input c0 rest e0, read_component_plain rest c1 [] e1)

module _ ⦃prim : Primitives⦄ where
  plain_levels :
      (n m : ℕ) (payload : Bytes) (sig : Signature) (key : PublicKey)
      → sig.algorithm ≢ hybrid
      → verify_levels (suc n) payload sig key ≡ verify_levels (suc m) payload sig key
  unfolding verify_levels
  plain_levels n m payload sig key h = ground arith

  component_levels :
      (n : ℕ) (payload : Bytes) (b : Bool) (sig key : Component)
      → sig.0 ≢ hybrid
      → Hybrid.verify_component (verify_levels (suc n)) payload b sig key
        ≡ Hybrid.verify_component (verify_levels 1) payload b sig key
  unfolding Hybrid.verify_component
  component_levels n payload b sig key h =
      rw (plain_levels n 0 payload (component_sig sig) (component_key key) h)

  hybrid_levels :
      (n : ℕ) (payload sig_bytes pubkey_bytes : Bytes)
      → Hybrid.verify (verify_levels (suc n)) payload sig_bytes pubkey_bytes
        ≡ Hybrid.verify (verify_levels 1) payload sig_bytes pubkey_bytes
  unfolding Hybrid.verify
  hybrid_levels n payload sig_bytes pubkey_bytes = elim (Result-cases (decode_two sig_bytes)) [
    | inr (e, bad) ↦ rw bad
    | inl ((s0, s1), read) ↦ elim (Result-cases (decode_two pubkey_bytes)) [
      | inr (e, bad) ↦ rw (read, bad)
      | inl ((k0, k1), key_read) ↦
          let (plain0, plain1) = decode_two_plain sig_bytes s0 s1 read in
          let one = verify_levels 1 in
          rw (read, key_read, component_levels n payload true s0 k0 plain0)
            (elim (Result-cases (Hybrid.verify_component one payload true s0 k0)) [
              | inr (e, bad) ↦ rw bad
              | inl (v, first) ↦ rw first (component_levels n payload v s1 k1 plain1)
            ])
    ]
  ]

  -- The check of a signature goes two levels deep at most: more levels give the same answer.
  pub verify_levels_enough :
      (n : ℕ) (payload : Bytes) (signature : Signature) (public_key : PublicKey)
      → verify_levels (n + 2) payload signature public_key
        ≡ verify_signature payload signature public_key
  unfolding verify_levels verify_signature
  verify_levels_enough n payload signature public_key =
      simp towards_suc (ground (arith, hybrid_levels n payload signature.bytes public_key.bytes))

  -- The inversion of a round of the loop that leaves `both_valid` true.
  component-eq-true :
      (check : Hybrid.Check) (payload : Bytes) (b : Bool) (sig key : Component)
      → Hybrid.verify_component check payload b sig key ≡ ok true
      → (b ≡ true) × (check payload (component_sig sig) (component_key key) ≡ ok true)
  unfolding Hybrid.verify_component
  component-eq-true check payload b sig key h = ground arith

  hybrid_check :
      (payload : Bytes) (signature : Signature) (public_key : PublicKey)
      → signature.algorithm ≡ hybrid
      → verify_signature payload signature public_key ≡ ok true
      → (public_key.algorithm ≡ hybrid)
        × (Hybrid.verify (verify_levels 1) payload signature.bytes public_key.bytes ≡ ok true)
  unfolding verify_signature verify_levels
  hybrid_check payload signature public_key e h = ground arith

  -- A component is checked at either level alike.
  plain_signature :
      (payload : Bytes) (sig key : Component)
      → sig.0 ≢ hybrid
      → verify_signature payload (component_sig sig) (component_key key)
        ≡ verify_levels 1 payload (component_sig sig) (component_key key)
  unfolding verify_signature
  plain_signature payload sig key h =
      plain_levels 1 0 payload (component_sig sig) (component_key key) h

  -- A hybrid signature that holds was read as two components, and each of them holds by itself
  -- under the matching component of the key. The key is a hybrid key.
  pub hybrid_needs_both :
      (payload : Bytes) (signature : Signature) (public_key : PublicKey)
      → signature.algorithm ≡ hybrid
      → verify_signature payload signature public_key ≡ ok true
      → (public_key.algorithm ≡ hybrid)
        × (s0 s1 k0 k1 : Component) × (decode_two signature.bytes ≡ ok (s0, s1))
        × (decode_two public_key.bytes ≡ ok (k0, k1))
        × (verify_signature payload (component_sig s0) (component_key k0) ≡ ok true)
        × (verify_signature payload (component_sig s1) (component_key k1) ≡ ok true)
  unfolding Hybrid.verify
  hybrid_needs_both payload signature public_key e h =
      let (ek, whole) = hybrid_check payload signature public_key e h in
      let (ss, read, h1) = bind_then (decode_two signature.bytes) _ whole in
      let (ks, key_read, h2) = bind_then (decode_two public_key.bytes) _ h1 in
      let (v, first, second) =
        bind_then (Hybrid.verify_component (verify_levels 1) payload true ss.0 ks.0) _ h2 in
      let (ev, c1) = component-eq-true (verify_levels 1) payload v ss.1 ks.1 second in
      let (_, c0) =
        component-eq-true (verify_levels 1) payload true ss.0 ks.0 (first ∙ ap (λ b. ok b) ev) in
      let (plain0, plain1) = decode_two_plain signature.bytes ss.0 ss.1 read in
      (
        ek,
        ss.0,
        ss.1,
        ks.0,
        ks.1,
        read,
        key_read,
        rw (plain_signature payload ss.0 ks.0 plain0) c0,
        rw (plain_signature payload ss.1 ks.1 plain1) c1,
      )

  same_tag :
      (payload : Bytes) (sig : Signature) (key : PublicKey)
      → verify_levels 1 payload sig key ≡ ok true
      → (sig.algorithm == key.algorithm) ≡ true
  unfolding verify_levels
  same_tag payload sig key h = ground arith

  component_holds :
      (payload : Bytes) (sig key : Component)
      → sig.0 ≢ hybrid
      → verify_signature payload (component_sig sig) (component_key key) ≡ ok true
      → Hybrid.verify_component (verify_levels 1) payload true sig key ≡ ok true
  unfolding Hybrid.verify_component
  component_holds payload sig key plain h =
      let h1 : verify_levels 1 payload (component_sig sig) (component_key key) ≡ ok true =
        sym (plain_signature payload sig key plain) ∙ h in
      rw (same_tag payload (component_sig sig) (component_key key) h1, h1)

  -- The converse: two components that hold make a hybrid that holds.
  hybrid_holds :
      (payload sig_bytes key_bytes : Bytes) (s0 s1 k0 k1 : Component)
      → decode_two sig_bytes ≡ ok (s0, s1)
      → decode_two key_bytes ≡ ok (k0, k1)
      → verify_signature payload (component_sig s0) (component_key k0) ≡ ok true
      → verify_signature payload (component_sig s1) (component_key k1) ≡ ok true
      → Hybrid.verify (verify_levels 1) payload sig_bytes key_bytes ≡ ok true
  unfolding Hybrid.verify
  hybrid_holds payload sig_bytes key_bytes s0 s1 k0 k1 read key_read c0 c1 =
      let (plain0, plain1) = decode_two_plain sig_bytes s0 s1 read in
      rw (read, key_read, component_holds payload s0 k0 plain0 c0)
        (component_holds payload s1 k1 plain1 c1)

  new_key :
      (classical post_quantum : Signer) (h : Hybrid.HybridSigner)
      → Hybrid.new classical post_quantum ≡ ok h
      → (h.classical ≡ classical)
        × (h.post_quantum ≡ post_quantum)
        × (h.public_key.algorithm ≡ hybrid)
        × (frame_two classical.public_key.algorithm classical.public_key.bytes
              post_quantum.public_key.algorithm post_quantum.public_key.bytes
            ≡ ok h.public_key.bytes)
  unfolding Hybrid.new
  new_key classical post_quantum h made = ground arith

  sign_parts :
      (s : Hybrid.HybridSigner) (payload : Bytes) (signature : Signature)
      → Hybrid.sign s payload ≡ ok signature
      → (c q : Signature) × (s.classical.sign payload ≡ ok c)
        × (s.post_quantum.sign payload ≡ ok q)
        × (signature.algorithm ≡ hybrid)
        × (frame_two c.algorithm c.bytes q.algorithm q.bytes ≡ ok signature.bytes)
  unfolding Hybrid.sign
  sign_parts s payload signature h =
      let (c, ec, h1) = bind_then (s.classical.sign payload) _ h in
      let (q, eq, h2) = bind_then (s.post_quantum.sign payload) _ h1 in
      (c, q, ec, eq, ground arith, ground arith)

  -- A hybrid signer built from two genuine signers is genuine: each signature that it makes holds
  -- under its public key.
  pub hybrid_signer-IsGenuine :
      (classical post_quantum : Signer) (h : Hybrid.HybridSigner)
      → Hybrid.new classical post_quantum ≡ ok h
      → IsGenuine classical
      → IsGenuine post_quantum
      → IsGenuine (Hybrid.signer h)
  unfolding Hybrid.signer verify_signature verify_levels
  hybrid_signer-IsGenuine classical post_quantum h made g0 g1 payload signature signed =
      let (e0, e1, tag, key_bytes) = new_key classical post_quantum h made in
      let (c, q, ec, eq, sig_tag, sig_bytes) = sign_parts h payload signature signed in
      rw (sig_tag, tag)
        (hybrid_holds payload signature.bytes h.public_key.bytes _ _ _ _
          (decode_two-frame_two _ _ _ _ _ sig_bytes) (decode_two-frame_two _ _ _ _ _ key_bytes)
          (g0 payload c (ap (λ (s : Signer). s.sign payload) (sym e0) ∙ ec))
          (g1 payload q (ap (λ (s : Signer). s.sign payload) (sym e1) ∙ eq)))
