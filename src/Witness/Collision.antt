-- ===== src/Witness/Collision.antt =====
-- Equal hashes come from equal inputs, or they exhibit a collision of the hash function.
use index_one.Base.{
  ◌≡◌, refl, sym, ◌∙◌, ◌≢◌, ◌⊎◌, inl, inr, Bool, true, false, List, [], ◌∷◌, ◌++◌, arith,
  if◌then◌else◌, length, ◌==◌, ==_iff, Bytes, Bool-cases, nat_eq, list_eq, option_eq,
}
use index_one.Crypto.{Primitives}
use index_one.Witness.Defs.{Digest, PathStep, hash_leaf, hash_node}
use index_one.Witness.Check.{climb, climb_step}

pub append_cancel :
    (l l' r r' : Bytes) → length l ≡ length l' → l ++ r ≡ l' ++ r' → (l ≡ l') × (r ≡ r')
append_cancel [] [] r r' h e = (refl, e)
append_cancel [] (y ∷ l') r r' h e = absurd (omega arith)
append_cancel (x ∷ l) [] r r' h e = absurd (omega arith)
append_cancel (x ∷ l) (y ∷ l') r r' h e =
    let (el, er) = append_cancel l l' r r' (omega arith) (cc) in (cc (el), er)

module _ ⦃prim : Primitives⦄ where
  -- Two different inputs with one hash.
  abbrev pub Collision : Type 0
  Collision = (a b : Bytes) × (a ≢ b) × (prim.blake3 a ≡ prim.blake3 b)

  -- `blake3::hash` returns 32 bytes.
  abbrev pub IsSized : Type 0
  IsSized = (x : Bytes) → length (prim.blake3 x) ≡ 32

  pub same_input : (a b : Bytes) → prim.blake3 a ≡ prim.blake3 b → (a ≡ b) ⊎ Collision
  same_input a b h = elim (Bool-cases (a == b)) [
    | inl same ↦ inl ((==_iff a b).0 same)
    | inr other ↦ inr (a, b, ground (arith, other, ==_iff a b), h)
  ]

  pub same_leaf : (a b : Bytes) → hash_leaf a ≡ hash_leaf b → (a ≡ b) ⊎ Collision
  unfolding hash_leaf
  same_leaf a b h = elim (same_input (0 ∷ a) (0 ∷ b) h) [ inl e ↦ inl (cc) | inr c ↦ inr c ]

  -- The domains of leaves and nodes are apart.
  pub leaf_node : (a : Bytes) (l r : Digest) → hash_leaf a ≡ hash_node l r → Collision
  unfolding hash_leaf hash_node
  leaf_node a l r h = (0 ∷ a, 1 ∷ (l ++ r), λ e. ground (arith, e), h)

  pub same_node :
      (l r l' r' : Digest)
      → length l ≡ 32
      → length l' ≡ 32
      → hash_node l r ≡ hash_node l' r'
      → ((l ≡ l') × (r ≡ r')) ⊎ Collision
  unfolding hash_node
  same_node l r l' r' h h' e = elim (same_input (1 ∷ (l ++ r)) (1 ∷ (l' ++ r')) e) [
    | inl same ↦ inl (append_cancel l l' r r' (h ∙ sym h') (cc))
    | inr c ↦ inr c
  ]

  module _ (sized : IsSized) where
    pub length-hash_leaf : (a : Bytes) → length (hash_leaf a) ≡ 32
    unfolding hash_leaf
    length-hash_leaf a = sized (0 ∷ a)

    pub length-hash_node : (l r : Digest) → length (hash_node l r) ≡ 32
    unfolding hash_node
    length-hash_node l r = sized (1 ∷ (l ++ r))

    pub length-climb :
        (d : Digest) (path : List PathStep) → length d ≡ 32 → length (climb d path) ≡ 32
    unfolding climb
    length-climb d [] h = h
    length-climb d (s ∷ path) h = length-climb (climb_step d s) path (step s.sibling_is_left)
      where
        step : (b : Bool) → length (if b then hash_node s.sibling d else hash_node d s.sibling) ≡ 32
        step true = length-hash_node s.sibling d
        step false = length-hash_node d s.sibling
