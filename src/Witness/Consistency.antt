-- ===== src/Witness/Consistency.antt =====
-- The nodes of a consistency proof lead both from the old and to the new tree hash.
use index_one.Base.{
  ℕ, zero, suc, ◌+◌, ◌-◌, ◌*◌, ◌/◌, ◌%◌, ◌^◌, ◌≤◌, ◌<◌, ◌≡◌, refl, sym, ap, ◌∙◌, subst, ◌⊎◌, inl,
  inr, Bool, true, false, none, List, [], ◌∷◌, ◌++◌, arith, leb, if◌then◌else◌, ◌==◌, le→leb,
  nat_eq, list_eq, option_eq,
}
use mathlib.Core.Path.{ap₂}
use index_one.Crypto.{Primitives}
use index_one.Witness.Defs.{Digest, hash_node}
use index_one.Witness.Tree.{split_point}
use index_one.Witness.Split.{two_pow_pos}
use index_one.Witness.TreeHash.{tree_hash}
use index_one.Witness.Rounds.{State, run, run_odd, run_right, run_skip, strip}
use index_one.Witness.Levels.{lift, strip_full, split_point-eq}

module _ ⦃prim : Primitives⦄ where
  -- RFC 6962's SUBPROOF(m, D[start : start + len], b) by recomputation, with no cache.
  unfoldable pub sub_nodes : ℕ → List Digest → ℕ → ℕ → ℕ → Bool → List Digest
  sub_nodes zero leaves m start len b = []
  sub_nodes (suc fuel) leaves m start len b =
      let k = split_point len in
      let in_left =
        sub_nodes fuel leaves m start k b ++ tree_hash leaves (start + k) (len - k) ∷ [] in
      let in_right =
        sub_nodes fuel leaves (m - k) (start + k) (len - k) false
        ++ tree_hash leaves start k ∷ [] in
      if m == len
      then (if b then [] else tree_hash leaves start len ∷ [])
      else if leb m k
      then in_left
      else in_right

  pub sub_nodes_whole :
      (fuel : ℕ) (leaves : List Digest) (m start len : ℕ) (b : Bool)
      → m ≡ len
      → sub_nodes (suc fuel) leaves m start len b
        ≡ (if b then [] else tree_hash leaves start len ∷ [])
  unfolding sub_nodes
  sub_nodes_whole fuel leaves m start len b whole =
      let test : (m == len) ≡ true = ground (arith, whole) in rw test refl

  pub sub_nodes_left :
      (fuel : ℕ) (leaves : List Digest) (m start len level : ℕ) (b : Bool)
      → m < len
      → 2 ^ level < len
      → len ≤ 2 ^ level * 2
      → m ≤ 2 ^ level
      → sub_nodes (suc fuel) leaves m start len b
        ≡ sub_nodes fuel leaves m start (2 ^ level) b
          ++ tree_hash leaves (start + 2 ^ level) (len - 2 ^ level) ∷ []
  unfolding sub_nodes
  sub_nodes_left fuel leaves m start len level b less below half here =
      let split = split_point-eq len level (omega (arith, below, two_pow_pos level)) below half in
      let part : (m == len) ≡ false = ground (arith, less) in
      let left : leb m (2 ^ level) ≡ true = le→leb m (2 ^ level) here in rw (split, part, left) refl

  pub sub_nodes_right :
      (fuel : ℕ) (leaves : List Digest) (m start len level : ℕ) (b : Bool)
      → m < len
      → 2 ^ level < len
      → len ≤ 2 ^ level * 2
      → 2 ^ level < m
      → sub_nodes (suc fuel) leaves m start len b
        ≡ sub_nodes fuel leaves (m - 2 ^ level) (start + 2 ^ level) (len - 2 ^ level) false
          ++ tree_hash leaves start (2 ^ level) ∷ []
  unfolding sub_nodes
  sub_nodes_right fuel leaves m start len level b less below half there =
      let split = split_point-eq len level (omega (arith, below, two_pow_pos level)) below half in
      let part : (m == len) ≡ false = ground (arith, less) in
      let right : leb m (2 ^ level) ≡ false = ground (arith, there) in rw (split, part, right) refl

  -- The first node of a proof is the seed of both hashes.
  abbrev pub from_seed : ℕ → ℕ → List Digest → State
  from_seed node last [] = none
  from_seed node last (seed ∷ rest) = run node last rest seed seed

  -- From the stripped numbers and these nodes, the rounds come to the upper bits `u` and `v` with
  -- the nodes that are left and the two hashes; and no bit of the node is stripped that is above.
  abbrev pub Claim : ℕ → ℕ → List Digest → ℕ → ℕ → List Digest → Digest → Digest → Type 0
  Claim node last nodes u v rest o n =
      (from_seed (strip node last).0 (strip node last).1 nodes ≡ run u v rest o n)
      × (0 < u → 0 < (strip node last).0)

  pub Claim-right :
      (node last u v v' : ℕ) (nodes rest : List Digest) (h o n : Digest)
      → u * 2 < v'
      → v' / 2 ≡ v
      → Claim node last nodes (u * 2) v' (h ∷ rest) o n
      → Claim node last nodes u v rest o (hash_node n h)
  Claim-right node last u v v' nodes rest h o n less above (told, kept) = (
    told
        ∙ run_right (u * 2) v' h rest o n (omega arith) less
        ∙ ap₂ (λ a b. run a b rest o (hash_node n h)) (omega arith) above,
    λ pos. kept (omega (arith, pos)),
  )

  pub Claim-left :
      (node last u v v' : ℕ) (nodes rest : List Digest) (h o n : Digest)
      → 0 < v'
      → v' / 2 ≡ v
      → Claim node last nodes (u * 2 + 1) v' (h ∷ rest) o n
      → Claim node last nodes u v rest (hash_node h o) (hash_node h n) × (0 < (strip node last).0)
  Claim-left node last u v v' nodes rest h o n pos above (told, kept) = (
    (
      told
          ∙ run_odd (u * 2 + 1) v' h rest o n (omega arith) pos
          ∙ ap₂ (λ a b. run a b rest (hash_node h o) (hash_node h n)) (omega arith) above,
      λ _. kept (omega arith),
    ),
    kept (omega arith),
  )

  pub Claim-skip :
      (node last u : ℕ) (nodes rest : List Digest) (o n : Digest)
      → Claim node last nodes (u * 2) (u * 2) rest o n
      → Claim node last nodes u u rest o n
  Claim-skip node last u nodes rest o n (told, kept) = (
    told ∙ run_skip (u * 2) rest o n (omega arith) ∙ ap (λ a. run a a rest o n) (omega arith),
    λ pos. kept (omega (arith, pos)),
  )

  -- Where a subtree stands: a full one, left of the end of the new tree, or the end of it.
  abbrev pub Stands : ℕ → ℕ → ℕ → ℕ → ℕ → Type 0
  Stands level u v r len =
      ((u < v) × (len ≡ 2 ^ level) × (r < 2 ^ level)) ⊎ ((u ≡ v) × (r ≡ len - 1))

  pub Stands-small :
      (level u v r len : ℕ) → 0 < len → len ≤ 2 ^ level → Stands level u v r len → r < 2 ^ level
  Stands-small level u v r len pos le (inl (_, _, small)) = small
  Stands-small level u v r len pos le (inr (_, end)) = omega (arith, pos, le, end)

  -- The old tree ends within the subtree, or it ends with a full subtree that is a left one.
  abbrev pub Ends : ℕ → ℕ → ℕ → ℕ → Type 0
  Ends level u m len = (m < len) ⊎ ((m ≡ len) × (len ≡ 2 ^ level) × (u % 2 ≡ 0))

  pub Claim-whole :
      (level fuel u v r m start len : ℕ) (leaves rest : List Digest)
      → m ≡ len
      → len ≡ 2 ^ level
      → u % 2 ≡ 0
      → r < 2 ^ level
      → Claim
          (lift level u (m - 1))
          (lift level v r)
          (sub_nodes (suc fuel) leaves m start len false ++ rest)
          u
          v
          rest
          (tree_hash leaves start m)
          (tree_hash leaves start len)
  Claim-whole level fuel u v r m start len leaves rest whole full even small =
      let stripped : strip (lift level u (m - 1)) (lift level v r) ≡ (u, v) =
        ap (λ x. strip (lift level u (x - 1)) (lift level v r)) (whole ∙ full)
        ∙ strip_full level u v r even small in
      (
        ap₂ (λ (s : ℕ × ℕ) nodes. from_seed s.0 s.1 (nodes ++ rest)) stripped
              (sub_nodes_whole fuel leaves m start len false whole)
            ∙ ap (λ k. run u v rest (tree_hash leaves start k) (tree_hash leaves start len))
                (sym whole),
        λ pos. subst (λ (s : ℕ × ℕ). 0 < s.0) (sym stripped) pos,
      )
