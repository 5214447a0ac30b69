-- ===== src/Witness/Spine.antt =====
-- The nodes of a consistency proof from the root: down the left spine, where the old root is known.
use index_one.Base.{
  ℕ, zero, suc, ◌+◌, ◌-◌, ◌*◌, ◌/◌, ◌^◌, ◌≤◌, ◌<◌, ◌≡◌, refl, sym, ap, ◌∙◌, true, [], ◌∷◌, ◌++◌,
  arith, ltb, if◌then◌else◌, List, subst, inl, inr, false, leb, Bool-cases, ltb→lt,
}
use mathlib.Core.List.{append_assoc}
use mathlib.Core.Path.{ap₂}
use index_one.Crypto.{Primitives}
use index_one.Witness.Defs.{Digest}
use index_one.Witness.Check.{seeded, strip_ones}
use index_one.Witness.Split.{two_pow-suc, two_pow_pos}
use index_one.Witness.TreeHash.{tree_hash}
use index_one.Witness.Rounds.{State, run, run_right, strip, walk-rounds}
use index_one.Witness.Levels.{lift, lift_low, strip_full, tree_hash_at}
use index_one.Witness.Consistency.{
  sub_nodes, sub_nodes_whole, sub_nodes_left, from_seed, Stands, Stands-small, Ends,
  sub_nodes_right,
}
use index_one.Witness.Subproof.{below, Ends-left, go_right, sub_nodes-Leads}

module _ ⦃prim : Primitives⦄ where
  -- The seed is a node of the proof, or the old root where no bit of the node is left.
  abbrev pub begin : Digest → ℕ → ℕ → List Digest → State
  begin old node last nodes =
      if ltb 0 node then from_seed node last nodes else run node last nodes old old

  begin_node :
      (old : Digest) (node last : ℕ) (nodes : List Digest)
      → 0 < node
      → begin old node last nodes ≡ from_seed node last nodes
  begin_node old node last nodes pos = ground (arith, pos)

  pub seeded-begin :
      (old : Digest) (node last : ℕ) (nodes : List Digest)
      → node ≤ last
      → seeded old node last nodes ≡ begin old node last nodes
  seeded-begin old node last [] le =
      ground (
        arith,
        walk-rounds (suc node) (suc last) node last [] old old le (omega arith) (omega arith),
      )
  seeded-begin old node last (seed ∷ rest) le = ground (
    arith,
    walk-rounds (suc node) (suc last) node last rest seed seed le (omega arith) (omega arith),
    walk-rounds (suc node) (suc last) node last (seed ∷ rest) old old le (omega arith)
        (omega arith),
  )

  pub strip_ones_le :
      (fuel node last : ℕ)
      → node ≤ last
      → (strip_ones fuel node last).0 ≤ (strip_ones fuel node last).1
  unfolding strip_ones
  strip_ones_le zero node last le = le
  strip_ones_le (suc fuel) node last le =
      ground (arith, strip_ones_le fuel (node / 2) (last / 2) (omega (arith, le)))

  abbrev pub begun : Digest → ℕ → ℕ → List Digest → State
  begun old node last nodes = begin old (strip node last).0 (strip node last).1 nodes

  -- What the nodes from the root of a left subtree lead to.
  abbrev pub LeadsRoot : ℕ → ℕ → ℕ → ℕ → ℕ → ℕ → List Digest → List Digest → Type 0
  LeadsRoot level fuel v r m len leaves rest =
      begun (tree_hash leaves 0 m) (lift level 0 (m - 1)) (lift level v r)
        (sub_nodes fuel leaves m 0 len true ++ rest)
      ≡ run 0 v rest (tree_hash leaves 0 m) (tree_hash leaves 0 len)

  whole_root :
      (level fuel v r m len : ℕ) (leaves rest : List Digest)
      → m ≡ len
      → len ≡ 2 ^ level
      → r < 2 ^ level
      → LeadsRoot level (suc fuel) v r m len leaves rest
  whole_root level fuel v r m len leaves rest whole full small =
      let old = tree_hash leaves 0 m in
      let stripped : strip (lift level 0 (m - 1)) (lift level v r) ≡ (0, v) =
        ap (λ x. strip (lift level 0 (x - 1)) (lift level v r)) (whole ∙ full)
        ∙ strip_full level 0 v r refl small in
      ap₂ (λ (s : ℕ × ℕ) nodes. begin old s.0 s.1 (nodes ++ rest)) stripped
        (sub_nodes_whole fuel leaves m 0 len true whole)
      ∙ ap (λ k. run 0 v rest old (tree_hash leaves 0 k)) whole

  -- A root claim on equal numbers and nodes.
  begun_at :
      (level v r node last m : ℕ) (old : Digest) (nodes nodes' : List Digest)
      → lift (suc level) 0 (m - 1) ≡ node
      → lift (suc level) v r ≡ last
      → nodes' ≡ nodes
      → begun old (lift (suc level) 0 (m - 1)) (lift (suc level) v r) nodes'
        ≡ begun old node last nodes
  begun_at level v r node last m old nodes nodes' en el es =
      ap₂ (λ a b. begun old a b nodes') en el ∙ ap (begun old node last) es

  left_root :
      (level fuel v r v' r' m len : ℕ) (leaves rest : List Digest)
      → m < len
      → 2 ^ level < len
      → len ≤ 2 ^ level * 2
      → m ≤ 2 ^ level
      → lift (suc level) v r ≡ lift level v' r'
      → v' / 2 ≡ v
      → 0 < v'
      → LeadsRoot level fuel v' r' m
          (2 ^ level)
          leaves
          (tree_hash leaves (0 + 2 ^ level) (len - 2 ^ level) ∷ rest)
      → LeadsRoot (suc level) (suc fuel) v r m len leaves rest
  left_root level fuel v r v' r' m len leaves rest less big half here last above room lead =
      let p = 2 ^ level in
      let h = tree_hash leaves (0 + p) (len - p) in
      let old = tree_hash leaves 0 m in
      let part = sub_nodes fuel leaves m 0 p true in
      let nodes : sub_nodes (suc fuel) leaves m 0 len true ++ rest ≡ part ++ (h ∷ rest) =
        ap (λ q. q ++ rest) (sub_nodes_left fuel leaves m 0 len level true less big half here)
        ∙ append_assoc part (h ∷ []) rest in
      begun_at level v r (lift level 0 (m - 1)) (lift level v' r') m old (part ++ (h ∷ rest))
        (sub_nodes (suc fuel) leaves m 0 len true ++ rest) (lift_low level 0 (m - 1)) last nodes
      ∙ lead
      ∙ run_right 0 v' h rest old (tree_hash leaves 0 p) refl room
      ∙ ap₂ (λ b n. run 0 b rest old n) above (sym (tree_hash_at leaves 0 len level big half))

  right_root :
      (level fuel v r v' r' m len : ℕ) (leaves rest : List Digest)
      → level < fuel
      → m < len
      → 2 ^ level < len
      → len ≤ 2 ^ level * 2
      → 2 ^ level < m
      → lift (suc level) v r ≡ lift level v' r'
      → v' / 2 ≡ v
      → 0 < v'
      → Stands level 1 v' r' (len - 2 ^ level)
      → LeadsRoot (suc level) (suc fuel) v r m len leaves rest
  right_root level fuel v r v' r' m len leaves rest enough less big half there last above room at =
      let p = 2 ^ level in
      let s = strip (lift (suc level) 0 (m - 1)) (lift (suc level) v r) in
      let old = tree_hash leaves 0 m in
      let lead =
        sub_nodes-Leads level fuel 1 v' r' (m - p) (0 + p) (len - p) leaves
          (tree_hash leaves 0 p ∷ rest) enough (omega (arith, there)) (omega (arith, less, there))
          (omega (arith, half)) at (inl (omega (arith, less, there))) in
      let ((told, _), pos) =
        go_right level fuel 0 v r v' r' m 0 len leaves rest less big half there last above room
          lead in
      let nodes : sub_nodes (suc fuel) leaves m 0 len true
          ≡ sub_nodes (suc fuel) leaves m 0 len false =
        sub_nodes_right fuel leaves m 0 len level true less big half there
        ∙ sym (sub_nodes_right fuel leaves m 0 len level false less big half there) in
      begin_node old s.0 s.1 (sub_nodes (suc fuel) leaves m 0 len true ++ rest) pos
      ∙ ap (λ q. from_seed s.0 s.1 (q ++ rest)) nodes
      ∙ told

  narrow_root :
      (level fuel v r m len : ℕ) (leaves rest : List Digest)
      → 0 < m
      → m < len
      → len ≤ 2 ^ level
      → Stands (suc level) 0 v r len
      → ((v : ℕ) → Stands level 0 v r len → LeadsRoot level (suc fuel) v r m len leaves rest)
      → LeadsRoot (suc level) (suc fuel) v r m len leaves rest
  narrow_root level fuel v r m len leaves rest pos less small (inl (_, full, _)) ih =
      absurd (omega (arith, full, small, pos, less, two_pow-suc level, two_pow_pos level))
  narrow_root level fuel v r m len leaves rest pos less small (inr (same, end)) ih =
      let nodes = sub_nodes (suc fuel) leaves m 0 len true ++ rest in
      subst (λ v. LeadsRoot (suc level) (suc fuel) v r m len leaves rest) same
        (begun_at level 0 r (lift level 0 (m - 1)) (lift level 0 r) m (tree_hash leaves 0 m) nodes
            nodes (lift_low level 0 (m - 1)) (lift_low level 0 r) refl
          ∙ ih 0 (inr (refl, end)))

  -- The nodes from the root lead from the old root to both, and to the new tree hash.
  pub spine :
      (level fuel v r m len : ℕ) (leaves rest : List Digest)
      → level < fuel
      → 0 < m
      → m ≤ len
      → len ≤ 2 ^ level
      → Stands level 0 v r len
      → Ends level 0 m len
      → LeadsRoot level fuel v r m len leaves rest
  spine level zero v r m len leaves rest enough pos le small at ends =
      absurd (omega (arith, enough))
  spine level (suc fuel) v r m len leaves rest enough pos le small at (inr (whole, full, _)) =
      whole_root level fuel v r m len leaves rest whole full
        (Stands-small level 0 v r len (omega (arith, pos, le)) small at)
  spine zero (suc fuel) v r m len leaves rest enough pos le small at (inl less) =
      absurd (omega (arith, pos, less, small))
  spine (suc level) (suc fuel) v r m len leaves rest enough pos le small at (inl less) =
      let p = 2 ^ level in
      elim (Bool-cases (ltb p len)) [
        | inl wide ↦
            let big : p < len = ltb→lt p len wide in
            let half : len ≤ p * 2 = omega (arith, small, two_pow-suc level) in
            let (v', r', last, above, low, room, stands) = below level 0 v r m len big half at in
            elim (Bool-cases (leb m p)) [
              | inl left ↦
                  let here : m ≤ p = ground (arith, left) in
                  left_root level fuel v r v' r' m len leaves rest less big half here last above
                    room
                    (spine level fuel v' r' m p leaves _ (omega (arith, enough)) pos here
                      (omega arith) (inl (room, refl, low)) (Ends-left level 0 m here))
              | inr right ↦
                  right_root level fuel v r v' r' m len leaves rest (omega (arith, enough)) less big
                    half (ground (arith, right)) last above room stands
            ]
        | inr narrow ↦
            let fits : len ≤ p = ground (arith, narrow) in
            narrow_root level fuel v r m len leaves rest pos less fits at (λ v at.
              spine level (suc fuel) v r m len leaves rest (omega (arith, enough)) pos le fits at
                (inl less))
      ]
