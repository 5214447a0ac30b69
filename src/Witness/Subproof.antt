-- ===== src/Witness/Subproof.antt =====
-- The nodes of a consistency proof are accepted by the rounds, by induction on the level.
use mathlib.Core.List.{append_assoc}
use index_one.Base.{
  ℕ, suc, ◌+◌, ◌-◌, ◌*◌, ◌/◌, ◌^◌, ◌≤◌, ◌<◌, ◌≡◌, refl, sym, ap, ◌∙◌, subst, inl, inr, false, List,
  [], ◌∷◌, ◌++◌, arith, zero, ltb, leb, Bool-cases, ltb→lt,
}
use mathlib.Core.Path.{ap₂}
use index_one.Crypto.{Primitives}
use index_one.Witness.Defs.{Digest, hash_node}
use index_one.Witness.Split.{two_pow-suc, two_pow_pos}
use index_one.Witness.TreeHash.{tree_hash}
use index_one.Witness.Rounds.{run, strip}
use index_one.Witness.Levels.{lift, lift_low, lift_high, lowered, tree_hash_at}
use index_one.Witness.Consistency.{
  sub_nodes, sub_nodes_left, sub_nodes_right, from_seed, Claim, Claim-right, Claim-left, Claim-skip,
  Claim-whole, Stands, Stands-small, Ends,
}

module _ ⦃prim : Primitives⦄ where
  -- What the nodes of a subtree at a level lead to.
  abbrev pub Leads : ℕ → ℕ → ℕ → ℕ → ℕ → ℕ → ℕ → ℕ → List Digest → List Digest → Type 0
  Leads level fuel u v r m start len leaves rest =
      Claim (lift level u (m - 1)) (lift level v r)
        (sub_nodes fuel leaves m start len false ++ rest) u v rest (tree_hash leaves start m)
        (tree_hash leaves start len)

  -- A claim on equal numbers, nodes and hashes.
  pub moved :
      (level u v r node last m : ℕ) (nodes nodes' rest : List Digest) (o o' n n' : Digest)
      → lift (suc level) u (m - 1) ≡ node
      → lift (suc level) v r ≡ last
      → nodes' ≡ nodes
      → o' ≡ o
      → n' ≡ n
      → Claim node last nodes u v rest o n
      → Claim (lift (suc level) u (m - 1)) (lift (suc level) v r) nodes' u v rest o' n'
  moved level u v r node last m nodes nodes' rest o o' n n' en el es eo en' (told, kept) = (
    ap₂ (λ a b. from_seed (strip a b).0 (strip a b).1 nodes') en el
        ∙ ap (from_seed (strip node last).0 (strip node last).1) es
        ∙ told
        ∙ ap₂ (run u v rest) (sym eo) (sym en'),
    λ pos.
        subst (λ a. 0 < (strip a (lift (suc level) v r)).0) (sym en)
          (subst (λ b. 0 < (strip node b).0) (sym el) (kept pos)),
  )

  -- The end of the new tree one level down, or a full subtree there.
  abbrev pub Below : ℕ → ℕ → ℕ → ℕ → ℕ → ℕ → Type 0
  Below level u v r m len =
      (v' r' : ℕ) × (lift (suc level) v r ≡ lift level v' r')
      × (v' / 2 ≡ v)
      × (r' < 2 ^ level)
      × (u * 2 < v')
      × Stands level (u * 2 + 1) v' r' (len - 2 ^ level)

  pub below :
      (level u v r m len : ℕ)
      → 2 ^ level < len
      → len ≤ 2 ^ level * 2
      → Stands (suc level) u v r len
      → Below level u v r m len
  below level u v r m len big half (inl (less, full, small)) =
      let l = lowered level v r small in
      (
        l.high,
        l.low,
        l.same,
        l.above,
        l.small,
        omega (arith, less, l.at_least),
        inl (omega (arith, less, l.at_least), omega (arith, full, two_pow-suc level), l.small),
      )
  below level u v r m len big half (inr (same, end)) = (
    v * 2 + 1,
    r - 2 ^ level,
    lift_high level v r (omega (arith, end, big)),
    omega arith,
    omega (arith, end, big, half),
    omega (arith, same),
    inr (omega (arith, same), omega (arith, end, big)),
  )

  -- The old tree ends in the left part.
  go_left :
      (level fuel u v r v' r' m start len : ℕ) (leaves rest : List Digest)
      → m < len
      → 2 ^ level < len
      → len ≤ 2 ^ level * 2
      → m ≤ 2 ^ level
      → lift (suc level) v r ≡ lift level v' r'
      → v' / 2 ≡ v
      → u * 2 < v'
      → Leads level fuel
          (u * 2)
          v'
          r'
          m
          start
          (2 ^ level)
          leaves
          (tree_hash leaves (start + 2 ^ level) (len - 2 ^ level) ∷ rest)
      → Leads (suc level) (suc fuel) u v r m start len leaves rest
  go_left level fuel u v r v' r' m start len leaves rest less big half here last above room lead =
      let h = tree_hash leaves (start + 2 ^ level) (len - 2 ^ level) in
      let part = sub_nodes fuel leaves m start (2 ^ level) false in
      let nodes : sub_nodes (suc fuel) leaves m start len false ++ rest ≡ part ++ (h ∷ rest) =
        ap (λ p. p ++ rest) (sub_nodes_left fuel leaves m start len level false less big half here)
        ∙ append_assoc part (h ∷ []) rest in
      let step =
        Claim-right (lift level (u * 2) (m - 1)) (lift level v' r') u v v' (part ++ (h ∷ rest)) rest
          h (tree_hash leaves start m) (tree_hash leaves start (2 ^ level)) room above lead in
      moved level u v r (lift level (u * 2) (m - 1)) (lift level v' r') m (part ++ (h ∷ rest))
        (sub_nodes (suc fuel) leaves m start len false ++ rest) rest (tree_hash leaves start m)
        (tree_hash leaves start m) _ (tree_hash leaves start len) (lift_low level u (m - 1)) last
        nodes refl (tree_hash_at leaves start len level big half) step

  -- The old tree ends in the right part.
  pub go_right :
      (level fuel u v r v' r' m start len : ℕ) (leaves rest : List Digest)
      → m < len
      → 2 ^ level < len
      → len ≤ 2 ^ level * 2
      → 2 ^ level < m
      → lift (suc level) v r ≡ lift level v' r'
      → v' / 2 ≡ v
      → u * 2 < v'
      → Leads level fuel
          (u * 2 + 1)
          v'
          r'
          (m - 2 ^ level)
          (start + 2 ^ level)
          (len - 2 ^ level)
          leaves
          (tree_hash leaves start (2 ^ level) ∷ rest)
      → Leads (suc level) (suc fuel) u v r m start len leaves rest
        × (0 < (strip (lift (suc level) u (m - 1)) (lift (suc level) v r)).0)
  go_right level fuel u v r v' r' m start len leaves rest less big half there last above room lead =
      let p = 2 ^ level in
      let h = tree_hash leaves start p in
      let o = tree_hash leaves (start + p) (m - p) in
      let n = tree_hash leaves (start + p) (len - p) in
      let node = lift level (u * 2 + 1) (m - p - 1) in
      let end = lift level v' r' in
      let part = sub_nodes fuel leaves (m - p) (start + p) (len - p) false in
      let nodes : sub_nodes (suc fuel) leaves m start len false ++ rest ≡ part ++ (h ∷ rest) =
        ap (λ q. q ++ rest)
          (sub_nodes_right fuel leaves m start len level false less big half there)
        ∙ append_assoc part (h ∷ []) rest in
      let at_node : lift (suc level) u (m - 1) ≡ node =
        lift_high level u (m - 1) (omega (arith, there))
        ∙ ap (lift level (u * 2 + 1)) (omega arith) in
      let (step, pos) =
        Claim-left node end u v v' (part ++ (h ∷ rest)) rest h o n (omega (arith, room)) above
          lead in
      (
        moved level u v r node end m (part ++ (h ∷ rest))
            (sub_nodes (suc fuel) leaves m start len false ++ rest) rest (hash_node h o)
            (tree_hash leaves start m) (hash_node h n) (tree_hash leaves start len) at_node last
            nodes (tree_hash_at leaves start m level there (omega (arith, less, half)))
            (tree_hash_at leaves start len level big half) step,
        subst (λ a. 0 < (strip a (lift (suc level) v r)).0) (sym at_node)
            (subst (λ b. 0 < (strip node b).0) (sym last) pos),
      )

  abbrev Goes : ℕ → ℕ → ℕ → Type 0
  Goes level fuel u =
      (v r m start len : ℕ) (leaves rest : List Digest)
      → level < fuel
      → 0 < m
      → m ≤ len
      → len ≤ 2 ^ level
      → Stands level u v r len
      → Ends level u m len
      → Leads level fuel u v r m start len leaves rest

  pub Ends-left : (level u m : ℕ) → m ≤ 2 ^ level → Ends level (u * 2) m (2 ^ level)
  Ends-left level u m here = elim (Bool-cases (ltb m (2 ^ level))) [
    | inl less ↦ inl (ltb→lt m (2 ^ level) less)
    | inr whole ↦ inr (ground (arith, here, whole), refl, omega arith)
  ]

  -- A subtree that fits in the level below.
  go_down :
      (level fuel u v r m start len : ℕ) (leaves rest : List Digest)
      → ((u : ℕ) → Goes level fuel u)
      → level < fuel
      → 0 < m
      → m < len
      → len ≤ 2 ^ level
      → Stands (suc level) u v r len
      → Leads (suc level) fuel u v r m start len leaves rest
  go_down level fuel u v r m start len leaves rest ih enough pos less small (inl (_, full, _)) =
      absurd (omega (arith, full, small, pos, less, two_pow-suc level, two_pow_pos level))
  go_down level fuel u v r m start len leaves rest ih enough pos less small (inr (same, end)) =
      subst (λ v. Leads (suc level) fuel u v r m start len leaves rest) same
        (let nodes = sub_nodes fuel leaves m start len false ++ rest in
          moved level u u r (lift level (u * 2) (m - 1)) (lift level (u * 2) r) m nodes nodes rest _
            _ _ _ (lift_low level u (m - 1)) (lift_low level u r) refl refl refl
            (Claim-skip _ _ u nodes rest _ _ (
              ih (u * 2) (u * 2) r m start len leaves rest enough pos (omega (arith, less)) small
                (inr (refl, end)) (inl less))))

  -- The nodes for a part of a range lead from it and to it, wherever the range stands in the tree.
  pub sub_nodes-Leads : (level fuel u : ℕ) → Goes level fuel u
  sub_nodes-Leads level zero u v r m start len leaves rest enough pos le small at ends =
      absurd (omega (arith, enough))
  sub_nodes-Leads level (suc fuel) u v r m start len leaves rest enough pos le small at
        (inr (whole, full, even)) =
      Claim-whole level fuel u v r m start len leaves rest whole full even
        (Stands-small level u v r len (omega (arith, pos, le)) small at)
  sub_nodes-Leads zero (suc fuel) u v r m start len leaves rest enough pos le small at (inl less) =
      absurd (omega (arith, pos, less, small))
  sub_nodes-Leads (suc level) (suc fuel) u v r m start len leaves rest enough pos le small at
        (inl less) =
      let p = 2 ^ level in
      elim (Bool-cases (ltb p len)) [
        | inl wide ↦
            let big : p < len = ltb→lt p len wide in
            let half : len ≤ p * 2 = omega (arith, small, two_pow-suc level) in
            let (v', r', last, above, low, room, stands) = below level u v r m len big half at in
            elim (Bool-cases (leb m p)) [
              | inl left ↦
                  let here : m ≤ p = ground (arith, left) in
                  go_left level fuel u v r v' r' m start len leaves rest less big half here last
                    above room
                    (sub_nodes-Leads level fuel (u * 2) v' r' m start p leaves _
                      (omega (arith, enough)) pos here (omega arith) (inl (room, refl, low))
                      (Ends-left level u m here))
              | inr right ↦
                  let there : p < m = ground (arith, right) in
                  (go_right level fuel u v r v' r' m start len leaves rest less big half there last
                    above room
                    (sub_nodes-Leads level fuel (u * 2 + 1) v' r' (m - p) (start + p) (len - p)
                      leaves _ (omega (arith, enough)) (omega (arith, there))
                      (omega (arith, less, there)) (omega (arith, half)) stands
                      (inl (omega (arith, less, there))))).0
            ]
        | inr narrow ↦
            go_down level (suc fuel) u v r m start len leaves rest
              (λ u. sub_nodes-Leads level (suc fuel) u) (omega (arith, enough)) pos less
              (ground (arith, narrow)) at
      ]
