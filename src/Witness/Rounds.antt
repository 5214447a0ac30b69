-- ===== src/Witness/Rounds.antt =====
-- The two loops of `verify_consistency` as one, by the level of the tree, and one round of it.
use index_one.Base.{
  ℕ, zero, suc, ◌/◌, ◌%◌, ◌≤◌, ◌<◌, ◌≡◌, refl, Option, none, some, List, [], ◌∷◌, arith, ltb,
  if◌then◌else◌, ◌==◌, nat_eq, list_eq, option_eq, sym, ap, ◌∙◌, subst, inl, inr, true, ==_iff,
  Bool-cases,
}
use index_one.Crypto.{Primitives}
use index_one.Witness.Defs.{Digest, hash_node}
use index_one.Witness.Check.{strip_ones, absorb, walk}

module _ ⦃prim : Primitives⦄ where
  abbrev pub State : Type 0
  State = Option (List Digest × Digest × Digest)

  -- Level by level until no bit of `last` is left, with the hashes of the old and of the new tree.
  pub rounds : ℕ → ℕ → ℕ → List Digest → Digest → Digest → State
  rounds zero node last proof old_hash new_hash = none
  rounds (suc fuel) node last proof old_hash new_hash =
      let left : State = elim proof [
        | [] ↦ none
        | s ∷ rest ↦
            rounds fuel (node / 2) (last / 2) rest (hash_node s old_hash) (hash_node s new_hash)
      ] in
      let right : State = elim proof [
        | [] ↦ none
        | s ∷ rest ↦ rounds fuel (node / 2) (last / 2) rest old_hash (hash_node new_hash s)
      ] in
      let skip = rounds fuel (node / 2) (last / 2) proof old_hash new_hash in
      if last == 0
      then some (proof, old_hash, new_hash)
      else if node % 2 == 1
      then left
      else if ltb node last
      then right
      else skip

  rounds_enough :
      (f g node last : ℕ) (proof : List Digest) (o n : Digest)
      → last < f
      → last < g
      → rounds f node last proof o n ≡ rounds g node last proof o n
  unfolding rounds
  rounds_enough zero g node last proof o n h h' = absurd (omega (arith, h))
  rounds_enough (suc f) zero node last proof o n h h' = absurd (omega (arith, h'))
  rounds_enough (suc f) (suc g) node last [] o n h h' =
      ground (arith, rounds_enough f g (node / 2) (last / 2) [] o n)
  rounds_enough (suc f) (suc g) node last (s ∷ rest) o n h h' = ground (
    arith,
    rounds_enough f g (node / 2) (last / 2) rest (hash_node s o) (hash_node s n),
    rounds_enough f g (node / 2) (last / 2) rest o (hash_node n s),
    rounds_enough f g (node / 2) (last / 2) (s ∷ rest) o n,
  )

  abbrev with_old : Digest → Option (List Digest × Digest) → State
  with_old o none = none
  with_old o (some (rest, h)) = some (rest, o, h)

  -- The second loop: no bit of the node is left.
  absorb-rounds :
      (f g last : ℕ) (proof : List Digest) (o n : Digest)
      → last < f
      → last < g
      → with_old o (absorb f last proof n) ≡ rounds g 0 last proof o n
  unfolding rounds absorb
  absorb-rounds zero g last proof o n h h' = absurd (omega (arith, h))
  absorb-rounds (suc f) zero last proof o n h h' = absurd (omega (arith, h'))
  absorb-rounds (suc f) (suc g) last [] o n h h' = ground arith
  absorb-rounds (suc f) (suc g) last (s ∷ rest) o n h h' =
      ground (arith, absorb-rounds f g (last / 2) rest o (hash_node n s))

  walk_done :
      (f node last : ℕ) (proof : List Digest) (o n : Digest)
      → (node == 0) ≡ true
      → walk (suc f) node last proof o n ≡ with_old o (absorb (suc last) last proof n)
  unfolding walk
  walk_done f node last proof o n done = rw done refl

  finished :
      (f g node last : ℕ) (proof : List Digest) (o n : Digest)
      → (node == 0) ≡ true
      → last < g
      → walk (suc f) node last proof o n ≡ rounds g node last proof o n
  finished f g node last proof o n done h =
      walk_done f node last proof o n done
      ∙ absorb-rounds (suc last) g last proof o n (omega arith) h
      ∙ ap (λ k. rounds g k last proof o n) (sym ((==_iff node 0).0 done))

  -- Both loops together.
  pub walk-rounds :
      (f g node last : ℕ) (proof : List Digest) (o n : Digest)
      → node ≤ last
      → node < f
      → last < g
      → walk f node last proof o n ≡ rounds g node last proof o n
  unfolding rounds walk
  walk-rounds zero g node last proof o n le h h' = absurd (omega (arith, h))
  walk-rounds (suc f) zero node last proof o n le h h' = absurd (omega (arith, h'))
  walk-rounds (suc f) (suc g) node last [] o n le h h' = elim (Bool-cases (node == 0)) [
    | inl done ↦ finished f (suc g) node last [] o n done h'
    | inr more ↦ ground (arith, more, walk-rounds f g (node / 2) (last / 2) [] o n)
  ]
  walk-rounds (suc f) (suc g) node last (s ∷ rest) o n le h h' = elim (Bool-cases (node == 0)) [
    | inl done ↦ finished f (suc g) node last (s ∷ rest) o n done h'
    | inr more ↦ ground (
      arith,
      more,
      walk-rounds f g (node / 2) (last / 2) rest (hash_node s o) (hash_node s n),
      walk-rounds f g (node / 2) (last / 2) rest o (hash_node n s),
      walk-rounds f g (node / 2) (last / 2) (s ∷ rest) o n,
    )
  ]

  -- As many rounds as are needed.
  abbrev pub run : ℕ → ℕ → List Digest → Digest → Digest → State
  run node last = rounds (suc last) node last

  pub run_odd :
      (node last : ℕ) (s : Digest) (rest : List Digest) (o n : Digest)
      → node % 2 ≡ 1
      → 0 < last
      → run node last (s ∷ rest) o n
        ≡ run (node / 2) (last / 2) rest (hash_node s o) (hash_node s n)
  unfolding rounds
  run_odd node last s rest o n odd pos = ground (
    arith,
    rounds_enough last (suc (last / 2)) (node / 2) (last / 2) rest (hash_node s o) (hash_node s n),
  )

  pub run_right :
      (node last : ℕ) (s : Digest) (rest : List Digest) (o n : Digest)
      → node % 2 ≡ 0
      → node < last
      → run node last (s ∷ rest) o n ≡ run (node / 2) (last / 2) rest o (hash_node n s)
  unfolding rounds
  run_right node last s rest o n even less =
      ground
        (arith, rounds_enough last (suc (last / 2)) (node / 2) (last / 2) rest o (hash_node n s))

  pub run_skip :
      (node : ℕ) (proof : List Digest) (o n : Digest)
      → node % 2 ≡ 0
      → run node node proof o n ≡ run (node / 2) (node / 2) proof o n
  unfolding rounds
  run_skip node proof o n even = elim (Bool-cases (node == 0)) [
    | inl none' ↦
        let zero' = (==_iff node 0).0 none' in
        subst (λ k. run k k proof o n ≡ run (k / 2) (k / 2) proof o n) (sym zero') refl
    | inr more ↦
        ground (arith, more, rounds_enough node (suc (node / 2)) (node / 2) (node / 2) proof o n)
  ]

  pub run_end : (proof : List Digest) (o n : Digest) → run 0 0 proof o n ≡ some (proof, o, n)
  unfolding rounds
  run_end proof o n = refl

  strip_ones_enough :
      (f g node last : ℕ) → node < f → node < g → strip_ones f node last ≡ strip_ones g node last
  unfolding strip_ones
  strip_ones_enough zero g node last h h' = absurd (omega (arith, h))
  strip_ones_enough (suc f) zero node last h h' = absurd (omega (arith, h'))
  strip_ones_enough (suc f) (suc g) node last h h' =
      ground (arith, strip_ones_enough f g (node / 2) (last / 2))

  -- `strip_ones`, with the fuel that the node needs.
  abbrev pub strip : ℕ → ℕ → ℕ × ℕ
  strip node last = strip_ones (suc node) node last

  pub strip_odd : (node last : ℕ) → node % 2 ≡ 1 → strip node last ≡ strip (node / 2) (last / 2)
  unfolding strip_ones
  strip_odd node last odd =
      ground (arith, strip_ones_enough node (suc (node / 2)) (node / 2) (last / 2))

  pub strip_even : (node last : ℕ) → node % 2 ≡ 0 → strip node last ≡ (node, last)
  unfolding strip_ones
  strip_even node last even = ground arith
