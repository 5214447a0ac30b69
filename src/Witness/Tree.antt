-- ===== src/Witness/Tree.antt =====
-- core/witness/src/lib.rs: the memoized tree core. The `RefCell` cache is passed in and out.
use index_one.Base.{
  ℕ, zero, suc, ◌+◌, ◌-◌, ◌*◌, ◌%◌, Bool, true, false, ◌&&◌, Option, none, some, List, [], ◌∷◌,
  ◌++◌, ltb, leb, if◌then◌else◌, ◌==◌, nat_eq, list_eq, option_eq,
}
use index_one.Crypto.{Primitives}
use index_one.Witness.Defs.{Digest, PathStep, hash_node, empty_root}

-- `while k << 1 < n { k <<= 1 }`
unfoldable pub split_loop : ℕ → ℕ → ℕ → ℕ
split_loop zero n k = k
split_loop (suc fuel) n k =
    let next = split_loop fuel n (k * 2) in if ltb (k * 2) n then next else k

unfoldable pub split_point : ℕ → ℕ
split_point n = split_loop n n 1

-- `usize::is_power_of_two`
unfoldable pub is_power_of_two : ℕ → Bool
is_power_of_two n = if n == 0 then false else split_point (n + 1) == n

-- Entries `((start, len), root)`; the newest is found first.
abbrev pub Cache : Type 0
Cache = List ((ℕ × ℕ) × Digest)

unfoldable pub cached : ℕ → ℕ → Cache → Option Digest
cached start len [] = none
cached start len (((s, l), h) ∷ c) = if s == start && l == len then some h else cached start len c

-- `leaf_hashes[start]`; out of range the code would panic, and `Memo` shows that it is in range.
abbrev pub leaf_at : List Digest → ℕ → Digest
leaf_at [] i = []
leaf_at (h ∷ hs) zero = h
leaf_at (h ∷ hs) (suc i) = leaf_at hs i

unfoldable pub perfect : ℕ → ℕ → Bool
perfect start len = is_power_of_two len && start % len == 0

abbrev pub beside : Digest → Bool → PathStep
beside h is_left = record { sibling = h; sibling_is_left = is_left }

module _ ⦃prim : Primitives⦄ where
  abbrev pub store : Bool → ℕ → ℕ → Digest × Cache → Digest × Cache
  store true start len (h, c) = (h, ((start, len), h) ∷ c)
  store false start len (h, c) = (h, c)

  -- `subtree`, for a range of fewer leaves than there is fuel.
  unfoldable pub subtree : ℕ → List Digest → ℕ → ℕ → Cache → Digest × Cache
  subtree zero leaves start len c = (empty_root, c)
  subtree (suc fuel) leaves start len c =
      let k = split_point len in
      let computed : Digest × Cache =
        (let (left, c1) = subtree fuel leaves start k c in
          let (right, c2) = subtree fuel leaves (start + k) (len - k) c1 in
          store (perfect start len) start len (hash_node left right, c2)) in
      if len == 0
      then (empty_root, c)
      else if len == 1
      then (leaf_at leaves start, c)
      else elim (if perfect start len then cached start len c else none) [
        | some h ↦ (h, c)
        | none ↦ computed
      ]

  -- The fuel that a range of `len` leaves needs.
  abbrev pub subtree_of : List Digest → ℕ → ℕ → Cache → Digest × Cache
  subtree_of leaves start len = subtree (suc len) leaves start len

  -- The audit path of `index`, from the leaf up.
  unfoldable pub subtree_path : ℕ → List Digest → ℕ → ℕ → ℕ → Cache → List PathStep × Cache
  subtree_path zero leaves start len index c = ([], c)
  subtree_path (suc fuel) leaves start len index c =
      let k = split_point len in
      let in_left : List PathStep × Cache =
        (let (path, c1) = subtree_path fuel leaves start k index c in
          let (h, c2) = subtree_of leaves (start + k) (len - k) c1 in
          (path ++ beside h false ∷ [], c2)) in
      let in_right : List PathStep × Cache =
        (let (path, c1) = subtree_path fuel leaves (start + k) (len - k) (index - k) c in
          let (h, c2) = subtree_of leaves start k c1 in (path ++ beside h true ∷ [], c2)) in
      if leb len 1 then ([], c) else if ltb index k then in_left else in_right

  -- `subproof(m, start, len, b, out)`
  unfoldable pub subproof :
      ℕ → List Digest → ℕ → ℕ → ℕ → Bool → List Digest → Cache → List Digest × Cache
  subproof zero leaves m start len b out c = (out, c)
  subproof (suc fuel) leaves m start len b out c =
      let k = split_point len in
      let whole : List Digest × Cache =
        (let (h, c1) = subtree_of leaves start len c in (out ++ h ∷ [], c1)) in
      let in_left : List Digest × Cache =
        (let (out1, c1) = subproof fuel leaves m start k b out c in
          let (h, c2) = subtree_of leaves (start + k) (len - k) c1 in (out1 ++ h ∷ [], c2)) in
      let in_right : List Digest × Cache =
        (let (out1, c1) = subproof fuel leaves (m - k) (start + k) (len - k) false out c in
          let (h, c2) = subtree_of leaves start k c1 in (out1 ++ h ∷ [], c2)) in
      if m == len then (if b then (out, c) else whole) else if leb m k then in_left else in_right
