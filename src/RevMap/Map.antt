-- ===== src/RevMap/Map.antt =====
-- core/revmap/src/lib.rs: `RevocationMap`, which holds the revoked keys in increasing order.
use index_one.Base.{
  ℕ, zero, suc, ◌+◌, ◌-◌, ◌/◌, ◌%◌, ◌^◌, Bool, true, false, ◌&&◌, ◌||◌, List, [], ◌∷◌, ltb, take,
  drop, if◌then◌else◌, Bytes, Result, ok, err, is_ok, ◌==◌, ◌!=◌, list_eq, nat_eq, ◌++◌, option_eq,
}
use index_one.Crypto.{Primitives}
use index_one.RevMap.Defs.{
  Hash, max_depth, bit, MapProof, leaf_hash, node_hash, at_height, at_depth,
}

-- The order of arrays of bytes.
abbrev pub lex_lt : Bytes → Bytes → Bool
lex_lt [] [] = false
lex_lt [] (y ∷ ys) = true
lex_lt (x ∷ xs) [] = false
lex_lt (x ∷ xs) (y ∷ ys) = ltb x y || (x == y && lex_lt xs ys)

-- `binary_search` on increasing keys: the place of the key, or else where it belongs.
unfoldable pub binary_search : List Hash → Hash → Result ℕ ℕ
binary_search [] key = err 0
binary_search (k ∷ ks) key =
    let later = binary_search ks key in
    if k == key
    then ok 0
    else if lex_lt key k
    then err 0
    else elim later [ ok pos ↦ ok (suc pos) | err pos ↦ err (suc pos) ]

-- `Vec::insert`
abbrev pub insert_at : ℕ → Hash → List Hash → List Hash
insert_at zero key ks = key ∷ ks
insert_at (suc pos) key [] = key ∷ []
insert_at (suc pos) key (k ∷ ks) = k ∷ insert_at pos key ks

pub record RevocationMap : Type 0 where
  pub keys : List Hash

abbrev pub new_map : RevocationMap
new_map = record { keys = [] }

unfoldable pub revoke : RevocationMap → Hash → RevocationMap
revoke m key = elim (binary_search m.keys key) [
  | ok pos ↦ m
  | err pos ↦ record m { keys = insert_at pos key m.keys }
]

unfoldable pub map_contains : RevocationMap → Hash → Bool
map_contains m key = is_ok (binary_search m.keys key)

-- `partition_point(|k| bit(k, depth) == 0)`
unfoldable pub partition_point : ℕ → List Hash → ℕ
partition_point depth [] = 0
partition_point depth (k ∷ ks) =
    let more = partition_point depth ks in if bit k depth == 0 then suc more else 0

-- `present[depth / 8] |= 1 << (7 - (depth % 8))`
abbrev pub set_mask : ℕ → ℕ → ℕ
set_mask b mask = if b / mask % 2 == 1 then b else b + mask

abbrev pub update : ℕ → (ℕ → ℕ) → Bytes → Bytes
update i f [] = []
update zero f (b ∷ bs) = f b ∷ bs
update (suc i) f (b ∷ bs) = b ∷ update i f bs

unfoldable pub set_bit : ℕ → Bytes → Bytes
set_bit depth present = update (depth / 8) (λ b. set_mask b (2 ^ (7 - depth % 8))) present

-- The keys on the side of the key, and those on the other side.
abbrev pub halves : ℕ → Hash → List Hash → List Hash × List Hash
halves depth key keys =
    let split = partition_point depth keys in
    if bit key depth == 0
    then (take split keys, drop split keys)
    else (drop split keys, take split keys)

abbrev zero_bytes : ℕ → Bytes
zero_bytes zero = []
zero_bytes (suc n) = 0 ∷ zero_bytes n

-- `vec![0u8; DEPTH / 8]`
abbrev pub no_bits : Bytes
no_bits = zero_bytes 32

module _ ⦃prim : Primitives⦄ where
  -- `subtree_root` at the depth `DEPTH - height`; at height zero that is `DEPTH`.
  unfoldable pub subtree_root : ℕ → List Hash → Hash
  subtree_root height [] = at_height height
  subtree_root zero (k ∷ ks) = leaf_hash k
  subtree_root (suc height) (k ∷ ks) =
      let split = partition_point (max_depth - suc height) (k ∷ ks) in
      node_hash (subtree_root height (take split (k ∷ ks)))
        (subtree_root height (drop split (k ∷ ks)))

  -- `RevocationMap::root`
  unfoldable pub map_root : RevocationMap → Hash
  map_root m = subtree_root max_depth m.keys

  -- `collect_siblings` at the depth `DEPTH - height`, with the two buffers it extends.
  unfoldable pub collect_siblings : ℕ → List Hash → Hash → List Hash → Bytes → List Hash × Bytes
  collect_siblings zero keys key siblings present = (siblings, present)
  collect_siblings (suc height) keys key siblings present =
      let depth = max_depth - suc height in
      let (same, other) = halves depth key keys in
      let sibling = subtree_root height other in
      let kept = sibling != at_depth depth in
      collect_siblings height same key (if kept then siblings ++ sibling ∷ [] else siblings)
        (if kept then set_bit depth present else present)

  unfoldable pub prove : RevocationMap → Hash → MapProof
  prove m key =
      let (siblings, present) = collect_siblings max_depth m.keys key [] no_bits in
      record { present = present; siblings = siblings }
