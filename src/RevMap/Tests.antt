-- ===== src/RevMap/Tests.antt =====
-- The soundness of the map's inclusion proofs at a map of one key.
use index_one.Base.{
  ◌≡◌, refl, ◌⊎◌, true, [], ◌∷◌, length, contains, list_eq, nat_eq, option_eq, false, arith,
}
use index_one.Witness.Collision.{Collision, IsSized}
use index_one.RevMap.Defs.{
  Hash, MapProof, verify_inclusion, verify_non_inclusion, recompute_root, expand, expand_from,
  fold_up, bit, node_hash, leaf_hash, at_height, empty_leaf,
}
use index_one.RevMap.Map.{
  binary_search, RevocationMap, new_map, revoke, map_root, prove, subtree_root, partition_point,
}
use index_one.RevMap.Soundness.{length-subtree_root, verify_inclusion-map_root}
use index_one.RevMap.Order.{IsKey, IsValid}
use index_one.RevMap.NonInclusion.{verify_non_inclusion-map_root}
use index_one.RevMap.Completeness.{prove_complete}
use index_one.RevMap.Elision.{prove_carries_all}
use index_one.Sample.{fixed, sample}
use index_one.Sample.Length.{length-fixed}

abbrev a_key : Hash
a_key = fixed 32 (128 ∷ [])

abbrev one_key : RevocationMap
one_key = record { keys = a_key ∷ [] }

revoked_once : revoke new_map a_key ≡ one_key
unfolding revoke binary_search
revoked_once = refl

revoked_twice : revoke one_key a_key ≡ one_key
unfolding revoke binary_search
revoked_twice = refl

sample-IsSized : IsSized
sample-IsSized x = length-fixed 32 x

-- No sibling on the path of the only key is carried.
abbrev bare_path : MapProof
bare_path = record { present = fixed 32 []; siblings = [] }

bare_accepted : verify_inclusion (map_root one_key) a_key bare_path ≡ true
unfolding verify_inclusion recompute_root expand expand_from fold_up bit node_hash leaf_hash
    at_height empty_leaf map_root subtree_root partition_point
bare_accepted = refl

verify_inclusion-map_root_example : (contains one_key.keys a_key ≡ true) ⊎ Collision
verify_inclusion-map_root_example =
    verify_inclusion-map_root one_key a_key bare_path sample-IsSized tt bare_accepted

prove_carries_all_example : (length (prove one_key a_key).siblings ≡ 256) ⊎ Collision
prove_carries_all_example = prove_carries_all one_key a_key sample-IsSized

a_key-IsKey : IsKey a_key
a_key-IsKey = record { size = refl; bytes = omega arith }

one_key-IsValid : IsValid one_key
one_key-IsValid = record { keys = (a_key-IsKey, tt); increasing = (tt, tt) }

abbrev b_key : Hash
b_key = fixed 32 (64 ∷ [])

b_key-IsKey : IsKey b_key
b_key-IsKey = record { size = refl; bytes = omega arith }

-- The only sibling on the path of the other key that is not a default is at the top.
abbrev one_sibling : MapProof
one_sibling = record {
  present = fixed 32 (128 ∷ []);
  siblings = subtree_root 255 (a_key ∷ []) ∷ [];
}

absent_accepted : verify_non_inclusion (map_root one_key) b_key one_sibling ≡ true
unfolding verify_non_inclusion recompute_root expand expand_from fold_up bit node_hash leaf_hash
    at_height empty_leaf map_root subtree_root partition_point
absent_accepted = refl

verify_non_inclusion-map_root_example : (contains one_key.keys b_key ≡ false) ⊎ Collision
verify_non_inclusion-map_root_example =
    verify_non_inclusion-map_root one_key b_key one_sibling sample-IsSized one_key-IsValid
      (length-subtree_root sample-IsSized 255 (a_key ∷ []), tt) absent_accepted

prove_complete_example :
    ((contains one_key.keys b_key ≡ true
        → verify_inclusion (map_root one_key) b_key (prove one_key b_key) ≡ true)
      × (contains one_key.keys b_key ≡ false
          → verify_non_inclusion (map_root one_key) b_key (prove one_key b_key) ≡ true))
    ⊎ Collision
prove_complete_example = prove_complete one_key b_key sample-IsSized one_key-IsValid b_key-IsKey
