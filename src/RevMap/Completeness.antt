-- ===== src/RevMap/Completeness.antt =====
-- What `prove` builds is accepted, as inclusion or as non-inclusion.
use mathlib.Core.List.{append-nil, append_assoc}
use index_one.Base.{
  ℕ, zero, suc, ◌+◌, ◌-◌, ◌≤◌, ◌<◌, ◌≡◌, refl, sym, ap, subst, ◌⊎◌, inl, inr, Bool, true, ◌&&◌,
  some, List, [], ◌∷◌, ◌++◌, arith, length, ◌==◌, ==_iff, Bytes, Bool-cases, &&_iff, nat_eq,
  list_eq, option_eq, ◌∙◌, false, if◌then◌else◌, contains,
}
use index_one.RevMap.Defs.{
  Hash, max_depth, bit, leaf_hash, empty_leaf, expand_from, expand, fold_up, recompute_root,
  verify_inclusion, verify_non_inclusion,
}
use index_one.RevMap.Map.{
  RevocationMap, halves, subtree_root, map_root, collect_siblings, prove, no_bits, set_bit,
}
use index_one.RevMap.Order.{IsKey, IsValid}
use index_one.RevMap.Elision.{kept, collect_step}
use index_one.RevMap.NonInclusion.{below, IsValid-Region}
use index_one.RevMap.Paths.{bottom_leaf, path_of, length-path_of, fold_up-path_of}
use index_one.Crypto.{Primitives}
use mathlib.Core.Option.{map as option_map}
use index_one.Witness.Collision.{Collision, IsSized}

-- The bitmap with the bits above a depth set, one after the other.
marked : ℕ → Bytes
marked zero = no_bits
marked (suc d) = set_bit d (marked d)

all_below : ℕ → (ℕ → Bool) → Bool
all_below zero p = true
all_below (suc n) p = p n && all_below n p

all_below_at : (n : ℕ) (p : ℕ → Bool) (i : ℕ) → all_below n p ≡ true → i < n → p i ≡ true
unfolding all_below
all_below_at zero p i h inside = absurd (omega (arith, inside))
all_below_at (suc n) p i h inside = elim (Bool-cases (i == n)) [
  | inl last ↦
      subst (λ k. p k ≡ true) (sym ((==_iff i n).0 last)) ((&&_iff (p n) (all_below n p)).0 h).0
  | inr before ↦
      all_below_at n p i ((&&_iff (p n) (all_below n p)).0 h).1 (ground (arith, inside, before))
]

marked_table : all_below 256 (λ i. bit (marked 256) i == 1) ≡ true
unfolding all_below bit marked set_bit
marked_table = refl

marked-zero : no_bits ≡ marked 0
unfolding marked
marked-zero = refl

marked-suc : (d : ℕ) → marked (suc d) ≡ set_bit d (marked d)
unfolding marked
marked-suc d = refl

length-marked : length (marked 256) ≡ 32
unfolding marked set_bit
length-marked = refl

bit-marked : (i : ℕ) → i < 256 → (bit (marked 256) i == 1) ≡ true
bit-marked i h = all_below_at 256 (λ j. bit (marked 256) j == 1) i marked_table h

module _ ⦃prim : Primitives⦄ where
  -- A proof with all bits set carries the whole path.
  expand_from-marked :
      (n d : ℕ) (sibs : List Hash)
      → d + n ≡ 256
      → length sibs ≡ n
      → expand_from n d (marked 256) sibs ≡ some sibs
  unfolding expand_from
  expand_from-marked zero d [] total size = refl
  expand_from-marked zero d (s ∷ sibs) total size = absurd (omega (arith, size))
  expand_from-marked (suc n) d [] total size = absurd (omega (arith, size))
  expand_from-marked (suc n) d (s ∷ sibs) total size =
      rw
        (
          bit-marked d (omega (arith, total)),
          expand_from-marked n (d + 1) sibs (omega (arith, total)) (omega (arith, size)),
        )
        refl

  collect_siblings-path_of :
      (h : ℕ) (ks : List Hash) (key : Hash) (siblings : List Hash)
      → IsSized
      → h ≤ max_depth
      → (collect_siblings h ks key siblings (marked (max_depth - h))
          ≡ (siblings ++ path_of h ks key, marked max_depth))
        ⊎ Collision
  unfolding path_of collect_siblings
  collect_siblings-path_of zero ks key siblings sized inside =
      inl (ap (λ s. (s, marked max_depth)) (sym (append-nil siblings)))
  collect_siblings-path_of (suc h) ks key siblings sized inside =
      let (same, other) = halves (max_depth - suc h) key ks in
      let sib = subtree_root h other in
      elim (kept sized h other (omega (arith, inside))) [
        | inr c ↦ inr c
        | inl differs ↦
            elim (collect_siblings-path_of h same key (siblings ++ sib ∷ []) sized
              (omega (arith, inside))) [
                | inr c ↦ inr c
                | inl rest ↦ inl (
                    collect_step sized h ks key siblings (marked (max_depth - suc h)) differs
                    ∙ ap (collect_siblings h same key (siblings ++ sib ∷ []))
                        (sym (marked-suc (max_depth - suc h)) ∙ ap marked (below h inside))
                    ∙ rest
                    ∙ ap (λ s. (s, marked max_depth))
                        (append_assoc siblings (sib ∷ []) (path_of h same key)))
              ]
      ]

  prove_whole :
      (m : RevocationMap) (key : Hash)
      → IsSized
      → (prove m key ≡ record { present = marked 256; siblings = path_of max_depth m.keys key })
        ⊎ Collision
  unfolding prove
  prove_whole m key sized =
      elim (collect_siblings-path_of max_depth m.keys key [] sized (omega arith)) [
        | inr c ↦ inr c
        | inl e ↦ inl (
            ap (λ (r : List Hash × Bytes). record { present = r.1; siblings = r.0 })
              (ap (collect_siblings max_depth m.keys key []) marked-zero ∙ e))
      ]

  whole_path :
      (ks : List Hash) (key : Hash)
      → expand (record { present = marked 256; siblings = path_of max_depth ks key })
        ≡ some (path_of max_depth ks key)
  unfolding expand
  whole_path ks key = rw length-marked (
      expand_from-marked max_depth 0 (path_of max_depth ks key) refl
        (length-path_of max_depth ks key))

  -- The root that a proof leads to from the leaf of the key, or from the empty leaf.
  recompute_root-prove :
      (m : RevocationMap) (key : Hash)
      → IsSized
      → IsValid m
      → IsKey key
      → (recompute_root key
            (if contains m.keys key then leaf_hash key else empty_leaf)
            (prove m key)
          ≡ some (map_root m))
        ⊎ Collision
  unfolding recompute_root map_root
  recompute_root-prove m key sized valid is_key = elim (prove_whole m key sized) [
    | inr c ↦ inr c
    | inl e ↦
        let leaf = if contains m.keys key then leaf_hash key else empty_leaf in
        inl (
          ap (recompute_root key leaf) e
          ∙ ap (option_map (λ full. fold_up key leaf 0 full)) (whole_path m.keys key)
          ∙ ap (λ l. some (fold_up key l 0 (path_of max_depth m.keys key)))
              (sym (bottom_leaf m.keys key is_key (IsValid-Region m key valid)))
          ∙ ap some (fold_up-path_of max_depth m.keys key (omega arith)))
  ]

  -- Where `blake3` gives 32 bytes and the keys of a map are in order, the proof that `prove` builds for
  -- a key is accepted against the root of the map as inclusion if the key is in the map, and as
  -- non-inclusion if it is not, or two inputs are exhibited that `blake3` hashes alike.
  pub prove_complete :
      (m : RevocationMap) (key : Hash)
      → IsSized
      → IsValid m
      → IsKey key
      → ((contains m.keys key ≡ true → verify_inclusion (map_root m) key (prove m key) ≡ true)
          × (contains m.keys key ≡ false
              → verify_non_inclusion (map_root m) key (prove m key) ≡ true))
        ⊎ Collision
  unfolding verify_inclusion verify_non_inclusion
  prove_complete m key sized valid is_key = elim (recompute_root-prove m key sized valid is_key) [
    | inr c ↦ inr c
    | inl e ↦
        inl (λ there. (==_iff _ _).1 (rw there at e), λ absent. (==_iff _ _).1 (rw absent at e))
  ]
