-- ===== src/RevMap/Halves.antt =====
-- The two halves of the keys at a depth: the side of a key has its bit, and holds the key.
use index_one.Base.{
  ℕ, zero, suc, ◌≡◌, refl, sym, ◌∙◌, subst, ◌⊎◌, inl, inr, true, false, List, [], ◌∷◌, arith, take,
  drop, All, ◌==◌, ==_iff, Bool-cases, contains, nat_eq, list_eq, option_eq, ◌-◌, Bool,
  if◌then◌else◌,
}
use index_one.RevMap.Defs.{Hash, bit, max_depth, node_hash, at_height}
use index_one.RevMap.Map.{lex_lt, partition_point, halves, subtree_root}
use index_one.RevMap.Order.{IsKey, Increasing}
use index_one.RevMap.Bits.{SameTo, bit-lex_lt, bit-cases}
use index_one.RevMap.Soundness.{contains-take, contains-drop}
use index_one.Crypto.{Primitives}

-- Keys in order that have the bits of the key above a depth.
pub record Region (key : Hash) (depth : ℕ) (keys : List Hash) : Type 0 where
  pub all_keys : All IsKey keys
  pub increasing : Increasing keys
  pub under : All (SameTo depth key) keys

All-take : (P : Hash → Type 0) (n : ℕ) (ks : List Hash) → All P ks → All P (take n ks)
All-take P zero ks h = tt
All-take P (suc n) [] h = tt
All-take P (suc n) (k ∷ ks) h = (h.0, All-take P n ks h.1)

All-drop : (P : Hash → Type 0) (n : ℕ) (ks : List Hash) → All P ks → All P (drop n ks)
All-drop P zero ks h = h
All-drop P (suc n) [] h = tt
All-drop P (suc n) (k ∷ ks) h = All-drop P n ks h.1

Increasing-take : (n : ℕ) (ks : List Hash) → Increasing ks → Increasing (take n ks)
Increasing-take zero ks h = tt
Increasing-take (suc n) [] h = tt
Increasing-take (suc n) (k ∷ ks) h =
    (All-take (λ x. lex_lt k x ≡ true) n ks h.0, Increasing-take n ks h.1)

Increasing-drop : (n : ℕ) (ks : List Hash) → Increasing ks → Increasing (drop n ks)
Increasing-drop zero ks h = h
Increasing-drop (suc n) [] h = tt
Increasing-drop (suc n) (k ∷ ks) h = Increasing-drop n ks h.1

contains-take-drop :
    (n : ℕ) (ks : List Hash) (key : Hash)
    → contains ks key ≡ true
    → (contains (take n ks) key ≡ true) ⊎ (contains (drop n ks) key ≡ true)
contains-take-drop zero ks key h = inr h
contains-take-drop (suc n) [] key h = inr h
contains-take-drop (suc n) (k ∷ ks) key h = elim (Bool-cases (k == key)) [
  | inl same ↦ inl (rw same refl)
  | inr differs ↦ elim (contains-take-drop n ks key (rw differs at h)) [
    | inl before ↦ inl (rw (differs, before) refl)
    | inr behind ↦ inr behind
  ]
]

pub All-contains :
    (P : Hash → Type 0) (ks : List Hash) (key : Hash) → All P ks → contains ks key ≡ true → P key
All-contains P [] key h there = absurd (ground (arith, there))
All-contains P (k ∷ ks) key h there = elim (Bool-cases (k == key)) [
  | inl same ↦ subst P ((==_iff k key).0 same) h.0
  | inr differs ↦ All-contains P ks key h.1 (rw differs at there)
]

take_bits :
    (depth : ℕ) (ks : List Hash) → All (λ k. bit k depth ≡ 0) (take (partition_point depth ks) ks)
unfolding partition_point
take_bits depth [] = tt
take_bits depth (k ∷ ks) = elim (Bool-cases (bit k depth == 0)) [
  | inl low ↦ rw low ((==_iff (bit k depth) 0).0 low, take_bits depth ks)
  | inr high ↦ rw high tt
]

-- The keys behind one whose bit is set have it set too.
all_high :
    (key k : Hash) (depth : ℕ) (ks : List Hash)
    → IsKey k
    → bit k depth ≡ 1
    → SameTo depth key k
    → All IsKey ks
    → All (λ x. lex_lt k x ≡ true) ks
    → All (SameTo depth key) ks
    → All (λ x. bit x depth ≡ 1) ks
all_high key k depth [] is_key high same keys above under = tt
all_high key k depth (x ∷ ks) is_key high same keys above under = (
  elim (bit-cases x depth) [
    | inr one ↦ one
    | inl low ↦
        let agree : SameTo depth k x = λ i h. sym (same i h) ∙ under.0 i h in
        absurd
          (ground (arith, above.0, bit-lex_lt k x depth is_key.bytes keys.0.bytes agree high low))
  ],
  all_high key k depth ks is_key high same keys.1 above.1 under.1,
)

drop_bits :
    (key : Hash) (depth : ℕ) (ks : List Hash)
    → All IsKey ks
    → Increasing ks
    → All (SameTo depth key) ks
    → All (λ k. bit k depth ≡ 1) (drop (partition_point depth ks) ks)
unfolding partition_point
drop_bits key depth [] keys sorted under = tt
drop_bits key depth (k ∷ ks) keys sorted under = elim (bit-cases k depth) [
  | inl low ↦
      let test : (bit k depth == 0) ≡ true = ground (arith, low) in
      rw test (drop_bits key depth ks keys.1 sorted.1 under.1)
  | inr high ↦
      let test : (bit k depth == 0) ≡ false = ground (arith, high) in
      rw test (high, all_high key k depth ks keys.0 high under.0 keys.1 sorted.0 under.1)
]

SameTo-suc :
    (depth : ℕ) (a b : Hash) → SameTo depth a b → bit a depth ≡ bit b depth → SameTo (suc depth) a b
SameTo-suc depth a b same here i h = elim (Bool-cases (i == depth)) [
  | inl last ↦ subst (λ n. bit a n ≡ bit b n) (sym ((==_iff i depth).0 last)) here
  | inr before ↦ same i (ground (arith, h, before))
]

All-SameTo-suc :
    (depth b : ℕ) (key : Hash) (ks : List Hash)
    → All (SameTo depth key) ks
    → All (λ k. bit k depth ≡ b) ks
    → bit key depth ≡ b
    → All (SameTo (suc depth) key) ks
All-SameTo-suc depth b key [] under bits here = tt
All-SameTo-suc depth b key (k ∷ ks) under bits here = (
  SameTo-suc depth key k under.0 (here ∙ sym bits.0),
  All-SameTo-suc depth b key ks under.1 bits.1 here,
)

abbrev side : Bool → List Hash → List Hash → List Hash × List Hash
side b low high = if b then (low, high) else (high, low)

-- The side of the key is a region one level down, and the key does not get lost.
abbrev Narrows : Hash → ℕ → List Hash → List Hash → Type 0
Narrows key depth ks same =
    Region key (suc depth) same × (contains ks key ≡ true → contains same key ≡ true)

pub halves-Region :
    (key : Hash) (depth : ℕ) (ks : List Hash)
    → Region key depth ks
    → Narrows key depth ks (halves depth key ks).0
halves-Region key depth ks r =
    let n = partition_point depth ks in
    let low = take_bits depth ks in
    let high = drop_bits key depth ks r.all_keys r.increasing r.under in
    elim (bit-cases key depth) [
      | inl zero' ↦
          let test : (bit key depth == 0) ≡ true = ground (arith, zero') in
          subst (λ b. Narrows key depth ks (side b (take n ks) (drop n ks)).0) (sym test)
            (
              record {
                all_keys = All-take IsKey n ks r.all_keys;
                increasing = Increasing-take n ks r.increasing;
                under =
                    All-SameTo-suc depth 0 key (take n ks)
                      (All-take (SameTo depth key) n ks r.under) low zero';
              },
              λ there. elim (contains-take-drop n ks key there) [
                | inl found ↦ found
                | inr lost ↦ absurd (
                    omega
                      (arith, zero', All-contains (λ k. bit k depth ≡ 1) (drop n ks) key high lost))
              ],
            )
      | inr one ↦
          let test : (bit key depth == 0) ≡ false = ground (arith, one) in
          subst (λ b. Narrows key depth ks (side b (take n ks) (drop n ks)).0) (sym test)
            (
              record {
                all_keys = All-drop IsKey n ks r.all_keys;
                increasing = Increasing-drop n ks r.increasing;
                under =
                    All-SameTo-suc depth 1 key (drop n ks)
                      (All-drop (SameTo depth key) n ks r.under) high one;
              },
              λ there. elim (contains-take-drop n ks key there) [
                | inr found ↦ found
                | inl lost ↦ absurd (
                    omega
                      (arith, one, All-contains (λ k. bit k depth ≡ 0) (take n ks) key low lost))
              ],
            )
    ]

-- The keys of the side are keys of the whole.
pub contains-halves :
    (key other : Hash) (depth : ℕ) (ks : List Hash)
    → contains (halves depth key ks).0 other ≡ true
    → contains ks other ≡ true
contains-halves key other depth ks h =
    let n = partition_point depth ks in
    elim (Bool-cases (bit key depth == 0)) [
      | inl left ↦ contains-take n ks other (rw left at h)
      | inr right ↦ contains-drop n ks other (rw right at h)
    ]

module _ ⦃prim : Primitives⦄ where
  -- A node over the side of the key and the other side.
  abbrev pub node_over : Bool → Hash → Hash → Hash
  node_over is_left same other = if is_left then node_hash same other else node_hash other same

  -- The hash of a subtree is the node over the hashes of the two sides, also where it is empty.
  pub subtree_root-halves :
      (key : Hash) (h : ℕ) (ks : List Hash)
      → let (same, other) = halves (max_depth - suc h) key ks in
        subtree_root (suc h) ks
        ≡ node_over (bit key (max_depth - suc h) == 0) (subtree_root h same) (subtree_root h other)
  unfolding subtree_root partition_point at_height
  subtree_root-halves key h [] = elim (Bool-cases (bit key (max_depth - suc h) == 0)) [
    | inl left ↦ rw left refl
    | inr right ↦ rw right refl
  ]
  subtree_root-halves key h (k ∷ ks) = elim (Bool-cases (bit key (max_depth - suc h) == 0)) [
    | inl left ↦ rw left refl
    | inr right ↦ rw right refl
  ]
