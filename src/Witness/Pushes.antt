-- ===== src/Witness/Pushes.antt =====
-- core/witness/src/lib.rs: what `subproof` pushes, with its cache, is the pure list of nodes.
use index_one.Base.{
  ℕ, zero, suc, ◌+◌, ◌-◌, ◌≤◌, ◌<◌, ◌≡◌, sym, ap, ◌∙◌, inl, inr, Bool, true, false, [], ◌∷◌, ◌++◌,
  arith, leb, length, ◌==◌, ==_iff, Bool-cases, le→leb, nat_eq, list_eq, option_eq, List,
}
use mathlib.Core.List.{append_assoc, append-nil}
use mathlib.Core.Path.{ap₂}
use index_one.Crypto.{Primitives}
use index_one.Witness.Defs.{Digest}
use index_one.Witness.Tree.{Cache, split_point, subproof}
use index_one.Witness.Split.{split_point_bounds}
use index_one.Witness.Memo.{IsSound, subtree-Computes}
use index_one.Witness.Consistency.{sub_nodes}

module _ ⦃prim : Primitives⦄ where
  -- The nodes that are pushed for a range, after those that are there, and a cache that is sound.
  abbrev pub Pushes :
      ℕ → List Digest → ℕ → ℕ → ℕ → Bool → List Digest → List Digest × Cache → Type 0
  Pushes fuel leaves m start len b out x =
      (x.0 ≡ out ++ sub_nodes fuel leaves m start len b) × IsSound leaves x.1

  Pushes-whole :
      (fuel : ℕ) (leaves : List Digest) (m start len : ℕ) (b : Bool) (out : List Digest) (c : Cache)
      → m ≡ len
      → start + len ≤ length leaves
      → IsSound leaves c
      → Pushes (suc fuel) leaves m start len b out (subproof (suc fuel) leaves m start len b out c)
  unfolding subproof sub_nodes
  Pushes-whole fuel leaves m start len true out c whole fits v =
      let test : (m == len) ≡ true = ground (arith, whole) in rw test (sym (append-nil out), v)
  Pushes-whole fuel leaves m start len false out c whole fits v =
      let test : (m == len) ≡ true = ground (arith, whole) in
      let (e, v') = subtree-Computes (suc len) leaves start len c (omega arith) fits v in
      rw test (ap (λ h. out ++ h ∷ []) e, v')

  pushed :
      (out part : List Digest) (nodes : List Digest) (h h' : Digest)
      → nodes ≡ out ++ part
      → h ≡ h'
      → nodes ++ h ∷ [] ≡ out ++ (part ++ h' ∷ [])
  pushed out part nodes h h' en eh =
      ap₂ (λ a d. a ++ d ∷ []) en eh ∙ append_assoc out part (h' ∷ [])

  Pushes-left :
      (fuel : ℕ) (leaves : List Digest) (m start len : ℕ) (b : Bool) (out : List Digest) (c : Cache)
      → m < len
      → m ≤ split_point len
      → 1 < len
      → start + len ≤ length leaves
      → Pushes fuel leaves m start
          (split_point len)
          b
          out
          (subproof fuel leaves m start (split_point len) b out c)
      → Pushes (suc fuel) leaves m start len b out (subproof (suc fuel) leaves m start len b out c)
  unfolding subproof sub_nodes
  Pushes-left fuel leaves m start len b out c less here more fits (e, v) =
      let k = split_point len in
      let (_, below, _) = split_point_bounds len more in
      let (eh, v') =
        subtree-Computes (suc (len - k)) leaves (start + k) (len - k)
          (subproof fuel leaves m start k b out c).1 (omega arith) (omega (arith, fits, below)) v in
      let part : (m == len) ≡ false = ground (arith, less) in
      let left : leb m k ≡ true = le→leb m k here in rw (part, left) (pushed out _ _ _ _ e eh, v')

  Pushes-right :
      (fuel : ℕ) (leaves : List Digest) (m start len : ℕ) (b : Bool) (out : List Digest) (c : Cache)
      → m < len
      → split_point len < m
      → 1 < len
      → start + len ≤ length leaves
      → Pushes fuel leaves
          (m - split_point len)
          (start + split_point len)
          (len - split_point len)
          false
          out
          (subproof fuel leaves
            (m - split_point len)
            (start + split_point len)
            (len - split_point len)
            false
            out
            c)
      → Pushes (suc fuel) leaves m start len b out (subproof (suc fuel) leaves m start len b out c)
  unfolding subproof sub_nodes
  Pushes-right fuel leaves m start len b out c less there more fits (e, v) =
      let k = split_point len in
      let (eh, v') =
        subtree-Computes (suc k) leaves start k
          (subproof fuel leaves (m - k) (start + k) (len - k) false out c).1 (omega arith)
          (omega (arith, fits, there, less)) v in
      let part : (m == len) ≡ false = ground (arith, less) in
      let right : leb m k ≡ false = ground (arith, there) in
      rw (part, right) (pushed out _ _ _ _ e eh, v')

  pub subproof-Pushes :
      (fuel : ℕ) (leaves : List Digest) (m start len : ℕ) (b : Bool) (out : List Digest) (c : Cache)
      → 0 < m
      → m ≤ len
      → start + len ≤ length leaves
      → len < fuel
      → IsSound leaves c
      → Pushes fuel leaves m start len b out (subproof fuel leaves m start len b out c)
  subproof-Pushes zero leaves m start len b out c pos le fits enough v =
      absurd (omega (arith, enough))
  subproof-Pushes (suc fuel) leaves m start len b out c pos le fits enough v =
      let k = split_point len in
      elim (Bool-cases (m == len)) [
        | inl whole ↦ Pushes-whole fuel leaves m start len b out c ((==_iff m len).0 whole) fits v
        | inr other ↦
            let less : m < len = ground (arith, other, le) in
            let more : 1 < len = omega (arith, pos, less) in
            let (above, below, _) = split_point_bounds len more in
            elim (Bool-cases (leb m k)) [
              | inl left ↦
                  let here : m ≤ k = ground (arith, left) in
                  Pushes-left fuel leaves m start len b out c less here more fits (
                    subproof-Pushes fuel leaves m start k b out c pos here
                      (omega (arith, fits, below)) (omega (arith, enough, below)) v)
              | inr right ↦
                  let there : k < m = ground (arith, right) in
                  Pushes-right fuel leaves m start len b out c less there more fits (
                    subproof-Pushes fuel leaves (m - k) (start + k) (len - k) false out c
                      (omega (arith, there)) (omega (arith, le)) (omega (arith, fits, below))
                      (omega (arith, enough, above, below)) v)
            ]
      ]
