-- ===== src/Crypto/Framing/RoundTrip.antt =====
-- Encoding then decoding, and decoding then encoding, of the hybrid framing.
use mathlib.Core.Path.{ap₂}
use mathlib.Core.List.{append-nil}
use index_one.Base.{
  ℕ, ◌/◌, ◌%◌, ◌<◌, ◌≡◌, ◌∷◌, ◌++◌, arith, Bytes, length, nat_eq, ltb, ok, ltb→lt, length-append,
  take-append_length, drop-append_length, Bool-cases, inl, inr, bind_then, All, [], ◌∙◌, false,
  take, drop, length-take_le, sym, take-append-drop, lt→ltb, ap, All-suffix, subst, refl,
}
use index_one.Crypto.Defs.{Algorithm}
use index_one.Crypto.Framing.{
  algorithm_tag, tag_algorithm, u32_be, u32_from_be, encode_component, read_component, frame_two,
  decode_two, Component, no_rest,
}

pub tag-algorithm_tag : (a : Algorithm) (t : ℕ) → algorithm_tag a ≡ ok t → tag_algorithm t ≡ ok a
unfolding algorithm_tag tag_algorithm
tag-algorithm_tag a t h = ground arith

algorithm_tag-tag : (a : Algorithm) (t : ℕ) → tag_algorithm t ≡ ok a → algorithm_tag a ≡ ok t
unfolding algorithm_tag tag_algorithm
algorithm_tag-tag a t h = ground arith

u32_from_be-be :
    (n : ℕ)
    → n < 4294967296
    → u32_from_be (n / 16777216 % 256) (n / 65536 % 256) (n / 256 % 256) (n % 256) ≡ n
u32_from_be-be n h = omega arith

-- The bytes of one framed component.
abbrev framed : ℕ → Bytes → Bytes
framed t p = t ∷ (u32_be (length p) ++ p)

encode_component_bytes :
    (out : Bytes) (a : Algorithm) (p : Bytes) {r : Bytes}
    → encode_component out a p ≡ ok r
    → (t : ℕ) × (algorithm_tag a ≡ ok t) × (length p < 4294967296) × (r ≡ out ++ framed t p)
unfolding encode_component
encode_component_bytes out a p h =
    let (t, e, g) = bind_then (algorithm_tag a) _ h in
    elim (Bool-cases (ltb (length p) 4294967296)) [
      | inl fits ↦ (t, e, ltb→lt _ _ fits, ground (arith, fits))
      | inr big ↦ ground arith
    ]

-- Reading a framed component that stands before any rest gives back both.
read-framed :
    (a : Algorithm) (t : ℕ) (p rest : Bytes)
    → algorithm_tag a ≡ ok t
    → length p < 4294967296
    → read_component (framed t p ++ rest) ≡ ok ((a, p), rest)
unfolding read_component
read-framed a t p rest e h =
    rw (tag-algorithm_tag a t e, u32_from_be-be (length p) h)
      (elim (Bool-cases (ltb (length (p ++ rest)) (length p))) [
        | inl short ↦ absurd (omega (arith, ltb→lt _ _ short, length-append p rest))
        | inr fits ↦ rw (fits, take-append_length p rest, drop-append_length p rest)
      ])

-- Whatever two components `frame_two` accepts, `decode_two` reads back from the bytes it wrote.
pub decode_two-frame_two :
    (a : Algorithm) (p : Bytes) (b : Algorithm) (q out : Bytes)
    → frame_two a p b q ≡ ok out
    → decode_two out ≡ ok ((a, p), (b, q))
unfolding frame_two decode_two
decode_two-frame_two a p b q out h =
    let (r, e, g) = bind_then (encode_component [] a p) _ h in
    let (s, ta, fits_p, er) = encode_component_bytes [] a p e in
    let (t, tb, fits_q, eout) = encode_component_bytes r b q g in
    let whole : out ≡ framed s p ++ (framed t q ++ []) = eout ∙ rw (er, append-nil) in
    rw (whole, read-framed a s p (framed t q ++ []) ta fits_p, read-framed b t q [] tb fits_q)

-- A cut of `l` at `n` bytes that is there.
cut_bytes :
    (n : ℕ) (l p rest : Bytes)
    → ltb (length l) n ≡ false
    → take n l ≡ p
    → drop n l ≡ rest
    → (length p ≡ n) × (l ≡ p ++ rest)
cut_bytes n l p rest fits ep er =
    (rw (← ep) (length-take_le n l (ground arith)), rw (← ep, ← er) (sym (take-append-drop n l)))

u32_be-from_be :
    (x y z v : ℕ)
    → x < 256
    → y < 256
    → z < 256
    → v < 256
    → u32_be (u32_from_be x y z v) ≡ x ∷ y ∷ z ∷ v ∷ []
u32_be-from_be x y z v hx hy hz hv =
    let e0 : u32_from_be x y z v / 16777216 % 256 ≡ x = omega arith in
    let e1 : u32_from_be x y z v / 65536 % 256 ≡ y = omega arith in
    let e2 : u32_from_be x y z v / 256 % 256 ≡ z = omega arith in
    let e3 : u32_from_be x y z v % 256 ≡ v = omega arith in cc (e0, e1, e2, e3)

-- What `read_component` accepts is one framed component and the rest.
read_component_bytes :
    (input : Bytes) (a : Algorithm) (p rest : Bytes)
    → All (λ x. x < 256) input
    → read_component input ≡ ok ((a, p), rest)
    → (t : ℕ) × (algorithm_tag a ≡ ok t) × (length p < 4294967296) × (input ≡ framed t p ++ rest)
unfolding read_component
read_component_bytes [] a p rest w h = cc
read_component_bytes (t ∷ []) a p rest w h = cc
read_component_bytes (t ∷ x ∷ []) a p rest w h = cc
read_component_bytes (t ∷ x ∷ y ∷ []) a p rest w h = cc
read_component_bytes (t ∷ x ∷ y ∷ z ∷ []) a p rest w h = cc
read_component_bytes (t ∷ x ∷ y ∷ z ∷ v ∷ l) a p rest w h =
    let n = u32_from_be x y z v in
    let (a', e, g) = bind_then (tag_algorithm t) _ h in
    elim (Bool-cases (ltb (length l) n)) [
      | inl short ↦ ground arith
      | inr fits ↦
          let ea : a' ≡ a = ground arith in
          let ep : take n l ≡ p = ground arith in
          let er : drop n l ≡ rest = ground arith in
          let (el, ewhole) = cut_bytes n l p rest fits ep er in
          let eb : u32_be (length p) ≡ x ∷ y ∷ z ∷ v ∷ [] =
            rw el (u32_be-from_be x y z v w.1.0 w.1.1.0 w.1.1.1.0 w.1.1.1.1.0) in
          (t, algorithm_tag-tag a t (rw (← ea) e), omega (arith, w), cc (eb, ewhole))
    ]

encode_component-framed :
    (out : Bytes) (a : Algorithm) (t : ℕ) (p : Bytes)
    → algorithm_tag a ≡ ok t
    → length p < 4294967296
    → encode_component out a p ≡ ok (out ++ framed t p)
unfolding encode_component
encode_component-framed out a t p e h = rw (e, lt→ltb _ _ h)

no_rest-eq-ok :
    (cs ds : Component × Component) (r : Bytes) → no_rest cs r ≡ ok ds → (cs ≡ ds) × (r ≡ [])
no_rest-eq-ok cs ds [] h = (cc, refl)
no_rest-eq-ok cs ds (x ∷ r) h = cc

-- The two reads behind a successful decoding.
pub decode_two_reads :
    (input : Bytes) (a : Algorithm) (p : Bytes) (b : Algorithm) (q : Bytes)
    → decode_two input ≡ ok ((a, p), (b, q))
    → (rest : Bytes) × (read_component input ≡ ok ((a, p), rest))
      × (read_component rest ≡ ok ((b, q), []))
unfolding decode_two
decode_two_reads input a p b q h =
    let (first, e, g) = bind_then (read_component input) _ h in
    let (second, e', g') = bind_then (read_component first.1) _ g in
    let (ec, er) = no_rest-eq-ok _ _ _ g' in
    let ea : first.0 ≡ (a, p) = ap (λ (cs : Component × Component). cs.0) ec in
    let eb : second.0 ≡ (b, q) = ap (λ (cs : Component × Component). cs.1) ec in
    (
      first.1,
      e ∙ ap (λ (c : Component). ok (c, first.1)) ea,
      e' ∙ ap₂ (λ (c : Component) (r : Bytes). ok (c, r)) eb er,
    )

-- The framing is canonical: whatever bytes `decode_two` accepts are the bytes that `frame_two`
-- writes for the two components, so no other byte string stands for the same pair.
pub frame_two-decode_two :
    (input : Bytes) (a : Algorithm) (p : Bytes) (b : Algorithm) (q : Bytes)
    → All (λ x. x < 256) input
    → decode_two input ≡ ok ((a, p), (b, q))
    → frame_two a p b q ≡ ok input
unfolding frame_two
frame_two-decode_two input a p b q w h =
    let (rest, e, e') = decode_two_reads input a p b q h in
    let (s, ta, fits_p, whole) = read_component_bytes input a p rest w e in
    let w' = All-suffix (λ x. x < 256) (framed s p) rest (subst (All (λ x. x < 256)) whole w) in
    let (t, tb, fits_q, whole') = read_component_bytes rest b q [] w' e' in
    rw
      (
        encode_component-framed [] a s p ta fits_p,
        encode_component-framed (framed s p) b t q tb fits_q,
      )
      (ap ok (sym (whole ∙ ap (λ r. framed s p ++ r) (whole' ∙ append-nil (framed t q)))))
