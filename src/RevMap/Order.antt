-- ===== src/RevMap/Order.antt =====
-- The keys of the map stay in order, and revoking adds one key.
use index_one.Base.{
  ℕ, zero, suc, ◌<◌, ◌≡◌, refl, true, false, List, [], ◌∷◌, arith, length, All, ◌==◌, nat_eq,
  list_eq, option_eq, sym, subst, inl, inr, ◌||◌, err, is_ok, ==_iff, Bool-cases, Result-cases,
  contains, ap, ◌∙◌, ◌⊎◌, Bool,
}
use index_one.RevMap.Defs.{Hash}
use index_one.RevMap.Map.{lex_lt, binary_search, insert_at, RevocationMap, revoke, map_contains}

-- A key is an array of 32 bytes.
pub record IsKey (k : Hash) : Type 0 where
  pub size : length k ≡ 32
  pub bytes : All (λ b. b < 256) k

-- Each key is below all that follow it.
abbrev pub Increasing : List Hash → Type 0
Increasing [] = Unit
Increasing (k ∷ ks) = All (λ x. lex_lt k x ≡ true) ks × Increasing ks

pub record IsValid (m : RevocationMap) : Type 0 where
  pub keys : All IsKey m.keys
  pub increasing : Increasing m.keys

lex_lt_irrefl : (a : Hash) → lex_lt a a ≡ false
lex_lt_irrefl [] = refl
lex_lt_irrefl (x ∷ a) = ground (arith, lex_lt_irrefl a)

lex_lt_trans : (a b c : Hash) → lex_lt a b ≡ true → lex_lt b c ≡ true → lex_lt a c ≡ true
lex_lt_trans a [] c h h' = absurd (below_nil a h)
  where
    below_nil : (a : Hash) → lex_lt a [] ≡ true → ⊥
    below_nil [] h = cc
    below_nil (x ∷ a) h = cc
lex_lt_trans a b [] h h' = absurd (below_nil b h')
  where
    below_nil : (a : Hash) → lex_lt a [] ≡ true → ⊥
    below_nil [] h = cc
    below_nil (x ∷ a) h = cc
lex_lt_trans [] (y ∷ b) (z ∷ c) h h' = refl
lex_lt_trans (x ∷ a) (y ∷ b) (z ∷ c) h h' = ground (arith, lex_lt_trans a b c)

lex_lt_total : (a b : Hash) → (a == b) ≡ false → lex_lt a b ≡ false → lex_lt b a ≡ true
lex_lt_total [] [] differs h = cc
lex_lt_total [] (y ∷ b) differs h = cc
lex_lt_total (x ∷ a) [] differs h = refl
lex_lt_total (x ∷ a) (y ∷ b) differs h = ground (arith, lex_lt_total a b)

All-lex_lt :
    (key k : Hash) (ks : List Hash)
    → lex_lt key k ≡ true
    → All (λ x. lex_lt k x ≡ true) ks
    → All (λ x. lex_lt key x ≡ true) ks
All-lex_lt key k [] h hs = tt
All-lex_lt key k (x ∷ ks) h hs = (lex_lt_trans key k x h hs.0, All-lex_lt key k ks h hs.1)

-- What `insert_at` puts in has what all the items have.
All-insert_at :
    (P : Hash → Type 0) (pos : ℕ) (key : Hash) (ks : List Hash)
    → P key
    → All P ks
    → All P (insert_at pos key ks)
All-insert_at P zero key ks h hs = (h, hs)
All-insert_at P (suc pos) key [] h hs = (h, tt)
All-insert_at P (suc pos) key (k ∷ ks) h hs = (hs.0, All-insert_at P pos key ks h hs.1)

insert_at-Increasing :
    (ks : List Hash) (key : Hash) (pos : ℕ)
    → Increasing ks
    → binary_search ks key ≡ err pos
    → Increasing (insert_at pos key ks)
unfolding binary_search
insert_at-Increasing [] key zero sorted h = (tt, tt)
insert_at-Increasing [] key (suc pos) sorted h = (tt, tt)
insert_at-Increasing (k ∷ ks) key pos sorted h = elim (Bool-cases (k == key)) [
  | inl same ↦ absurd (ground (arith, same, h))
  | inr differs ↦ elim (Bool-cases (lex_lt key k)) [
    | inl below ↦
        let front : pos ≡ 0 = ground (arith, differs, below, h) in
        subst (λ n. Increasing (insert_at n key (k ∷ ks))) (sym front)
          ((below, All-lex_lt key k ks below sorted.0), sorted)
    | inr above ↦ elim (Result-cases (binary_search ks key)) [
      | inl (found, e) ↦ absurd (ground (arith, differs, above, e, h))
      | inr (later, e) ↦
          let next : pos ≡ suc later = ground (arith, differs, above, e, h) in
          let less =
            lex_lt_total key k (ground (arith, differs, ==_iff k key, ==_iff key k)) above in
          subst (λ n. Increasing (insert_at n key (k ∷ ks))) (sym next)
            (
              All-insert_at (λ x. lex_lt k x ≡ true) later key ks less sorted.0,
              insert_at-Increasing ks key later sorted.1 e,
            )
    ]
  ]
]

-- A key below all others is not among them.
contains-below :
    (key : Hash) (ks : List Hash) → All (λ x. lex_lt key x ≡ true) ks → contains ks key ≡ false
contains-below key [] h = refl
contains-below key (x ∷ ks) h =
    ground (arith, h.0, contains-below key ks h.1, ==_iff x key, lex_lt_irrefl key, lex_lt_irrefl x)

pub binary_search-eq-contains :
    (ks : List Hash) (key : Hash) → Increasing ks → is_ok (binary_search ks key) ≡ contains ks key
unfolding binary_search
binary_search-eq-contains [] key sorted = refl
binary_search-eq-contains (k ∷ ks) key sorted = elim (Bool-cases (k == key)) [
  | inl same ↦ rw same refl
  | inr differs ↦ elim (Bool-cases (lex_lt key k)) [
    | inl below ↦
        let absent = contains-below key ks (All-lex_lt key k ks below sorted.0) in
        rw (differs, below, absent) refl
    | inr above ↦ elim (Result-cases (binary_search ks key)) [
      | inl (pos, e) ↦
          let there : contains ks key ≡ true =
            sym (binary_search-eq-contains ks key sorted.1) ∙ ap is_ok e in
          rw (differs, above, e, there) refl
      | inr (pos, e) ↦
          let absent : contains ks key ≡ false =
            sym (binary_search-eq-contains ks key sorted.1) ∙ ap is_ok e in
          rw (differs, above, e, absent) refl
    ]
  ]
]

pub contains-insert_at :
    (pos : ℕ) (ids : List Hash) (id other : Hash)
    → contains (insert_at pos id ids) other ≡ (id == other || contains ids other)
contains-insert_at zero ids id other = refl
contains-insert_at (suc pos) [] id other = refl
contains-insert_at (suc pos) (x ∷ ids) id other =
    ground (arith, contains-insert_at pos ids id other)

-- A known id is in the list already.
pub known_id :
    (ids : List Hash) (id other : Hash)
    → contains ids id ≡ true
    → contains ids other ≡ (id == other || contains ids other)
known_id ids id other known = elim (Bool-cases (id == other)) [
  | inl same ↦
      let moved = subst (λ x. contains ids x ≡ true) ((==_iff id other).0 same) known in
      rw (same, moved) refl
  | inr differs ↦ rw differs refl
]

-- The map holds a key when its list does.
pub map_contains-eq-contains :
    (m : RevocationMap) (key : Hash) → IsValid m → map_contains m key ≡ contains m.keys key
unfolding map_contains
map_contains-eq-contains m key valid = binary_search-eq-contains m.keys key valid.increasing

revoke_cases :
    (m : RevocationMap) (key : Hash)
    → IsValid m
    → ((contains m.keys key ≡ true) × (revoke m key ≡ m))
      ⊎ ((pos : ℕ) × (binary_search m.keys key ≡ err pos)
          × (revoke m key ≡ record m { keys = insert_at pos key m.keys }))
unfolding revoke
revoke_cases m key valid = elim (Result-cases (binary_search m.keys key)) [
  | inl (pos, e) ↦ inl (
    sym (binary_search-eq-contains m.keys key valid.increasing) ∙ ap is_ok e,
    rw (e, revoke) refl,
  )
  | inr (pos, e) ↦ inr (pos, e, rw (e, revoke) refl)
]

-- `revoke` keeps the keys in order, and afterwards the map has the new key and those that it had.
pub revoke-IsValid :
    (m : RevocationMap) (key other : Hash)
    → IsValid m
    → IsKey key
    → IsValid (revoke m key)
      × (map_contains (revoke m key) other ≡ (key == other || map_contains m other))
revoke-IsValid m key other valid is_key =
    let had = map_contains-eq-contains m other valid in
    let adds = λ (b : Bool). key == other || b in
    elim (revoke_cases m key valid) [
      | inl (known, same) ↦
          subst
            (λ (r : RevocationMap).
              IsValid r × (map_contains r other ≡ adds (map_contains m other)))
            (sym same) (valid, had ∙ known_id m.keys key other known ∙ ap adds (sym had))
      | inr (pos, e, made) ↦
          let m' = record m { keys = insert_at pos key m.keys } in
          let valid' : IsValid m' = record {
            keys = All-insert_at IsKey pos key m.keys is_key valid.keys;
            increasing = insert_at-Increasing m.keys key pos valid.increasing e;
          } in
          subst
            (λ (r : RevocationMap).
              IsValid r × (map_contains r other ≡ adds (map_contains m other)))
            (sym made)
            (
              valid',
              map_contains-eq-contains m' other valid'
                  ∙ contains-insert_at pos m.keys key other
                  ∙ ap adds (sym had),
            )
    ]
