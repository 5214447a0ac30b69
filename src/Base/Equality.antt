-- ===== src/Base/Equality.antt =====
-- `PartialEq`: a Boolean test that decides equality, as an instance argument.
use Prim.Native.Nat.{ℕ}
use mathlib.Core.Path.{◌≡◌, refl}
use mathlib.Core.Logic.{◌↔◌}
use mathlib.Core.Bool.{Bool, true, false, ◌&&◌, ◌||◌, not}
use mathlib.Core.Option.{Option, none, some}
use mathlib.Core.List.{List, [], ◌∷◌}
use native.Mathlib.Omega.{arith}
use index_one.Base.Tests.{nat_beq, nat_beq_iff, if◌then◌else◌}

pub record PartialEq {ℓ} (T : Type ℓ) : Type ℓ where
  pub eq : T → T → Bool
  pub eq_iff : (x y : T) → (eq x y ≡ true) ↔ (x ≡ y)

infix 50 ◌!=◌ ◌==◌
abbrev pub ◌!=◌ {ℓ} : {T : Type ℓ} ⦃inst : PartialEq T⦄ → T → T → Bool
◌!=◌ ⦃inst⦄ x y = not (inst.eq x y)

abbrev pub ◌==◌ {ℓ} : {T : Type ℓ} ⦃inst : PartialEq T⦄ → T → T → Bool
◌==◌ ⦃inst⦄ x y = inst.eq x y

module _ {ℓ} {A : Type ℓ} ⦃e : PartialEq A⦄ where
  pub ==_iff : (a b : A) → ((a == b) ≡ true) ↔ (a ≡ b)
  ==_iff a b = e.eq_iff a b

  pub ==_refl : (a : A) → (a == a) ≡ true
  ==_refl a = (e.eq_iff a a).1 refl

  -- `a != b` is false exactly when the two are equal.
  pub !=_iff : (a b : A) → ((a != b) ≡ false) ↔ (a ≡ b)
  !=_iff a b = ground (arith, e.eq_iff a b)

  pub !=_refl : (a : A) → (a != a) ≡ false
  !=_refl a = (!=_iff a a).1 refl

instance abbrev pub nat_eq : PartialEq ℕ
nat_eq = record { eq = nat_beq; eq_iff = nat_beq_iff }

module _ {ℓ} {A : Type ℓ} ⦃e : PartialEq A⦄ where
  abbrev pub list_beq : List A → List A → Bool
  list_beq [] [] = true
  list_beq [] (y ∷ ys) = false
  list_beq (x ∷ xs) [] = false
  list_beq (x ∷ xs) (y ∷ ys) = e.eq x y && list_beq xs ys

  pub list_beq_iff : (xs ys : List A) → (list_beq xs ys ≡ true) ↔ (xs ≡ ys)
  list_beq_iff [] [] = ground arith
  list_beq_iff [] (y ∷ ys) = ground arith
  list_beq_iff (x ∷ xs) [] = ground arith
  list_beq_iff (x ∷ xs) (y ∷ ys) = ground (arith, e.eq_iff x y, list_beq_iff xs ys)

  instance abbrev pub list_eq : PartialEq (List A)
  list_eq = record { eq = list_beq; eq_iff = list_beq_iff }

  abbrev pub option_beq : Option A → Option A → Bool
  option_beq none none = true
  option_beq none (some y) = false
  option_beq (some x) none = false
  option_beq (some x) (some y) = e.eq x y

  pub option_beq_iff : (x y : Option A) → (option_beq x y ≡ true) ↔ (x ≡ y)
  option_beq_iff none none = ground arith
  option_beq_iff none (some y) = ground arith
  option_beq_iff (some x) none = ground arith
  option_beq_iff (some x) (some y) = ground (arith, e.eq_iff x y)

  instance abbrev pub option_eq : PartialEq (Option A)
  option_eq = record { eq = option_beq; eq_iff = option_beq_iff }

-- `Vec<u8>`, `&[u8]`, and the UTF-8 bytes that a Rust `String` holds.
abbrev pub Bytes : Type 0
Bytes = List ℕ

-- The UTF-8 bytes of a Rust `String` or `&str`.
abbrev pub Text : Type 0
Text = List ℕ

module _ {ℓ} {A : Type ℓ} ⦃e : PartialEq A⦄ where
  -- `contains` of a slice or a set
  abbrev pub contains : List A → A → Bool
  contains [] a = false
  contains (x ∷ xs) a = e.eq x a || contains xs a

  -- Every item of the first list is in the second.
  abbrev pub is_subset : List A → List A → Bool
  is_subset [] ys = true
  is_subset (x ∷ xs) ys = contains ys x && is_subset xs ys

  -- The items of the first list that are in the second.
  abbrev pub intersection : List A → List A → List A
  intersection [] ys = []
  intersection (x ∷ xs) ys =
      let rest = intersection xs ys in if contains ys x then x ∷ rest else rest

  pub contains-intersection :
      (xs ys : List A) (a : A) → contains (intersection xs ys) a ≡ (contains xs a && contains ys a)
  contains-intersection [] ys a = refl
  contains-intersection (x ∷ xs) ys a = ground (arith, contains-intersection xs ys a, e.eq_iff x a)

  pub is_subset-contains :
      (xs ys : List A) (a : A)
      → is_subset xs ys ≡ true
      → contains xs a ≡ true
      → contains ys a ≡ true
  is_subset-contains [] ys a s h = cc
  is_subset-contains (x ∷ xs) ys a s h = ground (arith, is_subset-contains xs ys a, e.eq_iff x a)

  pub contains-is_subset :
      (xs ys : List A)
      → ((a : A) → contains xs a ≡ true → contains ys a ≡ true)
      → is_subset xs ys ≡ true
  contains-is_subset [] ys h = refl
  contains-is_subset (x ∷ xs) ys h =
      let rest = contains-is_subset xs ys (λ a m. h a (ground (arith, m))) in
      ground (arith, rest, h x (ground (arith, e.eq_iff x x)))
