-- ===== src/Base/Results.antt =====
-- Rust's `Result<A, E>`: the value or the error, with `?` as a `do` block.
use mathlib.Core.Path.{◌≡◌, refl}
use mathlib.Core.Logic.{◌⊎◌, inl, inr}
use mathlib.Core.Bool.{Bool, true, false}
use mathlib.Core.Option.{Option, none, some}

pub data Result {ℓ κ} (E : Type ℓ) (A : Type κ) : Type (ℓ ⊔ κ) where
  ok : A → Result E A
  err : E → Result E A

-- `if !test { return Err(failure) }`
abbrev pub guard {ℓ} : {E : Type ℓ} → Bool → E → Result E (Unit {0})
guard false failure = err failure
guard true failure = ok tt

-- The two forms of `?` in a block, with and without a value.
infixl 5 ◌>>◌ ◌>>=◌
abbrev pub ◌>>=◌ {ℓ κ μ} :
    {E : Type ℓ} {A : Type κ} {B : Type μ} → Result E A → (A → Result E B) → Result E B
err failure >>= next = err failure
ok value >>= next = next value

abbrev pub ◌>>◌ {ℓ κ} : {E : Type ℓ} {B : Type κ} → Result E (Unit {0}) → Result E B → Result E B
m >> next = m >>= λ done. next

-- `map_err`, which `?` applies through `From`.
abbrev pub map_err {ℓ κ μ} :
    {E : Type ℓ} {F : Type κ} {A : Type μ} → (E → F) → Result E A → Result F A
map_err f (ok a) = ok a
map_err f (err e) = err (f e)

-- `ok_or`
abbrev pub ok_or {ℓ κ} : {E : Type ℓ} {A : Type κ} → Option A → E → Result E A
ok_or none e = err e
ok_or (some a) e = ok a

-- `unwrap_or`
abbrev pub unwrap_or {ℓ κ} : {E : Type ℓ} {A : Type κ} → Result E A → A → A
unwrap_or (ok a) d = a
unwrap_or (err e) d = d

-- `is_ok`
abbrev pub is_ok {ℓ κ} : {E : Type ℓ} {A : Type κ} → Result E A → Bool
is_ok (ok a) = true
is_ok (err e) = false

pub Result-cases {ℓ κ} :
    {E : Type ℓ} {A : Type κ} (m : Result E A) → ((a : A) × (m ≡ ok a)) ⊎ ((e : E) × (m ≡ err e))
Result-cases (ok a) = inl (a, refl)
Result-cases (err e) = inr (e, refl)

-- Inversion of a successful bind.
pub bind_then {ℓ κ μ} :
    {E : Type ℓ} {X : Type κ} {Y : Type μ} (call : Result E X) (next : X → Result E Y) {y : Y}
    → (call >>= next) ≡ ok y
    → (x : X) × (call ≡ ok x) × (next x ≡ ok y)
bind_then (err failure) next returned = cc
bind_then (ok x) next returned = (x, refl, returned)

pub guard-eq-ok {ℓ} : {E : Type ℓ} (b : Bool) (e : E) {u : Unit {0}} → guard b e ≡ ok u → b ≡ true
guard-eq-ok true e h = refl
guard-eq-ok false e h = cc

pub map_err-eq-ok {ℓ κ μ} :
    {E : Type ℓ} {F : Type κ} {A : Type μ} (f : E → F) (m : Result E A) {a : A}
    → map_err f m ≡ ok a
    → m ≡ ok a
map_err-eq-ok f (ok a) h = cc
map_err-eq-ok f (err e) h = cc

-- Inversion of `if !test { return Err(e) }` before the rest of a block.
pub guard_then {ℓ κ} :
    {E : Type ℓ} {B : Type κ} (b : Bool) (e : E) (k : Result E B) {x : B}
    → (guard b e >> k) ≡ ok x
    → (b ≡ true) × (k ≡ ok x)
guard_then true e k h = (refl, h)
guard_then false e k h = cc

-- Inversion of a call with no value before the rest of a block.
pub unit_then {ℓ κ} :
    {E : Type ℓ} {B : Type κ} (m : Result E (Unit {0})) (k : Result E B) {x : B}
    → (m >> k) ≡ ok x
    → (m ≡ ok tt) × (k ≡ ok x)
unit_then (ok tt) k h = (refl, h)
unit_then (err e) k h = cc

-- Inversion of a check of a signature: it ran, and it holds.
pub valid_then {ℓ κ μ} :
    {E : Type ℓ} {F : Type κ} {B : Type μ} (f : E → F) (m : Result E Bool) (e : F) (k : Result F B)
    {x : B}
    → (map_err f m >>= λ valid. guard valid e >> k) ≡ ok x
    → (m ≡ ok true) × (k ≡ ok x)
valid_then f (ok true) e k h = (refl, h)
valid_then f (ok false) e k h = cc
valid_then f (err c) e k h = cc

pub valid_only {ℓ κ} :
    {E : Type ℓ} {F : Type κ} (f : E → F) (m : Result E Bool) (e : F)
    → (map_err f m >>= λ valid. guard valid e) ≡ ok tt
    → m ≡ ok true
valid_only f (ok true) e h = refl
valid_only f (ok false) e h = cc
valid_only f (err c) e h = cc

pub ok-injective {ℓ κ} :
    {E : Type ℓ} {A : Type κ} {a b : A} → ◌≡◌ {A = Result E A} (ok a) (ok b) → a ≡ b
ok-injective h = cc

pub err-injective {ℓ κ} :
    {E : Type ℓ} {A : Type κ} {a b : E} → ◌≡◌ {A = Result E A} (err a) (err b) → a ≡ b
err-injective h = cc
