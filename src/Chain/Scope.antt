-- ===== src/Chain/Scope.antt =====
-- core/chain/src/lib.rs: constraints, permissions, scopes, and what it is to narrow them.
-- A `BTreeSet<&str>` is a list here: only its members are ever read.
pub mod Allows
pub mod Order
use index_one.Base.{
  ℕ, Bool, true, false, not, ◌&&◌, Option, none, some, [], ◌∷◌, ltb, if◌then◌else◌, any, Result, ok,
  guard, ◌!=◌, Text, is_subset, intersection, List, nat_eq, list_eq, option_eq, ◌>>=◌, ◌>>◌,
}
use Prim.Native.Nat.{min}
use index_one.Crypto.{CryptoError}
use mathlib.Core.List.{foldl}

abbrev pub u64_max : ℕ
u64_max = 18446744073709551615

pub data Constraint : Type 0 where
  amount_max : ℕ → Constraint
  resource_in : List Text → Constraint

pub record Permission : Type 0 where
  pub action : Text
  pub constraints : List Constraint

pub record Scope : Type 0 where
  pub permissions : List Permission
  pub budget : Option ℕ
  pub currency : Option Text
  pub max_depth : ℕ
  pub expires_at : ℕ

-- The text of a `Crypto` error is left as the error that it prints.
pub data ChainError : Type 0 where
  scope_widened expiry_extended depth_exceeded missing_purpose broken_hash_link : ChainError
  signature_invalid : ℕ → ChainError
  wrong_signer principal_mismatch root_key_mismatch : ChainError
  crypto : CryptoError → ChainError

abbrev amounts : List Constraint → List ℕ
amounts [] = []
amounts (amount_max n ∷ cs) = n ∷ amounts cs
amounts (resource_in rs ∷ cs) = amounts cs

abbrev least : List ℕ → ℕ → ℕ
least [] default = default
least (n ∷ []) default = n
least (n ∷ m ∷ ns) default = min n (least (m ∷ ns) default)

-- `Permission::amount_max`
unfoldable pub permission_amount_max : Permission → ℕ
permission_amount_max p = least (amounts p.constraints) u64_max

abbrev resource_sets : List Constraint → List (List Text)
resource_sets [] = []
resource_sets (amount_max n ∷ cs) = resource_sets cs
resource_sets (resource_in rs ∷ cs) = rs ∷ resource_sets cs

abbrev meet : List (List Text) → Option (List Text)
meet [] = none
meet (first ∷ sets) = some (foldl intersection first sets)

unfoldable pub resource_set : Permission → Option (List Text)
resource_set p = meet (resource_sets p.constraints)

abbrev within : Option (List Text) → Option (List Text) → Bool
within child none = true
within none (some parent_set) = false
within (some child_set) (some parent_set) = is_subset child_set parent_set

unfoldable pub authorizes_subset_of : Permission → Permission → Bool
authorizes_subset_of p parent =
    if p.action != parent.action
    then false
    else if ltb (permission_amount_max parent) (permission_amount_max p)
    then false
    else within (resource_set p) (resource_set parent)

-- Each permission of the child is within some permission of the parent.
unfoldable pub permissions_narrow : List Permission → List Permission → Bool
permissions_narrow [] parent = true
permissions_narrow (perm ∷ perms) parent =
    any (λ p. authorizes_subset_of perm p) parent && permissions_narrow perms parent

abbrev budget_widened : Option ℕ → Option ℕ → Bool
budget_widened (some child) (some parent_budget) = ltb parent_budget child
budget_widened none (some parent_budget) = true
budget_widened _ none = false

abbrev is_some {ℓ} : {A : Type ℓ} → Option A → Bool
is_some none = false
is_some (some a) = true

unfoldable pub is_narrowing_of : Scope → Scope → Result ChainError (Unit {0})
is_narrowing_of s parent = do
  guard (permissions_narrow s.permissions parent.permissions) scope_widened
  guard (not (budget_widened s.budget parent.budget)) scope_widened
  guard (not (is_some s.budget && is_some parent.budget && s.currency != parent.currency))
      scope_widened
  guard (not (ltb parent.expires_at s.expires_at)) expiry_extended
  ok tt
