-- ===== src/Chain/Scope/Allows.antt =====
-- What a permission lets its holder do, and that narrowing never lets a child do more.
use native.Mathlib.Nat.{le_trans}
use index_one.Base.{
  ℕ, ◌≤◌, ◌≡◌, refl, ◌∙◌, true, ◌&&◌, List, [], ◌∷◌, arith, all, All, &&_iff, Text, contains,
  intersection, contains-intersection, nat_eq, list_eq, sym, ◌⊎◌, inl, inr, any, !=_iff, Bool-cases,
  is_subset-contains, option_eq,
}
use index_one.Chain.Scope.{
  Constraint, amount_max, resource_in, Permission, u64_max, amounts, least, resource_sets, meet,
  within, permission_amount_max, resource_set, authorizes_subset_of, permissions_narrow, foldl,
}

-- One constraint holds of a use with this amount and resource.
abbrev pub Satisfies : ℕ → Text → Constraint → Type 0
Satisfies amount resource (amount_max n) = amount ≤ n
Satisfies amount resource (resource_in rs) = contains rs resource ≡ true

-- The permission allows the action on the resource at the amount: it names the action and each of
-- its constraints holds.
abbrev pub Allows : Permission → Text → ℕ → Text → Type 0
Allows p action amount resource =
    (p.action ≡ action) × All (Satisfies amount resource) p.constraints

-- The amounts and the resources of a list of constraints, taken apart.
satisfied_parts :
    (amount : ℕ) (resource : Text) (cs : List Constraint)
    → All (Satisfies amount resource) cs
    → All (λ n. amount ≤ n) (amounts cs)
      × All (λ rs. contains rs resource ≡ true) (resource_sets cs)
satisfied_parts amount resource [] h = (tt, tt)
satisfied_parts amount resource (amount_max n ∷ cs) h =
    let (a, r) = satisfied_parts amount resource cs h.1 in ((h.0, a), r)
satisfied_parts amount resource (resource_in rs ∷ cs) h =
    let (a, r) = satisfied_parts amount resource cs h.1 in (a, (h.0, r))

satisfied_of_parts :
    (amount : ℕ) (resource : Text) (cs : List Constraint)
    → All (λ n. amount ≤ n) (amounts cs)
    → All (λ rs. contains rs resource ≡ true) (resource_sets cs)
    → All (Satisfies amount resource) cs
satisfied_of_parts amount resource [] a r = tt
satisfied_of_parts amount resource (amount_max n ∷ cs) a r =
    (a.0, satisfied_of_parts amount resource cs a.1 r)
satisfied_of_parts amount resource (resource_in rs ∷ cs) a r =
    (r.0, satisfied_of_parts amount resource cs a r.1)

least_bound :
    (amount : ℕ) (ns : List ℕ) (d : ℕ) → All (λ n. amount ≤ n) ns → amount ≤ d → amount ≤ least ns d
least_bound amount [] d h hd = hd
least_bound amount (n ∷ []) d h hd = h.0
least_bound amount (n ∷ m ∷ ns) d h hd = omega (arith, h.0, least_bound amount (m ∷ ns) d h.1 hd)

bound_least : (amount : ℕ) (ns : List ℕ) (d : ℕ) → amount ≤ least ns d → All (λ n. amount ≤ n) ns
bound_least amount [] d h = tt
bound_least amount (n ∷ []) d h = (h, tt)
bound_least amount (n ∷ m ∷ ns) d h = (omega arith, bound_least amount (m ∷ ns) d (omega arith))

-- Folding the intersection keeps exactly what is in every set.
contains-foldl :
    (r : Text) (first : List Text) (sets : List (List Text))
    → contains (foldl intersection first sets) r
      ≡ (contains first r && all (λ s. contains s r) sets)
contains-foldl r first [] = ground arith
contains-foldl r first (s ∷ sets) =
    contains-foldl r (intersection first s) sets
    ∙ rw (contains-intersection first s r) (ground arith)

all_of_All :
    (r : Text) (sets : List (List Text))
    → All (λ s. contains s r ≡ true) sets
    → all (λ s. contains s r) sets ≡ true
all_of_All r [] h = refl
all_of_All r (s ∷ sets) h = rw (h.0, all_of_All r sets h.1)

All-of_all :
    (r : Text) (sets : List (List Text))
    → all (λ s. contains s r) sets ≡ true
    → All (λ s. contains s r ≡ true) sets
All-of_all r [] h = tt
All-of_all r (s ∷ sets) h =
    let (a, b) = (&&_iff (contains s r) (all (λ s. contains s r) sets)).0 h in
    (a, All-of_all r sets b)

-- The child's resource set is within the parent's, whatever the two are.
within_allows :
    (child parent : List (List Text)) (r : Text)
    → within (meet child) (meet parent) ≡ true
    → All (λ s. contains s r ≡ true) child
    → All (λ s. contains s r ≡ true) parent
within_allows child [] r h a = tt
within_allows [] (p ∷ ps) r h a = cc
within_allows (c ∷ cs) (p ∷ ps) r h a =
    let in_child : contains (foldl intersection c cs) r ≡ true =
      contains-foldl r c cs ∙ all_of_All r (c ∷ cs) a in
    let in_parent =
      is_subset-contains (foldl intersection c cs) (foldl intersection p ps) r h in_child in
    All-of_all r (p ∷ ps) (sym (contains-foldl r p ps) ∙ in_parent)

pub subset_parts :
    (child parent : Permission)
    → authorizes_subset_of child parent ≡ true
    → (child.action ≡ parent.action)
      × (permission_amount_max child ≤ permission_amount_max parent)
      × (within (resource_set child) (resource_set parent) ≡ true)
unfolding authorizes_subset_of
subset_parts child parent h = ground (arith, !=_iff child.action parent.action)

-- Where `authorizes_subset_of` accepts, whatever the child allows the parent allows: the same
-- action, at the same amount (a 64-bit number) and on the same resource.
pub authorizes_subset_of-Allows :
    (child parent : Permission) (action : Text) (amount : ℕ) (resource : Text)
    → authorizes_subset_of child parent ≡ true
    → amount ≤ u64_max
    → Allows child action amount resource
    → Allows parent action amount resource
unfolding permission_amount_max resource_set
authorizes_subset_of-Allows child parent action amount resource h fits a =
    let (same, ceiling, sets) = subset_parts child parent h in
    let (amts, rs) = satisfied_parts amount resource child.constraints a.1 in
    let below = least_bound amount (amounts child.constraints) u64_max amts fits in
    (
      sym same ∙ a.0,
      satisfied_of_parts amount resource parent.constraints
          (bound_least amount (amounts parent.constraints) u64_max (le_trans below ceiling))
          (within_allows (resource_sets child.constraints) (resource_sets parent.constraints)
            resource sets rs),
    )

-- Some permission of the list allows the use.
abbrev pub AnyAllows : List Permission → Text → ℕ → Text → Type 0
AnyAllows [] action amount resource = ⊥
AnyAllows (p ∷ ps) action amount resource =
    Allows p action amount resource ⊎ AnyAllows ps action amount resource

any_allows :
    (child : Permission) (parents : List Permission) (action : Text) (amount : ℕ) (resource : Text)
    → any (λ p. authorizes_subset_of child p) parents ≡ true
    → amount ≤ u64_max
    → Allows child action amount resource
    → AnyAllows parents action amount resource
any_allows child [] action amount resource h fits a = cc
any_allows child (p ∷ ps) action amount resource h fits a =
    elim (Bool-cases (authorizes_subset_of child p)) [
      | inl this ↦ inl (authorizes_subset_of-Allows child p action amount resource this fits a)
      | inr not_this ↦
          inr (any_allows child ps action amount resource (ground (arith, h, not_this)) fits a)
    ]

pub permissions_narrow-Allows :
    (children parents : List Permission) (action : Text) (amount : ℕ) (resource : Text)
    → permissions_narrow children parents ≡ true
    → amount ≤ u64_max
    → AnyAllows children action amount resource
    → AnyAllows parents action amount resource
unfolding permissions_narrow
permissions_narrow-Allows [] parents action amount resource h fits a = absurd a
permissions_narrow-Allows (c ∷ cs) parents action amount resource h fits (inl this) =
    any_allows c parents action amount resource (ground (arith, h)) fits this
permissions_narrow-Allows (c ∷ cs) parents action amount resource h fits (inr rest) =
    permissions_narrow-Allows cs parents action amount resource (ground (arith, h)) fits rest
