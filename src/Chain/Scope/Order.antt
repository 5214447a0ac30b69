-- ===== src/Chain/Scope/Order.antt =====
-- Narrowing is a preorder, so a chain of narrowings narrows its first scope.
use index_one.Base.{
  ◌≤◌, ◌≡◌, refl, ◌∙◌, true, Option, none, some, List, [], ◌∷◌, arith, any, !=_iff, Text,
  is_subset-contains, contains-is_subset, nat_eq, list_eq, option_eq, ◌↔◌, false, ok, ℕ, ◌&&◌, ◌!=◌,
}
use native.Mathlib.Nat.{le_trans}
use index_one.Chain.Scope.{
  Permission, Scope, within, budget_widened, is_some, permission_amount_max, resource_set,
  authorizes_subset_of, permissions_narrow, is_narrowing_of,
}
use index_one.Chain.Scope.Allows.{subset_parts}

within_refl : (s : Option (List Text)) → within s s ≡ true
within_refl none = refl
within_refl (some s) = contains-is_subset s s (λ a h. h)

within_trans :
    (a b c : Option (List Text)) → within a b ≡ true → within b c ≡ true → within a c ≡ true
within_trans a b none h k = refl
within_trans a none (some c) h k = cc
within_trans none (some b) (some c) h k = cc
within_trans (some a) (some b) (some c) h k =
    contains-is_subset a c (λ x m. is_subset-contains b c x k (is_subset-contains a b x h m))

subset_of_parts :
    (child parent : Permission)
    → child.action ≡ parent.action
    → permission_amount_max child ≤ permission_amount_max parent
    → within (resource_set child) (resource_set parent) ≡ true
    → authorizes_subset_of child parent ≡ true
unfolding authorizes_subset_of
subset_of_parts child parent a b c = ground (arith, !=_iff child.action parent.action)

pub authorizes_subset_of_refl : (p : Permission) → authorizes_subset_of p p ≡ true
authorizes_subset_of_refl p = subset_of_parts p p refl (omega arith) (within_refl (resource_set p))

pub authorizes_subset_of_trans :
    (a b c : Permission)
    → authorizes_subset_of a b ≡ true
    → authorizes_subset_of b c ≡ true
    → authorizes_subset_of a c ≡ true
authorizes_subset_of_trans a b c h k =
    let (e, n, w) = subset_parts a b h in
    let (e', n', w') = subset_parts b c k in
    subset_of_parts a c (e ∙ e') (le_trans n n')
      (within_trans (resource_set a) (resource_set b) (resource_set c) w w')

any_widen :
    (a b : Permission) (ps : List Permission)
    → authorizes_subset_of a b ≡ true
    → any (λ p. authorizes_subset_of b p) ps ≡ true
    → any (λ p. authorizes_subset_of a p) ps ≡ true
any_widen a b [] h m = m
any_widen a b (p ∷ ps) h m = ground (arith, authorizes_subset_of_trans a b p h, any_widen a b ps h)

-- A permission within one of a list that narrows is within one of the wider list.
any_trans :
    (a : Permission) (bs cs : List Permission)
    → any (λ p. authorizes_subset_of a p) bs ≡ true
    → permissions_narrow bs cs ≡ true
    → any (λ p. authorizes_subset_of a p) cs ≡ true
unfolding permissions_narrow
any_trans a [] cs h k = cc
any_trans a (b ∷ bs) cs h k = ground (arith, any_widen a b cs, any_trans a bs cs)

permissions_narrow_trans :
    (xs bs cs : List Permission)
    → permissions_narrow xs bs ≡ true
    → permissions_narrow bs cs ≡ true
    → permissions_narrow xs cs ≡ true
unfolding permissions_narrow
permissions_narrow_trans [] bs cs h k = refl
permissions_narrow_trans (a ∷ xs) bs cs h k =
    ground (arith, any_trans a bs cs, permissions_narrow_trans xs bs cs)

-- What `is_narrowing_of` accepts, one field for each of its checks.
pub record Narrows (s parent : Scope) : Type 0 where
  pub permissions : permissions_narrow s.permissions parent.permissions ≡ true
  pub budget : budget_widened s.budget parent.budget ≡ false
  pub currency :
      is_some s.budget ≡ true → is_some parent.budget ≡ true → s.currency ≡ parent.currency
  pub expiry : s.expires_at ≤ parent.expires_at

Narrows-of_ok : (s parent : Scope) → is_narrowing_of s parent ≡ ok tt → Narrows s parent
unfolding is_narrowing_of
Narrows-of_ok s parent h = record {
  permissions = ground (arith, h);
  budget = ground (arith, h);
  currency = λ a b. ground (arith, h, a, b, !=_iff s.currency parent.currency);
  expiry = ground (arith, h);
}

Narrows-ok : (s parent : Scope) → Narrows s parent → is_narrowing_of s parent ≡ ok tt
unfolding is_narrowing_of
Narrows-ok s parent n =
    let currency : (is_some s.budget && is_some parent.budget && s.currency != parent.currency)
        ≡ false =
      ground (arith, n.currency, !=_iff s.currency parent.currency) in
    rw (n.permissions, n.budget, currency) (ground (arith, n.expiry))

-- `is_narrowing_of` returns `Ok` exactly on the scopes that narrow: every permission within one of
-- the parent's, the budget bounded by the parent's, in its currency, and the expiry no later.
pub is_narrowing_of_iff : (s parent : Scope) → (is_narrowing_of s parent ≡ ok tt) ↔ Narrows s parent
is_narrowing_of_iff s parent = (Narrows-of_ok s parent, Narrows-ok s parent)

budget_trans :
    (a b c : Option ℕ)
    → budget_widened a b ≡ false
    → budget_widened b c ≡ false
    → budget_widened a c ≡ false
budget_trans a b c h k = ground arith

currency_trans :
    (a b c : Scope)
    → Narrows a b
    → Narrows b c
    → is_some a.budget ≡ true
    → is_some c.budget ≡ true
    → a.currency ≡ c.currency
currency_trans a b c n m ha hc =
    let hb : is_some b.budget ≡ true = ground (arith, m.budget, hc) in
    n.currency ha hb ∙ m.currency hb hc

pub Narrows-trans : (a b c : Scope) → Narrows a b → Narrows b c → Narrows a c
Narrows-trans a b c n m = record {
  permissions =
      permissions_narrow_trans a.permissions b.permissions c.permissions n.permissions
        m.permissions;
  budget = budget_trans a.budget b.budget c.budget n.budget m.budget;
  currency = currency_trans a b c n m;
  expiry = le_trans n.expiry m.expiry;
}

-- Narrowing twice is narrowing: what a block may be given from its parent, it could have been
-- given from its parent's parent.
pub is_narrowing_of_trans :
    (a b c : Scope)
    → is_narrowing_of a b ≡ ok tt
    → is_narrowing_of b c ≡ ok tt
    → is_narrowing_of a c ≡ ok tt
is_narrowing_of_trans a b c h k =
    Narrows-ok a c (Narrows-trans a b c (Narrows-of_ok a b h) (Narrows-of_ok b c k))

permissions_narrow_cons :
    (p : Permission) (ps qs : List Permission)
    → permissions_narrow ps qs ≡ true
    → permissions_narrow ps (p ∷ qs) ≡ true
unfolding permissions_narrow
permissions_narrow_cons p [] qs h = refl
permissions_narrow_cons p (x ∷ ps) qs h = ground (arith, permissions_narrow_cons p ps qs)

permissions_narrow_refl : (ps : List Permission) → permissions_narrow ps ps ≡ true
unfolding permissions_narrow
permissions_narrow_refl [] = refl
permissions_narrow_refl (p ∷ ps) =
    rw (authorizes_subset_of_refl p, permissions_narrow_cons p ps ps (permissions_narrow_refl ps))

pub Narrows-refl : (s : Scope) → Narrows s s
Narrows-refl s = record {
  permissions = permissions_narrow_refl s.permissions;
  budget = ground arith;
  currency = λ _ _. refl;
  expiry = omega arith;
}
