-- ===== src/Attestation/Quorum.antt =====
-- What an accepted k-of-n aggregate says: k distinct independent parties vouch for one action.
use index_one.Base.{
  ℕ, zero, suc, ◌≤◌, ◌≡◌, refl, ◌≢◌, ◌↔◌, ◌⊎◌, inl, inr, true, false, not, List, [], ◌∷◌, any, All,
  ok, arith, ltb, contains, guard_then, is_ok, ==_iff, Result-cases, Bool-cases, list_eq, nat_eq,
  option_eq,
}
use index_one.Crypto.{PublicKey, public_key_eq, Primitives}
use index_one.Attestation.Completion.{
  CompletionAttestation, AttestationEncoding, verify as verify_completion,
}
use index_one.Attestation.Independence.{IsIndependent, IsIndependent-of_ok, IsIndependent-ok}
use index_one.Attestation.Threshold.{
  ThresholdAttestation, inconsistent_binding, duplicate_attester,
  not_enough_independent_attestations, same_binding, inconsistent, repeats, individually, count,
  verify,
}

-- The same chain, request, outcome and witnessed root.
pub record SameAction (a b : CompletionAttestation) : Type 0 where
  pub chain : a.chain_digest ≡ b.chain_digest
  pub requested : a.requested_action_digest ≡ b.requested_action_digest
  pub outcome : a.outcome_digest ≡ b.outcome_digest
  pub root : a.witnessed_root ≡ b.witnessed_root

-- All attestations are about the first one's action.
abbrev pub OneAction : List CompletionAttestation → Type 0
OneAction [] = Unit {0}
OneAction (first ∷ rest) = All (λ a. SameAction a first) (first ∷ rest)

-- No attester stands twice.
abbrev pub DistinctKeys : List CompletionAttestation → Type 0
DistinctKeys [] = Unit {0}
DistinctKeys (a ∷ rest) = All (λ b. a.attester_key ≢ b.attester_key) rest × DistinctKeys rest

same_binding-SameAction : (a b : CompletionAttestation) → same_binding a b ≡ true → SameAction a b
same_binding-SameAction a b h = record {
  chain = ground (arith, h, ==_iff a.chain_digest b.chain_digest);
  requested = ground (arith, h, ==_iff a.requested_action_digest b.requested_action_digest);
  outcome = ground (arith, h, ==_iff a.outcome_digest b.outcome_digest);
  root = ground (arith, h, ==_iff a.witnessed_root b.witnessed_root);
}

SameAction-same_binding : (a b : CompletionAttestation) → SameAction a b → same_binding a b ≡ true
SameAction-same_binding a b s = rw (
  (==_iff a.chain_digest b.chain_digest).1 s.chain,
  (==_iff a.requested_action_digest b.requested_action_digest).1 s.requested,
  (==_iff a.outcome_digest b.outcome_digest).1 s.outcome,
  (==_iff a.witnessed_root b.witnessed_root).1 s.root,
)

agree-All :
    (first : CompletionAttestation) (l : List CompletionAttestation)
    → any (λ a. not (same_binding a first)) l ≡ false
    → All (λ a. SameAction a first) l
agree-All first [] h = tt
agree-All first (a ∷ l) h = elim (Bool-cases (same_binding a first)) [
  | inl same ↦ (same_binding-SameAction a first same, agree-All first l (ground (arith, h, same)))
  | inr other ↦ absurd (ground (arith, h, other))
]

All-agree :
    (first : CompletionAttestation) (l : List CompletionAttestation)
    → All (λ a. SameAction a first) l
    → any (λ a. not (same_binding a first)) l ≡ false
All-agree first [] h = refl
All-agree first (a ∷ l) h = rw (SameAction-same_binding a first h.0, All-agree first l h.1)

inconsistent_iff : (l : List CompletionAttestation) → (inconsistent l ≡ false) ↔ OneAction l
unfolding inconsistent
inconsistent_iff [] = (λ _. tt, λ _. refl)
inconsistent_iff (first ∷ rest) = (agree-All first (first ∷ rest), All-agree first (first ∷ rest))

-- A key that is not among the seen ones and a new one is neither.
unseen :
    (x : PublicKey) (seen : List PublicKey) (l : List CompletionAttestation)
    → All (λ b. contains (x ∷ seen) b.attester_key ≡ false) l
    → All (λ b. x ≢ b.attester_key) l × All (λ b. contains seen b.attester_key ≡ false) l
unseen x seen [] h = (tt, tt)
unseen x seen (b ∷ l) h =
    let (apart, fresh) = unseen x seen l h.1 in
    (
      (λ same. ground (arith, h.0, (==_iff x b.attester_key).1 same), apart),
      (ground (arith, h.0), fresh),
    )

seen_with :
    (x : PublicKey) (seen : List PublicKey) (l : List CompletionAttestation)
    → All (λ b. x ≢ b.attester_key) l
    → All (λ b. contains seen b.attester_key ≡ false) l
    → All (λ b. contains (x ∷ seen) b.attester_key ≡ false) l
seen_with x seen [] h k = tt
seen_with x seen (b ∷ l) h k =
    (ground (arith, h.0, k.0, ==_iff x b.attester_key), seen_with x seen l h.1 k.1)

distinct_of_repeats :
    (seen : List PublicKey) (l : List CompletionAttestation)
    → repeats seen l ≡ false
    → All (λ b. contains seen b.attester_key ≡ false) l × DistinctKeys l
unfolding repeats
distinct_of_repeats seen [] h = (tt, tt)
distinct_of_repeats seen (a ∷ l) h = elim (Bool-cases (contains seen a.attester_key)) [
  | inl old ↦ absurd (ground (arith, h, old))
  | inr new ↦
      let (fresh, distinct) =
        distinct_of_repeats (a.attester_key ∷ seen) l (ground (arith, h, new)) in
      let (apart, rest) = unseen a.attester_key seen l fresh in ((new, rest), (apart, distinct))
]

repeats_of_distinct :
    (seen : List PublicKey) (l : List CompletionAttestation)
    → All (λ b. contains seen b.attester_key ≡ false) l
    → DistinctKeys l
    → repeats seen l ≡ false
unfolding repeats
repeats_of_distinct seen [] h d = refl
repeats_of_distinct seen (a ∷ l) h d = rw (
  h.0,
  repeats_of_distinct (a.attester_key ∷ seen) l (seen_with a.attester_key seen l d.0 h.1) d.1,
)

none_seen :
    (l : List CompletionAttestation)
    → All (λ b. contains {A = PublicKey} [] b.attester_key ≡ false) l
none_seen [] = tt
none_seen (a ∷ l) = (refl, none_seen l)

module _ ⦃prim : Primitives⦄ ⦃enc : AttestationEncoding⦄ where
  -- At least `n` of the attestations are independent of the executor.
  abbrev pub Vouch : PublicKey → ℕ → List CompletionAttestation → Type 0
  Vouch key zero l = Unit {0}
  Vouch key (suc n) [] = ⊥
  Vouch key (suc n) (a ∷ l) = (IsIndependent a key × Vouch key n l) ⊎ Vouch key (suc n) l

  pub record HasQuorum (bundle : ThresholdAttestation) (executor_key : PublicKey) : Type 0 where
    pub one_action : OneAction bundle.attestations
    pub distinct : DistinctKeys bundle.attestations
    pub enough : Vouch executor_key bundle.threshold bundle.attestations

  is_ok_unit :
      (a : CompletionAttestation) (key : PublicKey)
      → is_ok (verify_completion a key) ≡ true
      → IsIndependent a key
  is_ok_unit a key h = elim (Result-cases (verify_completion a key)) [
    | inl (tt, e) ↦ IsIndependent-of_ok a key e
    | inr (x, e) ↦ absurd (ground (arith, h, e))
  ]

  Vouch-count :
      (key : PublicKey) (n : ℕ) (l : List CompletionAttestation)
      → n ≤ count (individually key l)
      → Vouch key n l
  unfolding individually
  Vouch-count key zero l h = tt
  Vouch-count key (suc n) [] h = absurd (omega arith)
  Vouch-count key (suc n) (a ∷ l) h = elim (Bool-cases (is_ok (verify_completion a key))) [
    | inl good ↦ inl (is_ok_unit a key good, Vouch-count key n l (ground (arith, h, good)))
    | inr bad ↦ inr (Vouch-count key (suc n) l (ground (arith, h, bad)))
  ]

  count_more :
      (key : PublicKey) (a : CompletionAttestation) (l : List CompletionAttestation)
      → count (individually key l) ≤ count (individually key (a ∷ l))
  unfolding individually
  count_more key a l = ground arith

  count-Vouch :
      (key : PublicKey) (n : ℕ) (l : List CompletionAttestation)
      → Vouch key n l
      → n ≤ count (individually key l)
  unfolding individually
  count-Vouch key zero l v = omega arith
  count-Vouch key (suc n) [] v = absurd v
  count-Vouch key (suc n) (a ∷ l) (inl (i, v)) =
      rw (IsIndependent-ok a key i) (omega (arith, count-Vouch key n l v))
  count-Vouch key (suc n) (a ∷ l) (inr v) =
      omega (arith, count-Vouch key (suc n) l v, count_more key a l)

  pub HasQuorum-of_ok :
      (bundle : ThresholdAttestation) (executor_key : PublicKey)
      → verify bundle executor_key ≡ ok tt
      → HasQuorum bundle executor_key
  unfolding verify
  HasQuorum-of_ok bundle executor_key h =
      let have = count (individually executor_key bundle.attestations) in
      let (agree, h1) =
        guard_then (not (inconsistent bundle.attestations)) inconsistent_binding _ h in
      let (distinct, h2) =
        guard_then (not (repeats [] bundle.attestations)) duplicate_attester _ h1 in
      let (enough, _) =
        guard_then (not (ltb have bundle.threshold))
          (not_enough_independent_attestations have bundle.threshold) _ h2 in
      record {
        one_action = (inconsistent_iff bundle.attestations).0 (ground (arith, agree));
        distinct = (distinct_of_repeats [] bundle.attestations (ground (arith, distinct))).1;
        enough =
            Vouch-count executor_key bundle.threshold bundle.attestations (ground (arith, enough));
      }

  HasQuorum-ok :
      (bundle : ThresholdAttestation) (executor_key : PublicKey)
      → HasQuorum bundle executor_key
      → verify bundle executor_key ≡ ok tt
  unfolding verify
  HasQuorum-ok bundle executor_key q =
      let enough : ltb (count (individually executor_key bundle.attestations)) bundle.threshold
          ≡ false =
        ground (arith, count-Vouch executor_key bundle.threshold bundle.attestations q.enough) in
      rw (
        (inconsistent_iff bundle.attestations).1 q.one_action,
        repeats_of_distinct [] bundle.attestations (none_seen bundle.attestations) q.distinct,
        enough,
      )

  -- `ThresholdAttestation::verify` accepts exactly the aggregates with a quorum: all attestations
  -- are about one action, no attester key stands twice, and at least `threshold` of them are signed
  -- by an attester other than the executor.
  pub threshold_iff :
      (bundle : ThresholdAttestation) (executor_key : PublicKey)
      → (verify bundle executor_key ≡ ok tt) ↔ HasQuorum bundle executor_key
  threshold_iff bundle executor_key =
      (HasQuorum-of_ok bundle executor_key, HasQuorum-ok bundle executor_key)
