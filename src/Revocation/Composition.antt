-- ===== src/Revocation/Composition.antt =====
-- What a composite of checkers answers: live only if all do, and a definite answer is never masked.
use index_one.Base.{
  ◌≡◌, refl, sym, ◌∙◌, ◌≢◌, ◌↔◌, ◌⊎◌, inl, inr, Option, none, some, List, [], ◌∷◌, arith, Result,
  ok, err, ap, ok-injective,
}
use index_one.Revocation.Defs.{
  RevocationId, RevocationStatus, live, revoked, stale, RevocationError, Checker,
}
use index_one.Revocation.Checkers.{verdict, consult, composite_is_revoked}

-- An answer that the loop passes over.
abbrev pub Passes : Result RevocationError RevocationStatus → Type 0
Passes answer = (answer ≡ ok live) ⊎ ((e : RevocationError) × (answer ≡ err e))

answer_cases :
    (answer : Result RevocationError RevocationStatus)
    → (answer ≡ ok live)
      ⊎ (((e : RevocationError) × (answer ≡ err e))
          ⊎ ((status : RevocationStatus) × (answer ≡ ok status) × (status ≢ live)))
answer_cases (ok live) = inl refl
answer_cases (ok (revoked reason)) = inr (inr (revoked reason, refl, λ e. cc))
answer_cases (ok (stale ttl)) = inr (inr (stale ttl, refl, λ e. cc))
answer_cases (err e) = inr (inl (e, refl))

module _ {S : Type 0} where
  -- Each checker, asked in turn, says that the block is live.
  abbrev pub AllLive : List (Checker S) → S → RevocationId → Type 0
  AllLive [] s id = Unit {0}
  AllLive (checker ∷ checkers) s id =
      ((checker s id).0 ≡ ok live) × AllLive checkers (checker s id).1 id

  -- The first checker that gives an answer other than live gives this one; those before it say live
  -- or fail.
  abbrev pub FirstDefinite : List (Checker S) → S → RevocationId → RevocationStatus → Type 0
  FirstDefinite [] s id status = ⊥
  FirstDefinite (checker ∷ checkers) s id status =
      (((checker s id).0 ≡ ok status) × (status ≢ live))
      ⊎ (Passes (checker s id).0 × FirstDefinite checkers (checker s id).1 id status)

  consult_live :
      (checker : Checker S) (checkers : List (Checker S)) (u : Option RevocationError) (s : S)
      (id : RevocationId)
      → (checker s id).0 ≡ ok live
      → consult (checker ∷ checkers) u s id ≡ consult checkers u (checker s id).1 id
  unfolding consult
  consult_live checker checkers u s id h = rw h

  consult_err :
      (checker : Checker S) (checkers : List (Checker S)) (u : Option RevocationError) (s : S)
      (id : RevocationId) (e : RevocationError)
      → (checker s id).0 ≡ err e
      → consult (checker ∷ checkers) u s id ≡ consult checkers (some e) (checker s id).1 id
  unfolding consult
  consult_err checker checkers u s id e h = rw h

  consult_definite :
      (checker : Checker S) (checkers : List (Checker S)) (u : Option RevocationError) (s : S)
      (id : RevocationId) (status : RevocationStatus)
      → (checker s id).0 ≡ ok status
      → status ≢ live
      → (consult (checker ∷ checkers) u s id).0 ≡ ok status
  unfolding consult
  consult_definite checker checkers u s id live h n = absurd (n refl)
  consult_definite checker checkers u s id (revoked reason) h n = rw (h, consult)
  consult_definite checker checkers u s id (stale ttl) h n = rw (h, consult)

  consult_nil :
      (u : Option RevocationError) (s : S) (id : RevocationId) → (consult [] u s id).0 ≡ verdict u
  unfolding consult
  consult_nil u s id = refl

  -- Once an answer is unknown, the composite is not live.
  unknown_not_live :
      (checkers : List (Checker S)) (e : RevocationError) (s : S) (id : RevocationId)
      → (consult checkers (some e) s id).0 ≢ ok live
  unknown_not_live [] e s id h = absurd (ground (arith, h, consult_nil (some e) s id))
  unknown_not_live (checker ∷ checkers) e s id h = elim (answer_cases (checker s id).0) [
    | inl is_live ↦
        unknown_not_live checkers e (checker s id).1 id
          (sym (ap (λ x. x.0) (consult_live checker checkers (some e) s id is_live)) ∙ h)
    | inr (inl (e', failed)) ↦
        unknown_not_live checkers e' (checker s id).1 id
          (sym (ap (λ x. x.0) (consult_err checker checkers (some e) s id e' failed)) ∙ h)
    | inr (inr (status, answered, n)) ↦
        n (
          ok-injective
            (sym (consult_definite checker checkers (some e) s id status answered n) ∙ h))
  ]

  live_of_consult :
      (checkers : List (Checker S)) (s : S) (id : RevocationId)
      → (consult checkers none s id).0 ≡ ok live
      → AllLive checkers s id
  live_of_consult [] s id h = tt
  live_of_consult (checker ∷ checkers) s id h = elim (answer_cases (checker s id).0) [
    | inl is_live ↦ (
      is_live,
      live_of_consult checkers (checker s id).1 id
          (sym (ap (λ x. x.0) (consult_live checker checkers none s id is_live)) ∙ h),
    )
    | inr (inl (e, failed)) ↦ absurd (
        unknown_not_live checkers e (checker s id).1 id
          (sym (ap (λ x. x.0) (consult_err checker checkers none s id e failed)) ∙ h))
    | inr (inr (status, answered, n)) ↦
        absurd (
          n (
            ok-injective (sym (consult_definite checker checkers none s id status answered n) ∙ h)))
  ]

  consult_of_live :
      (checkers : List (Checker S)) (s : S) (id : RevocationId)
      → AllLive checkers s id
      → (consult checkers none s id).0 ≡ ok live
  consult_of_live [] s id h = consult_nil none s id
  consult_of_live (checker ∷ checkers) s id h =
      ap (λ x. x.0) (consult_live checker checkers none s id h.0)
      ∙ consult_of_live checkers (checker s id).1 id h.1

  definite_of_consult :
      (checkers : List (Checker S)) (u : Option RevocationError) (s : S) (id : RevocationId)
      (status : RevocationStatus)
      → status ≢ live
      → (consult checkers u s id).0 ≡ ok status
      → FirstDefinite checkers s id status
  definite_of_consult [] none s id status n h =
      absurd (n (ok-injective (sym h ∙ consult_nil none s id)))
  definite_of_consult [] (some e) s id status n h =
      absurd (ground (arith, h, consult_nil (some e) s id))
  definite_of_consult (checker ∷ checkers) u s id status n h =
      elim (answer_cases (checker s id).0) [
        | inl is_live ↦ inr (
          inl is_live,
          definite_of_consult checkers u (checker s id).1 id status n
              (sym (ap (λ x. x.0) (consult_live checker checkers u s id is_live)) ∙ h),
        )
        | inr (inl (e, failed)) ↦ inr (
          inr (e, failed),
          definite_of_consult checkers (some e) (checker s id).1 id status n
              (sym (ap (λ x. x.0) (consult_err checker checkers u s id e failed)) ∙ h),
        )
        | inr (inr (other, answered, m)) ↦
            inl (answered ∙ sym (consult_definite checker checkers u s id other answered m) ∙ h, n)
      ]

  consult_of_definite :
      (checkers : List (Checker S)) (u : Option RevocationError) (s : S) (id : RevocationId)
      (status : RevocationStatus)
      → FirstDefinite checkers s id status
      → (consult checkers u s id).0 ≡ ok status
  consult_of_definite [] u s id status d = absurd d
  consult_of_definite (checker ∷ checkers) u s id status (inl (answered, n)) =
      consult_definite checker checkers u s id status answered n
  consult_of_definite (checker ∷ checkers) u s id status (inr (inl is_live, d)) =
      ap (λ x. x.0) (consult_live checker checkers u s id is_live)
      ∙ consult_of_definite checkers u (checker s id).1 id status d
  consult_of_definite (checker ∷ checkers) u s id status (inr (inr (e, failed), d)) =
      ap (λ x. x.0) (consult_err checker checkers u s id e failed)
      ∙ consult_of_definite checkers (some e) (checker s id).1 id status d

  -- The composite says live exactly when every checker, asked in turn, does; and it gives another
  -- answer exactly when that is the first answer other than live, so that the failure of a checker
  -- never masks the revocation that another one knows of.
  pub composite_iff :
      (checkers : List (Checker S)) (s : S) (id : RevocationId) (status : RevocationStatus)
      → (((composite_is_revoked checkers s id).0 ≡ ok live) ↔ AllLive checkers s id)
        × (status ≢ live
            → ((composite_is_revoked checkers s id).0 ≡ ok status)
              ↔ FirstDefinite checkers s id status)
  unfolding composite_is_revoked
  composite_iff checkers s id status = (
    (live_of_consult checkers s id, consult_of_live checkers s id),
    λ n. (
      definite_of_consult checkers none s id status n,
      consult_of_definite checkers none s id status,
    ),
  )
