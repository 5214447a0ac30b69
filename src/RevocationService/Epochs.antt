-- ===== src/RevocationService/Epochs.antt =====
-- The epoch of the operator's set: it is the number of ids, and names one set.
use index_one.Base.{
  ℕ, zero, suc, ◌+◌, ◌≤◌, ◌≡◌, refl, sym, ap, ◌∙◌, subst, ◌⊎◌, inl, inr, true, List, [], ◌∷◌, arith,
  length, Result-cases, Text, contains, nat_eq, list_eq, option_eq,
}
use index_one.Revocation.{RevocationId}
use index_one.RevMap.{Hash, binary_search, insert_at, revoke as map_revoke}
use index_one.RevMap.Order.{IsKey, IsValid, revoke-IsValid}
use index_one.RevocationService.{RevocationLog, revoke_id}
use index_one.RevocationService.Served.{contains-revoke_id}

-- The ids are in order, and there are as many as the epoch says.
pub record IsVersioned (log : RevocationLog) : Type 0 where
  pub ids : IsValid (record { keys = log.revoked })
  pub version : log.epoch ≡ length log.revoked

-- A later log: no id is lost, the epoch does not fall, and one epoch has one set.
pub record IsLater (log log' : RevocationLog) : Type 0 where
  pub grows : log.epoch ≤ log'.epoch
  pub keeps : (id : RevocationId) → contains log.revoked id ≡ true → contains log'.revoked id ≡ true
  pub one_set : log.epoch ≡ log'.epoch → log.revoked ≡ log'.revoked

pub IsLater-refl : (log : RevocationLog) → IsLater log log
IsLater-refl log = record { grows = omega arith; keeps = λ id h. h; one_set = λ _. refl }

pub IsLater-trans : (a b c : RevocationLog) → IsLater a b → IsLater b c → IsLater a c
IsLater-trans a b c p q = record {
  grows = omega (arith, p.grows, q.grows);
  keeps = λ id h. q.keeps id (p.keeps id h);
  one_set = λ e.
      p.one_set (omega (arith, p.grows, q.grows, e))
      ∙ q.one_set (omega (arith, p.grows, q.grows, e));
}

length-insert_at :
    (pos : ℕ) (key : Hash) (ks : List Hash) → length (insert_at pos key ks) ≡ suc (length ks)
length-insert_at zero key ks = refl
length-insert_at (suc pos) key [] = refl
length-insert_at (suc pos) key (k ∷ ks) = ap suc (length-insert_at pos key ks)

-- An id that is known changes neither the set nor the epoch; another one is put in, and raises it.
revoke_id_cases :
    (log : RevocationLog) (id : RevocationId) (reason : Text)
    → (((revoke_id log id reason).revoked ≡ log.revoked)
        × ((revoke_id log id reason).epoch ≡ log.epoch))
      ⊎ (((revoke_id log id reason).epoch ≡ log.epoch + 1)
          × (length (revoke_id log id reason).revoked ≡ suc (length log.revoked)))
unfolding revoke_id
revoke_id_cases log id reason = elim (Result-cases (binary_search log.revoked id)) [
  | inl (pos, e) ↦ inl (rw (revoke_id, e) refl, rw (revoke_id, e) refl)
  | inr (pos, e) ↦
      inr (rw (revoke_id, e) refl, rw (revoke_id, e) (length-insert_at pos id log.revoked))
]

revoke_id-map :
    (log : RevocationLog) (id : RevocationId) (reason : Text)
    → map_revoke (record { keys = log.revoked }) id
      ≡ record { keys = (revoke_id log id reason).revoked }
unfolding revoke_id map_revoke
revoke_id-map log id reason = elim (Result-cases (binary_search log.revoked id)) [
  | inl (pos, e) ↦ rw (revoke_id, map_revoke, e) refl
  | inr (pos, e) ↦ rw (revoke_id, map_revoke, e) refl
]

pub revoke_id-IsVersioned :
    (log : RevocationLog) (id : RevocationId) (reason : Text)
    → IsKey id
    → IsVersioned log
    → IsVersioned (revoke_id log id reason)
revoke_id-IsVersioned log id reason is_key v = record {
  ids =
      subst IsValid (revoke_id-map log id reason)
        (revoke-IsValid (record { keys = log.revoked }) id id v.ids is_key).0;
  version = elim (revoke_id_cases log id reason) [
    | inl (same, e) ↦ omega (arith, e, v.version, ap (length {A = RevocationId}) same)
    | inr (e, one_more) ↦ omega (arith, e, v.version, one_more)
  ];
}

pub revoke_id-IsLater :
    (log : RevocationLog) (id : RevocationId) (reason : Text)
    → IsLater log (revoke_id log id reason)
revoke_id-IsLater log id reason = record {
  grows = (contains-revoke_id log id id reason).1;
  keeps = λ other h. ground (arith, (contains-revoke_id log id other reason).0, h);
  one_set = λ same. elim (revoke_id_cases log id reason) [
    | inl (kept, _) ↦ sym kept
    | inr (e, _) ↦ absurd (omega (arith, same, e))
  ];
}
