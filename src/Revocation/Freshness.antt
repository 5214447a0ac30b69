-- ===== src/Revocation/Freshness.antt =====
-- When the age checker and the log checker call a block live.
use index_one.Base.{
  ℕ, ◌+◌, ◌≤◌, ◌≡◌, refl, ◌≢◌, ◌↔◌, ◌⊎◌, inl, inr, none, some, arith, ok, ◌==◌, ==_iff,
  Option-cases, Bool-cases, list_eq, nat_eq, ltb, sym, option_eq, ◌-◌, false,
}
use index_one.Revocation.Defs.{RevocationId, TransparencyLogEntry, live, revoked, stale}
use index_one.Revocation.Checkers.{
  find_id, ShortTtlChecker, register, ttl_is_revoked, TransparencyLogChecker, append_entry,
  log_is_revoked,
}

-- The age checker calls a block live exactly when the block was registered and, by its last
-- registration, is at most the time to live old; every other block it calls stale, an unknown one
-- too, and it never fails.
pub ttl_live_iff :
    (now : ℕ) (c : ShortTtlChecker) (id : RevocationId)
    → ((ttl_is_revoked now c id ≡ ok live)
        ↔ ((issued : ℕ) × (find_id c.issued_at id ≡ some issued) × (now ≤ issued + c.ttl_seconds)))
      × ((ttl_is_revoked now c id ≡ ok live) ⊎ (ttl_is_revoked now c id ≡ ok (stale c.ttl_seconds)))
unfolding ttl_is_revoked
ttl_live_iff now c id = elim (Option-cases (find_id c.issued_at id)) [
  | inl unknown ↦ (
    (
      λ h. absurd (ground (arith, h, unknown)),
      λ (issued, found, fresh). absurd (ground (arith, found, unknown)),
    ),
    inr (rw (unknown, ttl_is_revoked)),
  )
  | inr (issued, known) ↦ elim (Bool-cases (ltb c.ttl_seconds (now - issued))) [
    | inl old ↦ (
      (
        λ h. absurd (ground (arith, h, known, old)),
        λ (since, found, fresh). absurd (ground (arith, found, known, old, fresh)),
      ),
      inr (rw (known, old, ttl_is_revoked)),
    )
    | inr fresh ↦ (
      (λ h. (issued, known, ground (arith, fresh)), λ _. rw (known, fresh, ttl_is_revoked)),
      inl (rw (known, fresh, ttl_is_revoked)),
    )
  ]
]

-- Registering an id again replaces the time of its issue, and changes no other id.
pub find_id-register :
    (c : ShortTtlChecker) (id other : RevocationId) (issued : ℕ)
    → (find_id (register c id issued).issued_at id ≡ some issued)
      × (other ≢ id → find_id (register c id issued).issued_at other ≡ find_id c.issued_at other)
unfolding register
find_id-register c id other issued = (
  rw ((==_iff id id).1 refl),
  λ apart. ground (arith, ==_iff id other, λ (e : id ≡ other). apart (sym e)),
)

-- An entry that is appended to a log in memory revokes its id with its reason, until another entry
-- for the id replaces it, and changes the status of no other id.
log_is_revoked-append_entry :
    (c : TransparencyLogChecker) (entry : TransparencyLogEntry) (other : RevocationId)
    → c.transport ≡ none
    → c.log_url ≡ none
    → (log_is_revoked (append_entry c entry) entry.revoked ≡ ok (revoked entry.reason))
      × (other ≢ entry.revoked
          → log_is_revoked (append_entry c entry) other ≡ log_is_revoked c other)
unfolding append_entry log_is_revoked
log_is_revoked-append_entry c entry other no_transport no_url = (
  rw (no_transport, no_url, (==_iff entry.revoked entry.revoked).1 refl),
  λ apart.
      (let different : (entry.revoked == other) ≡ false =
          ground
            (arith, ==_iff entry.revoked other, λ (e : entry.revoked ≡ other). apart (sym e)) in
        rw (no_transport, no_url, different)),
)
