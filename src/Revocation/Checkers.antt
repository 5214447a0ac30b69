-- ===== src/Revocation/Checkers.antt =====
-- core/revocation/src/lib.rs: the checkers by age, by log and by other checkers.
use index_one.Base.{
  ℕ, ◌-◌, Option, none, some, List, [], ◌∷◌, ltb, if◌then◌else◌, Text, Result, ok, err, ◌==◌,
  list_eq, nat_eq, option_eq,
}
use index_one.Revocation.Defs.{
  RevocationId, TransparencyLogEntry, RevocationStatus, live, revoked, stale, RevocationError,
  log_unreachable, transport_failed, no_transport, Checker,
}

-- A `HashMap` by its id: the newest entry is found first, as `insert` replaces the older one.
abbrev pub find_id : {A : Type 0} → List (RevocationId × A) → RevocationId → Option A
find_id [] id = none
find_id ((other, a) ∷ entries) id = if other == id then some a else find_id entries id

pub record ShortTtlChecker : Type 0 where
  pub ttl_seconds : ℕ
  pub issued_at : List (RevocationId × ℕ)

abbrev pub new_ttl : ℕ → ShortTtlChecker
new_ttl ttl_seconds = record { ttl_seconds = ttl_seconds; issued_at = [] }

unfoldable pub register : ShortTtlChecker → RevocationId → ℕ → ShortTtlChecker
register c id issued_at = record c { issued_at = (id, issued_at) ∷ c.issued_at }

-- `now` is what the clock reads.
unfoldable pub ttl_is_revoked :
    ℕ → ShortTtlChecker → RevocationId → Result RevocationError RevocationStatus
ttl_is_revoked now c id = elim (find_id c.issued_at id) [
  | none ↦ ok (stale c.ttl_seconds)
  | some issued ↦ if ltb c.ttl_seconds (now - issued) then ok (stale c.ttl_seconds) else ok live
]

-- `transport` is what its `fetch` returns.
pub record TransparencyLogChecker : Type 0 where
  pub entries : List (RevocationId × TransparencyLogEntry)
  pub transport : Option (Result Text (List TransparencyLogEntry))
  pub log_url : Option Text

abbrev pub in_memory : TransparencyLogChecker
in_memory = record { entries = []; transport = none; log_url = none }

abbrev pub with_transport : Result Text (List TransparencyLogEntry) → TransparencyLogChecker
with_transport fetched = record { entries = []; transport = some fetched; log_url = none }

abbrev pub remote : Text → TransparencyLogChecker
remote url = record { entries = []; transport = none; log_url = some url }

unfoldable pub append_entry : TransparencyLogChecker → TransparencyLogEntry → TransparencyLogChecker
append_entry c entry = record c { entries = (entry.revoked, entry) ∷ c.entries }

-- `into_iter().find(|e| &e.revoked == id)`
abbrev pub find_entry : List TransparencyLogEntry → RevocationId → Option TransparencyLogEntry
find_entry [] id = none
find_entry (entry ∷ entries) id = if entry.revoked == id then some entry else find_entry entries id

abbrev status_of : Option TransparencyLogEntry → Result RevocationError RevocationStatus
status_of none = ok live
status_of (some entry) = ok (revoked entry.reason)

unfoldable pub log_is_revoked :
    TransparencyLogChecker → RevocationId → Result RevocationError RevocationStatus
log_is_revoked c id = elim c.transport [
  | some (err failure) ↦ err (log_unreachable (transport_failed failure))
  | some (ok fetched) ↦ status_of (find_entry fetched id)
  | none ↦ elim c.log_url [
    | some url ↦ err (log_unreachable (no_transport url))
    | none ↦ status_of (find_id c.entries id)
  ]
]

-- What is left after the loop.
abbrev pub verdict : Option RevocationError → Result RevocationError RevocationStatus
verdict none = ok live
verdict (some e) = err e

module _ {S : Type 0} where
  -- The loop of `CompositeChecker`, with the last error so far.
  unfoldable pub consult :
      List (Checker S)
      → Option RevocationError
      → S
      → RevocationId
      → Result RevocationError RevocationStatus × S
  consult [] undeterminable s id = (verdict undeterminable, s)
  consult (checker ∷ checkers) undeterminable s id =
      let (answer, s') = checker s id in
      let pass = consult checkers undeterminable s' id in
      let unknown : RevocationError → Result RevocationError RevocationStatus × S =
        λ e. consult checkers (some e) s' id in
      elim answer [
        | ok live ↦ pass
        | ok (revoked reason) ↦ (ok (revoked reason), s')
        | ok (stale ttl_seconds) ↦ (ok (stale ttl_seconds), s')
        | err e ↦ unknown e
      ]

  unfoldable pub composite_is_revoked : List (Checker S) → Checker S
  composite_is_revoked checkers s id = consult checkers none s id
