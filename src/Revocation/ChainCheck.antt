-- ===== src/Revocation/ChainCheck.antt =====
-- When a chain passes the check of its blocks, and what the error says when it does not.
use index_one.Base.{◌≡◌, ◌⊎◌, List, [], ◌∷◌, Text, ℕ, Result, ok, err}
use index_one.Chain.{Chain}
use index_one.Revocation.Defs.{
  RevocationId, RevocationStatus, live, revoked, stale, RevocationError, revoked_block, stale_block,
  Checker,
}

-- The error that an answer for this block stands for.
abbrev pub Blames :
    RevocationId → Result RevocationError RevocationStatus → RevocationError → Type 0
Blames id answer e =
    (answer ≡ err e)
    ⊎ (((reason : Text) × (answer ≡ ok (revoked reason)) × (e ≡ revoked_block id reason))
        ⊎ ((ttl : ℕ) × (answer ≡ ok (stale ttl)) × (e ≡ stale_block id ttl)))

module _ {S : Type 0} where
  -- Each id, asked in turn, is live.
  abbrev pub EachLive : Checker S → S → List RevocationId → Type 0
  EachLive checker s [] = Unit {0}
  EachLive checker s (id ∷ ids) =
      ((checker s id).0 ≡ ok live) × EachLive checker (checker s id).1 ids

  -- The first id that is not live stands for this error.
  abbrev pub StopsWith : Checker S → S → List RevocationId → RevocationError → Type 0
  StopsWith checker s [] e = ⊥
  StopsWith checker s (id ∷ ids) e =
      Blames id (checker s id).0 e
      ⊎ (((checker s id).0 ≡ ok live) × StopsWith checker (checker s id).1 ids e)
