-- ===== src/RevocationService/Serving.antt =====
-- The service over any sequence of requests: what stays true of its state.
use index_one.Base.{
  ℕ, List, [], ◌∷◌, ◌<◌, ◌≡◌, refl, sym, subst, inl, inr, Option, none, some, arith, length, All,
  ok, guard, ok_or, ok-injective, ◌==◌, ==_iff, Bytes, Bool-cases, Result-cases, Text, nat_eq,
  list_eq, option_eq, ◌>>=◌, ◌>>◌, trim,
}
use index_one.Crypto.{Primitives, Signer}
use index_one.Witness.{WitnessEncoding}
use index_one.Revocation.{RevocationId}
use index_one.RevMap.{Hash, revoke as map_revoke}
use index_one.RevMap.Order.{IsKey, IsValid, revoke-IsValid}
use index_one.RevLog.{
  LogBackedRevocation, revoke as revoke_key, publish_checkpoint, prove, signed_head,
  consistency_proof,
}
use index_one.RevLog.Publish.{
  IsConsistent, new-IsConsistent, revoke-IsConsistent, publish_checkpoint-IsConsistent,
}
use index_one.RevocationService.Epochs.{
  IsVersioned, IsLater, IsLater-refl, IsLater-trans, revoke_id-IsVersioned, revoke_id-IsLater,
}
use index_one.RevLog.Kept.{signed_head-IsReread, consistency_proof-IsReread, prove-IsReread}
use index_one.RevocationService.{revoke_id, revoke as revoke_parsed}
use index_one.RevocationService.Requests.{
  HexCodec, RevokeRequest, KeyQuery, ConsistencyQuery, ApiError, revocation_id_from_hex,
  hash_from_hex,
}
use index_one.RevocationService.Handlers.{
  AppState, with_clock, revoke, v2_revoke, v2_checkpoint, v2_head, v2_status, v2_consistency,
}

parsed :
    (o : Option Bytes) (e e' : ApiError) (id : Bytes)
    → ((bytes : Bytes) → o ≡ some bytes → All (λ b. b < 256) bytes)
    → (do bytes ← ok_or o e; guard (length bytes == 32) e'; ok bytes) ≡ ok id
    → IsKey id
parsed none e e' id bytewise h = cc
parsed (some bytes) e e' id bytewise h = elim (Bool-cases (length bytes == 32)) [
  | inl fits ↦
      let same : bytes ≡ id = ok-injective (subst (λ b. (guard b e' >> ok bytes) ≡ ok id) fits h) in
      subst IsKey same
        (record { size = (==_iff (length bytes) 32).0 fits; bytes = bytewise bytes refl })
  | inr other ↦ absurd (ground (arith, h, other))
]

-- The requests that the router passes on; a reading of the first version leaves the state alone.
pub data Call : Type 0 where
  reads : Call
  revokes : RevokeRequest → ℕ → Call
  v2_revokes : RevokeRequest → Call
  v2_checkpoints : Call
  v2_heads : Call
  v2_statuses : KeyQuery → Call
  v2_consistencies : ConsistencyQuery → Call

module _ ⦃prim : Primitives⦄ ⦃enc : WitnessEncoding⦄ ⦃hex : HexCodec⦄ where
  unfoldable pub handle : AppState → Call → AppState
  handle st reads = st
  handle st (revokes req now) = (revoke st req now).1
  handle st (v2_revokes req) = (v2_revoke st req).1
  handle st v2_checkpoints = (v2_checkpoint st).1
  handle st v2_heads = (v2_head st).1
  handle st (v2_statuses q) = (v2_status st q).1
  handle st (v2_consistencies q) = (v2_consistency st q).1

  unfoldable pub serve : AppState → List Call → AppState
  serve st [] = st
  serve st (call ∷ calls) = serve (handle st call) calls

  revoked_map :
      (l : LogBackedRevocation) (key : Hash) → (revoke_key l key).map ≡ map_revoke l.map key
  unfolding revoke_key
  revoked_map l key = refl

  -- What `hex::decode` returns are bytes.
  abbrev pub IsBytewise : Type 0
  IsBytewise = (s : Text) (bytes : Bytes) → hex.decode s ≡ some bytes → All (λ b. b < 256) bytes

  -- An id that is parsed has 32 bytes.
  revocation_id_from_hex-IsKey :
      (s : Text) (id : RevocationId) → IsBytewise → revocation_id_from_hex s ≡ ok id → IsKey id
  unfolding revocation_id_from_hex
  revocation_id_from_hex-IsKey s id bytewise h =
      parsed (hex.decode (trim s)) _ _ id (bytewise (trim s)) h

  pub hash_from_hex-IsKey :
      (s : Text) (key : Hash) → IsBytewise → hash_from_hex s ≡ ok key → IsKey key
  unfolding hash_from_hex
  hash_from_hex-IsKey s key bytewise h = parsed (hex.decode (trim s)) _ _ key (bytewise (trim s)) h

  -- What stays true of the state of the service of a signer.
  pub record IsServing (signer : Signer) (st : AppState) : Type 0 where
    pub pinned : st.operator_key ≡ signer.public_key
    pub signs : st.signer ≡ signer
    pub versioned : IsVersioned st.log
    pub consistent : IsConsistent st.logbacked
    pub keys : IsValid st.logbacked.map

  abbrev Serves : Signer → AppState → AppState → Type 0
  Serves signer st st' = IsServing signer st' × IsLater st.log st'.log

  with_log :
      (signer : Signer) (st : AppState) (id : RevocationId) (reason : Text)
      → IsServing signer st
      → IsKey id
      → Serves signer st (record st { log = revoke_id st.log id reason })
  with_log signer st id reason s is_key = (
    record {
      pinned = s.pinned;
      signs = s.signs;
      versioned = revoke_id-IsVersioned st.log id reason is_key s.versioned;
      consistent = s.consistent;
      keys = s.keys;
    },
    revoke_id-IsLater st.log id reason,
  )

  with_logbacked :
      (signer : Signer) (st : AppState) (rl : LogBackedRevocation)
      → IsServing signer st
      → IsConsistent rl
      → IsValid rl.map
      → Serves signer st (record st { logbacked = rl })
  with_logbacked signer st rl s consistent keys = (
    record {
      pinned = s.pinned;
      signs = s.signs;
      versioned = s.versioned;
      consistent = consistent;
      keys = keys;
    },
    IsLater-refl st.log,
  )

  revoke-Serves :
      (signer : Signer) (st : AppState) (req : RevokeRequest) (now : ℕ)
      → IsBytewise
      → IsServing signer st
      → Serves signer st (revoke st req now).1
  unfolding revoke revoke_parsed
  revoke-Serves signer st req now bytewise s =
      elim (Result-cases (revocation_id_from_hex req.revocation_id)) [
        | inl (id, e) ↦
            rw (revoke, e)
              (with_log signer st id req.reason s
                (revocation_id_from_hex-IsKey req.revocation_id id bytewise e))
        | inr (problem, e) ↦ rw (revoke, e) (s, IsLater-refl st.log)
      ]

  v2_revoke-Serves :
      (signer : Signer) (st : AppState) (req : RevokeRequest)
      → IsBytewise
      → IsServing signer st
      → Serves signer st (v2_revoke st req).1
  unfolding v2_revoke
  v2_revoke-Serves signer st req bytewise s =
      elim (Result-cases (hash_from_hex req.revocation_id)) [
        | inl (key, e) ↦
            let is_key = hash_from_hex-IsKey req.revocation_id key bytewise e in
            rw (v2_revoke, e)
              (with_logbacked signer st (revoke_key st.logbacked key) s
                (revoke-IsConsistent st.logbacked key s.consistent)
                (subst IsValid (sym (revoked_map st.logbacked key))
                  (revoke-IsValid st.logbacked.map key key s.keys is_key).0))
        | inr (problem, e) ↦ rw (v2_revoke, e) (s, IsLater-refl st.log)
      ]

  v2_checkpoint-Serves :
      (signer : Signer) (st : AppState)
      → IsServing signer st
      → Serves signer st (v2_checkpoint st).1
  unfolding v2_checkpoint publish_checkpoint
  v2_checkpoint-Serves signer st s =
      with_logbacked signer st (publish_checkpoint st.logbacked st.signer).1 s
        (publish_checkpoint-IsConsistent st.logbacked st.signer s.consistent).0 s.keys

  v2_status-Serves :
      (signer : Signer) (st : AppState) (q : KeyQuery)
      → IsServing signer st
      → Serves signer st (v2_status st q).1
  unfolding v2_status
  v2_status-Serves signer st q s = elim (Result-cases (hash_from_hex q.key)) [
    | inl (key, e) ↦
        let (consistent, same) = prove-IsReread st.logbacked key st.signer s.consistent in
        rw (v2_status, e)
          (with_logbacked signer st (prove st.logbacked key st.signer).1 s consistent
            (subst IsValid (sym same) s.keys))
    | inr (problem, e) ↦ rw (v2_status, e) (s, IsLater-refl st.log)
  ]

  handle-Serves :
      (signer : Signer) (st : AppState) (call : Call)
      → IsBytewise
      → IsServing signer st
      → Serves signer st (handle st call)
  unfolding handle v2_head v2_consistency
  handle-Serves signer st reads bytewise s = (s, IsLater-refl st.log)
  handle-Serves signer st (revokes req now) bytewise s = revoke-Serves signer st req now bytewise s
  handle-Serves signer st (v2_revokes req) bytewise s = v2_revoke-Serves signer st req bytewise s
  handle-Serves signer st v2_checkpoints bytewise s = v2_checkpoint-Serves signer st s
  handle-Serves signer st v2_heads bytewise s =
      let (consistent, same) = signed_head-IsReread st.logbacked st.signer s.consistent in
      with_logbacked signer st (signed_head st.logbacked st.signer).1 s consistent
        (subst IsValid (sym same) s.keys)
  handle-Serves signer st (v2_statuses q) bytewise s = v2_status-Serves signer st q s
  handle-Serves signer st (v2_consistencies q) bytewise s =
      let (consistent, same) =
        consistency_proof-IsReread st.logbacked q.first q.second s.consistent in
      with_logbacked signer st (consistency_proof st.logbacked q.first q.second).1 s consistent
        (subst IsValid (sym same) s.keys)

  with_clock-IsServing : (signer : Signer) → IsServing signer (with_clock signer)
  with_clock-IsServing signer = record {
    pinned = refl;
    signs = refl;
    versioned = record { ids = record { keys = tt; increasing = tt }; version = refl };
    consistent = new-IsConsistent;
    keys = record { keys = tt; increasing = tt };
  }

  serve-Serves :
      (signer : Signer) (st : AppState) (calls : List Call)
      → IsBytewise
      → IsServing signer st
      → Serves signer st (serve st calls)
  unfolding serve
  serve-Serves signer st [] bytewise s = (s, IsLater-refl st.log)
  serve-Serves signer st (call ∷ calls) bytewise s =
      let (s', later) = handle-Serves signer st call bytewise s in
      let (s'', later') = serve-Serves signer (handle st call) calls bytewise s' in
      (
        s'',
        IsLater-trans st.log (handle st call).log (serve (handle st call) calls).log later later',
      )

  -- Where `hex::decode` returns bytes, after any sequence of requests to a new service: its key is
  -- the signer's, its ids are in order and as many as the epoch says, the log of checkpoints is
  -- consistent, and the keys of the map are in order.
  pub serve-IsServing :
      (signer : Signer) (calls : List Call)
      → IsBytewise
      → IsServing signer (serve (with_clock signer) calls)
  serve-IsServing signer calls bytewise =
      (serve-Serves signer (with_clock signer) calls bytewise (with_clock-IsServing signer)).0

  -- Where `hex::decode` returns bytes, between any two times of the life of a service the epoch does
  -- not fall, no id that is revoked is lost, and if the epoch is the same, so is the set of ids.
  pub serve-IsLater :
      (signer : Signer) (calls more : List Call)
      → IsBytewise
      → let st = serve (with_clock signer) calls in IsLater st.log (serve st more).log
  serve-IsLater signer calls more bytewise =
      (serve-Serves signer (serve (with_clock signer) calls) more bytewise
        (serve-IsServing signer calls bytewise)).1
