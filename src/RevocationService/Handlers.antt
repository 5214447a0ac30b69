-- ===== src/RevocationService/Handlers.antt =====
-- services/revocation-log/src/lib.rs: `AppState` and the handlers. Each handler comes with the state
-- as it leaves it, and takes the time that the clock gives. The outer error is a panic: an `expect`
-- on a signature.
use index_one.Base.{
  ℕ, List, [], ◌∷◌, map, if◌then◌else◌, Result, ok, err, ok_or, ◌==◌, Text, codes, nat_eq, list_eq,
  option_eq, ◌>>=◌,
}
use index_one.Crypto.{Primitives, Signer, PublicKey, CryptoError}
use index_one.Witness.{WitnessEncoding, SignedTreeHead, ConsistencyProof}
use index_one.Revocation.{RevocationId, SignedRevocationSnapshot}
use index_one.RevLog.{
  LogBackedRevocation, LogBackedProof, publish_checkpoint, prove, signed_head, consistency_proof,
  new as new_logbacked, revoke as revoke_key,
}
use index_one.RevocationService.{RevocationLog, new_log, current_snapshot, revoke as revoke_parsed}
use index_one.RevocationService.Requests.{
  HexCodec, RevokeRequest, EntriesDto, KeysDto, KeyQuery, ConsistencyQuery, ApiError, bad_request,
  conflict, to_string, revocation_id_from_hex, hash_from_hex,
}

pub record AppState : Type 0 where
  pub log : RevocationLog
  pub logbacked : LogBackedRevocation
  pub signer : Signer
  pub operator_key : PublicKey

abbrev pub with_clock : Signer → AppState
with_clock signer = record {
  log = new_log;
  logbacked = new_logbacked;
  signer = signer;
  operator_key = signer.public_key;
}

-- A panic, or what the handler returns.
abbrev pub Reply : Type 0 → Type 0
Reply A = Result CryptoError (Result ApiError A)

-- `StatusCode::CREATED`
abbrev pub created : ℕ
created = 201

abbrev pub no_checkpoint : ApiError
no_checkpoint =
    conflict (codes "no checkpoint covers the current map root; POST /revocations/v2/checkpoint")

-- `log.reasons.get(id).cloned().unwrap_or_default()`
unfoldable pub reason_of : List (RevocationId × Text) → RevocationId → Text
reason_of [] id = []
reason_of ((known, reason) ∷ reasons) id = if known == id then reason else reason_of reasons id

unfoldable pub get_entries : AppState → EntriesDto
get_entries st = record {
  epoch = st.log.epoch;
  entries =
      map (λ id. record { revocation_id = to_string id; reason = reason_of st.log.reasons id })
        st.log.revoked;
}

module _ ⦃hex : HexCodec⦄ where
  unfoldable pub get_keys : AppState → KeysDto
  get_keys st =
      let hex_key = hex.encode st.operator_key.bytes in
      record { keys = record { kid = hex_key; public_key = hex_key; alg = codes "ed25519" } ∷ [] }

module _ ⦃prim : Primitives⦄ where
  unfoldable pub get_snapshot : AppState → ℕ → Result CryptoError SignedRevocationSnapshot
  get_snapshot st now = current_snapshot st.signer st.log now

  unfoldable pub v2_consistency :
      AppState → ConsistencyQuery → Result ApiError ConsistencyProof × AppState
  v2_consistency st q =
      let (proof, rl) = consistency_proof st.logbacked q.first q.second in
      (
        ok_or proof
            (bad_request (codes "invalid sizes: need first <= second <= current tree size")),
        record st { logbacked = rl },
      )

module _ ⦃prim : Primitives⦄ ⦃hex : HexCodec⦄ where
  unfoldable pub v2_revoke : AppState → RevokeRequest → Result ApiError ℕ × AppState
  v2_revoke st req = elim (hash_from_hex req.revocation_id) [
    | err e ↦ (err e, st)
    | ok key ↦ (ok created, record st { logbacked = revoke_key st.logbacked key })
  ]

  unfoldable pub revoke :
      AppState → RevokeRequest → ℕ → Reply (ℕ × SignedRevocationSnapshot) × AppState
  revoke st req now = elim (revocation_id_from_hex req.revocation_id) [
    | err e ↦ (ok (err e), st)
    | ok id ↦
        let (signed, log) = revoke_parsed st.signer st.log id req.reason now in
        ((do snapshot ← signed; ok (ok (created, snapshot))), record st { log = log })
  ]

module _ ⦃prim : Primitives⦄ ⦃enc : WitnessEncoding⦄ where
  unfoldable pub v2_checkpoint : AppState → Result CryptoError (ℕ × SignedTreeHead) × AppState
  v2_checkpoint st =
      let (signed, rl) = publish_checkpoint st.logbacked st.signer in
      ((do sth ← signed; ok (created, sth)), record st { logbacked = rl })

  unfoldable pub v2_head : AppState → Result CryptoError SignedTreeHead × AppState
  v2_head st =
      let (signed, rl) = signed_head st.logbacked st.signer in
      (signed, record st { logbacked = rl })

module _ ⦃prim : Primitives⦄ ⦃enc : WitnessEncoding⦄ ⦃hex : HexCodec⦄ where
  unfoldable pub v2_status : AppState → KeyQuery → Reply LogBackedProof × AppState
  v2_status st q = elim (hash_from_hex q.key) [
    | err e ↦ (ok (err e), st)
    | ok key ↦
        let (proved, rl) = prove st.logbacked key st.signer in
        ((do proof ← proved; ok (ok_or proof no_checkpoint)), record st { logbacked = rl })
  ]
