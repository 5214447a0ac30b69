-- ===== src/WitnessService/Submit.antt =====
-- services/witness/src/lib.rs: the state of the service and its handlers, on requests that are
-- decoded. A panic (an `expect` that fails) is an error.
use index_one.Base.{
  ℕ, Option, none, some, Bytes, if◌then◌else◌, Result, ok, err, ◌!=◌, list_eq, nat_eq, option_eq,
}
use index_one.Crypto.{PublicKey, CryptoError, Primitives, Signer}
use index_one.Witness.{
  ActionReceipt, InclusionProof, ConsistencyProof, SignedTreeHead, WitnessEncoding, Witness, root,
  append, inclusion_proof, consistency_proof, signed_head, EquivocationError, reconcile_heads,
}
use index_one.WitnessService.Store.{StoreError, store_append}

-- `store` is the file, where the service persists its log.
pub record AppState : Type 0 where
  pub witness : Witness
  pub log_signer : Signer
  pub log_key : PublicKey
  pub store : Option Bytes

pub data ApiError : Type 0 where
  bad_request not_found : ApiError
  stale_prev_root : ApiError
  equivocation : EquivocationError → SignedTreeHead → SignedTreeHead → ApiError
  internal : StoreError → ApiError
  panicked : ApiError

pub record SubmitResponse : Type 0 where
  pub leaf_index : ℕ
  pub inclusion_proof : InclusionProof
  pub sth : SignedTreeHead

abbrev respond :
    ℕ → Option InclusionProof → Result CryptoError SignedTreeHead → Result ApiError SubmitResponse
respond index none head = err panicked
respond index (some proof) (err e) = err panicked
respond index (some proof) (ok head) =
    ok (record { leaf_index = index; inclusion_proof = proof; sth = head })

abbrev Answer : Type 0
Answer = Result ApiError SubmitResponse × AppState

module _ ⦃prim : Primitives⦄ ⦃enc : WitnessEncoding⦄ where
  -- From the append in memory on.
  unfoldable pub accept : AppState → Witness → Option Bytes → ActionReceipt → Answer
  accept st w store receipt =
      let (index, w1) = append w receipt in
      let (proof, w2) = inclusion_proof w1 index in
      let (head, w3) = signed_head w2 st.log_signer in
      (respond index proof head, record st { witness = w3; store = store })

  abbrev persisted :
      AppState → Witness → ActionReceipt → Result StoreError (Unit {0}) × Bytes → Answer
  persisted st w receipt (err e, file) =
      (err (internal e), record st { witness = w; store = some file })
  persisted st w receipt (ok tt, file) = accept st w (some file) receipt

  abbrev persist : AppState → Witness → ActionReceipt → Option ℕ → Option Bytes → Answer
  persist st w receipt fault none = accept st w none receipt
  persist st w receipt fault (some file) = persisted st w receipt (store_append file receipt fault)

  -- `submit`, with what the write to the file does.
  unfoldable pub submit : AppState → ActionReceipt → Option ℕ → Answer
  submit st receipt fault =
      if receipt.prev_root != (root st.witness).0
      then (err stale_prev_root, record st { witness = (root st.witness).1 })
      else persist st (root st.witness).1 receipt fault st.store

  abbrev found : Option InclusionProof → Result ApiError InclusionProof
  found none = err not_found
  found (some proof) = ok proof

  unfoldable pub get_proof : AppState → ℕ → Result ApiError InclusionProof × AppState
  get_proof st leaf_index =
      let (proof, w) = inclusion_proof st.witness leaf_index in
      (found proof, record st { witness = w })

  abbrev consistent : Option ConsistencyProof → Result ApiError ConsistencyProof
  consistent none = err bad_request
  consistent (some proof) = ok proof

  unfoldable pub get_consistency : AppState → ℕ → ℕ → Result ApiError ConsistencyProof × AppState
  get_consistency st first second =
      let (proof, w) = consistency_proof st.witness first second in
      (consistent proof, record st { witness = w })

  abbrev reconciled :
      AppState
      → SignedTreeHead
      → Option ConsistencyProof
      → Result CryptoError SignedTreeHead
      → Result ApiError (Unit {0})
  reconciled st peer proof (err e) = err panicked
  reconciled st peer proof (ok ours) = elim (reconcile_heads ours peer st.log_key proof) [
    | ok tt ↦ ok tt
    | err e ↦ err (equivocation e ours peer)
  ]

  unfoldable pub gossip :
      AppState → SignedTreeHead → Option ConsistencyProof → Result ApiError (Unit {0}) × AppState
  gossip st peer proof =
      let (ours, w) = signed_head st.witness st.log_signer in
      (reconciled st peer proof ours, record st { witness = w })
