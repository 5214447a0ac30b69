-- ===== src/RevocationService/Requests.antt =====
-- services/revocation-log/src/lib.rs: the data of requests and replies, and the parsing of ids. The
-- hex crate is a parameter.
use index_one.Base.{
  ℕ, ◌+◌, ◌/◌, ◌%◌, Option, List, [], ◌∷◌, ltb, if◌then◌else◌, length, Result, ok, guard, ok_or,
  ◌==◌, Bytes, Text, codes, nat_eq, list_eq, option_eq, ◌>>=◌, ◌>>◌, trim,
}
use index_one.Revocation.{RevocationId}
use index_one.RevMap.{Hash}

-- `hex::decode` and `hex::encode`
pub record HexCodec : Type 0 where
  pub decode : Text → Option Bytes
  pub encode : Bytes → Text

pub record RevokeRequest : Type 0 where
  pub revocation_id : Text
  pub reason : Text

pub record EntryDto : Type 0 where
  pub revocation_id : Text
  pub reason : Text

pub record EntriesDto : Type 0 where
  pub epoch : ℕ
  pub entries : List EntryDto

pub record KeyEntry : Type 0 where
  pub kid : Text
  pub public_key : Text
  pub alg : Text

pub record KeysDto : Type 0 where
  pub keys : List KeyEntry

pub record KeyQuery : Type 0 where
  pub key : Text

pub record ConsistencyQuery : Type 0 where
  pub first : ℕ
  pub second : ℕ

pub data ApiError : Type 0 where
  bad_request : Text → ApiError
  conflict : Text → ApiError

-- The status, and the two fields of the JSON body.
pub record Response : Type 0 where
  pub status : ℕ
  pub title : Text
  pub detail : Text

unfoldable pub into_response : ApiError → Response
into_response (bad_request detail) = record {
  status = 400;
  title = codes "bad request";
  detail = detail;
}
into_response (conflict detail) = record { status = 409; title = codes "conflict"; detail = detail }

-- One digit of `{byte:02x}`
abbrev pub hex_digit : ℕ → ℕ
hex_digit n = if ltb n 10 then 48 + n else 87 + n

-- `Display` of a `RevocationId`
unfoldable pub to_string : RevocationId → Text
to_string [] = []
to_string (byte ∷ id) = hex_digit (byte / 16) ∷ hex_digit (byte % 16) ∷ to_string id

module _ ⦃hex : HexCodec⦄ where
  unfoldable pub revocation_id_from_hex : Text → Result ApiError RevocationId
  revocation_id_from_hex s = do
    bytes ← ok_or (hex.decode (trim s)) (bad_request (codes "revocation_id must be hex"))
    guard (length bytes == 32) (bad_request (codes "revocation_id must be 32 bytes (64 hex chars)"))
    ok bytes

  unfoldable pub hash_from_hex : Text → Result ApiError Hash
  hash_from_hex s = do
    bytes ← ok_or (hex.decode (trim s)) (bad_request (codes "key must be hex"))
    guard (length bytes == 32) (bad_request (codes "key must be 32 bytes (64 hex chars)"))
    ok bytes
