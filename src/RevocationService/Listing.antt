-- ===== src/RevocationService/Listing.antt =====
-- The audit listing: its ids are those of the signed set, and can be sent back to the service.
use index_one.Base.{
  ℕ, ◌/◌, ◌%◌, ◌<◌, ◌≡◌, refl, inl, inr, some, List, [], ◌∷◌, map, arith, ltb, length, All, ok,
  Bytes, Bool-cases, ltb→lt, Text, trim,
}
use mathlib.Core.Path.{ap₂}
use index_one.Base.Trim.{IsGraphic, trim_graphic}
use index_one.Crypto.{Primitives, Signer}
use index_one.Witness.{WitnessEncoding}
use index_one.Revocation.{RevocationId}
use index_one.RevMap.Order.{IsKey}
use index_one.RevocationService.Requests.{
  HexCodec, EntryDto, hex_digit, to_string, revocation_id_from_hex,
}
use index_one.RevocationService.Handlers.{with_clock, get_entries, reason_of}
use index_one.RevocationService.Serving.{Call, serve, IsBytewise, serve-IsServing}

hex_digit-IsGraphic : (n : ℕ) → n < 16 → IsGraphic (hex_digit n)
hex_digit-IsGraphic n h = elim (Bool-cases (ltb n 10)) [
  | inl low ↦ rw low (omega (arith, ltb→lt n 10 low), omega (arith, ltb→lt n 10 low))
  | inr high ↦ rw high (omega arith, omega (arith, h))
]

to_string-IsGraphic : (id : RevocationId) → All (λ b. b < 256) id → All IsGraphic (to_string id)
unfolding to_string
to_string-IsGraphic [] g = tt
to_string-IsGraphic (b ∷ id) (g, gs) = (
  hex_digit-IsGraphic (b / 16) (omega (arith, g)),
  (hex_digit-IsGraphic (b % 16) (omega arith), to_string-IsGraphic id gs),
)

module _ ⦃hex : HexCodec⦄ where
  -- `hex::decode` reads two lowercase digits a byte.
  abbrev pub DecodesHex : Type 0
  DecodesHex =
      (bytes : Bytes) → All (λ b. b < 256) bytes → hex.decode (to_string bytes) ≡ some bytes

  revocation_id_from_hex-to_string :
      (id : RevocationId) → DecodesHex → IsKey id → revocation_id_from_hex (to_string id) ≡ ok id
  unfolding revocation_id_from_hex
  revocation_id_from_hex-to_string id decodes k =
      let text : trim (to_string id) ≡ to_string id =
        trim_graphic (to_string id) (to_string-IsGraphic id k.bytes) in
      rw (text, decodes id k.bytes, k.size) refl

  parse_all :
      (ids : List RevocationId) (reasons : List (RevocationId × Text))
      → DecodesHex
      → All IsKey ids
      → map
          (λ (e : EntryDto). revocation_id_from_hex e.revocation_id)
          (map (λ id. record { revocation_id = to_string id; reason = reason_of reasons id }) ids)
        ≡ map ok ids
  parse_all [] reasons decodes k = refl
  parse_all (id ∷ ids) reasons decodes (k, ks) =
      ap₂ (λ x xs. x ∷ xs) (revocation_id_from_hex-to_string id decodes k)
        (parse_all ids reasons decodes ks)

module _ ⦃prim : Primitives⦄ ⦃enc : WitnessEncoding⦄ ⦃hex : HexCodec⦄ where
  -- Where `hex::decode` returns bytes and reads two lowercase digits a byte, then after any sequence
  -- of requests to a new service the listing has as many entries as its epoch says, and
  -- `revocation_id_from_hex` reads the id of each entry back as the id of the signed set.
  pub revocation_id_from_hex-get_entries :
      (signer : Signer) (calls : List Call)
      → IsBytewise
      → DecodesHex
      → let st = serve (with_clock signer) calls in
        (map (λ (e : EntryDto). revocation_id_from_hex e.revocation_id) (get_entries st).entries
          ≡ map ok st.log.revoked)
        × ((get_entries st).epoch ≡ length st.log.revoked)
  unfolding get_entries
  revocation_id_from_hex-get_entries signer calls bytewise decodes =
      let st = serve (with_clock signer) calls in
      let v = (serve-IsServing signer calls bytewise).versioned in
      (parse_all st.log.revoked st.log.reasons decodes v.ids.keys, v.version)
