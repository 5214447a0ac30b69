-- ===== src/WitnessService/Store.antt =====
-- services/witness/src/lib.rs: `Store`. The file is its bytes.
use index_one.Base.{
  ℕ, suc, ◌+◌, ◌*◌, ◌/◌, ◌%◌, Option, none, some, [], ◌∷◌, ◌++◌, ltb, take, drop, length,
  if◌then◌else◌, Bytes, Result, ok, err, ◌>>=◌,
}
use index_one.Crypto.{Primitives}
use index_one.Witness.{ActionReceipt, WitnessEncoding, Witness, append}

-- Code that is not the repository's: `serde_json::from_slice` of a receipt.
pub record ReceiptParser : Type 0 where
  pub parse_receipt : Bytes → Option ActionReceipt

-- `u32::to_le_bytes` and `u32::from_le_bytes`
abbrev pub u32_le : ℕ → Bytes
u32_le n = n % 256 ∷ n / 256 % 256 ∷ n / 65536 % 256 ∷ n / 16777216 % 256 ∷ []

abbrev pub u32_from_le : ℕ → ℕ → ℕ → ℕ → ℕ
u32_from_le a b c d = a + b * 256 + c * 65536 + d * 16777216

-- The io::Error of a frame over u32, of a failed write, and of a frame that cannot be decoded.
pub data StoreError : Type 0 where
  frame_too_large write_failed invalid_data : StoreError

module _ ⦃enc : WitnessEncoding⦄ where
  abbrev pub frame : ActionReceipt → Bytes
  frame receipt = u32_le (length (enc.receipt_bytes receipt)) ++ enc.receipt_bytes receipt

  -- `Store::append`. A write may fail after some of its bytes (`some n`), else it is complete.
  unfoldable pub store_append :
      Bytes → ActionReceipt → Option ℕ → Result StoreError (Unit {0}) × Bytes
  store_append file receipt fault =
      if ltb (length (enc.receipt_bytes receipt)) 4294967296
      then elim fault [
        | none ↦ (ok tt, file ++ frame receipt)
        | some n ↦ (err write_failed, file ++ take n (frame receipt))
      ]
      else (err frame_too_large, file)

module _ ⦃prim : Primitives⦄ ⦃enc : WitnessEncoding⦄ ⦃parser : ReceiptParser⦄ where
  -- The loop of `open` over the bytes that are left, with the count of those committed before them.
  -- Each round takes four bytes at least, so the length of the file is fuel enough.
  unfoldable pub replay : ℕ → Bytes → ℕ → Witness → Result StoreError (ℕ × Witness)
  replay (suc fuel) (a ∷ b ∷ c ∷ d ∷ body) committed w =
      let len = u32_from_le a b c d in
      let parsed = parser.parse_receipt (take len body) in
      let next =
        λ (r : ActionReceipt). replay fuel (drop len body) (committed + 4 + len) (append w r).1 in
      if ltb (length body) len then ok (committed, w) else elim parsed [
        | some r ↦ next r
        | none ↦ if ltb len (length body) then err invalid_data else ok (committed, w)
      ]
  replay _ _ committed w = ok (committed, w)

  -- `Store::open`: the file, cut to its committed frames, and the log that it holds.
  unfoldable pub open_store : Bytes → Witness → Result StoreError (Bytes × Witness)
  open_store file w = do
    (committed, w') ← replay (length file) file 0 w
    ok (take committed file, w')
