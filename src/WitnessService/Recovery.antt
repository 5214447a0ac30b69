-- ===== src/WitnessService/Recovery.antt =====
-- What `open` recovers from a file whose last append may have crashed.
use index_one.Base.{
  ℕ, zero, suc, ◌+◌, ◌/◌, ◌%◌, ◌≤◌, ◌<◌, ◌≡◌, refl, ap, ◌∙◌, true, false, some, List, [], ◌∷◌, ◌++◌,
  arith, ltb, take, length, length-append, take-append_length, drop-append_length, All, Bytes, ok,
  ◌-◌, length-take_le,
}
use mathlib.Core.List.{append_assoc}
use mathlib.Core.Path.{ap₂}
use index_one.Crypto.{Primitives}
use index_one.Witness.{ActionReceipt, WitnessEncoding, Witness, append}
use index_one.WitnessService.Store.{ReceiptParser, u32_from_le, frame, replay, open_store}

u32_from_le-u32_le :
    (n : ℕ)
    → n < 4294967296
    → u32_from_le (n % 256) (n / 256 % 256) (n / 65536 % 256) (n / 16777216 % 256) ≡ n
u32_from_le-u32_le n h = omega arith

module _ ⦃prim : Primitives⦄ ⦃enc : WitnessEncoding⦄ ⦃parser : ReceiptParser⦄ where
  -- A receipt that fits a frame and is read back from its own bytes.
  pub record IsReadable (r : ActionReceipt) : Type 0 where
    pub fits : length (enc.receipt_bytes r) < 4294967296
    pub parses : parser.parse_receipt (enc.receipt_bytes r) ≡ some r

  abbrev pub frames : List ActionReceipt → Bytes
  frames [] = []
  frames (r ∷ rs) = frame r ++ frames rs

  abbrev pub append_all : Witness → List ActionReceipt → Witness
  append_all w [] = w
  append_all w (r ∷ rs) = append_all (append w r).1 rs

  replay-frame :
      (fuel : ℕ) (r : ActionReceipt) (rest : Bytes) (committed : ℕ) (w : Witness)
      → IsReadable r
      → replay (suc fuel) (frame r ++ rest) committed w
        ≡ replay fuel rest (committed + 4 + length (enc.receipt_bytes r)) (append w r).1
  unfolding replay
  replay-frame fuel r rest committed w i =
      let body = enc.receipt_bytes r in
      let whole : ltb (length (body ++ rest)) (length body) ≡ false =
        ground (arith, length-append body rest) in
      let read = u32_from_le-u32_le (length body) i.fits in
      rw (read, whole, take-append_length body rest, i.parses, read, drop-append_length body rest)

  -- A frame that was cut short.
  replay_torn :
      (fuel n : ℕ) (r : ActionReceipt) (committed : ℕ) (w : Witness)
      → IsReadable r
      → n < length (frame r)
      → replay fuel (take n (frame r)) committed w ≡ ok (committed, w)
  unfolding replay
  replay_torn zero n r committed w i h = refl
  replay_torn (suc fuel) zero r committed w i h = refl
  replay_torn (suc fuel) (suc zero) r committed w i h = refl
  replay_torn (suc fuel) (suc (suc zero)) r committed w i h = refl
  replay_torn (suc fuel) (suc (suc (suc zero))) r committed w i h = refl
  replay_torn (suc fuel) (suc (suc (suc (suc n)))) r committed w i h =
      let body = enc.receipt_bytes r in
      let there : n < length body = omega (arith, h) in
      let short : ltb (length (take n body)) (length body) ≡ true =
        ground (arith, there, length-take_le n body) in
      rw (u32_from_le-u32_le (length body) i.fits, short)

  replay-frames :
      (fuel k : ℕ) (rs : List ActionReceipt) (tail : Bytes) (committed : ℕ) (w : Witness)
      → All IsReadable rs
      → fuel ≡ length rs + k
      → replay fuel (frames rs ++ tail) committed w
        ≡ replay k tail (committed + length (frames rs)) (append_all w rs)
  replay-frames fuel k [] tail committed w i e =
      ap₂ (λ (f c : ℕ). replay f tail c w) (omega (arith, e)) (omega arith)
  replay-frames zero k (r ∷ rs) tail committed w i e = absurd (omega (arith, e))
  replay-frames (suc fuel) k (r ∷ rs) tail committed w i e =
      let next = committed + 4 + length (enc.receipt_bytes r) in
      let w' = (append w r).1 in
      ap (λ (x : Bytes). replay (suc fuel) x committed w) (append_assoc (frame r) (frames rs) tail)
      ∙ replay-frame fuel r (frames rs ++ tail) committed w i.0
      ∙ replay-frames fuel k rs tail next w' i.1 (omega (arith, e))
      ∙ ap (λ (c : ℕ). replay k tail c (append_all w' rs))
          (omega (arith, length-append (enc.receipt_bytes r) (frames rs)))

  frames_room : (rs : List ActionReceipt) → length rs ≤ length (frames rs)
  frames_room [] = omega arith
  frames_room (r ∷ rs) =
      omega (arith, frames_room rs, length-append (enc.receipt_bytes r) (frames rs))

  -- Crash recovery: a file of complete frames of readable receipts, with at most a part of one more
  -- frame behind them, opens with exactly the receipts of the complete frames appended in order, and
  -- is cut back to these frames.
  pub open_store-frames :
      (rs : List ActionReceipt) (r : ActionReceipt) (n : ℕ) (w : Witness)
      → All IsReadable rs
      → IsReadable r
      → n < length (frame r)
      → open_store (frames rs ++ take n (frame r)) w ≡ ok (frames rs, append_all w rs)
  unfolding open_store
  open_store-frames rs r n w readable i torn =
      let tail = take n (frame r) in
      let file = frames rs ++ tail in
      let whole = length-append (frames rs) tail in
      let k = length file - length rs in
      let replayed =
        replay-frames (length file) k rs tail 0 w readable (omega (arith, whole, frames_room rs))
        ∙ ap (λ (c : ℕ). replay k tail c (append_all w rs)) (omega arith)
        ∙ replay_torn k n r (length (frames rs)) (append_all w rs) i torn in
      rw (replayed, take-append_length (frames rs) tail)
