-- ===== src/WitnessService/Tests.antt =====
-- The theorems on the store at a log of two receipts, and what a failed write leaves behind.
use index_one.Base.{
  ℕ, ◌≡◌, refl, Option, none, some, [], ◌∷◌, ◌++◌, arith, take, Bytes, ok, err, ◌==◌, if◌then◌else◌,
  nat_eq, list_eq, option_eq,
}
use mathlib.Core.Option.{some-injective}
use index_one.Witness.{ActionReceipt, root, new}
use index_one.WitnessService.Store.{ReceiptParser, frame, invalid_data, replay, open_store}
use index_one.WitnessService.Submit.{AppState, submit}
use index_one.WitnessService.Recovery.{IsReadable, frames, append_all, open_store-frames}
use index_one.WitnessService.Durable.{InStep, Recovers, submit-Recovers}
use index_one.Sample.{sample, sample_witness, key_of, signer_of}

-- A receipt on the empty log.
abbrev first_receipt : ℕ → ActionReceipt
first_receipt n = record {
  chain_digest = n ∷ [];
  action_digest = [];
  nonce = n ∷ [];
  prev_root = (root new).0;
}

abbrev parse : Bytes → Option ActionReceipt
parse (x ∷ y ∷ []) = if x == y then some (first_receipt x) else none
parse _ = none

instance abbrev sample_parser : ReceiptParser
sample_parser = record { parse_receipt = parse }

one-IsReadable : IsReadable (first_receipt 1)
one-IsReadable = record { fits = omega arith; parses = refl }

two-IsReadable : IsReadable (first_receipt 2)
two-IsReadable = record { fits = omega arith; parses = refl }

open_store-frames_example :
    open_store (frames (first_receipt 1 ∷ []) ++ take 5 (frame (first_receipt 2))) new
    ≡ ok (frames (first_receipt 1 ∷ []), append_all new (first_receipt 1 ∷ []))
open_store-frames_example =
    open_store-frames (first_receipt 1 ∷ []) (first_receipt 2) 5 new (one-IsReadable, tt)
      two-IsReadable (omega arith)

abbrev empty_service : AppState
empty_service = record {
  witness = new;
  log_signer = signer_of 1;
  log_key = key_of 1;
  store = some [];
}

empty-InStep : InStep empty_service []
empty-InStep = record { file = refl; leaves = refl }

submit-Recovers_example :
    Recovers
      (submit empty_service (first_receipt 1) (some 3)).1.store
      (submit empty_service (first_receipt 1) (some 3)).1.witness.leaf_hashes
submit-Recovers_example =
    submit-Recovers empty_service [] (first_receipt 1) (some 3) empty-InStep tt one-IsReadable
      (λ n e. omega (arith, some-injective _ _ e))

-- A failed write is not cut off again before the next frame, which an open then cannot read.
write_behind_torn :
    open_store (take 5 (frame (first_receipt 1)) ++ frame (first_receipt 2)) new ≡ err invalid_data
unfolding open_store replay
write_behind_torn = refl
