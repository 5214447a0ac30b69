-- ===== src/Checkpoint/Note.antt =====
-- clients/checkpoint/src/lib.rs: the checkpoint, and the text of a signed note over it.
use index_one.Checkpoint.Str.{
  split, pop_empty, join_lines, strip_prefix, starts_with, position, split_once, lines, to_string,
  parse_usize,
}
use index_one.Base.{
  Text, ℕ, ◌+◌, ◌≡◌, ◌↔◌, Bool, true, false, ◌&&◌, ◌||◌, Option, none, some, List, [], ◌∷◌, ◌++◌,
  arith, ltb, if◌then◌else◌, length, take, drop, any, Result, ok, ◌>>=◌, unwrap_or, PartialEq, ◌==◌,
  ◌!=◌, ==_iff, Bytes, nat_eq, list_eq, option_eq,
}
use index_one.Crypto.{Primitives, PublicKey, Signer, CryptoError, ed25519, verify_signature}
use index_one.Witness.{Digest, SignedTreeHead}

-- Code that is not the repository's: `Sha256` of some bytes, and the standard base64 alphabet.
pub record NotePrimitives : Type 0 where
  pub sha256 : Bytes → Bytes
  pub encode : Bytes → Text
  pub decode : Text → Option Bytes

pub record Checkpoint : Type 0 where
  pub origin : Text
  pub size : ℕ
  pub root : Digest

abbrev pub checkpoint_beq : Checkpoint → Checkpoint → Bool
checkpoint_beq a b = a.origin == b.origin && a.size == b.size && a.root == b.root

pub checkpoint_beq_iff : (a b : Checkpoint) → (checkpoint_beq a b ≡ true) ↔ (a ≡ b)
checkpoint_beq_iff a b =
    ground (arith, ==_iff a.origin b.origin, ==_iff a.size b.size, ==_iff a.root b.root)

instance abbrev pub checkpoint_eq : PartialEq Checkpoint
checkpoint_eq = record { eq = checkpoint_beq; eq_iff = checkpoint_beq_iff }

unfoldable pub from_sth : Text → SignedTreeHead → Checkpoint
from_sth origin sth = record { origin = origin; size = sth.tree_size; root = sth.root }

-- "— " in UTF-8
abbrev pub sig_marker : Text
sig_marker = 226 ∷ 128 ∷ 148 ∷ 32 ∷ []

-- The lines before the first signature, joined, with a newline; and the lines from it on.
abbrev pub cut_at : List Text → Option ℕ → Option (Text × List Text)
cut_at lines none = none
cut_at lines (some sig_start) =
    if ltb sig_start 3
    then none
    else some (join_lines (take sig_start lines) ++ 10 ∷ [], drop sig_start lines)

-- What both `note_body` and `verify_checkpoint` begin with.
unfoldable pub note_parts : Text → Option (Text × List Text)
note_parts note =
    let lines = pop_empty (split 10 note) in cut_at lines (position (starts_with sig_marker) lines)

abbrev pub body_of : Option (Text × List Text) → Option Text
body_of none = none
body_of (some (body, sigs)) = some body

unfoldable pub note_body : Text → Option Text
note_body note = body_of (note_parts note)

module _ ⦃np : NotePrimitives⦄ where
  -- `Checkpoint::body`
  unfoldable pub checkpoint_body : Checkpoint → Text
  checkpoint_body cp =
      cp.origin ++ (10 ∷ (to_string cp.size ++ (10 ∷ (np.encode cp.root ++ 10 ∷ []))))

  -- ED25519_NOTE_ALG = 0x01
  unfoldable pub key_hash : Text → Bytes → Bytes
  key_hash name pubkey = take 4 (np.sha256 (name ++ (10 ∷ (1 ∷ pubkey))))

  abbrev pub line_of : Text → Bytes → Text
  line_of key_name blob = sig_marker ++ (key_name ++ (32 ∷ (np.encode blob ++ 10 ∷ [])))

  -- The `expect` on the signature is an error here.
  unfoldable pub signature_line : Text → Signer → Text → Result CryptoError Text
  signature_line body signer key_name = do
    sig ← signer.sign body
    ok (line_of key_name (key_hash key_name signer.public_key.bytes ++ sig.bytes))

  unfoldable pub sign_checkpoint : Signer → Text → Checkpoint → Result CryptoError Text
  sign_checkpoint signer key_name checkpoint = do
    line ← signature_line (checkpoint_body checkpoint) signer key_name
    ok (checkpoint_body checkpoint ++ line)

  unfoldable pub cosign : Text → Signer → Text → Option (Result CryptoError Text)
  cosign note signer key_name = elim (note_body note) [
    | none ↦ none
    | some body ↦ some (signature_line body signer key_name >>= λ line. ok (note ++ line))
  ]

  -- The fields of a body; a digest is 32 bytes.
  abbrev pub checkpoint_of : Text → Option ℕ → Option Bytes → Option Checkpoint
  checkpoint_of origin none root = none
  checkpoint_of origin (some size) none = none
  checkpoint_of origin (some size) (some root) =
      if length root == 32
      then some (record { origin = origin; size = size; root = root })
      else none

  abbrev pub parse_lines : List Text → Option Checkpoint
  parse_lines [] = none
  parse_lines (origin ∷ []) = none
  parse_lines (origin ∷ size ∷ []) = none
  parse_lines (origin ∷ size ∷ root ∷ rest) =
      checkpoint_of origin (parse_usize size) (np.decode root)

  unfoldable pub parse_body : Text → Option Checkpoint
  parse_body body = parse_lines (lines body)

  module _ ⦃prim : Primitives⦄ where
    -- The rest of a round of the loop, from the decoded blob on.
    abbrev pub blob_holds : Text → Bytes → PublicKey → Option Bytes → Bool
    blob_holds body expected pubkey none = false
    blob_holds body expected pubkey (some blob) =
        if length blob != 4 + 64 || take 4 blob != expected
        then false
        else unwrap_or
            (verify_signature body (record { algorithm = ed25519; bytes = drop 4 blob }) pubkey)
            false

    abbrev pub named_holds : Text → Text → PublicKey → Option (Text × Text) → Bool
    named_holds body key_name pubkey none = false
    named_holds body key_name pubkey (some (name, b64)) =
        if name != key_name
        then false
        else blob_holds body (key_hash key_name pubkey.bytes) pubkey (np.decode b64)

    abbrev pub rest_holds : Text → Text → PublicKey → Option Text → Bool
    rest_holds body key_name pubkey none = false
    rest_holds body key_name pubkey (some rest) =
        named_holds body key_name pubkey (split_once 32 rest)

    -- A round of the loop over the signature lines: whether it ends the loop as verified.
    unfoldable pub line_holds : Text → Text → PublicKey → Text → Bool
    line_holds body key_name pubkey line =
        rest_holds body key_name pubkey (strip_prefix sig_marker line)

    abbrev pub verified : Text → PublicKey → Option (Text × List Text) → Option Checkpoint
    verified key_name pubkey none = none
    verified key_name pubkey (some (body, sigs)) =
        if any (line_holds body key_name pubkey) sigs then parse_body body else none

    unfoldable pub verify_checkpoint : Text → Text → PublicKey → Option Checkpoint
    verify_checkpoint note key_name pubkey = verified key_name pubkey (note_parts note)
