-- ===== src/Sample/Length.antt =====
-- The sample hash has 32 bytes, and the sample signers are genuine.
use index_one.Base.{
  ℕ, zero, suc, ◌≡◌, refl, ap, true, [], ◌∷◌, ◌++◌, Bytes, length, ok, ok-injective, ==_refl,
  nat_eq, list_eq, subst, option_eq,
}
use index_one.Crypto.{Signature, IsGenuine, verify_signature, ed25519_verify}
use index_one.Crypto.Verify.{verify_levels}
use index_one.Sample.{fixed, sample, key_of, signed_by, signer_of}

pub length-fixed : (n : ℕ) (x : Bytes) → length (fixed n x) ≡ n
length-fixed zero x = refl
length-fixed (suc n) [] = ap suc (length-fixed n [])
length-fixed (suc n) (b ∷ x) = ap suc (length-fixed n x)

pub signed_by_holds :
    (seed : ℕ) (payload : Bytes)
    → verify_signature payload (signed_by seed payload) (key_of seed) ≡ ok true
unfolding verify_signature verify_levels ed25519_verify
signed_by_holds seed payload = rw (
  length-fixed 64 (fixed 32 (seed ∷ []) ++ payload),
  ==_refl (fixed 64 (fixed 32 (seed ∷ []) ++ payload)),
)

pub signer_of-IsGenuine : (seed : ℕ) → IsGenuine (signer_of seed)
signer_of-IsGenuine seed payload signature h =
    subst (λ (s : Signature). verify_signature payload s (key_of seed) ≡ ok true) (ok-injective h)
      (signed_by_holds seed payload)
