-- ===== src/Chain/Tests.antt =====
-- The theorems on chains at a chain of two hops, from party 1 over party 2 to party 3.
use index_one.Base.{
  is_blank, ℕ, ◌≡◌, refl, ◌↔◌, inl, true, false, [], ◌∷◌, ok, arith, ◌≤◌, ◌+◌, is_ok,
}
use index_one.Chain.{
  RootBlock, DelegationBlock, Chain, issue, attenuate, verify, executor_key, tail, root_hash,
}
use index_one.Chain.Verify.{next_block}
use index_one.Chain.Scope.{
  permissions_narrow, permission_amount_max, resource_set, Permission, amount_max, resource_in,
  authorizes_subset_of, is_narrowing_of,
}
use index_one.Chain.Scope.Allows.{AnyAllows}
use index_one.Chain.Spec.{verify_iff, verify_attenuates, verify-Allows, IsAuthorized}
use index_one.Chain.Extend.{MayExtend, verify-issue, attenuate-verify, attenuate_iff}
use index_one.Sample.{sample, sample_chain, key_of, signed_by, signer_of, party, paying}
use index_one.Sample.Length.{signer_of-IsGenuine}

abbrev pub root_block : RootBlock
root_block = record {
  principal = party 1;
  principal_key = key_of 1;
  scope = paying 100 3;
  signature = signed_by 1 (sample_chain.root_payload (party 1) (key_of 1) (paying 100 3));
}

abbrev pub root_chain : Chain
root_chain = record { root = root_block; delegations = [] }

issued : issue (signer_of 1) (party 1) (paying 100 3) ≡ ok root_chain
unfolding issue
issued = refl

abbrev pub hop : DelegationBlock
hop = record {
  from = party 1;
  from_key = key_of 1;
  to = party 2;
  to_key = key_of 2;
  scope = paying 60 2;
  purpose = 98 ∷ [];
  prev_block_hash = root_hash root_block;
  signature = signed_by 1 (
      sample_chain.delegation_payload (party 1) (key_of 1) (party 2) (key_of 2) (paying 60 2)
        (98 ∷ []) (root_hash root_block));
}

abbrev pub hop_chain : Chain
hop_chain = record { root = root_block; delegations = hop ∷ [] }

root_verified : verify root_chain (key_of 1) ≡ ok (paying 100 3)
root_verified =
    verify-issue (signer_of 1) (party 1) (paying 100 3) root_chain (signer_of-IsGenuine 1) issued

extended :
    attenuate root_chain (signer_of 1) (party 2) (key_of 2) (paying 60 2) (98 ∷ [])
    ≡ (ok tt, hop_chain)
unfolding attenuate next_block tail root_hash is_narrowing_of permissions_narrow
    authorizes_subset_of permission_amount_max resource_set is_blank
extended = refl

pub hop_verified : verify hop_chain (key_of 1) ≡ ok (paying 60 2)
hop_verified =
    (attenuate-verify root_chain (key_of 1) (paying 100 3) (signer_of 1) (party 2) (key_of 2)
      (paying 60 2) (98 ∷ []) hop_chain root_verified (signer_of-IsGenuine 1) extended).0

attenuate-verify_example :
    (verify hop_chain (key_of 1) ≡ ok (paying 60 2)) × (executor_key hop_chain ≡ key_of 2)
attenuate-verify_example =
    attenuate-verify root_chain (key_of 1) (paying 100 3) (signer_of 1) (party 2) (key_of 2)
      (paying 60 2) (98 ∷ []) hop_chain root_verified (signer_of-IsGenuine 1) extended

-- The same key holder may not delegate on: the chain now ends at party 2.
attenuate_iff_example :
    (MayExtend (tail hop_chain) (signer_of 1) (paying 20 1) (98 ∷ [])
      → (attenuate hop_chain (signer_of 1) (party 3) (key_of 3) (paying 20 1) (98 ∷ [])).0 ≡ ok tt)
    × (¬ MayExtend (tail hop_chain) (signer_of 1) (paying 20 1) (98 ∷ [])
        → (is_ok (attenuate hop_chain (signer_of 1) (party 3) (key_of 3) (paying 20 1) (98 ∷ [])).0
            ≡ false)
          × ((attenuate hop_chain (signer_of 1) (party 3) (key_of 3) (paying 20 1) (98 ∷ [])).1
              ≡ hop_chain))
attenuate_iff_example =
    attenuate_iff hop_chain (signer_of 1) (party 3) (key_of 3) (paying 20 1) (98 ∷ []) _ refl

verify_iff_example :
    (verify hop_chain (key_of 1) ≡ ok (paying 60 2))
    ↔ IsAuthorized hop_chain (key_of 1) (paying 60 2)
verify_iff_example = verify_iff hop_chain (key_of 1) (paying 60 2)

verify_attenuates_example : (is_narrowing_of (paying 60 2) (paying 100 3) ≡ ok tt) × (2 + 1 ≤ 3)
verify_attenuates_example = verify_attenuates hop_chain (key_of 1) (paying 60 2) hop_verified

verify-Allows_example : AnyAllows (paying 100 3).permissions (112 ∷ []) 50 []
verify-Allows_example =
    verify-Allows hop_chain (key_of 1) (paying 60 2) (112 ∷ []) 50 [] hop_verified (omega arith)
      (inl (refl, (omega arith, tt)))

abbrev pay : ℕ → Permission
pay n = record { action = 112 ∷ []; constraints = amount_max n ∷ resource_in ((1 ∷ []) ∷ []) ∷ [] }

pay_less : authorizes_subset_of (pay 60) (pay 100) ≡ true
unfolding authorizes_subset_of permission_amount_max resource_set
pay_less = refl

narrower :
    (is_narrowing_of (paying 20 1) (paying 60 2) ≡ ok tt)
    × (is_narrowing_of (paying 60 2) (paying 100 3) ≡ ok tt)
unfolding is_narrowing_of permissions_narrow authorizes_subset_of permission_amount_max resource_set
narrower = (refl, refl)
