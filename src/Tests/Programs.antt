-- ===== src/Tests/Programs.antt =====
-- The theorems about the system program and the validator at concrete inputs.
use hopper_svm.Prelude.{ℕ, ◌^◌, ◌≡◌, refl, true, false, List, [], ◌∷◌, ◌++◌, arith, replicate}
use hopper_svm.Bytes.{le_encode}
use hopper_svm.Error.{ok, err, is_ok, account_validation_failed}
use hopper_svm.Account.{KeyedAccount}
use hopper_svm.System.{system_invoke}
use hopper_svm.System.Create.{create_account}
use hopper_svm.System.Nonce.{
  read_nonce_state, write_nonce_state, advance_nonce_account, authorize_nonce_account,
}
use hopper_svm.System.Authority.{Guarded, system_invoke-Guarded}
use hopper_svm.System.Overflow.{seeds-panic, is_panic}
use hopper_svm.System.Slots.{two_slots}
use hopper_svm.Builtin.{require_signer, require_writable}
use hopper_svm.System.Seeds.{
  derived, require_base, create_account_with_seed, assign_with_seed, transfer_with_seed,
}
use hopper_svm.System.Handover.{authorize-advance}
use hopper_svm.Validation.{strict, validate_post_state}
use hopper_svm.Validation.{
  check_metas, check_meta, check_fresh, check_account, check_conservation, creation_credit,
}
use hopper_svm.Validation.Creation.{creation_from_nothing-accepted, create_account-rejected}
use hopper_svm.Tests.Fixtures.{sdk, alice, bob, account, meta, session, context, transfer_data}

abbrev both : List KeyedAccount
both = alice ∷ bob ∷ []

system_invoke-Guarded_example :
    Guarded
      (context 0)
      both
      (system_invoke sdk (transfer_data 200) both (context 0) session).accounts
system_invoke-Guarded_example =
    system_invoke-Guarded sdk both (context 0) (transfer_data 200) session

-- 40 bytes, the last eight of which are a seed length of `u64::MAX`.
abbrev huge_seed : List ℕ
huge_seed = replicate 32 0 ++ replicate 8 255

seeds-panic_example :
    (is_panic (create_account_with_seed sdk huge_seed both (context 0)) ≡ true)
    × (is_panic (assign_with_seed sdk huge_seed both (context 0)) ≡ true)
    × (is_panic (transfer_with_seed sdk huge_seed both (context 0)) ≡ false)
seeds-panic_example = seeds-panic sdk huge_seed both (context 0)

-- An empty seed: the base 1 and the owner 1 stand for the key 2, with 2 ^ 63 bytes asked for.
abbrev oversized : List ℕ
oversized =
    le_encode 32 1 ++ le_encode 8 0 ++ le_encode 8 200 ++ le_encode 8 (2 ^ 63) ++ le_encode 32 1

oversized-panic : is_panic (create_account_with_seed sdk oversized both (context 0)) ≡ true
unfolding create_account_with_seed two_slots derived require_base require_signer require_writable
oversized-panic = refl

abbrev nonce_bytes : List ℕ
nonce_bytes = write_nonce_state (replicate 80 0) true 2 (replicate 32 7) 5_000

-- The data of `CreateAccount` with 200 lamports, 1 byte and the owner 7.
abbrev create_data : List ℕ
create_data = le_encode 8 200 ++ (le_encode 8 1 ++ le_encode 32 7)

created :
    create_account create_data both (context 0)
    ≡ ok (
      account 1 300 [] 0 ∷ account 2 200 (0 ∷ []) 7 ∷ [],
      "system::CreateAccount: {} -> {} ({} lamports, {} bytes, owner {})",
    )
unfolding create_account
created = refl

create_account-rejected_example :
    validate_post_state sdk 0
      (meta 1 ∷ meta 2 ∷ [])
      both
      (account 1 300 [] 0 ∷ account 2 200 (0 ∷ []) 7 ∷ [])
      strict
    ≡ err (
        account_validation_failed 0
          "lamport conservation broken (pre={sum_pre}+{creation_credit}, post={sum_post}, delta={})")
create_account-rejected_example =
    create_account-rejected sdk (meta 1) (meta 2) alice bob refl refl (omega arith) refl refl
      create_data (context 0) (account 1 300 [] 0 ∷ account 2 200 (0 ∷ []) 7 ∷ [])
      "system::CreateAccount: {} -> {} ({} lamports, {} bytes, owner {})" created (omega arith)
      (omega arith) refl refl refl refl (omega arith)

-- An instruction that lists Alice and leaves her account as it is.
alice_untouched : validate_post_state sdk 77 (meta 1 ∷ []) (alice ∷ []) (alice ∷ []) strict ≡ ok tt
unfolding validate_post_state check_metas check_meta check_fresh check_account check_conservation
    creation_credit
alice_untouched = refl

creation_from_nothing-accepted_example :
    validate_post_state sdk 77
      (meta 2 ∷ meta 1 ∷ [])
      (bob ∷ alice ∷ [])
      (account 2 1_000 (5 ∷ []) 0 ∷ alice ∷ [])
      strict
    ≡ ok tt
creation_from_nothing-accepted_example =
    creation_from_nothing-accepted sdk 77 (meta 2) bob 1_000 5 [] (meta 1 ∷ []) (alice ∷ [])
      (alice ∷ []) refl refl (refl, refl, refl) (omega arith) refl alice_untouched

-- A nonce account with the authority 1, which hands it over to 2.
abbrev nonce : KeyedAccount
nonce = account 3 900 (replicate 4 1 ++ (1 ∷ 0 ∷ 0 ∷ 0 ∷ 1 ∷ replicate 31 0) ++ replicate 40 0) 0

abbrev handed_over : KeyedAccount
handed_over = account 3 900 (1 ∷ 0 ∷ 0 ∷ 0 ∷ 1 ∷ 0 ∷ 0 ∷ 0 ∷ 2 ∷ replicate 31 0 ++ replicate 40 0) 0

authorized :
    authorize_nonce_account (le_encode 32 2) (nonce ∷ alice ∷ []) (context 0)
    ≡ ok (
      handed_over ∷ alice ∷ [],
      "system::AuthorizeNonceAccount: {nonce_addr} -> authority {new_authority}",
    )
unfolding authorize_nonce_account read_nonce_state write_nonce_state
authorized = refl

authorize-advance_example :
    is_ok (advance_nonce_account sdk [] (handed_over ∷ bob ∷ alice ∷ []) (context 0)) ≡ false
authorize-advance_example =
    authorize-advance (le_encode 32 2) (context 0) nonce handed_over alice [] (alice ∷ [])
      "system::AuthorizeNonceAccount: {nonce_addr} -> authority {new_authority}" authorized sdk
      (context 0) [] bob alice [] (omega arith) (omega arith) refl (omega arith)
