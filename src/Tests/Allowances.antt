-- ===== src/Tests/Allowances.antt =====
-- The theorems about whole token instructions, allowances and lamports at concrete inputs.
use hopper_svm.Prelude.{◌≡◌, refl, inr, false, some, List, [], ◌∷◌, arith}
use hopper_svm.Bytes.{le_encode}
use hopper_svm.Error.{ok, is_ok}
use hopper_svm.Account.{KeyedAccount}
use hopper_svm.Builtin.{require_signer, require_writable}
use hopper_svm.Token.State.{read_token_account, write_token_account}
use hopper_svm.Token.Moves.{transfer, approve, revoke}
use hopper_svm.Token.Delegation.{revoke-transfer, approve-transfer}
use hopper_svm.Tests.Codec.{pack_account, spl, laws}
use hopper_svm.Tests.Tokens.{token, held, other}
use hopper_svm.Tests.Fixtures.{alice, bob, account, context}

-- The account of `held` with an allowance of 5 for bob.
abbrev allowed : KeyedAccount
allowed =
    account 3 1_000
      (pack_account (record (token 20) { delegate = some 2; delegated_amount = 5 }) []) 0

revoked :
    revoke spl (allowed ∷ alice ∷ []) (context 0)
    ≡ ok (held 20 ∷ alice ∷ [], "spl-token::Revoke: {src_addr}")
unfolding revoke read_token_account write_token_account require_writable require_signer
revoked = refl

revoke-transfer_example :
    is_ok (transfer spl (le_encode 8 5) (held 20 ∷ other 1 ∷ bob ∷ []) (context 0)) ≡ false
revoke-transfer_example =
    revoke-transfer spl (context 0) allowed alice (held 20) [] (alice ∷ [])
      "spl-token::Revoke: {src_addr}" revoked laws (context 0) (le_encode 8 5) (other 1) bob [] refl
      (omega arith)

approved :
    approve spl (le_encode 8 5) (held 20 ∷ bob ∷ alice ∷ []) (context 0)
    ≡ ok (
      allowed ∷ bob ∷ alice ∷ [],
      "spl-token::Approve: {src_addr} delegate={delegate_addr} amount={amount}",
    )
unfolding approve read_token_account write_token_account require_writable require_signer
approved = refl

approve-transfer_example :
    is_ok (transfer spl (le_encode 8 6) (allowed ∷ other 1 ∷ bob ∷ []) (context 0)) ≡ false
approve-transfer_example =
    approve-transfer spl (context 0) (held 20) bob alice allowed (le_encode 8 5) []
      (bob ∷ alice ∷ []) "spl-token::Approve: {src_addr} delegate={delegate_addr} amount={amount}"
      approved laws (context 0) (le_encode 8 6) (other 1) bob [] (omega arith) (omega arith) refl
      (omega arith) (inr (omega arith))

-- `CloseAccount` of an empty token account, for alice.
abbrev closing : List KeyedAccount
closing = held 0 ∷ bob ∷ alice ∷ []
