-- ===== src/Token/Aliasing.antt =====
-- src/spl/token.rs and src/engine.rs: a transfer whose source and destination are one account.
use hopper_svm.Prelude.{ℕ, ◌+◌, ◌≡◌, ◌≢◌, ◌∙◌, refl, some, String, List, [], ◌∷◌, arith}
use hopper_svm.Bytes.{le_decode, slice}
use hopper_svm.Error.{ok}
use hopper_svm.Account.{KeyedAccount, find_account}
use hopper_svm.Builtin.{InvokeContext}
use hopper_svm.Engine.{merge_accounts}
use hopper_svm.Engine.Merge.{find_account-merge_accounts}
use hopper_svm.Token.State.{
  SplToken, PackLaws, TokenAccount, read_token_account, write_token_account,
}
use hopper_svm.Token.Moves.{transfer}
use hopper_svm.Token.Amounts.{transfer_inv, transfer-amounts}

write_token_account-address :
    (spl : SplToken) (a : KeyedAccount) (t : TokenAccount)
    → (write_token_account spl a t).address ≡ a.address
unfolding write_token_account
write_token_account-address spl a t = refl

-- With the documented round trip of the `Pack` of the crate: where one account stands in the source
-- and in the destination slot of a `Transfer` that succeeds, and the authority is another account,
-- the merge of the slots leaves the account with the amount added to what it had.
pub transfer-merge_accounts :
    (spl : SplToken) (laws : PackLaws spl) (body : List ℕ) (ctx : InvokeContext)
    (a auth a' b' : KeyedAccount) (original tail : List KeyedAccount) (message : String)
    → transfer spl body (a ∷ a ∷ auth ∷ []) ctx ≡ ok (a' ∷ b' ∷ tail, message)
    → auth.address ≢ a.address
    → (before : TokenAccount) × (after : TokenAccount) × (w : KeyedAccount) × (read_token_account
          spl a ctx
        ≡ ok before)
      × (find_account a.address (merge_accounts original (a' ∷ b' ∷ tail)) ≡ some w)
      × (read_token_account spl w ctx ≡ ok after)
      × (after.amount ≡ before.amount + le_decode (slice 0 8 body))
transfer-merge_accounts spl laws body ctx a auth a' b' original tail message done other =
    let (_, _, before, after, _, eb, _, ea, _, _, _, _, _, _, more, _, _) =
      transfer-amounts spl laws body ctx a a auth a' b' [] tail message done in
    let (_, _, dst, _, _, _, _, _, _, _, _, _, _, wb, et) =
      transfer_inv spl laws body ctx a a auth a' b' [] tail message done in
    let same : b'.address ≡ a.address = rw wb (write_token_account-address spl a _) in
    (
      before,
      after,
      b',
      eb,
      find_account-merge_accounts a.address (a' ∷ b' ∷ tail) original
          ∙ rw et (ground (arith, same)),
      ea,
      more,
    )
