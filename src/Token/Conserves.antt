-- ===== src/Token/Conserves.antt =====
-- src/spl/token.rs: the lamports of an instruction's accounts, before and after.
use hopper_svm.Prelude.{ℕ, ◌≤◌, ◌≡◌, List, [], ◌∷◌, arith, u64_max}
use hopper_svm.Account.{KeyedAccount, total_lamports, addresses}
use hopper_svm.Sdk.{Sdk}
use hopper_svm.Builtin.{InvokeContext, Session}
use hopper_svm.System.Conserves.{Balanced}
use hopper_svm.Token.{token_dispatch, token_invoke}
use hopper_svm.Token.State.{SplToken, write_mint, write_token_account}
use hopper_svm.Token.Setup.{initialize_mint, initialize_account}
use hopper_svm.Token.Moves.{transfer, approve, revoke}
use hopper_svm.Token.Supply.{mint_to, burn, close_account}

module _ (spl : SplToken) (body : List ℕ) (ctx : InvokeContext) where
  initialize_mint-Balanced :
      (accounts : List KeyedAccount) → Balanced accounts (initialize_mint spl body accounts ctx)
  unfolding initialize_mint write_mint
  initialize_mint-Balanced [] = ground arith
  initialize_mint-Balanced (a ∷ rest) = ground arith

  initialize_account-Balanced :
      (accounts : List KeyedAccount) → Balanced accounts (initialize_account spl accounts ctx)
  unfolding initialize_account write_token_account
  initialize_account-Balanced [] = ground arith
  initialize_account-Balanced (a ∷ []) = ground arith
  initialize_account-Balanced (a ∷ b ∷ []) = ground arith
  initialize_account-Balanced (a ∷ b ∷ c ∷ rest) = ground arith

  transfer-Balanced :
      (accounts : List KeyedAccount) → Balanced accounts (transfer spl body accounts ctx)
  unfolding transfer write_token_account
  transfer-Balanced [] = ground arith
  transfer-Balanced (a ∷ []) = ground arith
  transfer-Balanced (a ∷ b ∷ []) = ground arith
  transfer-Balanced (a ∷ b ∷ c ∷ rest) = ground arith

  approve-Balanced :
      (accounts : List KeyedAccount) → Balanced accounts (approve spl body accounts ctx)
  unfolding approve write_token_account
  approve-Balanced [] = ground arith
  approve-Balanced (a ∷ []) = ground arith
  approve-Balanced (a ∷ b ∷ []) = ground arith
  approve-Balanced (a ∷ b ∷ c ∷ rest) = ground arith

  revoke-Balanced : (accounts : List KeyedAccount) → Balanced accounts (revoke spl accounts ctx)
  unfolding revoke write_token_account
  revoke-Balanced [] = ground arith
  revoke-Balanced (a ∷ []) = ground arith
  revoke-Balanced (a ∷ b ∷ rest) = ground arith

  mint_to-Balanced :
      (accounts : List KeyedAccount) → Balanced accounts (mint_to spl body accounts ctx)
  unfolding mint_to write_mint write_token_account
  mint_to-Balanced [] = ground arith
  mint_to-Balanced (a ∷ []) = ground arith
  mint_to-Balanced (a ∷ b ∷ []) = ground arith
  mint_to-Balanced (a ∷ b ∷ c ∷ rest) = ground arith

  burn-Balanced : (accounts : List KeyedAccount) → Balanced accounts (burn spl body accounts ctx)
  unfolding burn write_mint write_token_account
  burn-Balanced [] = ground arith
  burn-Balanced (a ∷ []) = ground arith
  burn-Balanced (a ∷ b ∷ []) = ground arith
  burn-Balanced (a ∷ b ∷ c ∷ rest) = ground arith

module _ (sdk : Sdk) (spl : SplToken) (ctx : InvokeContext) where
  close_account-Balanced :
      (accounts : List KeyedAccount)
      → total_lamports accounts ≤ u64_max
      → Balanced accounts (close_account spl sdk accounts ctx)
  unfolding close_account
  close_account-Balanced [] h = ground arith
  close_account-Balanced (a ∷ []) h = ground arith
  close_account-Balanced (a ∷ b ∷ []) h = ground arith
  close_account-Balanced (a ∷ b ∷ c ∷ rest) h = ground arith

module _ (sdk : Sdk) (spl : SplToken) (accounts : List KeyedAccount) (ctx : InvokeContext) where
  dispatch-Balanced :
      (bytes : List ℕ)
      → total_lamports accounts ≤ u64_max
      → Balanced accounts (token_dispatch sdk spl bytes accounts ctx)
  unfolding token_dispatch
  dispatch-Balanced [] h = ground arith
  dispatch-Balanced (tag ∷ body) h = ground (
    arith,
    initialize_mint-Balanced spl body ctx accounts,
    initialize_account-Balanced spl body ctx accounts,
    transfer-Balanced spl body ctx accounts,
    approve-Balanced spl body ctx accounts,
    revoke-Balanced spl body ctx accounts,
    mint_to-Balanced spl body ctx accounts,
    burn-Balanced spl body ctx accounts,
    close_account-Balanced sdk spl ctx accounts h,
  )

  -- Any instruction of the token program, on accounts whose lamports sum to a `u64`, leaves every slot
  -- at its address and the sum of the lamports as it was, whether it succeeds or not.
  pub token_invoke-conserves :
      (bytes : List ℕ) (s : Session)
      → total_lamports accounts ≤ u64_max
      → let r = token_invoke sdk spl bytes accounts ctx s in
        (total_lamports r.accounts ≡ total_lamports accounts)
        × (addresses r.accounts ≡ addresses accounts)
  unfolding token_invoke
  token_invoke-conserves bytes s h = grind (arith, dispatch-Balanced bytes h)
