-- ===== src/Token/Authority.antt =====
-- src/spl/token.rs: which slots an instruction may write.
use hopper_svm.Prelude.{ℕ, List, [], ◌∷◌, arith}
use hopper_svm.Account.{KeyedAccount}
use hopper_svm.Sdk.{Sdk}
use hopper_svm.Builtin.{InvokeContext, Session}
use hopper_svm.System.Authority.{Guarded, Keeps, Guarded-refl}
use hopper_svm.Token.{token_dispatch, token_invoke}
use hopper_svm.Token.State.{SplToken}
use hopper_svm.Token.Setup.{initialize_mint, initialize_account}
use hopper_svm.Token.Moves.{transfer, approve, revoke}
use hopper_svm.Token.Supply.{mint_to, burn, close_account}

module _ (spl : SplToken) (body : List ℕ) (ctx : InvokeContext) where
  initialize_mint-Keeps :
      (accounts : List KeyedAccount) → Keeps ctx accounts (initialize_mint spl body accounts ctx)
  unfolding initialize_mint
  initialize_mint-Keeps [] = ground arith
  initialize_mint-Keeps (a ∷ rest) = ground (arith, Guarded-refl ctx rest)

  initialize_account-Keeps :
      (accounts : List KeyedAccount) → Keeps ctx accounts (initialize_account spl accounts ctx)
  unfolding initialize_account
  initialize_account-Keeps [] = ground arith
  initialize_account-Keeps (a ∷ []) = ground arith
  initialize_account-Keeps (a ∷ b ∷ []) = ground arith
  initialize_account-Keeps (a ∷ b ∷ c ∷ rest) = ground (arith, Guarded-refl ctx rest)

  transfer-Keeps :
      (accounts : List KeyedAccount) → Keeps ctx accounts (transfer spl body accounts ctx)
  unfolding transfer
  transfer-Keeps [] = ground arith
  transfer-Keeps (a ∷ []) = ground arith
  transfer-Keeps (a ∷ b ∷ []) = ground arith
  transfer-Keeps (a ∷ b ∷ c ∷ rest) = ground (arith, Guarded-refl ctx rest)

  approve-Keeps :
      (accounts : List KeyedAccount) → Keeps ctx accounts (approve spl body accounts ctx)
  unfolding approve
  approve-Keeps [] = ground arith
  approve-Keeps (a ∷ []) = ground arith
  approve-Keeps (a ∷ b ∷ []) = ground arith
  approve-Keeps (a ∷ b ∷ c ∷ rest) = ground (arith, Guarded-refl ctx rest)

  revoke-Keeps : (accounts : List KeyedAccount) → Keeps ctx accounts (revoke spl accounts ctx)
  unfolding revoke
  revoke-Keeps [] = ground arith
  revoke-Keeps (a ∷ []) = ground arith
  revoke-Keeps (a ∷ b ∷ rest) = ground (arith, Guarded-refl ctx rest)

  mint_to-Keeps :
      (accounts : List KeyedAccount) → Keeps ctx accounts (mint_to spl body accounts ctx)
  unfolding mint_to
  mint_to-Keeps [] = ground arith
  mint_to-Keeps (a ∷ []) = ground arith
  mint_to-Keeps (a ∷ b ∷ []) = ground arith
  mint_to-Keeps (a ∷ b ∷ c ∷ rest) = ground (arith, Guarded-refl ctx rest)

  burn-Keeps : (accounts : List KeyedAccount) → Keeps ctx accounts (burn spl body accounts ctx)
  unfolding burn
  burn-Keeps [] = ground arith
  burn-Keeps (a ∷ []) = ground arith
  burn-Keeps (a ∷ b ∷ []) = ground arith
  burn-Keeps (a ∷ b ∷ c ∷ rest) = ground (arith, Guarded-refl ctx rest)

module _ (sdk : Sdk) (spl : SplToken) (ctx : InvokeContext) where
  close_account-Keeps :
      (accounts : List KeyedAccount) → Keeps ctx accounts (close_account spl sdk accounts ctx)
  unfolding close_account
  close_account-Keeps [] = ground arith
  close_account-Keeps (a ∷ []) = ground arith
  close_account-Keeps (a ∷ b ∷ []) = ground arith
  close_account-Keeps (a ∷ b ∷ c ∷ rest) = ground (arith, Guarded-refl ctx rest)

module _ (sdk : Sdk) (spl : SplToken) (accounts : List KeyedAccount) (ctx : InvokeContext) where
  dispatch-Keeps : (bytes : List ℕ) → Keeps ctx accounts (token_dispatch sdk spl bytes accounts ctx)
  unfolding token_dispatch
  dispatch-Keeps [] = ground arith
  dispatch-Keeps (tag ∷ body) = ground (
    arith,
    initialize_mint-Keeps spl body ctx accounts,
    initialize_account-Keeps spl body ctx accounts,
    transfer-Keeps spl body ctx accounts,
    approve-Keeps spl body ctx accounts,
    revoke-Keeps spl body ctx accounts,
    mint_to-Keeps spl body ctx accounts,
    burn-Keeps spl body ctx accounts,
    close_account-Keeps sdk spl ctx accounts,
  )

  -- Whatever instruction the token program is given, each slot that it leaves changed is one that the
  -- metas mark as writable.
  pub token_invoke-Guarded :
      (bytes : List ℕ) (s : Session)
      → Guarded ctx accounts (token_invoke sdk spl bytes accounts ctx s).accounts
  unfolding token_invoke
  token_invoke-Guarded bytes s = grind (arith, dispatch-Keeps bytes, Guarded-refl ctx accounts)
