-- ===== src/Vote/Slots.antt =====
-- src/spl/vote_program.rs: the lamports of an instruction's accounts and the slots that it may write.
use hopper_svm.Prelude.{ℕ, ◌≤◌, List, [], ◌∷◌, arith, u64_max, drop}
use hopper_svm.Bytes.Layout.{word}
use hopper_svm.Account.{KeyedAccount, total_lamports}
use hopper_svm.Sdk.{Sdk}
use hopper_svm.Builtin.{InvokeContext}
use hopper_svm.System.Conserves.{Balanced}
use hopper_svm.System.Authority.{Keeps, Guarded-refl}
use hopper_svm.Vote.{vote_dispatch, vote_handle}
use hopper_svm.Vote.Handlers.{
  initialize_account, authorize, withdraw, update_validator_identity, update_commission, emptied,
}

module _ (sdk : Sdk) (body : List ℕ) (ctx : InvokeContext) where
  initialize_account-Balanced :
      (accounts : List KeyedAccount) → Balanced accounts (initialize_account sdk body accounts ctx)
  unfolding initialize_account
  initialize_account-Balanced [] = ground arith
  initialize_account-Balanced (a ∷ rest) = ground arith

  authorize-Balanced :
      (accounts : List KeyedAccount) → Balanced accounts (authorize body accounts ctx)
  unfolding authorize
  authorize-Balanced [] = ground arith
  authorize-Balanced (a ∷ rest) = ground arith

  withdraw-Balanced :
      (accounts : List KeyedAccount)
      → total_lamports accounts ≤ u64_max
      → Balanced accounts (withdraw sdk body accounts ctx)
  unfolding withdraw emptied
  withdraw-Balanced [] h = ground arith
  withdraw-Balanced (a ∷ []) h = ground arith
  withdraw-Balanced (a ∷ b ∷ rest) h = ground arith

  update_validator_identity-Balanced :
      (accounts : List KeyedAccount)
      → Balanced accounts (update_validator_identity body accounts ctx)
  unfolding update_validator_identity
  update_validator_identity-Balanced [] = ground arith
  update_validator_identity-Balanced (a ∷ []) = ground arith
  update_validator_identity-Balanced (a ∷ b ∷ rest) = ground arith

  update_commission-Balanced :
      (accounts : List KeyedAccount) → Balanced accounts (update_commission body accounts ctx)
  unfolding update_commission
  update_commission-Balanced [] = ground arith
  update_commission-Balanced (a ∷ rest) = ground arith

  initialize_account-Keeps :
      (accounts : List KeyedAccount) → Keeps ctx accounts (initialize_account sdk body accounts ctx)
  unfolding initialize_account
  initialize_account-Keeps [] = ground arith
  initialize_account-Keeps (a ∷ rest) = ground (arith, Guarded-refl ctx rest)

  authorize-Keeps :
      (accounts : List KeyedAccount) → Keeps ctx accounts (authorize body accounts ctx)
  unfolding authorize
  authorize-Keeps [] = ground arith
  authorize-Keeps (a ∷ rest) = ground (arith, Guarded-refl ctx rest)

  withdraw-Keeps :
      (accounts : List KeyedAccount) → Keeps ctx accounts (withdraw sdk body accounts ctx)
  unfolding withdraw emptied
  withdraw-Keeps [] = ground arith
  withdraw-Keeps (a ∷ []) = ground arith
  withdraw-Keeps (a ∷ b ∷ rest) = ground (arith, Guarded-refl ctx rest)

  update_validator_identity-Keeps :
      (accounts : List KeyedAccount)
      → Keeps ctx accounts (update_validator_identity body accounts ctx)
  unfolding update_validator_identity
  update_validator_identity-Keeps [] = ground arith
  update_validator_identity-Keeps (a ∷ []) = ground arith
  update_validator_identity-Keeps (a ∷ b ∷ rest) = ground (arith, Guarded-refl ctx rest)

  update_commission-Keeps :
      (accounts : List KeyedAccount) → Keeps ctx accounts (update_commission body accounts ctx)
  unfolding update_commission
  update_commission-Keeps [] = ground arith
  update_commission-Keeps (a ∷ rest) = ground (arith, Guarded-refl ctx rest)

  vote_dispatch-Balanced :
      (tag : ℕ) (accounts : List KeyedAccount)
      → total_lamports accounts ≤ u64_max
      → Balanced accounts (vote_dispatch sdk tag body accounts ctx)
  unfolding vote_dispatch
  vote_dispatch-Balanced tag accounts h = ground (
    arith,
    initialize_account-Balanced accounts,
    authorize-Balanced accounts,
    withdraw-Balanced accounts h,
    update_validator_identity-Balanced accounts,
    update_commission-Balanced accounts,
  )

  vote_dispatch-Keeps :
      (tag : ℕ) (accounts : List KeyedAccount)
      → Keeps ctx accounts (vote_dispatch sdk tag body accounts ctx)
  unfolding vote_dispatch
  vote_dispatch-Keeps tag accounts = ground (
    arith,
    initialize_account-Keeps accounts,
    authorize-Keeps accounts,
    withdraw-Keeps accounts,
    update_validator_identity-Keeps accounts,
    update_commission-Keeps accounts,
  )

module _ (sdk : Sdk) (bytes : List ℕ) (accounts : List KeyedAccount) (ctx : InvokeContext) where
  pub vote_handle-Balanced :
      total_lamports accounts ≤ u64_max → Balanced accounts (vote_handle sdk bytes accounts ctx)
  unfolding vote_handle
  vote_handle-Balanced h =
      ground (arith, vote_dispatch-Balanced sdk (drop 4 bytes) ctx (word 0 4 bytes) accounts h)

  pub vote_handle-Keeps : Keeps ctx accounts (vote_handle sdk bytes accounts ctx)
  unfolding vote_handle
  vote_handle-Keeps =
      ground (arith, vote_dispatch-Keeps sdk (drop 4 bytes) ctx (word 0 4 bytes) accounts)
