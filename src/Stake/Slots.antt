-- ===== src/Stake/Slots.antt =====
-- src/spl/stake_program.rs: the lamports of an instruction's accounts and the slots that it may write.
use hopper_svm.Prelude.{ℕ, ◌≤◌, List, [], ◌∷◌, arith, u64_max, drop}
use hopper_svm.Bytes.Layout.{word}
use hopper_svm.Account.{KeyedAccount, total_lamports}
use hopper_svm.Sdk.{Sdk}
use hopper_svm.Builtin.{InvokeContext}
use hopper_svm.System.Conserves.{Balanced}
use hopper_svm.System.Authority.{Keeps, Guarded-refl}
use hopper_svm.Stake.{stake_dispatch, stake_handle}
use hopper_svm.Stake.Setup.{initialize, authorize}
use hopper_svm.Stake.Delegate.{delegate_stake, deactivate}
use hopper_svm.Stake.Withdraw.{withdraw}

module _ (sdk : Sdk) (body : List ℕ) (ctx : InvokeContext) where
  initialize-Balanced :
      (accounts : List KeyedAccount) → Balanced accounts (initialize sdk body accounts ctx)
  unfolding initialize
  initialize-Balanced [] = ground arith
  initialize-Balanced (a ∷ rest) = ground arith

  authorize-Balanced :
      (accounts : List KeyedAccount) → Balanced accounts (authorize body accounts ctx)
  unfolding authorize
  authorize-Balanced [] = ground arith
  authorize-Balanced (a ∷ rest) = ground arith

  delegate_stake-Balanced :
      (accounts : List KeyedAccount) → Balanced accounts (delegate_stake body accounts ctx)
  unfolding delegate_stake
  delegate_stake-Balanced [] = ground arith
  delegate_stake-Balanced (a ∷ []) = ground arith
  delegate_stake-Balanced (a ∷ b ∷ rest) = ground arith

  withdraw-Balanced :
      (accounts : List KeyedAccount)
      → total_lamports accounts ≤ u64_max
      → Balanced accounts (withdraw body accounts ctx)
  unfolding withdraw
  withdraw-Balanced [] h = ground arith
  withdraw-Balanced (a ∷ []) h = ground arith
  withdraw-Balanced (a ∷ b ∷ rest) h = ground arith

  deactivate-Balanced :
      (accounts : List KeyedAccount) → Balanced accounts (deactivate body accounts ctx)
  unfolding deactivate
  deactivate-Balanced [] = ground arith
  deactivate-Balanced (a ∷ rest) = ground arith

  initialize-Keeps :
      (accounts : List KeyedAccount) → Keeps ctx accounts (initialize sdk body accounts ctx)
  unfolding initialize
  initialize-Keeps [] = ground arith
  initialize-Keeps (a ∷ rest) = ground (arith, Guarded-refl ctx rest)

  authorize-Keeps :
      (accounts : List KeyedAccount) → Keeps ctx accounts (authorize body accounts ctx)
  unfolding authorize
  authorize-Keeps [] = ground arith
  authorize-Keeps (a ∷ rest) = ground (arith, Guarded-refl ctx rest)

  delegate_stake-Keeps :
      (accounts : List KeyedAccount) → Keeps ctx accounts (delegate_stake body accounts ctx)
  unfolding delegate_stake
  delegate_stake-Keeps [] = ground arith
  delegate_stake-Keeps (a ∷ []) = ground arith
  delegate_stake-Keeps (a ∷ b ∷ rest) = ground (arith, Guarded-refl ctx rest)

  withdraw-Keeps : (accounts : List KeyedAccount) → Keeps ctx accounts (withdraw body accounts ctx)
  unfolding withdraw
  withdraw-Keeps [] = ground arith
  withdraw-Keeps (a ∷ []) = ground arith
  withdraw-Keeps (a ∷ b ∷ rest) = ground (arith, Guarded-refl ctx rest)

  deactivate-Keeps :
      (accounts : List KeyedAccount) → Keeps ctx accounts (deactivate body accounts ctx)
  unfolding deactivate
  deactivate-Keeps [] = ground arith
  deactivate-Keeps (a ∷ rest) = ground (arith, Guarded-refl ctx rest)

  stake_dispatch-Balanced :
      (tag : ℕ) (accounts : List KeyedAccount)
      → total_lamports accounts ≤ u64_max
      → Balanced accounts (stake_dispatch sdk tag body accounts ctx)
  unfolding stake_dispatch
  stake_dispatch-Balanced tag accounts h = ground (
    arith,
    initialize-Balanced accounts,
    authorize-Balanced accounts,
    delegate_stake-Balanced accounts,
    withdraw-Balanced accounts h,
    deactivate-Balanced accounts,
  )

  stake_dispatch-Keeps :
      (tag : ℕ) (accounts : List KeyedAccount)
      → Keeps ctx accounts (stake_dispatch sdk tag body accounts ctx)
  unfolding stake_dispatch
  stake_dispatch-Keeps tag accounts = ground (
    arith,
    initialize-Keeps accounts,
    authorize-Keeps accounts,
    delegate_stake-Keeps accounts,
    withdraw-Keeps accounts,
    deactivate-Keeps accounts,
  )

module _ (sdk : Sdk) (bytes : List ℕ) (accounts : List KeyedAccount) (ctx : InvokeContext) where
  pub stake_handle-Balanced :
      total_lamports accounts ≤ u64_max → Balanced accounts (stake_handle sdk bytes accounts ctx)
  unfolding stake_handle
  stake_handle-Balanced h =
      ground (arith, stake_dispatch-Balanced sdk (drop 4 bytes) ctx (word 0 4 bytes) accounts h)

  pub stake_handle-Keeps : Keeps ctx accounts (stake_handle sdk bytes accounts ctx)
  unfolding stake_handle
  stake_handle-Keeps =
      ground (arith, stake_dispatch-Keeps sdk (drop 4 bytes) ctx (word 0 4 bytes) accounts)
