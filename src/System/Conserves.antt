-- ===== src/System/Conserves.antt =====
-- src/system_program.rs: the lamports of an instruction's accounts, before and after.
use hopper_svm.Prelude.{ℕ, refl, String, ◌≤◌, ◌≡◌, List, [], ◌∷◌, arith, u64_max, drop}
use hopper_svm.Error.{ok, err, panic}
use hopper_svm.Account.{KeyedAccount, total_lamports, addresses}
use hopper_svm.Sdk.{Sdk}
use hopper_svm.Builtin.{InvokeContext, Session}
use hopper_svm.Bytes.{le_decode, slice}
use hopper_svm.System.{dispatch, handle, system_invoke}
use hopper_svm.System.Slots.{Handled}
use hopper_svm.System.Create.{create_account, assign, allocate}
use hopper_svm.System.Transfers.{transfer}
use hopper_svm.System.Seeds.{create_account_with_seed, assign_with_seed, transfer_with_seed}
use hopper_svm.System.Funding.{create_account_with_seed_inv}
use hopper_svm.System.Nonce.{
  initialize_nonce_account, advance_nonce_account, withdraw_nonce_account, authorize_nonce_account,
  upgrade_nonce_account,
}

-- A success leaves the slots at their addresses, with the sum of their lamports as it was.
abbrev pub Balanced : List KeyedAccount → Handled → Type 0
Balanced accounts (ok (after, _)) =
    (total_lamports after ≡ total_lamports accounts) × (addresses after ≡ addresses accounts)
Balanced accounts (err _) = Unit
Balanced accounts panic = Unit

Balanced-success :
    (accounts : List KeyedAccount) (h : Handled)
    → ((after : List KeyedAccount) (message : String)
        → h ≡ ok (after, message)
        → Balanced accounts (ok (after, message)))
    → Balanced accounts h
Balanced-success accounts (ok (after, message)) f = f after message refl
Balanced-success accounts (err e) f = tt
Balanced-success accounts panic f = tt

module _ (body : List ℕ) (ctx : InvokeContext) where
  create_account-Balanced :
      (accounts : List KeyedAccount) → Balanced accounts (create_account body accounts ctx)
  unfolding create_account
  create_account-Balanced [] = ground arith
  create_account-Balanced (a ∷ []) = ground arith
  create_account-Balanced (a ∷ b ∷ rest) = ground arith

  assign-Balanced : (accounts : List KeyedAccount) → Balanced accounts (assign body accounts ctx)
  unfolding assign
  assign-Balanced [] = ground arith
  assign-Balanced (a ∷ rest) = ground arith

  allocate-Balanced :
      (accounts : List KeyedAccount) → Balanced accounts (allocate body accounts ctx)
  unfolding allocate
  allocate-Balanced [] = ground arith
  allocate-Balanced (a ∷ rest) = ground arith

module _ (sdk : Sdk) (body : List ℕ) (ctx : InvokeContext) where
  transfer-Balanced :
      (accounts : List KeyedAccount)
      → total_lamports accounts ≤ u64_max
      → Balanced accounts (transfer sdk body accounts ctx)
  unfolding transfer
  transfer-Balanced [] h = ground arith
  transfer-Balanced (a ∷ []) h = ground arith
  transfer-Balanced (a ∷ b ∷ rest) h = ground arith

  create_account_with_seed-Balanced :
      (accounts : List KeyedAccount)
      → Balanced accounts (create_account_with_seed sdk body accounts ctx)
  unfolding create_account_with_seed
  create_account_with_seed-Balanced [] = ground arith
  create_account_with_seed-Balanced (a ∷ []) = ground arith
  create_account_with_seed-Balanced (a ∷ b ∷ rest) =
      Balanced-success (a ∷ b ∷ rest) (create_account_with_seed sdk body (a ∷ b ∷ rest) ctx)
        λ after message done.
          let (_, _, _, _, enough, vacant, made) =
            create_account_with_seed_inv sdk body ctx a b rest after message done in
          rw made (omega (arith, enough, vacant), refl)

  assign_with_seed-Balanced :
      (accounts : List KeyedAccount) → Balanced accounts (assign_with_seed sdk body accounts ctx)
  unfolding assign_with_seed
  assign_with_seed-Balanced [] = ground arith
  assign_with_seed-Balanced (a ∷ []) = ground arith
  assign_with_seed-Balanced (a ∷ b ∷ rest) = ground arith

  transfer_with_seed-Balanced :
      (accounts : List KeyedAccount)
      → total_lamports accounts ≤ u64_max
      → Balanced accounts (transfer_with_seed sdk body accounts ctx)
  unfolding transfer_with_seed
  transfer_with_seed-Balanced [] h = ground arith
  transfer_with_seed-Balanced (a ∷ []) h = ground arith
  transfer_with_seed-Balanced (a ∷ b ∷ []) h = ground arith
  transfer_with_seed-Balanced (a ∷ b ∷ c ∷ rest) h = ground arith

  initialize_nonce_account-Balanced :
      (accounts : List KeyedAccount)
      → Balanced accounts (initialize_nonce_account sdk body accounts ctx)
  unfolding initialize_nonce_account
  initialize_nonce_account-Balanced [] = ground arith
  initialize_nonce_account-Balanced (a ∷ rest) = ground arith

  advance_nonce_account-Balanced :
      (accounts : List KeyedAccount)
      → Balanced accounts (advance_nonce_account sdk body accounts ctx)
  unfolding advance_nonce_account
  advance_nonce_account-Balanced [] = ground arith
  advance_nonce_account-Balanced (a ∷ []) = ground arith
  advance_nonce_account-Balanced (a ∷ b ∷ []) = ground arith
  advance_nonce_account-Balanced (a ∷ b ∷ c ∷ rest) = ground arith

module _ (body : List ℕ) (ctx : InvokeContext) where
  withdraw_nonce_account-Balanced :
      (accounts : List KeyedAccount)
      → total_lamports accounts ≤ u64_max
      → Balanced accounts (withdraw_nonce_account body accounts ctx)
  unfolding withdraw_nonce_account
  withdraw_nonce_account-Balanced [] h = ground arith
  withdraw_nonce_account-Balanced (a ∷ []) h = ground arith
  withdraw_nonce_account-Balanced (a ∷ b ∷ []) h = ground arith
  withdraw_nonce_account-Balanced (a ∷ b ∷ c ∷ []) h = ground arith
  withdraw_nonce_account-Balanced (a ∷ b ∷ c ∷ d ∷ []) h = ground arith
  withdraw_nonce_account-Balanced (a ∷ b ∷ c ∷ d ∷ e ∷ rest) h = ground arith

  authorize_nonce_account-Balanced :
      (accounts : List KeyedAccount) → Balanced accounts (authorize_nonce_account body accounts ctx)
  unfolding authorize_nonce_account
  authorize_nonce_account-Balanced [] = ground arith
  authorize_nonce_account-Balanced (a ∷ []) = ground arith
  authorize_nonce_account-Balanced (a ∷ b ∷ rest) = ground arith

  upgrade_nonce_account-Balanced :
      (accounts : List KeyedAccount) → Balanced accounts (upgrade_nonce_account body accounts ctx)
  unfolding upgrade_nonce_account
  upgrade_nonce_account-Balanced [] = ground arith
  upgrade_nonce_account-Balanced (a ∷ rest) = ground arith

module _ (sdk : Sdk) (accounts : List KeyedAccount) (ctx : InvokeContext) where
  dispatch-Balanced :
      (tag : ℕ) (body : List ℕ)
      → total_lamports accounts ≤ u64_max
      → Balanced accounts (dispatch sdk tag body accounts ctx)
  unfolding dispatch
  dispatch-Balanced tag body h = ground (
    arith,
    create_account-Balanced body ctx accounts,
    assign-Balanced body ctx accounts,
    allocate-Balanced body ctx accounts,
    transfer-Balanced sdk body ctx accounts h,
    create_account_with_seed-Balanced sdk body ctx accounts,
    assign_with_seed-Balanced sdk body ctx accounts,
    transfer_with_seed-Balanced sdk body ctx accounts h,
    initialize_nonce_account-Balanced sdk body ctx accounts,
    advance_nonce_account-Balanced sdk body ctx accounts,
    withdraw_nonce_account-Balanced body ctx accounts h,
    authorize_nonce_account-Balanced body ctx accounts,
    upgrade_nonce_account-Balanced body ctx accounts,
  )

  -- Any instruction of the system program, on accounts whose lamports sum to a `u64`, leaves every
  -- slot at its address and the sum of the lamports as it was, whether it succeeds or not.
  pub system_invoke-conserves :
      (bytes : List ℕ) (s : Session)
      → total_lamports accounts ≤ u64_max
      → let r = system_invoke sdk bytes accounts ctx s in
        (total_lamports r.accounts ≡ total_lamports accounts)
        × (addresses r.accounts ≡ addresses accounts)
  unfolding system_invoke handle
  system_invoke-conserves bytes s h =
      grind (arith, dispatch-Balanced (le_decode (slice 0 4 bytes)) (drop 4 bytes) h)
