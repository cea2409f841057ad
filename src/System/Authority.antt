-- ===== src/System/Authority.antt =====
-- src/system_program.rs: which slots an instruction may write.
use hopper_svm.Prelude.{ℕ, String, ◌≡◌, refl, ◌⊎◌, inl, inr, List, [], ◌∷◌, arith, drop}
use hopper_svm.Bytes.{le_decode, slice}
use hopper_svm.Error.{ok, err, panic}
use hopper_svm.Account.{KeyedAccount}
use hopper_svm.Sdk.{Sdk}
use hopper_svm.Builtin.{InvokeContext, Session, require_writable}
use hopper_svm.System.{dispatch, handle, system_invoke}
use hopper_svm.System.Slots.{Handled}
use hopper_svm.System.Create.{create_account, assign, allocate}
use hopper_svm.System.Transfers.{transfer}
use hopper_svm.System.Seeds.{create_account_with_seed, assign_with_seed, transfer_with_seed}
use hopper_svm.System.Funding.{create_account_with_seed_inv}
use hopper_svm.System.Nonce.{
  initialize_nonce_account, advance_nonce_account, withdraw_nonce_account, authorize_nonce_account,
  upgrade_nonce_account,
}

-- Slot by slot, an account is as it was, or the context lets it be written.
abbrev pub Guarded : InvokeContext → List KeyedAccount → List KeyedAccount → Type 0
Guarded ctx [] [] = Unit
Guarded ctx [] (b ∷ bs) = ⊥
Guarded ctx (a ∷ as') [] = ⊥
Guarded ctx (a ∷ as') (b ∷ bs) =
    ((b ≡ a) ⊎ (require_writable ctx a.address ≡ ok tt)) × Guarded ctx as' bs

abbrev pub Keeps : InvokeContext → List KeyedAccount → Handled → Type 0
Keeps ctx accounts (ok (after, _)) = Guarded ctx accounts after
Keeps ctx accounts (err _) = Unit
Keeps ctx accounts panic = Unit

pub Guarded-refl :
    (ctx : InvokeContext) (accounts : List KeyedAccount) → Guarded ctx accounts accounts
Guarded-refl ctx [] = tt
Guarded-refl ctx (a ∷ rest) = (inl refl, Guarded-refl ctx rest)

Keeps-success :
    (ctx : InvokeContext) (accounts : List KeyedAccount) (h : Handled)
    → ((after : List KeyedAccount) (message : String)
        → h ≡ ok (after, message)
        → Guarded ctx accounts after)
    → Keeps ctx accounts h
Keeps-success ctx accounts (ok (after, message)) f = f after message refl
Keeps-success ctx accounts (err e) f = tt
Keeps-success ctx accounts panic f = tt

module _ (body : List ℕ) (ctx : InvokeContext) where
  create_account-Keeps :
      (accounts : List KeyedAccount) → Keeps ctx accounts (create_account body accounts ctx)
  unfolding create_account
  create_account-Keeps [] = ground arith
  create_account-Keeps (a ∷ []) = ground arith
  create_account-Keeps (a ∷ b ∷ rest) = ground (arith, Guarded-refl ctx rest)

  assign-Keeps : (accounts : List KeyedAccount) → Keeps ctx accounts (assign body accounts ctx)
  unfolding assign
  assign-Keeps [] = ground arith
  assign-Keeps (a ∷ rest) = ground (arith, Guarded-refl ctx rest)

  allocate-Keeps : (accounts : List KeyedAccount) → Keeps ctx accounts (allocate body accounts ctx)
  unfolding allocate
  allocate-Keeps [] = ground arith
  allocate-Keeps (a ∷ rest) = ground (arith, Guarded-refl ctx rest)

  withdraw_nonce_account-Keeps :
      (accounts : List KeyedAccount) → Keeps ctx accounts (withdraw_nonce_account body accounts ctx)
  unfolding withdraw_nonce_account
  withdraw_nonce_account-Keeps [] = ground arith
  withdraw_nonce_account-Keeps (a ∷ []) = ground arith
  withdraw_nonce_account-Keeps (a ∷ b ∷ []) = ground arith
  withdraw_nonce_account-Keeps (a ∷ b ∷ c ∷ []) = ground arith
  withdraw_nonce_account-Keeps (a ∷ b ∷ c ∷ d ∷ []) = ground arith
  withdraw_nonce_account-Keeps (a ∷ b ∷ c ∷ d ∷ e ∷ rest) = ground (arith, Guarded-refl ctx rest)

  authorize_nonce_account-Keeps :
      (accounts : List KeyedAccount)
      → Keeps ctx accounts (authorize_nonce_account body accounts ctx)
  unfolding authorize_nonce_account
  authorize_nonce_account-Keeps [] = ground arith
  authorize_nonce_account-Keeps (a ∷ []) = ground arith
  authorize_nonce_account-Keeps (a ∷ b ∷ rest) = ground (arith, Guarded-refl ctx rest)

  upgrade_nonce_account-Keeps :
      (accounts : List KeyedAccount) → Keeps ctx accounts (upgrade_nonce_account body accounts ctx)
  unfolding upgrade_nonce_account
  upgrade_nonce_account-Keeps [] = ground arith
  upgrade_nonce_account-Keeps (a ∷ rest) = ground (arith, Guarded-refl ctx rest)

module _ (sdk : Sdk) (body : List ℕ) (ctx : InvokeContext) where
  transfer-Keeps :
      (accounts : List KeyedAccount) → Keeps ctx accounts (transfer sdk body accounts ctx)
  unfolding transfer
  transfer-Keeps [] = ground arith
  transfer-Keeps (a ∷ []) = ground arith
  transfer-Keeps (a ∷ b ∷ rest) = ground (arith, Guarded-refl ctx rest)

  create_account_with_seed-Keeps :
      (accounts : List KeyedAccount)
      → Keeps ctx accounts (create_account_with_seed sdk body accounts ctx)
  unfolding create_account_with_seed
  create_account_with_seed-Keeps [] = ground arith
  create_account_with_seed-Keeps (a ∷ []) = ground arith
  create_account_with_seed-Keeps (a ∷ b ∷ rest) =
      Keeps-success ctx (a ∷ b ∷ rest) (create_account_with_seed sdk body (a ∷ b ∷ rest) ctx)
        λ after message done.
          let (_, _, wa, wb, _, _, made) =
            create_account_with_seed_inv sdk body ctx a b rest after message done in
          rw made (inr wa, (inr wb, Guarded-refl ctx rest))

  assign_with_seed-Keeps :
      (accounts : List KeyedAccount) → Keeps ctx accounts (assign_with_seed sdk body accounts ctx)
  unfolding assign_with_seed
  assign_with_seed-Keeps [] = ground arith
  assign_with_seed-Keeps (a ∷ []) = ground arith
  assign_with_seed-Keeps (a ∷ b ∷ rest) = ground (arith, Guarded-refl ctx rest)

  transfer_with_seed-Keeps :
      (accounts : List KeyedAccount) → Keeps ctx accounts (transfer_with_seed sdk body accounts ctx)
  unfolding transfer_with_seed
  transfer_with_seed-Keeps [] = ground arith
  transfer_with_seed-Keeps (a ∷ []) = ground arith
  transfer_with_seed-Keeps (a ∷ b ∷ []) = ground arith
  transfer_with_seed-Keeps (a ∷ b ∷ c ∷ rest) = ground (arith, Guarded-refl ctx rest)

  initialize_nonce_account-Keeps :
      (accounts : List KeyedAccount)
      → Keeps ctx accounts (initialize_nonce_account sdk body accounts ctx)
  unfolding initialize_nonce_account
  initialize_nonce_account-Keeps [] = ground arith
  initialize_nonce_account-Keeps (a ∷ rest) = ground (arith, Guarded-refl ctx rest)

  advance_nonce_account-Keeps :
      (accounts : List KeyedAccount)
      → Keeps ctx accounts (advance_nonce_account sdk body accounts ctx)
  unfolding advance_nonce_account
  advance_nonce_account-Keeps [] = ground arith
  advance_nonce_account-Keeps (a ∷ []) = ground arith
  advance_nonce_account-Keeps (a ∷ b ∷ []) = ground arith
  advance_nonce_account-Keeps (a ∷ b ∷ c ∷ rest) = ground (arith, Guarded-refl ctx rest)

module _ (sdk : Sdk) (accounts : List KeyedAccount) (ctx : InvokeContext) where
  dispatch-Keeps :
      (tag : ℕ) (body : List ℕ) → Keeps ctx accounts (dispatch sdk tag body accounts ctx)
  unfolding dispatch
  dispatch-Keeps tag body = ground (
    arith,
    create_account-Keeps body ctx accounts,
    assign-Keeps body ctx accounts,
    allocate-Keeps body ctx accounts,
    transfer-Keeps sdk body ctx accounts,
    create_account_with_seed-Keeps sdk body ctx accounts,
    assign_with_seed-Keeps sdk body ctx accounts,
    transfer_with_seed-Keeps sdk body ctx accounts,
    initialize_nonce_account-Keeps sdk body ctx accounts,
    advance_nonce_account-Keeps sdk body ctx accounts,
    withdraw_nonce_account-Keeps body ctx accounts,
    authorize_nonce_account-Keeps body ctx accounts,
    upgrade_nonce_account-Keeps body ctx accounts,
  )

  -- Whatever instruction the system program is given, each slot that it leaves changed is one that
  -- the metas mark as writable.
  pub system_invoke-Guarded :
      (bytes : List ℕ) (s : Session)
      → Guarded ctx accounts (system_invoke sdk bytes accounts ctx s).accounts
  unfolding system_invoke handle
  system_invoke-Guarded bytes s = grind (
    arith,
    dispatch-Keeps (le_decode (slice 0 4 bytes)) (drop 4 bytes),
    Guarded-refl ctx accounts,
  )
