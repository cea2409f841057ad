-- ===== src/Alt/Slots.antt =====
-- src/spl/alt_program.rs: the lamports of an instruction's accounts and the slots that it may write.
use hopper_svm.Prelude.{ℕ, ◌≤◌, List, [], ◌∷◌, arith, u64_max, drop}
use hopper_svm.Bytes.Layout.{word}
use hopper_svm.Account.{KeyedAccount, total_lamports}
use hopper_svm.Sdk.{Sdk}
use hopper_svm.Builtin.{InvokeContext}
use hopper_svm.System.Conserves.{Balanced}
use hopper_svm.System.Authority.{Keeps, Guarded-refl}
use hopper_svm.Alt.{alt_dispatch, alt_handle}
use hopper_svm.Alt.Handlers.{
  create_lookup_table, freeze_lookup_table, extend_lookup_table, deactivate_lookup_table,
  close_lookup_table,
}

module _ (sdk : Sdk) (body : List ℕ) (ctx : InvokeContext) where
  create_lookup_table-Balanced :
      (accounts : List KeyedAccount) → Balanced accounts (create_lookup_table sdk body accounts ctx)
  unfolding create_lookup_table
  create_lookup_table-Balanced [] = ground arith
  create_lookup_table-Balanced (a ∷ []) = ground arith
  create_lookup_table-Balanced (a ∷ b ∷ []) = ground arith
  create_lookup_table-Balanced (a ∷ b ∷ c ∷ []) = ground arith
  create_lookup_table-Balanced (a ∷ b ∷ c ∷ d ∷ rest) = ground arith

  freeze_lookup_table-Balanced :
      (accounts : List KeyedAccount) → Balanced accounts (freeze_lookup_table accounts ctx)
  unfolding freeze_lookup_table
  freeze_lookup_table-Balanced [] = ground arith
  freeze_lookup_table-Balanced (a ∷ []) = ground arith
  freeze_lookup_table-Balanced (a ∷ b ∷ rest) = ground arith

  extend_lookup_table-Balanced :
      (accounts : List KeyedAccount) → Balanced accounts (extend_lookup_table body accounts ctx)
  unfolding extend_lookup_table
  extend_lookup_table-Balanced [] = ground arith
  extend_lookup_table-Balanced (a ∷ []) = ground arith
  extend_lookup_table-Balanced (a ∷ b ∷ []) = ground arith
  extend_lookup_table-Balanced (a ∷ b ∷ c ∷ []) = ground arith
  extend_lookup_table-Balanced (a ∷ b ∷ c ∷ d ∷ rest) = ground arith

  deactivate_lookup_table-Balanced :
      (accounts : List KeyedAccount) → Balanced accounts (deactivate_lookup_table accounts ctx)
  unfolding deactivate_lookup_table
  deactivate_lookup_table-Balanced [] = ground arith
  deactivate_lookup_table-Balanced (a ∷ []) = ground arith
  deactivate_lookup_table-Balanced (a ∷ b ∷ rest) = ground arith

  close_lookup_table-Balanced :
      (accounts : List KeyedAccount)
      → total_lamports accounts ≤ u64_max
      → Balanced accounts (close_lookup_table sdk accounts ctx)
  unfolding close_lookup_table
  close_lookup_table-Balanced [] h = ground arith
  close_lookup_table-Balanced (a ∷ []) h = ground arith
  close_lookup_table-Balanced (a ∷ b ∷ []) h = ground arith
  close_lookup_table-Balanced (a ∷ b ∷ c ∷ rest) h = ground arith

  create_lookup_table-Keeps :
      (accounts : List KeyedAccount)
      → Keeps ctx accounts (create_lookup_table sdk body accounts ctx)
  unfolding create_lookup_table
  create_lookup_table-Keeps [] = ground arith
  create_lookup_table-Keeps (a ∷ []) = ground arith
  create_lookup_table-Keeps (a ∷ b ∷ []) = ground arith
  create_lookup_table-Keeps (a ∷ b ∷ c ∷ []) = ground arith
  create_lookup_table-Keeps (a ∷ b ∷ c ∷ d ∷ rest) = ground (arith, Guarded-refl ctx rest)

  freeze_lookup_table-Keeps :
      (accounts : List KeyedAccount) → Keeps ctx accounts (freeze_lookup_table accounts ctx)
  unfolding freeze_lookup_table
  freeze_lookup_table-Keeps [] = ground arith
  freeze_lookup_table-Keeps (a ∷ []) = ground arith
  freeze_lookup_table-Keeps (a ∷ b ∷ rest) = ground (arith, Guarded-refl ctx rest)

  extend_lookup_table-Keeps :
      (accounts : List KeyedAccount) → Keeps ctx accounts (extend_lookup_table body accounts ctx)
  unfolding extend_lookup_table
  extend_lookup_table-Keeps [] = ground arith
  extend_lookup_table-Keeps (a ∷ []) = ground arith
  extend_lookup_table-Keeps (a ∷ b ∷ []) = ground arith
  extend_lookup_table-Keeps (a ∷ b ∷ c ∷ []) = ground arith
  extend_lookup_table-Keeps (a ∷ b ∷ c ∷ d ∷ rest) = ground (arith, Guarded-refl ctx rest)

  deactivate_lookup_table-Keeps :
      (accounts : List KeyedAccount) → Keeps ctx accounts (deactivate_lookup_table accounts ctx)
  unfolding deactivate_lookup_table
  deactivate_lookup_table-Keeps [] = ground arith
  deactivate_lookup_table-Keeps (a ∷ []) = ground arith
  deactivate_lookup_table-Keeps (a ∷ b ∷ rest) = ground (arith, Guarded-refl ctx rest)

  close_lookup_table-Keeps :
      (accounts : List KeyedAccount) → Keeps ctx accounts (close_lookup_table sdk accounts ctx)
  unfolding close_lookup_table
  close_lookup_table-Keeps [] = ground arith
  close_lookup_table-Keeps (a ∷ []) = ground arith
  close_lookup_table-Keeps (a ∷ b ∷ []) = ground arith
  close_lookup_table-Keeps (a ∷ b ∷ c ∷ rest) = ground (arith, Guarded-refl ctx rest)

  alt_dispatch-Balanced :
      (tag : ℕ) (accounts : List KeyedAccount)
      → total_lamports accounts ≤ u64_max
      → Balanced accounts (alt_dispatch sdk tag body accounts ctx)
  unfolding alt_dispatch
  alt_dispatch-Balanced tag accounts h = ground (
    arith,
    create_lookup_table-Balanced accounts,
    freeze_lookup_table-Balanced accounts,
    extend_lookup_table-Balanced accounts,
    deactivate_lookup_table-Balanced accounts,
    close_lookup_table-Balanced accounts h,
  )

  alt_dispatch-Keeps :
      (tag : ℕ) (accounts : List KeyedAccount)
      → Keeps ctx accounts (alt_dispatch sdk tag body accounts ctx)
  unfolding alt_dispatch
  alt_dispatch-Keeps tag accounts = ground (
    arith,
    create_lookup_table-Keeps accounts,
    freeze_lookup_table-Keeps accounts,
    extend_lookup_table-Keeps accounts,
    deactivate_lookup_table-Keeps accounts,
    close_lookup_table-Keeps accounts,
  )

module _ (sdk : Sdk) (bytes : List ℕ) (accounts : List KeyedAccount) (ctx : InvokeContext) where
  pub alt_handle-Balanced :
      total_lamports accounts ≤ u64_max → Balanced accounts (alt_handle sdk bytes accounts ctx)
  unfolding alt_handle
  alt_handle-Balanced h =
      ground (arith, alt_dispatch-Balanced sdk (drop 4 bytes) ctx (word 0 4 bytes) accounts h)

  pub alt_handle-Keeps : Keeps ctx accounts (alt_handle sdk bytes accounts ctx)
  unfolding alt_handle
  alt_handle-Keeps =
      ground (arith, alt_dispatch-Keeps sdk (drop 4 bytes) ctx (word 0 4 bytes) accounts)
