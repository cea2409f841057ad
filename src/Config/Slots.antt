-- ===== src/Config/Slots.antt =====
-- src/spl/config_program.rs: the slots that `Store` may write, and what it needs to.
use hopper_svm.Prelude.{ℕ, List, [], ◌∷◌, arith}
use hopper_svm.Account.{KeyedAccount}
use hopper_svm.Builtin.{InvokeContext}
use hopper_svm.System.Conserves.{Balanced}
use hopper_svm.System.Authority.{Keeps, Guarded-refl}
use hopper_svm.Config.{config_handle}

module _ (bytes : List ℕ) (ctx : InvokeContext) where
  pub config_handle-Balanced :
      (accounts : List KeyedAccount) → Balanced accounts (config_handle bytes accounts ctx)
  unfolding config_handle
  config_handle-Balanced [] = ground arith
  config_handle-Balanced (a ∷ rest) = ground arith

  pub config_handle-Keeps :
      (accounts : List KeyedAccount) → Keeps ctx accounts (config_handle bytes accounts ctx)
  unfolding config_handle
  config_handle-Keeps [] = ground arith
  config_handle-Keeps (a ∷ rest) = ground (arith, Guarded-refl ctx rest)
