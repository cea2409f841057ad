-- ===== src/Ata/Slots.antt =====
-- src/spl/ata.rs: the lamports of an instruction's accounts and the slots that it may write.
use hopper_svm.Prelude.{ℕ, List, [], ◌∷◌, arith}
use hopper_svm.Account.{KeyedAccount}
use hopper_svm.Sdk.{Sdk}
use hopper_svm.Builtin.{InvokeContext}
use hopper_svm.System.Conserves.{Balanced}
use hopper_svm.System.Authority.{Keeps, Guarded-refl}
use hopper_svm.Token.State.{SplToken}
use hopper_svm.Ata.{check_slots, settled, ata_handle}

module _ (sdk : Sdk) (spl : SplToken) (bytes : List ℕ) (ctx : InvokeContext) where
  pub ata_handle-Balanced :
      (accounts : List KeyedAccount) → Balanced accounts (ata_handle sdk spl bytes accounts ctx)
  unfolding ata_handle settled check_slots
  ata_handle-Balanced [] = ground arith
  ata_handle-Balanced (a ∷ []) = ground arith
  ata_handle-Balanced (a ∷ b ∷ []) = ground arith
  ata_handle-Balanced (a ∷ b ∷ c ∷ []) = ground arith
  ata_handle-Balanced (a ∷ b ∷ c ∷ d ∷ []) = ground arith
  ata_handle-Balanced (a ∷ b ∷ c ∷ d ∷ e ∷ []) = ground arith
  ata_handle-Balanced (a ∷ b ∷ c ∷ d ∷ e ∷ f ∷ rest) = ground arith

  pub ata_handle-Keeps :
      (accounts : List KeyedAccount) → Keeps ctx accounts (ata_handle sdk spl bytes accounts ctx)
  unfolding ata_handle settled check_slots
  ata_handle-Keeps [] = ground arith
  ata_handle-Keeps (a ∷ []) = ground arith
  ata_handle-Keeps (a ∷ b ∷ []) = ground arith
  ata_handle-Keeps (a ∷ b ∷ c ∷ []) = ground arith
  ata_handle-Keeps (a ∷ b ∷ c ∷ d ∷ []) = ground arith
  ata_handle-Keeps (a ∷ b ∷ c ∷ d ∷ e ∷ []) = ground arith
  ata_handle-Keeps (a ∷ b ∷ c ∷ d ∷ e ∷ f ∷ rest) = ground (arith, Guarded-refl ctx rest)
