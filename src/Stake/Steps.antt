-- ===== src/Stake/Steps.antt =====
-- src/spl/stake_program.rs: every instruction of the stake program as a step of the stake machine.
use hopper_svm.Prelude.{
  ℕ, ◌^◌, ◌≤◌, ◌<◌, ◌≡◌, String, List, [], ◌∷◌, ◌==◌, leb, arith, length, drop, u64_max,
}
use hopper_svm.Bytes.{AreBytes, drop-AreBytes}
use hopper_svm.Bytes.Layout.{word}
use hopper_svm.Error.{ok, require-eq-ok, if-eq-ok}
use hopper_svm.Account.{KeyedAccount}
use hopper_svm.Sdk.{Sdk}
use hopper_svm.Builtin.{InvokeContext}
use hopper_svm.Stake.State.{StakeAccountState}
use hopper_svm.Stake.Delegate.{delegate_stake}
use hopper_svm.Stake.Withdraw.{withdraw}
use hopper_svm.Stake.{stake_dispatch, stake_handle}
use hopper_svm.Stake.Refines.{
  Reads, Moved, AreKeys, initialize-Moved, authorize-Moved, delegate_stake-Moved, deactivate-Moved,
  withdraw-Moved,
}

module _ (ctx : InvokeContext) (a : KeyedAccount) (st : StakeAccountState)
    (reads : Reads ctx.program_id a st) (small : a.lamports ≤ u64_max) where
  module _ (body : List ℕ) (bytes : AreBytes body) where
    delegate_stake-short :
        (rest after : List KeyedAccount) (message : String)
        → AreKeys rest
        → ctx.sysvars.clock.epoch < 256 ^ 8
        → delegate_stake body (a ∷ rest) ctx ≡ ok (after, message)
        → Moved ctx a st after
    unfolding delegate_stake
    delegate_stake-short [] after message keys now h = absurd (ground arith)
    delegate_stake-short (b ∷ rest) after message keys now h =
        delegate_stake-Moved ctx a st reads small body bytes b rest after message keys.0 now h

    withdraw-short :
        (rest after : List KeyedAccount) (message : String)
        → withdraw body (a ∷ rest) ctx ≡ ok (after, message)
        → Moved ctx a st after
    unfolding withdraw
    withdraw-short [] after message h = absurd (ground arith)
    withdraw-short (b ∷ rest) after message h =
        withdraw-Moved ctx a st reads small body bytes b rest after message h

    stake_dispatch-Moved :
        (sdk : Sdk) (tag : ℕ) (rest after : List KeyedAccount) (message : String)
        → AreKeys rest
        → ctx.sysvars.clock.epoch < 256 ^ 8
        → stake_dispatch sdk tag body (a ∷ rest) ctx ≡ ok (after, message)
        → Moved ctx a st after
    unfolding stake_dispatch
    stake_dispatch-Moved sdk tag rest after message keys now h =
        if-eq-ok (tag == 0) _ _
          (λ e. initialize-Moved ctx a st reads small body bytes sdk rest after message e)
          (λ h1.
            if-eq-ok (tag == 1) _ _
              (λ e. authorize-Moved ctx a st reads small body bytes rest after message e)
              (λ h2.
                if-eq-ok (tag == 2) _ _ (λ e. delegate_stake-short rest after message keys now e)
                  (λ h3.
                    if-eq-ok (tag == 4) _ _ (λ e. withdraw-short rest after message e)
                      (λ h4.
                        if-eq-ok (tag == 5) _ _
                          (λ e.
                            deactivate-Moved ctx a st reads small body bytes rest after message now
                              e)
                          (λ e. cc) h4)
                      h3)
                  h2)
              h1)
          h

-- A success of the stake program, on data of bytes, slots with 32-byte keys, a `u64` epoch and a
-- `u64` balance: the account in the first slot, whose data reads as a state in range, makes a step
-- of the stake machine and reads as the state behind it.
pub stake_handle-Moved :
    (sdk : Sdk) (bytes : List ℕ) (ctx : InvokeContext) (a : KeyedAccount) (st : StakeAccountState)
    (rest after : List KeyedAccount) (message : String)
    → AreBytes bytes
    → AreKeys rest
    → ctx.sysvars.clock.epoch < 256 ^ 8
    → a.lamports ≤ u64_max
    → Reads ctx.program_id a st
    → stake_handle sdk bytes (a ∷ rest) ctx ≡ ok (after, message)
    → Moved ctx a st after
unfolding stake_handle
stake_handle-Moved sdk bytes ctx a st rest after message are keys now small reads h =
    let (long, ran) = require-eq-ok (leb 4 (length bytes)) _ _ h in
    stake_dispatch-Moved ctx a st reads small (drop 4 bytes) (drop-AreBytes 4 bytes are) sdk
      (word 0 4 bytes) rest after message keys now ran
