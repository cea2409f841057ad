-- ===== src/Stake.antt =====
-- src/spl/stake_program.rs: the stake program. The children hold the state and the handlers; this file
-- has the dispatch.
pub mod State
pub mod Codec
pub mod Setup
pub mod Delegate
pub mod Withdraw
pub mod Slots
pub mod Machine
pub mod Bounds
pub mod Refines
pub mod Steps
pub mod Backing
pub mod Exit
use hopper_svm.Prelude.{ℕ, List, [], ◌∷◌, ◌==◌, leb, length, drop, if◌then◌else◌}
use hopper_svm.Bytes.Layout.{word}
use hopper_svm.Error.{ok, err, panic, builtin_error, ◌>>=◌, ◌>>◌, require}
use hopper_svm.Account.{KeyedAccount}
use hopper_svm.Log
use hopper_svm.Sdk.{Sdk}
use hopper_svm.Builtin.{InvokeContext, Session, Invocation, BuiltinProgram}
use hopper_svm.System.Slots.{Handled, concluded}
use Setup.{initialize, authorize}
use Delegate.{delegate_stake, deactivate}
use Withdraw.{withdraw}

abbrev pub stake_instruction_cu : ℕ
stake_instruction_cu = 750

module _ (sdk : Sdk) where
  -- the `match tag`
  unfoldable pub stake_dispatch : ℕ → List ℕ → List KeyedAccount → InvokeContext → Handled
  stake_dispatch tag body accounts ctx =
      if tag == 0
      then initialize sdk body accounts ctx
      else if tag == 1
      then authorize body accounts ctx
      else if tag == 2
      then delegate_stake body accounts ctx
      else if tag == 4
      then withdraw body accounts ctx
      else if tag == 5
      then deactivate body accounts ctx
      else err (
          builtin_error ctx.program_id
            "stake: variant tag {other} not supported by Hopper simulator (supported: 0/Initialize, 1/Authorize, 2/DelegateStake, 4/Withdraw, 5/Deactivate)")

  unfoldable pub stake_handle : List ℕ → List KeyedAccount → InvokeContext → Handled
  stake_handle bytes accounts ctx = do
    require (leb 4 (length bytes)) (
        builtin_error ctx.program_id
          "stake: instruction data too short ({} bytes, need ≥ 4 for tag)")
    stake_dispatch (word 0 4 bytes) (drop 4 bytes) accounts ctx

  -- `StakeProgramSimulator`. No handler writes to an account or to the log before it fails.
  unfoldable pub stake_program : BuiltinProgram
  stake_program = record {
    name = "stake";
    cost = λ _. stake_instruction_cu;
    invoke = λ bytes accounts ctx. concluded (stake_handle bytes accounts ctx) accounts;
  }
