-- ===== src/System.antt =====
-- src/system_program.rs: the system program. Its handlers are in the children, one module for each
-- group of instructions; this file has the dispatch.
pub mod Slots
pub mod Create
pub mod Transfers
pub mod Seeds
pub mod Funding
pub mod Nonce
pub mod Conserves
pub mod Authority
pub mod Overflow
pub mod Durable
pub mod Handover
use hopper_svm.Prelude.{ℕ, String, none, List, [], ◌∷◌, ◌==◌, ltb, leb, length, drop, if◌then◌else◌}
use hopper_svm.Bytes.{le_decode, slice}
use hopper_svm.Error.{Result, ok, err, panic, builtin_error, ◌>>=◌, ◌>>◌, require}
use hopper_svm.Account.{KeyedAccount}
use hopper_svm.Log
use hopper_svm.Sdk.{Sdk}
use hopper_svm.Builtin.{InvokeContext, Session, Invocation, BuiltinProgram}
use Slots.{Handled}
use Create.{create_account, assign, allocate}
use Transfers.{transfer}
use Seeds.{create_account_with_seed, assign_with_seed, transfer_with_seed}
use Nonce.{
  initialize_nonce_account, advance_nonce_account, withdraw_nonce_account, authorize_nonce_account,
  upgrade_nonce_account,
}

abbrev pub system_program_cost : ℕ
system_program_cost = 150

module _ (sdk : Sdk) where
  -- the `match tag`
  unfoldable pub dispatch : ℕ → List ℕ → List KeyedAccount → InvokeContext → Handled
  dispatch tag body accounts ctx =
      if tag == 0
      then create_account body accounts ctx
      else if tag == 1
      then assign body accounts ctx
      else if tag == 2
      then transfer sdk body accounts ctx
      else if tag == 3
      then create_account_with_seed sdk body accounts ctx
      else if tag == 4
      then advance_nonce_account sdk body accounts ctx
      else if tag == 5
      then withdraw_nonce_account body accounts ctx
      else if tag == 6
      then initialize_nonce_account sdk body accounts ctx
      else if tag == 7
      then authorize_nonce_account body accounts ctx
      else if tag == 8
      then allocate body accounts ctx
      else if tag == 9
      then assign_with_seed sdk body accounts ctx
      else if tag == 10
      then transfer_with_seed sdk body accounts ctx
      else if tag == 11
      then upgrade_nonce_account body accounts ctx
      else err (
          builtin_error ctx.program_id
            "system: variant tag {other} not recognised (supported: 0/CreateAccount, 1/Assign, 2/Transfer, 3/CreateAccountWithSeed, 4/AdvanceNonceAccount, 5/WithdrawNonceAccount, 6/InitializeNonceAccount, 7/AuthorizeNonceAccount, 8/Allocate, 9/AssignWithSeed, 10/TransferWithSeed, 11/UpgradeNonceAccount)")

  unfoldable pub handle : List ℕ → List KeyedAccount → InvokeContext → Handled
  handle bytes accounts ctx = do
    require (leb 4 (length bytes)) (
        builtin_error ctx.program_id
          "system: instruction data too short ({} bytes, need ≥ 4 for tag)")
    dispatch (le_decode (slice 0 4 bytes)) (drop 4 bytes) accounts ctx

  -- `SystemProgram`. No handler writes to an account or to the log before it fails.
  unfoldable pub system_invoke : List ℕ → List KeyedAccount → InvokeContext → Session → Invocation
  system_invoke bytes accounts ctx s = elim (handle bytes accounts ctx) [
    | ok (after, message) ↦ record {
      result = ok tt;
      accounts = after;
      session = record s { logs = Log.log_text s.logs message };
    }
    | err e ↦ record { result = err e; accounts = accounts; session = s }
    | panic ↦ record { result = panic; accounts = accounts; session = s }
  ]

  unfoldable pub system_program : BuiltinProgram
  system_program = record {
    name = "system";
    cost = λ _. system_program_cost;
    invoke = system_invoke;
  }
