-- ===== src/Token.antt =====
-- src/spl/token.rs: the SPL Token simulator. The children hold the state and the handlers; this file
-- has the dispatch.
pub mod State
pub mod Setup
pub mod Moves
pub mod Supply
pub mod Slots
pub mod Factories
pub mod Amounts
pub mod Issue
pub mod Delegation
pub mod Conserves
pub mod Authority
pub mod Aliasing
use hopper_svm.Prelude.{ℕ, List, [], ◌∷◌, ◌==◌, if◌then◌else◌}
use hopper_svm.Error.{ok, err, panic, builtin_error}
use hopper_svm.Account.{KeyedAccount}
use hopper_svm.Log
use hopper_svm.Sdk.{Sdk}
use hopper_svm.Builtin.{InvokeContext, Session, Invocation, BuiltinProgram}
use hopper_svm.System.Slots.{Handled}
use State.{SplToken}
use Setup.{initialize_mint, initialize_account}
use Moves.{transfer, approve, revoke}
use Supply.{mint_to, burn, close_account}

abbrev pub token_instruction_cu : ℕ
token_instruction_cu = 4_000

module _ (sdk : Sdk) (spl : SplToken) where
  unfoldable pub token_dispatch : List ℕ → List KeyedAccount → InvokeContext → Handled
  token_dispatch [] accounts ctx =
      err (builtin_error ctx.program_id "spl-token: empty instruction data")
  token_dispatch (tag ∷ body) accounts ctx =
      if tag == 0
      then initialize_mint spl body accounts ctx
      else if tag == 1
      then initialize_account spl accounts ctx
      else if tag == 3
      then transfer spl body accounts ctx
      else if tag == 4
      then approve spl body accounts ctx
      else if tag == 5
      then revoke spl accounts ctx
      else if tag == 7
      then mint_to spl body accounts ctx
      else if tag == 8
      then burn spl body accounts ctx
      else if tag == 9
      then close_account spl sdk accounts ctx
      else err (
          builtin_error ctx.program_id
            "spl-token: instruction tag {other} not supported by the bundled simulator yet (supported tags: 0/InitializeMint, 1/InitializeAccount, 3/Transfer, 4/Approve, 5/Revoke, 7/MintTo, 8/Burn, 9/CloseAccount)")

  -- `SplTokenSimulator`. No handler writes to an account or to the log before it fails.
  unfoldable pub token_invoke : List ℕ → List KeyedAccount → InvokeContext → Session → Invocation
  token_invoke bytes accounts ctx s = elim (token_dispatch bytes accounts ctx) [
    | ok (after, message) ↦ record {
      result = ok tt;
      accounts = after;
      session = record s { logs = Log.log_text s.logs message };
    }
    | err e ↦ record { result = err e; accounts = accounts; session = s }
    | panic ↦ record { result = panic; accounts = accounts; session = s }
  ]

  unfoldable pub token_program : BuiltinProgram
  token_program = record {
    name = "spl-token (simulated)";
    cost = λ _. token_instruction_cu;
    invoke = token_invoke;
  }
