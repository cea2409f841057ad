-- ===== src/Vote.antt =====
-- src/spl/vote_program.rs: the vote program. The children hold the header and the handlers; this file has
-- the dispatch.
pub mod Header
pub mod Handlers
pub mod Slots
pub mod Control
use hopper_svm.Prelude.{ℕ, List, [], ◌∷◌, ◌==◌, leb, length, drop, if◌then◌else◌}
use hopper_svm.Bytes.Layout.{word}
use hopper_svm.Error.{err, builtin_error, ◌>>=◌, ◌>>◌, require}
use hopper_svm.Account.{KeyedAccount}
use hopper_svm.Sdk.{Sdk}
use hopper_svm.Builtin.{InvokeContext, BuiltinProgram}
use hopper_svm.System.Slots.{Handled, concluded}
use Handlers.{initialize_account, authorize, withdraw, update_validator_identity, update_commission}

abbrev pub vote_instruction_cu : ℕ
vote_instruction_cu = 3_000

module _ (sdk : Sdk) where
  -- the `match tag`
  unfoldable pub vote_dispatch : ℕ → List ℕ → List KeyedAccount → InvokeContext → Handled
  vote_dispatch tag body accounts ctx =
      if tag == 0
      then initialize_account sdk body accounts ctx
      else if tag == 1
      then authorize body accounts ctx
      else if tag == 3
      then withdraw sdk body accounts ctx
      else if tag == 4
      then update_validator_identity body accounts ctx
      else if tag == 5
      then update_commission body accounts ctx
      else err (
          builtin_error ctx.program_id
            "vote: variant tag {other} not supported by Hopper simulator (supported: 0/InitializeAccount, 1/Authorize, 3/Withdraw, 4/UpdateValidatorIdentity, 5/UpdateCommission)")

  unfoldable pub vote_handle : List ℕ → List KeyedAccount → InvokeContext → Handled
  vote_handle bytes accounts ctx = do
    require (leb 4 (length bytes)) (
        builtin_error ctx.program_id
          "vote: instruction data too short ({} bytes, need ≥ 4 for tag)")
    vote_dispatch (word 0 4 bytes) (drop 4 bytes) accounts ctx

  -- `VoteProgramSimulator`. No handler writes to an account or to the log before it fails.
  unfoldable pub vote_program : BuiltinProgram
  vote_program = record {
    name = "vote";
    cost = λ _. vote_instruction_cu;
    invoke = λ bytes accounts ctx. concluded (vote_handle bytes accounts ctx) accounts;
  }
