-- ===== src/Engine/Rollback.antt =====
-- src/engine.rs: an instruction that fails changes no account.
use hopper_svm.Prelude.{◌≡◌, some, List, arith}
use hopper_svm.Error.{HopperSvmError}
use hopper_svm.Account.{KeyedAccount, Instruction}
use hopper_svm.Sysvar.{Sysvars}
use hopper_svm.Builtin.{Session, Invocation, BuiltinProgram}
use hopper_svm.Engine.{ExecutionOutcome, abort, conclude, run, execute}

module _ (ix : Instruction) (accounts : List KeyedAccount) {o : ExecutionOutcome}
    {s' : Session} where
  conclude-rollback :
      (r : Invocation) {e : HopperSvmError}
      → conclude ix accounts r ≡ some (o, s')
      → o.error ≡ some e
      → o.resulting_accounts ≡ accounts
  unfolding conclude abort
  conclude-rollback r h failed = ground arith

  run-rollback :
      (program : BuiltinProgram) (sysvars : Sysvars) (s : Session) {e : HopperSvmError}
      → run program ix accounts sysvars s ≡ some (o, s')
      → o.error ≡ some e
      → o.resulting_accounts ≡ accounts
  unfolding run abort
  run-rollback program sysvars s h failed = grind (arith, conclude-rollback)

  -- An outcome with an error holds the accounts that went in, whatever the program did before it
  -- failed.
  pub execute-rollback :
      (program : BuiltinProgram) (sysvars : Sysvars) (s : Session) {e : HopperSvmError}
      → execute program ix accounts sysvars s ≡ some (o, s')
      → o.error ≡ some e
      → o.resulting_accounts ≡ accounts
  unfolding execute abort
  execute-rollback program sysvars s h failed = grind (arith, run-rollback)
