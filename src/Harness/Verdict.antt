-- ===== src/Harness/Verdict.antt =====
-- src/lib.rs: what a dispatched instruction may do to the accounts and to the harness.
use hopper_svm.Prelude.{ℕ, ◌≡◌, none, some, List, arith, Option-cases, inl, inr}
use hopper_svm.Error.{Pubkey, HopperSvmError, ok}
use hopper_svm.Account.{KeyedAccount, AccountMeta, Instruction, find_account}
use hopper_svm.Builtin.{find_meta, BuiltinProgram}
use hopper_svm.Sdk.{Sdk}
use hopper_svm.Log.{LogCapture}
use hopper_svm.Engine.{ExecutionOutcome, execute}
use hopper_svm.Engine.Rollback.{execute-rollback}
use hopper_svm.Validation.{ValidationPolicy, strict, validate_post_state}
use hopper_svm.Validation.Rules.{Respects, validate-Respects, validate-ne-panic}
use hopper_svm.Harness.{
  HopperSvm, Dispatched, open_session, settle, apply_validation, dispatch_builtin,
  dispatch_one_inner, dispatch_one,
}

module _ (sdk : Sdk) (ix : Instruction) (accounts : List KeyedAccount) where
  apply_validation-rollback :
      (o : ExecutionOutcome) (policy : ValidationPolicy) (logs : LogCapture) (e : HopperSvmError)
      → ((e' : HopperSvmError) → o.error ≡ some e' → o.resulting_accounts ≡ accounts)
      → (apply_validation sdk ix accounts o policy logs).0.error ≡ some e
      → (apply_validation sdk ix accounts o policy logs).0.resulting_accounts ≡ accounts
  unfolding apply_validation settle
  apply_validation-rollback o policy logs e back h = ground (arith, back e)

  dispatch_builtin-rollback :
      (svm : HopperSvm) (program : BuiltinProgram) (logs : LogCapture) (d : Dispatched)
      (e : HopperSvmError)
      → dispatch_builtin sdk svm program ix accounts logs ≡ some d
      → d.outcome.error ≡ some e
      → d.outcome.resulting_accounts ≡ accounts
  unfolding dispatch_builtin
  dispatch_builtin-rollback svm program logs d e h failed =
      elim (Option-cases (execute program ix accounts svm.sysvars (open_session svm logs))) [
        | inl panicked ↦ ground arith
        | inr ((o, s'), ran) ↦
            let back = apply_validation-rollback o svm.validation_policy s'.logs e (λ e' q.
              execute-rollback ix accounts program svm.sysvars (open_session svm logs) ran q) in
            ground (arith, back)
      ]

  -- Whatever program runs, and whether the program, the meter or the validator fails it, an
  -- instruction that ends with an error hands back the accounts that it was given.
  pub dispatch_one-rollback :
      (svm : HopperSvm) (i : ℕ) (logs : LogCapture) (d : Dispatched) (e : HopperSvmError)
      → dispatch_one sdk svm i ix accounts logs ≡ some d
      → d.outcome.error ≡ some e
      → d.outcome.resulting_accounts ≡ accounts
  unfolding dispatch_one dispatch_one_inner
  dispatch_one-rollback svm i logs d e h failed = grind (arith, dispatch_builtin-rollback)

  apply_validation-success :
      (o : ExecutionOutcome) (policy : ValidationPolicy) (logs : LogCapture)
      → (apply_validation sdk ix accounts o policy logs).0.error ≡ none
      → let o' = (apply_validation sdk ix accounts o policy logs).0 in
        (o' ≡ o)
        × (validate_post_state sdk ix.program_id ix.accounts accounts o'.resulting_accounts policy
            ≡ ok tt)
  unfolding apply_validation settle
  apply_validation-success o policy logs h =
      ground (
        arith,
        validate-ne-panic sdk ix.program_id ix.accounts accounts o.resulting_accounts policy,
      )

  dispatch_builtin-validated :
      (svm : HopperSvm) (program : BuiltinProgram) (logs : LogCapture) (d : Dispatched)
      → dispatch_builtin sdk svm program ix accounts logs ≡ some d
      → d.outcome.error ≡ none
      → validate_post_state sdk ix.program_id ix.accounts accounts d.outcome.resulting_accounts
          svm.validation_policy
        ≡ ok tt
  unfolding dispatch_builtin
  dispatch_builtin-validated svm program logs d h fine =
      elim (Option-cases (execute program ix accounts svm.sysvars (open_session svm logs))) [
        | inl panicked ↦ ground arith
        | inr ((o, s'), ran) ↦
            ground (arith, apply_validation-success o svm.validation_policy s'.logs)
      ]

  dispatch_one-validated :
      (svm : HopperSvm) (i : ℕ) (logs : LogCapture) (d : Dispatched)
      → dispatch_one sdk svm i ix accounts logs ≡ some d
      → d.outcome.error ≡ none
      → validate_post_state sdk ix.program_id ix.accounts accounts d.outcome.resulting_accounts
          svm.validation_policy
        ≡ ok tt
  unfolding dispatch_one dispatch_one_inner
  dispatch_one-validated svm i logs d h fine = grind (arith, dispatch_builtin-validated)

  -- Under the strict policy an instruction of any program that ends without an error has obeyed the
  -- account rules at every key that its metas list, where the key has an account before and after.
  pub dispatch_one-Respects :
      (svm : HopperSvm) (i : ℕ) (logs : LogCapture) (d : Dispatched) (k : Pubkey) (m : AccountMeta)
      (p n : KeyedAccount)
      → dispatch_one sdk svm i ix accounts logs ≡ some d
      → d.outcome.error ≡ none
      → svm.validation_policy ≡ strict
      → find_meta k ix.accounts ≡ some m
      → find_account k accounts ≡ some p
      → find_account k d.outcome.resulting_accounts ≡ some n
      → Respects sdk ix.program_id m p n
  dispatch_one-Respects svm i logs d k m p n h fine policy =
      validate-Respects sdk ix.program_id ix.accounts accounts d.outcome.resulting_accounts k m p n
        (rw policy at (dispatch_one-validated svm i logs d h fine))

  -- Of the harness, an instruction changes the two cells of the compute-budget program at most.
  pub dispatch_one-frame :
      (svm : HopperSvm) (i : ℕ) (logs : LogCapture) (d : Dispatched)
      → dispatch_one sdk svm i ix accounts logs ≡ some d
      → d.svm ≡ record svm { cells = d.svm.cells }
  unfolding dispatch_one dispatch_one_inner dispatch_builtin
  dispatch_one-frame svm i logs d h = ground arith
