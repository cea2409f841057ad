-- ===== src/Harness/Bundle.antt =====
-- src/lib.rs: the registry that `with_solana_runtime` fills, and a transaction on it.
use hopper_svm.Prelude.{◌+◌, ◌≤◌, ◌≡◌, some, List, [], arith, u64_max}
use hopper_svm.Error.{Pubkey}
use hopper_svm.Account.{KeyedAccount, Instruction, total_lamports, addresses}
use hopper_svm.Sdk.{Sdk}
use hopper_svm.Map
use hopper_svm.Map.{Map}
use hopper_svm.Builtin.{BuiltinProgram}
use hopper_svm.Fees.Signers.{IsDistinct}
use hopper_svm.Engine.Totals.{IsConservative}
use hopper_svm.Token.State.{SplToken}
use hopper_svm.Harness.{HopperSvm, HopperExecutionResult}
use hopper_svm.Harness.Chain.{process_transaction}
use hopper_svm.Harness.Runtime.{
  with_builtin, new_svm, with_compute_budget_program, with_alt_program, with_config_program,
  with_stake_program, with_vote_program, with_spl_token_simulator, with_spl_token_2022_simulator,
  with_spl_associated_token_simulator, with_spl_simulators, with_solana_runtime,
}
use hopper_svm.Harness.Conserves.{
  compute_budget_program-IsConservative, config_program-IsConservative,
  system_program-IsConservative, stake_program-IsConservative, vote_program-IsConservative,
  alt_program-IsConservative, token_program-IsConservative, token_2022_program-IsConservative,
  ata_program-IsConservative,
}
use hopper_svm.Harness.Totals.{AllConservative, DistinctKeys, process_transaction-total}

insert-AllConservative :
    (key : Pubkey) (p : BuiltinProgram) (registry : Map BuiltinProgram)
    → IsConservative p
    → AllConservative registry
    → AllConservative (Map.insert key p registry)
insert-AllConservative key p registry fair rest id q h =
    grind (arith, Map.lookup-insert key id p registry, rest id q)

empty-AllConservative : AllConservative []
unfolding Map.lookup
empty-AllConservative id p h = absurd (ground arith)

with_builtin-AllConservative :
    (id : Pubkey) (p : BuiltinProgram) (svm : HopperSvm)
    → IsConservative p
    → AllConservative svm.registry
    → AllConservative (with_builtin id p svm).registry
unfolding with_builtin
with_builtin-AllConservative id p svm fair rest = insert-AllConservative id p svm.registry fair rest

module _ (sdk : Sdk) (spl : SplToken) where
  new_svm-AllConservative : AllConservative (new_svm sdk).registry
  unfolding new_svm
  new_svm-AllConservative =
      insert-AllConservative sdk.system_id _ [] (system_program-IsConservative sdk)
        empty-AllConservative

  with_solana_runtime-AllConservative :
      (svm : HopperSvm)
      → AllConservative svm.registry
      → AllConservative (with_solana_runtime sdk spl svm).registry
  unfolding with_solana_runtime with_spl_simulators with_spl_associated_token_simulator
      with_spl_token_2022_simulator with_spl_token_simulator with_vote_program with_stake_program
      with_config_program with_alt_program with_compute_budget_program
  with_solana_runtime-AllConservative svm fair =
      let add = with_builtin-AllConservative in
      add _ _ _ (ata_program-IsConservative sdk spl) (
        add _ _ _ (token_2022_program-IsConservative sdk spl) (
          add _ _ _ (token_program-IsConservative sdk spl) (
            add _ _ _ (vote_program-IsConservative sdk) (
              add _ _ _ (stake_program-IsConservative sdk) (
                add _ _ _ config_program-IsConservative (
                  add _ _ _ (alt_program-IsConservative sdk)
                    (add _ _ _ compute_budget_program-IsConservative fair)))))))

  -- On a harness with the programs of `with_solana_runtime`, for accounts with distinct addresses
  -- whose lamports sum to a `u64` and instructions whose metas have distinct keys, what a transaction
  -- leaves in the accounts and what it reports as its fee add up to the lamports that went in, whether
  -- it is refused, fails or succeeds.
  pub process_transaction-conserves :
      (svm : HopperSvm) (accounts : List KeyedAccount) (ixs : List Instruction) (payer : Pubkey)
      (r : HopperExecutionResult) (svm' : HopperSvm)
      → svm.registry ≡ (with_solana_runtime sdk spl (new_svm sdk)).registry
      → IsDistinct (addresses accounts)
      → total_lamports accounts ≤ u64_max
      → DistinctKeys ixs
      → process_transaction sdk svm ixs accounts payer ≡ some (r, svm')
      → total_lamports r.outcome.resulting_accounts + r.transaction_fee_paid
        ≡ total_lamports accounts
  process_transaction-conserves svm accounts ixs payer r svm' bundle apart small d h =
      let fair : AllConservative svm.registry =
        rw bundle (with_solana_runtime-AllConservative (new_svm sdk) new_svm-AllConservative) in
      process_transaction-total sdk svm fair accounts apart small ixs d payer r svm' h
