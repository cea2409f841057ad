-- ===== src/Tests/Calls.antt =====
-- The theorems about the calls of the harness at concrete inputs.
use hopper_svm.Prelude.{
  ℕ, ◌+◌, ◌≡◌, refl, none, some, List, [], ◌∷◌, ◌++◌, arith, if◌then◌else◌, leb,
}
use hopper_svm.Error.{insufficient_funds}
use hopper_svm.Account.{KeyedAccount, total_lamports}
use hopper_svm.Compute
use hopper_svm.Compute.{consume}
use hopper_svm.Log
use hopper_svm.Log.{program_log, invoked, used, succeeded, failed, chained, charged, blank}
use hopper_svm.Engine.{
  finish, execute, run, resolve_accounts, conclude, abort, merge_accounts, merge_one,
}
use hopper_svm.System.{system_program, system_invoke, handle, dispatch}
use hopper_svm.System.Transfers.{transfer}
use hopper_svm.Map
use hopper_svm.Validation.{
  validate_post_state, check_metas, check_meta, check_fresh, check_account, check_conservation,
  creation_credit,
}
use hopper_svm.Validation.Rules.{Respects}
use hopper_svm.Harness.{
  HopperSvm, HopperExecutionResult, Dispatched, from_outcome, process_instruction, dispatch_one,
  dispatch_one_inner, dispatch_builtin, apply_validation, settle,
}
use hopper_svm.Harness.Verdict.{dispatch_one-rollback, dispatch_one-Respects}
use hopper_svm.Harness.Chain.{
  ChainState, begin, final_outcome, run_chain, transaction_fee, charge, charge_line,
  process_transaction, process_instruction_chain,
}
use hopper_svm.Harness.Charge.{IsCharged}
use hopper_svm.Harness.Fee.{
  process_transaction-fee, process_transaction-failed, process_instruction_chain-keeps,
}
use hopper_svm.Harness.Overlay.{
  get_account, collect_inputs, fetch, push_metas, push_new, commit_success, commit, insert_all,
  process_instruction_with_store, process_instruction_chain_with_store,
  simulate_instruction_with_store, simulate_instruction_chain_with_store,
}
use hopper_svm.Harness.Store.{
  dry, get_account-process_instruction_with_store, simulate_with_store-eq,
}
use hopper_svm.Fees.{total_fee, base_fee, priority_fee, count_unique_signers, scan_all, scan}
use hopper_svm.Tests.Fixtures.{sdk, svm, alice, bob, account, meta, pay}

abbrev both : List KeyedAccount
both = alice ∷ bob ∷ []

abbrev paid : Dispatched
paid = record {
  outcome = finish (account 1 300 [] 0 ∷ account 2 200 [] 0 ∷ []) 150 none;
  logs = record {
    lines =
        invoked 0 1
        ∷ program_log "system::Transfer: {} -> {} ({} lamports)"
        ∷ used 0 150 200_000
        ∷ succeeded 0
        ∷ [];
    depth = 0;
  };
  svm = svm;
}

dispatch_one-pay : dispatch_one sdk svm 0 (pay 200) both Log.empty ≡ some paid
unfolding dispatch_one dispatch_one_inner dispatch_builtin apply_validation settle
    validate_post_state check_metas check_meta check_fresh check_account check_conservation
    creation_credit execute run resolve_accounts conclude merge_accounts merge_one system_program
    system_invoke handle dispatch transfer Map.lookup Log.log_text Log.invoke Log.success
    Compute.reset Compute.consume
dispatch_one-pay = refl

dispatch_one-Respects_example : Respects sdk 0 (meta 1) alice (account 1 300 [] 0)
dispatch_one-Respects_example =
    dispatch_one-Respects sdk (pay 200) both svm 0 Log.empty paid 1 (meta 1) alice
      (account 1 300 [] 0) dispatch_one-pay refl refl refl refl refl

abbrev failure_of : List KeyedAccount → List Log.LogLine → ℕ → Dispatched
failure_of accounts before balance = record {
  outcome = finish accounts 150 (some (insufficient_funds 1 balance 900));
  logs = record {
    lines =
        before
        ++ (invoked 0 1 ∷ used 0 150 200_000 ∷ failed 0 (insufficient_funds 1 balance 900) ∷ []);
    depth = 0;
  };
  svm = svm;
}

dispatch_one-overdraft :
    dispatch_one sdk svm 0 (pay 900) both Log.empty ≡ some (failure_of both [] 500)
unfolding dispatch_one dispatch_one_inner dispatch_builtin apply_validation execute run
    resolve_accounts conclude abort system_program system_invoke handle dispatch transfer Map.lookup
    Log.invoke Log.failure Compute.reset Compute.consume
dispatch_one-overdraft = refl

dispatch_one-rollback_example : (failure_of both [] 500).outcome.resulting_accounts ≡ both
dispatch_one-rollback_example =
    dispatch_one-rollback sdk (pay 900) both svm 0 Log.empty (failure_of both [] 500)
      (insufficient_funds 1 500 900) dispatch_one-overdraft refl

-- Alice and Bob sign, so the fee is 10.
abbrev charged_accounts : List KeyedAccount
charged_accounts = account 1 490 [] 0 ∷ bob ∷ []

fee_of_pay : transaction_fee svm (pay 900 ∷ []) ≡ 10
unfolding transaction_fee total_fee base_fee priority_fee count_unique_signers scan_all scan
fee_of_pay = refl

charged_both : charge 1 10 both ≡ charged_accounts
unfolding charge
charged_both = refl

abbrev overdrawn : Dispatched
overdrawn = failure_of charged_accounts (charged 10 1 2 200_000 0 ∷ blank ∷ chained 0 0 ∷ []) 490

dispatch_one-charged :
    dispatch_one sdk svm 0
      (pay 900)
      (charge 1 (transaction_fee svm (pay 900 ∷ [])) both)
      (Log.section (charge_line svm (pay 900 ∷ []) 1) 0 0)
    ≡ some overdrawn
unfolding dispatch_one dispatch_one_inner dispatch_builtin apply_validation execute run
    resolve_accounts conclude abort system_program system_invoke handle dispatch transfer Map.lookup
    Log.invoke Log.failure Log.section Log.line Compute.reset Compute.consume transaction_fee
    total_fee base_fee priority_fee count_unique_signers scan_all scan charge
dispatch_one-charged = refl

process_transaction-failed_example :
    (process_transaction sdk svm (pay 900 ∷ []) both 1
      ≡ some (
        record (from_outcome overdrawn.outcome overdrawn.logs) {
          transaction_fee_paid = transaction_fee svm (pay 900 ∷ []);
        },
        svm,
      ))
    × (charged_accounts ≡ charge 1 (transaction_fee svm (pay 900 ∷ [])) both)
    × (total_lamports charged_accounts + transaction_fee svm (pay 900 ∷ []) ≡ 500)
process_transaction-failed_example =
    process_transaction-failed sdk svm both 1 alice refl (pay 900) [] overdrawn
      (insufficient_funds 1 490 900) (rw fee_of_pay (omega arith)) dispatch_one-charged refl

abbrev receipt : HopperExecutionResult
receipt = record {
  outcome = overdrawn.outcome;
  logs = overdrawn.logs.lines;
  transaction_fee_paid = 10;
}

process_transaction-receipt :
    process_transaction sdk svm (pay 900 ∷ []) both 1 ≡ some (receipt, svm)
unfolding from_outcome
process_transaction-receipt = rw process_transaction-failed_example.0 (rw fee_of_pay refl)

process_transaction-fee_example :
    if leb (transaction_fee svm (pay 900 ∷ [])) 500
    then ((start : List KeyedAccount) × (c : ChainState) × IsCharged 1 alice
          (transaction_fee svm (pay 900 ∷ []))
          both
          start
        × (run_chain sdk 0 (pay 900 ∷ []) (begin svm start (charge_line svm (pay 900 ∷ []) 1))
            ≡ some c)
        × (overdrawn.outcome ≡ final_outcome c)
        × (svm ≡ c.svm)
        × (10 ≡ transaction_fee svm (pay 900 ∷ [])))
    else ((◌≡◌ {A = ℕ} 10 0)
        × (svm ≡ svm)
        × (charged_accounts ≡ both)
        × (some (insufficient_funds 1 490 900)
            ≡ some (insufficient_funds 1 500 (transaction_fee svm (pay 900 ∷ [])))))
process_transaction-fee_example =
    process_transaction-fee sdk svm both 1 alice refl (pay 900 ∷ []) receipt svm
      process_transaction-receipt

-- A chain of a payment that succeeds and one that fails.
abbrev half : ChainState
half = record {
  accounts = account 1 300 [] 0 ∷ account 2 200 [] 0 ∷ [];
  logs = record {
    lines =
        chained 0 0
        ∷ invoked 0 1
        ∷ program_log "system::Transfer: {} -> {} ({} lamports)"
        ∷ used 0 150 200_000
        ∷ succeeded 0
        ∷ [];
    depth = 0;
  };
  svm = svm;
  final = some paid.outcome;
}

run_chain-half : run_chain sdk 0 (pay 200 ∷ []) (begin svm both Log.empty) ≡ some half
unfolding run_chain dispatch_one dispatch_one_inner dispatch_builtin apply_validation settle
    validate_post_state check_metas check_meta check_fresh check_account check_conservation
    creation_credit execute run resolve_accounts conclude merge_accounts merge_one system_program
    system_invoke handle dispatch transfer Map.lookup Log.log_text Log.invoke Log.success
    Log.section Compute.reset Compute.consume
run_chain-half = refl

abbrev broken : Dispatched
broken = record (failure_of half.accounts (half.logs.lines ++ (blank ∷ chained 1 0 ∷ [])) 300) {
  outcome = record (finish half.accounts 150 (some (insufficient_funds 1 300 900))) {
    execution_time_us = 1;
  };
}

dispatch_one-broken :
    dispatch_one sdk svm 1 (pay 900) half.accounts (Log.section half.logs 1 0) ≡ some broken
unfolding dispatch_one dispatch_one_inner dispatch_builtin apply_validation execute run
    resolve_accounts conclude abort system_program system_invoke handle dispatch transfer Map.lookup
    Log.invoke Log.failure Log.section Compute.reset Compute.consume
dispatch_one-broken = refl

process_instruction_chain-keeps_example :
    (process_instruction_chain sdk svm (pay 200 ∷ pay 900 ∷ []) both
      ≡ some (from_outcome broken.outcome broken.logs, svm))
    × (half.accounts ≡ account 1 300 [] 0 ∷ account 2 200 [] 0 ∷ [])
process_instruction_chain-keeps_example =
    process_instruction_chain-keeps sdk svm both (pay 200 ∷ []) [] (pay 900) half broken
      (insufficient_funds 1 300 900) run_chain-half refl dispatch_one-broken refl

-- With the store, the account of the program comes first among the inputs.
abbrev stored_result : HopperExecutionResult
stored_result = record {
  outcome = finish (account 0 0 [] 0 ∷ account 1 300 [] 0 ∷ account 2 200 [] 0 ∷ []) 150 none;
  logs = paid.logs.lines;
  transaction_fee_paid = 0;
}

abbrev stored : HopperSvm
stored = record svm {
  account_store = (1, account 1 300 [] 0) ∷ (2, account 2 200 [] 0) ∷ (0, account 0 0 [] 0) ∷ [];
}

process_instruction_with_store-pay :
    process_instruction_with_store sdk svm (pay 200) ≡ some (stored_result, stored)
unfolding process_instruction_with_store collect_inputs fetch push_metas push_new
    process_instruction from_outcome commit_success commit insert_all Map.insert dispatch_one
    dispatch_one_inner dispatch_builtin apply_validation settle validate_post_state check_metas
    check_meta check_fresh check_account check_conservation creation_credit execute run
    resolve_accounts conclude merge_accounts merge_one system_program system_invoke handle dispatch
    transfer Map.lookup Log.log_text Log.invoke Log.success Compute.reset Compute.consume
process_instruction_with_store-pay = refl

get_account-process_instruction_with_store_example :
    get_account stored 2 ≡ some (account 2 200 [] 0)
get_account-process_instruction_with_store_example =
    get_account-process_instruction_with_store sdk svm stored (pay 200) stored_result 2
      process_instruction_with_store-pay

simulate_with_store-eq_example :
    (simulate_instruction_with_store sdk svm (pay 200)
      ≡ dry svm (process_instruction_with_store sdk svm (pay 200)))
    × (simulate_instruction_chain_with_store sdk svm (pay 200 ∷ pay 900 ∷ [])
        ≡ dry svm (process_instruction_chain_with_store sdk svm (pay 200 ∷ pay 900 ∷ [])))
simulate_with_store-eq_example = simulate_with_store-eq sdk svm (pay 200) (pay 200 ∷ pay 900 ∷ [])
