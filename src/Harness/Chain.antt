-- ===== src/Harness/Chain.antt =====
-- src/lib.rs: chains of instructions, without and with the fee of a transaction.
use hopper_svm.Prelude.{ℕ, ◌+◌, ◌-◌, Option, none, some, List, [], ◌∷◌, ◌==◌, leb, if◌then◌else◌}
use hopper_svm.Error.{Pubkey, HopperSvmError, empty_chain, unknown_account, insufficient_funds}
use hopper_svm.Account.{KeyedAccount, Instruction, AccountMeta, find_account}
use hopper_svm.Sdk.{Sdk}
use hopper_svm.Log
use hopper_svm.Log.{LogCapture}
use hopper_svm.Engine.{ExecutionOutcome, finish, merge_accounts}
use hopper_svm.Fees.{count_unique_signers, total_fee}
use hopper_svm.Harness.{HopperSvm, HopperExecutionResult, Dispatched, from_outcome, dispatch_one}

-- The variables of the loop over the instructions.
pub record ChainState : Type 0 where
  pub accounts : List KeyedAccount
  pub logs : LogCapture
  pub svm : HopperSvm
  pub final : Option ExecutionOutcome

-- What a round makes of the loop's variables: each resulting account replaces the first of its
-- address in the state or is pushed, as in `merge_accounts`.
abbrev pub advance : ChainState → Dispatched → ChainState
advance c d = record {
  accounts = merge_accounts c.accounts d.outcome.resulting_accounts;
  logs = d.logs;
  svm = d.svm;
  final = some d.outcome;
}

-- `final_outcome.unwrap_or_else(…)`
abbrev pub final_outcome : ChainState → ExecutionOutcome
final_outcome c = elim c.final [ some o ↦ o | none ↦ finish c.accounts 0 (some empty_chain) ]

abbrev pub begin : HopperSvm → List KeyedAccount → LogCapture → ChainState
begin svm accounts logs = record { accounts = accounts; logs = logs; svm = svm; final = none }

abbrev pub metas_of : List Instruction → List (List AccountMeta)
metas_of [] = []
metas_of (ix ∷ ixs) = ix.accounts ∷ metas_of ixs

abbrev pub cu_limit : HopperSvm → ℕ
cu_limit svm = elim svm.cells.pending_cu_limit [ none ↦ svm.budget.limit | some l ↦ l ]

unfoldable pub transaction_fee : HopperSvm → List Instruction → ℕ
transaction_fee svm ixs =
    total_fee svm.fee_calculator (count_unique_signers (metas_of ixs)) (cu_limit svm)
      svm.cells.priority_fee

-- `state[payer_idx].lamports -= total_fee`, at the first account of the payer.
unfoldable pub charge : Pubkey → ℕ → List KeyedAccount → List KeyedAccount
charge payer fee [] = []
charge payer fee (a ∷ rest) =
    if a.address == payer
    then record a { lamports = a.lamports - fee } ∷ rest
    else a ∷ charge payer fee rest

-- An exit before the first instruction: nothing is charged.
abbrev pub refuse :
    HopperSvm → List KeyedAccount → HopperSvmError → HopperExecutionResult × HopperSvm
refuse svm accounts e = (from_outcome (finish accounts 0 (some e)) Log.empty, svm)

abbrev pub charge_line : HopperSvm → List Instruction → Pubkey → LogCapture
charge_line svm ixs payer = Log.line Log.empty (
    Log.charged (transaction_fee svm ixs) payer (count_unique_signers (metas_of ixs)) (cu_limit svm)
      svm.cells.priority_fee)

module _ (sdk : Sdk) where
  -- The loop `for (i, ix) in ixs.iter().enumerate()`, which breaks behind a failure.
  unfoldable pub run_chain : ℕ → List Instruction → ChainState → Option ChainState
  run_chain i [] c = some c
  run_chain i (ix ∷ ixs) c =
      elim (dispatch_one sdk c.svm i ix c.accounts (Log.section c.logs i ix.program_id)) [
        | none ↦ none
        | some d ↦ elim d.outcome.error [
          | some e ↦ some (advance c d)
          | none ↦ run_chain (i + 1) ixs (advance c d)
        ]
      ]

  unfoldable pub process_instruction_chain :
      HopperSvm → List Instruction → List KeyedAccount → Option (HopperExecutionResult × HopperSvm)
  process_instruction_chain svm ixs accounts =
      elim (run_chain 0 ixs (begin svm accounts Log.empty)) [
        | none ↦ none
        | some c ↦ some (from_outcome (final_outcome c) c.logs, c.svm)
      ]

  -- The chain behind the charge.
  unfoldable pub run_charged :
      HopperSvm
      → List Instruction
      → List KeyedAccount
      → Pubkey
      → Option (HopperExecutionResult × HopperSvm)
  run_charged svm ixs accounts payer =
      let fee = transaction_fee svm ixs in
      elim (run_chain 0 ixs (begin svm (charge payer fee accounts) (charge_line svm ixs payer))) [
        | none ↦ none
        | some c ↦
            some
              (record (from_outcome (final_outcome c) c.logs) { transaction_fee_paid = fee }, c.svm)
      ]

  unfoldable pub process_transaction :
      HopperSvm
      → List Instruction
      → List KeyedAccount
      → Pubkey
      → Option (HopperExecutionResult × HopperSvm)
  process_transaction svm ixs accounts payer = elim (find_account payer accounts) [
    | none ↦ some (refuse svm accounts (unknown_account payer))
    | some p ↦
        if leb (transaction_fee svm ixs) p.lamports
        then run_charged svm ixs accounts payer
        else some
            (refuse svm accounts (insufficient_funds payer p.lamports (transaction_fee svm ixs)))
  ]
