-- ===== src/Harness.antt =====
-- src/lib.rs: the state of `HopperSvm` and the dispatch of one instruction, in the default build
-- (no `agave-runtime`, no `bpf-execution`). The `Arc<Mutex<…>>` fields are fields of a record that
-- calls thread through. `none` stands for a panic that unwinds out of the harness.
pub mod Chain
pub mod Overlay
pub mod Warp
pub mod Verdict
pub mod Charge
pub mod Fee
pub mod Store
pub mod Payment
pub mod Clock
pub mod Runtime
pub mod Conserves
pub mod Totals
pub mod Bundle
pub mod Lookups
pub mod Results
use hopper_svm.Prelude.{ℕ, Option, none, some, List, []}
use hopper_svm.Error.{Pubkey, HopperSvmError, Result, ok, err, panic, unknown_program}
use hopper_svm.Account.{KeyedAccount, Instruction}
use hopper_svm.Sdk.{Sdk}
use hopper_svm.Map
use hopper_svm.Map.{Map}
use hopper_svm.Compute
use hopper_svm.Compute.{ComputeBudget}
use hopper_svm.Log
use hopper_svm.Log.{LogLine, LogCapture}
use hopper_svm.Sysvar.{Sysvars}
use hopper_svm.Builtin.{Cells, Session, BuiltinProgram}
use hopper_svm.Engine.{ExecutionOutcome, finish, execute}
use hopper_svm.Validation.{ValidationPolicy, validate_post_state}
use hopper_svm.Fees.{FeeCalculator}

pub record HopperSvm : Type 0 where
  pub registry : Map BuiltinProgram
  pub sysvars : Sysvars
  pub budget : ComputeBudget
  pub cells : Cells
  pub validation_policy : ValidationPolicy
  pub fee_calculator : FeeCalculator
  pub account_store : Map KeyedAccount

-- src/result.rs
pub record HopperExecutionResult : Type 0 where
  pub outcome : ExecutionOutcome
  pub logs : List LogLine
  pub transaction_fee_paid : ℕ

unfoldable pub from_outcome : ExecutionOutcome → LogCapture → HopperExecutionResult
from_outcome outcome logs = record {
  outcome = outcome;
  logs = logs.lines;
  transaction_fee_paid = 0;
}

-- An outcome, the transcript so far and the harness after the call.
pub record Dispatched : Type 0 where
  pub outcome : ExecutionOutcome
  pub logs : LogCapture
  pub svm : HopperSvm

-- `budget.set_limit(override_limit)` where a limit is pending.
abbrev pub with_pending : Option ℕ → ComputeBudget → ComputeBudget
with_pending none b = b
with_pending (some limit) b = Compute.set_limit b limit

-- The session that `dispatch_one_inner` hands to the engine.
abbrev pub open_session : HopperSvm → LogCapture → Session
open_session svm logs = record {
  logs = logs;
  budget = with_pending svm.cells.pending_cu_limit svm.budget;
  cells = svm.cells;
}

module _ (sdk : Sdk) where
  -- The verdict of the validator on a success.
  unfoldable pub settle :
      List KeyedAccount
      → ExecutionOutcome
      → LogCapture
      → Result (Unit {0})
      → ExecutionOutcome × LogCapture
  settle pre o logs (err e) = (
    record o { resulting_accounts = pre; return_data = []; error = some e },
    Log.line logs (Log.validation_failed e),
  )
  settle pre o logs _ = (o, logs)

  unfoldable pub apply_validation :
      Instruction
      → List KeyedAccount
      → ExecutionOutcome
      → ValidationPolicy
      → LogCapture
      → ExecutionOutcome × LogCapture
  apply_validation ix pre o policy logs = elim o.error [
    | some e ↦ (o, logs)
    | none ↦
        settle pre o logs
          (validate_post_state sdk ix.program_id ix.accounts pre o.resulting_accounts policy)
  ]

  unfoldable pub dispatch_builtin :
      HopperSvm → BuiltinProgram → Instruction → List KeyedAccount → LogCapture → Option Dispatched
  dispatch_builtin svm program ix accounts logs =
      elim (execute program ix accounts svm.sysvars (open_session svm logs)) [
        | none ↦ none
        | some (o, s') ↦
            let (o', logs') = apply_validation ix accounts o svm.validation_policy s'.logs in
            some (record { outcome = o'; logs = logs'; svm = record svm { cells = s'.cells } })
      ]

  unfoldable pub dispatch_one_inner :
      HopperSvm → Instruction → List KeyedAccount → LogCapture → Option Dispatched
  dispatch_one_inner svm ix accounts logs = elim (Map.lookup ix.program_id svm.registry) [
    | none ↦ some (record {
      outcome = finish accounts 0 (some (unknown_program ix.program_id));
      logs = logs;
      svm = svm;
    })
    | some program ↦ dispatch_builtin svm program ix accounts logs
  ]

  abbrev stamp : ℕ → Dispatched → Dispatched
  stamp i d = record d { outcome = record d.outcome { execution_time_us = sdk.elapsed_us i } }

  -- The n-th instruction of a call, with its time.
  unfoldable pub dispatch_one :
      HopperSvm → ℕ → Instruction → List KeyedAccount → LogCapture → Option Dispatched
  dispatch_one svm i ix accounts logs = elim (dispatch_one_inner svm ix accounts logs) [
    | none ↦ none
    | some d ↦ some (stamp i d)
  ]

  unfoldable pub process_instruction :
      HopperSvm → Instruction → List KeyedAccount → Option (HopperExecutionResult × HopperSvm)
  process_instruction svm ix accounts = elim (dispatch_one svm 0 ix accounts Log.empty) [
    | none ↦ none
    | some d ↦ some (from_outcome d.outcome d.logs, d.svm)
  ]

  -- `simulate_instruction` is `process_instruction`.
  unfoldable pub simulate_instruction :
      HopperSvm → Instruction → List KeyedAccount → Option (HopperExecutionResult × HopperSvm)
  simulate_instruction svm ix accounts = process_instruction svm ix accounts
