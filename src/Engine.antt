-- ===== src/Engine.antt =====
-- src/engine.rs: one instruction through a built-in program, with rollback.
pub mod Merge
pub mod Rollback
pub mod Totals
use hopper_svm.Prelude.{
  ℕ, Bool, true, false, Option, none, some, List, [], ◌∷◌, ◌==◌, if◌then◌else◌,
}
use hopper_svm.Error.{Pubkey, HopperSvmError, Result, ok, err, panic, unknown_account}
use hopper_svm.Account.{KeyedAccount, AccountMeta, Instruction, find_account}
use hopper_svm.Compute
use hopper_svm.Compute.{ComputeBudget}
use hopper_svm.Log
use hopper_svm.Sysvar.{Sysvars}
use hopper_svm.Builtin.{InvokeContext, Session, Invocation, BuiltinProgram}

pub record InnerInstruction : Type 0 where
  pub program_id : Pubkey
  pub accounts : List AccountMeta
  pub bytes : List ℕ
  pub stack_height : ℕ

pub record ExecutionOutcome : Type 0 where
  pub resulting_accounts : List KeyedAccount
  pub compute_units_consumed : ℕ
  pub return_data : List ℕ
  pub inner_instructions : List InnerInstruction
  pub execution_time_us : ℕ
  pub error : Option HopperSvmError

-- The outcome that the engine and the harness write out field by field at each exit.
abbrev pub finish : List KeyedAccount → ℕ → Option HopperSvmError → ExecutionOutcome
finish accounts consumed error = record {
  resulting_accounts = accounts;
  compute_units_consumed = consumed;
  return_data = [];
  inner_instructions = [];
  execution_time_us = 0;
  error = error;
}

-- A key that has no account ends the loop with `UnknownAccount`.
unfoldable pub resolve_accounts : List AccountMeta → List KeyedAccount → Result (List KeyedAccount)
resolve_accounts [] accounts = ok []
resolve_accounts (m ∷ ms) accounts =
    let rest = resolve_accounts ms accounts in
    elim (find_account m.pubkey accounts) [
      | none ↦ err (unknown_account m.pubkey)
      | some a ↦ elim rest [ ok as' ↦ ok (a ∷ as') | err e ↦ err e | panic ↦ panic ]
    ]

-- `match out.iter_mut().find(|a| a.address == w.address)`: the first slot is replaced, or the
-- account is pushed.
unfoldable pub merge_one : List KeyedAccount → KeyedAccount → List KeyedAccount
merge_one [] w = w ∷ []
merge_one (a ∷ out) w = if a.address == w.address then w ∷ out else a ∷ merge_one out w

unfoldable pub merge_accounts : List KeyedAccount → List KeyedAccount → List KeyedAccount
merge_accounts original [] = original
merge_accounts original (w ∷ working) = merge_accounts (merge_one original w) working

-- An exit with an error: the failure lines, and the accounts as they came in.
unfoldable pub abort :
    Instruction → List KeyedAccount → Session → HopperSvmError → ExecutionOutcome × Session
abort ix accounts s e = (
  finish accounts s.budget.consumed (some e),
  record s { logs = Log.failure s.logs ix.program_id s.budget.consumed s.budget.limit e },
)

-- The `match result` behind the invocation. A panic unwinds through the engine: there is no outcome.
unfoldable pub conclude :
    Instruction → List KeyedAccount → Invocation → Option (ExecutionOutcome × Session)
conclude ix accounts r =
    let s = r.session in
    elim r.result [
      | ok _ ↦ some (
        finish (merge_accounts accounts r.accounts) s.budget.consumed none,
        record s { logs = Log.success s.logs ix.program_id s.budget.consumed s.budget.limit },
      )
      | err e ↦ some (abort ix accounts s e)
      | panic ↦ none
    ]

unfoldable pub run :
    BuiltinProgram
    → Instruction
    → List KeyedAccount
    → Sysvars
    → Session
    → Option (ExecutionOutcome × Session)
run program ix accounts sysvars s = elim (resolve_accounts ix.accounts accounts) [
  | ok working ↦ conclude ix accounts (
      program.invoke ix.bytes working
        (record { program_id = ix.program_id; account_metas = ix.accounts; sysvars = sysvars }) s)
  | err e ↦ some (abort ix accounts s e)
  | panic ↦ none
]

-- `BuiltinEngine::execute`
unfoldable pub execute :
    BuiltinProgram
    → Instruction
    → List KeyedAccount
    → Sysvars
    → Session
    → Option (ExecutionOutcome × Session)
execute program ix accounts sysvars s =
    let budget = Compute.reset s.budget in
    let logs = Log.invoke s.logs ix.program_id in
    let (charge, charged) = Compute.consume budget (program.cost budget) in
    let s' = record s { logs = logs; budget = charged } in
    elim charge [
      | ok _ ↦ run program ix accounts sysvars s'
      | err e ↦ some (abort ix accounts s' e)
      | panic ↦ none
    ]
