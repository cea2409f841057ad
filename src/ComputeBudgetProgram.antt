-- ===== src/ComputeBudgetProgram.antt =====
-- src/compute_budget_program.rs: the compute-budget program, which writes the shared cells.
pub mod Cap
use hopper_svm.Prelude.{
  ℕ, Option, none, some, String, List, [], ◌∷◌, ◌==◌, leb, length, if◌then◌else◌,
}
use hopper_svm.Bytes.{le_decode, slice}
use hopper_svm.Error.{Pubkey, Result, ok, err, panic, builtin_error, ◌>>=◌, ◌>>◌, require}
use hopper_svm.Account.{KeyedAccount}
use hopper_svm.Log
use hopper_svm.Builtin.{InvokeContext, Cells, Session, Invocation, BuiltinProgram}

abbrev pub compute_budget_cu : ℕ
compute_budget_cu = 150

abbrev pub max_compute_unit_limit : ℕ
max_compute_unit_limit = 1_400_000

-- The cells after an instruction, and the message that is logged.
abbrev pub Update : Type 0
Update = Result (Cells × String)

-- Tag 0, `RequestUnits`.
unfoldable pub request_units : List ℕ → Pubkey → Cells → Update
request_units body id c = do
  require (leb 8 (length body)) (builtin_error id "compute-budget::RequestUnits: body < 8 bytes")
  let units = le_decode (slice 0 4 body)
  require (leb units max_compute_unit_limit) (
      builtin_error id
        "compute-budget::RequestUnits: {units} > MAX_COMPUTE_UNIT_LIMIT ({MAX_COMPUTE_UNIT_LIMIT})")
  ok (
    record c { pending_cu_limit = some units },
    "compute-budget::RequestUnits (deprecated): {units} CU",
  )

-- Tag 1, `RequestHeapFrame`.
unfoldable pub request_heap_frame : List ℕ → Pubkey → Cells → Update
request_heap_frame body id c = do
  require (leb 4 (length body))
      (builtin_error id "compute-budget::RequestHeapFrame: body < 4 bytes")
  ok (c, "compute-budget::RequestHeapFrame: {bytes} bytes (Phase 1 heap is fixed at 32 KiB)")

-- Tag 2, `SetComputeUnitLimit`.
unfoldable pub set_compute_unit_limit : List ℕ → Pubkey → Cells → Update
set_compute_unit_limit body id c = do
  require (leb 4 (length body))
      (builtin_error id "compute-budget::SetComputeUnitLimit: body < 4 bytes")
  let units = le_decode (slice 0 4 body)
  require (leb units max_compute_unit_limit) (
      builtin_error id
        "compute-budget::SetComputeUnitLimit: {units} > MAX_COMPUTE_UNIT_LIMIT ({MAX_COMPUTE_UNIT_LIMIT})")
  ok (
    record c { pending_cu_limit = some units },
    "compute-budget::SetComputeUnitLimit: {units} CU (applies to subsequent instructions)",
  )

-- Tag 3, `SetComputeUnitPrice`.
unfoldable pub set_compute_unit_price : List ℕ → Pubkey → Cells → Update
set_compute_unit_price body id c = do
  require (leb 8 (length body))
      (builtin_error id "compute-budget::SetComputeUnitPrice: body < 8 bytes")
  ok (
    record c { priority_fee = le_decode (slice 0 8 body) },
    "compute-budget::SetComputeUnitPrice: {micro_lamports} μlamports/CU (applied to subsequent process_transaction calls)",
  )

-- Tag 4, `SetLoadedAccountsDataSizeLimit`.
unfoldable pub set_loaded_accounts_data_size_limit : List ℕ → Pubkey → Cells → Update
set_loaded_accounts_data_size_limit body id c = do
  require (leb 4 (length body))
      (builtin_error id "compute-budget::SetLoadedAccountsDataSizeLimit: body < 4 bytes")
  ok (c, "compute-budget::SetLoadedAccountsDataSizeLimit: {bytes} bytes (Phase 1 doesn't enforce)")

unfoldable pub update : List ℕ → Pubkey → Cells → Update
update [] id c = err (builtin_error id "compute-budget: empty instruction data")
update (tag ∷ body) id c =
    if tag == 0
    then request_units body id c
    else if tag == 1
    then request_heap_frame body id c
    else if tag == 2
    then set_compute_unit_limit body id c
    else if tag == 3
    then set_compute_unit_price body id c
    else if tag == 4
    then set_loaded_accounts_data_size_limit body id c
    else err (
        builtin_error id
          "compute-budget: unknown instruction tag {other} (supported: 0/RequestUnits, 1/RequestHeapFrame, 2/SetComputeUnitLimit, 3/SetComputeUnitPrice, 4/SetLoadedAccountsDataSizeLimit)")

unfoldable pub budget_invoke : List ℕ → List KeyedAccount → InvokeContext → Session → Invocation
budget_invoke bytes accounts ctx s = elim (update bytes ctx.program_id s.cells) [
  | ok (cells, message) ↦ record {
    result = ok tt;
    accounts = accounts;
    session = record s { cells = cells; logs = Log.log_text s.logs message };
  }
  | err e ↦ record { result = err e; accounts = accounts; session = s }
  | panic ↦ record { result = panic; accounts = accounts; session = s }
]

-- `ComputeBudgetProgramSimulator`
unfoldable pub compute_budget_program : BuiltinProgram
compute_budget_program = record {
  name = "compute-budget";
  cost = λ _. compute_budget_cu;
  invoke = budget_invoke;
}
