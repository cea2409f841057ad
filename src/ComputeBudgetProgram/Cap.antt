-- ===== src/ComputeBudgetProgram/Cap.antt =====
-- src/compute_budget_program.rs: no instruction raises the limit above the cap.
use hopper_svm.Prelude.{ℕ, ◌≤◌, ◌≡◌, none, some, List, arith}
use hopper_svm.Account.{KeyedAccount}
use hopper_svm.Builtin.{InvokeContext, Cells, Session}
use hopper_svm.ComputeBudgetProgram.{
  max_compute_unit_limit, request_units, request_heap_frame, set_compute_unit_limit,
  set_compute_unit_price, set_loaded_accounts_data_size_limit, update, budget_invoke,
}

-- The pending limit is within the cap.
abbrev pub IsCapped : Cells → Type 0
IsCapped c = elim c.pending_cu_limit as (λ o. Type 0) [
  | none ↦ Unit
  | some units ↦ units ≤ max_compute_unit_limit
]

-- Every instruction of the compute-budget program, whether it succeeds or fails, keeps a pending
-- limit that is within the cap within it, and leaves the accounts and the compute meter alone.
pub budget_invoke-IsCapped :
    (bytes : List ℕ) (accounts : List KeyedAccount) (ctx : InvokeContext) (s : Session)
    → IsCapped s.cells
    → let r = budget_invoke bytes accounts ctx s in
      IsCapped r.session.cells × (r.accounts ≡ accounts) × (r.session.budget ≡ s.budget)
unfolding budget_invoke update request_units request_heap_frame set_compute_unit_limit
    set_compute_unit_price set_loaded_accounts_data_size_limit
budget_invoke-IsCapped bytes accounts ctx s h = ground arith
