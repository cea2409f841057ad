-- ===== src/Builtin.antt =====
-- src/builtin.rs: the context of an invocation and the interface of a built-in program.
use hopper_svm.Prelude.{ℕ, String, Option, none, some, List, [], ◌∷◌, ◌==◌, if◌then◌else◌}
use hopper_svm.Error.{Pubkey, Result, ok, err, account_not_signer, account_not_writable}
use hopper_svm.Account.{KeyedAccount, AccountMeta}
use hopper_svm.Compute.{ComputeBudget}
use hopper_svm.Log.{LogCapture}
use hopper_svm.Sysvar.{Sysvars}

-- The part of `InvokeContext` that an invocation only reads.
pub record InvokeContext : Type 0 where
  pub program_id : Pubkey
  pub account_metas : List AccountMeta
  pub sysvars : Sysvars

-- The cells of the harness that the compute-budget program writes through its `Arc`s.
pub record Cells : Type 0 where
  pub pending_cu_limit : Option ℕ
  pub priority_fee : ℕ

-- What an invocation mutates: `&mut` fields of `InvokeContext`, and the shared cells.
pub record Session : Type 0 where
  pub logs : LogCapture
  pub budget : ComputeBudget
  pub cells : Cells

-- How an invocation ends: its result, the accounts as it leaves them, and the session.
pub record Invocation : Type 0 where
  pub result : Result (Unit {0})
  pub accounts : List KeyedAccount
  pub session : Session

pub record BuiltinProgram : Type 0 where
  pub name : String
  pub cost : ComputeBudget → ℕ
  pub invoke : List ℕ → List KeyedAccount → InvokeContext → Session → Invocation

-- `account_metas.iter().find(|m| &m.pubkey == addr)`
abbrev pub find_meta : Pubkey → List AccountMeta → Option AccountMeta
find_meta addr [] = none
find_meta addr (m ∷ ms) = if m.pubkey == addr then some m else find_meta addr ms

abbrev pub meta_for : InvokeContext → Pubkey → Option AccountMeta
meta_for ctx addr = find_meta addr ctx.account_metas

unfoldable pub require_signer : InvokeContext → Pubkey → Result (Unit {0})
require_signer ctx addr = elim (meta_for ctx addr) [
  | none ↦ err (account_not_signer addr)
  | some m ↦ if m.is_signer then ok tt else err (account_not_signer addr)
]

unfoldable pub require_writable : InvokeContext → Pubkey → Result (Unit {0})
require_writable ctx addr = elim (meta_for ctx addr) [
  | none ↦ err (account_not_writable addr)
  | some m ↦ if m.is_writable then ok tt else err (account_not_writable addr)
]
