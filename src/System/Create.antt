-- ===== src/System/Create.antt =====
-- src/system_program.rs: `CreateAccount`, `Assign` and `Allocate`.
use hopper_svm.Prelude.{
  ℕ, ◌-◌, false, ◌&&◌, List, ◌∷◌, ◌==◌, leb, length, is_empty, replicate, isize_max,
}
use hopper_svm.Bytes.{le_decode, slice}
use hopper_svm.Error.{
  Pubkey, Result, ok, builtin_error, insufficient_funds, ◌>>=◌, ◌>>◌, require, in_range,
}
use hopper_svm.Account.{KeyedAccount}
use hopper_svm.Builtin.{InvokeContext, require_signer, require_writable}
use hopper_svm.System.Slots.{Handled, one_slot, two_slots}

-- `accounts[0].lamports -= lamports`
abbrev pub debit : KeyedAccount → ℕ → KeyedAccount
debit a lamports = record a { lamports = a.lamports - lamports }

-- Where `vec![0u8; space as usize]` is made: it panics with a capacity overflow above `isize::MAX`.
abbrev pub within_capacity : ℕ → Result (Unit {0})
within_capacity space = in_range (leb space isize_max)

-- The writes to the new account.
abbrev pub create : KeyedAccount → ℕ → ℕ → Pubkey → KeyedAccount
create a lamports space owner = record a {
  lamports = lamports;
  bytes = replicate space 0;
  owner = owner;
  executable = false;
}

unfoldable pub create_account : List ℕ → List KeyedAccount → InvokeContext → Handled
unfolding two_slots require_signer require_writable
create_account body accounts ctx = do
  require (leb 48 (length body))
      (builtin_error ctx.program_id "system::CreateAccount: body too short ({} bytes, need 48)")
  let lamports = le_decode (slice 0 8 body)
  let space = le_decode (slice 8 8 body)
  let owner = le_decode (slice 16 32 body)
  (funder, target, rest) ← two_slots accounts
  require_signer ctx funder.address
  require_signer ctx target.address
  require_writable ctx funder.address
  require_writable ctx target.address
  require (leb lamports funder.lamports)
      (insufficient_funds funder.address funder.lamports lamports)
  require (target.lamports == 0 && is_empty target.bytes)
      (builtin_error ctx.program_id "system::CreateAccount: target already initialised")
  within_capacity space
  ok (
    debit funder lamports ∷ create target lamports space owner ∷ rest,
    "system::CreateAccount: {} -> {} ({} lamports, {} bytes, owner {})",
  )

unfoldable pub assign : List ℕ → List KeyedAccount → InvokeContext → Handled
unfolding one_slot require_signer require_writable
assign body accounts ctx = do
  require (leb 32 (length body)) (builtin_error ctx.program_id "system::Assign: body too short")
  (a, rest) ← one_slot accounts
  require_signer ctx a.address
  require_writable ctx a.address
  ok (
    record a { owner = le_decode (slice 0 32 body) } ∷ rest,
    "system::Assign: {addr} -> owner {new_owner}",
  )

unfoldable pub allocate : List ℕ → List KeyedAccount → InvokeContext → Handled
unfolding one_slot require_signer require_writable
allocate body accounts ctx = do
  require (leb 8 (length body)) (builtin_error ctx.program_id "system::Allocate: body too short")
  let space = le_decode (slice 0 8 body)
  (a, rest) ← one_slot accounts
  require_signer ctx a.address
  require_writable ctx a.address
  require (is_empty a.bytes)
      (builtin_error ctx.program_id "system::Allocate: account already has data")
  within_capacity space
  ok (record a { bytes = replicate space 0 } ∷ rest, "system::Allocate: {addr} -> {space} bytes")
