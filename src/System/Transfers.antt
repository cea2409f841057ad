-- ===== src/System/Transfers.antt =====
-- src/system_program.rs: `Transfer`.
use hopper_svm.Prelude.{ℕ, List, ◌∷◌, ◌==◌, leb, length, sat_add}
use hopper_svm.Bytes.{le_decode, slice}
use hopper_svm.Error.{ok, builtin_error, insufficient_funds, ◌>>=◌, ◌>>◌, require}
use hopper_svm.Account.{KeyedAccount}
use hopper_svm.Sdk.{Sdk}
use hopper_svm.Builtin.{InvokeContext, require_signer, require_writable}
use hopper_svm.System.Slots.{Handled, two_slots}
use hopper_svm.System.Create.{debit}

-- `accounts[1].lamports = accounts[1].lamports.saturating_add(lamports)`
abbrev pub credit : KeyedAccount → ℕ → KeyedAccount
credit a lamports = record a { lamports = sat_add a.lamports lamports }

unfoldable pub transfer : Sdk → List ℕ → List KeyedAccount → InvokeContext → Handled
unfolding two_slots require_signer require_writable
transfer sdk body accounts ctx = do
  require (leb 8 (length body)) (builtin_error ctx.program_id "system::Transfer: body too short")
  let lamports = le_decode (slice 0 8 body)
  (src, dst, rest) ← two_slots accounts
  require_signer ctx src.address
  require_writable ctx src.address
  require_writable ctx dst.address
  require (src.owner == sdk.system_id) (
      builtin_error ctx.program_id
        "system::Transfer: source {src_addr} not owned by system program (owner={})")
  require (leb lamports src.lamports) (insufficient_funds src.address src.lamports lamports)
  ok (debit src lamports ∷ credit dst lamports ∷ rest, "system::Transfer: {} -> {} ({} lamports)")
