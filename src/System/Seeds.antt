-- ===== src/System/Seeds.antt =====
-- src/system_program.rs: the instructions on addresses derived from a seed. The length of the seed
-- is read from the instruction, and a debug build panics where the sum with it overflows.
use hopper_svm.Prelude.{
  ℕ, ◌+◌, ◌&&◌, Option, none, some, List, ◌∷◌, ◌==◌, leb, length, is_empty, u64_max, if◌then◌else◌,
}
use hopper_svm.Bytes.{le_decode, slice}
use hopper_svm.Error.{
  Pubkey, HopperSvmError, Result, ok, err, builtin_error, insufficient_funds, ◌>>=◌, ◌>>◌, require,
  no_overflow,
}
use hopper_svm.Account.{KeyedAccount}
use hopper_svm.Sdk.{Sdk}
use hopper_svm.Builtin.{InvokeContext, require_signer, require_writable}
use hopper_svm.System.Slots.{Handled, two_slots, three_slots}
use hopper_svm.System.Create.{debit, create, within_capacity}
use hopper_svm.System.Transfers.{credit}

-- `.map_err(…)?` on the derivation
unfoldable pub derived : Option Pubkey → HopperSvmError → Result Pubkey
derived none e = err e
derived (some k) e = ok k

-- `if base != funder_addr { ctx.require_signer(&base)?; }`
unfoldable pub require_base : InvokeContext → Pubkey → Pubkey → Result (Unit {0})
require_base ctx base funder = if base == funder then ok tt else require_signer ctx base

module _ (sdk : Sdk) where
  unfoldable pub create_account_with_seed : List ℕ → List KeyedAccount → InvokeContext → Handled
  unfolding two_slots require_signer require_writable derived require_base
  create_account_with_seed body accounts ctx = do
    require (leb 40 (length body))
        (builtin_error ctx.program_id "system::CreateAccountWithSeed: body too short ({} bytes)")
    let base = le_decode (slice 0 32 body)
    let seed_len = le_decode (slice 32 8 body)
    no_overflow (leb (40 + seed_len + 48) u64_max)
    require (leb (40 + seed_len + 48) (length body)) (
        builtin_error ctx.program_id
          "system::CreateAccountWithSeed: body too short for seed_len={seed_len} ({} bytes)")
    let seed = slice 40 seed_len body
    require (sdk.is_utf8 seed)
        (builtin_error ctx.program_id "system::CreateAccountWithSeed: seed not valid UTF-8: {err}")
    let lamports = le_decode (slice (40 + seed_len) 8 body)
    let space = le_decode (slice (40 + seed_len + 8) 8 body)
    let owner = le_decode (slice (40 + seed_len + 16) 32 body)
    (funder, target, rest) ← two_slots accounts
    key ←
        derived (sdk.create_with_seed base seed owner)
          (builtin_error ctx.program_id "system::CreateAccountWithSeed: derive failed: {err:?}")
    require (key == target.address) (
        builtin_error ctx.program_id
          "system::CreateAccountWithSeed: address mismatch (got {target_addr}, derived {derived})")
    require_signer ctx funder.address
    require_writable ctx funder.address
    require_writable ctx target.address
    require_base ctx base funder.address
    require (leb lamports funder.lamports)
        (insufficient_funds funder.address funder.lamports lamports)
    require (target.lamports == 0 && is_empty target.bytes)
        (builtin_error ctx.program_id "system::CreateAccountWithSeed: target already initialised")
    within_capacity space
    ok (
      debit funder lamports ∷ create target lamports space owner ∷ rest,
      "system::CreateAccountWithSeed: {target_addr} from base {base} seed {seed_str:?} ({lamports} lamports, {space} bytes, owner {owner})",
    )

  unfoldable pub assign_with_seed : List ℕ → List KeyedAccount → InvokeContext → Handled
  unfolding two_slots require_signer require_writable derived
  assign_with_seed body accounts ctx = do
    require (leb 40 (length body))
        (builtin_error ctx.program_id "system::AssignWithSeed: body too short")
    let base = le_decode (slice 0 32 body)
    let seed_len = le_decode (slice 32 8 body)
    no_overflow (leb (40 + seed_len + 32) u64_max)
    require (leb (40 + seed_len + 32) (length body))
        (builtin_error ctx.program_id "system::AssignWithSeed: body too short for seed")
    let seed = slice 40 seed_len body
    require (sdk.is_utf8 seed)
        (builtin_error ctx.program_id "system::AssignWithSeed: seed not UTF-8: {err}")
    let owner = le_decode (slice (40 + seed_len) 32 body)
    (target, second, rest) ← two_slots accounts
    require_writable ctx target.address
    require_signer ctx base
    key ←
        derived (sdk.create_with_seed base seed owner)
          (builtin_error ctx.program_id "system::AssignWithSeed: derive failed: {err:?}")
    require (key == target.address) (
        builtin_error ctx.program_id
          "system::AssignWithSeed: address mismatch (got {target_addr}, derived {derived})")
    ok (
      record target { owner = owner } ∷ second ∷ rest,
      "system::AssignWithSeed: {target_addr} -> owner {owner}",
    )

  unfoldable pub transfer_with_seed : List ℕ → List KeyedAccount → InvokeContext → Handled
  unfolding three_slots require_signer require_writable derived
  transfer_with_seed body accounts ctx = do
    require (leb 16 (length body))
        (builtin_error ctx.program_id "system::TransferWithSeed: body too short")
    let lamports = le_decode (slice 0 8 body)
    let seed_len = le_decode (slice 8 8 body)
    no_overflow (leb (16 + seed_len + 32) u64_max)
    require (leb (16 + seed_len + 32) (length body))
        (builtin_error ctx.program_id "system::TransferWithSeed: body too short for seed")
    let seed = slice 16 seed_len body
    require (sdk.is_utf8 seed)
        (builtin_error ctx.program_id "system::TransferWithSeed: seed not UTF-8: {err}")
    let from_owner = le_decode (slice (16 + seed_len) 32 body)
    (src, base, dst, rest) ← three_slots accounts
    require_writable ctx src.address
    require_writable ctx dst.address
    require_signer ctx base.address
    key ←
        derived (sdk.create_with_seed base.address seed from_owner)
          (builtin_error ctx.program_id "system::TransferWithSeed: derive failed: {err:?}")
    require (key == src.address) (
        builtin_error ctx.program_id
          "system::TransferWithSeed: address mismatch (got {src_addr}, derived {derived})")
    require (leb lamports src.lamports) (insufficient_funds src.address src.lamports lamports)
    ok (
      debit src lamports ∷ base ∷ credit dst lamports ∷ rest,
      "system::TransferWithSeed: {src_addr} -> {dst_addr} ({lamports} lamports, base {from_base})",
    )
