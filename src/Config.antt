-- ===== src/Config.antt =====
-- src/spl/config_program.rs: the config program and its one instruction, `Store`.
pub mod Slots
pub mod Stores
use hopper_svm.Prelude.{
  ℕ, zero, suc, ◌+◌, ◌-◌, ◌*◌, not, List, [], ◌∷◌, ◌++◌, ◌==◌, leb, length, drop, replicate,
  u64_max, if◌then◌else◌,
}
use hopper_svm.Bytes.Layout.{word}
use hopper_svm.Error.{Result, ok, err, builtin_error, ◌>>=◌, ◌>>◌, require, no_overflow}
use hopper_svm.Account.{KeyedAccount}
use hopper_svm.Builtin.{InvokeContext, BuiltinProgram, require_signer, require_writable}
use hopper_svm.System.Slots.{Handled, one_slot, concluded}

abbrev pub config_instruction_cu : ℕ
config_instruction_cu = 450

-- The loop over the keys, `n` of which are left from `off` on.
unfoldable pub check_keys : InvokeContext → List ℕ → ℕ → ℕ → Result (Unit {0})
check_keys ctx bytes zero off = ok tt
check_keys ctx bytes (suc n) off =
    let rest = check_keys ctx bytes n (off + 33) in
    if not (word (off + 32) 1 bytes == 0)
    then require_signer ctx (word off 32 bytes) >> rest
    else rest

unfoldable pub config_handle : List ℕ → List KeyedAccount → InvokeContext → Handled
unfolding one_slot
config_handle bytes accounts ctx = do
  (a, rest) ← one_slot accounts
  require_writable ctx a.address
  require (leb 8 (length bytes)) (builtin_error ctx.program_id "config::Store: body too short")
  let keys_len = word 0 8 bytes
  no_overflow (leb (8 + keys_len * 33) u64_max)
  require (leb (8 + keys_len * 33) (length bytes))
      (builtin_error ctx.program_id "config::Store: body has {} bytes, need {} for {keys_len} keys")
  check_keys ctx bytes keys_len 8
  let user = drop (8 + keys_len * 33) bytes
  require (leb (length user) (length a.bytes))
      (builtin_error ctx.program_id "config::Store: user data {} bytes > config account size {}")
  ok (
    record a { bytes = user ++ replicate (length a.bytes - length user) 0 } ∷ rest,
    "config::Store: {target_addr} ({} keys, {} bytes data)",
  )

-- `ConfigProgramSimulator`. It writes nothing before it fails.
unfoldable pub config_program : BuiltinProgram
config_program = record {
  name = "config";
  cost = λ _. config_instruction_cu;
  invoke = λ bytes accounts ctx. concluded (config_handle bytes accounts ctx) accounts;
}
