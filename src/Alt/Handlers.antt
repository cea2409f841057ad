-- ===== src/Alt/Handlers.antt =====
-- src/spl/alt_program.rs: the instructions on a lookup table.
use hopper_svm.Prelude.{
  ℕ, zero, suc, ◌+◌, ◌*◌, min, false, not, ◌&&◌, ◌⊎◌, inl, inr, String, none, some, List, [], ◌∷◌,
  ◌==◌, leb, length, replicate, is_empty, u64_max,
}
use hopper_svm.Bytes.{le_encode}
use hopper_svm.Bytes.Layout.{word}
use hopper_svm.Error.{
  Pubkey, HopperSvmError, Result, ok, err, builtin_error, insufficient_funds, ◌>>=◌, ◌>>◌, require,
  no_overflow,
}
use hopper_svm.Account.{KeyedAccount}
use hopper_svm.Sdk.{Sdk}
use hopper_svm.Builtin.{InvokeContext, require_signer, require_writable}
use hopper_svm.System.Slots.{Handled, two_slots, three_slots, four_slots}
use hopper_svm.System.Create.{debit}
use hopper_svm.System.Transfers.{credit}
use hopper_svm.System.Seeds.{derived}
use hopper_svm.Alt.Table.{
  LookupTableMeta, lookup_table_meta_size, new_table, is_deactivated, is_closeable, read_table,
  write_table, address_count, append_addresses,
}

-- The lamports that `CreateLookupTable` moves.
abbrev pub initial_lamports : ℕ
initial_lamports = 1_281_360

-- `alt::read_meta(…).ok_or_else(…)?`
unfoldable pub table_of : List ℕ → HopperSvmError → Result LookupTableMeta
table_of bytes e = elim (read_table bytes) [ none ↦ err e | some m ↦ ok m ]

-- `match meta.authority`: another authority, or a frozen table.
unfoldable pub require_authority :
    LookupTableMeta → Pubkey → HopperSvmError → HopperSvmError → Result (Unit {0})
require_authority m auth other frozen = elim m.authority [
  | none ↦ err frozen
  | some stored ↦ require (stored == auth) other
]

abbrev pub pda_seeds : Pubkey → ℕ → ℕ → List (List ℕ)
pda_seeds authority slot bump = le_encode 32 authority ∷ le_encode 8 slot ∷ (bump ∷ []) ∷ []

-- The writes of `CreateLookupTable` to the table.
abbrev pub created_table : KeyedAccount → Pubkey → Pubkey → KeyedAccount
created_table a authority program_id = record a {
  lamports = initial_lamports;
  bytes = write_table (replicate lookup_table_meta_size 0) (new_table authority);
  owner = program_id;
  executable = false;
}

unfoldable pub create_lookup_table : Sdk → List ℕ → List KeyedAccount → InvokeContext → Handled
unfolding four_slots
create_lookup_table sdk body accounts ctx = do
  require (leb 9 (length body)) (
      builtin_error ctx.program_id
        "alt::Create: body < 9 bytes (need recent_slot u64 + bump_seed u8)")
  (a, auth, payer, sys, rest) ← four_slots accounts
  require_writable ctx a.address
  require_signer ctx auth.address
  require_signer ctx payer.address
  require_writable ctx payer.address
  address ←
      derived
        (sdk.create_program_address (pda_seeds auth.address (word 0 8 body) (word 8 1 body))
          ctx.program_id)
        (builtin_error ctx.program_id "alt::Create: PDA derivation failed: {err:?}")
  require (address == a.address) (
      builtin_error ctx.program_id
        "alt::Create: address mismatch (got {table_addr}, derived {derived})")
  require (is_empty a.bytes && a.lamports == 0)
      (builtin_error ctx.program_id "alt::Create: {table_addr} already initialised")
  require (leb initial_lamports payer.lamports)
      (insufficient_funds payer.address payer.lamports initial_lamports)
  ok (
    created_table a auth.address ctx.program_id ∷ auth ∷ debit payer initial_lamports ∷ sys ∷ rest,
    "alt::CreateLookupTable: {table_addr} authority={authority_addr} (slot={})",
  )

unfoldable pub freeze_lookup_table : List KeyedAccount → InvokeContext → Handled
unfolding two_slots
freeze_lookup_table accounts ctx = do
  (a, auth, rest) ← two_slots accounts
  require_writable ctx a.address
  require_signer ctx auth.address
  m ←
      table_of a.bytes
        (builtin_error ctx.program_id "alt::Freeze: {table_addr} not a valid lookup table")
  require_authority m auth.address
      (builtin_error ctx.program_id "alt::Freeze: signer {auth_addr} != stored authority {stored}")
      (builtin_error ctx.program_id "alt::Freeze: {table_addr} already frozen")
  ok (
    record a { bytes = write_table a.bytes (record m { authority = none }) } ∷ auth ∷ rest,
    "alt::FreezeLookupTable: {table_addr}",
  )

-- The keys of `ExtendLookupTable`, one after another from `off`.
abbrev pub keys_at : ℕ → ℕ → List ℕ → List Pubkey
keys_at zero off body = []
keys_at (suc n) off body = word off 32 body ∷ keys_at n (off + 32) body

unfoldable pub appended : String ⊎ List ℕ → HopperSvmError → Result (List ℕ)
appended (inl message) e = err e
appended (inr bytes) e = ok bytes

unfoldable pub extend_lookup_table : List ℕ → List KeyedAccount → InvokeContext → Handled
unfolding four_slots
extend_lookup_table body accounts ctx = do
  require (leb 8 (length body))
      (builtin_error ctx.program_id "alt::Extend: body too short (need address count u64)")
  let count = word 0 8 body
  no_overflow (leb (8 + count * 32) u64_max)
  require (leb (8 + count * 32) (length body)) (
      builtin_error ctx.program_id
        "alt::Extend: body has {} bytes, need {needed} for {count} addresses")
  (a, auth, payer, sys, rest) ← four_slots accounts
  require_writable ctx a.address
  require_signer ctx auth.address
  m ←
      table_of a.bytes
        (builtin_error ctx.program_id "alt::Extend: {table_addr} not a valid lookup table")
  require_authority m auth.address
      (builtin_error ctx.program_id "alt::Extend: signer {auth_addr} != stored authority {stored}")
      (builtin_error ctx.program_id "alt::Extend: {table_addr} is frozen")
  require (not (is_deactivated m))
      (builtin_error ctx.program_id "alt::Extend: {table_addr} is deactivated")
  bytes ←
      appended (append_addresses a.bytes (keys_at count 8 body))
        (builtin_error ctx.program_id "alt::Extend: {err}")
  ok (
    record a {
      bytes = write_table bytes (record m {
        last_extended_slot = ctx.sysvars.clock.slot;
        last_extended_slot_start_index = min (address_count a.bytes) 255;
      });
    }
        ∷ auth
        ∷ payer
        ∷ sys
        ∷ rest,
    "alt::ExtendLookupTable: {table_addr} +{count} addresses (now {})",
  )

unfoldable pub deactivate_lookup_table : List KeyedAccount → InvokeContext → Handled
unfolding two_slots
deactivate_lookup_table accounts ctx = do
  (a, auth, rest) ← two_slots accounts
  require_writable ctx a.address
  require_signer ctx auth.address
  m ←
      table_of a.bytes
        (builtin_error ctx.program_id "alt::Deactivate: {table_addr} not a valid lookup table")
  require_authority m auth.address
      (builtin_error ctx.program_id
        "alt::Deactivate: signer {auth_addr} != stored authority {stored}")
      (builtin_error ctx.program_id "alt::Deactivate: {table_addr} is frozen")
  require (not (is_deactivated m))
      (builtin_error ctx.program_id "alt::Deactivate: {table_addr} already deactivated")
  ok (
    record a {
      bytes = write_table a.bytes (record m { deactivation_slot = ctx.sysvars.clock.slot });
    }
        ∷ auth
        ∷ rest,
    "alt::DeactivateLookupTable: {table_addr} (slot {})",
  )

unfoldable pub close_lookup_table : Sdk → List KeyedAccount → InvokeContext → Handled
unfolding three_slots
close_lookup_table sdk accounts ctx = do
  (a, auth, b, rest) ← three_slots accounts
  require_writable ctx a.address
  require_signer ctx auth.address
  require_writable ctx b.address
  m ←
      table_of a.bytes
        (builtin_error ctx.program_id "alt::Close: {table_addr} not a valid lookup table")
  require_authority m auth.address
      (builtin_error ctx.program_id "alt::Close: signer {auth_addr} != stored authority {stored}")
      (builtin_error ctx.program_id "alt::Close: {table_addr} is frozen and cannot be closed")
  require (is_closeable m ctx.sysvars.clock.slot)
      (builtin_error ctx.program_id "alt::Close: {table_addr} not closeable ({reason})")
  ok (
    record a { lamports = 0; bytes = []; owner = sdk.system_id }
        ∷ auth
        ∷ credit b a.lamports
        ∷ rest,
    "alt::CloseLookupTable: {table_addr} -> {recipient_addr} ({lamports} lamports)",
  )
