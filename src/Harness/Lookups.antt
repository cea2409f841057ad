-- ===== src/Harness/Lookups.antt =====
-- src/lib.rs: `resolve_address_table_lookup`.
use hopper_svm.Prelude.{ℕ, inl, inr, none, some, List, if◌then◌else◌}
use hopper_svm.Error.{Pubkey, Result, ok, err, unknown_account, builtin_error}
use hopper_svm.Account.{KeyedAccount, find_account}
use hopper_svm.Sdk.{Sdk}
use hopper_svm.Alt.Table.{read_table, is_closeable, resolve_lookup}
use hopper_svm.Harness.{HopperSvm}

unfoldable pub resolve_address_table_lookup :
    Sdk
    → HopperSvm
    → List KeyedAccount
    → Pubkey
    → List ℕ
    → List ℕ
    → Result (List Pubkey × List Pubkey)
resolve_address_table_lookup sdk svm accounts table_address writable_indexes readonly_indexes =
    elim (find_account table_address accounts) [
      | none ↦ err (unknown_account table_address)
      | some table ↦ elim (read_table table.bytes) [
        | none ↦ err (builtin_error sdk.alt_id "resolve: {table_address} not a valid lookup table")
        | some m ↦
            if is_closeable m svm.sysvars.clock.slot
            then err (
                builtin_error sdk.alt_id
                  "resolve: {table_address} deactivated and cooled down — addresses no longer resolvable")
            else elim (resolve_lookup table.bytes writable_indexes readonly_indexes) [
              | inl e ↦ err (builtin_error sdk.alt_id "resolve {table_address}: {err}")
              | inr pair ↦ ok pair
            ]
      ]
    ]
