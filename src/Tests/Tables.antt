-- ===== src/Tests/Tables.antt =====
-- The theorems about lookup tables, associated accounts and a whole transaction at concrete inputs.
use hopper_svm.Prelude.{
  ℕ, ◌+◌, ◌*◌, ◌≡◌, refl, inr, some, List, [], ◌∷◌, ◌++◌, arith, replicate, length, String,
}
use hopper_svm.Bytes.{le_encode, AreBytes}
use hopper_svm.Bytes.Layout.{writes}
use hopper_svm.Error.{ok}
use hopper_svm.Account.{KeyedAccount}
use hopper_svm.Builtin.{InvokeContext, require_signer, require_writable}
use hopper_svm.Alt.{alt_handle, alt_dispatch}
use hopper_svm.Alt.Table.{
  new_table, read_table, write_table, read_address, address_count, packed, append_addresses,
  resolve_indexes, resolve_lookup,
}
use hopper_svm.Alt.Handlers.{table_of, require_authority, appended, extend_lookup_table}
use hopper_svm.Alt.Codec.{read_table-write_table}
use hopper_svm.Alt.Moves.{Moved}
use hopper_svm.Alt.Steps.{alt_handle-Moved}
use hopper_svm.Alt.Lives.{Runs, resolve_lookup-Runs}
use hopper_svm.Alt.Exit.{deactivate_data, close_data, deactivate-close}
use hopper_svm.Alt.Extends.{extend_lookup_table-reads}
use hopper_svm.Tests.Fixtures.{sdk, account, alice, bob, context, metas, sysvars}
use hopper_svm.Tests.Staking.{le_encode-AreBytes, append-AreBytes}

-- A table of Alice with the address 77.
abbrev start : List ℕ
start = write_table (replicate 56 0 ++ packed (77 ∷ [])) (new_table 1)

abbrev table : KeyedAccount
table = account 3 1_281_360 start 30

table_reads : read_table start ≡ some (new_table 1)
unfolding read_table write_table writes packed
table_reads = refl

read_table-write_table_example :
    (read_table start ≡ some (new_table 1))
    × ((i : ℕ) → read_address start i ≡ read_address (replicate 56 0 ++ packed (77 ∷ [])) i)
unfolding packed
read_table-write_table_example =
    read_table-write_table (replicate 56 0 ++ packed (77 ∷ [])) (new_table 1) (omega arith)
      (omega arith)

-- `ExtendLookupTable` with the addresses 88 and 99.
abbrev body : List ℕ
body = le_encode 8 2 ++ (le_encode 32 88 ++ le_encode 32 99)

abbrev extend_data : List ℕ
extend_data = le_encode 4 2 ++ body

abbrev longer : KeyedAccount
longer =
    account 3 1_281_360
      (write_table (start ++ packed (88 ∷ 99 ∷ []))
        (record (new_table 1) { last_extended_slot = 10; last_extended_slot_start_index = 1 }))
      30

abbrev said : String
said = "alt::ExtendLookupTable: {table_addr} +{count} addresses (now {})"

extended_once :
    extend_lookup_table body (table ∷ alice ∷ bob ∷ bob ∷ []) (context 30)
    ≡ ok (longer ∷ alice ∷ bob ∷ bob ∷ [], said)
unfolding extend_lookup_table table_of require_authority appended append_addresses address_count
    read_table write_table writes packed require_signer require_writable
extended_once = refl

handled_once :
    alt_handle sdk extend_data (table ∷ alice ∷ bob ∷ bob ∷ []) (context 30)
    ≡ ok (longer ∷ alice ∷ bob ∷ bob ∷ [], said)
unfolding alt_handle alt_dispatch
handled_once = extended_once

alt_handle-Moved_example :
    Moved sdk (context 30) table (new_table 1) (longer ∷ alice ∷ bob ∷ bob ∷ [])
alt_handle-Moved_example =
    alt_handle-Moved sdk (context 30) table (new_table 1) table_reads extend_data
      (alice ∷ bob ∷ bob ∷ []) (longer ∷ alice ∷ bob ∷ bob ∷ []) said handled_once

runs : Runs sdk table longer
unfolding write_table writes packed
runs =
    Runs.call extend_data (context 30) table (alice ∷ bob ∷ bob ∷ []) (alice ∷ bob ∷ bob ∷ []) said
      Runs.done (omega arith) handled_once (omega arith)

resolved : resolve_lookup start (0 ∷ []) [] ≡ inr (77 ∷ [], [])
unfolding resolve_lookup resolve_indexes read_address write_table writes packed
resolved = refl

resolve_lookup-Runs_example : resolve_lookup longer.bytes (0 ∷ []) [] ≡ inr (77 ∷ [], [])
resolve_lookup-Runs_example =
    resolve_lookup-Runs sdk table longer (new_table 1) (0 ∷ []) [] (77 ∷ [], []) table_reads
      (omega arith) runs resolved

body-AreBytes : AreBytes body
body-AreBytes =
    append-AreBytes (le_encode 8 2) (le_encode 32 88 ++ le_encode 32 99) (le_encode-AreBytes 8 2) (
      append-AreBytes (le_encode 32 88) (le_encode 32 99) (le_encode-AreBytes 32 88)
        (le_encode-AreBytes 32 99))

start_size : length start ≡ 56 + 1 * 32
unfolding write_table writes packed
start_size = refl

extend_lookup_table-reads_example :
    (read_address longer.bytes 2 ≡ some 99) × (address_count longer.bytes ≡ 3)
extend_lookup_table-reads_example =
    extend_lookup_table-reads sdk (context 30) table longer alice bob bob (new_table 1) 1 body []
      (alice ∷ bob ∷ bob ∷ []) said 1 99 table_reads start_size body-AreBytes extended_once refl

abbrev cooled_slot : InvokeContext
cooled_slot = record {
  program_id = 30;
  account_metas = metas;
  sysvars = record sysvars { clock = record sysvars.clock { slot = 600 } };
}

writable :
    (require_writable (context 30) 3 ≡ ok tt)
    × (require_writable cooled_slot 3 ≡ ok tt)
    × (require_writable cooled_slot 2 ≡ ok tt)
unfolding require_writable
writable = (refl, refl, refl)

signed : (require_signer (context 30) 1 ≡ ok tt) × (require_signer cooled_slot 1 ≡ ok tt)
unfolding require_signer
signed = (refl, refl)

deactivate-close_example :
    (a' : KeyedAccount) × (first : String) × (second : String) × (alt_handle sdk deactivate_data
        (table ∷ alice ∷ [])
        (context 30)
      ≡ ok (a' ∷ alice ∷ [], first))
    × (alt_handle sdk close_data (a' ∷ alice ∷ bob ∷ []) cooled_slot
        ≡ ok (account 3 0 [] 0 ∷ alice ∷ account 2 1_281_360 [] 0 ∷ [], second))
deactivate-close_example =
    deactivate-close sdk (new_table 1) (context 30) cooled_slot table alice bob [] [] table_reads
      (omega arith) refl refl (omega arith) (omega arith) writable.0 signed.0 writable.1 signed.1
      writable.2
