-- ===== src/Alt/Table.antt =====
-- src/alt.rs: the bytes of an address-lookup table and its resolution.
use hopper_svm.Prelude.{
  ℕ, ◌+◌, ◌-◌, ◌*◌, ◌/◌, Bool, not, ◌&&◌, ◌⊎◌, inl, inr, String, Option, none, some, List, [], ◌∷◌,
  ◌++◌, ◌==◌, ltb, length, u64_max, if◌then◌else◌,
}
use hopper_svm.Bytes.{le_encode}
use hopper_svm.Bytes.Layout.{Field, word, writes}
use hopper_svm.Error.{Pubkey}

abbrev pub lookup_table_meta_size : ℕ
lookup_table_meta_size = 56

abbrev pub lookup_table_max_addresses : ℕ
lookup_table_max_addresses = 256

abbrev pub deactivation_cooldown_slots : ℕ
deactivation_cooldown_slots = 513

abbrev pub lookup_table_discriminator : ℕ
lookup_table_discriminator = 1

abbrev pub active_deactivation_slot : ℕ
active_deactivation_slot = u64_max

pub record LookupTableMeta : Type 0 where
  pub deactivation_slot : ℕ
  pub last_extended_slot : ℕ
  pub last_extended_slot_start_index : ℕ
  pub authority : Option Pubkey

abbrev pub new_table : Pubkey → LookupTableMeta
new_table authority = record {
  deactivation_slot = active_deactivation_slot;
  last_extended_slot = 0;
  last_extended_slot_start_index = 0;
  authority = some authority;
}

abbrev pub is_deactivated : LookupTableMeta → Bool
is_deactivated m = not (m.deactivation_slot == active_deactivation_slot)

abbrev pub is_closeable : LookupTableMeta → ℕ → Bool
is_closeable m slot =
    is_deactivated m && ltb deactivation_cooldown_slots (slot - m.deactivation_slot)

unfoldable pub read_table : List ℕ → Option LookupTableMeta
read_table bytes =
    if ltb (length bytes) lookup_table_meta_size
    then none
    else if not (word 0 4 bytes == lookup_table_discriminator)
    then none
    else some (record {
      deactivation_slot = word 4 8 bytes;
      last_extended_slot = word 12 8 bytes;
      last_extended_slot_start_index = word 20 1 bytes;
      authority = if word 21 1 bytes == 1 then some (word 22 32 bytes) else none;
    })

abbrev pub authority_fields : Option Pubkey → List Field → List Field
authority_fields (some pk) rest = (21, 1, 1) ∷ (22, 32, pk) ∷ rest
authority_fields none rest = (21, 1, 0) ∷ (22, 32, 0) ∷ rest

abbrev pub table_fields : LookupTableMeta → List Field
table_fields m =
    (0, 4, lookup_table_discriminator)
    ∷ (4, 8, m.deactivation_slot)
    ∷ (12, 8, m.last_extended_slot)
    ∷ (20, 1, m.last_extended_slot_start_index)
    ∷ authority_fields m.authority ((54, 1, 0) ∷ (55, 1, 0) ∷ [])

unfoldable pub write_table : List ℕ → LookupTableMeta → List ℕ
write_table bytes m =
    if ltb (length bytes) lookup_table_meta_size then bytes else writes (table_fields m) bytes

unfoldable pub address_count : List ℕ → ℕ
address_count bytes =
    if ltb (length bytes) lookup_table_meta_size
    then 0
    else (length bytes - lookup_table_meta_size) / 32

unfoldable pub read_address : List ℕ → ℕ → Option Pubkey
read_address bytes index =
    if ltb (length bytes) (lookup_table_meta_size + index * 32 + 32)
    then none
    else some (word (lookup_table_meta_size + index * 32) 32 bytes)

unfoldable pub packed : List Pubkey → List ℕ
packed [] = []
packed (pk ∷ pks) = le_encode 32 pk ++ packed pks

-- The bytes with the addresses behind them, or the error.
unfoldable pub append_addresses : List ℕ → List Pubkey → String ⊎ List ℕ
append_addresses bytes pks =
    if ltb lookup_table_max_addresses (address_count bytes + length pks)
    then inl
        "address count {total} exceeds LOOKUP_TABLE_MAX_ADDRESSES ({LOOKUP_TABLE_MAX_ADDRESSES})"
    else inr (bytes ++ packed pks)

-- One of the two loops of `resolve_lookup`, with its error.
unfoldable pub resolve_indexes : String → List ℕ → List ℕ → String ⊎ List Pubkey
resolve_indexes e bytes [] = inr []
resolve_indexes e bytes (i ∷ is) =
    let rest = resolve_indexes e bytes is in
    elim (read_address bytes i) [
      | none ↦ inl e
      | some pk ↦ elim rest [ inl e' ↦ inl e' | inr pks ↦ inr (pk ∷ pks) ]
    ]

unfoldable pub resolve_lookup : List ℕ → List ℕ → List ℕ → String ⊎ (List Pubkey × List Pubkey)
resolve_lookup bytes writable_indexes readonly_indexes =
    elim (resolve_indexes "writable index {idx} out of bounds (table has {} addresses)" bytes
      writable_indexes) [
        | inl e ↦ inl e
        | inr writable ↦
            elim (resolve_indexes "readonly index {idx} out of bounds (table has {} addresses)"
              bytes readonly_indexes) [ inl e ↦ inl e | inr readonly ↦ inr (writable, readonly) ]
      ]
