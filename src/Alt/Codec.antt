-- ===== src/Alt/Codec.antt =====
-- src/alt.rs: the round trip of a table's header, and the addresses behind it.
use hopper_svm.Prelude.{
  ℕ, ◌+◌, ◌*◌, ◌^◌, ◌≤◌, ◌<◌, ◌≡◌, refl, ap, Option, none, some, List, [], ◌∷◌, arith, length, ltb,
  false, ◌==◌, if◌then◌else◌,
}
use hopper_svm.Bytes.{le_decode}
use hopper_svm.Bytes.Layout.{
  word, writes, Ordered, nth, word-writes, length-writes, slice-writes_after,
}
use hopper_svm.Error.{Pubkey}
use hopper_svm.Alt.Table.{
  LookupTableMeta, authority_fields, table_fields, read_table, write_table, read_address,
}

-- The fields have the ranges of their Rust types.
abbrev KeyFits : Option Pubkey → Type 0
KeyFits none = Unit
KeyFits (some k) = k < 256 ^ 32

abbrev pub TableFits : LookupTableMeta → Type 0
TableFits m =
    (m.deactivation_slot < 256 ^ 8)
    × (m.last_extended_slot < 256 ^ 8)
    × (m.last_extended_slot_start_index < 256)
    × KeyFits m.authority

authority_fields-Ordered :
    (authority : Option Pubkey)
    → Ordered 56 21 (authority_fields authority ((54, 1, 0) ∷ (55, 1, 0) ∷ []))
authority_fields-Ordered none = omega arith
authority_fields-Ordered (some k) = omega arith

table_fields-Ordered : (m : LookupTableMeta) → Ordered 56 0 (table_fields m)
table_fields-Ordered m =
    (omega arith, (omega arith, (omega arith, (omega arith, authority_fields-Ordered m.authority))))

module _ (bytes : List ℕ) (m : LookupTableMeta) (long : 56 ≤ length bytes) where
  write_table-eq : write_table bytes m ≡ writes (table_fields m) bytes
  unfolding write_table
  write_table-eq = ground arith

  pub length-write_table : length (write_table bytes m) ≡ length bytes
  length-write_table =
      rw write_table-eq (length-writes (table_fields m) bytes 56 0 (table_fields-Ordered m) long)

  -- A field of the header reads as its value in the bytes that are written.
  field :
      (k o w v : ℕ)
      → nth k (table_fields m) ≡ some (o, w, v)
      → v < 256 ^ w
      → word o w (write_table bytes m) ≡ v
  field k o w v e small =
      rw write_table-eq
        (word-writes k (table_fields m) bytes 56 0 o w v e (table_fields-Ordered m) long small)

  -- What stands behind the header is kept.
  word-write_table : (o w : ℕ) → 56 ≤ o → word o w (write_table bytes m) ≡ word o w bytes
  word-write_table o w h = rw write_table-eq (
      ap le_decode
        (slice-writes_after (table_fields m) bytes 56 0 o w (table_fields-Ordered m) long h))

  pub read_address-write_table :
      (i : ℕ) → read_address (write_table bytes m) i ≡ read_address bytes i
  unfolding read_address
  read_address-write_table i =
      rw (length-write_table, word-write_table (56 + i * 32) 32 (omega arith)) refl

abbrev header : ℕ → ℕ → ℕ → Option Pubkey → LookupTableMeta
header ds ls li authority = record {
  deactivation_slot = ds;
  last_extended_slot = ls;
  last_extended_slot_start_index = li;
  authority = authority;
}

module _ (bytes : List ℕ) (long : 56 ≤ length bytes) where
  read_authority :
      (ds ls li : ℕ) (authority : Option Pubkey)
      → KeyFits authority
      → let bytes' = write_table bytes (header ds ls li authority) in
        (if word 21 1 bytes' == 1 then some (word 22 32 bytes') else none) ≡ authority
  read_authority ds ls li none fits =
      rw (field bytes (header ds ls li none) long 4 21 1 0 refl (omega arith)) refl
  read_authority ds ls li (some k) fits =
      let get = field bytes (header ds ls li (some k)) long in
      rw (get 4 21 1 1 refl (omega arith), get 5 22 32 k refl fits) refl

-- A header in the ranges of its Rust types that is written into 56 bytes or more reads back as the same
-- header, and every address behind it reads as before.
pub read_table-write_table :
    (bytes : List ℕ) (m : LookupTableMeta)
    → 56 ≤ length bytes
    → TableFits m
    → (read_table (write_table bytes m) ≡ some m)
      × ((i : ℕ) → read_address (write_table bytes m) i ≡ read_address bytes i)
unfolding read_table
read_table-write_table bytes m long (f0, f1, f2, f3) =
    let size = length-write_table bytes m long in
    let get = field bytes m long in
    let tag = get 0 0 4 1 refl (omega arith) in
    let short : ltb (length (write_table bytes m)) 56 ≡ false = ground arith in
    let authority =
      read_authority bytes long m.deactivation_slot m.last_extended_slot
        m.last_extended_slot_start_index m.authority f3 in
    (
      rw
          (
            short,
            tag,
            get 1 4 8 m.deactivation_slot refl f0,
            get 2 12 8 m.last_extended_slot refl f1,
            get 3 20 1 m.last_extended_slot_start_index refl (omega (arith, f2)),
            authority,
          )
          refl,
      read_address-write_table bytes m long,
    )
