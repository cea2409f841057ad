-- ===== src/Alt/Moves.antt =====
-- src/spl/alt_program.rs: what a success does to the table in the first slot.
use hopper_svm.Prelude.{
  ℕ, ◌+◌, ◌*◌, ◌≤◌, ◌≡◌, min, true, false, inl, inr, none, some, String, List, [], ◌∷◌, ◌++◌, arith,
  length,
}
use hopper_svm.Bytes.Layout.{word}
use hopper_svm.Error.{Pubkey, HopperSvmError, builtin_error, Result-cases, ok}
use hopper_svm.Account.{KeyedAccount}
use hopper_svm.Sdk.{Sdk}
use hopper_svm.Builtin.{InvokeContext, require_signer}
use hopper_svm.System.Transfers.{credit}
use hopper_svm.Alt.Table.{
  LookupTableMeta, is_deactivated, is_closeable, read_table, write_table, address_count, packed,
  append_addresses,
}
use hopper_svm.Alt.Handlers.{
  table_of, require_authority, appended, keys_at, freeze_lookup_table, extend_lookup_table,
  deactivate_lookup_table, close_lookup_table,
}

-- What an instruction makes of the account of a table.
pub data Move (sdk : Sdk) (ctx : InvokeContext) (a : KeyedAccount) (m : LookupTableMeta)
    : KeyedAccount → Type 0 where
  freeze :
      Move sdk ctx a m (record a { bytes = write_table a.bytes (record m { authority = none }) })
  extend :
      (keys : List Pubkey)
      → is_deactivated m ≡ false
      → Move sdk ctx a m (record a {
        bytes = write_table (a.bytes ++ packed keys) (record m {
          last_extended_slot = ctx.sysvars.clock.slot;
          last_extended_slot_start_index = min (address_count a.bytes) 255;
        });
      })
  deactivate :
      is_deactivated m ≡ false
      → Move sdk ctx a m (record a {
        bytes = write_table a.bytes (record m { deactivation_slot = ctx.sysvars.clock.slot });
      })
  close :
      is_closeable m ctx.sysvars.clock.slot ≡ true
      → Move sdk ctx a m (record a { lamports = 0; bytes = []; owner = sdk.system_id })

-- The authority of the table has signed for the move.
abbrev pub Moved : Sdk → InvokeContext → KeyedAccount → LookupTableMeta → List KeyedAccount → Type 0
Moved sdk ctx a m [] = ⊥
Moved sdk ctx a m (a' ∷ rest) =
    (auth : Pubkey) × (m.authority ≡ some auth)
    × (require_signer ctx auth ≡ ok tt)
    × Move sdk ctx a m a'

require_authority-ok :
    (m : LookupTableMeta) (auth : Pubkey) (other frozen : HopperSvmError)
    → require_authority m auth other frozen ≡ ok tt
    → m.authority ≡ some auth
unfolding require_authority
require_authority-ok m auth other frozen h = ground arith

module _ (sdk : Sdk) (ctx : InvokeContext) (a : KeyedAccount) (m : LookupTableMeta)
    (reads : read_table a.bytes ≡ some m) where
  pub freeze-Moved :
      (b : KeyedAccount) (rest after : List KeyedAccount) (message : String)
      → freeze_lookup_table (a ∷ b ∷ rest) ctx ≡ ok (after, message)
      → Moved sdk ctx a m after
  unfolding freeze_lookup_table table_of require_authority
  freeze-Moved b rest after message h =
      let named : m.authority ≡ some b.address = ground (arith, reads) in
      let signed : require_signer ctx b.address ≡ ok tt = ground (arith, reads) in
      let e : record a { bytes = write_table a.bytes (record m { authority = none }) } ∷ b ∷ rest
          ≡ after =
        ground (arith, reads) in
      rw (← e) (b.address, named, signed, Move.freeze)

  pub deactivate-Moved :
      (b : KeyedAccount) (rest after : List KeyedAccount) (message : String)
      → deactivate_lookup_table (a ∷ b ∷ rest) ctx ≡ ok (after, message)
      → Moved sdk ctx a m after
  unfolding deactivate_lookup_table table_of require_authority
  deactivate-Moved b rest after message h =
      let named : m.authority ≡ some b.address = ground (arith, reads) in
      let signed : require_signer ctx b.address ≡ ok tt = ground (arith, reads) in
      let active : is_deactivated m ≡ false = ground (arith, reads) in
      let m' : LookupTableMeta = record m { deactivation_slot = ctx.sysvars.clock.slot } in
      let e : record a { bytes = write_table a.bytes m' } ∷ b ∷ rest ≡ after =
        ground (arith, reads) in
      rw (← e) (b.address, named, signed, Move.deactivate active)

  pub close-Moved :
      (b c : KeyedAccount) (rest after : List KeyedAccount) (message : String)
      → close_lookup_table sdk (a ∷ b ∷ c ∷ rest) ctx ≡ ok (after, message)
      → Moved sdk ctx a m after
  unfolding close_lookup_table table_of require_authority
  close-Moved b c rest after message h =
      let named : m.authority ≡ some b.address = ground (arith, reads) in
      let signed : require_signer ctx b.address ≡ ok tt = ground (arith, reads) in
      let cooled : is_closeable m ctx.sysvars.clock.slot ≡ true = ground (arith, reads) in
      let a' : KeyedAccount = record a { lamports = 0; bytes = []; owner = sdk.system_id } in
      let e : a' ∷ b ∷ credit c a.lamports ∷ rest ≡ after = ground (arith, reads) in
      rw (← e) (b.address, named, signed, Move.close cooled)

  appended-eq :
      (keys : List Pubkey) (bytes : List ℕ) (e : HopperSvmError)
      → appended (append_addresses a.bytes keys) e ≡ ok bytes
      → bytes ≡ a.bytes ++ packed keys
  unfolding appended append_addresses
  appended-eq keys bytes e h = ground arith

  abbrev pub extended : List Pubkey → KeyedAccount
  extended keys = record a {
    bytes = write_table (a.bytes ++ packed keys) (record m {
      last_extended_slot = ctx.sysvars.clock.slot;
      last_extended_slot_start_index = min (address_count a.bytes) 255;
    });
  }

  pub extend-eq :
      (body : List ℕ) (b c d : KeyedAccount) (rest after : List KeyedAccount) (message : String)
      → extend_lookup_table body (a ∷ b ∷ c ∷ d ∷ rest) ctx ≡ ok (after, message)
      → (extended (keys_at (word 0 8 body) 8 body) ∷ b ∷ c ∷ d ∷ rest ≡ after)
        × (m.authority ≡ some b.address)
        × (require_signer ctx b.address ≡ ok tt)
        × (is_deactivated m ≡ false)
        × (8 + word 0 8 body * 32 ≤ length body)
  unfolding extend_lookup_table table_of require_authority
  extend-eq body b c d rest after message h =
      let keys = keys_at (word 0 8 body) 8 body in
      let why = builtin_error ctx.program_id "alt::Extend: {err}" in
      elim (Result-cases (appended (append_addresses a.bytes keys) why)) [
        | inl (bytes, e) ↦
            let named : m.authority ≡ some b.address = ground (arith, reads) in
            let signed : require_signer ctx b.address ≡ ok tt = ground (arith, reads) in
            let active : is_deactivated m ≡ false = ground (arith, reads) in
            let long : 8 + word 0 8 body * 32 ≤ length body = ground arith in
            let m' : LookupTableMeta = record m {
              last_extended_slot = ctx.sysvars.clock.slot;
              last_extended_slot_start_index = min (address_count a.bytes) 255;
            } in
            let e' : record a { bytes = write_table bytes m' } ∷ b ∷ c ∷ d ∷ rest ≡ after =
              ground (arith, reads, e) in
            (rw (appended-eq keys bytes why e) at e', named, signed, active, long)
        | inr failed ↦ absurd (ground (arith, reads))
      ]

  pub extend-Moved :
      (body : List ℕ) (b c d : KeyedAccount) (rest after : List KeyedAccount) (message : String)
      → extend_lookup_table body (a ∷ b ∷ c ∷ d ∷ rest) ctx ≡ ok (after, message)
      → Moved sdk ctx a m after
  extend-Moved body b c d rest after message h =
      let (e, named, signed, active, _) = extend-eq body b c d rest after message h in
      rw (← e) (b.address, named, signed, Move.extend (keys_at (word 0 8 body) 8 body) active)
