-- ===== src/Alt/Exit.antt =====
-- src/spl/alt_program.rs: `ExtendLookupTable` and what it makes readable; `DeactivateLookupTable` and,
-- after the cooldown, `CloseLookupTable`.
use hopper_svm.Prelude.{ℕ, ◌+◌, ◌≤◌, ◌<◌, ◌≡◌, true, some, String, List, [], ◌∷◌, arith, u64_max}
use hopper_svm.Error.{ok}
use hopper_svm.Account.{KeyedAccount}
use hopper_svm.Sdk.{Sdk}
use hopper_svm.Builtin.{InvokeContext, require_signer, require_writable}
use hopper_svm.System.Transfers.{credit}
use hopper_svm.Alt.Table.{
  LookupTableMeta, active_deactivation_slot, is_closeable, read_table, write_table,
}
use hopper_svm.Alt.Codec.{TableFits, read_table-write_table}
use hopper_svm.Alt.Lives.{read_table-length}
use hopper_svm.Alt.Handlers.{
  table_of, require_authority, deactivate_lookup_table, close_lookup_table,
}
use hopper_svm.Alt.{alt_dispatch, alt_handle}

abbrev pub deactivate_data : List ℕ
deactivate_data = 3 ∷ 0 ∷ 0 ∷ 0 ∷ []

abbrev pub close_data : List ℕ
close_data = 4 ∷ 0 ∷ 0 ∷ 0 ∷ []

abbrev off_at : LookupTableMeta → ℕ → LookupTableMeta
off_at m slot = record m { deactivation_slot = slot }

abbrev deactivated : KeyedAccount → LookupTableMeta → ℕ → KeyedAccount
deactivated a m slot = record a { bytes = write_table a.bytes (off_at m slot) }

module _ (sdk : Sdk) (m : LookupTableMeta) where
  deactivate-eq :
      (ctx : InvokeContext) (a auth : KeyedAccount) (rest : List KeyedAccount)
      → read_table a.bytes ≡ some m
      → m.authority ≡ some auth.address
      → m.deactivation_slot ≡ active_deactivation_slot
      → require_writable ctx a.address ≡ ok tt
      → require_signer ctx auth.address ≡ ok tt
      → deactivate_lookup_table (a ∷ auth ∷ rest) ctx
        ≡ ok (
          deactivated a m ctx.sysvars.clock.slot ∷ auth ∷ rest,
          "alt::DeactivateLookupTable: {table_addr} (slot {})",
        )
  unfolding deactivate_lookup_table table_of require_authority
  deactivate-eq ctx a auth rest reads named active writable signed = ground arith

  close-eq :
      (ctx : InvokeContext) (a auth b : KeyedAccount) (rest : List KeyedAccount)
      → read_table a.bytes ≡ some m
      → m.authority ≡ some auth.address
      → is_closeable m ctx.sysvars.clock.slot ≡ true
      → require_writable ctx a.address ≡ ok tt
      → require_signer ctx auth.address ≡ ok tt
      → require_writable ctx b.address ≡ ok tt
      → close_lookup_table sdk (a ∷ auth ∷ b ∷ rest) ctx
        ≡ ok (
          record a { lamports = 0; bytes = []; owner = sdk.system_id }
              ∷ auth
              ∷ credit b a.lamports
              ∷ rest,
          "alt::CloseLookupTable: {table_addr} -> {recipient_addr} ({lamports} lamports)",
        )
  unfolding close_lookup_table table_of require_authority
  close-eq ctx a auth b rest reads named cooled wa signed wb = ground arith

module _ (sdk : Sdk) (m : LookupTableMeta) where
  -- An active table with a header in range, both calls signed by its authority and the slots writable:
  -- `DeactivateLookupTable` succeeds, and `CloseLookupTable` succeeds in any slot that is more than 513
  -- after it, which empties the table and pays its lamports to the recipient, up to saturation.
  pub deactivate-close :
      (ctx later : InvokeContext) (a auth b : KeyedAccount) (before rest : List KeyedAccount)
      → read_table a.bytes ≡ some m
      → TableFits m
      → m.authority ≡ some auth.address
      → m.deactivation_slot ≡ active_deactivation_slot
      → ctx.sysvars.clock.slot + 513 < later.sysvars.clock.slot
      → later.sysvars.clock.slot ≤ u64_max
      → require_writable ctx a.address ≡ ok tt
      → require_signer ctx auth.address ≡ ok tt
      → require_writable later a.address ≡ ok tt
      → require_signer later auth.address ≡ ok tt
      → require_writable later b.address ≡ ok tt
      → (a' : KeyedAccount) × (said : String) × (done : String) × (alt_handle sdk deactivate_data
            (a ∷ auth ∷ before)
            ctx
          ≡ ok (a' ∷ auth ∷ before, said))
        × (alt_handle sdk close_data (a' ∷ auth ∷ b ∷ rest) later
            ≡ ok (
              record a { lamports = 0; bytes = []; owner = sdk.system_id }
                  ∷ auth
                  ∷ credit b a.lamports
                  ∷ rest,
              done,
            ))
  unfolding alt_handle alt_dispatch
  deactivate-close ctx later a auth b before rest reads fits named active past top wa signed wa'
        signed' wb =
      let slot = ctx.sysvars.clock.slot in
      let m' = off_at m slot in
      let long = read_table-length a.bytes m reads in
      let fits' : TableFits m' = (omega (arith, past, top), fits.1, fits.2, fits.3) in
      let again = (read_table-write_table a.bytes m' long fits').0 in
      let cooled : is_closeable m' later.sysvars.clock.slot ≡ true = ground (arith, past, top) in
      (
        deactivated a m slot,
        "alt::DeactivateLookupTable: {table_addr} (slot {})",
        "alt::CloseLookupTable: {table_addr} -> {recipient_addr} ({lamports} lamports)",
        deactivate-eq sdk m ctx a auth before reads named active wa signed,
        close-eq sdk m' later (deactivated a m slot) auth b rest again named cooled wa' signed' wb,
      )
