-- ===== src/Alt/Lives.antt =====
-- src/alt.rs, src/spl/alt_program.rs: a table through any calls of the program.
use hopper_svm.Prelude.{
  ℕ, ◌^◌, ◌≤◌, ◌<◌, ◌≡◌, inr, some, String, List, ◌∷◌, ◌++◌, arith, length, length-append,
}
use hopper_svm.Error.{Pubkey, ok}
use hopper_svm.Account.{KeyedAccount}
use hopper_svm.Sdk.{Sdk}
use hopper_svm.Builtin.{InvokeContext}
use hopper_svm.Alt.Table.{LookupTableMeta, read_table, write_table, packed, resolve_lookup}
use hopper_svm.Alt.Codec.{TableFits, read_table-write_table}
use hopper_svm.Alt.Addresses.{Grows, append-Grows, resolve_lookup-Grows}
use hopper_svm.Alt.Moves.{Move}
use hopper_svm.Alt.Steps.{alt_handle-Moved}
use hopper_svm.Alt.{alt_handle}

-- The account of a table after calls that succeeded, none of which closed it, in slots that are `u64`s.
pub data Runs (sdk : Sdk) (a : KeyedAccount) : KeyedAccount → Type 0 where
  done : Runs sdk a a
  call :
      {b' : KeyedAccount}
      → (bytes : List ℕ) (ctx : InvokeContext) (b : KeyedAccount) (rest after : List KeyedAccount)
        (message : String)
      → Runs sdk a b
      → ctx.sysvars.clock.slot < 256 ^ 8
      → alt_handle sdk bytes (b ∷ rest) ctx ≡ ok (b' ∷ after, message)
      → 0 < length b'.bytes
      → Runs sdk a b'

-- A table, with a header in range, that has the addresses of `bytes`.
abbrev IsLater : List ℕ → KeyedAccount → Type 0
IsLater bytes b =
    Grows bytes b.bytes × (m : LookupTableMeta) × (read_table b.bytes ≡ some m) × TableFits m

pub read_table-length :
    (bytes : List ℕ) (m : LookupTableMeta) → read_table bytes ≡ some m → 56 ≤ length bytes
unfolding read_table
read_table-length bytes m h = ground arith

module _ (start : List ℕ) where
  -- Writing a header in range over a table with more addresses.
  written-IsLater :
      (b : KeyedAccount) (bytes : List ℕ) (m : LookupTableMeta)
      → 56 ≤ length bytes
      → Grows start bytes
      → TableFits m
      → IsLater start (record b { bytes = write_table bytes m })
  written-IsLater b bytes m long grows fits =
      let (again, same) = read_table-write_table bytes m long fits in
      ((λ i pk h. rw (same i) (grows i pk h)), m, again, fits)

  Move-IsLater :
      (sdk : Sdk) (ctx : InvokeContext) (b : KeyedAccount) (m : LookupTableMeta) (b' : KeyedAccount)
      → ctx.sysvars.clock.slot < 256 ^ 8
      → Grows start b.bytes
      → read_table b.bytes ≡ some m
      → TableFits m
      → 0 < length b'.bytes
      → Move sdk ctx b m b'
      → IsLater start b'
  Move-IsLater sdk ctx b m b' now grows reads fits left (Move.freeze) =
      written-IsLater b b.bytes _ (read_table-length b.bytes m reads) grows (ground (arith, fits))
  Move-IsLater sdk ctx b m b' now grows reads fits left (Move.extend keys active) =
      let long = read_table-length b.bytes m reads in
      let size = length-append b.bytes (packed keys) in
      written-IsLater b (b.bytes ++ packed keys) _ (omega (arith, long, size))
        (λ i pk h. append-Grows b.bytes (packed keys) i pk (grows i pk h))
        (fits.0, now, omega arith, fits.3)
  Move-IsLater sdk ctx b m b' now grows reads fits left (Move.deactivate active) =
      written-IsLater b b.bytes _ (read_table-length b.bytes m reads) grows
        (now, fits.1, fits.2, fits.3)
  Move-IsLater sdk ctx b m b' now grows reads fits left (Move.close cooled) = absurd (omega arith)

  Runs-IsLater : (sdk : Sdk) (a b : KeyedAccount) → IsLater start a → Runs sdk a b → IsLater start b
  Runs-IsLater sdk a b first done = first
  Runs-IsLater sdk a b' first (call bytes ctx b rest after message runs now h left) =
      let (grows, m, reads, fits) = Runs-IsLater sdk a b first runs in
      let (auth, named, signed, move) =
        alt_handle-Moved sdk ctx b m reads bytes rest (b' ∷ after) message h in
      Move-IsLater sdk ctx b m b' now grows reads fits left move

-- A lookup that a table resolves, its header in the ranges of its Rust types, resolves to the same
-- keys after any calls of the program, in `u64` slots, that succeeded and did not close the table.
pub resolve_lookup-Runs :
    (sdk : Sdk) (a b : KeyedAccount) (m : LookupTableMeta) (writable readonly : List ℕ)
    (keys : List Pubkey × List Pubkey)
    → read_table a.bytes ≡ some m
    → TableFits m
    → Runs sdk a b
    → resolve_lookup a.bytes writable readonly ≡ inr keys
    → resolve_lookup b.bytes writable readonly ≡ inr keys
resolve_lookup-Runs sdk a b m writable readonly keys reads fits runs h =
    let later = Runs-IsLater a.bytes sdk a b ((λ i pk e. e), m, reads, fits) runs in
    resolve_lookup-Grows a.bytes b.bytes writable readonly keys later.0 h
