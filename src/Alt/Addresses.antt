-- ===== src/Alt/Addresses.antt =====
-- src/alt.rs: the addresses of a table as it is extended, and the lookups that it resolves.
use hopper_svm.Prelude.{
  ℕ, zero, suc, ◌+◌, ◌*◌, ◌^◌, ◌≤◌, ◌<◌, ◌≡◌, ◌∙◌, refl, ap, inl, inr, String, Option, Option-cases,
  none, some, List, [], ◌∷◌, ◌++◌, arith, length, length-append,
}
use hopper_svm.Bytes.{le_decode, le_encode, length-le_encode, le_decode-encode}
use hopper_svm.Bytes.Layout.{word, slice-append_left, slice-append_right}
use hopper_svm.Error.{Pubkey}
use hopper_svm.Alt.Table.{read_address, packed, resolve_indexes, resolve_lookup}

-- Every address that a table has, a later one has at the same index.
abbrev pub Grows : List ℕ → List ℕ → Type 0
Grows bytes bytes' =
    (i : ℕ) (pk : Pubkey) → read_address bytes i ≡ some pk → read_address bytes' i ≡ some pk

pub append-Grows : (bytes more : List ℕ) → Grows bytes (bytes ++ more)
unfolding read_address
append-Grows bytes more i pk h =
    let within : 56 + i * 32 + 32 ≤ length bytes = ground arith in
    let same = slice-append_left (56 + i * 32) 32 bytes more within in
    let size = length-append bytes more in ground (arith, same, size)

pub length-packed : (pks : List Pubkey) → length (packed pks) ≡ length pks * 32
unfolding packed
length-packed [] = refl
length-packed (pk ∷ pks) =
    omega (
      arith,
      length-packed pks,
      length-append (le_encode 32 pk) (packed pks),
      length-le_encode 32 pk,
    )

abbrev pub nth_key : ℕ → List Pubkey → Option Pubkey
nth_key j [] = none
nth_key zero (pk ∷ pks) = some pk
nth_key (suc j) (pk ∷ pks) = nth_key j pks

word-packed :
    (j : ℕ) (pks : List Pubkey) (pk : Pubkey)
    → nth_key j pks ≡ some pk
    → pk < 256 ^ 32
    → (j * 32 + 32 ≤ length (packed pks)) × (word (j * 32) 32 (packed pks) ≡ pk)
unfolding packed
word-packed j [] pk e h = absurd (ground arith)
word-packed zero (k ∷ pks) pk e h =
    let same : k ≡ pk = ground arith in
    (
      omega (arith, length-packed (k ∷ pks)),
      ap le_decode (
            slice-append_left 0 32 (le_encode 32 k) (packed pks)
              (omega (arith, length-le_encode 32 k)))
          ∙ le_decode-encode 32 k (rw same h)
          ∙ same,
    )
word-packed (suc j) (k ∷ pks) pk e h =
    let (room, read) = word-packed j pks pk e h in
    let size = length-append (le_encode 32 k) (packed pks) in
    let e : suc j * 32 ≡ 32 + j * 32 = omega arith in
    (
      omega (arith, room, size, length-le_encode 32 k),
      rw e (ap le_decode (slice-append_right (j * 32) 32 (le_encode 32 k) (packed pks)) ∙ read),
    )

-- The keys that are appended to a table of `c` addresses have the indexes from `c` on.
pub read_address-append :
    (bytes : List ℕ) (c j : ℕ) (pks : List Pubkey) (pk : Pubkey)
    → length bytes ≡ 56 + c * 32
    → nth_key j pks ≡ some pk
    → pk < 256 ^ 32
    → read_address (bytes ++ packed pks) (c + j) ≡ some pk
unfolding read_address
read_address-append bytes c j pks pk size e h =
    let (room, read) = word-packed j pks pk e h in
    let at : 56 + (c + j) * 32 ≡ length bytes + j * 32 = omega (arith, size) in
    let found : word (56 + (c + j) * 32) 32 (bytes ++ packed pks) ≡ pk =
      rw at (ap le_decode (slice-append_right (j * 32) 32 bytes (packed pks)) ∙ read) in
    let whole = length-append bytes (packed pks) in ground (arith, found, whole, room, size)

resolve_indexes-Grows :
    (bytes bytes' : List ℕ) (e : String) (indexes : List ℕ) (pks : List Pubkey)
    → Grows bytes bytes'
    → resolve_indexes e bytes indexes ≡ inr pks
    → resolve_indexes e bytes' indexes ≡ inr pks
unfolding resolve_indexes
resolve_indexes-Grows bytes bytes' e [] pks grows h = h
resolve_indexes-Grows bytes bytes' e (i ∷ indexes) pks grows h =
    elim (Option-cases (read_address bytes i)) [
      | inl missing ↦ absurd (ground arith)
      | inr (pk, found) ↦
          grind (arith, grows i pk found, resolve_indexes-Grows bytes bytes' e indexes)
    ]

-- A lookup that a table resolves, a table with the same addresses and more resolves the same way.
pub resolve_lookup-Grows :
    (bytes bytes' writable readonly : List ℕ) (keys : List Pubkey × List Pubkey)
    → Grows bytes bytes'
    → resolve_lookup bytes writable readonly ≡ inr keys
    → resolve_lookup bytes' writable readonly ≡ inr keys
unfolding resolve_lookup
resolve_lookup-Grows bytes bytes' writable readonly keys grows h =
    grind (arith, resolve_indexes-Grows bytes bytes')
