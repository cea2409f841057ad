-- ===== src/Alt/Extends.antt =====
-- src/spl/alt_program.rs: what `ExtendLookupTable` makes readable.
use hopper_svm.Prelude.{
  ℕ, zero, suc, ◌+◌, ◌*◌, ◌^◌, ◌≤◌, ◌<◌, ◌≡◌, ◌∙◌, refl, ◌/◌, ◌-◌, some, String, List, ◌∷◌, ◌++◌,
  ap, arith, length, length-append,
}
use hopper_svm.Bytes.{AreBytes}
use hopper_svm.Bytes.Layout.{word, word-lt}
use hopper_svm.Error.{Pubkey, ok}
use hopper_svm.Account.{KeyedAccount}
use hopper_svm.Sdk.{Sdk}
use hopper_svm.Builtin.{InvokeContext}
use hopper_svm.Alt.Table.{LookupTableMeta, read_table, read_address, address_count, packed}
use hopper_svm.Alt.Codec.{read_address-write_table, length-write_table}
use hopper_svm.Alt.Addresses.{nth_key, read_address-append, length-packed}
use hopper_svm.Alt.Handlers.{keys_at, extend_lookup_table}
use hopper_svm.Alt.Moves.{extended, extend-eq}

keys_at-lt :
    (n off j : ℕ) (body : List ℕ) (pk : Pubkey)
    → AreBytes body
    → off + n * 32 ≤ length body
    → nth_key j (keys_at n off body) ≡ some pk
    → pk < 256 ^ 32
keys_at-lt zero off j body pk bytes long e = absurd (ground arith)
keys_at-lt (suc n) off zero body pk bytes long e =
    let same : word off 32 body ≡ pk = ground arith in
    rw (← same) (word-lt off 32 body bytes (omega (arith, long)))
keys_at-lt (suc n) off (suc j) body pk bytes long e =
    keys_at-lt n (off + 32) j body pk bytes (omega (arith, long)) e

length-keys_at : (n off : ℕ) (body : List ℕ) → length (keys_at n off body) ≡ n
length-keys_at zero off body = refl
length-keys_at (suc n) off body = ap suc (length-keys_at n (off + 32) body)

address_count-eq : (bytes : List ℕ) (n : ℕ) → length bytes ≡ 56 + n * 32 → address_count bytes ≡ n
unfolding address_count
address_count-eq bytes n size =
    let q : (length bytes - 56) / 32 ≡ n = omega (arith, size) in ground (arith, q, size)

-- If `ExtendLookupTable` succeeds, its data of bytes, on a table of `n` whole addresses, the table has
-- as many more as the data has keys, and the j-th key of the data reads at index `n + j`.
pub extend_lookup_table-reads :
    (sdk : Sdk) (ctx : InvokeContext) (a a' b c d : KeyedAccount) (m : LookupTableMeta) (n : ℕ)
    (body : List ℕ) (rest after : List KeyedAccount) (message : String) (j : ℕ) (pk : Pubkey)
    → read_table a.bytes ≡ some m
    → length a.bytes ≡ 56 + n * 32
    → AreBytes body
    → extend_lookup_table body (a ∷ b ∷ c ∷ d ∷ rest) ctx ≡ ok (a' ∷ after, message)
    → nth_key j (keys_at (word 0 8 body) 8 body) ≡ some pk
    → (read_address a'.bytes (n + j) ≡ some pk) × (address_count a'.bytes ≡ n + word 0 8 body)
extend_lookup_table-reads sdk ctx a a' b c d m n body rest after message j pk reads size bytes h
      named =
    let keys = keys_at (word 0 8 body) 8 body in
    let (e, _, _, _, fit) = extend-eq sdk ctx a m reads body b c d rest (a' ∷ after) message h in
    let head : extended sdk ctx a m reads keys ≡ a' = cc in
    let long = length-append a.bytes (packed keys) in
    let room : 56 ≤ length (a.bytes ++ packed keys) = omega (arith, long, size) in
    let kept = read_address-write_table (a.bytes ++ packed keys) _ room in
    let whole : length (extended sdk ctx a m reads keys).bytes ≡ length (a.bytes ++ packed keys) =
      length-write_table (a.bytes ++ packed keys) _ room in
    let more = length-packed keys in
    let count = length-keys_at (word 0 8 body) 8 body in
    rw (← head) (
      kept (n + j)
          ∙ read_address-append a.bytes n j keys pk size named
              (keys_at-lt (word 0 8 body) 8 j body pk bytes (omega (arith, fit)) named),
      address_count-eq _ (n + word 0 8 body) (omega (arith, whole, long, more, count, size)),
    )
