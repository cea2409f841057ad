-- ===== src/System/Durable.antt =====
-- src/system_program.rs: the state of a nonce account through its instructions.
use hopper_svm.Prelude.{ℕ, ◌≤◌, ◌<◌, ◌^◌, ◌≡◌, ◌∙◌, ap, Bool, true, List, ◌==◌, arith, leb, length}
use hopper_svm.Bytes.{
  le_decode, le_encode, slice, splice, le_decode-encode, length-le_encode, length-splice,
  slice-splice_self, slice-splice_before,
}
use hopper_svm.Error.{Pubkey, ok}
use hopper_svm.System.Nonce.{read_nonce_state, write_nonce_state, state_tag}

leb-true : (a b : ℕ) → a ≤ b → leb a b ≡ true
leb-true a b h = ground arith

state_tag-le : (b : Bool) → state_tag b ≤ 1
state_tag-le b = ground arith

state_tag-eq : (b : Bool) → (state_tag b == 1) ≡ b
state_tag-eq b = ground arith

-- The state that a buffer holds, from its four slices.
read_nonce_state-eq :
    (bytes : List ℕ) (id : Pubkey) (b : Bool) (authority : Pubkey) (durable : List ℕ) (fee : ℕ)
    → 80 ≤ length bytes
    → (le_decode (slice 4 4 bytes) == 1) ≡ b
    → le_decode (slice 8 32 bytes) ≡ authority
    → slice 40 32 bytes ≡ durable
    → le_decode (slice 72 8 bytes) ≡ fee
    → read_nonce_state bytes id
      ≡ ok (record {
        initialized = b;
        authority = authority;
        durable_nonce = durable;
        lamports_per_signature = fee;
      })
unfolding read_nonce_state
read_nonce_state-eq bytes id b authority durable fee long eb ea ed ef =
    rw (leb-true 80 (length bytes) long) (λ i. ok (record {
      initialized = eb i;
      authority = ea i;
      durable_nonce = ed i;
      lamports_per_signature = ef i;
    }))

module _ (bytes : List ℕ) (b : Bool) (authority : Pubkey) (durable : List ℕ) (fee : ℕ) (id : Pubkey)
    (long : 80 ≤ length bytes) (key : authority < 256 ^ 32) (hash : length durable ≡ 32)
    (small : fee < 256 ^ 8) where
  abbrev w0 : List ℕ
  w0 = splice 0 (le_encode 4 1) bytes

  abbrev w1 : List ℕ
  w1 = splice 4 (le_encode 4 (state_tag b)) w0

  abbrev w2 : List ℕ
  w2 = splice 8 (le_encode 32 authority) w1

  abbrev w3 : List ℕ
  w3 = splice 40 durable w2

  abbrev w4 : List ℕ
  w4 = splice 72 (le_encode 8 fee) w3

  l0 : length w0 ≡ length bytes
  l0 = length-splice 0 (le_encode 4 1) bytes (omega (arith, length-le_encode 4 1))

  l1 : length w1 ≡ length bytes
  l1 =
      length-splice 4 (le_encode 4 (state_tag b)) w0
        (omega (arith, l0, length-le_encode 4 (state_tag b)))
      ∙ l0

  l2 : length w2 ≡ length bytes
  l2 =
      length-splice 8 (le_encode 32 authority) w1 (omega (arith, l1, length-le_encode 32 authority))
      ∙ l1

  l3 : length w3 ≡ length bytes
  l3 = length-splice 40 durable w2 (omega (arith, l2, hash)) ∙ l2

  tag_slice : slice 4 4 w4 ≡ le_encode 4 (state_tag b)
  tag_slice =
      slice-splice_before 4 4 72 (le_encode 8 fee) w3 (omega arith) (omega (arith, l3))
      ∙ slice-splice_before 4 4 40 durable w2 (omega arith) (omega (arith, l2))
      ∙ slice-splice_before 4 4 8 (le_encode 32 authority) w1 (omega arith) (omega (arith, l1))
      ∙ slice-splice_self 4 4 (le_encode 4 (state_tag b)) w0 (length-le_encode 4 (state_tag b))
          (omega (arith, l0))

  authority_slice : slice 8 32 w4 ≡ le_encode 32 authority
  authority_slice =
      slice-splice_before 8 32 72 (le_encode 8 fee) w3 (omega arith) (omega (arith, l3))
      ∙ slice-splice_before 8 32 40 durable w2 (omega arith) (omega (arith, l2))
      ∙ slice-splice_self 8 32 (le_encode 32 authority) w1 (length-le_encode 32 authority)
          (omega (arith, l1))

  durable_slice : slice 40 32 w4 ≡ durable
  durable_slice =
      slice-splice_before 40 32 72 (le_encode 8 fee) w3 (omega arith) (omega (arith, l3))
      ∙ slice-splice_self 40 32 durable w2 hash (omega (arith, l2))

  fee_slice : slice 72 8 w4 ≡ le_encode 8 fee
  fee_slice =
      slice-splice_self 72 8 (le_encode 8 fee) w3 (length-le_encode 8 fee) (omega (arith, l3))

  tag_value : (le_decode (le_encode 4 (state_tag b)) == 1) ≡ b
  tag_value = rw (le_decode-encode 4 (state_tag b) (omega (arith, state_tag-le b))) (state_tag-eq b)

  write_long : write_nonce_state bytes b authority durable fee ≡ w4
  unfolding write_nonce_state
  write_long = ground arith

  -- A nonce state with an authority of 32 bytes, a durable nonce of 32 bytes and a `u64` fee that
  -- is written into 80 bytes or more reads back as the same state.
  pub read_nonce_state-write_nonce_state :
      read_nonce_state (write_nonce_state bytes b authority durable fee) id
      ≡ ok (record {
        initialized = b;
        authority = authority;
        durable_nonce = durable;
        lamports_per_signature = fee;
      })
  read_nonce_state-write_nonce_state =
      ap (λ data'. read_nonce_state data' id) write_long
      ∙ read_nonce_state-eq w4 id b authority durable fee
          (omega (
            arith,
            l3,
            length-splice 72 (le_encode 8 fee) w3 (omega (arith, l3, length-le_encode 8 fee)),
          ))
          (ap (λ t. le_decode t == 1) tag_slice ∙ tag_value)
          (ap le_decode authority_slice ∙ le_decode-encode 32 authority key) durable_slice
          (ap le_decode fee_slice ∙ le_decode-encode 8 fee small)
