-- ===== src/System/Handover.antt =====
-- src/system_program.rs: who may use a nonce account, before and after its authority changes.
use hopper_svm.Prelude.{
  ℕ, ◌≤◌, ◌≡◌, ◌≢◌, ◌∙◌, sym, ap, true, false, String, List, [], ◌∷◌, arith, leb, length,
  Bool-cases, inl, inr,
}
use hopper_svm.Bytes.{le_decode, slice, AreBytes, slice_lt}
use hopper_svm.Error.{Pubkey, Result, ok, err, panic, is_ok, Result-cases}
use hopper_svm.Account.{KeyedAccount}
use hopper_svm.Sdk.{Sdk}
use hopper_svm.Builtin.{InvokeContext, require_signer}
use hopper_svm.System.Nonce.{
  NonceState, nonce_state_bytes, read_nonce_state, write_nonce_state, advance_nonce_account,
  authorize_nonce_account,
}
use hopper_svm.System.Durable.{read_nonce_state-write_nonce_state}

leb→le : (a b : ℕ) → leb a b ≡ true → a ≤ b
leb→le a b h = ground arith

abbrev nonce_of : Result NonceState → List ℕ
nonce_of (ok st) = st.durable_nonce
nonce_of (err e) = []
nonce_of panic = []

abbrev fee_of : Result NonceState → ℕ
fee_of (ok st) = st.lamports_per_signature
fee_of (err e) = 0
fee_of panic = 0

-- What a readable state says of the buffer.
read_nonce_state_inv :
    (bytes : List ℕ) (id : Pubkey) (st : NonceState)
    → read_nonce_state bytes id ≡ ok st
    → (80 ≤ length bytes)
      × (st.durable_nonce ≡ slice 40 32 bytes)
      × (st.lamports_per_signature ≡ le_decode (slice 72 8 bytes))
unfolding read_nonce_state
read_nonce_state_inv bytes id st h = elim (Bool-cases (leb nonce_state_bytes (length bytes))) [
  | inl long ↦
      let e = rw long at h in
      (leb→le 80 (length bytes) long, ap nonce_of (sym e), ap fee_of (sym e))
  | inr short ↦ absurd (let e = rw short at h in cc e)
]

module _ (body : List ℕ) (ctx : InvokeContext) (n n' a : KeyedAccount)
    (rest tail : List KeyedAccount) (message : String)
    (done : authorize_nonce_account body (n ∷ a ∷ rest) ctx ≡ ok (n' ∷ tail, message)) where
  authorize_inv :
      (32 ≤ length body)
      × (st : NonceState) × (read_nonce_state n.bytes ctx.program_id ≡ ok st)
      × (st.authority ≡ a.address)
      × (require_signer ctx a.address ≡ ok tt)
      × (n'.bytes
          ≡ write_nonce_state n.bytes true
              (le_decode (slice 0 32 body))
              st.durable_nonce
              st.lamports_per_signature)
  unfolding authorize_nonce_account
  authorize_inv = elim (Result-cases (read_nonce_state n.bytes ctx.program_id)) [
    | inl (st, e) ↦ (ground arith, st, e, ground arith, ground arith, ground arith)
    | inr bad ↦ absurd (ground arith)
  ]

  -- After an `AuthorizeNonceAccount` that succeeds, on byte lists, the account reads as the state
  -- that it had, with the new authority; the signer was the authority of the old state.
  pub authorize_nonce_account-state :
      AreBytes n.bytes
      → AreBytes body
      → (st : NonceState) × (read_nonce_state n.bytes ctx.program_id ≡ ok st)
        × (st.authority ≡ a.address)
        × (require_signer ctx a.address ≡ ok tt)
        × (read_nonce_state n'.bytes ctx.program_id
            ≡ ok (record {
              initialized = true;
              authority = le_decode (slice 0 32 body);
              durable_nonce = st.durable_nonce;
              lamports_per_signature = st.lamports_per_signature;
            }))
  authorize_nonce_account-state whole words =
      let (enough, st, e, old, signed, written) = authorize_inv in
      let (long, en, ef) = read_nonce_state_inv n.bytes ctx.program_id st e in
      let nonce_size : length st.durable_nonce ≡ 32 =
        ap length en ∙ (slice_lt 40 32 n.bytes whole (omega arith)).0 in
      (
        st,
        e,
        old,
        signed,
        rw written (
            read_nonce_state-write_nonce_state n.bytes true (le_decode (slice 0 32 body))
              st.durable_nonce st.lamports_per_signature ctx.program_id long
              (slice_lt 0 32 body words enough).1 nonce_size
              (rw ef (slice_lt 72 8 n.bytes whole long).1)),
      )

  -- Once an `AuthorizeNonceAccount` that succeeded has handed the authority over, on byte lists,
  -- `AdvanceNonceAccount` on that account fails for every signer but the new authority.
  pub authorize-advance :
      (sdk : Sdk) (ctx' : InvokeContext) (body' : List ℕ) (recent signer : KeyedAccount)
      (rest' : List KeyedAccount)
      → AreBytes n.bytes
      → AreBytes body
      → ctx'.program_id ≡ ctx.program_id
      → signer.address ≢ le_decode (slice 0 32 body)
      → is_ok (advance_nonce_account sdk body' (n' ∷ recent ∷ signer ∷ rest') ctx') ≡ false
  unfolding advance_nonce_account
  authorize-advance sdk ctx' body' recent signer rest' whole words same other =
      let (st, _, _, _, now) = authorize_nonce_account-state whole words in ground (arith, now)
