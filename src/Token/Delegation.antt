-- ===== src/Token/Delegation.antt =====
-- src/spl/token.rs: who may spend after `Approve` and `Revoke`.
use hopper_svm.Prelude.{
  ℕ, ◌≡◌, ◌≢◌, ◌≤◌, ◌<◌, ◌^◌, ◌⊎◌, length, inl, inr, false, some, none, String, List, ◌∷◌, arith,
}
use hopper_svm.Error.{ok, is_ok, Result-cases}
use hopper_svm.Bytes.{le_decode, slice, AreBytes, slice_lt}
use hopper_svm.Account.{KeyedAccount}
use hopper_svm.Builtin.{InvokeContext}
use hopper_svm.Token.State.{
  SplToken, PackLaws, TokenAccount, read_token_account, write_token_account,
}
use hopper_svm.Token.Moves.{transfer, approve, revoke, authorise_transfer}
use hopper_svm.Token.Slots.{read_token_account-fits, read_token_account-write_token_account}

module _ (spl : SplToken) (ctx : InvokeContext) (a owner a' : KeyedAccount)
    (rest tail : List KeyedAccount) (message : String)
    (done : revoke spl (a ∷ owner ∷ rest) ctx ≡ ok (a' ∷ tail, message)) where
  revoke_inv :
      (src : TokenAccount) × (read_token_account spl a ctx ≡ ok src)
      × (src.owner ≡ owner.address)
      × (a' ≡ write_token_account spl a (record src { delegate = none; delegated_amount = 0 }))
  unfolding revoke
  revoke_inv = elim (Result-cases (read_token_account spl a ctx)) [
    | inl (src, e) ↦ (src, e, ground arith, ground arith)
    | inr bad ↦ absurd (ground arith)
  ]

  -- With the documented round trip of the `Pack` of the crate: after a `Revoke` that succeeds, every
  -- `Transfer` out of the account fails, unless its authority is the owner that revoked.
  pub revoke-transfer :
      (laws : PackLaws spl) (ctx' : InvokeContext) (body : List ℕ) (b auth : KeyedAccount)
      (rest' : List KeyedAccount)
      → ctx'.program_id ≡ ctx.program_id
      → auth.address ≢ owner.address
      → is_ok (transfer spl body (a' ∷ b ∷ auth ∷ rest') ctx') ≡ false
  unfolding transfer authorise_transfer
  revoke-transfer laws ctx' body b auth rest' same other =
      let (src, e, own, written) = revoke_inv in
      let (held, fits) = read_token_account-fits spl laws ctx a src e in
      let now : read_token_account spl a' ctx'
          ≡ ok (record src { delegate = none; delegated_amount = 0 }) =
        rw written (
          read_token_account-write_token_account spl laws ctx' a
            (record src { delegate = none; delegated_amount = 0 }) (rw same held) (ground arith)) in
      ground (arith, now)

module _ (spl : SplToken) (ctx : InvokeContext) (a delegate owner a' : KeyedAccount) (body : List ℕ)
    (rest tail : List KeyedAccount) (message : String)
    (done : approve spl body (a ∷ delegate ∷ owner ∷ rest) ctx ≡ ok (a' ∷ tail, message)) where
  approve_inv :
      (src : TokenAccount) × (read_token_account spl a ctx ≡ ok src)
      × (8 ≤ length body)
      × (a'
          ≡ write_token_account spl a (record src {
            delegate = some delegate.address;
            delegated_amount = le_decode (slice 0 8 body);
          }))
      × (src.owner ≡ owner.address)
  unfolding approve
  approve_inv = elim (Result-cases (read_token_account spl a ctx)) [
    | inl (src, e) ↦ (src, e, ground arith, ground arith, ground arith)
    | inr bad ↦ absurd (ground arith)
  ]

  -- With the documented round trip of the `Pack` of the crate: after an `Approve` that succeeds, on
  -- byte lists, a `Transfer` out of the account whose authority is not the owner fails if the
  -- authority is not the delegate either, or if it moves more than the allowance.
  pub approve-transfer :
      (laws : PackLaws spl) (ctx' : InvokeContext) (body' : List ℕ) (b auth : KeyedAccount)
      (rest' : List KeyedAccount)
      → AreBytes body
      → delegate.address < 2 ^ 256
      → ctx'.program_id ≡ ctx.program_id
      → auth.address ≢ owner.address
      → (auth.address ≢ delegate.address)
        ⊎ (le_decode (slice 0 8 body) < le_decode (slice 0 8 body'))
      → is_ok (transfer spl body' (a' ∷ b ∷ auth ∷ rest') ctx') ≡ false
  unfolding transfer authorise_transfer
  approve-transfer laws ctx' body' b auth rest' words key same other beyond =
      let (src, e, long, written, own) = approve_inv in
      let (held, fits) = read_token_account-fits spl laws ctx a src e in
      let small = (slice_lt 0 8 body words long).1 in
      let now : read_token_account spl a' ctx'
          ≡ ok (record src {
            delegate = some delegate.address;
            delegated_amount = le_decode (slice 0 8 body);
          }) =
        rw written (
          read_token_account-write_token_account spl laws ctx' a
            (record src {
              delegate = some delegate.address;
              delegated_amount = le_decode (slice 0 8 body);
            })
            (rw same held) (ground arith)) in
      ground (arith, now)
