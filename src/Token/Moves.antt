-- ===== src/Token/Moves.antt =====
-- src/spl/token.rs: `Transfer`, `Approve` and `Revoke`.
use hopper_svm.Prelude.{
  ℕ, ◌-◌, Option, none, some, List, ◌∷◌, ◌==◌, leb, length, checked_add, if◌then◌else◌,
}
use hopper_svm.Bytes.{le_decode, slice}
use hopper_svm.Error.{
  Pubkey, HopperSvmError, Result, ok, err, builtin_error, insufficient_funds, ◌>>=◌, ◌>>◌, require,
}
use hopper_svm.Account.{KeyedAccount}
use hopper_svm.Builtin.{InvokeContext, require_signer, require_writable}
use hopper_svm.System.Slots.{Handled, two_slots, three_slots}
use hopper_svm.Token.State.{
  SplToken, TokenAccount, is_initialised, read_token_account, write_token_account,
}

-- The delegate spends from its allowance; at zero the delegate is cleared.
abbrev pub spend : TokenAccount → ℕ → TokenAccount
spend t amount = record t {
  delegated_amount = t.delegated_amount - amount;
  delegate = if t.delegated_amount - amount == 0 then none else t.delegate;
}

-- The authority check of `Transfer`: the source as the check leaves it.
unfoldable pub authorise_transfer : InvokeContext → TokenAccount → Pubkey → ℕ → Result TokenAccount
authorise_transfer ctx src auth amount = if src.owner == auth then ok src else elim src.delegate [
  | some delegate ↦
      if delegate == auth
      then (if leb amount src.delegated_amount
          then ok (spend src amount)
          else err (
              builtin_error ctx.program_id
                "spl-token::Transfer: delegated amount {} < requested {amount}"))
      else err (
          builtin_error ctx.program_id
            "spl-token::Transfer: signer {auth_addr} is neither owner ({}) nor delegate ({})")
  | none ↦ err (
      builtin_error ctx.program_id
        "spl-token::Transfer: signer {auth_addr} is not the owner ({}) and no delegate is set")
]

-- `checked_add(amount).ok_or_else(…)?`
unfoldable pub added : Option ℕ → HopperSvmError → Result ℕ
added none e = err e
added (some n) e = ok n

module _ (spl : SplToken) where
  unfoldable pub transfer : List ℕ → List KeyedAccount → InvokeContext → Handled
  unfolding three_slots added
  transfer body accounts ctx = do
    require (leb 8 (length body))
        (builtin_error ctx.program_id "spl-token::Transfer: body < 8 bytes")
    let amount = le_decode (slice 0 8 body)
    (a, b, auth, rest) ← three_slots accounts
    require_writable ctx a.address
    require_writable ctx b.address
    require_signer ctx auth.address
    src ← read_token_account spl a ctx
    dst ← read_token_account spl b ctx
    require (is_initialised src.state)
        (builtin_error ctx.program_id "spl-token::Transfer: source {src_addr} not initialised")
    require (is_initialised dst.state)
        (builtin_error ctx.program_id "spl-token::Transfer: destination {dst_addr} not initialised")
    require (src.mint == dst.mint)
        (builtin_error ctx.program_id "spl-token::Transfer: mint mismatch (src={} dst={})")
    src' ← authorise_transfer ctx src auth.address amount
    require (leb amount src'.amount) (insufficient_funds a.address src'.amount amount)
    total ←
        added (checked_add dst.amount amount)
          (builtin_error ctx.program_id "spl-token::Transfer: destination amount overflow")
    ok (
      write_token_account spl a (record src' { amount = src'.amount - amount })
          ∷ write_token_account spl b (record dst { amount = total })
          ∷ auth
          ∷ rest,
      "spl-token::Transfer: {src_addr} -> {dst_addr} amount={amount}",
    )

  unfoldable pub approve : List ℕ → List KeyedAccount → InvokeContext → Handled
  unfolding three_slots
  approve body accounts ctx = do
    require (leb 8 (length body))
        (builtin_error ctx.program_id "spl-token::Approve: body < 8 bytes")
    (a, delegate, owner, rest) ← three_slots accounts
    require_writable ctx a.address
    require_signer ctx owner.address
    src ← read_token_account spl a ctx
    require (src.owner == owner.address) (
        builtin_error ctx.program_id
          "spl-token::Approve: signer {owner_addr} is not the owner ({}) of {src_addr}")
    ok (
      write_token_account spl a (record src {
        delegate = some delegate.address;
        delegated_amount = le_decode (slice 0 8 body);
      })
          ∷ delegate
          ∷ owner
          ∷ rest,
      "spl-token::Approve: {src_addr} delegate={delegate_addr} amount={amount}",
    )

  unfoldable pub revoke : List KeyedAccount → InvokeContext → Handled
  unfolding two_slots
  revoke accounts ctx = do
    (a, owner, rest) ← two_slots accounts
    require_writable ctx a.address
    require_signer ctx owner.address
    src ← read_token_account spl a ctx
    require (src.owner == owner.address) (
        builtin_error ctx.program_id "spl-token::Revoke: signer {owner_addr} is not the owner ({})")
    ok (
      write_token_account spl a (record src { delegate = none; delegated_amount = 0 })
          ∷ owner
          ∷ rest,
      "spl-token::Revoke: {src_addr}",
    )
