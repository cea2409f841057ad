-- ===== src/Token/Supply.antt =====
-- src/spl/token.rs: `MintTo`, `Burn` and `CloseAccount`.
use hopper_svm.Prelude.{
  ℕ, ◌-◌, Bool, false, ◌||◌, Option, none, some, List, ◌∷◌, ◌==◌, leb, length, replicate, sat_add,
  checked_add, if◌then◌else◌,
}
use hopper_svm.Bytes.{le_decode, slice}
use hopper_svm.Error.{
  Pubkey, HopperSvmError, Result, ok, err, builtin_error, insufficient_funds, ◌>>=◌, ◌>>◌, require,
}
use hopper_svm.Account.{KeyedAccount}
use hopper_svm.Sdk.{Sdk}
use hopper_svm.Builtin.{InvokeContext, require_signer, require_writable}
use hopper_svm.System.Slots.{Handled, three_slots}
use hopper_svm.Token.State.{
  SplToken, TokenAccount, read_mint, write_mint, read_token_account, write_token_account,
}
use hopper_svm.Token.Moves.{spend, added}

-- `Option::<Pubkey>::from(mint.mint_authority).ok_or_else(…)?`
unfoldable pub authority_of : Option Pubkey → HopperSvmError → Result Pubkey
authority_of none e = err e
authority_of (some k) e = ok k

-- The authority check of `Burn`.
unfoldable pub authorise_burn : InvokeContext → TokenAccount → Pubkey → ℕ → Result TokenAccount
authorise_burn ctx src auth amount = if src.owner == auth then ok src else elim src.delegate [
  | some delegate ↦
      if delegate == auth
      then (if leb amount src.delegated_amount
          then ok (spend src amount)
          else err (
              builtin_error ctx.program_id
                "spl-token::Burn: delegated amount {} < requested {amount}"))
      else err (
          builtin_error ctx.program_id
            "spl-token::Burn: signer {auth_addr} is neither owner nor delegate")
  | none ↦ err (
      builtin_error ctx.program_id
        "spl-token::Burn: signer {auth_addr} is neither owner nor delegate")
]

abbrev pub is_some_key : Option Pubkey → Pubkey → Bool
is_some_key none k = false
is_some_key (some j) k = j == k

module _ (spl : SplToken) where
  unfoldable pub mint_to : List ℕ → List KeyedAccount → InvokeContext → Handled
  unfolding three_slots added authority_of
  mint_to body accounts ctx = do
    require (leb 8 (length body)) (builtin_error ctx.program_id "spl-token::MintTo: body < 8 bytes")
    let amount = le_decode (slice 0 8 body)
    (a, b, auth, rest) ← three_slots accounts
    require_writable ctx a.address
    require_writable ctx b.address
    require_signer ctx auth.address
    mint ← read_mint spl a ctx
    dst ← read_token_account spl b ctx
    require (dst.mint == a.address) (
        builtin_error ctx.program_id
          "spl-token::MintTo: destination mint mismatch (dst.mint={} expected={mint_addr})")
    authority ←
        authority_of mint.mint_authority
          (builtin_error ctx.program_id "spl-token::MintTo: mint {mint_addr} has no mint authority")
    require (authority == auth.address) (
        builtin_error ctx.program_id
          "spl-token::MintTo: signer {auth_addr} is not the mint authority ({mint_authority})")
    supply ←
        added (checked_add mint.supply amount)
          (builtin_error ctx.program_id "spl-token::MintTo: supply overflow")
    total ←
        added (checked_add dst.amount amount)
          (builtin_error ctx.program_id "spl-token::MintTo: destination amount overflow")
    ok (
      write_mint spl a (record mint { supply = supply })
          ∷ write_token_account spl b (record dst { amount = total })
          ∷ auth
          ∷ rest,
      "spl-token::MintTo: {mint_addr} -> {dst_addr} amount={amount}",
    )

  unfoldable pub burn : List ℕ → List KeyedAccount → InvokeContext → Handled
  unfolding three_slots
  burn body accounts ctx = do
    require (leb 8 (length body)) (builtin_error ctx.program_id "spl-token::Burn: body < 8 bytes")
    let amount = le_decode (slice 0 8 body)
    (a, b, auth, rest) ← three_slots accounts
    require_writable ctx a.address
    require_writable ctx b.address
    require_signer ctx auth.address
    src ← read_token_account spl a ctx
    mint ← read_mint spl b ctx
    require (src.mint == b.address) (
        builtin_error ctx.program_id
          "spl-token::Burn: source mint mismatch (src.mint={} expected={mint_addr})")
    src' ← authorise_burn ctx src auth.address amount
    require (leb amount src'.amount) (insufficient_funds a.address src'.amount amount)
    ok (
      write_token_account spl a (record src' { amount = src'.amount - amount })
          ∷ write_mint spl b (record mint { supply = mint.supply - amount })
          ∷ auth
          ∷ rest,
      "spl-token::Burn: {src_addr} amount={amount}",
    )

  unfoldable pub close_account : Sdk → List KeyedAccount → InvokeContext → Handled
  unfolding three_slots
  close_account sdk accounts ctx = do
    (a, b, auth, rest) ← three_slots accounts
    require_writable ctx a.address
    require_writable ctx b.address
    require_signer ctx auth.address
    token ← read_token_account spl a ctx
    require (token.amount == 0)
        (builtin_error ctx.program_id "spl-token::CloseAccount: {acct_addr} non-empty (amount={})")
    require (token.owner == auth.address || is_some_key token.close_authority auth.address) (
        builtin_error ctx.program_id
          "spl-token::CloseAccount: signer {auth_addr} is neither owner ({}) nor close_authority")
    ok (
      record a { lamports = 0; bytes = replicate spl.account_len 0; owner = sdk.system_id }
          ∷ record b { lamports = sat_add b.lamports a.lamports }
          ∷ auth
          ∷ rest,
      "spl-token::CloseAccount: {acct_addr} -> {dst_addr} ({lamports} lamports)",
    )
