-- ===== src/Token/Issue.antt =====
-- src/spl/token.rs: what `MintTo` and `Burn` do to the supply and to the amount.
use hopper_svm.Prelude.{
  ℕ, ◌+◌, ◌-◌, ◌≤◌, ◌≡◌, inl, inr, refl, true, some, String, List, ◌∷◌, arith, u64_max,
}
use hopper_svm.Bytes.{le_decode, slice}
use hopper_svm.Error.{Pubkey, ok, Result-cases}
use hopper_svm.Account.{KeyedAccount}
use hopper_svm.Builtin.{InvokeContext, require_signer}
use hopper_svm.Token.State.{
  SplToken, PackLaws, TokenAccount, Mint, account_fits, read_token_account, write_token_account,
  read_mint, write_mint,
}
use hopper_svm.Token.Supply.{mint_to, burn, authorise_burn}
use hopper_svm.Token.Slots.{
  read_token_account-fits, read_token_account-write_token_account, read_mint-fits,
  read_mint-write_mint, account_fits-less, mint_fits-less,
}
use hopper_svm.Token.Amounts.{MaySpend}

authorise_burn_inv :
    (ctx : InvokeContext) (src src' : TokenAccount) (auth : Pubkey) (amount : ℕ)
    → authorise_burn ctx src auth amount ≡ ok src'
    → (src'.amount ≡ src.amount)
      × MaySpend src src' auth amount
      × (account_fits src ≡ true → account_fits src' ≡ true)
unfolding authorise_burn
authorise_burn_inv ctx src src' auth amount h = (ground arith, ground arith, λ fits. ground arith)

module _ (spl : SplToken) (laws : PackLaws spl) (body : List ℕ) (ctx : InvokeContext)
    (a b auth a' b' : KeyedAccount) (rest tail : List KeyedAccount) (message : String) where
  module _ (done : mint_to spl body (a ∷ b ∷ auth ∷ rest) ctx ≡ ok (a' ∷ b' ∷ tail, message)) where
    mint_to_inv :
        (mint : Mint) × (dst : TokenAccount) × (read_mint spl a ctx ≡ ok mint)
        × (read_token_account spl b ctx ≡ ok dst)
        × (dst.mint ≡ a.address)
        × (mint.mint_authority ≡ some auth.address)
        × (require_signer ctx auth.address ≡ ok tt)
        × (mint.supply + le_decode (slice 0 8 body) ≤ u64_max)
        × (dst.amount + le_decode (slice 0 8 body) ≤ u64_max)
        × (a'
            ≡ write_mint spl a (record mint { supply = mint.supply + le_decode (slice 0 8 body) }))
        × (b'
            ≡ write_token_account spl b
                (record dst { amount = dst.amount + le_decode (slice 0 8 body) }))
    unfolding mint_to
    mint_to_inv = elim (Result-cases (read_mint spl a ctx)) [
      | inl (mint, em) ↦ elim (Result-cases (read_token_account spl b ctx)) [
        | inl (dst, ed) ↦ (
          mint,
          dst,
          em,
          ed,
          ground arith,
          ground arith,
          ground arith,
          ground arith,
          ground arith,
          ground arith,
          ground arith,
        )
        | inr bad ↦ absurd (ground arith)
      ]
      | inr bad ↦ absurd (ground arith)
    ]

    -- With the documented round trip of the `Pack` of the crate: a `MintTo` that succeeds is signed
    -- by the mint authority, its destination is a token account of the mint, and the supply and the
    -- amount of the destination, read back from the slots, both grow by exactly the amount.
    pub mint_to-amounts :
        (mint : Mint) × (mint' : Mint) × (dst : TokenAccount) × (dst' : TokenAccount) × (read_mint
            spl a ctx
          ≡ ok mint)
        × (read_mint spl a' ctx ≡ ok mint')
        × (read_token_account spl b ctx ≡ ok dst)
        × (read_token_account spl b' ctx ≡ ok dst')
        × (mint.mint_authority ≡ some auth.address)
        × (require_signer ctx auth.address ≡ ok tt)
        × (dst.mint ≡ a.address)
        × (mint'.supply ≡ mint.supply + le_decode (slice 0 8 body))
        × (dst'.amount ≡ dst.amount + le_decode (slice 0 8 body))
    mint_to-amounts =
        let (mint, dst, em, ed, same, authority, signed, room, room', wa, wb) = mint_to_inv in
        let (own, fits) = read_mint-fits spl laws ctx a mint em in
        let (own', fits') = read_token_account-fits spl laws ctx b dst ed in
        let more = record mint { supply = mint.supply + le_decode (slice 0 8 body) } in
        let total = record dst { amount = dst.amount + le_decode (slice 0 8 body) } in
        (
          mint,
          more,
          dst,
          total,
          em,
          rw wa (read_mint-write_mint spl laws ctx a more own (ground arith)),
          ed,
          rw wb (read_token_account-write_token_account spl laws ctx b total own' (ground arith)),
          authority,
          signed,
          same,
          refl,
          refl,
        )

  module _ (done : burn spl body (a ∷ b ∷ auth ∷ rest) ctx ≡ ok (a' ∷ b' ∷ tail, message)) where
    burn_inv :
        (src : TokenAccount) × (src' : TokenAccount) × (mint : Mint) × (read_token_account spl a ctx
          ≡ ok src)
        × (read_mint spl b ctx ≡ ok mint)
        × (authorise_burn ctx src auth.address (le_decode (slice 0 8 body)) ≡ ok src')
        × (src.mint ≡ b.address)
        × (require_signer ctx auth.address ≡ ok tt)
        × (le_decode (slice 0 8 body) ≤ src'.amount)
        × (a'
            ≡ write_token_account spl a
                (record src' { amount = src'.amount - le_decode (slice 0 8 body) }))
        × (b'
            ≡ write_mint spl b (record mint { supply = mint.supply - le_decode (slice 0 8 body) }))
    unfolding burn
    burn_inv = elim (Result-cases (read_token_account spl a ctx)) [
      | inl (src, es) ↦ elim (Result-cases (read_mint spl b ctx)) [
        | inl (mint, em) ↦
            elim (Result-cases (authorise_burn ctx src auth.address (le_decode (slice 0 8 body)))) [
              | inl (src', ea) ↦ (
                src,
                src',
                mint,
                es,
                em,
                ea,
                ground arith,
                ground arith,
                ground arith,
                ground arith,
                ground arith,
              )
              | inr bad ↦ absurd (ground arith)
            ]
        | inr bad ↦ absurd (ground arith)
      ]
      | inr bad ↦ absurd (ground arith)
    ]

    -- With the documented round trip of the `Pack` of the crate: a `Burn` that succeeds is signed by
    -- the owner of the source or by its delegate, which pays from its allowance; the amount of the
    -- source, read back from its slot, falls by exactly the amount, and the supply of the mint by
    -- the amount or to zero.
    pub burn-amounts :
        (src : TokenAccount) × (src' : TokenAccount) × (mint : Mint) × (mint' : Mint)
        × (read_token_account spl a ctx ≡ ok src)
        × (read_token_account spl a' ctx ≡ ok src')
        × (read_mint spl b ctx ≡ ok mint)
        × (read_mint spl b' ctx ≡ ok mint')
        × (src.mint ≡ b.address)
        × (require_signer ctx auth.address ≡ ok tt)
        × MaySpend src src' auth.address (le_decode (slice 0 8 body))
        × (src'.amount + le_decode (slice 0 8 body) ≡ src.amount)
        × (mint'.supply ≡ mint.supply - le_decode (slice 0 8 body))
    burn-amounts =
        let (src, mid, mint, es, em, ea, same, signed, enough, wa, wb) = burn_inv in
        let (own, fits) = read_token_account-fits spl laws ctx a src es in
        let (own', fits') = read_mint-fits spl laws ctx b mint em in
        let (kept, may, fits_mid) =
          authorise_burn_inv ctx src mid auth.address (le_decode (slice 0 8 body)) ea in
        let still = fits_mid fits in
        let after = record mid { amount = mid.amount - le_decode (slice 0 8 body) } in
        let less = record mint { supply = mint.supply - le_decode (slice 0 8 body) } in
        (
          src,
          after,
          mint,
          less,
          es,
          rw wa (
              read_token_account-write_token_account spl laws ctx a after own
                (account_fits-less mid (le_decode (slice 0 8 body)) still)),
          em,
          rw wb (
              read_mint-write_mint spl laws ctx b less own'
                (mint_fits-less mint (le_decode (slice 0 8 body)) fits')),
          same,
          signed,
          may,
          omega arith,
          refl,
        )
