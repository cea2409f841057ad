-- ===== src/Token/Amounts.antt =====
-- src/spl/token.rs: what the instructions do to the amounts.
use hopper_svm.Prelude.{
  refl, ℕ, ◌+◌, ◌-◌, ◌≤◌, ◌≡◌, ◌⊎◌, inl, inr, true, some, String, List, ◌∷◌, arith, u64_max,
}
use hopper_svm.Bytes.{le_decode, slice}
use hopper_svm.Error.{Pubkey, ok, Result-cases}
use hopper_svm.Account.{KeyedAccount}
use hopper_svm.Builtin.{InvokeContext, require_signer}
use hopper_svm.Token.State.{
  SplToken, PackLaws, TokenAccount, initialized, account_fits, read_token_account,
  write_token_account,
}
use hopper_svm.Token.Moves.{authorise_transfer, transfer}
use hopper_svm.Token.Slots.{
  read_token_account-fits, account_fits-less, read_token_account-write_token_account,
}

-- The signer owns the account, or is its delegate and spends the amount from its allowance.
abbrev pub MaySpend : TokenAccount → TokenAccount → Pubkey → ℕ → Type 0
MaySpend t t' auth amount =
    (t.owner ≡ auth)
    ⊎ ((t.delegate ≡ some auth) × (t'.delegated_amount + amount ≡ t.delegated_amount))

authorise_transfer_inv :
    (ctx : InvokeContext) (src src' : TokenAccount) (auth : Pubkey) (amount : ℕ)
    → authorise_transfer ctx src auth amount ≡ ok src'
    → (src'.amount ≡ src.amount)
      × (src'.mint ≡ src.mint)
      × (src'.owner ≡ src.owner)
      × MaySpend src src' auth amount
unfolding authorise_transfer
authorise_transfer_inv ctx src src' auth amount h =
    (ground arith, ground arith, ground arith, ground arith)

authorise_transfer-fits :
    (ctx : InvokeContext) (src src' : TokenAccount) (auth : Pubkey) (amount : ℕ)
    → authorise_transfer ctx src auth amount ≡ ok src'
    → account_fits src ≡ true
    → account_fits src' ≡ true
unfolding authorise_transfer
authorise_transfer-fits ctx src src' auth amount h fits = ground arith

module _ (spl : SplToken) (laws : PackLaws spl) (body : List ℕ) (ctx : InvokeContext)
    (a b auth a' b' : KeyedAccount) (rest tail : List KeyedAccount) (message : String)
    (done : transfer spl body (a ∷ b ∷ auth ∷ rest) ctx ≡ ok (a' ∷ b' ∷ tail, message)) where
  -- What each step of a transfer that succeeds has found.
  pub transfer_inv :
      (src : TokenAccount) × (src' : TokenAccount) × (dst : TokenAccount) × (read_token_account spl
          a ctx
        ≡ ok src)
      × (read_token_account spl b ctx ≡ ok dst)
      × (authorise_transfer ctx src auth.address (le_decode (slice 0 8 body)) ≡ ok src')
      × (require_signer ctx auth.address ≡ ok tt)
      × (src.state ≡ initialized)
      × (dst.state ≡ initialized)
      × (src.mint ≡ dst.mint)
      × (le_decode (slice 0 8 body) ≤ src'.amount)
      × (dst.amount + le_decode (slice 0 8 body) ≤ u64_max)
      × (a'
          ≡ write_token_account spl a
              (record src' { amount = src'.amount - le_decode (slice 0 8 body) }))
      × (b'
          ≡ write_token_account spl b
              (record dst { amount = dst.amount + le_decode (slice 0 8 body) }))
      × (tail ≡ auth ∷ rest)
  unfolding transfer
  transfer_inv = elim (Result-cases (read_token_account spl a ctx)) [
    | inl (src, es) ↦ elim (Result-cases (read_token_account spl b ctx)) [
      | inl (dst, ed) ↦
          elim (Result-cases
            (authorise_transfer ctx src auth.address (le_decode (slice 0 8 body)))) [
              | inl (src', ea) ↦ (
                src,
                src',
                dst,
                es,
                ed,
                ea,
                ground arith,
                ground arith,
                ground arith,
                ground arith,
                ground arith,
                ground arith,
                ground arith,
                ground arith,
                ground arith,
              )
              | inr bad ↦ absurd (ground arith)
            ]
      | inr bad ↦ absurd (ground arith)
    ]
    | inr bad ↦ absurd (ground arith)
  ]

  -- With the documented round trip of the `Pack` of the crate: a `Transfer` that succeeds moves
  -- exactly the amount. Both slots read as token accounts of one mint before and after, each with the
  -- mint and the owner it had, the source has the amount less, the destination slot has it more, and
  -- the authority signed and owns the source, or is its delegate and pays from its allowance.
  pub transfer-amounts :
      (src : TokenAccount) × (src' : TokenAccount) × (dst : TokenAccount) × (dst' : TokenAccount)
      × (read_token_account spl a ctx ≡ ok src)
      × (read_token_account spl b ctx ≡ ok dst)
      × (read_token_account spl a' ctx ≡ ok src')
      × (read_token_account spl b' ctx ≡ ok dst')
      × (src.mint ≡ dst.mint)
      × (src'.mint ≡ src.mint)
      × (dst'.mint ≡ dst.mint)
      × (src'.owner ≡ src.owner)
      × (dst'.owner ≡ dst.owner)
      × (src'.amount + le_decode (slice 0 8 body) ≡ src.amount)
      × (dst'.amount ≡ dst.amount + le_decode (slice 0 8 body))
      × (require_signer ctx auth.address ≡ ok tt)
      × MaySpend src src' auth.address (le_decode (slice 0 8 body))
  transfer-amounts =
      let (src, mid, dst, es, ed, ea, signed, live, live', one, enough, room, wa, wb, _) =
        transfer_inv in
      let (own, fits) = read_token_account-fits spl laws ctx a src es in
      let (own', fits') = read_token_account-fits spl laws ctx b dst ed in
      let (same, mint, owner, may) =
        authorise_transfer_inv ctx src mid auth.address (le_decode (slice 0 8 body)) ea in
      let fits_mid =
        authorise_transfer-fits ctx src mid auth.address (le_decode (slice 0 8 body)) ea fits in
      let after = record mid { amount = mid.amount - le_decode (slice 0 8 body) } in
      let total = record dst { amount = dst.amount + le_decode (slice 0 8 body) } in
      (
        src,
        after,
        dst,
        total,
        es,
        ed,
        rw wa (
            read_token_account-write_token_account spl laws ctx a after own
              (account_fits-less mid (le_decode (slice 0 8 body)) fits_mid)),
        rw wb (read_token_account-write_token_account spl laws ctx b total own' (ground arith)),
        one,
        mint,
        refl,
        owner,
        refl,
        omega arith,
        refl,
        signed,
        may,
      )
