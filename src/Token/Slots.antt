-- ===== src/Token/Slots.antt =====
-- src/spl/token.rs: a slot that was written reads as what was written.
use hopper_svm.Prelude.{ℕ, ◌-◌, ◌≡◌, true, List, arith, length, length-replicate}
use hopper_svm.Error.{ok}
use hopper_svm.Account.{KeyedAccount}
use hopper_svm.Builtin.{InvokeContext}
use hopper_svm.Token.State.{
  SplToken, PackLaws, TokenAccount, Mint, account_fits, mint_fits, sized, read_token_account,
  write_token_account, read_mint, write_mint,
}

length-sized : (spl : SplToken) (n : ℕ) (buf : List ℕ) → length (sized spl n buf) ≡ n
length-sized spl n buf = ground (arith, length-replicate {A = ℕ} n 0)

-- A smaller amount, or a smaller supply, stays in range.
pub account_fits-less :
    (t : TokenAccount) (n : ℕ)
    → account_fits t ≡ true
    → account_fits (record t { amount = t.amount - n }) ≡ true
account_fits-less t n fits = ground arith

pub mint_fits-less :
    (m : Mint) (n : ℕ) → mint_fits m ≡ true → mint_fits (record m { supply = m.supply - n }) ≡ true
mint_fits-less m n fits = ground arith

module _ (spl : SplToken) (laws : PackLaws spl) (ctx : InvokeContext) (a : KeyedAccount) where
  -- A slot of the token program that reads as a token account holds one in range.
  pub read_token_account-fits :
      (t : TokenAccount)
      → read_token_account spl a ctx ≡ ok t
      → (a.owner ≡ ctx.program_id) × (account_fits t ≡ true)
  unfolding read_token_account
  read_token_account-fits t h = ground (arith, laws.unpack_account_fits a.bytes t)

  pub read_mint-fits :
      (m : Mint) → read_mint spl a ctx ≡ ok m → (a.owner ≡ ctx.program_id) × (mint_fits m ≡ true)
  unfolding read_mint
  read_mint-fits m h = ground (arith, laws.unpack_mint_fits a.bytes m)

  pub read_token_account-write_token_account :
      (t : TokenAccount)
      → a.owner ≡ ctx.program_id
      → account_fits t ≡ true
      → read_token_account spl (write_token_account spl a t) ctx ≡ ok t
  unfolding read_token_account write_token_account
  read_token_account-write_token_account t own fits = ground (
    arith,
    laws.unpack_pack_account t (sized spl spl.account_len a.bytes) fits
        (length-sized spl spl.account_len a.bytes),
  )

  pub read_mint-write_mint :
      (m : Mint)
      → a.owner ≡ ctx.program_id
      → mint_fits m ≡ true
      → read_mint spl (write_mint spl a m) ctx ≡ ok m
  unfolding read_mint write_mint
  read_mint-write_mint m own fits = ground (
    arith,
    laws.unpack_pack_mint m (sized spl spl.mint_len a.bytes) fits
        (length-sized spl spl.mint_len a.bytes),
  )
