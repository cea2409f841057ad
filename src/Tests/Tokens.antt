-- ===== src/Tests/Tokens.antt =====
-- The theorems about the token program at concrete inputs, with the codec of the tests.
use hopper_svm.Prelude.{ℕ, ◌+◌, ◌-◌, ◌≡◌, refl, true, none, some, [], ◌∷◌, arith}
use hopper_svm.Bytes.{le_encode}
use hopper_svm.Error.{ok}
use hopper_svm.Account.{KeyedAccount, find_account}
use hopper_svm.Engine.{merge_accounts}
use hopper_svm.Token.State.{
  TokenAccount, Mint, initialized, read_token_account, write_token_account, read_mint, write_mint,
}
use hopper_svm.Builtin.{require_signer, require_writable}
use hopper_svm.Token.Moves.{transfer, authorise_transfer}
use hopper_svm.Token.Supply.{mint_to, burn, authorise_burn}
use hopper_svm.Token.Amounts.{MaySpend, transfer-amounts}
use hopper_svm.Token.Issue.{mint_to-amounts, burn-amounts}
use hopper_svm.Token.Aliasing.{transfer-merge_accounts}
use hopper_svm.Tests.Fixtures.{alice, account, context}
use hopper_svm.Tests.Codec.{pack_account, pack_mint, spl, laws}

abbrev pub token : ℕ → TokenAccount
token amount = record {
  mint = 2;
  owner = 1;
  amount = amount;
  delegate = none;
  state = initialized;
  is_native = none;
  delegated_amount = 0;
  close_authority = none;
}

abbrev pub coin : ℕ → Mint
coin supply = record {
  mint_authority = some 1;
  supply = supply;
  decimals = 6;
  is_initialized = true;
  freeze_authority = none;
}

abbrev pub held : ℕ → KeyedAccount
held amount = account 3 1_000 (pack_account (token amount) []) 0

abbrev pub other : ℕ → KeyedAccount
other amount = account 2 1_000 (pack_account (token amount) []) 0

abbrev pub minted : ℕ → KeyedAccount
minted supply = account 2 1_000 (pack_mint (coin supply) []) 0

transferred :
    transfer spl (le_encode 8 5) (held 20 ∷ other 1 ∷ alice ∷ []) (context 0)
    ≡ ok (
      held 15 ∷ other 6 ∷ alice ∷ [],
      "spl-token::Transfer: {src_addr} -> {dst_addr} amount={amount}",
    )
unfolding transfer authorise_transfer read_token_account write_token_account require_writable
    require_signer
transferred = refl

transfer-amounts_example :
    (src : TokenAccount) × (src' : TokenAccount) × (dst : TokenAccount) × (dst' : TokenAccount)
    × (read_token_account spl (held 20) (context 0) ≡ ok src)
    × (read_token_account spl (other 1) (context 0) ≡ ok dst)
    × (read_token_account spl (held 15) (context 0) ≡ ok src')
    × (read_token_account spl (other 6) (context 0) ≡ ok dst')
    × (src.mint ≡ dst.mint)
    × (src'.mint ≡ src.mint)
    × (dst'.mint ≡ dst.mint)
    × (src'.owner ≡ src.owner)
    × (dst'.owner ≡ dst.owner)
    × (src'.amount + 5 ≡ src.amount)
    × (dst'.amount ≡ dst.amount + 5)
    × (require_signer (context 0) 1 ≡ ok tt)
    × MaySpend src src' 1 5
transfer-amounts_example =
    transfer-amounts spl laws (le_encode 8 5) (context 0) (held 20) (other 1) alice (held 15)
      (other 6) [] (alice ∷ []) "spl-token::Transfer: {src_addr} -> {dst_addr} amount={amount}"
      transferred

minted_more :
    mint_to spl (le_encode 8 5) (minted 100 ∷ held 20 ∷ alice ∷ []) (context 0)
    ≡ ok (
      minted 105 ∷ held 25 ∷ alice ∷ [],
      "spl-token::MintTo: {mint_addr} -> {dst_addr} amount={amount}",
    )
unfolding mint_to read_mint write_mint read_token_account write_token_account require_writable
    require_signer
minted_more = refl

mint_to-amounts_example :
    (mint : Mint) × (mint' : Mint) × (dst : TokenAccount) × (dst' : TokenAccount) × (read_mint spl
        (minted 100)
        (context 0)
      ≡ ok mint)
    × (read_mint spl (minted 105) (context 0) ≡ ok mint')
    × (read_token_account spl (held 20) (context 0) ≡ ok dst)
    × (read_token_account spl (held 25) (context 0) ≡ ok dst')
    × (mint.mint_authority ≡ some 1)
    × (require_signer (context 0) 1 ≡ ok tt)
    × (dst.mint ≡ 2)
    × (mint'.supply ≡ mint.supply + 5)
    × (dst'.amount ≡ dst.amount + 5)
mint_to-amounts_example =
    mint_to-amounts spl laws (le_encode 8 5) (context 0) (minted 100) (held 20) alice (minted 105)
      (held 25) [] (alice ∷ []) "spl-token::MintTo: {mint_addr} -> {dst_addr} amount={amount}"
      minted_more

burned :
    burn spl (le_encode 8 5) (held 20 ∷ minted 100 ∷ alice ∷ []) (context 0)
    ≡ ok (held 15 ∷ minted 95 ∷ alice ∷ [], "spl-token::Burn: {src_addr} amount={amount}")
unfolding burn authorise_burn read_mint write_mint read_token_account write_token_account
    require_writable require_signer
burned = refl

burn-amounts_example :
    (src : TokenAccount) × (src' : TokenAccount) × (mint : Mint) × (mint' : Mint)
    × (read_token_account spl (held 20) (context 0) ≡ ok src)
    × (read_token_account spl (held 15) (context 0) ≡ ok src')
    × (read_mint spl (minted 100) (context 0) ≡ ok mint)
    × (read_mint spl (minted 95) (context 0) ≡ ok mint')
    × (src.mint ≡ 2)
    × (require_signer (context 0) 1 ≡ ok tt)
    × MaySpend src src' 1 5
    × (src'.amount + 5 ≡ src.amount)
    × (mint'.supply ≡ mint.supply - 5)
burn-amounts_example =
    burn-amounts spl laws (le_encode 8 5) (context 0) (held 20) (minted 100) alice (held 15)
      (minted 95) [] (alice ∷ []) "spl-token::Burn: {src_addr} amount={amount}" burned

self_transferred :
    transfer spl (le_encode 8 5) (held 20 ∷ held 20 ∷ alice ∷ []) (context 0)
    ≡ ok (
      held 15 ∷ held 25 ∷ alice ∷ [],
      "spl-token::Transfer: {src_addr} -> {dst_addr} amount={amount}",
    )
unfolding transfer authorise_transfer read_token_account write_token_account require_writable
    require_signer
self_transferred = refl

transfer-merge_accounts_example :
    (before : TokenAccount) × (after : TokenAccount) × (w : KeyedAccount) × (read_token_account spl
        (held 20)
        (context 0)
      ≡ ok before)
    × (find_account 3 (merge_accounts (held 20 ∷ alice ∷ []) (held 15 ∷ held 25 ∷ alice ∷ []))
        ≡ some w)
    × (read_token_account spl w (context 0) ≡ ok after)
    × (after.amount ≡ before.amount + 5)
transfer-merge_accounts_example =
    transfer-merge_accounts spl laws (le_encode 8 5) (context 0) (held 20) alice (held 15) (held 25)
      (held 20 ∷ alice ∷ []) (alice ∷ [])
      "spl-token::Transfer: {src_addr} -> {dst_addr} amount={amount}" self_transferred (omega arith)
