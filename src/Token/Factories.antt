-- ===== src/Token/Factories.antt =====
-- src/token.rs: accounts of the system program and of a token program, made without running one.
use hopper_svm.Prelude.{ℕ, false, [], replicate}
use hopper_svm.Error.{Pubkey}
use hopper_svm.Account.{KeyedAccount, new_account}
use hopper_svm.Sdk.{Sdk}
use hopper_svm.Token.State.{
  SplToken, TokenAccount, Mint, AccountState, uninitialized, initialized, frozen,
}
use hopper_svm.Ata.{associated_address, fresh_token}

abbrev pub default_test_lamports : ℕ
default_test_lamports = 1_000_000_000

-- `if matches!(copy.state, Uninitialized) { copy.state = Initialized }`
abbrev pub set_up : AccountState → AccountState
set_up uninitialized = initialized
set_up initialized = initialized
set_up frozen = frozen

module _ (sdk : Sdk) where
  unfoldable pub create_keyed_system_account : Pubkey → ℕ → KeyedAccount
  create_keyed_system_account address lamports = new_account address lamports sdk.system_id [] false

  module _ (spl : SplToken) where
    unfoldable pub create_keyed_mint_account_with_program : Pubkey → Mint → Pubkey → KeyedAccount
    create_keyed_mint_account_with_program address mint token_program =
        new_account address default_test_lamports token_program
          (spl.pack_mint mint (replicate spl.mint_len 0)) false

    unfoldable pub create_keyed_mint_account : Pubkey → Mint → KeyedAccount
    create_keyed_mint_account address mint =
        create_keyed_mint_account_with_program address mint sdk.spl_token_id

    unfoldable pub create_keyed_token_account_with_program :
        Pubkey → TokenAccount → Pubkey → KeyedAccount
    create_keyed_token_account_with_program address token token_program =
        new_account address default_test_lamports token_program
          (spl.pack_account (record token { state = set_up token.state })
            (replicate spl.account_len 0))
          false

    unfoldable pub create_keyed_token_account : Pubkey → TokenAccount → KeyedAccount
    create_keyed_token_account address token =
        create_keyed_token_account_with_program address token sdk.spl_token_id

    unfoldable pub create_keyed_associated_token_account_with_program :
        Pubkey → Pubkey → ℕ → Pubkey → KeyedAccount
    create_keyed_associated_token_account_with_program wallet mint amount token_program =
        create_keyed_token_account_with_program
          (associated_address sdk spl wallet mint token_program)
          (record (fresh_token mint wallet) { amount = amount }) token_program

    unfoldable pub create_keyed_associated_token_account : Pubkey → Pubkey → ℕ → KeyedAccount
    create_keyed_associated_token_account wallet mint amount =
        create_keyed_associated_token_account_with_program wallet mint amount sdk.spl_token_id
