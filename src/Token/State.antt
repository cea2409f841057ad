-- ===== src/Token/State.antt =====
-- src/spl/token.rs: reads and writes of mints and token accounts. The records and their `Pack` are
-- those of the `spl_token` crate: the records have the fields that the source names, and `Pack` is a
-- parameter.
use hopper_svm.Prelude.{
  ℕ, ◌^◌, ◌≡◌, Bool, true, false, ◌&&◌, Option, none, some, List, ◌==◌, ltb, leb, length, replicate,
  u64_max, if◌then◌else◌,
}
use hopper_svm.Error.{Pubkey, Result, ok, err, builtin_error}
use hopper_svm.Account.{KeyedAccount}
use hopper_svm.Builtin.{InvokeContext}

-- `spl_token::state::AccountState`
pub data AccountState : Type 0 where
  uninitialized initialized frozen : AccountState

pub record Mint : Type 0 where
  pub mint_authority : Option Pubkey
  pub supply : ℕ
  pub decimals : ℕ
  pub is_initialized : Bool
  pub freeze_authority : Option Pubkey

pub record TokenAccount : Type 0 where
  pub mint : Pubkey
  pub owner : Pubkey
  pub amount : ℕ
  pub delegate : Option Pubkey
  pub state : AccountState
  pub is_native : Option ℕ
  pub delegated_amount : ℕ
  pub close_authority : Option Pubkey

-- `Mint::LEN`, `Mint::unpack`, `Mint::pack` into a buffer, and the same of `Account`.
pub record SplToken : Type 0 where
  pub mint_len : ℕ
  pub unpack_mint : List ℕ → Option Mint
  pub pack_mint : Mint → List ℕ → List ℕ
  pub account_len : ℕ
  pub unpack_account : List ℕ → Option TokenAccount
  pub pack_account : TokenAccount → List ℕ → List ℕ

abbrev pub is_key : Pubkey → Bool
is_key k = ltb k (2 ^ 256)

abbrev pub is_optional_key : Option Pubkey → Bool
is_optional_key none = true
is_optional_key (some k) = is_key k

abbrev pub is_optional_word : Option ℕ → Bool
is_optional_word none = true
is_optional_word (some n) = leb n u64_max

-- `IsInitialized` of an account: every state but `Uninitialized`.
abbrev pub is_set : AccountState → Bool
is_set uninitialized = false
is_set initialized = true
is_set frozen = true

-- The fields have the ranges of their Rust types, and the account is initialised.
abbrev pub account_fits : TokenAccount → Bool
account_fits t =
    is_key t.mint
    && is_key t.owner
    && leb t.amount u64_max
    && is_optional_key t.delegate
    && is_optional_word t.is_native
    && leb t.delegated_amount u64_max
    && is_optional_key t.close_authority
    && is_set t.state

abbrev pub mint_fits : Mint → Bool
mint_fits m =
    is_optional_key m.mint_authority
    && leb m.supply u64_max
    && ltb m.decimals 256
    && is_optional_key m.freeze_authority
    && m.is_initialized

-- What the crate documents of `Pack`: what unpacks is in range and initialised, and such a value that
-- was packed into a buffer of its size unpacks to itself.
pub record PackLaws (spl : SplToken) : Type 0 where
  pub unpack_account_fits :
      (buf : List ℕ) (t : TokenAccount) → spl.unpack_account buf ≡ some t → account_fits t ≡ true
  pub unpack_mint_fits :
      (buf : List ℕ) (m : Mint) → spl.unpack_mint buf ≡ some m → mint_fits m ≡ true
  pub unpack_pack_account :
      (t : TokenAccount) (buf : List ℕ)
      → account_fits t ≡ true
      → length buf ≡ spl.account_len
      → spl.unpack_account (spl.pack_account t buf) ≡ some t
  pub unpack_pack_mint :
      (m : Mint) (buf : List ℕ)
      → mint_fits m ≡ true
      → length buf ≡ spl.mint_len
      → spl.unpack_mint (spl.pack_mint m buf) ≡ some m

abbrev pub is_initialised : AccountState → Bool
is_initialised initialized = true
is_initialised uninitialized = false
is_initialised frozen = false

module _ (spl : SplToken) where
  unfoldable pub read_mint : KeyedAccount → InvokeContext → Result Mint
  read_mint a ctx =
      if a.owner == ctx.program_id
      then elim (spl.unpack_mint a.bytes) [
        | none ↦ err (builtin_error ctx.program_id "spl-token: Mint::unpack({}): {err:?}")
        | some m ↦ ok m
      ]
      else err (
          builtin_error ctx.program_id
            "spl-token: mint account {} is owned by {} (expected token program)")

  unfoldable pub read_token_account : KeyedAccount → InvokeContext → Result TokenAccount
  read_token_account a ctx =
      if a.owner == ctx.program_id
      then elim (spl.unpack_account a.bytes) [
        | none ↦ err (builtin_error ctx.program_id "spl-token: TokenAccount::unpack({}): {err:?}")
        | some t ↦ ok t
      ]
      else err (
          builtin_error ctx.program_id
            "spl-token: token account {} is owned by {} (expected token program)")

  -- The buffer that is packed into: a fresh one where the size differs.
  abbrev pub sized : ℕ → List ℕ → List ℕ
  sized n buf = if length buf == n then buf else replicate n 0

  unfoldable pub write_mint : KeyedAccount → Mint → KeyedAccount
  write_mint a m = record a { bytes = spl.pack_mint m (sized spl.mint_len a.bytes) }

  unfoldable pub write_token_account : KeyedAccount → TokenAccount → KeyedAccount
  write_token_account a t = record a { bytes = spl.pack_account t (sized spl.account_len a.bytes) }
