-- ===== src/Token/Setup.antt =====
-- src/spl/token.rs: `InitializeMint` and `InitializeAccount`.
use hopper_svm.Prelude.{
  ℕ, Bool, true, false, not, ◌&&◌, Option, none, some, List, ◌∷◌, ◌==◌, leb, length, if◌then◌else◌,
}
use hopper_svm.Bytes.{le_decode, slice}
use hopper_svm.Error.{Pubkey, ok, builtin_error, ◌>>=◌, ◌>>◌, require}
use hopper_svm.Account.{KeyedAccount}
use hopper_svm.Builtin.{InvokeContext, require_writable}
use hopper_svm.System.Slots.{Handled, one_slot, three_slots}
use hopper_svm.Token.State.{
  SplToken, initialized, is_initialised, read_mint, write_mint, write_token_account,
}

-- `body.len() >= 66 && body[33] == 1`
abbrev pub freeze_authority : List ℕ → Option Pubkey
freeze_authority body =
    if leb 66 (length body) && le_decode (slice 33 1 body) == 1
    then some (le_decode (slice 34 32 body))
    else none

module _ (spl : SplToken) where
  -- `Mint::unpack(data)` gives an initialised mint.
  abbrev pub holds_mint : List ℕ → Bool
  holds_mint buf = elim (spl.unpack_mint buf) [ none ↦ false | some m ↦ m.is_initialized ]

  abbrev pub holds_account : List ℕ → Bool
  holds_account buf = elim (spl.unpack_account buf) [
    | none ↦ false
    | some t ↦ is_initialised t.state
  ]

  unfoldable pub initialize_mint : List ℕ → List KeyedAccount → InvokeContext → Handled
  unfolding one_slot
  initialize_mint body accounts ctx = do
    require (leb 34 (length body))
        (builtin_error ctx.program_id "spl-token::InitializeMint: body too short ({} bytes)")
    (a, rest) ← one_slot accounts
    require_writable ctx a.address
    require (leb spl.mint_len (length a.bytes))
        (builtin_error ctx.program_id "spl-token::InitializeMint: account data too small ({} < {})")
    require (not (holds_mint a.bytes))
        (builtin_error ctx.program_id "spl-token::InitializeMint: {mint_addr} already initialised")
    let written = write_mint spl a (record {
      mint_authority = some (le_decode (slice 1 32 body));
      supply = 0;
      decimals = le_decode (slice 0 1 body);
      is_initialized = true;
      freeze_authority = freeze_authority body;
    })
    ok (
      record written { owner = ctx.program_id } ∷ rest,
      "spl-token::InitializeMint: {mint_addr} (decimals={decimals})",
    )

  unfoldable pub initialize_account : List KeyedAccount → InvokeContext → Handled
  unfolding three_slots
  initialize_account accounts ctx = do
    (a, mint_slot, owner_slot, rest) ← three_slots accounts
    require_writable ctx a.address
    mint ← read_mint spl mint_slot ctx
    require mint.is_initialized (
        builtin_error ctx.program_id
          "spl-token::InitializeAccount: mint {mint_addr} not initialised")
    require (leb spl.account_len (length a.bytes)) (
        builtin_error ctx.program_id
          "spl-token::InitializeAccount: account data too small ({} < {})")
    require (not (holds_account a.bytes)) (
        builtin_error ctx.program_id
          "spl-token::InitializeAccount: {acct_addr} already initialised")
    let written = write_token_account spl a (record {
      mint = mint_slot.address;
      owner = owner_slot.address;
      amount = 0;
      delegate = none;
      state = initialized;
      is_native = none;
      delegated_amount = 0;
      close_authority = none;
    })
    ok (
      record written { owner = ctx.program_id } ∷ mint_slot ∷ owner_slot ∷ rest,
      "spl-token::InitializeAccount: {acct_addr} owner={owner_addr} mint={mint_addr}",
    )
