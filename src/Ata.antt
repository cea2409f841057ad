-- ===== src/Ata.antt =====
-- src/spl/ata.rs: the associated-token-account program.
pub mod Slots
pub mod Repeat
pub mod Factory
use hopper_svm.Prelude.{
  ℕ, Bool, true, false, not, ◌&&◌, ◌||◌, Option, none, some, List, [], ◌∷◌, ◌==◌, leb, replicate,
  is_empty, if◌then◌else◌,
}
use hopper_svm.Bytes.{le_encode, le_decode}
use hopper_svm.Error.{
  Pubkey, Result, ok, err, builtin_error, insufficient_funds, ◌>>=◌, ◌>>◌, require,
}
use hopper_svm.Account.{KeyedAccount}
use hopper_svm.Sdk.{Sdk}
use hopper_svm.Builtin.{InvokeContext, BuiltinProgram, require_signer, require_writable}
use hopper_svm.System.Slots.{Handled, six_slots, concluded}
use hopper_svm.System.Create.{debit}
use hopper_svm.Token.State.{SplToken, TokenAccount, initialized}

-- `ATA_PROGRAM_ID`
abbrev pub ata_program_id : Pubkey
ata_program_id = le_decode (
    0x8c ∷ 0x97 ∷ 0x25 ∷ 0x8f ∷ 0x4e ∷ 0x24 ∷ 0x89 ∷ 0xf1 ∷ 0xbb ∷ 0x3d ∷ 0x10 ∷ 0x29 ∷ 0x14 ∷ 0x8e
    ∷ 0x0d ∷ 0x83 ∷ 0x0b ∷ 0x5a ∷ 0x13 ∷ 0x99 ∷ 0xda ∷ 0xff ∷ 0x10 ∷ 0x84 ∷ 0x04 ∷ 0x8e ∷ 0x7b
    ∷ 0xd8 ∷ 0xdb ∷ 0xe9 ∷ 0xf8 ∷ 0x59 ∷ [])

abbrev pub ata_instruction_cu : ℕ
ata_instruction_cu = 25_000

abbrev pub ata_default_lamports : ℕ
ata_default_lamports = 2_039_280

-- The account that `Create` packs.
abbrev pub fresh_token : Pubkey → Pubkey → TokenAccount
fresh_token mint wallet = record {
  mint = mint;
  owner = wallet;
  amount = 0;
  delegate = none;
  state = initialized;
  is_native = none;
  delegated_amount = 0;
  close_authority = none;
}

-- The instruction data: whether the call is idempotent.
unfoldable pub idempotent_of : List ℕ → InvokeContext → Result Bool
idempotent_of [] ctx = ok false
idempotent_of (tag ∷ body) ctx =
    if tag == 0
    then ok false
    else if tag == 1
    then ok true
    else err (
        builtin_error ctx.program_id
          "spl-ata: unknown tag {other} (supported: 0/Create, 1/CreateIdempotent)")

module _ (sdk : Sdk) (spl : SplToken) where
  -- `get_associated_token_address_with_program_id`
  unfoldable pub associated_address : Pubkey → Pubkey → Pubkey → Pubkey
  associated_address wallet mint token_program =
      sdk.find_program_address
        (le_encode 32 wallet ∷ le_encode 32 token_program ∷ le_encode 32 mint ∷ []) ata_program_id

  abbrev pub already_exists : KeyedAccount → Bool
  already_exists a =
      not (a.lamports == 0) || not (is_empty a.bytes) || not (a.owner == sdk.system_id)

  -- `if let Ok(token) = TokenAccount::unpack(…)`: data that does not unpack passes.
  abbrev pub matches : List ℕ → Pubkey → Pubkey → Bool
  matches bytes mint wallet = elim (spl.unpack_account bytes) [
    | none ↦ true
    | some t ↦ t.mint == mint && t.owner == wallet
  ]

  -- The slots that an instruction uses besides the funder and the account.
  unfoldable pub check_slots :
      InvokeContext
      → KeyedAccount
      → KeyedAccount
      → KeyedAccount
      → KeyedAccount
      → KeyedAccount
      → KeyedAccount
      → Result (Unit {0})
  check_slots ctx funder a wallet mint sys program = do
    require_signer ctx funder.address
    require_writable ctx funder.address
    require_writable ctx a.address
    require (sys.address == sdk.system_id) (
        builtin_error ctx.program_id
          "spl-ata: system program slot is {system_program_addr} (expected {})")
    require (program.address == sdk.spl_token_id || program.address == sdk.spl_token_2022_id) (
        builtin_error ctx.program_id
          "spl-ata: token program slot is {token_program_addr} (expected spl-token or spl-token-2022)")
    require (a.address == associated_address wallet.address mint.address program.address) (
        builtin_error ctx.program_id
          "spl-ata: ATA address mismatch (got {ata_addr}, derived {expected} from wallet={wallet_addr} mint={mint_addr} token_program={token_program_addr})")
    require (mint.owner == program.address) (
        builtin_error ctx.program_id
          "spl-ata: mint {mint_addr} is owned by {} (expected {token_program_addr})")

  -- The branch for an account that exists.
  unfoldable pub check_existing :
      InvokeContext → Bool → KeyedAccount → Pubkey → Pubkey → Pubkey → Result (Unit {0})
  check_existing ctx idempotent a wallet mint program = do
    require idempotent (
        builtin_error ctx.program_id
          "spl-ata::Create: ATA {ata_addr} already exists (use CreateIdempotent if that's expected)")
    require (a.owner == program) (
        builtin_error ctx.program_id
          "spl-ata::CreateIdempotent: ATA {ata_addr} exists but is owned by {} (expected {token_program_addr})")
    require (matches a.bytes mint wallet) (
        builtin_error ctx.program_id
          "spl-ata::CreateIdempotent: existing ATA mismatch (mint={} expected={mint_addr}, owner={} expected={wallet_addr})")

  -- The writes to the new account.
  abbrev pub associated : KeyedAccount → Pubkey → Pubkey → Pubkey → KeyedAccount
  associated a wallet mint program = record a {
    lamports = ata_default_lamports;
    bytes = spl.pack_account (fresh_token mint wallet) (replicate spl.account_len 0);
    owner = program;
    executable = false;
  }

  -- What the checks lead to: an account that exists is left alone, another one is created.
  unfoldable pub settled :
      InvokeContext
      → Bool
      → KeyedAccount
      → KeyedAccount
      → KeyedAccount
      → KeyedAccount
      → KeyedAccount
      → KeyedAccount
      → List KeyedAccount
      → Handled
  settled ctx idempotent funder a wallet mint sys program rest =
      if already_exists a
      then (check_existing ctx idempotent a wallet.address mint.address program.address
          >> ok (
            funder ∷ a ∷ wallet ∷ mint ∷ sys ∷ program ∷ rest,
            "spl-ata::CreateIdempotent: {ata_addr} already exists, no-op",
          ))
      else (require (leb ata_default_lamports funder.lamports)
            (insufficient_funds funder.address funder.lamports ata_default_lamports)
          >> ok (
            debit funder ata_default_lamports
                ∷ associated a wallet.address mint.address program.address
                ∷ wallet
                ∷ mint
                ∷ sys
                ∷ program
                ∷ rest,
            "spl-ata::Create: {ata_addr} (wallet={wallet_addr}, mint={mint_addr}, token_program={token_program_addr})",
          ))

  unfoldable pub ata_handle : List ℕ → List KeyedAccount → InvokeContext → Handled
  unfolding six_slots
  ata_handle bytes accounts ctx = do
    idempotent ← idempotent_of bytes ctx
    (funder, a, wallet, mint, sys, program, rest) ← six_slots accounts
    check_slots ctx funder a wallet mint sys program
    settled ctx idempotent funder a wallet mint sys program rest

  -- `SplAtaSimulator`. It writes nothing before it fails.
  unfoldable pub ata_program : BuiltinProgram
  ata_program = record {
    name = "spl-associated-token-account (simulated)";
    cost = λ _. ata_instruction_cu;
    invoke = λ bytes accounts ctx. concluded (ata_handle bytes accounts ctx) accounts;
  }
