-- ===== src/Token2022.antt =====
-- src/spl/token_2022.rs: the Token-2022 simulator, which hands the common tags to the token simulator.
pub mod Common
use hopper_svm.Prelude.{ℕ, Bool, ◌&&◌, ◌||◌, List, [], ◌∷◌, ◌==◌, leb, if◌then◌else◌}
use hopper_svm.Error.{HopperSvmError, err, builtin_error}
use hopper_svm.Account.{KeyedAccount}
use hopper_svm.Sdk.{Sdk}
use hopper_svm.Builtin.{InvokeContext, Session, Invocation, BuiltinProgram}
use hopper_svm.Token.{token_invoke}
use hopper_svm.Token.State.{SplToken}

abbrev pub token_2022_instruction_cu : ℕ
token_2022_instruction_cu = 4_000

-- The tags `0 | 1 | 3 | 4 | 5 | 7 | 8 | 9`.
abbrev pub is_common : ℕ → Bool
is_common tag =
    tag == 0 || tag == 1 || tag == 3 || tag == 4 || tag == 5 || tag == 7 || tag == 8 || tag == 9

-- The tags `2 | 6 | 10..=21`.
abbrev pub is_legacy : ℕ → Bool
is_legacy tag = tag == 2 || tag == 6 || (leb 10 tag && leb tag 21)

-- The arms that fail.
abbrev pub refusal : ℕ → InvokeContext → HopperSvmError
refusal tag ctx =
    if is_legacy tag
    then builtin_error ctx.program_id
        "spl-token-2022: legacy tag {tag} not yet supported by the bundled simulator (supported tags: 0/InitializeMint, 1/InitializeAccount, 3/Transfer, 4/Approve, 5/Revoke, 7/MintTo, 8/Burn, 9/CloseAccount). For unsupported instructions, register the real spl-token-2022 .so via `HopperSvm::add_program(&id, \"spl_token_2022\")`."
    else if leb 22 tag && leb tag 99
    then builtin_error ctx.program_id
        "spl-token-2022: extension tag {tag} not supported by the Phase-1 simulator. Token-2022 extensions (TransferFeeConfig, MintCloseAuthority, ConfidentialTransfer, NonTransferable, TransferHook, MetadataPointer, etc.) land in a follow-up. Register the real spl-token-2022 .so via `HopperSvm::add_program(&id, \"spl_token_2022\")` to test extension flows today."
    else builtin_error ctx.program_id "spl-token-2022: unknown instruction tag {other}"

module _ (sdk : Sdk) (spl : SplToken) where
  unfoldable pub token_2022_invoke :
      List ℕ → List KeyedAccount → InvokeContext → Session → Invocation
  token_2022_invoke [] accounts ctx s = record {
    result = err (builtin_error ctx.program_id "spl-token-2022: empty instruction data");
    accounts = accounts;
    session = s;
  }
  token_2022_invoke (tag ∷ body) accounts ctx s =
      if is_common tag
      then token_invoke sdk spl (tag ∷ body) accounts ctx s
      else record { result = err (refusal tag ctx); accounts = accounts; session = s }

  -- `SplToken2022Simulator`
  unfoldable pub token_2022_program : BuiltinProgram
  token_2022_program = record {
    name = "spl-token-2022 (simulated)";
    cost = λ _. token_2022_instruction_cu;
    invoke = token_2022_invoke;
  }
