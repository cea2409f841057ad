-- ===== src/Alt.antt =====
-- src/spl/alt_program.rs: the address-lookup-table program.
pub mod Table
pub mod Handlers
pub mod Codec
pub mod Addresses
pub mod Moves
pub mod Steps
pub mod Lives
pub mod Exit
pub mod Extends
pub mod Slots
use hopper_svm.Prelude.{ℕ, List, [], ◌∷◌, ◌==◌, leb, length, drop, if◌then◌else◌}
use hopper_svm.Bytes.Layout.{word}
use hopper_svm.Error.{err, builtin_error, ◌>>=◌, ◌>>◌, require}
use hopper_svm.Account.{KeyedAccount}
use hopper_svm.Sdk.{Sdk}
use hopper_svm.Builtin.{InvokeContext, BuiltinProgram}
use hopper_svm.System.Slots.{Handled, concluded}
use Handlers.{
  create_lookup_table, freeze_lookup_table, extend_lookup_table, deactivate_lookup_table,
  close_lookup_table,
}

abbrev pub alt_instruction_cu : ℕ
alt_instruction_cu = 750

module _ (sdk : Sdk) where
  -- the `match tag`
  unfoldable pub alt_dispatch : ℕ → List ℕ → List KeyedAccount → InvokeContext → Handled
  alt_dispatch tag body accounts ctx =
      if tag == 0
      then create_lookup_table sdk body accounts ctx
      else if tag == 1
      then freeze_lookup_table accounts ctx
      else if tag == 2
      then extend_lookup_table body accounts ctx
      else if tag == 3
      then deactivate_lookup_table accounts ctx
      else if tag == 4
      then close_lookup_table sdk accounts ctx
      else err (
          builtin_error ctx.program_id
            "alt: variant tag {other} not recognised (supported: 0/Create, 1/Freeze, 2/Extend, 3/Deactivate, 4/Close)")

  unfoldable pub alt_handle : List ℕ → List KeyedAccount → InvokeContext → Handled
  alt_handle bytes accounts ctx = do
    require (leb 4 (length bytes))
        (builtin_error ctx.program_id "alt: instruction data too short (need 4-byte tag)")
    alt_dispatch (word 0 4 bytes) (drop 4 bytes) accounts ctx

  -- `AltProgramSimulator`. No handler writes to an account or to the log before it fails.
  unfoldable pub alt_program : BuiltinProgram
  alt_program = record {
    name = "address-lookup-table";
    cost = λ _. alt_instruction_cu;
    invoke = λ bytes accounts ctx. concluded (alt_handle bytes accounts ctx) accounts;
  }
