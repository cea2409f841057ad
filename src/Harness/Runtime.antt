-- ===== src/Harness/Runtime.antt =====
-- src/lib.rs: construction and configuration of the harness, in the default build.
use hopper_svm.Prelude.{ℕ, none, []}
use hopper_svm.Error.{Pubkey}
use hopper_svm.Map
use hopper_svm.Sdk.{Sdk}
use hopper_svm.Compute
use hopper_svm.Sysvar.{Clock, Rent, EpochSchedule, EpochRewards, Sysvars, default_sysvars}
use hopper_svm.Builtin.{BuiltinProgram}
use hopper_svm.Validation.{ValidationPolicy, strict, lax}
use hopper_svm.Fees.{FeeCalculator, default_lamports_per_signature}
use hopper_svm.System.{system_program}
use hopper_svm.ComputeBudgetProgram.{compute_budget_program}
use hopper_svm.Alt.{alt_program}
use hopper_svm.Config.{config_program}
use hopper_svm.Stake.{stake_program}
use hopper_svm.Vote.{vote_program}
use hopper_svm.Token.{token_program}
use hopper_svm.Token.State.{SplToken}
use hopper_svm.Token2022.{token_2022_program}
use hopper_svm.Ata.{ata_program, ata_program_id}
use hopper_svm.Harness.{HopperSvm}

unfoldable pub with_builtin : Pubkey → BuiltinProgram → HopperSvm → HopperSvm
with_builtin id program svm = record svm { registry = Map.insert id program svm.registry }

unfoldable pub with_lax_validation : HopperSvm → HopperSvm
with_lax_validation svm = record svm { validation_policy = lax }

unfoldable pub set_validation_policy : HopperSvm → ValidationPolicy → HopperSvm
set_validation_policy svm policy = record svm { validation_policy = policy }

unfoldable pub set_fee_calculator : HopperSvm → FeeCalculator → HopperSvm
set_fee_calculator svm fc = record svm { fee_calculator = fc }

unfoldable pub set_priority_fee_micro_lamports_per_cu : HopperSvm → ℕ → HopperSvm
set_priority_fee_micro_lamports_per_cu svm micro_lamports = record svm {
  cells = record svm.cells { priority_fee = micro_lamports };
}

unfoldable pub with_sysvars : Sysvars → HopperSvm → HopperSvm
with_sysvars sysvars svm = record svm { sysvars = sysvars }

unfoldable pub set_compute_budget : HopperSvm → ℕ → HopperSvm
set_compute_budget svm units = record svm { budget = Compute.set_limit svm.budget units }

unfoldable pub set_clock : HopperSvm → Clock → HopperSvm
set_clock svm clock = record svm { sysvars = record svm.sysvars { clock = clock } }

unfoldable pub set_rent : HopperSvm → Rent → HopperSvm
set_rent svm rent = record svm { sysvars = record svm.sysvars { rent = rent } }

unfoldable pub set_epoch_schedule : HopperSvm → EpochSchedule → HopperSvm
set_epoch_schedule svm es = record svm { sysvars = record svm.sysvars { epoch_schedule = es } }

unfoldable pub set_last_restart_slot : HopperSvm → ℕ → HopperSvm
set_last_restart_slot svm slot = record svm {
  sysvars = record svm.sysvars { last_restart_slot = slot };
}

unfoldable pub set_epoch_rewards : HopperSvm → EpochRewards → HopperSvm
set_epoch_rewards svm rewards = record svm {
  sysvars = record svm.sysvars { epoch_rewards = rewards };
}

module _ (sdk : Sdk) where
  -- `HopperSvm::new`
  unfoldable pub new_svm : HopperSvm
  unfolding Compute.default_budget
  new_svm = record {
    registry = Map.insert sdk.system_id (system_program sdk) [];
    sysvars = default_sysvars;
    budget = Compute.default_budget;
    cells = record { pending_cu_limit = none; priority_fee = 0 };
    validation_policy = strict;
    fee_calculator = record { lamports_per_signature = default_lamports_per_signature };
    account_store = [];
  }

  unfoldable pub with_compute_budget_program : HopperSvm → HopperSvm
  with_compute_budget_program = with_builtin sdk.compute_budget_id compute_budget_program

  unfoldable pub with_alt_program : HopperSvm → HopperSvm
  with_alt_program = with_builtin sdk.alt_id (alt_program sdk)

  unfoldable pub with_config_program : HopperSvm → HopperSvm
  with_config_program = with_builtin sdk.config_id config_program

  unfoldable pub with_stake_program : HopperSvm → HopperSvm
  with_stake_program = with_builtin sdk.stake_id (stake_program sdk)

  unfoldable pub with_vote_program : HopperSvm → HopperSvm
  with_vote_program = with_builtin sdk.vote_id (vote_program sdk)

  module _ (spl : SplToken) where
    unfoldable pub with_spl_token_simulator : HopperSvm → HopperSvm
    with_spl_token_simulator = with_builtin sdk.spl_token_id (token_program sdk spl)

    unfoldable pub with_spl_token_2022_simulator : HopperSvm → HopperSvm
    with_spl_token_2022_simulator = with_builtin sdk.spl_token_2022_id (token_2022_program sdk spl)

    unfoldable pub with_spl_associated_token_simulator : HopperSvm → HopperSvm
    with_spl_associated_token_simulator = with_builtin ata_program_id (ata_program sdk spl)

    unfoldable pub with_spl_simulators : HopperSvm → HopperSvm
    with_spl_simulators svm =
        with_spl_associated_token_simulator
          (with_spl_token_2022_simulator (with_spl_token_simulator svm))

    unfoldable pub with_solana_runtime : HopperSvm → HopperSvm
    with_solana_runtime svm = with_spl_simulators (
        with_vote_program (
          with_stake_program
            (with_config_program (with_alt_program (with_compute_budget_program svm)))))
