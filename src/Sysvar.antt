-- ===== src/Sysvar.antt =====
-- src/sysvar.rs: the sysvars. The exemption threshold, a float, is kept as its bits.
use hopper_svm.Prelude.{ℕ, ℤ, pos, Bool, false, List, sat_add, sat_mul, replicate}
use hopper_svm.Sdk.{Sdk}

pub record Clock : Type 0 where
  pub slot : ℕ
  pub epoch_start_timestamp : ℤ
  pub epoch : ℕ
  pub leader_schedule_epoch : ℕ
  pub unix_timestamp : ℤ

pub record Rent : Type 0 where
  pub lamports_per_byte_year : ℕ
  pub exemption_threshold : ℕ
  pub burn_percent : ℕ

unfoldable pub minimum_balance : Sdk → Rent → ℕ → ℕ
minimum_balance sdk r size =
    sdk.scale_f64 (sat_mul (sat_add size 128) r.lamports_per_byte_year) r.exemption_threshold

pub record EpochSchedule : Type 0 where
  pub slots_per_epoch : ℕ
  pub leader_schedule_slot_offset : ℕ
  pub warmup : Bool
  pub first_normal_epoch : ℕ
  pub first_normal_slot : ℕ

pub record EpochRewards : Type 0 where
  pub distribution_starting_block_height : ℕ
  pub num_partitions : ℕ
  pub parent_blockhash : List ℕ
  pub total_points : ℕ
  pub total_rewards : ℕ
  pub distributed_rewards : ℕ
  pub active : Bool

pub record Sysvars : Type 0 where
  pub clock : Clock
  pub rent : Rent
  pub epoch_schedule : EpochSchedule
  pub last_restart_slot : ℕ
  pub epoch_rewards : EpochRewards

-- The `Default` values; the threshold is the bits of 2.0.
abbrev pub default_clock : Clock
default_clock = record {
  slot = 0;
  epoch_start_timestamp = pos 1_700_000_000;
  epoch = 0;
  leader_schedule_epoch = 0;
  unix_timestamp = pos 1_700_000_000;
}

abbrev pub default_rent : Rent
default_rent = record {
  lamports_per_byte_year = 3_480;
  exemption_threshold = 4_611_686_018_427_387_904;
  burn_percent = 50;
}

abbrev pub default_epoch_schedule : EpochSchedule
default_epoch_schedule = record {
  slots_per_epoch = 432_000;
  leader_schedule_slot_offset = 432_000;
  warmup = false;
  first_normal_epoch = 0;
  first_normal_slot = 0;
}

abbrev pub default_epoch_rewards : EpochRewards
default_epoch_rewards = record {
  distribution_starting_block_height = 0;
  num_partitions = 0;
  parent_blockhash = replicate 32 0;
  total_points = 0;
  total_rewards = 0;
  distributed_rewards = 0;
  active = false;
}

abbrev pub default_sysvars : Sysvars
default_sysvars = record {
  clock = default_clock;
  rent = default_rent;
  epoch_schedule = default_epoch_schedule;
  last_restart_slot = 0;
  epoch_rewards = default_epoch_rewards;
}
