-- ===== src/Tests/Fixtures.antt =====
-- The accounts, the instruction data and the harness of the tests.
use hopper_svm.Prelude.{ℕ, ◌+◌, true, false, none, some, List, [], ◌∷◌, ◌++◌, replicate, pos}
use hopper_svm.Bytes.{le_encode}
use hopper_svm.Error.{Pubkey}
use hopper_svm.Account.{KeyedAccount, AccountMeta, Instruction}
use hopper_svm.Sdk.{Sdk}
use hopper_svm.Compute.{ComputeBudget}
use hopper_svm.Log
use hopper_svm.Sysvar.{Sysvars}
use hopper_svm.Builtin.{InvokeContext, Session, Cells}
use hopper_svm.System.{system_program}
use hopper_svm.ComputeBudgetProgram.{compute_budget_program}
use hopper_svm.Validation.{strict}
use hopper_svm.Harness.{HopperSvm}

abbrev pub sdk : Sdk
sdk = record {
  system_id = 0;
  default_key = 0;
  create_with_seed = λ base seed owner. some (base + owner);
  is_utf8 = λ seed. true;
  sha256 = λ bytes. replicate 32 7;
  scale_f64 = λ n bits. n + n;
  elapsed_us = λ n. n;
  create_program_address = λ seeds id. some (40 + id);
  find_program_address = λ seeds id. 41;
  compute_budget_id = 9;
  alt_id = 30;
  config_id = 31;
  stake_id = 32;
  vote_id = 33;
  spl_token_id = 34;
  spl_token_2022_id = 35;
}

abbrev pub account : Pubkey → ℕ → List ℕ → Pubkey → KeyedAccount
account address lamports bytes owner = record {
  address = address;
  lamports = lamports;
  bytes = bytes;
  owner = owner;
  executable = false;
  rent_epoch = 0;
}

abbrev pub alice : KeyedAccount
alice = account 1 500 [] 0

abbrev pub bob : KeyedAccount
bob = account 2 0 [] 0

abbrev pub meta : Pubkey → AccountMeta
meta k = record { pubkey = k; is_signer = true; is_writable = true }

abbrev pub metas : List AccountMeta
metas = meta 1 ∷ meta 2 ∷ meta 3 ∷ []

abbrev pub sysvars : Sysvars
sysvars = record {
  clock = record {
    slot = 10;
    epoch_start_timestamp = pos 0;
    epoch = 0;
    leader_schedule_epoch = 0;
    unix_timestamp = pos 1_000;
  };
  rent = record { lamports_per_byte_year = 3_480; exemption_threshold = 2; burn_percent = 50 };
  epoch_schedule = record {
    slots_per_epoch = 432_000;
    leader_schedule_slot_offset = 432_000;
    warmup = false;
    first_normal_epoch = 0;
    first_normal_slot = 0;
  };
  last_restart_slot = 0;
  epoch_rewards = record {
    distribution_starting_block_height = 0;
    num_partitions = 0;
    parent_blockhash = [];
    total_points = 0;
    total_rewards = 0;
    distributed_rewards = 0;
    active = false;
  };
}

abbrev pub context : Pubkey → InvokeContext
context program = record { program_id = program; account_metas = metas; sysvars = sysvars }

abbrev pub meter : ComputeBudget
meter = record { consumed = 0; limit = 200_000; default_cost = 150 }

abbrev pub cells : Cells
cells = record { pending_cu_limit = none; priority_fee = 0 }

abbrev pub session : Session
session = record { logs = Log.empty; budget = meter; cells = cells }

-- `system_instruction::transfer(alice, bob, 200)`
abbrev pub transfer_data : ℕ → List ℕ
transfer_data lamports = le_encode 4 2 ++ le_encode 8 lamports

abbrev pub pay : ℕ → Instruction
pay lamports = record {
  program_id = 0;
  accounts = meta 1 ∷ meta 2 ∷ [];
  bytes = transfer_data lamports;
}

abbrev pub svm : HopperSvm
svm = record {
  registry = (0, system_program sdk) ∷ (9, compute_budget_program) ∷ [];
  sysvars = sysvars;
  budget = meter;
  cells = cells;
  validation_policy = strict;
  fee_calculator = record { lamports_per_signature = 5 };
  account_store = (1, alice) ∷ (2, bob) ∷ [];
}
