-- ===== src/Sdk.antt =====
-- What the source takes from other crates, as a parameter of the model: constants and functions of
-- the Solana SDK, of `std` and of `sha2`.
use hopper_svm.Prelude.{ℕ, Bool, Option, List}
use hopper_svm.Error.{Pubkey}

pub record Sdk : Type 0 where
  -- `system_program::id()`
  pub system_id : Pubkey
  -- `Pubkey::default()`
  pub default_key : Pubkey
  -- `Pubkey::create_with_seed(base, seed, owner)`
  pub create_with_seed : Pubkey → List ℕ → Pubkey → Option Pubkey
  -- `std::str::from_utf8(bytes).is_ok()`
  pub is_utf8 : List ℕ → Bool
  -- `Sha256::digest`
  pub sha256 : List ℕ → List ℕ
  -- `(x as f64 * threshold) as u64`, the threshold by its bits
  pub scale_f64 : ℕ → ℕ → ℕ
  -- what `start.elapsed().as_micros()` gives at the n-th instruction of a call
  pub elapsed_us : ℕ → ℕ
  -- `Pubkey::create_program_address(seeds, program_id)`
  pub create_program_address : List (List ℕ) → Pubkey → Option Pubkey
  -- `Pubkey::find_program_address(seeds, program_id)`, without the bump
  pub find_program_address : List (List ℕ) → Pubkey → Pubkey
  -- the ids of the other programs
  pub compute_budget_id : Pubkey
  pub alt_id : Pubkey
  pub config_id : Pubkey
  pub stake_id : Pubkey
  pub vote_id : Pubkey
  pub spl_token_id : Pubkey
  pub spl_token_2022_id : Pubkey
