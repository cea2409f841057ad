-- ===== src/Stake/State.antt =====
-- src/spl/stake_program.rs: the state of a stake account and its 200 bytes. The warmup rate, a float,
-- is kept as its bits.
use hopper_svm.Prelude.{
  ℕ, ℤ, as_i64, as_u64, List, [], ◌∷◌, ◌++◌, ◌==◌, ltb, length, drop, replicate, if◌then◌else◌,
}
use hopper_svm.Bytes.Layout.{Field, word, writes}
use hopper_svm.Error.{Pubkey, Result, ok, err, builtin_error}

abbrev pub stake_account_size : ℕ
stake_account_size = 200

abbrev pub discriminator_uninitialized : ℕ
discriminator_uninitialized = 0

abbrev pub discriminator_initialized : ℕ
discriminator_initialized = 1

abbrev pub discriminator_stake : ℕ
discriminator_stake = 2

-- The bits of 0.25.
abbrev pub warmup_rate : ℕ
warmup_rate = 4_598_175_219_545_276_416

pub record StakeAuthorized : Type 0 where
  pub staker : Pubkey
  pub withdrawer : Pubkey

pub record StakeLockup : Type 0 where
  pub unix_timestamp : ℤ
  pub epoch : ℕ
  pub custodian : Pubkey

pub record StakeMeta : Type 0 where
  pub rent_exempt_reserve : ℕ
  pub authorized : StakeAuthorized
  pub lockup : StakeLockup

pub record StakeDelegation : Type 0 where
  pub voter_pubkey : Pubkey
  pub stake : ℕ
  pub activation_epoch : ℕ
  pub deactivation_epoch : ℕ
  pub warmup_cooldown_rate : ℕ

pub data StakeAccountState : Type 0 where
  uninitialized : StakeAccountState
  initialized : StakeMeta → StakeAccountState
  -- with the credits observed
  staked : StakeMeta → StakeDelegation → ℕ → StakeAccountState

-- `buf[offset..offset + 32]`
abbrev pub read_pubkey : List ℕ → ℕ → Pubkey
read_pubkey buf offset = word offset 32 buf

unfoldable pub read_discriminator : List ℕ → ℕ
read_discriminator bytes =
    if ltb (length bytes) 4 then discriminator_uninitialized else word 0 4 bytes

unfoldable pub read_meta : List ℕ → StakeMeta
read_meta bytes = record {
  rent_exempt_reserve = word 4 8 bytes;
  authorized = record { staker = read_pubkey bytes 12; withdrawer = read_pubkey bytes 44 };
  lockup = record {
    unix_timestamp = as_i64 (word 76 8 bytes);
    epoch = word 84 8 bytes;
    custodian = read_pubkey bytes 92;
  };
}

unfoldable pub read_delegation : List ℕ → StakeDelegation
read_delegation bytes = record {
  voter_pubkey = read_pubkey bytes 124;
  stake = word 156 8 bytes;
  activation_epoch = word 164 8 bytes;
  deactivation_epoch = word 172 8 bytes;
  warmup_cooldown_rate = word 180 8 bytes;
}

unfoldable pub read_state : List ℕ → Pubkey → Result StakeAccountState
read_state bytes program_id =
    if ltb (length bytes) stake_account_size
    then err (builtin_error program_id "stake: account data is {} bytes, need {STAKE_ACCOUNT_SIZE}")
    else if read_discriminator bytes == discriminator_uninitialized
    then ok uninitialized
    else if read_discriminator bytes == discriminator_initialized
    then ok (initialized (read_meta bytes))
    else if read_discriminator bytes == discriminator_stake
    then ok (staked (read_meta bytes) (read_delegation bytes) (word 188 8 bytes))
    else err (builtin_error program_id "stake: unknown discriminator {other}")

-- `write_meta`, and what comes before and behind it, as the writes of `write_state` in their order.
abbrev pub meta_fields : StakeMeta → List Field → List Field
meta_fields m rest =
    (4, 8, m.rent_exempt_reserve)
    ∷ (12, 32, m.authorized.staker)
    ∷ (44, 32, m.authorized.withdrawer)
    ∷ (76, 8, as_u64 m.lockup.unix_timestamp)
    ∷ (84, 8, m.lockup.epoch)
    ∷ (92, 32, m.lockup.custodian)
    ∷ rest

abbrev pub delegation_fields : StakeDelegation → ℕ → List Field
delegation_fields d credits =
    (124, 32, d.voter_pubkey)
    ∷ (156, 8, d.stake)
    ∷ (164, 8, d.activation_epoch)
    ∷ (172, 8, d.deactivation_epoch)
    ∷ (180, 8, d.warmup_cooldown_rate)
    ∷ (188, 8, credits)
    ∷ []

abbrev pub state_fields : StakeAccountState → List Field
state_fields uninitialized = []
state_fields (initialized m) = (0, 4, discriminator_initialized) ∷ meta_fields m []
state_fields (staked m d credits) =
    (0, 4, discriminator_stake) ∷ meta_fields m (delegation_fields d credits)

-- The first 200 bytes are zeroed before the fields are written.
unfoldable pub write_state : List ℕ → StakeAccountState → List ℕ
write_state bytes st =
    writes (state_fields st) (replicate stake_account_size 0 ++ drop stake_account_size bytes)
