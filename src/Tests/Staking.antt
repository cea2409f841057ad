-- ===== src/Tests/Staking.antt =====
-- The theorems about the stake program at concrete inputs.
use hopper_svm.Prelude.{
  ℕ, zero, suc, ◌+◌, ◌/◌, ◌≤◌, ◌≡◌, refl, pos, List, [], ◌∷◌, ◌++◌, arith, replicate, u64_max,
  String,
}
use hopper_svm.Bytes.{le_encode, AreBytes}
use hopper_svm.Bytes.Layout.{writes}
use hopper_svm.Error.{ok}
use hopper_svm.Account.{KeyedAccount}
use hopper_svm.Sysvar.{minimum_balance}
use hopper_svm.Builtin.{InvokeContext, require_signer, require_writable}
use hopper_svm.Stake.{stake_handle, stake_dispatch}
use hopper_svm.Stake.State.{
  StakeMeta, StakeDelegation, StakeAccountState, uninitialized, initialized, staked, read_state,
  read_discriminator, write_state,
}
use hopper_svm.Stake.Setup
use hopper_svm.Stake.Setup.{new_meta}
use hopper_svm.Stake.Codec.{read_state-write_state}
use hopper_svm.Stake.Refines.{Reads, Moved}
use hopper_svm.Stake.Steps.{stake_handle-Moved}
use hopper_svm.Stake.Backing.{Reach, Reach-IsBacked}
use hopper_svm.Stake.Withdraw.{locked_floor}
use hopper_svm.Stake.Exit.{deactivate_data, withdraw_data, withdrawn, deactivate-withdraw}
use hopper_svm.Tests.Fixtures.{sdk, account, bob, context, metas, sysvars}

pub le_encode-AreBytes : (w n : ℕ) → AreBytes (le_encode w n)
le_encode-AreBytes zero n = tt
le_encode-AreBytes (suc w) n = (omega arith, le_encode-AreBytes w (n / 256))

pub append-AreBytes : (xs ys : List ℕ) → AreBytes xs → AreBytes ys → AreBytes (xs ++ ys)
append-AreBytes [] ys h k = k
append-AreBytes (x ∷ xs) ys h k = (h.0, append-AreBytes xs ys h.1 k)

-- The staker and the withdrawer are Alice, there is no lockup.
abbrev body : List ℕ
body = le_encode 32 1 ++ (le_encode 32 1 ++ le_encode 48 0)

abbrev init_data : List ℕ
init_data = le_encode 4 0 ++ body

init_data-AreBytes : AreBytes init_data
init_data-AreBytes = append-AreBytes (le_encode 4 0) body (le_encode-AreBytes 4 0) (
    append-AreBytes (le_encode 32 1) (le_encode 32 1 ++ le_encode 48 0) (le_encode-AreBytes 32 1) (
      append-AreBytes (le_encode 32 1) (le_encode 48 0) (le_encode-AreBytes 32 1)
        (le_encode-AreBytes 48 0)))

abbrev blank : KeyedAccount
blank = account 3 3_000_000 (replicate 200 0) 32

abbrev terms : StakeMeta
terms = record {
  rent_exempt_reserve = 2_282_880;
  authorized = record { staker = 1; withdrawer = 1 };
  lockup = record { unix_timestamp = pos 0; epoch = 0; custodian = 0 };
}

abbrev made : KeyedAccount
made = account 3 3_000_000 (write_state (replicate 200 0) (initialized terms)) 32

abbrev said : String
said = "stake::Initialize: {stake_addr} (staker={staker}, withdrawer={withdrawer})"

initialised : stake_handle sdk init_data (blank ∷ []) (context 32) ≡ ok (made ∷ [], said)
unfolding stake_handle stake_dispatch Setup.initialize read_discriminator require_writable
    write_state writes minimum_balance
initialised = refl

blank-Reads : Reads 32 blank uninitialized
unfolding read_state read_discriminator
blank-Reads = (refl, tt)

stake_handle-Moved_example : Moved (context 32) blank uninitialized (made ∷ [])
stake_handle-Moved_example =
    stake_handle-Moved sdk init_data (context 32) blank uninitialized [] (made ∷ []) said
      init_data-AreBytes tt (omega arith) (omega arith) blank-Reads initialised

-- Initialised in epoch 0 and funded in epoch 4.
reached : Reach sdk 32 4 (record made { lamports = 3_000_000 + 5 })
reached = Reach.fund made 5 (
    Reach.later 0
      (Reach.call init_data (context 32) blank [] [] said refl (Reach.start blank-Reads)
        init_data-AreBytes tt (omega arith) (omega arith) initialised)
      (omega arith))

Reach-IsBacked_example :
    (st : StakeAccountState) × Reads 32 (record made { lamports = 3_000_005 }) st
    × (locked_floor 4 st ≤ 3_000_005)
Reach-IsBacked_example = Reach-IsBacked sdk 32 4 (record made { lamports = 3_000_005 }) reached

abbrev delegation : StakeDelegation
delegation = record {
  voter_pubkey = 7;
  stake = 717_120;
  activation_epoch = 0;
  deactivation_epoch = u64_max;
  warmup_cooldown_rate = 4_598_175_219_545_276_416;
}

read_state-write_state_example :
    read_state (write_state (replicate 200 0) (staked terms delegation 9)) 32
    ≡ ok (staked terms delegation 9)
read_state-write_state_example =
    read_state-write_state (replicate 200 0) (staked terms delegation 9) 32 (omega arith)
      (omega arith)

abbrev active : KeyedAccount
active = account 3 3_000_000 (write_state (replicate 200 0) (staked terms delegation 9)) 32

abbrev third_epoch : InvokeContext
third_epoch = record {
  program_id = 32;
  account_metas = metas;
  sysvars = record sysvars { clock = record sysvars.clock { epoch = 3 } };
}

active-Reads : Reads 32 active (staked terms delegation 9)
active-Reads = (
  read_state-write_state (replicate 200 0) (staked terms delegation 9) 32 (omega arith)
      (omega arith),
  omega arith,
)

writable_3 : require_writable (context 32) 3 ≡ ok tt
unfolding require_writable
writable_3 = refl

writable_later : (require_writable third_epoch 3 ≡ ok tt) × (require_writable third_epoch 2 ≡ ok tt)
unfolding require_writable
writable_later = (refl, refl)

signs : (require_signer (context 32) 1 ≡ ok tt) × (require_signer third_epoch 1 ≡ ok tt)
unfolding require_signer
signs = (refl, refl)

deactivate-withdraw_example :
    (a' : KeyedAccount) × (message : String) × (stake_handle sdk deactivate_data
        (active ∷ [])
        (context 32)
      ≡ ok (a' ∷ [], message))
    × (a'.lamports ≡ 3_000_000)
    × (stake_handle sdk (withdraw_data 717_120) (a' ∷ bob ∷ []) third_epoch
        ≡ ok (
          record a' { lamports = 2_282_880 } ∷ record bob { lamports = 717_120 } ∷ [],
          withdrawn,
        ))
deactivate-withdraw_example =
    deactivate-withdraw terms delegation 9 sdk (context 32) third_epoch active bob [] []
      active-Reads refl refl (omega arith) (omega arith) writable_3 signs.0 writable_later.0
      writable_later.1 signs.1 (omega arith) (omega arith) (omega arith) (omega arith)
