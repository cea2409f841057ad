-- ===== src/Stake/Delegate.antt =====
-- src/spl/stake_program.rs: `DelegateStake` and `Deactivate`.
use hopper_svm.Prelude.{ℕ, ◌-◌, List, ◌∷◌, ◌==◌, u64_max}
use hopper_svm.Error.{Pubkey, Result, ok, err, builtin_error, ◌>>=◌, ◌>>◌, require}
use hopper_svm.Account.{KeyedAccount}
use hopper_svm.Builtin.{InvokeContext, require_signer, require_writable}
use hopper_svm.System.Slots.{Handled, require_account, one_slot, two_slots}
use hopper_svm.Stake.State.{
  StakeMeta, StakeAccountState, uninitialized, initialized, staked, warmup_rate, read_state,
  write_state,
}

-- The lamports above the reserve.
abbrev pub stakeable : ℕ → StakeMeta → ℕ
stakeable lamports m = lamports - m.rent_exempt_reserve

-- The `match` of `DelegateStake`: the state for the vote account.
unfoldable pub delegated_state :
    InvokeContext → ℕ → Pubkey → StakeAccountState → Result StakeAccountState
delegated_state ctx lamports vote uninitialized =
    err (builtin_error ctx.program_id "stake::DelegateStake: account uninitialized")
delegated_state ctx lamports vote (initialized m) =
    require_signer ctx m.authorized.staker
    >> ok (
        staked m
          (record {
            voter_pubkey = vote;
            stake = stakeable lamports m;
            activation_epoch = ctx.sysvars.clock.epoch;
            deactivation_epoch = u64_max;
            warmup_cooldown_rate = warmup_rate;
          })
          0)
delegated_state ctx lamports vote (staked m d credits) =
    require_signer ctx m.authorized.staker
    >> ok (
        staked m
          (record d {
            voter_pubkey = vote;
            stake = stakeable lamports m;
            activation_epoch = ctx.sysvars.clock.epoch;
            deactivation_epoch = u64_max;
          })
          credits)

unfoldable pub delegate_stake : List ℕ → List KeyedAccount → InvokeContext → Handled
unfolding two_slots
delegate_stake body accounts ctx = do
  require_account accounts 0
  (a, b, rest) ← two_slots accounts
  require_writable ctx a.address
  st ← read_state a.bytes ctx.program_id
  st' ← delegated_state ctx a.lamports b.address st
  ok (
    record a { bytes = write_state a.bytes st' } ∷ b ∷ rest,
    "stake::DelegateStake: {stake_addr} -> vote {vote_addr} epoch={activation_epoch}",
  )

-- The `match` of `Deactivate`.
unfoldable pub deactivated_state : InvokeContext → StakeAccountState → Result StakeAccountState
deactivated_state ctx (staked m d credits) = do
  require_signer ctx m.authorized.staker
  require (d.deactivation_epoch == u64_max)
      (builtin_error ctx.program_id "stake::Deactivate: stake already deactivating at epoch {}")
  ok (staked m (record d { deactivation_epoch = ctx.sysvars.clock.epoch }) credits)
deactivated_state ctx st =
    err (builtin_error ctx.program_id "stake::Deactivate: account is not delegated")

unfoldable pub deactivate : List ℕ → List KeyedAccount → InvokeContext → Handled
unfolding one_slot
deactivate body accounts ctx = do
  (a, rest) ← one_slot accounts
  require_writable ctx a.address
  st ← read_state a.bytes ctx.program_id
  st' ← deactivated_state ctx st
  ok (
    record a { bytes = write_state a.bytes st' } ∷ rest,
    "stake::Deactivate: {stake_addr} epoch={}",
  )
