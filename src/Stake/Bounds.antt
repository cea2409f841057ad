-- ===== src/Stake/Bounds.antt =====
-- src/spl/stake_program.rs: the fields of a stake account stay in the ranges of their Rust types.
use hopper_svm.Prelude.{ℕ, ◌^◌, ◌≤◌, ◌<◌, ◌≡◌, as_i64-IsI64, List, arith, length, u64_max}
use hopper_svm.Bytes.{AreBytes}
use hopper_svm.Bytes.Layout.{word, word-lt}
use hopper_svm.Error.{Pubkey, ok}
use hopper_svm.Builtin.{InvokeContext}
use hopper_svm.Stake.State.{StakeMeta, StakeAccountState, uninitialized, initialized, staked}
use hopper_svm.Stake.Codec.{MetaFits, StateFits}
use hopper_svm.Stake.Setup.{new_meta, set_authority, authorized_state}
use hopper_svm.Stake.Delegate.{delegated_state, deactivated_state}

pub new_meta-MetaFits :
    (body : List ℕ) (reserve : ℕ)
    → AreBytes body
    → 112 ≤ length body
    → reserve ≤ u64_max
    → MetaFits (new_meta body reserve)
new_meta-MetaFits body reserve bytes long small = (
  omega arith,
  word-lt 0 32 body bytes (omega arith),
  word-lt 32 32 body bytes (omega arith),
  as_i64-IsI64 (word 64 8 body) (word-lt 64 8 body bytes (omega arith)),
  word-lt 72 8 body bytes (omega arith),
  word-lt 80 32 body bytes (omega arith),
)

module _ (ctx : InvokeContext) where
  set_authority-MetaFits :
      (m m' : StakeMeta) (role : ℕ) (new : Pubkey)
      → MetaFits m
      → new < 256 ^ 32
      → set_authority ctx m role new ≡ ok m'
      → MetaFits m'
  unfolding set_authority
  set_authority-MetaFits m m' role new fits small h = ground arith

  pub authorized_state-StateFits :
      (role : ℕ) (new : Pubkey) (st st' : StakeAccountState)
      → StateFits st
      → new < 256 ^ 32
      → authorized_state ctx role new st ≡ ok st'
      → StateFits st'
  unfolding authorized_state
  authorized_state-StateFits role new uninitialized st' fits small h = ground arith
  authorized_state-StateFits role new (initialized m) st' fits small h =
      grind (arith, set_authority-MetaFits)
  authorized_state-StateFits role new (staked m d credits) st' fits small h =
      grind (arith, set_authority-MetaFits)

  pub delegated_state-StateFits :
      (l : ℕ) (vote : Pubkey) (st st' : StakeAccountState)
      → StateFits st
      → l ≤ u64_max
      → vote < 256 ^ 32
      → ctx.sysvars.clock.epoch < 256 ^ 8
      → delegated_state ctx l vote st ≡ ok st'
      → StateFits st'
  unfolding delegated_state
  delegated_state-StateFits l vote uninitialized st' fits small key now h = ground arith
  delegated_state-StateFits l vote (initialized m) st' fits small key now h = ground arith
  delegated_state-StateFits l vote (staked m d credits) st' fits small key now h = ground arith

  pub deactivated_state-StateFits :
      (st st' : StakeAccountState)
      → StateFits st
      → ctx.sysvars.clock.epoch < 256 ^ 8
      → deactivated_state ctx st ≡ ok st'
      → StateFits st'
  unfolding deactivated_state
  deactivated_state-StateFits uninitialized st' fits now h = ground arith
  deactivated_state-StateFits (initialized m) st' fits now h = ground arith
  deactivated_state-StateFits (staked m d credits) st' fits now h = ground arith
