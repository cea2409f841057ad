-- ===== src/Stake/Machine.antt =====
-- src/spl/stake_program.rs: what a stake account may do, as steps of its balance and state.
use hopper_svm.Prelude.{ℕ, ◌-◌, ◌≤◌, ◌≡◌, ◌⊎◌, inl, inr, arith, u64_max}
use hopper_svm.Error.{Pubkey, Result-cases, ok}
use hopper_svm.Builtin.{InvokeContext, require_signer}
use hopper_svm.Stake.State.{
  StakeMeta, StakeDelegation, StakeAccountState, uninitialized, initialized, staked, warmup_rate,
}
use hopper_svm.Stake.Setup.{set_authority, authorized_state}
use hopper_svm.Stake.Delegate.{stakeable, delegated_state, deactivated_state}
use hopper_svm.Stake.Withdraw.{withdrawer_of, locked_floor}

-- A key has signed.
abbrev pub Signs : InvokeContext → Pubkey → Type 0
Signs ctx k = require_signer ctx k ≡ ok tt

abbrev pub with_staker : StakeMeta → Pubkey → StakeMeta
with_staker m k = record m { authorized = record m.authorized { staker = k } }

abbrev pub with_withdrawer : StakeMeta → Pubkey → StakeMeta
with_withdrawer m k = record m { authorized = record m.authorized { withdrawer = k } }

abbrev pub new_delegation : InvokeContext → ℕ → StakeMeta → Pubkey → StakeDelegation
new_delegation ctx lamports m vote = record {
  voter_pubkey = vote;
  stake = stakeable lamports m;
  activation_epoch = ctx.sysvars.clock.epoch;
  deactivation_epoch = u64_max;
  warmup_cooldown_rate = warmup_rate;
}

-- A new meta for a state that has one.
pub data Rekeyed : (StakeMeta → StakeMeta) → StakeAccountState → StakeAccountState → Type 0 where
  at_rest :
      {f : StakeMeta → StakeMeta} {m : StakeMeta} → Rekeyed f (initialized m) (initialized (f m))
  at_work :
      {f : StakeMeta → StakeMeta} {m : StakeMeta} {d : StakeDelegation} {credits : ℕ}
      → Rekeyed f (staked m d credits) (staked (f m) d credits)

-- The meta of a state that has one.
pub data HasMeta : StakeAccountState → StakeMeta → Type 0 where
  at_rest : {m : StakeMeta} → HasMeta (initialized m) m
  at_work : {m : StakeMeta} {d : StakeDelegation} {credits : ℕ} → HasMeta (staked m d credits) m

-- What an instruction may do to the balance and the state of a stake account.
pub data Step (ctx : InvokeContext) : ℕ → StakeAccountState → ℕ → StakeAccountState → Type 0 where
  initialize :
      {l : ℕ} {m : StakeMeta}
      → m.rent_exempt_reserve ≤ l
      → Step ctx l uninitialized l (initialized m)
  new_staker :
      {l : ℕ} {st st' : StakeAccountState} {m : StakeMeta} {k : Pubkey}
      → HasMeta st m
      → Signs ctx m.authorized.staker
      → Rekeyed (λ m. with_staker m k) st st'
      → Step ctx l st l st'
  new_withdrawer :
      {l : ℕ} {st st' : StakeAccountState} {m : StakeMeta} {k : Pubkey}
      → HasMeta st m
      → Signs ctx m.authorized.withdrawer
      → Rekeyed (λ m. with_withdrawer m k) st st'
      → Step ctx l st l st'
  delegate :
      {l : ℕ} {m : StakeMeta} {vote : Pubkey}
      → Signs ctx m.authorized.staker
      → Step ctx l (initialized m) l (staked m (new_delegation ctx l m vote) 0)
  redelegate :
      {l credits : ℕ} {m : StakeMeta} {d : StakeDelegation} {vote : Pubkey}
      → Signs ctx m.authorized.staker
      → Step ctx l (staked m d credits) l (
          staked m
            (record (new_delegation ctx l m vote) { warmup_cooldown_rate = d.warmup_cooldown_rate })
            credits)
  deactivate :
      {l credits : ℕ} {m : StakeMeta} {d : StakeDelegation}
      → Signs ctx m.authorized.staker
      → d.deactivation_epoch ≡ u64_max
      → Step ctx l
          (staked m d credits)
          l
          (staked m (record d { deactivation_epoch = ctx.sysvars.clock.epoch }) credits)
  withdraw :
      {l : ℕ} {st : StakeAccountState} {m : StakeMeta}
      → (n : ℕ) → HasMeta st m
      → Signs ctx m.authorized.withdrawer
      → n ≤ l - locked_floor ctx.sysvars.clock.epoch st
      → Step ctx l st (l - n) st
  close :
      {l : ℕ} {st : StakeAccountState} {m : StakeMeta}
      → HasMeta st m
      → Signs ctx m.authorized.withdrawer
      → l ≤ l - locked_floor ctx.sysvars.clock.epoch st
      → Step ctx l st 0 uninitialized

module _ (ctx : InvokeContext) where
  set_authority-cases :
      (m m' : StakeMeta) (role : ℕ) (new : Pubkey)
      → set_authority ctx m role new ≡ ok m'
      → (Signs ctx m.authorized.staker × (m' ≡ with_staker m new))
        ⊎ (Signs ctx m.authorized.withdrawer × (m' ≡ with_withdrawer m new))
  unfolding set_authority
  set_authority-cases m m' role new h = ground arith

  pub authorized_state-Step :
      (l role : ℕ) (new : Pubkey) (st st' : StakeAccountState)
      → authorized_state ctx role new st ≡ ok st'
      → Step ctx l st l st'
  unfolding authorized_state
  authorized_state-Step l role new uninitialized st' h = absurd (ground arith)
  authorized_state-Step l role new (initialized m) st' h =
      elim (Result-cases (set_authority ctx m role new)) [
        | inl (m', e) ↦
            let same : initialized m' ≡ st' = ground arith in
            rw (← same) (elim (set_authority-cases m m' role new e) [
              | inl (signed, e') ↦ rw e' (new_staker at_rest signed at_rest)
              | inr (signed, e') ↦ rw e' (new_withdrawer at_rest signed at_rest)
            ])
        | inr failed ↦ absurd (ground arith)
      ]
  authorized_state-Step l role new (staked m d credits) st' h =
      elim (Result-cases (set_authority ctx m role new)) [
        | inl (m', e) ↦
            let same : staked m' d credits ≡ st' = ground arith in
            rw (← same) (elim (set_authority-cases m m' role new e) [
              | inl (signed, e') ↦ rw e' (new_staker at_work signed at_work)
              | inr (signed, e') ↦ rw e' (new_withdrawer at_work signed at_work)
            ])
        | inr failed ↦ absurd (ground arith)
      ]

  pub delegated_state-Step :
      (l : ℕ) (vote : Pubkey) (st st' : StakeAccountState)
      → delegated_state ctx l vote st ≡ ok st'
      → Step ctx l st l st'
  unfolding delegated_state
  delegated_state-Step l vote uninitialized st' h = absurd (ground arith)
  delegated_state-Step l vote (initialized m) st' h =
      let signed : Signs ctx m.authorized.staker = ground arith in
      let same : staked m (new_delegation ctx l m vote) 0 ≡ st' = ground arith in
      rw (← same) (delegate signed)
  delegated_state-Step l vote (staked m d credits) st' h =
      let signed : Signs ctx m.authorized.staker = ground arith in
      let d' : StakeDelegation = record (new_delegation ctx l m vote) {
        warmup_cooldown_rate = d.warmup_cooldown_rate;
      } in
      let same : staked m d' credits ≡ st' = ground arith in rw (← same) (redelegate signed)

  pub deactivated_state-Step :
      (l : ℕ) (st st' : StakeAccountState) → deactivated_state ctx st ≡ ok st' → Step ctx l st l st'
  unfolding deactivated_state
  deactivated_state-Step l uninitialized st' h = absurd (ground arith)
  deactivated_state-Step l (initialized m) st' h = absurd (ground arith)
  deactivated_state-Step l (staked m d credits) st' h =
      let signed : Signs ctx m.authorized.staker = ground arith in
      let active : d.deactivation_epoch ≡ u64_max = ground arith in
      let d' : StakeDelegation = record d { deactivation_epoch = ctx.sysvars.clock.epoch } in
      let same : staked m d' credits ≡ st' = ground arith in rw (← same) (deactivate signed active)

  pub withdrawer_of-HasMeta :
      (st : StakeAccountState) (k : Pubkey)
      → withdrawer_of ctx st ≡ ok k
      → (m : StakeMeta) × HasMeta st m × (m.authorized.withdrawer ≡ k)
  unfolding withdrawer_of
  withdrawer_of-HasMeta uninitialized k h = absurd (ground arith)
  withdrawer_of-HasMeta (initialized m) k h = (m, at_rest, ground arith)
  withdrawer_of-HasMeta (staked m d credits) k h = (m, at_work, ground arith)
