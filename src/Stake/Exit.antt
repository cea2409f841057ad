-- ===== src/Stake/Exit.antt =====
-- src/spl/stake_program.rs: `Deactivate`, and `Withdraw` in a later epoch.
use hopper_svm.Prelude.{
  ℕ, ◌+◌, ◌-◌, ◌^◌, ◌≤◌, ◌<◌, ◌≡◌, refl, String, List, [], ◌∷◌, arith, u64_max,
}
use hopper_svm.Bytes.{le_encode, le_decode-encode}
use hopper_svm.Bytes.Layout.{word}
use hopper_svm.Error.{ok}
use hopper_svm.Account.{KeyedAccount}
use hopper_svm.Sdk.{Sdk}
use hopper_svm.Builtin.{InvokeContext, require_writable}
use hopper_svm.Stake.State.{
  StakeMeta, StakeDelegation, StakeAccountState, staked, read_state, write_state,
}
use hopper_svm.Stake.Codec.{StateFits, read_state-write_state}
use hopper_svm.Stake.Machine.{Signs}
use hopper_svm.Stake.Refines.{Reads, read_state-length}
use hopper_svm.Stake.Delegate.{deactivate, deactivated_state}
use hopper_svm.Stake.Withdraw.{withdraw, withdrawer_of, locked_floor}
use hopper_svm.Stake.{stake_dispatch, stake_handle}

abbrev pub deactivate_data : List ℕ
deactivate_data = 5 ∷ 0 ∷ 0 ∷ 0 ∷ []

abbrev pub withdraw_data : ℕ → List ℕ
withdraw_data n = 4 ∷ 0 ∷ 0 ∷ 0 ∷ le_encode 8 n

abbrev pub stopped : StakeMeta → StakeDelegation → ℕ → ℕ → StakeAccountState
stopped m d credits epoch = staked m (record d { deactivation_epoch = epoch }) credits

abbrev pub withdrawn : String
withdrawn = "stake::Withdraw: {stake_addr} -> {recipient_addr} ({lamports} lamports)"

module _ (m : StakeMeta) (d : StakeDelegation) (credits : ℕ) where
  deactivate-eq :
      (ctx : InvokeContext) (a : KeyedAccount) (rest : List KeyedAccount)
      → read_state a.bytes ctx.program_id ≡ ok (staked m d credits)
      → require_writable ctx a.address ≡ ok tt
      → Signs ctx m.authorized.staker
      → d.deactivation_epoch ≡ u64_max
      → deactivate [] (a ∷ rest) ctx
        ≡ ok (
          record a { bytes = write_state a.bytes (stopped m d credits ctx.sysvars.clock.epoch) }
              ∷ rest,
          "stake::Deactivate: {stake_addr} epoch={}",
        )
  unfolding deactivate deactivated_state
  deactivate-eq ctx a rest reads writable signed active = rw (reads, writable, signed, active) refl

  withdraw-eq :
      (ctx : InvokeContext) (a b : KeyedAccount) (rest : List KeyedAccount) (n : ℕ)
      → read_state a.bytes ctx.program_id ≡ ok (staked m d credits)
      → require_writable ctx a.address ≡ ok tt
      → require_writable ctx b.address ≡ ok tt
      → Signs ctx m.authorized.withdrawer
      → d.deactivation_epoch < ctx.sysvars.clock.epoch
      → ctx.sysvars.clock.epoch ≤ u64_max
      → 0 < m.rent_exempt_reserve
      → n < 256 ^ 8
      → a.lamports ≡ m.rent_exempt_reserve + n
      → b.lamports + n ≤ u64_max
      → withdraw (le_encode 8 n) (a ∷ b ∷ rest) ctx
        ≡ ok (
          record a { lamports = m.rent_exempt_reserve }
              ∷ record b { lamports = b.lamports + n }
              ∷ rest,
          withdrawn,
        )
  unfolding withdraw withdrawer_of
  withdraw-eq ctx a b rest n reads wa wb signed past top reserve fits total room =
      let amount : word 0 8 (le_encode 8 n) ≡ n = le_decode-encode 8 n fits in
      let free : locked_floor ctx.sysvars.clock.epoch (staked m d credits) ≡ m.rent_exempt_reserve =
        ground arith in
      ground (arith, amount, free)

module _ (m : StakeMeta) (d : StakeDelegation) (credits : ℕ) where
  -- An active delegation on data in range, on an account with a `u64` of lamports that holds its
  -- reserve, which is not zero: after `Deactivate`, signed by the staker, the withdrawer can take all
  -- lamports above the reserve in any later epoch, which is a `u64`, the slots writable and the
  -- recipient with room for the lamports taken; the reserve stays.
  pub deactivate-withdraw :
      (sdk : Sdk) (ctx later : InvokeContext) (a b : KeyedAccount) (before rest : List KeyedAccount)
      → Reads ctx.program_id a (staked m d credits)
      → d.deactivation_epoch ≡ u64_max
      → later.program_id ≡ ctx.program_id
      → ctx.sysvars.clock.epoch < later.sysvars.clock.epoch
      → later.sysvars.clock.epoch ≤ u64_max
      → require_writable ctx a.address ≡ ok tt
      → Signs ctx m.authorized.staker
      → require_writable later a.address ≡ ok tt
      → require_writable later b.address ≡ ok tt
      → Signs later m.authorized.withdrawer
      → 0 < m.rent_exempt_reserve
      → m.rent_exempt_reserve ≤ a.lamports
      → a.lamports ≤ u64_max
      → b.lamports + (a.lamports - m.rent_exempt_reserve) ≤ u64_max
      → let n = a.lamports - m.rent_exempt_reserve in
        (a' : KeyedAccount) × (message : String) × (stake_handle sdk deactivate_data
            (a ∷ before)
            ctx
          ≡ ok (a' ∷ before, message))
        × (a'.lamports ≡ a.lamports)
        × (stake_handle sdk (withdraw_data n) (a' ∷ b ∷ rest) later
            ≡ ok (
              record a' { lamports = m.rent_exempt_reserve }
                  ∷ record b { lamports = b.lamports + n }
                  ∷ rest,
              withdrawn,
            ))
  unfolding stake_handle stake_dispatch
  deactivate-withdraw sdk ctx later a b before rest reads active same past top wa staker wa' wb'
        owner reserve enough small room =
      let n = a.lamports - m.rent_exempt_reserve in
      let st' = stopped m d credits ctx.sysvars.clock.epoch in
      let a' : KeyedAccount = record a { bytes = write_state a.bytes st' } in
      let long = read_state-length a.bytes ctx.program_id (staked m d credits) reads.0 in
      let fits : StateFits st' = ground (arith, reads.1) in
      let again = read_state-write_state a.bytes st' ctx.program_id long fits in
      (
        a',
        "stake::Deactivate: {stake_addr} epoch={}",
        deactivate-eq m d credits ctx a before reads.0 wa staker active,
        refl,
        withdraw-eq m (record d { deactivation_epoch = ctx.sysvars.clock.epoch }) credits later a' b
            rest n (rw same again) wa' wb' owner past top reserve (omega (arith, enough, small))
            (omega (arith, enough)) room,
      )
