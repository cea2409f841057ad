-- ===== src/Stake/Withdraw.antt =====
-- src/spl/stake_program.rs: `Withdraw`.
use hopper_svm.Prelude.{
  ℕ, ◌-◌, Bool, ◌||◌, List, ◌∷◌, ◌==◌, leb, length, replicate, sat_add, u64_max, if◌then◌else◌,
}
use hopper_svm.Bytes.Layout.{word}
use hopper_svm.Error.{Pubkey, Result, ok, err, builtin_error, ◌>>=◌, ◌>>◌, require}
use hopper_svm.Account.{KeyedAccount}
use hopper_svm.Builtin.{InvokeContext, require_signer, require_writable}
use hopper_svm.System.Slots.{Handled, require_account, two_slots}
use hopper_svm.System.Create.{debit}
use hopper_svm.System.Transfers.{credit}
use hopper_svm.Stake.State.{
  StakeDelegation, StakeAccountState, uninitialized, initialized, staked, read_state,
}

unfoldable pub withdrawer_of : InvokeContext → StakeAccountState → Result Pubkey
withdrawer_of ctx uninitialized =
    err (builtin_error ctx.program_id "stake::Withdraw: account uninitialized")
withdrawer_of ctx (initialized m) = ok m.authorized.withdrawer
withdrawer_of ctx (staked m d credits) = ok m.authorized.withdrawer

-- Delegated, and not past the epoch of the deactivation.
abbrev pub is_locked : ℕ → StakeDelegation → Bool
is_locked epoch d = d.deactivation_epoch == u64_max || leb epoch d.deactivation_epoch

-- The lamports that must stay.
abbrev pub locked_floor : ℕ → StakeAccountState → ℕ
locked_floor epoch uninitialized = 0
locked_floor epoch (initialized m) = m.rent_exempt_reserve
locked_floor epoch (staked m d credits) =
    if is_locked epoch d then sat_add m.rent_exempt_reserve d.stake else m.rent_exempt_reserve

-- `accounts[0].data.fill(0)` where nothing is left.
abbrev pub wiped : KeyedAccount → KeyedAccount
wiped a = if a.lamports == 0 then record a { bytes = replicate (length a.bytes) 0 } else a

unfoldable pub withdraw : List ℕ → List KeyedAccount → InvokeContext → Handled
unfolding two_slots
withdraw body accounts ctx = do
  require_account accounts 0
  (a, b, rest) ← two_slots accounts
  require (leb 8 (length body))
      (builtin_error ctx.program_id "stake::Withdraw: body has {} bytes, need 8")
  let lamports = word 0 8 body
  require_writable ctx a.address
  require_writable ctx b.address
  st ← read_state a.bytes ctx.program_id
  withdrawer ← withdrawer_of ctx st
  require_signer ctx withdrawer
  require (leb lamports (a.lamports - locked_floor ctx.sysvars.clock.epoch st)) (
      builtin_error ctx.program_id
        "stake::Withdraw: requested {lamports} > available {available} (lamports={}, locked_floor={locked_floor})")
  ok (
    wiped (debit a lamports) ∷ credit b lamports ∷ rest,
    "stake::Withdraw: {stake_addr} -> {recipient_addr} ({lamports} lamports)",
  )
