-- ===== src/Stake/Setup.antt =====
-- src/spl/stake_program.rs: `Initialize` and `Authorize`.
use hopper_svm.Prelude.{ℕ, as_i64, List, ◌∷◌, ◌==◌, leb, length, if◌then◌else◌}
use hopper_svm.Bytes.Layout.{word}
use hopper_svm.Error.{Pubkey, Result, ok, err, builtin_error, ◌>>=◌, ◌>>◌, require}
use hopper_svm.Account.{KeyedAccount}
use hopper_svm.Sdk.{Sdk}
use hopper_svm.Sysvar.{minimum_balance}
use hopper_svm.Builtin.{InvokeContext, require_signer, require_writable}
use hopper_svm.System.Slots.{Handled, one_slot}
use hopper_svm.Stake.State.{
  StakeMeta, StakeAccountState, uninitialized, initialized, staked, stake_account_size, read_pubkey,
  discriminator_uninitialized, read_discriminator, read_state, write_state,
}

-- The meta that `Initialize` writes.
abbrev pub new_meta : List ℕ → ℕ → StakeMeta
new_meta body reserve = record {
  rent_exempt_reserve = reserve;
  authorized = record { staker = read_pubkey body 0; withdrawer = read_pubkey body 32 };
  lockup = record {
    unix_timestamp = as_i64 (word 64 8 body);
    epoch = word 72 8 body;
    custodian = read_pubkey body 80;
  };
}

unfoldable pub initialize : Sdk → List ℕ → List KeyedAccount → InvokeContext → Handled
unfolding one_slot
initialize sdk body accounts ctx = do
  (a, rest) ← one_slot accounts
  require_writable ctx a.address
  require (length a.bytes == stake_account_size) (
      builtin_error ctx.program_id
        "stake::Initialize: stake account is {} bytes, need {STAKE_ACCOUNT_SIZE}")
  require (read_discriminator a.bytes == discriminator_uninitialized)
      (builtin_error ctx.program_id "stake::Initialize: account already initialized")
  require (leb 112 (length body)) (
      builtin_error ctx.program_id
        "stake::Initialize: body has {} bytes, need 112 (Authorized + Lockup)")
  let reserve = minimum_balance sdk ctx.sysvars.rent stake_account_size
  require (leb reserve a.lamports) (
      builtin_error ctx.program_id
        "stake::Initialize: stake account lamports {} < rent-exempt minimum {rent_exempt}")
  ok (
    record a { bytes = write_state a.bytes (initialized (new_meta body reserve)) } ∷ rest,
    "stake::Initialize: {stake_addr} (staker={staker}, withdrawer={withdrawer})",
  )

-- The `match role`.
unfoldable pub set_authority : InvokeContext → StakeMeta → ℕ → Pubkey → Result StakeMeta
set_authority ctx m role new =
    if role == 0
    then require_signer ctx m.authorized.staker
      >> ok (record m { authorized = record m.authorized { staker = new } })
    else if role == 1
    then require_signer ctx m.authorized.withdrawer
      >> ok (record m { authorized = record m.authorized { withdrawer = new } })
    else err (
        builtin_error ctx.program_id
          "stake::Authorize: role {other} unrecognised (0=Staker, 1=Withdrawer)")

-- The same on the meta of a state.
unfoldable pub authorized_state :
    InvokeContext → ℕ → Pubkey → StakeAccountState → Result StakeAccountState
authorized_state ctx role new uninitialized =
    err (builtin_error ctx.program_id "stake::Authorize: account uninitialized")
authorized_state ctx role new (initialized m) =
    set_authority ctx m role new >>= λ m'. ok (initialized m')
authorized_state ctx role new (staked m d credits) =
    set_authority ctx m role new >>= λ m'. ok (staked m' d credits)

unfoldable pub authorize : List ℕ → List KeyedAccount → InvokeContext → Handled
unfolding one_slot
authorize body accounts ctx = do
  (a, rest) ← one_slot accounts
  require_writable ctx a.address
  require (leb 36 (length body))
      (builtin_error ctx.program_id "stake::Authorize: body has {} bytes, need 36")
  st ← read_state a.bytes ctx.program_id
  st' ← authorized_state ctx (word 32 4 body) (read_pubkey body 0) st
  ok (
    record a { bytes = write_state a.bytes st' } ∷ rest,
    "stake::Authorize: {stake_addr} role={role} -> {new_auth}",
  )
