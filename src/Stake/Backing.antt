-- ===== src/Stake/Backing.antt =====
-- src/spl/stake_program.rs: the lamports that a stake account must keep are there, whatever is called.
use hopper_svm.Prelude.{ℕ, ◌+◌, ◌^◌, ◌≤◌, ◌<◌, ◌≡◌, refl, String, List, ◌∷◌, arith, u64_max}
use hopper_svm.Bytes.{AreBytes}
use hopper_svm.Error.{Pubkey, ok}
use hopper_svm.Account.{KeyedAccount}
use hopper_svm.Sdk.{Sdk}
use hopper_svm.Builtin.{InvokeContext}
use hopper_svm.Stake.State.{StakeMeta, StakeAccountState, uninitialized, initialized, staked}
use hopper_svm.Stake.Codec.{StateFits}
use hopper_svm.Stake.Machine
use hopper_svm.Stake.Machine.{HasMeta, Rekeyed, Step}
use hopper_svm.Stake.Refines.{Reads, AreKeys}
use hopper_svm.Stake.Steps.{stake_handle-Moved}
use hopper_svm.Stake.Withdraw.{locked_floor}
use hopper_svm.Stake.{stake_handle}

-- The reserve, and the stake while it is locked, are covered by the balance.
abbrev pub IsBacked : ℕ → ℕ → StakeAccountState → Type 0
IsBacked epoch l st = locked_floor epoch st ≤ l

Rekeyed-floor :
    (epoch : ℕ) (f : StakeMeta → StakeMeta) {st st' : StakeAccountState}
    → ((m : StakeMeta) → (f m).rent_exempt_reserve ≡ m.rent_exempt_reserve)
    → Rekeyed f st st'
    → locked_floor epoch st' ≡ locked_floor epoch st
Rekeyed-floor epoch f keep (Rekeyed.at_rest {m = m}) = keep m
Rekeyed-floor epoch f keep (Rekeyed.at_work {m = m}) = ground (arith, keep m)

Step-IsBacked :
    (ctx : InvokeContext) {l l' : ℕ} {st st' : StakeAccountState}
    → l ≤ u64_max
    → Step ctx l st l' st'
    → IsBacked ctx.sysvars.clock.epoch l st
    → IsBacked ctx.sysvars.clock.epoch l' st'
Step-IsBacked ctx small (Machine.initialize funded) h = funded
Step-IsBacked ctx small (Machine.new_staker {k = k} has signed moved) h =
    rw (Rekeyed-floor ctx.sysvars.clock.epoch _ (λ m. refl) moved) h
Step-IsBacked ctx small (Machine.new_withdrawer {k = k} has signed moved) h =
    rw (Rekeyed-floor ctx.sysvars.clock.epoch _ (λ m. refl) moved) h
Step-IsBacked ctx small (Machine.delegate signed) h = ground arith
Step-IsBacked ctx small (Machine.redelegate signed) h = ground arith
Step-IsBacked ctx small (Machine.deactivate signed active) h = ground arith
Step-IsBacked ctx small (Machine.withdraw n has signed enough) h = omega arith
Step-IsBacked ctx small (Machine.close has signed all) h = omega arith

-- As time passes, no more than before must stay.
later-IsBacked :
    (e e' l : ℕ) (st : StakeAccountState)
    → StateFits st
    → e ≤ e'
    → IsBacked e l st
    → IsBacked e' l st
later-IsBacked e e' l uninitialized fits h b = omega arith
later-IsBacked e e' l (initialized m) fits h b = b
later-IsBacked e e' l (staked m d credits) fits h b = ground arith

-- What may happen to a stake account: an epoch, and the account in it.
pub data Reach (sdk : Sdk) (id : Pubkey) : ℕ → KeyedAccount → Type 0 where
  start : {epoch : ℕ} {a : KeyedAccount} → Reads id a uninitialized → Reach sdk id epoch a
  -- a call that succeeds, with the account in the first slot
  call :
      {a' : KeyedAccount}
      → (bytes : List ℕ) (ctx : InvokeContext) (a : KeyedAccount) (rest after : List KeyedAccount)
        (message : String)
      → ctx.program_id ≡ id
      → Reach sdk id ctx.sysvars.clock.epoch a
      → AreBytes bytes
      → AreKeys rest
      → ctx.sysvars.clock.epoch < 256 ^ 8
      → a.lamports ≤ u64_max
      → stake_handle sdk bytes (a ∷ rest) ctx ≡ ok (a' ∷ after, message)
      → Reach sdk id ctx.sysvars.clock.epoch a'
  -- the clock moves on
  later :
      {epoch' : ℕ} {a : KeyedAccount}
      → (epoch : ℕ) → Reach sdk id epoch a
      → epoch ≤ epoch'
      → Reach sdk id epoch' a
  -- anyone may add lamports
  fund :
      {epoch : ℕ}
      → (a : KeyedAccount) (n : ℕ) → Reach sdk id epoch a
      → Reach sdk id epoch (record a { lamports = a.lamports + n })

-- However a stake account got where it is, from an uninitialized account: by deposits, the passing
-- of epochs, and calls of the program that succeeded, each on data of bytes, slots with 32-byte
-- keys, a `u64` epoch and a `u64` balance: its data reads as a state in range, and the lamports
-- that this state locks are on it.
pub Reach-IsBacked :
    (sdk : Sdk) (id : Pubkey) (epoch : ℕ) (a : KeyedAccount)
    → Reach sdk id epoch a
    → (st : StakeAccountState) × Reads id a st × (locked_floor epoch st ≤ a.lamports)
Reach-IsBacked sdk id epoch a (start reads) = (uninitialized, reads, omega arith)
Reach-IsBacked sdk id epoch a
      (call bytes ctx b rest after message same before are keys now small h) =
    let (st, reads, backed) = Reach-IsBacked sdk id ctx.sysvars.clock.epoch b before in
    let (st', step, reads') =
      stake_handle-Moved sdk bytes ctx b st rest (a ∷ after) message are keys now small
        (rw same reads) h in
    (st', rw (← same) reads', Step-IsBacked ctx small step backed)
Reach-IsBacked sdk id epoch a (later e before h) =
    let (st, reads, backed) = Reach-IsBacked sdk id e a before in
    (st, reads, later-IsBacked e epoch a.lamports st reads.1 h backed)
Reach-IsBacked sdk id epoch a (fund b n before) =
    let (st, reads, backed) = Reach-IsBacked sdk id epoch b before in
    (st, reads, omega (arith, backed))
