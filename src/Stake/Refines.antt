-- ===== src/Stake/Refines.antt =====
-- src/spl/stake_program.rs: a success of the program is a step of the stake account in its first slot.
use hopper_svm.Prelude.{
  ℕ, zero, suc, ◌-◌, ◌^◌, ◌≤◌, ◌<◌, ◌≡◌, refl, inl, inr, Bool-cases, ==-true, leb-true, String,
  List, [], ◌∷◌, ◌==◌, leb, arith, length, replicate, u64_max, length-replicate,
}
use hopper_svm.Bytes.{AreBytes}
use hopper_svm.Bytes.Layout.{word, word-lt}
use hopper_svm.Error.{Pubkey, Result-cases, ok, require-eq-ok, then-eq-ok}
use hopper_svm.Account.{KeyedAccount}
use hopper_svm.Sdk.{Sdk}
use hopper_svm.Sysvar.{minimum_balance}
use hopper_svm.Builtin.{InvokeContext, require_writable}
use hopper_svm.System.Slots.{Handled}
use hopper_svm.System.Create.{debit}
use hopper_svm.System.Transfers.{credit}
use hopper_svm.Stake.State.{
  StakeMeta, StakeAccountState, uninitialized, initialized, read_pubkey, read_state,
  read_discriminator, write_state,
}
use hopper_svm.Stake.Codec.{StateFits, read_state-write_state, read_state-uninitialized}
use hopper_svm.Stake.Bounds.{
  new_meta-MetaFits, authorized_state-StateFits, delegated_state-StateFits,
  deactivated_state-StateFits,
}
use hopper_svm.Stake.Machine
use hopper_svm.Stake.Machine.{
  Signs, HasMeta, Step, authorized_state-Step, delegated_state-Step, deactivated_state-Step,
  withdrawer_of-HasMeta,
}
use hopper_svm.Stake.Setup.{new_meta, initialize, authorize, authorized_state}
use hopper_svm.Stake.Delegate.{delegate_stake, deactivate, delegated_state, deactivated_state}
use hopper_svm.Stake.Withdraw.{withdraw, withdrawer_of, locked_floor, wiped}

-- The data of an account reads as a state in the ranges of its Rust types.
abbrev pub Reads : Pubkey → KeyedAccount → StakeAccountState → Type 0
Reads id a st = (read_state a.bytes id ≡ ok st) × StateFits st

-- The account at the head after a success.
abbrev pub Moved : InvokeContext → KeyedAccount → StakeAccountState → List KeyedAccount → Type 0
Moved ctx a st [] = ⊥
Moved ctx a st (a' ∷ rest) =
    (st' : StakeAccountState) × Step ctx a.lamports st a'.lamports st' × Reads ctx.program_id a' st'

abbrev pub AreKeys : List KeyedAccount → Type 0
AreKeys [] = Unit
AreKeys (a ∷ rest) = (a.address < 256 ^ 32) × AreKeys rest

pub read_state-length :
    (bytes : List ℕ) (id : Pubkey) (st : StakeAccountState)
    → read_state bytes id ≡ ok st
    → 200 ≤ length bytes
unfolding read_state
read_state-length bytes id st h = ground arith

read_state-zeros :
    (bytes : List ℕ) (id : Pubkey) (st : StakeAccountState)
    → read_state bytes id ≡ ok st
    → read_discriminator bytes ≡ 0
    → st ≡ uninitialized
unfolding read_state
read_state-zeros bytes id st h blank = ground arith

word-replicate : (n : ℕ) → 4 ≤ n → word 0 4 (replicate n 0) ≡ 0
word-replicate (suc (suc (suc (suc n)))) h = refl
word-replicate (suc (suc (suc zero))) h = absurd (omega arith)
word-replicate (suc (suc zero)) h = absurd (omega arith)
word-replicate (suc zero) h = absurd (omega arith)
word-replicate zero h = absurd (omega arith)

read_state-zeroed :
    (n : ℕ) (id : Pubkey) → 200 ≤ n → read_state (replicate n 0) id ≡ ok uninitialized
read_state-zeroed n id long =
    let size = length-replicate {A = ℕ} n 0 in
    read_state-uninitialized (replicate n 0) id (omega (arith, size))
      (word-replicate n (omega arith))

ok-fst :
    {xs ys : List KeyedAccount} {m n : String}
    → ◌≡◌ {A = Handled} (ok (xs, m)) (ok (ys, n))
    → xs ≡ ys
ok-fst h = cc

initialize-facts :
    (sdk : Sdk) (body : List ℕ) (a : KeyedAccount) (rest after : List KeyedAccount)
    (ctx : InvokeContext) (message : String)
    → initialize sdk body (a ∷ rest) ctx ≡ ok (after, message)
    → let reserve = minimum_balance sdk ctx.sysvars.rent 200 in
      (read_discriminator a.bytes ≡ 0)
      × (112 ≤ length body)
      × (reserve ≤ a.lamports)
      × (record a { bytes = write_state a.bytes (initialized (new_meta body reserve)) } ∷ rest
          ≡ after)
unfolding initialize
initialize-facts sdk body a rest after ctx message h =
    let reserve = minimum_balance sdk ctx.sysvars.rent 200 in
    let (writable, h1) = then-eq-ok (require_writable ctx a.address) _ h in
    let (size, h2) = require-eq-ok (length a.bytes == 200) _ _ h1 in
    let (blank, h3) = require-eq-ok (read_discriminator a.bytes == 0) _ _ h2 in
    let (long, h4) = require-eq-ok (leb 112 (length body)) _ _ h3 in
    let (funded, h5) = require-eq-ok (leb reserve a.lamports) _ _ h4 in
    (==-true _ _ blank, leb-true _ _ long, leb-true _ _ funded, ok-fst h5)

module _ (ctx : InvokeContext) (a : KeyedAccount) (st : StakeAccountState)
    (reads : Reads ctx.program_id a st) (small : a.lamports ≤ u64_max) where
  rewritten :
      (st' : StakeAccountState)
      → StateFits st'
      → Reads ctx.program_id (record a { bytes = write_state a.bytes st' }) st'
  rewritten st' fits =
      let long = read_state-length a.bytes ctx.program_id st reads.0 in
      (read_state-write_state a.bytes st' ctx.program_id long fits, fits)

  module _ (body : List ℕ) (bytes : AreBytes body) where
    pub initialize-Moved :
        (sdk : Sdk) (rest after : List KeyedAccount) (message : String)
        → initialize sdk body (a ∷ rest) ctx ≡ ok (after, message)
        → Moved ctx a st after
    initialize-Moved sdk rest after message h =
        let reserve = minimum_balance sdk ctx.sysvars.rent 200 in
        let (blank, long, funded, e) = initialize-facts sdk body a rest after ctx message h in
        let fresh = read_state-zeros a.bytes ctx.program_id st reads.0 blank in
        let fits = new_meta-MetaFits body reserve bytes long (omega arith) in
        let st' = initialized (new_meta body reserve) in
        rw (← e) (st', rw fresh (Machine.initialize funded), rewritten st' fits)

    pub authorize-Moved :
        (rest after : List KeyedAccount) (message : String)
        → authorize body (a ∷ rest) ctx ≡ ok (after, message)
        → Moved ctx a st after
    unfolding authorize
    authorize-Moved rest after message h =
        let role = word 32 4 body in
        let new = read_pubkey body 0 in
        let long : 36 ≤ length body = ground arith in
        elim (Result-cases (authorized_state ctx role new st)) [
          | inl (st', made) ↦
              let e : record a { bytes = write_state a.bytes st' } ∷ rest ≡ after =
                ground (arith, reads.0) in
              let key = word-lt 0 32 body bytes (omega (arith, long)) in
              let fits = authorized_state-StateFits ctx role new st st' reads.1 key made in
              rw (← e)
                (st', authorized_state-Step ctx a.lamports role new st st' made, rewritten st' fits)
          | inr failed ↦ absurd (ground (arith, reads.0))
        ]

    pub delegate_stake-Moved :
        (b : KeyedAccount) (rest after : List KeyedAccount) (message : String)
        → b.address < 256 ^ 32
        → ctx.sysvars.clock.epoch < 256 ^ 8
        → delegate_stake body (a ∷ b ∷ rest) ctx ≡ ok (after, message)
        → Moved ctx a st after
    unfolding delegate_stake
    delegate_stake-Moved b rest after message key now h =
        elim (Result-cases (delegated_state ctx a.lamports b.address st)) [
          | inl (st', made) ↦
              let e : record a { bytes = write_state a.bytes st' } ∷ b ∷ rest ≡ after =
                ground (arith, reads.0) in
              let fits =
                delegated_state-StateFits ctx a.lamports b.address st st' reads.1 small key now
                  made in
              rw (← e)
                (st', delegated_state-Step ctx a.lamports b.address st st' made, rewritten st' fits)
          | inr failed ↦ absurd (ground (arith, reads.0))
        ]

    pub deactivate-Moved :
        (rest after : List KeyedAccount) (message : String)
        → ctx.sysvars.clock.epoch < 256 ^ 8
        → deactivate body (a ∷ rest) ctx ≡ ok (after, message)
        → Moved ctx a st after
    unfolding deactivate
    deactivate-Moved rest after message now h = elim (Result-cases (deactivated_state ctx st)) [
      | inl (st', made) ↦
          let e : record a { bytes = write_state a.bytes st' } ∷ rest ≡ after =
            ground (arith, reads.0) in
          let fits = deactivated_state-StateFits ctx st st' reads.1 now made in
          rw (← e) (st', deactivated_state-Step ctx a.lamports st st' made, rewritten st' fits)
      | inr failed ↦ absurd (ground (arith, reads.0))
    ]

    -- An account that `Withdraw` leaves empty reads as uninitialized.
    wiped-Moved :
        (m : StakeMeta) (n : ℕ) (rest : List KeyedAccount)
        → HasMeta st m
        → Signs ctx m.authorized.withdrawer
        → n ≤ a.lamports - locked_floor ctx.sysvars.clock.epoch st
        → Moved ctx a st (wiped (debit a n) ∷ rest)
    wiped-Moved m n rest has signed enough = elim (Bool-cases (a.lamports - n == 0)) [
      | inl gone ↦
          let long = read_state-length a.bytes ctx.program_id st reads.0 in
          let e : wiped (debit a n)
              ≡ record a { lamports = 0; bytes = replicate (length a.bytes) 0 } =
            ground arith in
          let all : a.lamports ≤ a.lamports - locked_floor ctx.sysvars.clock.epoch st =
            ground arith in
          rw e (
            uninitialized,
            Machine.close has signed all,
            (read_state-zeroed (length a.bytes) ctx.program_id long, tt),
          )
      | inr left ↦
          let e : wiped (debit a n) ≡ debit a n = ground arith in
          rw e (st, Machine.withdraw n has signed enough, reads)
    ]

    pub withdraw-Moved :
        (b : KeyedAccount) (rest after : List KeyedAccount) (message : String)
        → withdraw body (a ∷ b ∷ rest) ctx ≡ ok (after, message)
        → Moved ctx a st after
    unfolding withdraw
    withdraw-Moved b rest after message h = elim (Result-cases (withdrawer_of ctx st)) [
      | inl (k, named) ↦
          let (m, has, owner) = withdrawer_of-HasMeta ctx st k named in
          let signed : Signs ctx k = ground (arith, reads.0) in
          let n = word 0 8 body in
          let enough : n ≤ a.lamports - locked_floor ctx.sysvars.clock.epoch st =
            ground (arith, reads.0) in
          let e : wiped (debit a n) ∷ credit b n ∷ rest ≡ after = ground (arith, reads.0) in
          rw (← e) (wiped-Moved m n (credit b n ∷ rest) has (rw owner signed) enough)
      | inr failed ↦ absurd (ground (arith, reads.0))
    ]
