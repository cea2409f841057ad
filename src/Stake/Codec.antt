-- ===== src/Stake/Codec.antt =====
-- src/spl/stake_program.rs: the round trip of a stake account's state.
use hopper_svm.Prelude.{
  ℕ, zero, suc, ◌+◌, ◌^◌, ◌≤◌, ◌<◌, ◌≡◌, ◌∙◌, refl, ap, some, false, IsI64, as_u64, as_i64-as_u64,
  as_u64-lt, List, ◌++◌, arith, length, drop, replicate, length-append, length-replicate,
  length-drop, ltb,
}
use hopper_svm.Bytes.Layout.{word, writes, Ordered, nth, word-writes, length-writes}
use hopper_svm.Error.{Pubkey, ok}
use hopper_svm.Stake.State.{
  StakeMeta, StakeDelegation, StakeAccountState, uninitialized, initialized, staked,
  read_discriminator, read_meta, read_delegation, read_state, state_fields, write_state,
  stake_account_size,
}

-- The fields have the ranges of their Rust types.
abbrev pub MetaFits : StakeMeta → Type 0
MetaFits m =
    (m.rent_exempt_reserve < 256 ^ 8)
    × (m.authorized.staker < 256 ^ 32)
    × (m.authorized.withdrawer < 256 ^ 32)
    × IsI64 m.lockup.unix_timestamp
    × (m.lockup.epoch < 256 ^ 8)
    × (m.lockup.custodian < 256 ^ 32)

abbrev pub DelegationFits : StakeDelegation → Type 0
DelegationFits d =
    (d.voter_pubkey < 256 ^ 32)
    × (d.stake < 256 ^ 8)
    × (d.activation_epoch < 256 ^ 8)
    × (d.deactivation_epoch < 256 ^ 8)
    × (d.warmup_cooldown_rate < 256 ^ 8)

abbrev pub StateFits : StakeAccountState → Type 0
StateFits uninitialized = Unit
StateFits (initialized m) = MetaFits m
StateFits (staked m d credits) = MetaFits m × DelegationFits d × (credits < 256 ^ 8)

abbrev zeroed : List ℕ → List ℕ
zeroed bytes = replicate stake_account_size 0 ++ drop stake_account_size bytes

length-zeroed : (bytes : List ℕ) → 200 ≤ length bytes → length (zeroed bytes) ≡ length bytes
length-zeroed bytes long = omega (
  arith,
  length-append (replicate {A = ℕ} 200 0) (drop 200 bytes),
  length-replicate {A = ℕ} 200 0,
  length-drop 200 bytes,
)

state_fields-Ordered : (st : StakeAccountState) → Ordered 200 0 (state_fields st)
state_fields-Ordered uninitialized = omega arith
state_fields-Ordered (initialized m) = omega arith
state_fields-Ordered (staked m d credits) = omega arith

pub length-write_state :
    (bytes : List ℕ) (st : StakeAccountState)
    → 200 ≤ length bytes
    → length (write_state bytes st) ≡ length bytes
unfolding write_state
length-write_state bytes st long =
    length-writes (state_fields st) (zeroed bytes) 200 0 (state_fields-Ordered st)
      (omega (arith, length-zeroed bytes long))
    ∙ length-zeroed bytes long

module _ (bytes : List ℕ) (st : StakeAccountState) (long : 200 ≤ length bytes) where
  -- A field of the state reads as its value in the bytes that are written.
  field :
      (k o w v : ℕ)
      → nth k (state_fields st) ≡ some (o, w, v)
      → v < 256 ^ w
      → word o w (write_state bytes st) ≡ v
  unfolding write_state
  field k o w v e small =
      word-writes k (state_fields st) (zeroed bytes) 200 0 o w v e (state_fields-Ordered st)
        (omega (arith, length-zeroed bytes long)) small

module _ (bytes : List ℕ) (m : StakeMeta) (long : 200 ≤ length bytes) (fits : MetaFits m) where
  read_meta-initialized : read_meta (write_state bytes (initialized m)) ≡ m
  unfolding read_meta
  read_meta-initialized =
      let (f0, f1, f2, f3, f4, f5) = fits in
      let get = field bytes (initialized m) long in
      rw
        (
          get 1 4 8 m.rent_exempt_reserve refl f0,
          get 2 12 32 m.authorized.staker refl f1,
          get 3 44 32 m.authorized.withdrawer refl f2,
          get 4 76 8 (as_u64 m.lockup.unix_timestamp) refl (as_u64-lt m.lockup.unix_timestamp f3),
          get 5 84 8 m.lockup.epoch refl f4,
          get 6 92 32 m.lockup.custodian refl f5,
          as_i64-as_u64 m.lockup.unix_timestamp f3,
        )
        refl

module _ (bytes : List ℕ) (m : StakeMeta) (d : StakeDelegation) (credits : ℕ)
    (long : 200 ≤ length bytes) (fits : StateFits (staked m d credits)) where
  read_meta-staked : read_meta (write_state bytes (staked m d credits)) ≡ m
  unfolding read_meta
  read_meta-staked =
      let (f0, f1, f2, f3, f4, f5) = fits.0 in
      let get = field bytes (staked m d credits) long in
      rw
        (
          get 1 4 8 m.rent_exempt_reserve refl f0,
          get 2 12 32 m.authorized.staker refl f1,
          get 3 44 32 m.authorized.withdrawer refl f2,
          get 4 76 8 (as_u64 m.lockup.unix_timestamp) refl (as_u64-lt m.lockup.unix_timestamp f3),
          get 5 84 8 m.lockup.epoch refl f4,
          get 6 92 32 m.lockup.custodian refl f5,
          as_i64-as_u64 m.lockup.unix_timestamp f3,
        )
        refl

  read_delegation-staked : read_delegation (write_state bytes (staked m d credits)) ≡ d
  unfolding read_delegation
  read_delegation-staked =
      let (g0, g1, g2, g3, g4) = fits.1 in
      let get = field bytes (staked m d credits) long in
      rw
        (
          get 7 124 32 d.voter_pubkey refl g0,
          get 8 156 8 d.stake refl g1,
          get 9 164 8 d.activation_epoch refl g2,
          get 10 172 8 d.deactivation_epoch refl g3,
          get 11 180 8 d.warmup_cooldown_rate refl g4,
        )
        refl

word-zeros : (n o w : ℕ) (rest : List ℕ) → o + w ≤ n → word o w (replicate n 0 ++ rest) ≡ 0
word-zeros zero zero zero rest h = refl
word-zeros zero zero (suc w) rest h = absurd (omega arith)
word-zeros zero (suc o) w rest h = absurd (omega arith)
word-zeros (suc n) zero zero rest h = refl
word-zeros (suc n) zero (suc w) rest h = omega (arith, word-zeros n 0 w rest (omega arith))
word-zeros (suc n) (suc o) w rest h = word-zeros n o w rest (omega arith)

write_state-zeros : (bytes : List ℕ) → word 0 4 (write_state bytes uninitialized) ≡ 0
unfolding write_state writes
write_state-zeros bytes = word-zeros 200 0 4 (drop 200 bytes) (omega arith)

ltb-false : (a b : ℕ) → b ≤ a → ltb a b ≡ false
ltb-false a b h = ground arith

-- What a buffer reads as, by its discriminator.
module _ (bytes : List ℕ) (id : Pubkey) (long : 200 ≤ length bytes) where
  read_discriminator-eq : read_discriminator bytes ≡ word 0 4 bytes
  unfolding read_discriminator
  read_discriminator-eq = ground arith

  pub read_state-uninitialized : word 0 4 bytes ≡ 0 → read_state bytes id ≡ ok uninitialized
  unfolding read_state
  read_state-uninitialized tag =
      rw (ltb-false (length bytes) 200 long, read_discriminator-eq, tag) refl

  read_state-initialized :
      word 0 4 bytes ≡ 1 → read_state bytes id ≡ ok (initialized (read_meta bytes))
  unfolding read_state
  read_state-initialized tag =
      rw (ltb-false (length bytes) 200 long, read_discriminator-eq, tag) refl

  read_state-staked :
      word 0 4 bytes ≡ 2
      → read_state bytes id
        ≡ ok (staked (read_meta bytes) (read_delegation bytes) (word 188 8 bytes))
  unfolding read_state
  read_state-staked tag = rw (ltb-false (length bytes) 200 long, read_discriminator-eq, tag) refl

-- A state in the ranges of its Rust types that is written into 200 bytes or more reads back as the
-- same state.
pub read_state-write_state :
    (bytes : List ℕ) (st : StakeAccountState) (id : Pubkey)
    → 200 ≤ length bytes
    → StateFits st
    → read_state (write_state bytes st) id ≡ ok st
read_state-write_state bytes uninitialized id long fits =
    let size = length-write_state bytes uninitialized long in
    read_state-uninitialized (write_state bytes uninitialized) id (omega (arith, size))
      (write_state-zeros bytes)
read_state-write_state bytes (initialized m) id long fits =
    let size = length-write_state bytes (initialized m) long in
    let tag = field bytes (initialized m) long 0 0 4 1 refl (omega arith) in
    read_state-initialized (write_state bytes (initialized m)) id (omega (arith, size)) tag
    ∙ ap (λ x. ok (initialized x)) (read_meta-initialized bytes m long fits)
read_state-write_state bytes (staked m d credits) id long fits =
    let size = length-write_state bytes (staked m d credits) long in
    let get = field bytes (staked m d credits) long in
    let tag = get 0 0 4 2 refl (omega arith) in
    let last = get 12 188 8 credits refl fits.2 in
    read_state-staked (write_state bytes (staked m d credits)) id (omega (arith, size)) tag ∙ (λ i.
      ok (
        staked (read_meta-staked bytes m d credits long fits i)
          (read_delegation-staked bytes m d credits long fits i) (last i)))
