-- ===== src/Harness/Clock.antt =====
-- src/lib.rs: the two moves of the clock agree.
use hopper_svm.Prelude.{
  ℕ, pos, ◌+◌, ◌-◌, ◌*◌, ◌^◌, ◌≤◌, ◌<◌, ◌≡◌, refl, ◌∙◌, sym, ap, arith, u64_max, as_i64,
  sat_add_i64, sat_sub_i64, sat_mul_i64, div_i64,
}
use hopper_svm.Harness.{HopperSvm}
use hopper_svm.Harness.Warp.{moved, warp_to_slot, warp_to_timestamp}

-- The milliseconds and the seconds of five slots, times k.
seconds :
    (t k : ℕ)
    → t + 2 * k < 2 ^ 53
    → sat_add_i64 (pos t) (div_i64 (sat_mul_i64 (pos (5 * k)) 400) 1_000) ≡ pos (t + 2 * k)
seconds t k small = ground arith

slots :
    (t k : ℕ)
    → t + 2 * k < 2 ^ 53
    → div_i64 (sat_mul_i64 (sat_sub_i64 (pos (t + 2 * k)) (pos t)) 1_000) 400 ≡ pos (5 * k)
slots t k small = ground arith

elapsed : (slot t k : ℕ) → t + 2 * k < 2 ^ 53 → as_i64 (slot + 5 * k - slot) ≡ pos (5 * k)
elapsed slot t k small = ground arith

-- From a timestamp t, as long as it stays below 2 ^ 53 seconds and the slot a `u64`, a move by 5 k
-- slots and a move by 2 k seconds end in the same harness: same slot, same timestamp, same epoch, or
-- the same panic.
pub warp_to_slot-eq :
    (svm : HopperSvm) (t k : ℕ)
    → svm.sysvars.clock.unix_timestamp ≡ pos t
    → t + 2 * k < 2 ^ 53
    → svm.sysvars.clock.slot + 5 * k ≤ u64_max
    → warp_to_slot svm (svm.sysvars.clock.slot + 5 * k) ≡ warp_to_timestamp svm (pos (t + 2 * k))
unfolding warp_to_slot warp_to_timestamp
warp_to_slot-eq svm t k now small room =
    let slot = svm.sysvars.clock.slot in
    let by_slot : warp_to_slot svm (slot + 5 * k) ≡ moved svm (pos (t + 2 * k)) (slot + 5 * k) =
      rw (now, elapsed slot t k small, seconds t k small) refl in
    let by_time : warp_to_timestamp svm (pos (t + 2 * k))
        ≡ moved svm (pos (t + 2 * k)) (slot + 5 * k) =
      rw (now, slots t k small) (ap (moved svm (pos (t + 2 * k))) (omega (arith, room))) in
    by_slot ∙ sym by_time
