-- ===== src/Harness/Warp.antt =====
-- src/lib.rs: the moves of the clock. `none` is the panic of a division by zero or of an overflow.
use hopper_svm.Prelude.{
  ℕ, suc, ◌+◌, ◌-◌, ◌/◌, ℤ, pos, negsuc, as_i64, sat_add_i64, sat_sub_i64, sat_mul_i64, div_i64,
  pos_part, Option, none, some, ◌==◌, ltb, leb, sat_add, u64_max, if◌then◌else◌,
}
use hopper_svm.Sysvar.{Clock, EpochSchedule}
use hopper_svm.Harness.{HopperSvm}

unfoldable pub epoch_of : EpochSchedule → ℕ → Option ℕ
epoch_of es slot =
    if ltb slot es.first_normal_slot
    then some (slot / 32)
    else if es.slots_per_epoch == 0
    then none
    else (let epoch = es.first_normal_epoch + (slot - es.first_normal_slot) / es.slots_per_epoch in
        if leb epoch u64_max then some epoch else none)

abbrev pub set_clock : HopperSvm → Clock → HopperSvm
set_clock svm clock = record svm { sysvars = record svm.sysvars { clock = clock } }

-- The clock with a new timestamp, slot and epoch.
abbrev pub moved : HopperSvm → ℤ → ℕ → Option HopperSvm
moved svm time slot = elim (epoch_of svm.sysvars.epoch_schedule slot) [
  | none ↦ none
  | some epoch ↦ some (
      set_clock svm
        (record svm.sysvars.clock { unix_timestamp = time; slot = slot; epoch = epoch }))
]

unfoldable pub warp_to_slot : HopperSvm → ℕ → Option HopperSvm
warp_to_slot svm slot =
    let clock = svm.sysvars.clock in
    let elapsed = as_i64 (slot - clock.slot) in
    moved svm (sat_add_i64 clock.unix_timestamp (div_i64 (sat_mul_i64 elapsed 400) 1000)) slot

-- `prev_slot.saturating_add(delta as u64)`, or `prev_slot.saturating_sub((-delta) as u64)`
abbrev pub shift_slot : ℕ → ℤ → ℕ
shift_slot slot (pos n) = sat_add slot n
shift_slot slot (negsuc n) = slot - suc n

unfoldable pub warp_to_timestamp : HopperSvm → ℤ → Option HopperSvm
warp_to_timestamp svm time =
    let clock = svm.sysvars.clock in
    let delta_ms = sat_mul_i64 (sat_sub_i64 time clock.unix_timestamp) 1000 in
    moved svm (pos (pos_part time)) (shift_slot clock.slot (div_i64 delta_ms 400))
