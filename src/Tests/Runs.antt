-- ===== src/Tests/Runs.antt =====
-- A transfer through the harness and a move of its clock at concrete inputs.
use hopper_svm.Prelude.{pos, ◌≡◌, refl, none, some, [], ◌∷◌, arith}
use hopper_svm.Bytes.{le_encode}
use hopper_svm.Harness.{HopperExecutionResult, process_instruction}
use hopper_svm.Harness.Payment.{process_instruction-transfer}
use hopper_svm.Tests.Fixtures.{sdk, alice, bob, account, meta, svm, pay}
use hopper_svm.Map
use hopper_svm.Harness.Warp.{warp_to_slot, warp_to_timestamp}
use hopper_svm.Harness.Clock.{warp_to_slot-eq}

process_instruction-transfer_example :
    (r : HopperExecutionResult) × (process_instruction sdk svm (pay 200) (alice ∷ bob ∷ [])
      ≡ some (r, svm))
    × (r.outcome.error ≡ none)
    × (r.outcome.resulting_accounts ≡ account 1 300 [] 0 ∷ account 2 200 [] 0 ∷ [])
    × (r.outcome.compute_units_consumed ≡ 150)
unfolding Map.lookup
process_instruction-transfer_example =
    process_instruction-transfer sdk (meta 1) (meta 2) alice bob (le_encode 8 200) refl refl
      (omega arith) refl refl refl (omega arith) refl (omega arith) (omega arith) svm refl
      (omega arith)

warp_to_slot-eq_example : warp_to_slot svm 25 ≡ warp_to_timestamp svm (pos 1_006)
warp_to_slot-eq_example = warp_to_slot-eq svm 1_000 3 refl (omega arith) (omega arith)
