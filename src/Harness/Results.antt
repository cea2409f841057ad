-- ===== src/Harness/Results.antt =====
-- src/result.rs: what a caller reads off a result. An assertion is `none` where it panics; its
-- comparison of errors is the comparison of their descriptions, a parameter.
use hopper_svm.Prelude.{
  ℕ, Bool, true, false, not, ◌&&◌, Option, none, some, List, [], ◌∷◌, ◌==◌, leb, length, take,
  bytes_eq, replicate, if◌then◌else◌,
}
use hopper_svm.Bytes.{slice}
use hopper_svm.Bytes.Layout.{word}
use hopper_svm.Error.{Pubkey, HopperSvmError}
use hopper_svm.Account.{KeyedAccount, find_account}
use hopper_svm.Harness.{HopperExecutionResult}

unfoldable pub is_success : HopperExecutionResult → Bool
is_success r = elim r.outcome.error [ none ↦ true | some e ↦ false ]

unfoldable pub is_error : HopperExecutionResult → Bool
is_error r = elim r.outcome.error [ none ↦ false | some e ↦ true ]

unfoldable pub account : HopperExecutionResult → Pubkey → Option KeyedAccount
account r addr = find_account addr r.outcome.resulting_accounts

unfoldable pub assert_inner_instruction_count : HopperExecutionResult → ℕ → Option (Unit {0})
assert_inner_instruction_count r expected =
    if length r.outcome.inner_instructions == expected then some tt else none

unfoldable pub assert_success : HopperExecutionResult → Option (Unit {0})
assert_success r = elim r.outcome.error [ none ↦ some tt | some e ↦ none ]

-- `same` tells whether two errors have one description.
unfoldable pub assert_error :
    (HopperSvmError → HopperSvmError → Bool)
    → HopperExecutionResult
    → HopperSvmError
    → Option (Unit {0})
assert_error same r expected = elim r.outcome.error [
  | none ↦ none
  | some actual ↦ if same actual expected then some tt else none
]

unfoldable pub decode_header : HopperExecutionResult → Pubkey → Option (List ℕ)
decode_header r addr = elim (find_account addr r.outcome.resulting_accounts) [
  | none ↦ none
  | some a ↦ if leb 16 (length a.bytes) then some (take 16 a.bytes) else none
]

-- The test of the filter: a discriminator and a layout id that are not zero.
abbrev pub has_header : KeyedAccount → Bool
has_header a =
    leb 16 (length a.bytes)
    && not (word 0 4 a.bytes == 0)
    && not (bytes_eq (slice 8 8 a.bytes) (replicate 8 0))

unfoldable pub keep_headers : List KeyedAccount → List KeyedAccount
keep_headers [] = []
keep_headers (a ∷ rest) = let kept = keep_headers rest in if has_header a then a ∷ kept else kept

unfoldable pub hopper_accounts : HopperExecutionResult → List KeyedAccount
hopper_accounts r = keep_headers r.outcome.resulting_accounts
