-- ===== src/Fees.antt =====
-- src/fees.rs: the fee of a transaction.
pub mod Signers
use hopper_svm.Prelude.{
  ℕ, ◌/◌, Bool, true, false, not, ◌&&◌, List, [], ◌∷◌, ◌++◌, contains, length, sat_add, sat_mul,
  if◌then◌else◌,
}
use hopper_svm.Error.{Pubkey}
use hopper_svm.Account.{AccountMeta}

abbrev pub default_lamports_per_signature : ℕ
default_lamports_per_signature = 5_000

pub record FeeCalculator : Type 0 where
  pub lamports_per_signature : ℕ

unfoldable pub base_fee : FeeCalculator → ℕ → ℕ
base_fee fc signers = sat_mul fc.lamports_per_signature signers

unfoldable pub priority_fee : ℕ → ℕ → ℕ
priority_fee cu_limit micro_lamports = sat_mul cu_limit micro_lamports / 1_000_000

-- The inner loop of `count_unique_signers`, and the outer one.
unfoldable pub scan : List Pubkey → List AccountMeta → List Pubkey
scan seen [] = seen
scan seen (m ∷ ms) =
    scan (if m.is_signer && not (contains seen m.pubkey) then seen ++ m.pubkey ∷ [] else seen) ms

unfoldable pub scan_all : List Pubkey → List (List AccountMeta) → List Pubkey
scan_all seen [] = seen
scan_all seen (ms ∷ lists) = scan_all (scan seen ms) lists

unfoldable pub count_unique_signers : List (List AccountMeta) → ℕ
count_unique_signers lists = length (scan_all [] lists)

unfoldable pub total_fee : FeeCalculator → ℕ → ℕ → ℕ → ℕ
total_fee fc signers cu_limit micro_lamports =
    sat_add (base_fee fc signers) (priority_fee cu_limit micro_lamports)
