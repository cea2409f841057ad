-- ===== src/Fees/Signers.antt =====
-- src/fees.rs: which signers are counted, and the range of the fee.
use hopper_svm.Prelude.{
  ℕ, ◌+◌, ◌*◌, ◌≤◌, ◌/◌, ◌≡◌, refl, ◌≢◌, Bool, true, false, not, ◌&&◌, ◌||◌, List, [], ◌∷◌, ◌++◌,
  ◌==◌, contains, contains-push, length, arith, u64_max, min, if◌then◌else◌,
}
use hopper_svm.Error.{Pubkey}
use hopper_svm.Account.{AccountMeta}
use hopper_svm.Fees.{
  scan, scan_all, count_unique_signers, FeeCalculator, base_fee, priority_fee, total_fee,
}

-- Some meta of the key, in some instruction, signs.
abbrev pub signs : Pubkey → List AccountMeta → Bool
signs k [] = false
signs k (m ∷ ms) = (m.is_signer && m.pubkey == k) || signs k ms

abbrev pub signs_any : Pubkey → List (List AccountMeta) → Bool
signs_any k [] = false
signs_any k (ms ∷ lists) = signs k ms || signs_any k lists

-- No key stands twice.
abbrev pub IsDistinct : List Pubkey → Type 0
IsDistinct [] = Unit
IsDistinct (k ∷ ks) = (contains ks k ≡ false) × IsDistinct ks

push-IsDistinct :
    (seen : List Pubkey) (j : Pubkey)
    → IsDistinct seen
    → contains seen j ≡ false
    → IsDistinct (seen ++ j ∷ [])
push-IsDistinct [] j d h = ground arith
push-IsDistinct (x ∷ seen) j d h = ground (arith, contains-push seen j x, push-IsDistinct seen j)

contains-scan :
    (k : Pubkey) (seen : List Pubkey) (ms : List AccountMeta)
    → contains (scan seen ms) k ≡ (contains seen k || signs k ms)
unfolding scan
contains-scan k seen [] = ground arith
contains-scan k seen (m ∷ ms) = ground (
  arith,
  contains-scan k
      (if m.is_signer && not (contains seen m.pubkey) then seen ++ m.pubkey ∷ [] else seen) ms,
  contains-push seen m.pubkey k,
)

scan-IsDistinct :
    (seen : List Pubkey) (ms : List AccountMeta) → IsDistinct seen → IsDistinct (scan seen ms)
unfolding scan
scan-IsDistinct seen [] d = d
scan-IsDistinct seen (m ∷ ms) d =
    scan-IsDistinct
      (if m.is_signer && not (contains seen m.pubkey) then seen ++ m.pubkey ∷ [] else seen) ms
      (ground (arith, push-IsDistinct seen m.pubkey))

contains-scan_all :
    (k : Pubkey) (seen : List Pubkey) (lists : List (List AccountMeta))
    → contains (scan_all seen lists) k ≡ (contains seen k || signs_any k lists)
unfolding scan_all
contains-scan_all k seen [] = ground arith
contains-scan_all k seen (ms ∷ lists) =
    ground (arith, contains-scan_all k (scan seen ms) lists, contains-scan k seen ms)

scan_all-IsDistinct :
    (seen : List Pubkey) (lists : List (List AccountMeta))
    → IsDistinct seen
    → IsDistinct (scan_all seen lists)
unfolding scan_all
scan_all-IsDistinct seen [] d = d
scan_all-IsDistinct seen (ms ∷ lists) d =
    scan_all-IsDistinct (scan seen ms) lists (scan-IsDistinct seen ms d)

abbrev erase : Pubkey → List Pubkey → List Pubkey
erase k [] = []
erase k (x ∷ xs) = if x == k then xs else x ∷ erase k xs

length-erase :
    (k : Pubkey) (xs : List Pubkey) → contains xs k ≡ true → length (erase k xs) + 1 ≡ length xs
length-erase k [] h = ground arith
length-erase k (x ∷ xs) h = ground (arith, length-erase k xs)

contains-erase_ne :
    (k j : Pubkey) (xs : List Pubkey) → j ≢ k → contains (erase k xs) j ≡ contains xs j
contains-erase_ne k j [] h = refl
contains-erase_ne k j (x ∷ xs) h = ground (arith, contains-erase_ne k j xs h)

-- Distinct keys that all stand in `ys` are no more than the entries of `ys`.
length_mono :
    (xs ys : List Pubkey)
    → IsDistinct xs
    → ((k : Pubkey) → contains xs k ≡ true → contains ys k ≡ true)
    → length xs ≤ length ys
length_mono [] ys d sub = omega arith
length_mono (x ∷ xs) ys d sub =
    let found : contains ys x ≡ true = sub x (ground arith) in
    omega (
      arith,
      length-erase x ys found,
      length_mono xs (erase x ys) d.1 (λ k h. ground (arith, contains-erase_ne x k ys, sub k)),
    )

-- The count is the length of every list that holds each key which signs somewhere, once, and no
-- other key: neither the order of the instructions nor repeated signatures matter.
pub count_unique_signers_lem :
    (lists : List (List AccountMeta)) (ks : List Pubkey)
    → IsDistinct ks
    → ((k : Pubkey) → contains ks k ≡ signs_any k lists)
    → count_unique_signers lists ≡ length ks
unfolding count_unique_signers
count_unique_signers_lem lists ks d same = omega (
  arith,
  length_mono (scan_all [] lists) ks (scan_all-IsDistinct [] lists tt)
      (λ k h. ground (arith, contains-scan_all k [] lists, same k)),
  length_mono ks (scan_all [] lists) d
      (λ k h. ground (arith, contains-scan_all k [] lists, same k)),
)

-- Where the product of the unit limit and the price is a `u64`, the fee is the base fee of each
-- signer plus the priority fee, rounded down to a lamport, and capped at `u64::MAX`.
pub total_fee-eq :
    (fc : FeeCalculator) (signers cu_limit price : ℕ)
    → cu_limit * price ≤ u64_max
    → total_fee fc signers cu_limit price
      ≡ min (fc.lamports_per_signature * signers + cu_limit * price / 1_000_000) u64_max
unfolding total_fee base_fee priority_fee
total_fee-eq fc signers cu_limit price h = ground arith
