-- ===== src/Harness/Charge.antt =====
-- src/lib.rs: the charge of `process_transaction`, on the accounts.
use hopper_svm.Prelude.{ℕ, ◌+◌, ◌-◌, ◌⊎◌, ◌≢◌, refl, ◌≤◌, ◌≡◌, some, List, [], ◌∷◌, arith}
use hopper_svm.Error.{Pubkey}
use hopper_svm.Account.{KeyedAccount, find_account, total_lamports}
use hopper_svm.Harness.Chain.{charge}

pub total_lamports-charge :
    (payer : Pubkey) (fee : ℕ) (accounts : List KeyedAccount) (p : KeyedAccount)
    → find_account payer accounts ≡ some p
    → fee ≤ p.lamports
    → total_lamports (charge payer fee accounts) + fee ≡ total_lamports accounts
unfolding charge
total_lamports-charge payer fee [] p h l = ground arith
total_lamports-charge payer fee (a ∷ rest) p h l =
    ground (arith, total_lamports-charge payer fee rest p)

find_account-charge :
    (payer : Pubkey) (fee : ℕ) (accounts : List KeyedAccount) (p : KeyedAccount)
    → find_account payer accounts ≡ some p
    → find_account payer (charge payer fee accounts)
      ≡ some (record p { lamports = p.lamports - fee })
unfolding charge
find_account-charge payer fee [] p h = ground arith
find_account-charge payer fee (a ∷ rest) p h = ground (arith, find_account-charge payer fee rest p)

find_account-charge-other :
    (payer : Pubkey) (fee : ℕ) (accounts : List KeyedAccount) (k : Pubkey)
    → k ≢ payer
    → find_account k (charge payer fee accounts) ≡ find_account k accounts
unfolding charge
find_account-charge-other payer fee [] k ne = refl
find_account-charge-other payer fee (a ∷ rest) k ne =
    ground (arith, find_account-charge-other payer fee rest k)

-- The accounts `start` are `accounts` after the payer `p` has paid the fee: its balance, and with it
-- the sum of all, is less by the fee, and any other address holds what it held.
abbrev pub IsCharged : Pubkey → KeyedAccount → ℕ → List KeyedAccount → List KeyedAccount → Type 0
IsCharged payer p fee accounts start =
    (fee ≤ p.lamports)
    × (find_account payer start ≡ some (record p { lamports = p.lamports - fee }))
    × (total_lamports start + fee ≡ total_lamports accounts)
    × ((k : Pubkey) → (k ≡ payer) ⊎ (find_account k start ≡ find_account k accounts))

pub charge-IsCharged :
    (payer : Pubkey) (fee : ℕ) (accounts : List KeyedAccount) (p : KeyedAccount)
    → find_account payer accounts ≡ some p
    → fee ≤ p.lamports
    → IsCharged payer p fee accounts (charge payer fee accounts)
charge-IsCharged payer fee accounts p h l = (
  l,
  find_account-charge payer fee accounts p h,
  total_lamports-charge payer fee accounts p h l,
  λ k. ground (arith, find_account-charge-other payer fee accounts k),
)
