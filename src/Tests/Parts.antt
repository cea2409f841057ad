-- ===== src/Tests/Parts.antt =====
-- The theorems about the meter, the fees, the merge and the validator at concrete inputs.
use hopper_svm.Prelude.{ℕ, ◌≡◌, ◌≢◌, refl, some, List, [], ◌∷◌, arith}
use hopper_svm.Error.{ok, err, out_of_compute_units}
use hopper_svm.Account.{find_account}
use hopper_svm.Compute.{ComputeBudget, consume}
use hopper_svm.Compute.Poison.{consume_all, consume-eq}
use hopper_svm.Engine.{resolve_accounts, merge_accounts}
use hopper_svm.Engine.Merge.{find_account-merge_accounts}
use hopper_svm.Fees.{count_unique_signers, total_fee}
use hopper_svm.Fees.Signers.{count_unique_signers_lem, total_fee-eq}
use hopper_svm.ComputeBudgetProgram.{budget_invoke}
use hopper_svm.ComputeBudgetProgram.Cap.{IsCapped, budget_invoke-IsCapped}
use hopper_svm.Tests.Fixtures.{alice, bob, account, meta, meter, session, context}

abbrev small : ComputeBudget
small = record { consumed = 0; limit = 100; default_cost = 10 }

consume-eq_example :
    (consume (consume_all small (60 ∷ 40 ∷ [])) 1).0 ≡ err (out_of_compute_units 101 100)
consume-eq_example = consume-eq small (60 ∷ 40 ∷ []) 1 (omega arith)

charged_too_much : (consume small 101).0 ≢ ok tt
unfolding consume
charged_too_much = ground arith

find_account-merge_accounts_example :
    find_account 1 (merge_accounts (alice ∷ bob ∷ []) (account 1 3 [] 0 ∷ account 1 4 [] 0 ∷ []))
    ≡ some (account 1 4 [] 0)
find_account-merge_accounts_example =
    find_account-merge_accounts 1 (account 1 3 [] 0 ∷ account 1 4 [] 0 ∷ []) (alice ∷ bob ∷ [])

resolved :
    resolve_accounts (meta 2 ∷ meta 1 ∷ meta 2 ∷ []) (alice ∷ bob ∷ [])
    ≡ ok (bob ∷ alice ∷ bob ∷ [])
unfolding resolve_accounts
resolved = refl

count_unique_signers_lem_example :
    count_unique_signers ((meta 1 ∷ meta 2 ∷ []) ∷ (meta 1 ∷ []) ∷ []) ≡ 2
count_unique_signers_lem_example =
    count_unique_signers_lem ((meta 1 ∷ meta 2 ∷ []) ∷ (meta 1 ∷ []) ∷ []) (1 ∷ 2 ∷ [])
      (refl, (refl, tt)) (λ k. ground arith)

total_fee-eq_example :
    total_fee (record { lamports_per_signature = 5_000 }) 2 200_000 1_000_000 ≡ 210_000
total_fee-eq_example =
    total_fee-eq (record { lamports_per_signature = 5_000 }) 2 200_000 1_000_000 (omega arith)

abbrev set_limit_data : List ℕ
set_limit_data = 2 ∷ 0 ∷ 0 ∷ 1 ∷ 0 ∷ []

budget_invoke-IsCapped_example :
    let r = budget_invoke set_limit_data (alice ∷ []) (context 9) session in
    IsCapped r.session.cells × (r.accounts ≡ alice ∷ []) × (r.session.budget ≡ meter)
budget_invoke-IsCapped_example =
    budget_invoke-IsCapped set_limit_data (alice ∷ []) (context 9) session tt
