-- ===== src/Harness/Fee.antt =====
-- src/lib.rs: the fee of `process_transaction`.
use native.Mathlib.Nat.{add-zero, zero-add}
use hopper_svm.Prelude.{
  ℕ, suc, ap, Bool-cases, Option-cases, inl, inr, ◌+◌, ◌≤◌, ◌≡◌, none, some, List, [], ◌∷◌, ◌++◌,
  arith, length, leb, if◌then◌else◌,
}
use hopper_svm.Error.{Pubkey, HopperSvmError, insufficient_funds}
use hopper_svm.Account.{KeyedAccount, Instruction, find_account, total_lamports}
use hopper_svm.Sdk.{Sdk}
use hopper_svm.Log
use hopper_svm.Harness.{HopperSvm, HopperExecutionResult, Dispatched, from_outcome, dispatch_one}
use hopper_svm.Harness.Verdict.{dispatch_one-rollback}
use hopper_svm.Harness.Charge.{total_lamports-charge, IsCharged, charge-IsCharged}
use hopper_svm.Harness.Chain.{
  ChainState, advance, begin, run_chain, charge, charge_line, final_outcome, transaction_fee,
  run_charged, process_transaction, process_instruction_chain,
}

module _ (sdk : Sdk) (svm : HopperSvm) (accounts : List KeyedAccount) (payer : Pubkey)
    (p : KeyedAccount) (found : find_account payer accounts ≡ some p) where
  -- What a charged run hands back is what the chain hands back on the charged accounts.
  run_charged-chain :
      (ixs : List Instruction) (r : HopperExecutionResult) (svm' : HopperSvm)
      → run_charged sdk svm ixs accounts payer ≡ some (r, svm')
      → (c : ChainState) × (run_chain sdk 0 ixs (
            begin svm (charge payer (transaction_fee svm ixs) accounts) (charge_line svm ixs payer))
          ≡ some c)
        × (r.outcome ≡ final_outcome c)
        × (svm' ≡ c.svm)
        × (r.transaction_fee_paid ≡ transaction_fee svm ixs)
  unfolding run_charged from_outcome
  run_charged-chain ixs r svm' h =
      elim (Option-cases (
        run_chain sdk 0 ixs (
          begin svm (charge payer (transaction_fee svm ixs) accounts)
            (charge_line svm ixs payer)))) [
              | inl panicked ↦ absurd (ground arith)
              | inr (c, ran) ↦ (c, ran, ground arith, ground arith, ground arith)
            ]

  -- In a call that does not panic, a payer among the accounts that can pay has the whole fee taken
  -- from its balance, and with it from the sum of all, and no other address changes, before the
  -- chain runs: the outcome and the harness are those of the chain on the accounts so charged, and
  -- the fee is reported as paid. A payer that cannot pay is charged nothing, no account and nothing
  -- of the harness changes, and the call ends with `InsufficientFunds`.
  pub process_transaction-fee :
      (ixs : List Instruction) (r : HopperExecutionResult) (svm' : HopperSvm)
      → process_transaction sdk svm ixs accounts payer ≡ some (r, svm')
      → if leb (transaction_fee svm ixs) p.lamports
        then ((start : List KeyedAccount) × (c : ChainState) × IsCharged payer p
              (transaction_fee svm ixs)
              accounts
              start
            × (run_chain sdk 0 ixs (begin svm start (charge_line svm ixs payer)) ≡ some c)
            × (r.outcome ≡ final_outcome c)
            × (svm' ≡ c.svm)
            × (r.transaction_fee_paid ≡ transaction_fee svm ixs))
        else ((r.transaction_fee_paid ≡ 0)
            × (svm' ≡ svm)
            × (r.outcome.resulting_accounts ≡ accounts)
            × (r.outcome.error
                ≡ some (insufficient_funds payer p.lamports (transaction_fee svm ixs))))
  unfolding process_transaction from_outcome
  process_transaction-fee ixs r svm' h =
      elim (Bool-cases (leb (transaction_fee svm ixs) p.lamports)) [
        | inl enough ↦
            let (c, ran, out, after, paid) = run_charged-chain ixs r svm' (ground arith) in
            rw enough (
              charge payer (transaction_fee svm ixs) accounts,
              c,
              charge-IsCharged payer (transaction_fee svm ixs) accounts p found (ground arith),
              ran,
              out,
              after,
              paid,
            )
        | inr short ↦ rw short (ground arith)
      ]

  -- If the payer can pay and the first instruction fails, the call ends with that instruction's
  -- outcome and the fee as paid: the accounts are the ones given, less the fee, which is gone from
  -- their sum.
  pub process_transaction-failed :
      (ix : Instruction) (ixs : List Instruction) (d : Dispatched) (e : HopperSvmError)
      → transaction_fee svm (ix ∷ ixs) ≤ p.lamports
      → dispatch_one sdk svm 0 ix
          (charge payer (transaction_fee svm (ix ∷ ixs)) accounts)
          (Log.section (charge_line svm (ix ∷ ixs) payer) 0 ix.program_id)
        ≡ some d
      → d.outcome.error ≡ some e
      → (process_transaction sdk svm (ix ∷ ixs) accounts payer
          ≡ some (
            record (from_outcome d.outcome d.logs) {
              transaction_fee_paid = transaction_fee svm (ix ∷ ixs);
            },
            d.svm,
          ))
        × (d.outcome.resulting_accounts ≡ charge payer (transaction_fee svm (ix ∷ ixs)) accounts)
        × (total_lamports d.outcome.resulting_accounts + transaction_fee svm (ix ∷ ixs)
            ≡ total_lamports accounts)
  unfolding process_transaction run_charged run_chain
  process_transaction-failed ix ixs d e enough ran failed =
      let fee = transaction_fee svm (ix ∷ ixs) in
      let back =
        dispatch_one-rollback sdk ix (charge payer fee accounts) svm 0
          (Log.section (charge_line svm (ix ∷ ixs) payer) 0 ix.program_id) d e ran failed in
      (ground arith, back, rw back (total_lamports-charge payer fee accounts p found enough))

-- The last outcome so far has no error.
abbrev pub IsRunning : ChainState → Type 0
IsRunning c = elim c.final as (λ o. Type 0) [ none ↦ Unit | some o ↦ o.error ≡ none ]

module _ (sdk : Sdk) where
  run_chain-append :
      (i : ℕ) (ixs rest : List Instruction) (c c' : ChainState)
      → run_chain sdk i ixs c ≡ some c'
      → IsRunning c'
      → run_chain sdk i (ixs ++ rest) c ≡ run_chain sdk (i + length ixs) rest c'
  unfolding run_chain
  run_chain-append i [] rest c c' h running =
      let same : c ≡ c' = ground arith in rw (add-zero i) (ap (run_chain sdk i rest) same)
  run_chain-append i (ix ∷ ixs) rest c c' h running =
      let logs = Log.section c.logs i ix.program_id in
      let shift : i + 1 + length ixs ≡ i + suc (length ixs) = omega arith in
      elim (Option-cases (dispatch_one sdk c.svm i ix c.accounts logs)) [
        | inl panicked ↦ absurd (ground arith)
        | inr (d, ran) ↦ elim (Option-cases d.outcome.error) [
          | inl fine ↦ rw (← shift) (
              let h' : run_chain sdk (i + 1) ixs (advance c d) ≡ some c' = ground arith in
              ground (arith, run_chain-append (i + 1) ixs rest (advance c d) c' h' running))
          | inr (e, failed) ↦ absurd (ground arith)
        ]
      ]

  -- The round of an instruction that fails is the last one.
  step :
      (i : ℕ) (ix : Instruction) (rest : List Instruction) (c : ChainState) (d : Dispatched)
      (e : HopperSvmError)
      → dispatch_one sdk c.svm i ix c.accounts (Log.section c.logs i ix.program_id) ≡ some d
      → d.outcome.error ≡ some e
      → run_chain sdk i (ix ∷ rest) c ≡ some (advance c d)
  unfolding run_chain
  step i ix rest c d e ran failed = ground arith

  -- A chain is not undone by a failure: if the instructions `ixs` have run without an error and the
  -- next one fails, the call hands back the accounts with all writes of `ixs` in them.
  pub process_instruction_chain-keeps :
      (svm : HopperSvm) (accounts : List KeyedAccount) (ixs rest : List Instruction)
      (ix : Instruction) (c : ChainState) (d : Dispatched) (e : HopperSvmError)
      → run_chain sdk 0 ixs (begin svm accounts Log.empty) ≡ some c
      → IsRunning c
      → dispatch_one sdk c.svm
          (length ixs)
          ix
          c.accounts
          (Log.section c.logs (length ixs) ix.program_id)
        ≡ some d
      → d.outcome.error ≡ some e
      → (process_instruction_chain sdk svm (ixs ++ ix ∷ rest) accounts
          ≡ some (from_outcome d.outcome d.logs, d.svm))
        × (d.outcome.resulting_accounts ≡ c.accounts)
  unfolding process_instruction_chain
  process_instruction_chain-keeps svm accounts ixs rest ix c d e ran running failed h =
      let joined =
        rw zero-add at
          (run_chain-append 0 ixs (ix ∷ rest) (begin svm accounts Log.empty) c ran running) in
      let logs = Log.section c.logs (length ixs) ix.program_id in
      (
        ground (arith, joined, step (length ixs) ix rest c d e failed h),
        dispatch_one-rollback sdk ix c.accounts c.svm (length ixs) logs d e failed h,
      )
