-- ===== src/Harness/Totals.antt =====
-- src/lib.rs: the lamports of all accounts through an instruction, a chain and a transaction.
use hopper_svm.Prelude.{
  ℕ, ◌+◌, ◌≤◌, ◌≡◌, refl, ◌∙◌, none, some, List, [], ◌∷◌, arith, u64_max, inl, inr, Option,
  Option-cases,
}
use hopper_svm.Error.{Pubkey}
use hopper_svm.Account.{KeyedAccount, Instruction, find_account, total_lamports, addresses}
use hopper_svm.Sdk.{Sdk}
use hopper_svm.Map
use hopper_svm.Map.{Map}
use hopper_svm.Log
use hopper_svm.Log.{LogCapture}
use hopper_svm.Builtin.{BuiltinProgram}
use hopper_svm.Fees.Signers.{IsDistinct}
use hopper_svm.Engine.{ExecutionOutcome, execute}
use hopper_svm.Engine.Merge.{keys}
use hopper_svm.Engine.Totals.{SameTotal, IsConservative, execute-total, merge-SameTotal}
use hopper_svm.Validation.{ValidationPolicy}
use hopper_svm.Harness.{
  HopperSvm, HopperExecutionResult, Dispatched, from_outcome, open_session, settle,
  apply_validation, dispatch_builtin, dispatch_one_inner, dispatch_one,
}
use hopper_svm.Harness.Chain.{
  ChainState, advance, begin, run_chain, charge, charge_line, transaction_fee, run_charged,
  process_transaction,
}
use hopper_svm.Harness.Charge.{total_lamports-charge}

-- Every program of a registry.
abbrev pub AllConservative : Map BuiltinProgram → Type 0
AllConservative registry =
    (id : Pubkey) (p : BuiltinProgram) → Map.lookup id registry ≡ some p → IsConservative p

SameTotal-refl : (accounts : List KeyedAccount) → SameTotal accounts accounts
SameTotal-refl accounts = (refl, refl)

module _ (sdk : Sdk) (ix : Instruction) (accounts : List KeyedAccount)
    (d : IsDistinct (keys ix.accounts)) (small : total_lamports accounts ≤ u64_max) where
  apply_validation-SameTotal :
      (o : ExecutionOutcome) (policy : ValidationPolicy) (logs : LogCapture)
      → SameTotal accounts o.resulting_accounts
      → SameTotal accounts (apply_validation sdk ix accounts o policy logs).0.resulting_accounts
  unfolding apply_validation settle
  apply_validation-SameTotal o policy logs h = ground arith

  module _ (svm : HopperSvm) (fair : AllConservative svm.registry) where
    dispatch_builtin-SameTotal :
        (program : BuiltinProgram) (logs : LogCapture) (r : Dispatched)
        → IsConservative program
        → dispatch_builtin sdk svm program ix accounts logs ≡ some r
        → SameTotal accounts r.outcome.resulting_accounts × (r.svm.registry ≡ svm.registry)
    unfolding dispatch_builtin
    dispatch_builtin-SameTotal program logs r p h =
        elim (Option-cases (execute program ix accounts svm.sysvars (open_session svm logs))) [
          | inl panicked ↦ absurd (ground arith)
          | inr ((o, s'), ran) ↦
              let same =
                execute-total program p ix accounts d small svm.sysvars (open_session svm logs)
                  ran in
              let kept = apply_validation-SameTotal o svm.validation_policy s'.logs same in
              ground (arith, kept)
        ]

    pub dispatch_one-SameTotal :
        (i : ℕ) (logs : LogCapture) (r : Dispatched)
        → dispatch_one sdk svm i ix accounts logs ≡ some r
        → SameTotal accounts r.outcome.resulting_accounts × (r.svm.registry ≡ svm.registry)
    unfolding dispatch_one dispatch_one_inner
    dispatch_one-SameTotal i logs r h =
        elim (Option-cases (Map.lookup ix.program_id svm.registry)) [
          | inl unknown ↦ ground (arith, SameTotal-refl accounts)
          | inr (program, found) ↦
              elim (Option-cases (dispatch_builtin sdk svm program ix accounts logs)) [
                | inl panicked ↦ absurd (ground arith)
                | inr (r', ran) ↦
                    let kept =
                      dispatch_builtin-SameTotal program logs r' (fair ix.program_id program found)
                        ran in
                    ground (arith, kept)
              ]
        ]

-- The keys of each instruction are distinct.
abbrev pub DistinctKeys : List Instruction → Type 0
DistinctKeys [] = Unit
DistinctKeys (ix ∷ ixs) = IsDistinct (keys ix.accounts) × DistinctKeys ixs

-- What the loop's variables keep: the sum and the addresses of the accounts, here and in the last
-- outcome.
abbrev FinalKeeps : List KeyedAccount → Option ExecutionOutcome → Type 0
FinalKeeps accounts none = Unit
FinalKeeps accounts (some o) = SameTotal accounts o.resulting_accounts

module _ (sdk : Sdk) (start : List KeyedAccount) (apart : IsDistinct (addresses start))
    (small : total_lamports start ≤ u64_max) where
  abbrev Held : ChainState → Type 0
  Held c = SameTotal start c.accounts × FinalKeeps start c.final × AllConservative c.svm.registry

  advance-Held :
      (ix : Instruction) (i : ℕ) (logs : LogCapture) (c : ChainState) (r : Dispatched)
      → IsDistinct (keys ix.accounts)
      → Held c
      → dispatch_one sdk c.svm i ix c.accounts logs ≡ some r
      → Held (advance c r)
  advance-Held ix i logs c r d ((same, keep), final, fair) ran =
      let within : total_lamports c.accounts ≤ u64_max = omega (arith, same) in
      let (now, registry) =
        dispatch_one-SameTotal sdk ix c.accounts d within c.svm fair i logs r ran in
      let merged = merge-SameTotal c.accounts r.outcome.resulting_accounts (rw keep apart) now in
      ((merged.0 ∙ same, merged.1 ∙ keep), (now.0 ∙ same, now.1 ∙ keep), rw registry fair)

  run_chain-Held :
      (i : ℕ) (ixs : List Instruction) (c c' : ChainState)
      → DistinctKeys ixs
      → Held c
      → run_chain sdk i ixs c ≡ some c'
      → Held c'
  unfolding run_chain
  run_chain-Held i [] c c' d held h = let e : c ≡ c' = ground arith in rw (← e) held
  run_chain-Held i (ix ∷ ixs) c c' d held h =
      let logs = Log.section c.logs i ix.program_id in
      elim (Option-cases (dispatch_one sdk c.svm i ix c.accounts logs)) [
        | inl panicked ↦ absurd (ground arith)
        | inr (r, ran) ↦
            let next = advance-Held ix i logs c r d.0 held ran in
            elim (Option-cases r.outcome.error) [
              | inl fine ↦
                  let h' : run_chain sdk (i + 1) ixs (advance c r) ≡ some c' = ground arith in
                  run_chain-Held (i + 1) ixs (advance c r) c' d.1 next h'
              | inr (e, failed) ↦ let e' : advance c r ≡ c' = ground arith in rw (← e') next
            ]
      ]

addresses-charge :
    (payer : Pubkey) (fee : ℕ) (accounts : List KeyedAccount)
    → addresses (charge payer fee accounts) ≡ addresses accounts
unfolding charge
addresses-charge payer fee [] = refl
addresses-charge payer fee (a ∷ rest) = ground (arith, addresses-charge payer fee rest)

module _ (sdk : Sdk) (svm : HopperSvm) (fair : AllConservative svm.registry)
    (accounts : List KeyedAccount) (apart : IsDistinct (addresses accounts))
    (small : total_lamports accounts ≤ u64_max) (ixs : List Instruction)
    (d : DistinctKeys ixs) where
  run_charged-total :
      (payer : Pubkey) (p : KeyedAccount) (r : HopperExecutionResult) (svm' : HopperSvm)
      → find_account payer accounts ≡ some p
      → transaction_fee svm ixs ≤ p.lamports
      → run_charged sdk svm ixs accounts payer ≡ some (r, svm')
      → total_lamports r.outcome.resulting_accounts + r.transaction_fee_paid
        ≡ total_lamports accounts
  unfolding run_charged from_outcome
  run_charged-total payer p r svm' found enough h =
      let fee = transaction_fee svm ixs in
      let start = charge payer fee accounts in
      let gone = total_lamports-charge payer fee accounts p found enough in
      let apart' : IsDistinct (addresses start) = rw (addresses-charge payer fee accounts) apart in
      let c = begin svm start (charge_line svm ixs payer) in
      elim (Option-cases (run_chain sdk 0 ixs c)) [
        | inl panicked ↦ absurd (ground arith)
        | inr (c', ran) ↦
            let held =
              run_chain-Held sdk start apart' (omega (arith, gone)) 0 ixs c c' d
                ((refl, refl), tt, fair) ran in
            ground (arith, gone, held)
      ]

  pub process_transaction-total :
      (payer : Pubkey) (r : HopperExecutionResult) (svm' : HopperSvm)
      → process_transaction sdk svm ixs accounts payer ≡ some (r, svm')
      → total_lamports r.outcome.resulting_accounts + r.transaction_fee_paid
        ≡ total_lamports accounts
  unfolding process_transaction from_outcome
  process_transaction-total payer r svm' h = elim (Option-cases (find_account payer accounts)) [
    | inl unknown ↦ ground arith
    | inr (p, found) ↦ grind (arith, run_charged-total payer p r svm' found)
  ]
