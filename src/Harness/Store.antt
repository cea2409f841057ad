-- ===== src/Harness/Store.antt =====
-- src/lib.rs: what the calls on the account store leave in it.
use hopper_svm.Prelude.{
  ℕ, ◌+◌, ◌≡◌, refl, Option, none, some, List, [], ◌∷◌, arith, Option-cases, inl, inr,
}
use hopper_svm.Error.{Pubkey}
use hopper_svm.Account.{KeyedAccount, Instruction}
use hopper_svm.Sdk.{Sdk}
use hopper_svm.Map
use hopper_svm.Map.{lookup-insert}
use hopper_svm.Engine.Merge.{find_last, or_else}
use hopper_svm.Log
use hopper_svm.Harness.{HopperSvm, HopperExecutionResult, dispatch_one, process_instruction}
use hopper_svm.Harness.Verdict.{dispatch_one-frame}
use hopper_svm.Harness.Chain.{ChainState, advance, begin, run_chain, process_instruction_chain}
use hopper_svm.Harness.Overlay.{
  Overlay, get_account, insert_all, commit, commit_success, collect_inputs, fetch,
  push_instructions, process_instruction_with_store, process_instruction_chain_with_store,
  simulate_instruction_with_store, simulate_instruction_chain_with_store, restore_accounts,
  snapshot_accounts,
}

lookup-insert_all :
    (k : Pubkey) (accounts : List KeyedAccount) (store : Overlay)
    → Map.lookup k (insert_all store accounts) ≡ or_else (find_last k accounts) (Map.lookup k store)
unfolding insert_all
lookup-insert_all k [] store = refl
lookup-insert_all k (a ∷ accounts) store = ground (
  arith,
  lookup-insert_all k accounts (Map.insert a.address a store),
  lookup-insert a.address k a store,
)

-- The harness after a call that has moved nothing but the cells.
abbrev pub only_cells : HopperSvm → HopperSvm → HopperSvm
only_cells svm svm' = record svm { cells = svm'.cells }

-- A call's result, over the old harness with the new cells.
abbrev pub dry :
    HopperSvm
    → Option (HopperExecutionResult × HopperSvm)
    → Option (HopperExecutionResult × HopperSvm)
dry svm none = none
dry svm (some (r, svm')) = some (r, only_cells svm svm')

module _ (sdk : Sdk) where
  process_instruction-frame :
      (svm svm' : HopperSvm) (ix : Instruction) (accounts : List KeyedAccount)
      (r : HopperExecutionResult)
      → process_instruction sdk svm ix accounts ≡ some (r, svm')
      → svm' ≡ only_cells svm svm'
  unfolding process_instruction
  process_instruction-frame svm svm' ix accounts r h =
      elim (Option-cases (dispatch_one sdk svm 0 ix accounts Log.empty)) [
        | inl panicked ↦ ground arith
        | inr (d, ran) ↦ ground (arith, dispatch_one-frame sdk ix accounts svm 0 Log.empty d ran)
      ]

  run_chain-frame :
      (i : ℕ) (ixs : List Instruction) (c c' : ChainState)
      → run_chain sdk i ixs c ≡ some c'
      → c'.svm ≡ only_cells c.svm c'.svm
  unfolding run_chain
  run_chain-frame i [] c c' h = ground arith
  run_chain-frame i (ix ∷ ixs) c c' h =
      let logs = Log.section c.logs i ix.program_id in
      elim (Option-cases (dispatch_one sdk c.svm i ix c.accounts logs)) [
        | inl panicked ↦ ground arith
        | inr (d, ran) ↦ ground (
          arith,
          dispatch_one-frame sdk ix c.accounts c.svm i logs d ran,
          run_chain-frame (i + 1) ixs (advance c d) c',
        )
      ]

  process_instruction_chain-frame :
      (svm svm' : HopperSvm) (ixs : List Instruction) (accounts : List KeyedAccount)
      (r : HopperExecutionResult)
      → process_instruction_chain sdk svm ixs accounts ≡ some (r, svm')
      → svm' ≡ only_cells svm svm'
  unfolding process_instruction_chain
  process_instruction_chain-frame svm svm' ixs accounts r h =
      let c = begin svm accounts Log.empty in
      elim (Option-cases (run_chain sdk 0 ixs c)) [
        | inl panicked ↦ ground arith
        | inr (c', ran) ↦ ground (arith, run_chain-frame 0 ixs c c' ran)
      ]

  -- After a stateful call of one instruction the store is the old one if the call failed; if it
  -- succeeded, each address reads as the last account of that address in the result, and as before
  -- where the result has none.
  pub get_account-process_instruction_with_store :
      (svm svm' : HopperSvm) (ix : Instruction) (r : HopperExecutionResult) (k : Pubkey)
      → process_instruction_with_store sdk svm ix ≡ some (r, svm')
      → get_account svm' k ≡ elim r.outcome.error [
        | none ↦ or_else (find_last k r.outcome.resulting_accounts) (get_account svm k)
        | some e ↦ get_account svm k
      ]
  unfolding process_instruction_with_store get_account commit_success commit
  get_account-process_instruction_with_store svm svm' ix r k h =
      elim (Option-cases (process_instruction sdk svm ix (collect_inputs sdk svm ix))) [
        | inl panicked ↦ ground arith
        | inr ((r', mid), ran) ↦ ground (
          arith,
          process_instruction-frame svm mid ix (collect_inputs sdk svm ix) r' ran,
          lookup-insert_all k r.outcome.resulting_accounts svm.account_store,
        )
      ]

  simulate_instruction_with_store-eq :
      (svm : HopperSvm) (ix : Instruction)
      → simulate_instruction_with_store sdk svm ix
        ≡ dry svm (process_instruction_with_store sdk svm ix)
  unfolding simulate_instruction_with_store process_instruction_with_store restore_accounts
      snapshot_accounts commit_success commit
  simulate_instruction_with_store-eq svm ix =
      elim (Option-cases (process_instruction sdk svm ix (collect_inputs sdk svm ix))) [
        | inl panicked ↦ ground arith
        | inr ((r, mid), ran) ↦
            ground (arith, process_instruction-frame svm mid ix (collect_inputs sdk svm ix) r ran)
      ]

  simulate_instruction_chain_with_store-eq :
      (svm : HopperSvm) (ixs : List Instruction)
      → simulate_instruction_chain_with_store sdk svm ixs
        ≡ dry svm (process_instruction_chain_with_store sdk svm ixs)
  unfolding simulate_instruction_chain_with_store process_instruction_chain_with_store
      restore_accounts snapshot_accounts commit_success commit
  simulate_instruction_chain_with_store-eq svm ixs =
      let inputs = fetch sdk svm.account_store (push_instructions [] ixs) in
      elim (Option-cases (process_instruction_chain sdk svm ixs inputs)) [
        | inl panicked ↦ ground arith
        | inr ((r, mid), ran) ↦
            ground (arith, process_instruction_chain-frame svm mid ixs inputs r ran)
      ]

  -- A stateful dry run gives the result of the call that commits, and of the harness it leaves all
  -- but the cells of the compute-budget program as it was, the store too.
  pub simulate_with_store-eq :
      (svm : HopperSvm) (ix : Instruction) (ixs : List Instruction)
      → (simulate_instruction_with_store sdk svm ix
          ≡ dry svm (process_instruction_with_store sdk svm ix))
        × (simulate_instruction_chain_with_store sdk svm ixs
            ≡ dry svm (process_instruction_chain_with_store sdk svm ixs))
  simulate_with_store-eq svm ix ixs =
      (simulate_instruction_with_store-eq svm ix, simulate_instruction_chain_with_store-eq svm ixs)
