-- ===== src/Tests/Bundles.antt =====
-- A transaction on a harness with every bundled program, and a repeated `CreateIdempotent`.
use hopper_svm.Prelude.{ℕ, ◌+◌, ◌≡◌, refl, false, ◌⊎◌, inl, some, List, [], ◌∷◌, arith, String}
use hopper_svm.Error.{ok, is_ok}
use hopper_svm.Account.{KeyedAccount, total_lamports}
use hopper_svm.Log
use hopper_svm.Map
use hopper_svm.Compute
use hopper_svm.Builtin.{InvokeContext, require_signer, require_writable}
use hopper_svm.Engine.{execute, run, resolve_accounts, conclude, merge_accounts, merge_one}
use hopper_svm.System.{system_program, system_invoke, handle, dispatch}
use hopper_svm.System.Transfers.{transfer}
use hopper_svm.Fees.{total_fee, base_fee, priority_fee, count_unique_signers, scan_all, scan}
use hopper_svm.Validation.{
  validate_post_state, check_metas, check_meta, check_fresh, check_account, check_conservation,
  creation_credit,
}
use hopper_svm.Harness.{
  HopperSvm, HopperExecutionResult, from_outcome, dispatch_one, dispatch_one_inner,
  dispatch_builtin, apply_validation, settle,
}
use hopper_svm.Harness.Chain.{run_chain, transaction_fee, charge, run_charged, process_transaction}
use hopper_svm.Harness.Runtime.{new_svm, with_solana_runtime}
use hopper_svm.Harness.Bundle.{process_transaction-conserves}
use hopper_svm.Harness.Runtime
use hopper_svm.Ata.{
  ata_handle, idempotent_of, check_slots, settled, associated_address, fresh_token,
}
use hopper_svm.Ata.Repeat.{untouched, ata_handle-repeat}
use hopper_svm.Token.{token_invoke}
use hopper_svm.Token2022.{token_2022_invoke}
use hopper_svm.Token2022.Common.{token_2022_invoke-eq}
use hopper_svm.Ata.Factory.{create_keyed_associated_token_account-reads}
use hopper_svm.Token.Factories.{create_keyed_associated_token_account_with_program}
use hopper_svm.Token.State.{read_token_account}
use hopper_svm.Tests.Codec.{spl, laws, pack_account}
use hopper_svm.Tests.Fixtures.{sdk, alice, bob, account, meta, pay, sysvars, session}

abbrev full : HopperSvm
full = with_solana_runtime sdk spl (new_svm sdk)

abbrev rich : List KeyedAccount
rich = account 1 50_000 [] 0 ∷ bob ∷ []

-- Alice and Bob sign: 10_000 lamports are the fee, 200 move.
transacted :
    (r : HopperExecutionResult) × (process_transaction sdk full (pay 200 ∷ []) rich 1
      ≡ some (r, full))
    × (r.transaction_fee_paid ≡ 10_000)
unfolding with_solana_runtime new_svm Runtime.with_builtin Runtime.with_spl_simulators
    Runtime.with_spl_associated_token_simulator Runtime.with_spl_token_2022_simulator
    Runtime.with_spl_token_simulator Runtime.with_vote_program Runtime.with_stake_program
    Runtime.with_config_program Runtime.with_alt_program Runtime.with_compute_budget_program
    process_transaction run_charged run_chain transaction_fee charge dispatch_one dispatch_one_inner
    dispatch_builtin apply_validation settle validate_post_state check_metas check_meta check_fresh
    check_account check_conservation creation_credit execute run resolve_accounts conclude
    merge_accounts merge_one system_program system_invoke handle dispatch transfer Map.lookup
    Map.insert Log.log_text Log.invoke Log.success Log.section Log.line Compute.reset
    Compute.consume total_fee base_fee priority_fee count_unique_signers scan_all scan from_outcome
transacted = (_, refl, refl)

process_transaction-conserves_example :
    total_lamports transacted.0.outcome.resulting_accounts + transacted.0.transaction_fee_paid
    ≡ 50_000
process_transaction-conserves_example =
    process_transaction-conserves sdk spl full rich (pay 200 ∷ []) 1 transacted.0 full refl
      (refl, (refl, tt)) (omega arith) ((refl, (refl, tt)), tt) transacted.1

abbrev funder : ℕ → KeyedAccount
funder lamports = account 1 lamports [] 0

abbrev wallet : KeyedAccount
wallet = account 5 0 [] 0

abbrev mint : KeyedAccount
mint = account 6 1_000 [] 34

abbrev spl_id : KeyedAccount
spl_id = account 34 1 [] 0

abbrev system_id : KeyedAccount
system_id = account 0 1 [] 0

abbrev creation : InvokeContext
creation = record { program_id = 8; account_metas = meta 1 ∷ meta 41 ∷ []; sysvars = sysvars }

abbrev fresh : KeyedAccount
fresh = account 41 0 [] 0

abbrev made : KeyedAccount
made = account 41 2_039_280 (pack_account (fresh_token 6 5) []) 34

abbrev after : List KeyedAccount
after = funder 960_720 ∷ made ∷ wallet ∷ mint ∷ system_id ∷ spl_id ∷ []

abbrev said : String
said =
    "spl-ata::Create: {ata_addr} (wallet={wallet_addr}, mint={mint_addr}, token_program={token_program_addr})"

created :
    ata_handle sdk spl []
      (funder 3_000_000 ∷ fresh ∷ wallet ∷ mint ∷ system_id ∷ spl_id ∷ [])
      creation
    ≡ ok (after, said)
unfolding ata_handle idempotent_of check_slots associated_address settled require_signer
    require_writable
created = refl

ata_handle-repeat_example : ata_handle sdk spl (1 ∷ []) after creation ≡ ok (after, untouched)
ata_handle-repeat_example =
    ata_handle-repeat sdk spl laws creation (funder 3_000_000) fresh wallet mint system_id spl_id []
      (omega arith) (omega arith) [] after said created

-- An extension tag of Token-2022.
token_2022_invoke-eq_example :
    let t = token_invoke sdk spl (26 ∷ []) (alice ∷ []) creation session in
    let u = token_2022_invoke sdk spl (26 ∷ []) (alice ∷ []) creation session in
    (u ≡ t)
    ⊎ ((is_ok u.result ≡ false)
        × (is_ok t.result ≡ false)
        × (u.accounts ≡ alice ∷ [])
        × (u.session ≡ session))
token_2022_invoke-eq_example = token_2022_invoke-eq sdk spl (alice ∷ []) creation session (26 ∷ [])

signatures :
    (require_signer creation 1 ≡ ok tt)
    × (require_writable creation 1 ≡ ok tt)
    × (require_writable creation (associated_address sdk spl 5 6 34) ≡ ok tt)
unfolding require_signer require_writable associated_address
signatures = (refl, refl, refl)

abbrev token_context : InvokeContext
token_context = record creation { program_id = 34 }

create_keyed_associated_token_account-reads_example :
    let a = create_keyed_associated_token_account_with_program sdk spl 5 6 700 34 in
    let all = funder 0 ∷ a ∷ wallet ∷ mint ∷ system_id ∷ spl_id ∷ [] in
    (read_token_account spl a token_context ≡ ok (record (fresh_token 6 5) { amount = 700 }))
    × (ata_handle sdk spl (1 ∷ []) all creation ≡ ok (all, untouched))
create_keyed_associated_token_account-reads_example =
    create_keyed_associated_token_account-reads sdk spl laws (funder 0) wallet mint system_id spl_id
      700 [] token_context creation (omega arith) (omega arith) (omega arith) refl (inl refl) refl
      refl signatures.0 signatures.1 signatures.2
