-- ===== src/Harness/Payment.antt =====
-- src/lib.rs, src/engine.rs, src/system_program.rs, src/validation.rs: a `Transfer` of the system
-- program through the whole harness.
use hopper_svm.Prelude.{
  ℕ, ◌+◌, ◌≤◌, ◌≡◌, ◌≢◌, refl, true, none, some, String, List, [], ◌∷◌, arith, length, u64_max,
  bytes_eq_refl,
}
use hopper_svm.Bytes.{le_decode, slice}
use hopper_svm.Error.{ok}
use hopper_svm.Account.{KeyedAccount, AccountMeta, Instruction}
use hopper_svm.Log
use hopper_svm.Log.{LogCapture}
use hopper_svm.Map
use hopper_svm.Sdk.{Sdk}
use hopper_svm.Builtin.{InvokeContext, Session}
use hopper_svm.Compute
use hopper_svm.Sysvar.{Sysvars}
use hopper_svm.Engine.{resolve_accounts, merge_one, merge_accounts, conclude, run, execute, finish}
use hopper_svm.System.{dispatch, handle, system_invoke, system_program}
use hopper_svm.System.Create.{debit}
use hopper_svm.System.Transfers.{credit, transfer}
use hopper_svm.Validation.{
  ValidationPolicy, strict, lax, start, validate_post_state, check_account, check_fresh, check_meta,
  check_metas, check_conservation, creation_credit,
}
use hopper_svm.Harness.{
  HopperSvm, HopperExecutionResult, from_outcome, open_session, settle, apply_validation,
  dispatch_builtin, dispatch_one_inner, dispatch_one, process_instruction,
}

abbrev message : String
message = "system::Transfer: {} -> {} ({} lamports)"

module _ (sdk : Sdk) (mf mt : AccountMeta) (f t : KeyedAccount) (body : List ℕ)
    (f_key : mf.pubkey ≡ f.address) (t_key : mt.pubkey ≡ t.address)
    (distinct : f.address ≢ t.address) (signed : mf.is_signer ≡ true)
    (f_writable : mf.is_writable ≡ true) (t_writable : mt.is_writable ≡ true)
    (long : 8 ≤ length body) (owned : f.owner ≡ sdk.system_id)
    (enough : le_decode (slice 0 8 body) ≤ f.lamports)
    (room : f.lamports + t.lamports ≤ u64_max) where
  abbrev payment : Instruction
  payment = record {
    program_id = sdk.system_id;
    accounts = mf ∷ mt ∷ [];
    bytes = 2 ∷ 0 ∷ 0 ∷ 0 ∷ body;
  }

  abbrev paid : List KeyedAccount
  paid = debit f (le_decode (slice 0 8 body)) ∷ credit t (le_decode (slice 0 8 body)) ∷ []

  transfer-eq :
      (ctx : InvokeContext)
      → ctx.account_metas ≡ mf ∷ mt ∷ []
      → transfer sdk body (f ∷ t ∷ []) ctx ≡ ok (paid, message)
  unfolding transfer
  transfer-eq ctx metas = rw metas (ground arith)

  handle-eq :
      (ctx : InvokeContext)
      → ctx.account_metas ≡ mf ∷ mt ∷ []
      → handle sdk (2 ∷ 0 ∷ 0 ∷ 0 ∷ body) (f ∷ t ∷ []) ctx ≡ ok (paid, message)
  unfolding handle dispatch
  handle-eq ctx metas = ground (arith, transfer-eq ctx metas)

  resolve_accounts-eq : resolve_accounts (mf ∷ mt ∷ []) (f ∷ t ∷ []) ≡ ok (f ∷ t ∷ [])
  unfolding resolve_accounts
  resolve_accounts-eq = ground arith

  merge_accounts-eq : merge_accounts (f ∷ t ∷ []) paid ≡ paid
  unfolding merge_accounts merge_one
  merge_accounts-eq = ground arith

  check_account-debit :
      check_account sdk sdk.system_id mf f (debit f (le_decode (slice 0 8 body))) ≡ ok tt
  unfolding check_account
  check_account-debit = ground (arith, bytes_eq_refl f.bytes)

  check_account-credit :
      check_account sdk sdk.system_id mt t (credit t (le_decode (slice 0 8 body))) ≡ ok tt
  unfolding check_account
  check_account-credit = ground (arith, bytes_eq_refl t.bytes)

  creation_credit-eq : creation_credit sdk (f ∷ t ∷ []) paid ≡ 0
  unfolding creation_credit
  creation_credit-eq = ground arith

  check_metas-eq :
      (n : ℕ) × (check_metas sdk sdk.system_id (f ∷ t ∷ []) paid (mf ∷ mt ∷ []) (start sdk)
        ≡ ok (record { seen = mf.pubkey ∷ mt.pubkey ∷ []; sum_pre = n; sum_post = n }))
      × (n ≤ u64_max)
  unfolding check_metas check_meta check_fresh
  check_metas-eq =
      (f.lamports + t.lamports, ground (arith, check_account-debit, check_account-credit), room)

  validate-eq :
      (policy : ValidationPolicy)
      → validate_post_state sdk sdk.system_id (mf ∷ mt ∷ []) (f ∷ t ∷ []) paid policy ≡ ok tt
  unfolding validate_post_state check_conservation
  validate-eq lax = refl
  validate-eq strict = let (n, e, small) = check_metas-eq in ground (arith, e, creation_credit-eq)

  system_invoke-eq :
      (ctx : InvokeContext) (s : Session)
      → ctx.account_metas ≡ mf ∷ mt ∷ []
      → system_invoke sdk (2 ∷ 0 ∷ 0 ∷ 0 ∷ body) (f ∷ t ∷ []) ctx s ≡ record {
        result = ok tt;
        accounts = paid;
        session = record s { logs = Log.log_text s.logs message };
      }
  unfolding system_invoke
  system_invoke-eq ctx s metas = ground (arith, handle-eq ctx metas)

  -- The transcript behind the transfer.
  abbrev said : Session → LogCapture
  said s =
      Log.success (Log.log_text (Log.invoke s.logs sdk.system_id) message) sdk.system_id 150
        s.budget.limit

  execute-eq :
      (sysvars : Sysvars) (s : Session)
      → 150 ≤ s.budget.limit
      → execute (system_program sdk) payment (f ∷ t ∷ []) sysvars s
        ≡ some (
          finish paid 150 none,
          record { logs = said s; budget = record s.budget { consumed = 150 }; cells = s.cells },
        )
  unfolding execute run conclude system_program Compute.reset Compute.consume
  execute-eq sysvars s cheap = ground (
    arith,
    resolve_accounts-eq,
    merge_accounts-eq,
    system_invoke-eq
        (record { program_id = sdk.system_id; account_metas = mf ∷ mt ∷ []; sysvars = sysvars })
        (record {
          logs = Log.invoke s.logs sdk.system_id;
          budget = record s.budget { consumed = 150 };
          cells = s.cells;
        })
        refl,
  )

  -- On the two accounts of a `Transfer` of the system program, distinct, listed as writable and the
  -- source as a signer, where the source is a system account that holds the amount, the sum of the
  -- two balances is a `u64` and the limit allows the 150 units: the call succeeds under either
  -- policy, moves exactly the amount, reports 150 units and leaves the harness as it was.
  pub process_instruction-transfer :
      (svm : HopperSvm)
      → Map.lookup sdk.system_id svm.registry ≡ some (system_program sdk)
      → 150 ≤ (open_session svm Log.empty).budget.limit
      → (r : HopperExecutionResult) × (process_instruction sdk svm payment (f ∷ t ∷ [])
          ≡ some (r, svm))
        × (r.outcome.error ≡ none)
        × (r.outcome.resulting_accounts ≡ paid)
        × (r.outcome.compute_units_consumed ≡ 150)
  unfolding process_instruction dispatch_one dispatch_one_inner dispatch_builtin apply_validation
      settle from_outcome
  process_instruction-transfer svm listed cheap =
      let s = open_session svm Log.empty in
      (
        record {
          outcome = record (finish paid 150 none) { execution_time_us = sdk.elapsed_us 0 };
          logs = (said s).lines;
          transaction_fee_paid = 0;
        },
        ground (arith, execute-eq svm.sysvars s cheap, validate-eq svm.validation_policy),
        refl,
        refl,
        refl,
      )
