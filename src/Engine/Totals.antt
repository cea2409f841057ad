-- ===== src/Engine/Totals.antt =====
-- src/engine.rs: the lamports of all accounts through one instruction.
use hopper_svm.Prelude.{
  ℕ, ◌+◌, ◌≤◌, ◌≡◌, ◌∙◌, refl, ap, false, some, List, [], ◌∷◌, arith, contains, u64_max, inl, inr,
}
use hopper_svm.Error.{ok, Result-cases}
use hopper_svm.Account.{
  KeyedAccount, AccountMeta, Instruction, find_account, find_account-address, total_lamports,
  addresses,
}
use hopper_svm.Sysvar.{Sysvars}
use hopper_svm.Builtin.{InvokeContext, Session, Invocation, BuiltinProgram}
use hopper_svm.Fees.Signers.{IsDistinct}
use hopper_svm.Engine.{
  ExecutionOutcome, merge_one, merge_accounts, resolve_accounts, abort, conclude, run, execute,
}
use hopper_svm.Engine.Merge.{keys, find_account-merge_one, resolve_accounts-addresses}

-- The lamports of all slots together, and the address of each.
abbrev pub SameTotal : List KeyedAccount → List KeyedAccount → Type 0
SameTotal before after =
    (total_lamports after ≡ total_lamports before) × (addresses after ≡ addresses before)

-- On accounts whose lamports sum to a `u64`, an invocation keeps the sum and the addresses.
abbrev pub IsConservative : BuiltinProgram → Type 0
IsConservative p =
    (bytes : List ℕ) (accounts : List KeyedAccount) (ctx : InvokeContext) (s : Session)
    → total_lamports accounts ≤ u64_max
    → SameTotal accounts (p.invoke bytes accounts ctx s).accounts

-- Each slot holds the account that stands first under its address.
abbrev Resolved : List KeyedAccount → List KeyedAccount → Type 0
Resolved [] accounts = Unit
Resolved (w ∷ ws) accounts = (find_account w.address accounts ≡ some w) × Resolved ws accounts

resolve_accounts-Resolved :
    (ms : List AccountMeta) (accounts out : List KeyedAccount)
    → resolve_accounts ms accounts ≡ ok out
    → Resolved out accounts
unfolding resolve_accounts
resolve_accounts-Resolved [] accounts out h = ground arith
resolve_accounts-Resolved (m ∷ ms) accounts out h =
    grind (arith, find_account-address m.pubkey accounts, resolve_accounts-Resolved ms accounts)

merge_one-total :
    (w w' : KeyedAccount) (accounts : List KeyedAccount)
    → find_account w'.address accounts ≡ some w
    → total_lamports (merge_one accounts w') + w.lamports ≡ total_lamports accounts + w'.lamports
unfolding merge_one
merge_one-total w w' [] h = ground arith
merge_one-total w w' (a ∷ accounts) h = ground (arith, merge_one-total w w' accounts)

merge_one-Resolved :
    (w' : KeyedAccount) (ws accounts : List KeyedAccount)
    → contains (addresses ws) w'.address ≡ false
    → Resolved ws accounts
    → Resolved ws (merge_one accounts w')
merge_one-Resolved w' [] accounts h r = tt
merge_one-Resolved w' (w ∷ ws) accounts h r = (
  ground (arith, find_account-merge_one w.address w' accounts),
  merge_one-Resolved w' ws accounts (ground arith) r.1,
)

merge_one-addresses :
    (w' w : KeyedAccount) (accounts : List KeyedAccount)
    → find_account w'.address accounts ≡ some w
    → addresses (merge_one accounts w') ≡ addresses accounts
unfolding merge_one
merge_one-addresses w' w [] h = ground arith
merge_one-addresses w' w (a ∷ accounts) h = grind (arith, merge_one-addresses w' w accounts)

-- What distinct slots gain together, the merged accounts gain.
merge_accounts-total :
    (ws ws' accounts : List KeyedAccount)
    → addresses ws' ≡ addresses ws
    → IsDistinct (addresses ws)
    → Resolved ws accounts
    → total_lamports (merge_accounts accounts ws') + total_lamports ws
      ≡ total_lamports accounts + total_lamports ws'
unfolding merge_accounts
merge_accounts-total [] [] accounts e d r = refl
merge_accounts-total [] (w' ∷ ws') accounts e d r = absurd (ground arith)
merge_accounts-total (w ∷ ws) [] accounts e d r = absurd (ground arith)
merge_accounts-total (w ∷ ws) (w' ∷ ws') accounts e d r =
    let same : w'.address ≡ w.address = ground arith in
    let tails : addresses ws' ≡ addresses ws = ground arith in
    let first = merge_one-total w w' accounts (rw same r.0) in
    let rest =
      merge_accounts-total ws ws' (merge_one accounts w') tails d.1
        (merge_one-Resolved w' ws accounts (rw same d.0) r.1) in
    omega (arith, first, rest)

-- The merge keeps the addresses.
merge_accounts-addresses :
    (ws ws' accounts : List KeyedAccount)
    → addresses ws' ≡ addresses ws
    → IsDistinct (addresses ws)
    → Resolved ws accounts
    → addresses (merge_accounts accounts ws') ≡ addresses accounts
unfolding merge_accounts
merge_accounts-addresses [] [] accounts e d r = refl
merge_accounts-addresses [] (w' ∷ ws') accounts e d r = absurd (ground arith)
merge_accounts-addresses (w ∷ ws) [] accounts e d r = absurd (ground arith)
merge_accounts-addresses (w ∷ ws) (w' ∷ ws') accounts e d r =
    let same : w'.address ≡ w.address = ground arith in
    let tails : addresses ws' ≡ addresses ws = ground arith in
    merge_accounts-addresses ws ws' (merge_one accounts w') tails d.1
      (merge_one-Resolved w' ws accounts (rw same d.0) r.1)
    ∙ merge_one-addresses w' w accounts (rw same r.0)

abbrev drained : List KeyedAccount → List KeyedAccount
drained [] = []
drained (w ∷ ws) = record w { lamports = 0 } ∷ drained ws

drained-addresses : (ws : List KeyedAccount) → addresses (drained ws) ≡ addresses ws
drained-addresses [] = refl
drained-addresses (w ∷ ws) = ap (λ t. w.address ∷ t) (drained-addresses ws)

drained-total : (ws : List KeyedAccount) → total_lamports (drained ws) ≡ 0
drained-total [] = refl
drained-total (w ∷ ws) = omega (arith, drained-total ws)

-- Distinct slots hold no more than all the accounts.
working-total :
    (ws accounts : List KeyedAccount)
    → IsDistinct (addresses ws)
    → Resolved ws accounts
    → total_lamports ws ≤ total_lamports accounts
working-total ws accounts d r = omega (
  arith,
  merge_accounts-total ws (drained ws) accounts (drained-addresses ws) d r,
  drained-total ws,
)

module _ (program : BuiltinProgram) (fair : IsConservative program) (ix : Instruction)
    (accounts : List KeyedAccount) (d : IsDistinct (keys ix.accounts))
    (small : total_lamports accounts ≤ u64_max) where
  conclude-total :
      (ws : List KeyedAccount) (r : Invocation) {o : ExecutionOutcome} {s' : Session}
      → IsDistinct (addresses ws)
      → Resolved ws accounts
      → SameTotal ws r.accounts
      → conclude ix accounts r ≡ some (o, s')
      → SameTotal accounts o.resulting_accounts
  unfolding conclude abort
  conclude-total ws r dw rw_ (same, keep) h =
      let merged = merge_accounts-total ws r.accounts accounts keep dw rw_ in
      let gain : total_lamports (merge_accounts accounts r.accounts) ≡ total_lamports accounts =
        omega (arith, merged, same) in
      let kept = merge_accounts-addresses ws r.accounts accounts keep dw rw_ in
      ground (arith, gain, kept)

  run-total :
      (sysvars : Sysvars) (s : Session) {o : ExecutionOutcome} {s' : Session}
      → run program ix accounts sysvars s ≡ some (o, s')
      → SameTotal accounts o.resulting_accounts
  unfolding run abort
  run-total sysvars s h = elim (Result-cases (resolve_accounts ix.accounts accounts)) [
    | inl (ws, e) ↦
        let named = resolve_accounts-addresses ix.accounts accounts ws e in
        let held = resolve_accounts-Resolved ix.accounts accounts ws e in
        let dw : IsDistinct (addresses ws) = rw named d in
        let ctx : InvokeContext = record {
          program_id = ix.program_id;
          account_metas = ix.accounts;
          sysvars = sysvars;
        } in
        let within : total_lamports ws ≤ u64_max =
          omega (arith, working-total ws accounts dw held) in
        conclude-total ws (program.invoke ix.bytes ws ctx s) dw held (fair ix.bytes ws ctx s within)
          (rw (e, run) at h)
    | inr bad ↦ ground arith
  ]

  -- The outcome of a conservative program, on metas with distinct keys and accounts whose lamports
  -- sum to a `u64`, has the sum and the addresses of the accounts that went in.
  pub execute-total :
      (sysvars : Sysvars) (s : Session) {o : ExecutionOutcome} {s' : Session}
      → execute program ix accounts sysvars s ≡ some (o, s')
      → SameTotal accounts o.resulting_accounts
  unfolding execute abort
  execute-total sysvars s h = grind (arith, run-total)

cons-Resolved :
    (a : KeyedAccount) (ws accounts : List KeyedAccount)
    → contains (addresses ws) a.address ≡ false
    → Resolved ws accounts
    → Resolved ws (a ∷ accounts)
cons-Resolved a [] accounts h r = tt
cons-Resolved a (w ∷ ws) accounts h r =
    (ground arith, cons-Resolved a ws accounts (ground arith) r.1)

self-Resolved :
    (accounts : List KeyedAccount) → IsDistinct (addresses accounts) → Resolved accounts accounts
self-Resolved [] d = tt
self-Resolved (a ∷ accounts) d =
    (ground arith, cons-Resolved a accounts accounts d.0 (self-Resolved accounts d.1))

-- Accounts with distinct addresses, merged with a later version of themselves, have its sum.
pub merge-SameTotal :
    (accounts after : List KeyedAccount)
    → IsDistinct (addresses accounts)
    → SameTotal accounts after
    → SameTotal accounts (merge_accounts accounts after)
merge-SameTotal accounts after d (same, keep) =
    let r = self-Resolved accounts d in
    let merged = merge_accounts-total accounts after accounts keep d r in
    (omega (arith, merged, same), merge_accounts-addresses accounts after accounts keep d r)
