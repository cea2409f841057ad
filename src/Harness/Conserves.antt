-- ===== src/Harness/Conserves.antt =====
-- src/lib.rs, src/spl/, src/system_program.rs: the lamports of all accounts through one instruction of
-- any program that the harness comes with.
use hopper_svm.Prelude.{◌≡◌, refl, List, [], ◌∷◌, arith}
use hopper_svm.Error.{ok, err, panic}
use hopper_svm.Account.{KeyedAccount, total_lamports, addresses}
use hopper_svm.Sdk.{Sdk}
use hopper_svm.Builtin.{Session}
use hopper_svm.Engine.Totals.{IsConservative}
use hopper_svm.System.{system_program}
use hopper_svm.System.Slots.{Handled, concluded}
use hopper_svm.System.Conserves.{Balanced, system_invoke-conserves}
use hopper_svm.ComputeBudgetProgram.{budget_invoke, compute_budget_program}
use hopper_svm.Token.{token_program}
use hopper_svm.Token.State.{SplToken}
use hopper_svm.Token.Conserves.{token_invoke-conserves}
use hopper_svm.Token2022.{token_2022_invoke, token_2022_program}
use hopper_svm.Stake.{stake_program}
use hopper_svm.Stake.Slots.{stake_handle-Balanced}
use hopper_svm.Vote.{vote_program}
use hopper_svm.Vote.Slots.{vote_handle-Balanced}
use hopper_svm.Alt.{alt_program}
use hopper_svm.Alt.Slots.{alt_handle-Balanced}
use hopper_svm.Config.{config_program}
use hopper_svm.Config.Slots.{config_handle-Balanced}
use hopper_svm.Ata.{ata_program}
use hopper_svm.Ata.Slots.{ata_handle-Balanced}

-- What a handler balances, its program conserves.
concluded-total :
    (h : Handled) (accounts : List KeyedAccount) (s : Session)
    → Balanced accounts h
    → let r = concluded h accounts s in
      (total_lamports r.accounts ≡ total_lamports accounts)
      × (addresses r.accounts ≡ addresses accounts)
concluded-total (ok (after, message)) accounts s b = b
concluded-total (err e) accounts s b = (refl, refl)
concluded-total panic accounts s b = (refl, refl)

pub compute_budget_program-IsConservative : IsConservative compute_budget_program
unfolding compute_budget_program budget_invoke
compute_budget_program-IsConservative bytes accounts ctx s h = ground arith

pub config_program-IsConservative : IsConservative config_program
unfolding config_program
config_program-IsConservative bytes accounts ctx s h =
    concluded-total _ accounts s (config_handle-Balanced bytes ctx accounts)

module _ (sdk : Sdk) where
  pub system_program-IsConservative : IsConservative (system_program sdk)
  unfolding system_program
  system_program-IsConservative bytes accounts ctx s h =
      system_invoke-conserves sdk accounts ctx bytes s h

  pub stake_program-IsConservative : IsConservative (stake_program sdk)
  unfolding stake_program
  stake_program-IsConservative bytes accounts ctx s h =
      concluded-total _ accounts s (stake_handle-Balanced sdk bytes accounts ctx h)

  pub vote_program-IsConservative : IsConservative (vote_program sdk)
  unfolding vote_program
  vote_program-IsConservative bytes accounts ctx s h =
      concluded-total _ accounts s (vote_handle-Balanced sdk bytes accounts ctx h)

  pub alt_program-IsConservative : IsConservative (alt_program sdk)
  unfolding alt_program
  alt_program-IsConservative bytes accounts ctx s h =
      concluded-total _ accounts s (alt_handle-Balanced sdk bytes accounts ctx h)

  module _ (spl : SplToken) where
    pub token_program-IsConservative : IsConservative (token_program sdk spl)
    unfolding token_program
    token_program-IsConservative bytes accounts ctx s h =
        token_invoke-conserves sdk spl accounts ctx bytes s h

    pub token_2022_program-IsConservative : IsConservative (token_2022_program sdk spl)
    unfolding token_2022_program token_2022_invoke
    token_2022_program-IsConservative [] accounts ctx s h = (refl, refl)
    token_2022_program-IsConservative (tag ∷ body) accounts ctx s h =
        ground (arith, token_invoke-conserves sdk spl accounts ctx (tag ∷ body) s h)

    pub ata_program-IsConservative : IsConservative (ata_program sdk spl)
    unfolding ata_program
    ata_program-IsConservative bytes accounts ctx s h =
        concluded-total _ accounts s (ata_handle-Balanced sdk spl bytes ctx accounts)
