-- ===== src/Token2022/Common.antt =====
-- src/spl/token_2022.rs, src/spl/token.rs: where the two token simulators agree.
use hopper_svm.Prelude.{ℕ, ◌≡◌, refl, Bool-cases, false, ◌⊎◌, inl, inr, List, [], ◌∷◌, arith}
use hopper_svm.Error.{is_ok}
use hopper_svm.Account.{KeyedAccount}
use hopper_svm.Sdk.{Sdk}
use hopper_svm.Builtin.{InvokeContext, Session}
use hopper_svm.Token.{token_dispatch, token_invoke}
use hopper_svm.Token.State.{SplToken}
use hopper_svm.Token2022.{is_common, token_2022_invoke}

module _ (sdk : Sdk) (spl : SplToken) (accounts : List KeyedAccount) (ctx : InvokeContext)
    (s : Session) where
  token_invoke-empty : is_ok (token_invoke sdk spl [] accounts ctx s).result ≡ false
  unfolding token_invoke token_dispatch
  token_invoke-empty = refl

  -- A tag that is not common is no tag of the token program.
  token_invoke-uncommon :
      (tag : ℕ) (body : List ℕ)
      → is_common tag ≡ false
      → is_ok (token_invoke sdk spl (tag ∷ body) accounts ctx s).result ≡ false
  unfolding token_invoke token_dispatch
  token_invoke-uncommon tag body h = ground arith

  -- On any instruction the Token-2022 simulator does just what the token simulator does, or both fail
  -- and it leaves the accounts and the session as they are.
  pub token_2022_invoke-eq :
      (bytes : List ℕ)
      → let t = token_invoke sdk spl bytes accounts ctx s in
        let u = token_2022_invoke sdk spl bytes accounts ctx s in
        (u ≡ t)
        ⊎ ((is_ok u.result ≡ false)
            × (is_ok t.result ≡ false)
            × (u.accounts ≡ accounts)
            × (u.session ≡ s))
  unfolding token_2022_invoke
  token_2022_invoke-eq [] = inr (refl, token_invoke-empty, refl, refl)
  token_2022_invoke-eq (tag ∷ body) = elim (Bool-cases (is_common tag)) [
    | inl common ↦ inl (ground (arith, common))
    | inr other ↦ inr (ground (arith, other, token_invoke-uncommon tag body other))
  ]
