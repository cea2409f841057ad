-- ===== src/System/Funding.antt =====
-- src/system_program.rs: what `CreateAccountWithSeed` has found and done where it succeeds.
use hopper_svm.Prelude.{
  ℕ, ◌+◌, ◌≤◌, ◌≡◌, String, List, ◌∷◌, arith, ◌==◌, ◌&&◌, is_empty, leb, length, u64_max,
}
use hopper_svm.Bytes.{le_decode, slice}
use hopper_svm.Error.{
  HopperSvmError, ok, require, ◌>>◌, no_overflow, >>=-eq-ok, then-eq-ok, require-eq-ok,
}
use hopper_svm.Account.{KeyedAccount}
use hopper_svm.Sdk.{Sdk}
use hopper_svm.Builtin.{InvokeContext, require_signer, require_writable}
use hopper_svm.System.Slots.{two_slots}
use hopper_svm.System.Create.{debit, create, within_capacity}
use hopper_svm.System.Seeds.{create_account_with_seed, derived, require_base}

-- The end of the handler, behind the checks on who may create what.
create_end :
    (lamports space : ℕ) (e e' : HopperSvmError) (a b : KeyedAccount)
    (x y : List KeyedAccount × String)
    → (require (leb lamports a.lamports) e
        >> (require (b.lamports == 0 && is_empty b.bytes) e' >> (within_capacity space >> ok x)))
      ≡ ok y
    → (lamports ≤ a.lamports) × (b.lamports ≡ 0) × (y.0 ≡ x.0)
create_end lamports space e e' a b x y h = ground arith

module _ (sdk : Sdk) (body : List ℕ) (ctx : InvokeContext) (a b : KeyedAccount)
    (rest after : List KeyedAccount) (message : String)
    (done : create_account_with_seed sdk body (a ∷ b ∷ rest) ctx ≡ ok (after, message)) where
  abbrev pub paid_in : ℕ
  paid_in = le_decode (slice (40 + le_decode (slice 32 8 body)) 8 body)

  pub create_account_with_seed_inv :
      (space owner : ℕ) × (require_writable ctx a.address ≡ ok tt)
      × (require_writable ctx b.address ≡ ok tt)
      × (paid_in ≤ a.lamports)
      × (b.lamports ≡ 0)
      × (after ≡ debit a paid_in ∷ create b paid_in space owner ∷ rest)
  unfolding create_account_with_seed two_slots
  create_account_with_seed_inv =
      let seed_len = le_decode (slice 32 8 body) in
      let seed = slice 40 seed_len body in
      let owner = le_decode (slice (40 + seed_len + 16) 32 body) in
      let derivation = sdk.create_with_seed (le_decode (slice 0 32 body)) seed owner in
      let (_, h1) = require-eq-ok (leb 40 (length body)) _ _ done in
      let (_, h2) = then-eq-ok (no_overflow (leb (40 + seed_len + 48) u64_max)) _ h1 in
      let (_, h3) = require-eq-ok (leb (40 + seed_len + 48) (length body)) _ _ h2 in
      let (_, h4) = require-eq-ok (sdk.is_utf8 seed) _ _ h3 in
      let (key, _, h5) = >>=-eq-ok (derived derivation _) _ h4 in
      let (_, h6) = require-eq-ok (key == b.address) _ _ h5 in
      let (_, h7) = then-eq-ok (require_signer ctx a.address) _ h6 in
      let (wa, h8) = then-eq-ok (require_writable ctx a.address) _ h7 in
      let (wb, h9) = then-eq-ok (require_writable ctx b.address) _ h8 in
      let (_, h10) = then-eq-ok (require_base ctx (le_decode (slice 0 32 body)) a.address) _ h9 in
      let (enough, vacant, made) =
        create_end paid_in (le_decode (slice (40 + seed_len + 8) 8 body)) _ _ a b _ _ h10 in
      (le_decode (slice (40 + seed_len + 8) 8 body), owner, wa, wb, enough, vacant, made)
