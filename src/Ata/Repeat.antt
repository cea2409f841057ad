-- ===== src/Ata/Repeat.antt =====
-- src/spl/ata.rs: `CreateIdempotent` behind a call that succeeded.
use hopper_svm.Prelude.{
  ℕ, ◌^◌, ◌<◌, ◌≡◌, refl, Bool, Bool-cases, true, inl, inr, String, List, [], ◌∷◌, arith, replicate,
  length-replicate,
}
use hopper_svm.Error.{ok, then-eq-ok, >>=-eq-ok}
use hopper_svm.Account.{KeyedAccount}
use hopper_svm.Sdk.{Sdk}
use hopper_svm.Builtin.{InvokeContext}
use hopper_svm.System.Create.{debit}
use hopper_svm.Token.State.{SplToken, PackLaws}
use hopper_svm.Ata.{
  idempotent_of, already_exists, matches, fresh_token, check_slots, check_existing, associated,
  settled, ata_handle, ata_default_lamports,
}

abbrev pub untouched : String
untouched = "spl-ata::CreateIdempotent: {ata_addr} already exists, no-op"

module _ (sdk : Sdk) (spl : SplToken) (laws : PackLaws spl) (ctx : InvokeContext)
    (funder a wallet mint sys program : KeyedAccount) (rest : List KeyedAccount)
    (wallet_key : wallet.address < 256 ^ 32) (mint_key : mint.address < 256 ^ 32) where
  abbrev slots : KeyedAccount → KeyedAccount → List KeyedAccount
  slots f b = f ∷ b ∷ wallet ∷ mint ∷ sys ∷ program ∷ rest

  -- What the account unpacks to that `Create` made.
  made-matches :
      matches sdk spl
        (associated sdk spl a wallet.address mint.address program.address).bytes
        mint.address
        wallet.address
      ≡ true
  made-matches =
      let blank : List ℕ = replicate spl.account_len 0 in
      let read =
        laws.unpack_pack_account (fresh_token mint.address wallet.address) blank (ground arith)
          (length-replicate spl.account_len 0) in
      ground (arith, read)

  settled-again :
      (idempotent : Bool) (after : List KeyedAccount) (message : String)
      → settled sdk spl ctx idempotent funder a wallet mint sys program rest ≡ ok (after, message)
      → (f : KeyedAccount) × (b : KeyedAccount) × (slots f b ≡ after)
        × (f.address ≡ funder.address)
        × (b.address ≡ a.address)
        × (settled sdk spl ctx true f b wallet mint sys program rest ≡ ok (slots f b, untouched))
  unfolding settled check_existing
  settled-again idempotent after message h = elim (Bool-cases (already_exists sdk spl a)) [
    | inl exists ↦ (funder, a, ground arith, refl, refl, ground arith)
    | inr fresh ↦
        let f = debit funder ata_default_lamports in
        let b = associated sdk spl a wallet.address mint.address program.address in
        (f, b, ground arith, refl, refl, ground (arith, made-matches))
  ]

  -- After any call of the program that succeeded, with 32-byte keys for the wallet and the mint and a
  -- `Pack` that keeps its round trip, `CreateIdempotent` on the slots as the call left them succeeds
  -- and changes none of them.
  pub ata_handle-repeat :
      (bytes : List ℕ) (after : List KeyedAccount) (message : String)
      → ata_handle sdk spl bytes (slots funder a) ctx ≡ ok (after, message)
      → ata_handle sdk spl (1 ∷ []) after ctx ≡ ok (after, untouched)
  unfolding ata_handle idempotent_of check_slots
  ata_handle-repeat bytes after message h =
      let (idempotent, _, h1) = >>=-eq-ok (idempotent_of bytes ctx) _ h in
      let (checked, h2) =
        then-eq-ok (check_slots sdk spl ctx funder a wallet mint sys program) _ h1 in
      let (f, b, e, ef, eb, again) = settled-again idempotent after message h2 in
      let same : check_slots sdk spl ctx f b wallet mint sys program ≡ ok tt =
        rw (ef, eb) checked in
      rw (← e, same) again
