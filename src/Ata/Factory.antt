-- ===== src/Ata/Factory.antt =====
-- src/token.rs, src/spl/ata.rs, src/spl/token.rs: an associated account of the factory, as the two
-- programs see it.
use hopper_svm.Prelude.{
  ℕ, ◌^◌, ◌≤◌, ◌<◌, ◌≡◌, refl, true, ◌⊎◌, some, List, [], ◌∷◌, arith, replicate, length-replicate,
  u64_max,
}
use hopper_svm.Error.{Pubkey, ok}
use hopper_svm.Account.{KeyedAccount}
use hopper_svm.Sdk.{Sdk}
use hopper_svm.Builtin.{InvokeContext, require_signer, require_writable}
use hopper_svm.Token.State.{SplToken, PackLaws, TokenAccount, read_token_account}
use hopper_svm.Token.Factories.{
  create_keyed_token_account_with_program, create_keyed_associated_token_account_with_program,
}
use hopper_svm.Ata.{
  idempotent_of, associated_address, fresh_token, check_slots, check_existing, settled, ata_handle,
}
use hopper_svm.Ata.Repeat.{untouched}

module _ (sdk : Sdk) (spl : SplToken) (laws : PackLaws spl) (wallet mint program : Pubkey)
    (amount : ℕ) (wallet_key : wallet < 256 ^ 32) (mint_key : mint < 256 ^ 32)
    (small : amount ≤ u64_max) where
  abbrev pub made : KeyedAccount
  made = create_keyed_associated_token_account_with_program sdk spl wallet mint amount program

  abbrev pub holding : TokenAccount
  holding = record (fresh_token mint wallet) { amount = amount }

  made-unpack : spl.unpack_account made.bytes ≡ some holding
  unfolding create_keyed_associated_token_account_with_program
      create_keyed_token_account_with_program
  made-unpack =
      let blank : List ℕ = replicate spl.account_len 0 in
      laws.unpack_pack_account holding blank (ground arith) (length-replicate spl.account_len 0)

  made-fields :
      (made.lamports ≡ 1_000_000_000)
      × (made.owner ≡ program)
      × (made.address ≡ associated_address sdk spl wallet mint program)
  unfolding create_keyed_associated_token_account_with_program
      create_keyed_token_account_with_program
  made-fields = (refl, refl, refl)

  read-made :
      (ctx : InvokeContext)
      → ctx.program_id ≡ program
      → read_token_account spl made ctx ≡ ok holding
  unfolding read_token_account
  read-made ctx same = ground (arith, made-unpack, made-fields)

module _ (sdk : Sdk) (spl : SplToken) (ctx : InvokeContext)
    (funder a wallet mint sys program : KeyedAccount) where
  check_slots-ok :
      a.address ≡ associated_address sdk spl wallet.address mint.address program.address
      → (program.address ≡ sdk.spl_token_id) ⊎ (program.address ≡ sdk.spl_token_2022_id)
      → sys.address ≡ sdk.system_id
      → mint.owner ≡ program.address
      → require_signer ctx funder.address ≡ ok tt
      → require_writable ctx funder.address ≡ ok tt
      → require_writable ctx a.address ≡ ok tt
      → check_slots sdk spl ctx funder a wallet mint sys program ≡ ok tt
  unfolding check_slots
  check_slots-ok placed known system owned signed wf wa = ground arith

  settled-untouched :
      (t : TokenAccount) (rest : List KeyedAccount)
      → a.lamports ≡ 1_000_000_000
      → a.owner ≡ program.address
      → spl.unpack_account a.bytes ≡ some t
      → t.mint ≡ mint.address
      → t.owner ≡ wallet.address
      → settled sdk spl ctx true funder a wallet mint sys program rest
        ≡ ok (funder ∷ a ∷ wallet ∷ mint ∷ sys ∷ program ∷ rest, untouched)
  unfolding settled check_existing
  settled-untouched t rest funded owned unpacks em eo = ground arith

-- The associated account that the factory makes, with 32-byte keys, a `u64` amount and a `Pack` that
-- keeps its round trip: the simulator of its token program reads the amount and the owner that the
-- factory was given, and `CreateIdempotent`, its funder signing and its slots in order, accepts the
-- account and changes nothing.
pub create_keyed_associated_token_account-reads :
    (sdk : Sdk) (spl : SplToken) (laws : PackLaws spl)
    (funder wallet mint sys program : KeyedAccount) (amount : ℕ) (rest : List KeyedAccount)
    (token_ctx ctx : InvokeContext)
    → wallet.address < 256 ^ 32
    → mint.address < 256 ^ 32
    → amount ≤ u64_max
    → token_ctx.program_id ≡ program.address
    → (program.address ≡ sdk.spl_token_id) ⊎ (program.address ≡ sdk.spl_token_2022_id)
    → sys.address ≡ sdk.system_id
    → mint.owner ≡ program.address
    → require_signer ctx funder.address ≡ ok tt
    → require_writable ctx funder.address ≡ ok tt
    → require_writable ctx (associated_address sdk spl wallet.address mint.address program.address)
      ≡ ok tt
    → let a =
        create_keyed_associated_token_account_with_program sdk spl wallet.address mint.address
          amount program.address in
      let slots = funder ∷ a ∷ wallet ∷ mint ∷ sys ∷ program ∷ rest in
      (read_token_account spl a token_ctx
        ≡ ok (record (fresh_token mint.address wallet.address) { amount = amount }))
      × (ata_handle sdk spl (1 ∷ []) slots ctx ≡ ok (slots, untouched))
unfolding ata_handle idempotent_of
create_keyed_associated_token_account-reads sdk spl laws funder wallet mint sys program amount rest
      token_ctx ctx wk mk small same known system owned signed wf wa =
    let a = made sdk spl laws wallet.address mint.address program.address amount wk mk small in
    let read =
      read-made sdk spl laws wallet.address mint.address program.address amount wk mk small in
    let (funded, kept, placed) =
      made-fields sdk spl laws wallet.address mint.address program.address amount wk mk small in
    let unpacks =
      made-unpack sdk spl laws wallet.address mint.address program.address amount wk mk small in
    let checked =
      check_slots-ok sdk spl ctx funder a wallet mint sys program placed known system owned signed
        wf (rw placed wa) in
    let kept_all =
      settled-untouched sdk spl ctx funder a wallet mint sys program _ rest funded kept unpacks refl
        refl in
    (read token_ctx same, rw checked kept_all)
