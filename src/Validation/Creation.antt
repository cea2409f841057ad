-- ===== src/Validation/Creation.antt =====
-- src/validation.rs: how rule 2 treats accounts that an instruction creates.
use hopper_svm.Prelude.{
  ℕ, ◌+◌, min, refl, none, String, ◌≤◌, ◌<◌, ◌≡◌, ◌≢◌, true, false, List, [], ◌∷◌, arith,
  bytes_eq_refl, u64_max,
}
use hopper_svm.Error.{Pubkey, ok, err, >>=-eq-ok, account_validation_failed}
use hopper_svm.Account.{KeyedAccount, AccountMeta}
use hopper_svm.Sdk.{Sdk}
use hopper_svm.Bytes.{le_decode, slice}
use hopper_svm.Builtin.{InvokeContext, find_meta}
use hopper_svm.System.Create.{debit, create, create_account}
use hopper_svm.Validation.{
  strict, check_account, check_fresh, check_meta, check_metas, creation_credit, check_conservation,
  validate_post_state, Tally, u128_max, start,
}
use hopper_svm.Validation.Rules.{IsVacant}

-- The tally of a loop that has counted, before all others, the address `k` as it went from no
-- lamports to `gain`.
abbrev shift : Pubkey → ℕ → Tally → Tally
shift k gain t = record {
  seen = k ∷ t.seen;
  sum_pre = t.sum_pre;
  sum_post = min (t.sum_post + gain) u128_max;
}

module _ (sdk : Sdk) (program_id : Pubkey) (p n : KeyedAccount) (same : n.address ≡ p.address)
    (pre post : List KeyedAccount) where
  -- A round on another address comes to the same with a first account more on both sides.
  check_meta-shift :
      (gain : ℕ) (m : AccountMeta) (t t' : Tally)
      → check_meta sdk program_id pre post m t ≡ ok t'
      → m.pubkey ≢ p.address
      → check_meta sdk program_id (p ∷ pre) (n ∷ post) m (shift p.address gain t)
        ≡ ok (shift p.address gain t')
  unfolding check_meta check_fresh
  check_meta-shift gain m t t' h ne = ground arith

  check_metas-shift :
      (gain : ℕ) (ms : List AccountMeta) (t t' : Tally)
      → check_metas sdk program_id pre post ms t ≡ ok t'
      → find_meta p.address ms ≡ none
      → check_metas sdk program_id (p ∷ pre) (n ∷ post) ms (shift p.address gain t)
        ≡ ok (shift p.address gain t')
  unfolding check_metas
  check_metas-shift gain [] t t' h absent = ground arith
  check_metas-shift gain (m ∷ ms) t t' h absent =
      let (u, one, all) =
        >>=-eq-ok (check_meta sdk program_id pre post m t) (check_metas sdk program_id pre post ms)
          h in
      rw (check_meta-shift gain m t u one (ground arith))
        (check_metas-shift gain ms u t' all (ground arith))

module _ (sdk : Sdk) where
  -- The strict policy accepts a program that leaves on a vacant account, listed as writable, any
  -- `u64` of lamports that no account has paid, if it writes data to it too: whatever else an
  -- instruction lists and does that the policy accepts, it accepts it with such an account listed
  -- first as well, unless the address of that account is listed again.
  pub creation_from_nothing-accepted :
      (program_id : Pubkey) (m : AccountMeta) (p : KeyedAccount) (lamports byte : ℕ)
      (bytes : List ℕ) (metas : List AccountMeta) (pre post : List KeyedAccount)
      → m.pubkey ≡ p.address
      → m.is_writable ≡ true
      → IsVacant sdk program_id p
      → lamports ≤ u64_max
      → find_meta p.address metas ≡ none
      → validate_post_state sdk program_id metas pre post strict ≡ ok tt
      → validate_post_state sdk program_id
          (m ∷ metas)
          (p ∷ pre)
          (record p { lamports = lamports; bytes = byte ∷ bytes } ∷ post)
          strict
        ≡ ok tt
  unfolding validate_post_state check_metas check_meta check_fresh check_account check_conservation
      creation_credit
  creation_from_nothing-accepted program_id m p lamports byte bytes metas pre post key writable
        vacant small absent passes =
      let n : KeyedAccount = record p { lamports = lamports; bytes = byte ∷ bytes } in
      let (t, ran, balanced) =
        >>=-eq-ok (check_metas sdk program_id pre post metas (start sdk))
          (check_conservation sdk pre post) passes in
      let all =
        check_metas-shift sdk program_id p n refl pre post lamports metas (start sdk) t ran
          absent in
      ground (arith, all)

  module _ (mf mt : AccountMeta) (f t : KeyedAccount) (f_key : mf.pubkey ≡ f.address)
      (t_key : mt.pubkey ≡ t.address) (distinct : f.address ≢ t.address)
      (f_writable : mf.is_writable ≡ true) (t_writable : mt.is_writable ≡ true) where
    -- What `CreateAccount` does to two accounts, with some lamports for a vacant account and a new
    -- owner, breaks rule 2: the lamports count as a creation credit on top of the payer's.
    pub create-rejected :
        (lamports space : ℕ) (owner : Pubkey)
        → IsVacant sdk sdk.system_id t
        → f.owner ≡ sdk.system_id
        → f.bytes ≡ []
        → owner ≢ sdk.system_id
        → 0 < lamports
        → lamports ≤ f.lamports
        → f.lamports ≤ u64_max
        → t.executable ≡ false
        → validate_post_state sdk sdk.system_id
            (mf ∷ mt ∷ [])
            (f ∷ t ∷ [])
            (debit f lamports ∷ create t lamports space owner ∷ [])
            strict
          ≡ err (
              account_validation_failed sdk.default_key
                "lamport conservation broken (pre={sum_pre}+{creation_credit}, post={sum_post}, delta={})")
    unfolding validate_post_state check_metas check_meta check_fresh check_account
        check_conservation creation_credit
    create-rejected lamports space owner vacant sys empty new pos enough small fixed =
        ground (arith, bytes_eq_refl f.bytes)

    -- The strict policy rejects what a `CreateAccount` that succeeds leaves behind, with both
    -- accounts listed as writable, where it moves lamports, the funder is an empty account of the
    -- system program, the new account is one too, and the new owner is another program.
    pub create_account-rejected :
        (body : List ℕ) (ctx : InvokeContext) (after : List KeyedAccount) (message : String)
        → create_account body (f ∷ t ∷ []) ctx ≡ ok (after, message)
        → 0 < le_decode (slice 0 8 body)
        → le_decode (slice 16 32 body) ≢ sdk.system_id
        → f.owner ≡ sdk.system_id
        → f.bytes ≡ []
        → t.owner ≡ sdk.system_id
        → t.executable ≡ false
        → f.lamports ≤ u64_max
        → validate_post_state sdk sdk.system_id (mf ∷ mt ∷ []) (f ∷ t ∷ []) after strict
          ≡ err (
              account_validation_failed sdk.default_key
                "lamport conservation broken (pre={sum_pre}+{creation_credit}, post={sum_post}, delta={})")
    unfolding create_account
    create_account-rejected body ctx after message h pos new sys empty vacant fixed small = ground (
      arith,
      create-rejected (le_decode (slice 0 8 body)) (le_decode (slice 8 8 body))
          (le_decode (slice 16 32 body)),
    )
