-- ===== src/Validation/Rules.antt =====
-- src/validation.rs: what a validated instruction has not done.
use hopper_svm.Prelude.{
  ◌≤◌, ◌≡◌, refl, ◌≢◌, ◌⊎◌, true, false, some, List, [], ◌∷◌, ◌==◌, contains, bytes_eq_sound, arith,
  Bool-cases, contains-push, inl, inr,
}
use hopper_svm.Error.{Pubkey, ok, panic, >>=-eq-ok}
use hopper_svm.Account.{KeyedAccount, AccountMeta, find_account}
use hopper_svm.Builtin.{find_meta}
use hopper_svm.Sdk.{Sdk}
use hopper_svm.Validation.{
  Tally, ValidationPolicy, strict, lax, check_account, check_fresh, check_meta, check_metas,
  check_conservation, validate_post_state, start,
}

module _ (sdk : Sdk) (program_id : Pubkey) where
  -- An account without lamports or bytes that the system program owns.
  abbrev pub IsVacant : KeyedAccount → Type 0
  IsVacant p = (p.lamports ≡ 0) × (p.bytes ≡ []) × (p.owner ≡ sdk.system_id)

  -- What the program may have done to an account that was `p` and is `n`.
  pub record Respects (m : AccountMeta) (p n : KeyedAccount) : Type 0 where
    pub read_only :
        (m.is_writable ≡ true)
        ⊎ ((p.lamports ≡ n.lamports) × (p.bytes ≡ n.bytes) × (p.owner ≡ n.owner))
    pub executable : p.executable ≡ n.executable
    pub debit : (p.lamports ≤ n.lamports) ⊎ (p.owner ≡ program_id)
    pub reassign :
        (p.owner ≡ n.owner) ⊎ (p.owner ≡ program_id) ⊎ (IsVacant p × (program_id ≡ sdk.system_id))
    pub write : (p.bytes ≡ n.bytes) ⊎ (p.owner ≡ program_id) ⊎ IsVacant p

  check_account-Respects :
      (m : AccountMeta) (p n : KeyedAccount)
      → check_account sdk program_id m p n ≡ ok tt
      → Respects m p n
  unfolding check_account
  check_account-Respects m p n h = record {
    read_only = ground (arith, bytes_eq_sound p.bytes n.bytes);
    executable = ground arith;
    debit = ground arith;
    reassign = ground (arith, bytes_eq_sound p.bytes n.bytes);
    write = ground (arith, bytes_eq_sound p.bytes n.bytes);
  }

  module _ (pre post : List KeyedAccount) where
    -- A fresh key with an account on both sides obeys the rules.
    check_fresh-Respects :
        (m : AccountMeta) (t t' : Tally) (p n : KeyedAccount)
        → check_fresh sdk program_id pre post m t ≡ ok t'
        → find_account m.pubkey pre ≡ some p
        → find_account m.pubkey post ≡ some n
        → Respects m p n
    unfolding check_fresh
    check_fresh-Respects m t t' p n h hp hn = check_account-Respects m p n (ground arith)

    -- A round on another key leaves `k` unseen.
    check_meta-unseen :
        (m : AccountMeta) (t t' : Tally) (k : Pubkey)
        → check_meta sdk program_id pre post m t ≡ ok t'
        → contains t.seen k ≡ false
        → m.pubkey ≢ k
        → contains t'.seen k ≡ false
    unfolding check_meta check_fresh
    check_meta-unseen m t t' k h unseen ne = ground (arith, contains-push t.seen m.pubkey k)

    check_meta-Respects :
        (m : AccountMeta) (t t' : Tally) (p n : KeyedAccount)
        → check_meta sdk program_id pre post m t ≡ ok t'
        → contains t.seen m.pubkey ≡ false
        → find_account m.pubkey pre ≡ some p
        → find_account m.pubkey post ≡ some n
        → Respects m p n
    unfolding check_meta
    check_meta-Respects m t t' p n h unseen hp hn =
        check_fresh-Respects m t t' p n (ground arith) hp hn

    check_meta-ne-panic :
        (m : AccountMeta) (t : Tally) → check_meta sdk program_id pre post m t ≢ panic
    unfolding check_meta check_fresh check_account
    check_meta-ne-panic m t = ground arith

    check_metas-ne-panic :
        (ms : List AccountMeta) (t : Tally) → check_metas sdk program_id pre post ms t ≢ panic
    unfolding check_metas
    check_metas-ne-panic [] t = ground arith
    check_metas-ne-panic (m ∷ ms) t =
        grind (arith, check_meta-ne-panic m t, check_metas-ne-panic ms)

    check_metas-Respects :
        (ms : List AccountMeta) (t t' : Tally) (k : Pubkey) (m : AccountMeta) (p n : KeyedAccount)
        → check_metas sdk program_id pre post ms t ≡ ok t'
        → contains t.seen k ≡ false
        → find_meta k ms ≡ some m
        → find_account k pre ≡ some p
        → find_account k post ≡ some n
        → Respects m p n
    unfolding check_metas
    check_metas-Respects [] t t' k m p n h unseen hm hp hn = cc
    check_metas-Respects (m' ∷ ms) t t' k m p n h unseen hm hp hn =
        let (t'', first, rest) =
          >>=-eq-ok (check_meta sdk program_id pre post m' t)
            (check_metas sdk program_id pre post ms) h in
        elim (Bool-cases (m'.pubkey == k)) [
          | inl same ↦
              let key : m'.pubkey ≡ k = ground arith in
              let e : m' ≡ m = ground arith in
              rw (← e)
                (check_meta-Respects m' t t'' p n first (ground arith) (rw key hp) (rw key hn))
          | inr other ↦
              check_metas-Respects ms t'' t' k m p n rest
                (check_meta-unseen m' t t'' k first unseen (ground arith)) (ground arith) hp hn
        ]

  -- Under the strict policy a validated instruction respected the rules at every key that its metas
  -- list, with the flags of the first meta of that key, where the key has an account on both sides.
  pub validate-Respects :
      (metas : List AccountMeta) (pre post : List KeyedAccount) (k : Pubkey) (m : AccountMeta)
      (p n : KeyedAccount)
      → validate_post_state sdk program_id metas pre post strict ≡ ok tt
      → find_meta k metas ≡ some m
      → find_account k pre ≡ some p
      → find_account k post ≡ some n
      → Respects m p n
  unfolding validate_post_state
  validate-Respects metas pre post k m p n h hm hp hn =
      let (t, loop, _) =
        >>=-eq-ok (check_metas sdk program_id pre post metas (start sdk))
          (check_conservation sdk pre post) h in
      check_metas-Respects pre post metas (start sdk) t k m p n loop refl hm hp hn

  pub validate-ne-panic :
      (metas : List AccountMeta) (pre post : List KeyedAccount) (policy : ValidationPolicy)
      → validate_post_state sdk program_id metas pre post policy ≢ panic
  unfolding validate_post_state check_conservation
  validate-ne-panic metas pre post lax = ground arith
  validate-ne-panic metas pre post strict =
      grind (arith, check_metas-ne-panic pre post metas (start sdk))
