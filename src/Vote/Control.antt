-- ===== src/Vote/Control.antt =====
-- src/spl/vote_program.rs: who may do what to an initialised vote account.
use hopper_svm.Prelude.{
  ℕ, ◌-◌, ◌≤◌, ◌≡◌, ◌≢◌, refl, ◌⊎◌, inl, inr, String, List, [], ◌∷◌, ◌==◌, leb, ==-true, leb-true,
  not, is_empty, arith, length, drop,
}
use hopper_svm.Bytes.Layout.{word}
use hopper_svm.Error.{Pubkey, ok, require-eq-ok, then-eq-ok, >>=-eq-ok, if-eq-ok}
use hopper_svm.Account.{KeyedAccount}
use hopper_svm.Sdk.{Sdk}
use hopper_svm.Sysvar.{minimum_balance}
use hopper_svm.Builtin.{InvokeContext, require_signer, require_writable}
use hopper_svm.System.Create.{debit}
use hopper_svm.System.Transfers.{credit}
use hopper_svm.Vote.Header.{read_version, read_key, require_initialized, put}
use hopper_svm.Vote.Handlers.{
  initialize_account, authorize, withdraw, update_validator_identity, update_commission, rotate,
  rotated, emptied,
}
use hopper_svm.Vote.{vote_dispatch, vote_handle}

-- The withdrawer has signed, and no lamports below the rent-exempt minimum were taken, or the voter
-- has signed and the lamports are as they were.
abbrev pub Allowed : Sdk → InvokeContext → KeyedAccount → List KeyedAccount → Type 0
Allowed sdk ctx a [] = ⊥
Allowed sdk ctx a (a' ∷ rest) =
    ((require_signer ctx (word 36 32 a.bytes) ≡ ok tt)
      ⊎ (require_signer ctx (word 80 32 a.bytes) ≡ ok tt))
    × ((a'.lamports ≡ a.lamports)
        ⊎ ((require_signer ctx (word 36 32 a.bytes) ≡ ok tt)
            × (minimum_balance sdk ctx.sysvars.rent (length a.bytes) ≤ a'.lamports)))

module _ (sdk : Sdk) (ctx : InvokeContext) (a : KeyedAccount) (set : read_version a.bytes ≢ 0)
    (body : List ℕ) where
  initialize-Allowed :
      (rest after : List KeyedAccount) (message : String)
      → initialize_account sdk body (a ∷ rest) ctx ≡ ok (after, message)
      → Allowed sdk ctx a after
  unfolding initialize_account
  initialize-Allowed rest after message h =
      let (_, h1) = then-eq-ok (require_writable ctx a.address) _ h in
      let (_, h2) = require-eq-ok (leb 112 (length a.bytes)) _ _ h1 in
      let (blank, _) = require-eq-ok (read_version a.bytes == 0) _ _ h2 in
      absurd (set (==-true (read_version a.bytes) 0 blank))

  read_key-eq :
      (bytes : List ℕ) (offset : ℕ) (k : Pubkey)
      → read_key bytes offset ≡ ok k
      → k ≡ word offset 32 bytes
  unfolding read_key
  read_key-eq bytes offset k h = ground arith

  rotate-signed :
      (offset : ℕ) (new : Pubkey) (bytes : List ℕ)
      → rotate ctx a.bytes offset new ≡ ok bytes
      → require_signer ctx (word offset 32 a.bytes) ≡ ok tt
  unfolding rotate
  rotate-signed offset new bytes h =
      let (k, named, h1) = >>=-eq-ok (read_key a.bytes offset) _ h in
      let (signed, _) = then-eq-ok (require_signer ctx k) _ h1 in
      rw (← read_key-eq a.bytes offset k named) signed

  rotated-signed :
      (role : ℕ) (new : Pubkey) (bytes : List ℕ)
      → rotated ctx a.bytes role new ≡ ok bytes
      → (require_signer ctx (word 36 32 a.bytes) ≡ ok tt)
        ⊎ (require_signer ctx (word 80 32 a.bytes) ≡ ok tt)
  unfolding rotated
  rotated-signed role new bytes h =
      if-eq-ok (role == 0) _ _ (λ e. inr (rotate-signed 80 new bytes e))
        (λ h1. if-eq-ok (role == 1) _ _ (λ e. inl (rotate-signed 36 new bytes e)) (λ e. cc) h1) h

  authorize-Allowed :
      (rest after : List KeyedAccount) (message : String)
      → authorize body (a ∷ rest) ctx ≡ ok (after, message)
      → Allowed sdk ctx a after
  unfolding authorize
  authorize-Allowed rest after message h =
      let (_, h1) = then-eq-ok (require_writable ctx a.address) _ h in
      let (_, h2) = then-eq-ok (require_initialized a.bytes ctx) _ h1 in
      let (_, h3) = require-eq-ok (leb 36 (length body)) _ _ h2 in
      let (bytes, turned, h4) =
        >>=-eq-ok (rotated ctx a.bytes (word 32 4 body) (word 0 32 body)) _ h3 in
      let e : record a { bytes = bytes } ∷ rest ≡ after = cc in
      rw (← e) (rotated-signed (word 32 4 body) (word 0 32 body) bytes turned, inl refl)

  emptied-lamports : (b b' : KeyedAccount) → emptied b ≡ ok b' → b'.lamports ≡ b.lamports
  unfolding emptied
  emptied-lamports b b' h = ground arith

  withdraw-Allowed :
      (b : KeyedAccount) (rest after : List KeyedAccount) (message : String)
      → minimum_balance sdk ctx.sysvars.rent (length a.bytes) ≤ a.lamports
      → withdraw sdk body (a ∷ b ∷ rest) ctx ≡ ok (after, message)
      → Allowed sdk ctx a after
  unfolding withdraw
  withdraw-Allowed b rest after message kept h =
      let n = word 0 8 body in
      let floor = minimum_balance sdk ctx.sysvars.rent (length a.bytes) in
      let (_, h0) = require-eq-ok (leb 1 (length (a ∷ b ∷ rest))) _ _ h in
      let (_, h1) = then-eq-ok (require_initialized a.bytes ctx) _ h0 in
      let (_, h2) = require-eq-ok (leb 8 (length body)) _ _ h1 in
      let (_, h3) = then-eq-ok (require_writable ctx a.address) _ h2 in
      let (_, h4) = then-eq-ok (require_writable ctx b.address) _ h3 in
      let (k, named, h5) = >>=-eq-ok (read_key a.bytes 36) _ h4 in
      let (signed, h6) = then-eq-ok (require_signer ctx k) _ h5 in
      let (enough, h7) = require-eq-ok (leb n (a.lamports - floor)) _ _ h6 in
      let (a', made, h8) = >>=-eq-ok (emptied (debit a n)) _ h7 in
      let e : a' ∷ credit b n ∷ rest ≡ after = cc in
      let owner : require_signer ctx (word 36 32 a.bytes) ≡ ok tt =
        rw (← read_key-eq a.bytes 36 k named) signed in
      let left = leb-true n (a.lamports - floor) enough in
      rw (← e)
        (inl owner, inr (owner, omega (arith, emptied-lamports (debit a n) a' made, left, kept)))

  update_validator_identity-Allowed :
      (b : KeyedAccount) (rest after : List KeyedAccount) (message : String)
      → update_validator_identity body (a ∷ b ∷ rest) ctx ≡ ok (after, message)
      → Allowed sdk ctx a after
  unfolding update_validator_identity
  update_validator_identity-Allowed b rest after message h =
      let (_, h0) = require-eq-ok (leb 1 (length (a ∷ b ∷ rest))) _ _ h in
      let (_, h1) = then-eq-ok (require_writable ctx a.address) _ h0 in
      let (_, h2) = then-eq-ok (require_initialized a.bytes ctx) _ h1 in
      let (_, h3) = then-eq-ok (require_signer ctx b.address) _ h2 in
      let (k, named, h4) = >>=-eq-ok (read_key a.bytes 36) _ h3 in
      let (signed, h5) = then-eq-ok (require_signer ctx k) _ h4 in
      let (bytes, put, h6) = >>=-eq-ok (put a.bytes 4 32 b.address) _ h5 in
      let e : record a { bytes = bytes } ∷ b ∷ rest ≡ after = cc in
      rw (← e) (inl (rw (← read_key-eq a.bytes 36 k named) signed), inl refl)

  update_commission-Allowed :
      (rest after : List KeyedAccount) (message : String)
      → update_commission body (a ∷ rest) ctx ≡ ok (after, message)
      → Allowed sdk ctx a after
  unfolding update_commission
  update_commission-Allowed rest after message h =
      let (_, h1) = then-eq-ok (require_writable ctx a.address) _ h in
      let (_, h2) = then-eq-ok (require_initialized a.bytes ctx) _ h1 in
      let (_, h3) = require-eq-ok (not (is_empty body)) _ _ h2 in
      let (_, h4) = require-eq-ok (leb (word 0 1 body) 100) _ _ h3 in
      let (k, named, h5) = >>=-eq-ok (read_key a.bytes 36) _ h4 in
      let (signed, h6) = then-eq-ok (require_signer ctx k) _ h5 in
      let (bytes, put, h7) = >>=-eq-ok (put a.bytes 68 1 (word 0 1 body)) _ h6 in
      let e : record a { bytes = bytes } ∷ rest ≡ after = cc in
      rw (← e) (inl (rw (← read_key-eq a.bytes 36 k named) signed), inl refl)

  withdraw-short :
      (rest after : List KeyedAccount) (message : String)
      → minimum_balance sdk ctx.sysvars.rent (length a.bytes) ≤ a.lamports
      → withdraw sdk body (a ∷ rest) ctx ≡ ok (after, message)
      → Allowed sdk ctx a after
  unfolding withdraw
  withdraw-short [] after message kept h = absurd (ground arith)
  withdraw-short (b ∷ rest) after message kept h = withdraw-Allowed b rest after message kept h

  update_validator_identity-short :
      (rest after : List KeyedAccount) (message : String)
      → update_validator_identity body (a ∷ rest) ctx ≡ ok (after, message)
      → Allowed sdk ctx a after
  unfolding update_validator_identity
  update_validator_identity-short [] after message h = absurd (ground arith)
  update_validator_identity-short (b ∷ rest) after message h =
      update_validator_identity-Allowed b rest after message h

-- A success of the vote program on an initialised account that holds the rent-exempt minimum: its
-- withdrawer or its voter has signed, and either its lamports are as they were, or the withdrawer has
-- signed and they are still no less than the minimum.
pub vote_handle-Allowed :
    (sdk : Sdk) (bytes : List ℕ) (ctx : InvokeContext) (a : KeyedAccount)
    (rest after : List KeyedAccount) (message : String)
    → read_version a.bytes ≢ 0
    → minimum_balance sdk ctx.sysvars.rent (length a.bytes) ≤ a.lamports
    → vote_handle sdk bytes (a ∷ rest) ctx ≡ ok (after, message)
    → Allowed sdk ctx a after
unfolding vote_handle vote_dispatch
vote_handle-Allowed sdk bytes ctx a rest after message set kept h =
    let body = drop 4 bytes in
    let tag = word 0 4 bytes in
    let (_, ran) = require-eq-ok (leb 4 (length bytes)) _ _ h in
    if-eq-ok (tag == 0) _ _ (λ e. initialize-Allowed sdk ctx a set body rest after message e)
      (λ h1.
        if-eq-ok (tag == 1) _ _ (λ e. authorize-Allowed sdk ctx a set body rest after message e)
          (λ h2.
            if-eq-ok (tag == 3) _ _
              (λ e. withdraw-short sdk ctx a set body rest after message kept e)
              (λ h3.
                if-eq-ok (tag == 4) _ _
                  (λ e. update_validator_identity-short sdk ctx a set body rest after message e)
                  (λ h4.
                    if-eq-ok (tag == 5) _ _
                      (λ e. update_commission-Allowed sdk ctx a set body rest after message e)
                      (λ e. cc) h4)
                  h3)
              h2)
          h1)
      ran
