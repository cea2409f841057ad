-- ===== src/Config/Stores.antt =====
-- src/spl/config_program.rs: what a `Store` that succeeds has checked and stored.
use hopper_svm.Prelude.{
  ℕ, zero, suc, ◌+◌, ◌-◌, ◌*◌, ◌≡◌, refl, ◌⊎◌, inl, inr, Bool-cases, leb, leb-true, ◌==◌, ==-true,
  String, List, ◌∷◌, ◌++◌, arith, length, take, drop, replicate, length-append, length-replicate,
  u64_max,
}
use hopper_svm.Bytes.{take-append_length}
use hopper_svm.Bytes.Layout.{word}
use hopper_svm.Error.{ok, require-eq-ok, then-eq-ok, no_overflow, ◌>>◌}
use hopper_svm.Account.{KeyedAccount}
use hopper_svm.Builtin.{InvokeContext, require_signer, require_writable}
use hopper_svm.Config.{check_keys, config_handle}

-- Of the `n` keys from `off` on, each that is flagged has signed.
abbrev pub AllSigned : InvokeContext → List ℕ → ℕ → ℕ → Type 0
AllSigned ctx bytes zero off = Unit
AllSigned ctx bytes (suc n) off =
    ((word (off + 32) 1 bytes ≡ 0) ⊎ (require_signer ctx (word off 32 bytes) ≡ ok tt))
    × AllSigned ctx bytes n (off + 33)

check_keys-AllSigned :
    (ctx : InvokeContext) (bytes : List ℕ) (n off : ℕ)
    → check_keys ctx bytes n off ≡ ok tt
    → AllSigned ctx bytes n off
unfolding check_keys
check_keys-AllSigned ctx bytes zero off h = tt
check_keys-AllSigned ctx bytes (suc n) off h = elim (Bool-cases (word (off + 32) 1 bytes == 0)) [
  | inl plain ↦
      (inl (==-true _ _ plain), check_keys-AllSigned ctx bytes n (off + 33) (ground (arith, plain)))
  | inr flagged ↦
      let both : (require_signer ctx (word off 32 bytes) >> check_keys ctx bytes n (off + 33))
          ≡ ok tt =
        rw flagged at h in
      let (signed, rest) = then-eq-ok (require_signer ctx (word off 32 bytes)) _ both in
      (inr signed, check_keys-AllSigned ctx bytes n (off + 33) rest)
]

-- A `Store` that succeeds: the account was writable, every key that the data flags as a signer has
-- signed, the account keeps its lamports, its owner and the size of its data, and its data starts with
-- what stands behind the keys.
pub config_handle-stores :
    (ctx : InvokeContext) (bytes : List ℕ) (a a' : KeyedAccount) (rest after : List KeyedAccount)
    (message : String)
    → config_handle bytes (a ∷ rest) ctx ≡ ok (a' ∷ after, message)
    → let user = drop (8 + word 0 8 bytes * 33) bytes in
      (require_writable ctx a.address ≡ ok tt)
      × AllSigned ctx bytes (word 0 8 bytes) 8
      × (a'.lamports ≡ a.lamports)
      × (a'.owner ≡ a.owner)
      × (length a'.bytes ≡ length a.bytes)
      × (take (length user) a'.bytes ≡ user)
      × (after ≡ rest)
unfolding config_handle
config_handle-stores ctx bytes a a' rest after message h =
    let n = word 0 8 bytes in
    let user = drop (8 + n * 33) bytes in
    let (writable, h1) = then-eq-ok (require_writable ctx a.address) _ h in
    let (_, h2) = require-eq-ok (leb 8 (length bytes)) _ _ h1 in
    let (_, h3) = then-eq-ok (no_overflow (leb (8 + n * 33) u64_max)) _ h2 in
    let (_, h4) = require-eq-ok (leb (8 + n * 33) (length bytes)) _ _ h3 in
    let (checked, h5) = then-eq-ok (check_keys ctx bytes n 8) _ h4 in
    let (room, h6) = require-eq-ok (leb (length user) (length a.bytes)) _ _ h5 in
    let pad : List ℕ = replicate (length a.bytes - length user) 0 in
    let e : record a { bytes = user ++ pad } ≡ a' = cc in
    let e' : rest ≡ after = cc in
    let fits = leb-true (length user) (length a.bytes) room in
    let size = length-append user pad in
    let padded = length-replicate {A = ℕ} (length a.bytes - length user) 0 in
    rw (← e, ← e')
      (
        writable,
        check_keys-AllSigned ctx bytes n 8 checked,
        refl,
        refl,
        omega (arith, size, padded, fits),
        take-append_length user pad,
        refl,
      )
