-- ===== src/System/Nonce.antt =====
-- src/system_program.rs: nonce accounts, their 80-byte state and the instructions on them.
use hopper_svm.Prelude.{
  ℕ, Bool, true, not, ◌||◌, List, [], ◌∷◌, ◌++◌, ◌==◌, leb, length, if◌then◌else◌,
}
use hopper_svm.Bytes.{le_decode, le_encode, slice, splice}
use hopper_svm.Error.{
  Pubkey, Result, ok, err, builtin_error, insufficient_funds, ◌>>=◌, ◌>>◌, require,
}
use hopper_svm.Account.{KeyedAccount}
use hopper_svm.Sdk.{Sdk}
use hopper_svm.Builtin.{InvokeContext, require_signer, require_writable}
use hopper_svm.System.Slots.{Handled, one_slot, two_slots, three_slots, five_slots}
use hopper_svm.System.Create.{debit}
use hopper_svm.System.Transfers.{credit}

abbrev pub nonce_state_bytes : ℕ
nonce_state_bytes = 80

abbrev pub nonce_default_fee : ℕ
nonce_default_fee = 5_000

pub record NonceState : Type 0 where
  pub initialized : Bool
  pub authority : Pubkey
  pub durable_nonce : List ℕ
  pub lamports_per_signature : ℕ

unfoldable pub read_nonce_state : List ℕ → Pubkey → Result NonceState
read_nonce_state bytes program_id =
    if leb nonce_state_bytes (length bytes)
    then ok (record {
      initialized = le_decode (slice 4 4 bytes) == 1;
      authority = le_decode (slice 8 32 bytes);
      durable_nonce = slice 40 32 bytes;
      lamports_per_signature = le_decode (slice 72 8 bytes);
    })
    else err (builtin_error program_id "nonce state: data {} bytes < required 80")

abbrev pub state_tag : Bool → ℕ
state_tag b = if b then 1 else 0

-- Five writes, at 0, 4, 8, 40 and 72.
unfoldable pub write_nonce_state : List ℕ → Bool → Pubkey → List ℕ → ℕ → List ℕ
write_nonce_state bytes initialized authority durable_nonce fee =
    if leb nonce_state_bytes (length bytes)
    then splice 72 (le_encode 8 fee) (
        splice 40 durable_nonce (
          splice 8 (le_encode 32 authority)
            (splice 4 (le_encode 4 (state_tag initialized)) (splice 0 (le_encode 4 1) bytes))))
    else bytes

-- `b"hopper-nonce"`
abbrev pub nonce_prefix : List ℕ
nonce_prefix =
    b'h' ∷ b'o' ∷ b'p' ∷ b'p' ∷ b'e' ∷ b'r' ∷ b'-' ∷ b'n' ∷ b'o' ∷ b'n' ∷ b'c' ∷ b'e' ∷ []

unfoldable pub synthesise_nonce_from_slot : Sdk → ℕ → List ℕ
synthesise_nonce_from_slot sdk slot = sdk.sha256 (nonce_prefix ++ le_encode 8 slot)

unfoldable pub initialize_nonce_account : Sdk → List ℕ → List KeyedAccount → InvokeContext → Handled
unfolding one_slot require_writable
initialize_nonce_account sdk body accounts ctx = do
  require (leb 32 (length body))
      (builtin_error ctx.program_id "system::InitializeNonceAccount: body too short")
  let authority = le_decode (slice 0 32 body)
  (nonce, rest) ← one_slot accounts
  require_writable ctx nonce.address
  require (leb nonce_state_bytes (length nonce.bytes)) (
      builtin_error ctx.program_id
        "system::InitializeNonceAccount: account data {} bytes < required 80")
  state ← read_nonce_state nonce.bytes ctx.program_id
  require (not state.initialized) (
      builtin_error ctx.program_id
        "system::InitializeNonceAccount: {nonce_addr} already initialised")
  let value = synthesise_nonce_from_slot sdk ctx.sysvars.clock.slot
  ok (
    record nonce {
      bytes = write_nonce_state nonce.bytes true authority value nonce_default_fee;
      owner = sdk.system_id;
    }
        ∷ rest,
    "system::InitializeNonceAccount: {nonce_addr} authority={authority}",
  )

unfoldable pub advance_nonce_account : Sdk → List ℕ → List KeyedAccount → InvokeContext → Handled
unfolding three_slots require_signer require_writable
advance_nonce_account sdk body accounts ctx = do
  (nonce, recent, auth, rest) ← three_slots accounts
  require_writable ctx nonce.address
  require_signer ctx auth.address
  state ← read_nonce_state nonce.bytes ctx.program_id
  require state.initialized
      (builtin_error ctx.program_id "system::AdvanceNonceAccount: {nonce_addr} not initialised")
  require (state.authority == auth.address) (
      builtin_error ctx.program_id
        "system::AdvanceNonceAccount: signer {auth_addr} != stored authority {stored_authority}")
  let value = synthesise_nonce_from_slot sdk ctx.sysvars.clock.slot
  ok (
    record nonce {
      bytes = write_nonce_state nonce.bytes true state.authority value state.lamports_per_signature;
    }
        ∷ recent
        ∷ auth
        ∷ rest,
    "system::AdvanceNonceAccount: {nonce_addr} (slot {})",
  )

unfoldable pub withdraw_nonce_account : List ℕ → List KeyedAccount → InvokeContext → Handled
unfolding five_slots require_signer require_writable
withdraw_nonce_account body accounts ctx = do
  require (leb 8 (length body))
      (builtin_error ctx.program_id "system::WithdrawNonceAccount: body too short")
  let lamports = le_decode (slice 0 8 body)
  (nonce, dst, recent, rent, auth, rest) ← five_slots accounts
  require_writable ctx nonce.address
  require_writable ctx dst.address
  require_signer ctx auth.address
  state ← read_nonce_state nonce.bytes ctx.program_id
  require (not state.initialized || state.authority == auth.address) (
      builtin_error ctx.program_id
        "system::WithdrawNonceAccount: signer {auth_addr} != stored authority {stored_authority}")
  require (leb lamports nonce.lamports) (insufficient_funds nonce.address nonce.lamports lamports)
  ok (
    debit nonce lamports ∷ credit dst lamports ∷ recent ∷ rent ∷ auth ∷ rest,
    "system::WithdrawNonceAccount: {nonce_addr} -> {dst_addr} ({lamports} lamports)",
  )

unfoldable pub authorize_nonce_account : List ℕ → List KeyedAccount → InvokeContext → Handled
unfolding two_slots require_signer require_writable
authorize_nonce_account body accounts ctx = do
  require (leb 32 (length body))
      (builtin_error ctx.program_id "system::AuthorizeNonceAccount: body too short")
  let new_authority = le_decode (slice 0 32 body)
  (nonce, auth, rest) ← two_slots accounts
  require_writable ctx nonce.address
  require_signer ctx auth.address
  state ← read_nonce_state nonce.bytes ctx.program_id
  require state.initialized
      (builtin_error ctx.program_id "system::AuthorizeNonceAccount: {nonce_addr} not initialised")
  require (state.authority == auth.address) (
      builtin_error ctx.program_id
        "system::AuthorizeNonceAccount: signer {auth_addr} != stored authority {stored_authority}")
  ok (
    record nonce {
      bytes =
          write_nonce_state nonce.bytes true new_authority state.durable_nonce
            state.lamports_per_signature;
    }
        ∷ auth
        ∷ rest,
    "system::AuthorizeNonceAccount: {nonce_addr} -> authority {new_authority}",
  )

unfoldable pub upgrade_nonce_account : List ℕ → List KeyedAccount → InvokeContext → Handled
unfolding one_slot require_writable
upgrade_nonce_account body accounts ctx = do
  (nonce, rest) ← one_slot accounts
  require_writable ctx nonce.address
  ok (
    record nonce {
      bytes =
          if leb 4 (length nonce.bytes) then splice 0 (le_encode 4 1) nonce.bytes else nonce.bytes;
    }
        ∷ rest,
    "system::UpgradeNonceAccount: {nonce_addr} (already current; no-op)",
  )
