-- ===== src/Vote/Handlers.antt =====
-- src/spl/vote_program.rs: the administrative instructions.
use hopper_svm.Prelude.{ℕ, ◌-◌, not, List, ◌∷◌, ◌==◌, leb, length, is_empty, if◌then◌else◌}
use hopper_svm.Bytes.Layout.{word, writes}
use hopper_svm.Error.{Pubkey, Result, ok, err, builtin_error, ◌>>=◌, ◌>>◌, require, in_range}
use hopper_svm.Account.{KeyedAccount}
use hopper_svm.Sdk.{Sdk}
use hopper_svm.Sysvar.{minimum_balance}
use hopper_svm.Builtin.{InvokeContext, require_signer, require_writable}
use hopper_svm.System.Slots.{Handled, one_slot, two_slots, require_account}
use hopper_svm.System.Create.{debit}
use hopper_svm.System.Transfers.{credit}
use hopper_svm.Vote.Header.{
  vote_account_header_size, authorized_voter_offset, read_version, read_key, require_initialized,
  wipe_header, header_fields, put,
}

unfoldable pub initialize_account : Sdk → List ℕ → List KeyedAccount → InvokeContext → Handled
unfolding one_slot
initialize_account sdk body accounts ctx = do
  (a, rest) ← one_slot accounts
  require_writable ctx a.address
  require (leb vote_account_header_size (length a.bytes)) (
      builtin_error ctx.program_id
        "vote::InitializeAccount: vote account is {} bytes, need ≥ {VOTE_ACCOUNT_HEADER_SIZE}")
  require (read_version a.bytes == 0)
      (builtin_error ctx.program_id "vote::InitializeAccount: account already initialized")
  require (leb 97 (length body)) (
      builtin_error ctx.program_id "vote::InitializeAccount: body has {} bytes, need 97 (VoteInit)")
  let node = word 0 32 body
  require_signer ctx node
  require (leb (minimum_balance sdk ctx.sysvars.rent (length a.bytes)) a.lamports) (
      builtin_error ctx.program_id
        "vote::InitializeAccount: lamports {} < rent-exempt minimum {rent_exempt}")
  ok (
    record a {
      bytes =
          writes (header_fields node (word 64 32 body) (word 96 1 body) (word 32 32 body))
            (wipe_header a.bytes);
    }
        ∷ rest,
    "vote::InitializeAccount: {vote_addr} (node={node}, voter={voter}, withdrawer={withdrawer}, commission={commission})",
  )

-- The `match role`: the authority at an offset signs and is replaced.
unfoldable pub rotate : InvokeContext → List ℕ → ℕ → Pubkey → Result (List ℕ)
rotate ctx bytes offset new = do
  current ← read_key bytes offset
  require_signer ctx current
  put bytes offset 32 new

unfoldable pub rotated : InvokeContext → List ℕ → ℕ → Pubkey → Result (List ℕ)
rotated ctx bytes role new =
    if role == 0
    then rotate ctx bytes authorized_voter_offset new
    else if role == 1
    then rotate ctx bytes 36 new
    else err (
        builtin_error ctx.program_id
          "vote::Authorize: role {other} unrecognised (0=Voter, 1=Withdrawer)")

unfoldable pub authorize : List ℕ → List KeyedAccount → InvokeContext → Handled
unfolding one_slot
authorize body accounts ctx = do
  (a, rest) ← one_slot accounts
  require_writable ctx a.address
  require_initialized a.bytes ctx
  require (leb 36 (length body))
      (builtin_error ctx.program_id "vote::Authorize: body has {} bytes, need 36")
  bytes ← rotated ctx a.bytes (word 32 4 body) (word 0 32 body)
  ok (record a { bytes = bytes } ∷ rest, "vote::Authorize: {vote_addr} role={role} -> {new_auth}")

-- The header is wiped where nothing is left.
unfoldable pub emptied : KeyedAccount → Result KeyedAccount
emptied a =
    if a.lamports == 0
    then in_range (leb vote_account_header_size (length a.bytes))
      >> ok (record a { bytes = wipe_header a.bytes })
    else ok a

unfoldable pub withdraw : Sdk → List ℕ → List KeyedAccount → InvokeContext → Handled
unfolding two_slots
withdraw sdk body accounts ctx = do
  require_account accounts 0
  (a, b, rest) ← two_slots accounts
  require_initialized a.bytes ctx
  require (leb 8 (length body))
      (builtin_error ctx.program_id "vote::Withdraw: body has {} bytes, need 8")
  let lamports = word 0 8 body
  require_writable ctx a.address
  require_writable ctx b.address
  withdrawer ← read_key a.bytes 36
  require_signer ctx withdrawer
  let floor = minimum_balance sdk ctx.sysvars.rent (length a.bytes)
  require (leb lamports (a.lamports - floor)) (
      builtin_error ctx.program_id
        "vote::Withdraw: requested {lamports} > available {available} (lamports={}, rent_exempt={rent_exempt})")
  a' ← emptied (debit a lamports)
  ok (
    a' ∷ credit b lamports ∷ rest,
    "vote::Withdraw: {vote_addr} -> {recipient_addr} ({lamports} lamports)",
  )

unfoldable pub update_validator_identity : List ℕ → List KeyedAccount → InvokeContext → Handled
unfolding two_slots
update_validator_identity body accounts ctx = do
  require_account accounts 0
  (a, b, rest) ← two_slots accounts
  require_writable ctx a.address
  require_initialized a.bytes ctx
  require_signer ctx b.address
  withdrawer ← read_key a.bytes 36
  require_signer ctx withdrawer
  bytes ← put a.bytes 4 32 b.address
  ok (
    record a { bytes = bytes } ∷ b ∷ rest,
    "vote::UpdateValidatorIdentity: {vote_addr} -> {new_node}",
  )

unfoldable pub update_commission : List ℕ → List KeyedAccount → InvokeContext → Handled
unfolding one_slot
update_commission body accounts ctx = do
  (a, rest) ← one_slot accounts
  require_writable ctx a.address
  require_initialized a.bytes ctx
  require (not (is_empty body))
      (builtin_error ctx.program_id "vote::UpdateCommission: body empty (need u8 commission)")
  require (leb (word 0 1 body) 100)
      (builtin_error ctx.program_id "vote::UpdateCommission: commission {new_commission} > 100")
  withdrawer ← read_key a.bytes 36
  require_signer ctx withdrawer
  bytes ← put a.bytes 68 1 (word 0 1 body)
  ok (record a { bytes = bytes } ∷ rest, "vote::UpdateCommission: {vote_addr} -> {new_commission}%")
