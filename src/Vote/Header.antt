-- ===== src/Vote/Header.antt =====
-- src/spl/vote_program.rs: the header of a vote account.
use hopper_svm.Prelude.{
  ℕ, ◌+◌, not, List, [], ◌∷◌, ◌++◌, ◌==◌, ltb, leb, length, drop, replicate, if◌then◌else◌,
}
use hopper_svm.Bytes.Layout.{Field, word, writes}
use hopper_svm.Error.{Pubkey, Result, ok, builtin_error, ◌>>◌, require, in_range}
use hopper_svm.Builtin.{InvokeContext}

abbrev pub vote_state_version_v3 : ℕ
vote_state_version_v3 = 3

abbrev pub vote_account_header_size : ℕ
vote_account_header_size = 112

abbrev pub authorized_voter_offset : ℕ
authorized_voter_offset = 80

unfoldable pub read_version : List ℕ → ℕ
read_version bytes = if ltb (length bytes) 4 then 0 else word 0 4 bytes

-- `read_pubkey` of an account's data, which panics if the data ends before.
unfoldable pub read_key : List ℕ → ℕ → Result Pubkey
read_key bytes offset = in_range (leb (offset + 32) (length bytes)) >> ok (word offset 32 bytes)

unfoldable pub require_initialized : List ℕ → InvokeContext → Result (Unit {0})
require_initialized bytes ctx =
    require (not (read_version bytes == 0))
      (builtin_error ctx.program_id "vote: account not initialized")

-- `for b in data[..VOTE_ACCOUNT_HEADER_SIZE].iter_mut() { *b = 0; }`
abbrev pub wipe_header : List ℕ → List ℕ
wipe_header bytes = replicate vote_account_header_size 0 ++ drop vote_account_header_size bytes

abbrev pub header_fields : Pubkey → Pubkey → ℕ → Pubkey → List Field
header_fields node withdrawer commission voter =
    (0, 4, vote_state_version_v3)
    ∷ (4, 32, node)
    ∷ (36, 32, withdrawer)
    ∷ (68, 1, commission)
    ∷ (authorized_voter_offset, 32, voter)
    ∷ []

-- One write into the data, which panics if the data ends before.
unfoldable pub put : List ℕ → ℕ → ℕ → ℕ → Result (List ℕ)
put bytes offset width value =
    in_range (leb (offset + width) (length bytes))
    >> ok (writes ((offset, width, value) ∷ []) bytes)
