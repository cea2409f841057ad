-- ===== src/Tests/Ballots.antt =====
-- The theorems about the vote and the config program at concrete inputs.
use hopper_svm.Prelude.{
  ℕ, ◌≤◌, ◌≡◌, ◌≢◌, refl, List, [], ◌∷◌, ◌++◌, arith, length, take, replicate, String,
}
use hopper_svm.Bytes.{le_encode}
use hopper_svm.Bytes.Layout.{writes}
use hopper_svm.Error.{ok}
use hopper_svm.Account.{KeyedAccount}
use hopper_svm.Sysvar.{minimum_balance}
use hopper_svm.Builtin.{require_signer, require_writable}
use hopper_svm.Config.{config_handle, check_keys}
use hopper_svm.Config.Stores.{AllSigned, config_handle-stores}
use hopper_svm.Vote.{vote_handle, vote_dispatch}
use hopper_svm.Vote.Header.{header_fields, read_version, read_key, require_initialized}
use hopper_svm.Vote.Handlers.{withdraw, emptied}
use hopper_svm.Vote.Control.{Allowed, vote_handle-Allowed}
use hopper_svm.Tests.Fixtures.{sdk, account, bob, context}

-- The validator of Alice, with a commission of 5.
abbrev header : List ℕ
header = writes (header_fields 1 1 5 1) (replicate 112 0)

abbrev validator : ℕ → KeyedAccount
validator lamports = account 3 lamports header 33

abbrev said : String
said = "vote::Withdraw: {vote_addr} -> {recipient_addr} ({lamports} lamports)"

withdrawn :
    vote_handle sdk (le_encode 4 3 ++ le_encode 8 400) (validator 2_000_000 ∷ bob ∷ []) (context 33)
    ≡ ok (validator 1_999_600 ∷ account 2 400 [] 0 ∷ [], said)
unfolding vote_handle vote_dispatch withdraw emptied read_version read_key require_initialized
    writes require_writable require_signer minimum_balance
withdrawn = refl

is_set : read_version header ≢ 0
unfolding read_version writes
is_set = λ e. absurd (ground arith)

funded : minimum_balance sdk (context 33).sysvars.rent (length header) ≤ 2_000_000
unfolding minimum_balance writes
funded = omega arith

vote_handle-Allowed_example :
    Allowed sdk (context 33) (validator 2_000_000) (validator 1_999_600 ∷ account 2 400 [] 0 ∷ [])
vote_handle-Allowed_example =
    vote_handle-Allowed sdk (le_encode 4 3 ++ le_encode 8 400) (context 33) (validator 2_000_000)
      (bob ∷ []) (validator 1_999_600 ∷ account 2 400 [] 0 ∷ []) said is_set funded withdrawn

-- A `Store` with Alice as its signer and two bytes of data.
abbrev store : List ℕ
store = le_encode 8 1 ++ (le_encode 32 1 ++ (1 ∷ 9 ∷ 8 ∷ []))

abbrev setting : List ℕ → KeyedAccount
setting bytes = account 3 1_000 bytes 31

abbrev stored : String
stored = "config::Store: {target_addr} ({} keys, {} bytes data)"

handled :
    config_handle store (setting (1 ∷ 2 ∷ 3 ∷ []) ∷ []) (context 31)
    ≡ ok (setting (9 ∷ 8 ∷ 0 ∷ []) ∷ [], stored)
unfolding config_handle check_keys require_writable require_signer
handled = refl

config_handle-stores_example :
    (require_writable (context 31) 3 ≡ ok tt)
    × AllSigned (context 31) store 1 8
    × ((setting (9 ∷ 8 ∷ 0 ∷ [])).lamports ≡ 1_000)
    × ((setting (9 ∷ 8 ∷ 0 ∷ [])).owner ≡ 31)
    × (length {A = ℕ} (9 ∷ 8 ∷ 0 ∷ []) ≡ 3)
    × (take {A = ℕ} 2 (9 ∷ 8 ∷ 0 ∷ []) ≡ 9 ∷ 8 ∷ [])
    × (◌≡◌ {A = List KeyedAccount} [] [])
config_handle-stores_example =
    config_handle-stores (context 31) store (setting (1 ∷ 2 ∷ 3 ∷ [])) (setting (9 ∷ 8 ∷ 0 ∷ [])) []
      [] stored handled
