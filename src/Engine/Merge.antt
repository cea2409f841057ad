-- ===== src/Engine/Merge.antt =====
-- src/engine.rs: what `merge_accounts` and `resolve_accounts` do to each address.
use hopper_svm.Prelude.{◌≡◌, refl, Option, none, some, List, [], ◌∷◌, ◌==◌, if◌then◌else◌, arith}
use hopper_svm.Error.{Pubkey, ok}
use hopper_svm.Account.{KeyedAccount, AccountMeta, find_account, addresses, find_account-address}
use hopper_svm.Engine.{merge_one, merge_accounts, resolve_accounts}

-- The last slot of the working set that has the address.
abbrev pub find_last : Pubkey → List KeyedAccount → Option KeyedAccount
find_last addr [] = none
find_last addr (w ∷ ws) = elim (find_last addr ws) [
  | some a ↦ some a
  | none ↦ if w.address == addr then some w else none
]

abbrev pub or_else : Option KeyedAccount → Option KeyedAccount → Option KeyedAccount
or_else (some a) o = some a
or_else none o = o

abbrev pub keys : List AccountMeta → List Pubkey
keys [] = []
keys (m ∷ ms) = m.pubkey ∷ keys ms

pub find_account-merge_one :
    (addr : Pubkey) (w : KeyedAccount) (out : List KeyedAccount)
    → find_account addr (merge_one out w)
      ≡ (if w.address == addr then some w else find_account addr out)
unfolding merge_one
find_account-merge_one addr w [] = ground arith
find_account-merge_one addr w (a ∷ out) = ground (arith, find_account-merge_one addr w out)

-- After a merge an address holds the last working slot of that address, and the original account
-- where the working set has none.
pub find_account-merge_accounts :
    (addr : Pubkey) (working original : List KeyedAccount)
    → find_account addr (merge_accounts original working)
      ≡ or_else (find_last addr working) (find_account addr original)
unfolding merge_accounts
find_account-merge_accounts addr [] original = refl
find_account-merge_accounts addr (w ∷ working) original = ground (
  arith,
  find_account-merge_accounts addr working (merge_one original w),
  find_account-merge_one addr w original,
)

-- Accounts that resolve stand in the order of the metas, with their addresses.
pub resolve_accounts-addresses :
    (ms : List AccountMeta) (accounts out : List KeyedAccount)
    → resolve_accounts ms accounts ≡ ok out
    → addresses out ≡ keys ms
unfolding resolve_accounts
resolve_accounts-addresses [] accounts out h = ground arith
resolve_accounts-addresses (m ∷ ms) accounts out h =
    grind (arith, find_account-address m.pubkey accounts, resolve_accounts-addresses ms accounts)
