-- ===== src/Account.antt =====
-- src/account.rs: `KeyedAccount`. `AccountMeta`, `Instruction` and `Account` are records of the
-- Solana SDK, with the fields that the source reads.
use hopper_svm.Prelude.{
  ℕ, ◌+◌, ◌≡◌, refl, Bool, Option, none, some, List, [], ◌∷◌, ◌==◌, if◌then◌else◌, arith,
}
use hopper_svm.Error.{Pubkey}

pub record KeyedAccount : Type 0 where
  pub address : Pubkey
  pub lamports : ℕ
  pub bytes : List ℕ
  pub owner : Pubkey
  pub executable : Bool
  pub rent_epoch : ℕ

pub record AccountMeta : Type 0 where
  pub pubkey : Pubkey
  pub is_signer : Bool
  pub is_writable : Bool

pub record Instruction : Type 0 where
  pub program_id : Pubkey
  pub accounts : List AccountMeta
  pub bytes : List ℕ

-- `solana_sdk::account::Account`
pub record SolanaAccount : Type 0 where
  pub lamports : ℕ
  pub bytes : List ℕ
  pub owner : Pubkey
  pub executable : Bool
  pub rent_epoch : ℕ

pub into_solana_account : KeyedAccount → Pubkey × SolanaAccount
into_solana_account a = (
  a.address,
  record {
    lamports = a.lamports;
    bytes = a.bytes;
    owner = a.owner;
    executable = a.executable;
    rent_epoch = a.rent_epoch;
  },
)

pub from_solana_account : Pubkey → SolanaAccount → KeyedAccount
from_solana_account addr acct = record {
  address = addr;
  lamports = acct.lamports;
  bytes = acct.bytes;
  owner = acct.owner;
  executable = acct.executable;
  rent_epoch = acct.rent_epoch;
}

-- `KeyedAccount::new`
abbrev pub new_account : Pubkey → ℕ → Pubkey → List ℕ → Bool → KeyedAccount
new_account address lamports owner bytes executable = record {
  address = address;
  lamports = lamports;
  bytes = bytes;
  owner = owner;
  executable = executable;
  rent_epoch = 0;
}

-- `accounts.iter().find(|a| a.address == addr)`
abbrev pub find_account : Pubkey → List KeyedAccount → Option KeyedAccount
find_account addr [] = none
find_account addr (a ∷ rest) = if a.address == addr then some a else find_account addr rest

pub find_account-address :
    (addr : Pubkey) (accounts : List KeyedAccount) (a : KeyedAccount)
    → find_account addr accounts ≡ some a
    → a.address ≡ addr
find_account-address addr [] a h = ground arith
find_account-address addr (b ∷ rest) a h = ground (arith, find_account-address addr rest a)

abbrev pub total_lamports : List KeyedAccount → ℕ
total_lamports [] = 0
total_lamports (a ∷ rest) = a.lamports + total_lamports rest

abbrev pub addresses : List KeyedAccount → List Pubkey
addresses [] = []
addresses (a ∷ rest) = a.address ∷ addresses rest

-- Lifting the pair that `into_solana_account` makes gives the account back.
pub from_solana_account-into_solana_account :
    (a : KeyedAccount) → from_solana_account (into_solana_account a).0 (into_solana_account a).1 ≡ a
unfolding from_solana_account into_solana_account
from_solana_account-into_solana_account a = refl
