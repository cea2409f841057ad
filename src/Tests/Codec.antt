-- ===== src/Tests/Codec.antt =====
-- A codec of the token records that writes each field to a cell of its own.
use hopper_svm.Prelude.{
  ℕ, zero, suc, ◌≡◌, refl, Bool, true, false, Option, none, some, List, [], ◌∷◌, arith,
  if◌then◌else◌, ◌==◌,
}
use hopper_svm.Token.State.{
  SplToken, PackLaws, TokenAccount, Mint, AccountState, uninitialized, initialized, frozen,
  account_fits, mint_fits,
}

abbrev tag_of : Option ℕ → ℕ
tag_of none = 0
tag_of (some n) = 1

abbrev cell_of : Option ℕ → ℕ
cell_of none = 0
cell_of (some n) = n

abbrev option_of : ℕ → ℕ → Option ℕ
option_of zero n = none
option_of (suc t) n = some n

abbrev code_of : AccountState → ℕ
code_of uninitialized = 0
code_of initialized = 1
code_of frozen = 2

abbrev state_of : ℕ → AccountState
state_of zero = uninitialized
state_of (suc zero) = initialized
state_of (suc (suc n)) = frozen

abbrev pub pack_account : TokenAccount → List ℕ → List ℕ
pack_account t buf =
    t.mint
    ∷ t.owner
    ∷ t.amount
    ∷ tag_of t.delegate
    ∷ cell_of t.delegate
    ∷ code_of t.state
    ∷ tag_of t.is_native
    ∷ cell_of t.is_native
    ∷ t.delegated_amount
    ∷ tag_of t.close_authority
    ∷ cell_of t.close_authority
    ∷ []

abbrev checked_account : TokenAccount → Option TokenAccount
checked_account t = if account_fits t then some t else none

abbrev unpack_account : List ℕ → Option TokenAccount
unpack_account (m ∷ o ∷ a ∷ dt ∷ d ∷ s ∷ nt ∷ n ∷ da ∷ ct ∷ c ∷ []) = checked_account (record {
  mint = m;
  owner = o;
  amount = a;
  delegate = option_of dt d;
  state = state_of s;
  is_native = option_of nt n;
  delegated_amount = da;
  close_authority = option_of ct c;
})
unpack_account buf = none

abbrev flag : Bool → ℕ
flag true = 1
flag false = 0

abbrev pub pack_mint : Mint → List ℕ → List ℕ
pack_mint m buf =
    tag_of m.mint_authority
    ∷ cell_of m.mint_authority
    ∷ m.supply
    ∷ m.decimals
    ∷ flag m.is_initialized
    ∷ tag_of m.freeze_authority
    ∷ cell_of m.freeze_authority
    ∷ []

abbrev checked_mint : Mint → Option Mint
checked_mint m = if mint_fits m then some m else none

abbrev unpack_mint : List ℕ → Option Mint
unpack_mint (at ∷ a ∷ s ∷ d ∷ i ∷ ft ∷ f ∷ []) = checked_mint (record {
  mint_authority = option_of at a;
  supply = s;
  decimals = d;
  is_initialized = i == 1;
  freeze_authority = option_of ft f;
})
unpack_mint buf = none

abbrev pub spl : SplToken
spl = record {
  mint_len = 7;
  unpack_mint = unpack_mint;
  pack_mint = pack_mint;
  account_len = 11;
  unpack_account = unpack_account;
  pack_account = pack_account;
}

checked_account-fits : (t u : TokenAccount) → checked_account t ≡ some u → account_fits u ≡ true
checked_account-fits t u h = ground arith

checked_mint-fits : (m u : Mint) → checked_mint m ≡ some u → mint_fits u ≡ true
checked_mint-fits m u h = ground arith

option_of-cell : (o : Option ℕ) → option_of (tag_of o) (cell_of o) ≡ o
option_of-cell none = refl
option_of-cell (some n) = refl

state_of-code : (s : AccountState) → state_of (code_of s) ≡ s
state_of-code uninitialized = refl
state_of-code initialized = refl
state_of-code frozen = refl

flag-eq : (b : Bool) → (flag b == 1) ≡ b
flag-eq true = refl
flag-eq false = refl

unpack_account-fits :
    (buf : List ℕ) (t : TokenAccount) → unpack_account buf ≡ some t → account_fits t ≡ true
unpack_account-fits buf t h = ground arith

unpack_mint-fits : (buf : List ℕ) (m : Mint) → unpack_mint buf ≡ some m → mint_fits m ≡ true
unpack_mint-fits buf m h = ground arith

unpack_account-pack_account :
    (t : TokenAccount) (buf : List ℕ)
    → account_fits t ≡ true
    → unpack_account (pack_account t buf) ≡ some t
unpack_account-pack_account t buf fits =
    rw
      (
        option_of-cell t.delegate,
        option_of-cell t.is_native,
        option_of-cell t.close_authority,
        state_of-code t.state,
        fits,
      )
      refl

unpack_mint-pack_mint :
    (m : Mint) (buf : List ℕ) → mint_fits m ≡ true → unpack_mint (pack_mint m buf) ≡ some m
unpack_mint-pack_mint m buf fits =
    rw
      (
        option_of-cell m.mint_authority,
        option_of-cell m.freeze_authority,
        flag-eq m.is_initialized,
        fits,
      )
      refl

pub laws : PackLaws spl
laws = record {
  unpack_account_fits = unpack_account-fits;
  unpack_mint_fits = unpack_mint-fits;
  unpack_pack_account = λ t buf fits size. unpack_account-pack_account t buf fits;
  unpack_pack_mint = λ m buf fits size. unpack_mint-pack_mint m buf fits;
}
