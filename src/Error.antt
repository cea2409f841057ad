-- ===== src/Error.antt =====
-- src/error.rs: the failures of the harness, and the result of code that may fail.
use hopper_svm.Prelude.{ℕ, String, Bool, true, false, ◌≡◌, refl, ◌⊎◌, inl, inr, if◌then◌else◌}

-- The number whose 32 little-endian bytes are the bytes of the key.
abbrev pub Pubkey : Type 0
Pubkey = ℕ

-- A message is the text that `format!` is given, before its arguments are put in.
pub data HopperSvmError : Type 0 where
  unknown_program : Pubkey → HopperSvmError
  builtin_error : Pubkey → String → HopperSvmError
  -- consumed, limit
  out_of_compute_units : ℕ → ℕ → HopperSvmError
  empty_chain : HopperSvmError
  -- index, len
  account_index_out_of_bounds : ℕ → ℕ → HopperSvmError
  unknown_account : Pubkey → HopperSvmError
  -- account, balance, requested
  insufficient_funds : Pubkey → ℕ → ℕ → HopperSvmError
  account_not_writable : Pubkey → HopperSvmError
  account_not_signer : Pubkey → HopperSvmError
  custom : ℕ → HopperSvmError
  account_validation_failed : Pubkey → String → HopperSvmError

-- `Result<A, HopperSvmError>`, with a panic (an arithmetic overflow, a division by zero, a range or
-- an allocation out of bounds) as a third way to end.
pub data Result {ℓ} (A : Type ℓ) : Type ℓ where
  ok : A → Result A
  err : HopperSvmError → Result A
  panic : Result A

-- The `?` of the source: an error or a panic ends the chain.
abbrev pub ◌>>=◌ {κ ℓ} : {B : Type κ} {A : Type ℓ} → Result A → (A → Result B) → Result B
panic >>= next = panic
err why >>= next = err why
ok value >>= next = next value

abbrev pub ◌>>◌ {κ} : {B : Type κ} → Result (Unit {0}) → Result B → Result B
check >> next = check >>= λ _. next

infixl 5 ◌>>=◌ ◌>>◌
-- `if !b { return Err(e); }`
abbrev pub require : Bool → HopperSvmError → Result (Unit {0})
require false why = err why
require true why = ok tt

-- An arithmetic check of a debug build.
abbrev pub no_overflow : Bool → Result (Unit {0})
no_overflow true = ok tt
no_overflow false = panic

-- An index or a range of a slice.
abbrev pub in_range : Bool → Result (Unit {0})
in_range true = ok tt
in_range false = panic

-- Inversion of a chain that succeeds.
pub >>=-eq-ok {κ ℓ} :
    {B : Type κ} {A : Type ℓ} {y : B} (first : Result A) (next : A → Result B)
    → (first >>= next) ≡ ok y
    → (x : A) × (first ≡ ok x) × (next x ≡ ok y)
>>=-eq-ok panic next done = cc
>>=-eq-ok (err why) next done = cc
>>=-eq-ok (ok x) next done = (x, refl, done)

-- The same behind a check.
pub require-eq-ok {ℓ} :
    {B : Type ℓ} {y : B} (b : Bool) (why : HopperSvmError) (next : Result B)
    → (require b why >> next) ≡ ok y
    → (b ≡ true) × (next ≡ ok y)
require-eq-ok true why next done = (refl, done)
require-eq-ok false why next done = cc

pub then-eq-ok {ℓ} :
    {B : Type ℓ} {y : B} (first : Result (Unit {0})) (next : Result B)
    → (first >> next) ≡ ok y
    → (first ≡ ok tt) × (next ≡ ok y)
then-eq-ok (ok _) next done = (refl, done)
then-eq-ok (err why) next done = cc
then-eq-ok panic next done = cc

-- The same behind an if.
pub if-eq-ok {ℓ κ} :
    {P : Type ℓ} {B : Type κ} {y : B} (b : Bool) (f g : Result B)
    → (f ≡ ok y → P)
    → (g ≡ ok y → P)
    → (if b then f else g) ≡ ok y
    → P
if-eq-ok true f g left right h = left h
if-eq-ok false f g left right h = right h

abbrev pub is_ok {ℓ} : {A : Type ℓ} → Result A → Bool
is_ok (ok a) = true
is_ok (err e) = false
is_ok panic = false

pub Result-cases {ℓ} : {A : Type ℓ} (m : Result A) → ((a : A) × (m ≡ ok a)) ⊎ (is_ok m ≡ false)
Result-cases (ok a) = inl (a, refl)
Result-cases (err e) = inr refl
Result-cases panic = inr refl
