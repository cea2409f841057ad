-- ===== src/System/Overflow.antt =====
-- src/system_program.rs: where the instructions with a seed panic, by the overflow of a length check
-- or by the size of an allocation.
use mathlib.Core.Bool.{and_assoc}
use hopper_svm.Prelude.{
  ℕ, refl, Option, Option-cases, inl, inr, not, ◌||◌, none, some, is_empty, isize_max, ◌==◌, ◌+◌,
  ◌≡◌, Bool, true, false, ◌&&◌, List, [], ◌∷◌, arith, u64_max, leb, ltb, length,
}
use hopper_svm.Bytes.{le_decode, slice}
use hopper_svm.Error.{
  Pubkey, HopperSvmError, Result, ◌>>◌, ◌>>=◌, require, no_overflow, in_range, is_ok, ok, err,
  panic,
}
use hopper_svm.Account.{KeyedAccount}
use hopper_svm.Sdk.{Sdk}
use hopper_svm.Builtin.{InvokeContext, require_signer, require_writable}
use hopper_svm.System.Slots.{two_slots}
use hopper_svm.System.Seeds.{
  derived, require_base, create_account_with_seed, assign_with_seed, transfer_with_seed,
}

abbrev pub is_panic {ℓ} : {A : Type ℓ} → Result A → Bool
is_panic (ok _) = false
is_panic (err _) = false
is_panic panic = true

-- Where a chain panics, check by check.
is_panic-require {ℓ} :
    {A : Type ℓ} (b : Bool) (why : HopperSvmError) (next : Result A)
    → is_panic (require b why >> next) ≡ (b && is_panic next)
is_panic-require true why next = refl
is_panic-require false why next = refl

is_panic-no_overflow {ℓ} :
    {A : Type ℓ} (b : Bool) (next : Result A)
    → is_panic (no_overflow b >> next) ≡ (not b || is_panic next)
is_panic-no_overflow true next = refl
is_panic-no_overflow false next = refl

is_panic-in_range {ℓ} : {A : Type ℓ} (b : Bool) (x : A) → is_panic (in_range b >> ok x) ≡ not b
is_panic-in_range true x = refl
is_panic-in_range false x = refl

is_panic-check {ℓ} :
    {A : Type ℓ} (check : Result (Unit {0})) (next : Result A)
    → is_panic check ≡ false
    → is_panic (check >> next) ≡ (is_ok check && is_panic next)
is_panic-check (ok tt) next h = refl
is_panic-check (err e) next h = refl
is_panic-check panic next h = cc

is_panic-derived {ℓ} :
    {A : Type ℓ} (o : Option Pubkey) (why : HopperSvmError) (next : Pubkey → Result A)
    → is_panic (derived o why >>= next) ≡ elim o [ none ↦ false | some key ↦ is_panic (next key) ]
unfolding derived
is_panic-derived none why next = refl
is_panic-derived (some key) why next = refl

not-leb : (a b : ℕ) → not (leb a b) ≡ ltb b a
not-leb a b = ground arith

require_signer-is_panic :
    (ctx : InvokeContext) (addr : Pubkey) → is_panic (require_signer ctx addr) ≡ false
unfolding require_signer
require_signer-is_panic ctx addr = ground arith

require_writable-is_panic :
    (ctx : InvokeContext) (addr : Pubkey) → is_panic (require_writable ctx addr) ≡ false
unfolding require_writable
require_writable-is_panic ctx addr = ground arith

require_base-is_panic :
    (ctx : InvokeContext) (base funder : Pubkey) → is_panic (require_base ctx base funder) ≡ false
unfolding require_base require_signer
require_base-is_panic ctx base funder = ground arith

ruleset panics = (
  is_panic-require, is_panic-no_overflow, is_panic-in_range, is_panic-check, is_panic-derived,
  require_signer-is_panic, require_writable-is_panic, require_base-is_panic, not-leb, and_assoc,
)

-- The places of the data of `CreateAccountWithSeed` behind its seed, and the space it asks for.
abbrev pub seed_end : List ℕ → ℕ
seed_end body = 40 + le_decode (slice 32 8 body)

abbrev pub space_of : List ℕ → ℕ
space_of body = le_decode (slice (seed_end body + 8) 8 body)

-- Whether a funder may create a target at a derived key: the target is at the key and vacant, the
-- funder has signed and can pay, both are writable, and the base has signed or is the funder.
abbrev pub may_create : List ℕ → InvokeContext → KeyedAccount → KeyedAccount → Pubkey → Bool
may_create body ctx funder target key =
    key == target.address
    && (is_ok (require_signer ctx funder.address)
        && (is_ok (require_writable ctx funder.address)
            && (is_ok (require_writable ctx target.address)
                && (is_ok (require_base ctx (le_decode (slice 0 32 body)) funder.address)
                    && (leb (le_decode (slice (seed_end body) 8 body)) funder.lamports
                        && (target.lamports == 0 && is_empty target.bytes))))))

-- The key that the data stand for.
abbrev pub key_of : Sdk → List ℕ → Option Pubkey
key_of sdk body =
    sdk.create_with_seed (le_decode (slice 0 32 body)) (slice 40 (le_decode (slice 32 8 body)) body)
      (le_decode (slice (seed_end body + 16) 32 body))

-- Whether `CreateAccountWithSeed` has no error to report behind the check of its seed length.
abbrev pub reaches_allocation : Sdk → List ℕ → InvokeContext → List KeyedAccount → Bool
reaches_allocation sdk body ctx (funder ∷ target ∷ rest) =
    leb (seed_end body + 48) (length body)
    && (sdk.is_utf8 (slice 40 (le_decode (slice 32 8 body)) body) && elim (key_of sdk body) [
      | none ↦ false
      | some key ↦ may_create body ctx funder target key
    ])
reaches_allocation sdk body ctx accounts = false

module _ (sdk : Sdk) (body : List ℕ) (ctx : InvokeContext) where
  create_account_with_seed-panic :
      (accounts : List KeyedAccount)
      → is_panic (create_account_with_seed sdk body accounts ctx) ≡ (
          leb 40 (length body)
          && (ltb u64_max (seed_end body + 48)
              || (reaches_allocation sdk body ctx accounts && ltb isize_max (space_of body))))
  unfolding create_account_with_seed two_slots
  create_account_with_seed-panic [] = ground arith
  create_account_with_seed-panic (a ∷ []) = ground arith
  create_account_with_seed-panic (a ∷ b ∷ rest) = elim (Option-cases (key_of sdk body)) [
    | inl none_at_all ↦ simp (panics, none_at_all)
    | inr (key, at) ↦ simp (panics, at)
  ]

  assign_with_seed-panic :
      (accounts : List KeyedAccount)
      → is_panic (assign_with_seed sdk body accounts ctx)
        ≡ (leb 40 (length body) && ltb u64_max (40 + le_decode (slice 32 8 body) + 32))
  unfolding assign_with_seed
  assign_with_seed-panic [] = ground arith
  assign_with_seed-panic (a ∷ []) = ground arith
  assign_with_seed-panic (a ∷ b ∷ rest) = ground arith

  transfer_with_seed-panic :
      (accounts : List KeyedAccount)
      → is_panic (transfer_with_seed sdk body accounts ctx)
        ≡ (leb 16 (length body) && ltb u64_max (16 + le_decode (slice 8 8 body) + 32))
  unfolding transfer_with_seed
  transfer_with_seed-panic [] = ground arith
  transfer_with_seed-panic (a ∷ []) = ground arith
  transfer_with_seed-panic (a ∷ b ∷ []) = ground arith
  transfer_with_seed-panic (a ∷ b ∷ c ∷ rest) = ground arith

module _ (sdk : Sdk) (body : List ℕ) (accounts : List KeyedAccount) (ctx : InvokeContext) where
  -- In a debug build the instructions with a seed panic exactly on a body that holds their fixed
  -- head and whose seed length overflows a `u64` together with the fixed parts, instead of
  -- reporting a short body; and `CreateAccountWithSeed` also where it has no error left to report,
  -- the key, the signatures, the funds and the target being as they must, and asks for more space
  -- than `isize::MAX`.
  pub seeds-panic :
      (is_panic (create_account_with_seed sdk body accounts ctx) ≡ (
        leb 40 (length body)
        && (ltb u64_max (seed_end body + 48)
            || (reaches_allocation sdk body ctx accounts && ltb isize_max (space_of body)))))
      × (is_panic (assign_with_seed sdk body accounts ctx)
          ≡ (leb 40 (length body) && ltb u64_max (40 + le_decode (slice 32 8 body) + 32)))
      × (is_panic (transfer_with_seed sdk body accounts ctx)
          ≡ (leb 16 (length body) && ltb u64_max (16 + le_decode (slice 8 8 body) + 32)))
  seeds-panic = (
    create_account_with_seed-panic sdk body ctx accounts,
    assign_with_seed-panic sdk body ctx accounts,
    transfer_with_seed-panic sdk body ctx accounts,
  )
