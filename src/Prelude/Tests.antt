-- ===== src/Prelude/Tests.antt =====
-- Boolean tests on the native numbers, the conditional, and the arithmetic of machine words.
use Prim.Native.Nat.{ℕ, ◌+◌, ◌*◌, ◌^◌, ◌-◌, ◌≤◌, min, compare, Ordering}
use mathlib.Core.Path.{◌≡◌, refl}
use mathlib.Core.Logic.{◌↔◌, ◌⊎◌, inl, inr}
use mathlib.Core.Bool.{Bool, true, false}
use mathlib.Core.Option.{Option, none, some}
use native.Mathlib.Omega.{arith}

abbrev pub ltb : ℕ → ℕ → Bool
ltb a b = elim (compare a b) [ Ordering.lt ↦ true | _ ↦ false ]

abbrev pub leb : ℕ → ℕ → Bool
leb a b = elim (compare a b) [ Ordering.gt ↦ false | _ ↦ true ]

infix 50 ◌==◌
abbrev pub ◌==◌ : ℕ → ℕ → Bool
a == b = elim (compare a b) [ Ordering.eq ↦ true | _ ↦ false ]

infix 1 if◌then◌else◌
abbrev pub if◌then◌else◌ {ℓ} : {A : Type ℓ} → Bool → A → A → A
if true then x else y = x
if false then x else y = y

pub ==_iff : (a b : ℕ) → ((a == b) ≡ true) ↔ (a ≡ b)
==_iff a b = ground arith

pub ==-true : (a b : ℕ) → (a == b) ≡ true → a ≡ b
==-true a b h = ground arith

pub leb-true : (a b : ℕ) → leb a b ≡ true → a ≤ b
leb-true a b h = ground arith

pub Bool-cases : (b : Bool) → (b ≡ true) ⊎ (b ≡ false)
Bool-cases true = inl refl
Bool-cases false = inr refl

pub Option-cases {ℓ} : {A : Type ℓ} (o : Option A) → (o ≡ none) ⊎ ((a : A) × (o ≡ some a))
Option-cases none = inl refl
Option-cases (some a) = inr (a, refl)

-- `u64::MAX` and the saturating operations of `u64`.
abbrev pub u64_max : ℕ
u64_max = 2 ^ 64 - 1

-- `isize::MAX`, the largest capacity of a `Vec<u8>`
abbrev pub isize_max : ℕ
isize_max = 2 ^ 63 - 1

abbrev pub sat_add : ℕ → ℕ → ℕ
sat_add a b = min (a + b) u64_max

abbrev pub sat_mul : ℕ → ℕ → ℕ
sat_mul a b = min (a * b) u64_max

-- `checked_add` of `u64`.
abbrev pub checked_add : ℕ → ℕ → Option ℕ
checked_add a b = if leb (a + b) u64_max then some (a + b) else none
