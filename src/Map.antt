-- ===== src/Map.antt =====
-- `HashMap<Pubkey, V>` as an association list: at most the first entry of a key counts.
use hopper_svm.Prelude.{ℕ, ◌≡◌, refl, Option, none, some, List, [], ◌∷◌, ◌==◌, if◌then◌else◌, arith}

abbrev pub Map {ℓ} : Type ℓ → Type ℓ
Map V = List (ℕ × V)

module _ {ℓ} {V : Type ℓ} where
  unfoldable pub lookup : ℕ → Map V → Option V
  lookup key [] = none
  lookup key ((at, value) ∷ rest) = if at == key then some value else lookup key rest

  unfoldable pub insert : ℕ → V → Map V → Map V
  insert key new [] = (key, new) ∷ []
  insert key new ((at, old) ∷ rest) =
      if at == key then (key, new) ∷ rest else (at, old) ∷ insert key new rest

  unfoldable pub remove : ℕ → Map V → Map V
  remove key [] = []
  remove key ((at, old) ∷ entries) =
      let rest = remove key entries in if at == key then rest else (at, old) ∷ rest

  pub lookup-insert :
      (key other : ℕ) (new : V) (store : Map V)
      → lookup other (insert key new store)
        ≡ (if key == other then some new else lookup other store)
  unfolding lookup insert
  lookup-insert key other new [] = refl
  lookup-insert key other new ((at, old) ∷ rest) = ground (arith, lookup-insert key other new rest)

  pub lookup-remove :
      (key other : ℕ) (store : Map V)
      → lookup other (remove key store) ≡ (if key == other then none else lookup other store)
  unfolding lookup remove
  lookup-remove key other [] = ground arith
  lookup-remove key other ((at, old) ∷ rest) = ground (arith, lookup-remove key other rest)
