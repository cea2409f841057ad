-- ===== src/Compute/Poison.antt =====
-- src/compute.rs: a meter that was exceeded stays exceeded until it is reset.
use hopper_svm.Prelude.{
  ℕ, ◌+◌, ◌≤◌, ◌≡◌, ◌≢◌, refl, List, [], ◌∷◌, arith, u64_max, min, leb, if◌then◌else◌,
}
use hopper_svm.Error.{ok, err, out_of_compute_units}
use hopper_svm.Compute.{ComputeBudget, consume}

-- A run of charges, whatever each returns.
pub consume_all : ComputeBudget → List ℕ → ComputeBudget
consume_all b [] = b
consume_all b (u ∷ us) = consume_all (consume b u).1 us

abbrev sum : List ℕ → ℕ
sum [] = 0
sum (u ∷ us) = u + sum us

-- Whatever the charges and their results, the meter shows the sum of the charges, capped at
-- `u64::MAX`, and its limit is the old one.
pub consume_all-sum :
    (b : ComputeBudget) (us : List ℕ)
    → b.consumed ≤ u64_max
    → ((consume_all b us).consumed ≡ min (b.consumed + sum us) u64_max)
      × ((consume_all b us).limit ≡ b.limit)
unfolding consume_all consume
consume_all-sum b [] h = (omega arith, refl)
consume_all-sum b (u ∷ us) h = grind (arith, consume_all-sum (consume b u).1 us)

-- A charge on top of any run of charges, whatever those returned, succeeds exactly when the sum of
-- all of them, capped at `u64::MAX`, is within the limit, and reports that sum where it fails.
pub consume-eq :
    (b : ComputeBudget) (us : List ℕ) (u : ℕ)
    → b.consumed ≤ u64_max
    → (consume (consume_all b us) u).0 ≡ (
        let spent = min (b.consumed + sum us + u) u64_max in
        if leb spent b.limit then ok tt else err (out_of_compute_units spent b.limit))
unfolding consume
consume-eq b us u h = ground (arith, consume_all-sum b us)

-- On a meter of `u64` fields, once a charge has failed every later charge fails, whatever is
-- charged in between.
pub consume-poisoned :
    (b : ComputeBudget) (u v : ℕ) (us : List ℕ)
    → b.consumed ≤ u64_max
    → b.limit ≤ u64_max
    → (consume b u).0 ≢ ok tt
    → (consume (consume_all (consume b u).1 us) v).0 ≢ ok tt
unfolding consume
consume-poisoned b u v us h l failed = grind (arith, consume_all-sum (consume b u).1 us)
