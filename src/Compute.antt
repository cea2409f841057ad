-- ===== src/Compute.antt =====
-- src/compute.rs: the compute meter.
pub mod Poison
use hopper_svm.Prelude.{ℕ, ◌≡◌, refl, leb, sat_add, if◌then◌else◌}
use hopper_svm.Error.{Result, ok, err, out_of_compute_units}

abbrev pub default_compute_limit : ℕ
default_compute_limit = 200_000

abbrev pub default_builtin_cost : ℕ
default_builtin_cost = 150

pub record ComputeBudget : Type 0 where
  pub consumed : ℕ
  pub limit : ℕ
  pub default_cost : ℕ

unfoldable pub new : ℕ → ℕ → ComputeBudget
new limit cost = record { consumed = 0; limit = limit; default_cost = cost }

unfoldable pub reset : ComputeBudget → ComputeBudget
reset b = record b { consumed = 0 }

unfoldable pub set_limit : ComputeBudget → ℕ → ComputeBudget
set_limit b limit = record b { limit = limit }

-- The meter keeps the charge when it is exceeded, so it comes back beside the result.
unfoldable pub consume : ComputeBudget → ℕ → Result (Unit {0}) × ComputeBudget
consume b units =
    let total = sat_add b.consumed units in
    (
      if leb total b.limit then ok tt else err (out_of_compute_units total b.limit),
      record b { consumed = total },
    )

unfoldable pub default_budget : ComputeBudget
unfolding new
default_budget = new default_compute_limit default_builtin_cost
