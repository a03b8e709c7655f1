-- ===== src/Common/Runs.antt =====
-- How a loop on fuel that moves through an array or a mapping ends.

-- Without fuel, at an access outside the array or the mapping, or with a result.
pub data Run {ℓ} (A : Type ℓ) : Type ℓ where
  out_of_fuel : Run A
  out_of_bounds : Run A
  returned : A → Run A
