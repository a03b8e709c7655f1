-- ===== src/Common/Logic.antt =====
-- A test of every value below a bound, decided by evaluation.
use Prim.Native.Nat.{ℕ, zero, suc, ◌<◌}
use mathlib.Core.Path.{◌≡◌}
use mathlib.Core.Bool.{Bool, true, false}
use native.Mathlib.Omega.{arith}

unfoldable pub every_below : (ℕ → Bool) → ℕ → Bool
every_below test zero = true
every_below test (suc k) = elim (test k) [ false ↦ false | true ↦ every_below test k ]

pub every_below_lem :
    (test : ℕ → Bool) (bound x : ℕ) → x < bound → every_below test bound ≡ true → test x ≡ true
unfolding every_below
every_below_lem test zero x below all = elim below [ ]
every_below_lem test (suc k) x below all = ground (arith, every_below_lem test k x)
