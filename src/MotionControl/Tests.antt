-- ===== src/MotionControl/Tests.antt =====
-- 501.motioncontrol with a counter that advances by 100 between two readings.
use rtbench.Common.{ℕ, ◌*◌, ◌%◌, ◌^◌, ◌≤◌, ◌<◌, ◌≡◌, ◌⊎◌, refl, arith}
use rtbench.MotionControl.{Counter, Measured, main_501, test_ctrl, test_rounds}
use rtbench.MotionControl.Extremes.{AreWords, low_ticks, main_501-AreExtremes}

abbrev steady : Counter
steady = record { eax = λ n. n * 100 % 2 ^ 32; edx = λ n. 0 }

abbrev at_start : Measured
at_start = record { minmax0 = 0; minmax1 = 0; reads = 0 }

steady-AreWords : AreWords steady
steady-AreWords n = (omega arith, omega arith)

main_501_runs : (main_501 steady at_start).minmax1 ≡ 1700
unfolding main_501 test_rounds test_ctrl
main_501_runs = refl

main_501-AreExtremes_example :
    ((k : ℕ)
      → k < 5
      → (low_ticks steady 54 k ≤ (main_501 steady at_start).minmax1)
        × ((main_501 steady at_start).minmax0 ≤ low_ticks steady 54 k))
    × (((main_501 steady at_start).minmax1 ≡ 0)
        ⊎ ((k : ℕ) × (k < 5) × ((main_501 steady at_start).minmax1 ≡ low_ticks steady 54 k)))
main_501-AreExtremes_example = main_501-AreExtremes steady at_start steady-AreWords
