-- ===== src/MotionControl.antt =====
-- bench/501.motioncontrol/src: the measurement of main.c and of test_ctrl in open_ctrl.cpp, with getticks
-- of bench/common/common.c. Control has the drives; what the time stamp counter returns is an argument.
-- A long has 32 bits.
pub mod Extremes
pub mod Control
mod Tests
use rtbench.Common.{ℕ, zero, suc, ◌+◌, ◌-◌, ◌*◌, ◌%◌, ◌^◌, bit_or, ltb, if◌then◌else◌}

-- EAX and EDX after each RDTSC, by the number of those before it.
pub record Counter : Type 0 where
  pub eax : ℕ → ℕ
  pub edx : ℕ → ℕ

-- `minmax`, and how often the counter was read.
pub record Measured : Type 0 where
  pub minmax0 : ℕ
  pub minmax1 : ℕ
  pub reads : ℕ

abbrev pub getticks : Counter → ℕ → ℕ
getticks o n = bit_or (o.eax n) (o.edx n * 2 ^ 32)

-- What open_ctrl.cpp, which declares the result a `long int`, has of it, as an unsigned long long.
abbrev pub ticks_long : Counter → ℕ → ℕ
ticks_long o n =
    let low = getticks o n % 2 ^ 32 in if ltb low (2 ^ 31) then low else low + (2 ^ 64 - 2 ^ 32)

abbrev pub n_drives : ℕ
n_drives = 16

-- The counter is read before and after `ctrl`, which reads it for every drive.
abbrev pub delta_tsc : Counter → ℕ → ℕ
delta_tsc o n = (ticks_long o (n + 1 + n_drives) + 2 ^ 64 - ticks_long o n) % 2 ^ 32

unfoldable pub test_ctrl : Counter → Measured → Measured
test_ctrl o m =
    let d = delta_tsc o m.reads in
    record {
      minmax0 = if ltb d m.minmax0 then d else m.minmax0;
      minmax1 = if ltb m.minmax1 d then d else m.minmax1;
      reads = m.reads + 1 + n_drives + 1;
    }

-- `n` rounds of a loop over `test_ctrl2`.
unfoldable pub test_rounds : Counter → ℕ → Measured → Measured
test_rounds o zero m = m
test_rounds o (suc n) m = test_rounds o n (test_ctrl o m)

-- The state behind `main_501`, whose `minmax1` is what it returns.
unfoldable pub main_501 : Counter → Measured → Measured
main_501 o m = test_rounds o 5 (record (test_rounds o 3 m) { minmax0 = 1000000; minmax1 = 0 })
