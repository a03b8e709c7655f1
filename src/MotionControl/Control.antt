-- ===== src/MotionControl/Control.antt =====
-- bench/501.motioncontrol/src/open_ctrl.cpp: the drives and their control. The arithmetic of floats is an
-- argument, as is the time stamp counter; the counter is read in the order of the calls.
pub mod Change
pub mod Steady
mod Tests
use rtbench.Common.{
  ℕ, zero, suc, ◌+◌, ◌-◌, ◌*◌, ◌/◌, ◌%◌, ◌^◌, ltb, Bool, true, false, if◌then◌else◌, List, [], ◌∷◌,
}
use rtbench.Memory.{Mem, store}
use rtbench.MotionControl.{Counter, getticks, ticks_long, n_drives}

-- `float` with its operations; `literal n k` is n over 10 to the k, `of_nat` the conversion of an integer.
pub record Floats : Type 1 where
  pub F : Type 0
  pub add : F → F → F
  pub sub : F → F → F
  pub mul : F → F → F
  pub div : F → F → F
  pub neg : F → F
  pub lt : F → F → Bool
  pub literal : ℕ → ℕ → F
  pub of_nat : ℕ → F

-- The file's own `memset`, with the rounds that are left; the size stays the same.
unfoldable pub own_memset_loop : ℕ → Mem → ℕ → ℕ → ℕ → Mem
own_memset_loop zero m ptr s size = m
own_memset_loop (suc n) m ptr s size = own_memset_loop n (store m (ptr + size) s) ptr s size

unfoldable pub own_memset : Mem → ℕ → ℕ → ℕ → Mem
own_memset m ptr s size = own_memset_loop size m ptr s size

module _ (a : Floats) where
  unfoldable pub sinus : a.F → a.F
  sinus x =
      let y = a.mul x x in
      let y1 =
        a.add (a.mul (a.literal 2136548709317364 21) y) (a.neg (a.literal 1924245224273794 19)) in
      let y2 = a.add (a.mul y1 y) (a.literal 8307513519274192 18) in
      let y3 = a.add (a.mul y2 y) (a.neg (a.literal 166620906578438 15)) in
      a.mul (a.add (a.mul y3 y) (a.literal 999977239959734 15)) x

  -- `DriverObj`; `time` is a `long long`, as an unsigned 64-bit word.
  pub record Drive : Type 0 where
    pub speed : a.F
    pub time : ℕ
    pub last_position : a.F
    pub position : a.F
    pub min : a.F
    pub max : a.F
    pub e : a.F
    pub i : a.F
    pub kp : a.F
    pub ki : a.F
    pub kd : a.F

  -- The sum in `pid_update`, from the error before and the new error and its integral.
  abbrev pub raw_change : Drive → a.F → a.F → a.F → a.F
  raw_change d e e' tmpi = a.add (a.add (a.add d.kp e') (a.mul d.ki tmpi)) (a.mul d.kd (a.sub e e'))

  -- The comparisons at the end of `pid_update`: the drive, and what is returned.
  abbrev pub clamp : Drive → a.F → a.F → Drive × a.F
  clamp d tmpi ret =
      if (if a.lt ret d.max then a.lt d.min ret else false)
      then (record d { i = tmpi }, ret)
      else if a.lt d.max ret
      then (d, d.max)
      else if a.lt ret d.min
      then (d, d.min)
      else (d, ret)

  unfoldable pub pid_update : Drive → a.F → Drive × a.F
  pid_update d set =
      let e' = a.sub set d.speed in
      let tmpi = a.add d.i e' in clamp (record d { e = e' }) tmpi (raw_change d d.e e' tmpi)

  -- `cur_us` is an `unsigned long`.
  abbrev pub cur_us : Counter → ℕ → ℕ
  cur_us o n = ticks_long o n % 2 ^ 32

  abbrev pub delta_us : Drive → ℕ → ℕ
  delta_us d now = (now + 2 ^ 64 - d.time) % 2 ^ 32 / 1000

  -- The new position, behind `delta` microseconds.
  abbrev pub moved : Drive → ℕ → a.F
  moved d delta =
      a.add d.position
        (a.div (a.mul (a.mul (a.of_nat delta) d.speed) (a.literal 3 5)) (sinus d.position))

  abbrev pub measured_speed : Drive → ℕ → a.F
  measured_speed d delta =
      a.div (a.mul (a.sub (moved d delta) d.position) (a.of_nat (1000 * 60 / 8000)))
        (a.of_nat delta)

  -- `myDrives[i].speed += change;`
  abbrev pub speed_up : Drive × a.F → Drive
  speed_up (d, change) = record d { speed = a.add d.speed change }

  -- One round of the loop in `ctrl`, for one drive.
  unfoldable pub ctrl_drive : Counter → ℕ → Drive → Drive
  ctrl_drive o n d =
      let now = cur_us o n in
      let delta = delta_us d now in
      speed_up (
        pid_update (record d { time = now; last_position = d.position; position = moved d delta })
          (a.add (measured_speed d delta) (a.literal 2 0)))

  -- `ctrl`, from the reading `n` of the counter on: the drives, and the next reading.
  unfoldable pub ctrl : Counter → ℕ → List Drive → List Drive × ℕ
  ctrl o n [] = ([], n)
  ctrl o n (d ∷ ds) = let (ds', n') = ctrl o (n + 1) ds in (ctrl_drive o n d ∷ ds', n')

  -- The drive number `k` behind the constructor `MyCtrl`; `time` is from the drive's own constructor, and
  -- what is not assigned is 0, as is all static memory.
  abbrev pub start_drive : Counter → ℕ → ℕ → Drive
  start_drive o n k = record {
    speed = a.add (a.literal 10 0) (a.of_nat (k % 10));
    time = ticks_long o n;
    last_position = a.literal 20 0;
    position = a.literal 20 0;
    min = a.neg (a.literal 100 0);
    max = a.literal 100 0;
    e = a.literal 0 0;
    i = a.literal 0 0;
    kp = a.literal 1 2;
    ki = a.literal 5 2;
    kd = a.literal 1 5;
  }

  -- The drives from the number `k` on, `left` of them.
  unfoldable pub start_drives : Counter → ℕ → ℕ → ℕ → List Drive
  start_drives o n k zero = []
  start_drives o n k (suc left) = start_drive o n k ∷ start_drives o (n + 1) (k + 1) left

  -- `myCtrl`, constructed and then run `rounds` times.
  unfoldable pub ctrl_rounds : Counter → ℕ → List Drive × ℕ → List Drive × ℕ
  ctrl_rounds o zero (ds, n) = (ds, n)
  ctrl_rounds o (suc rounds) (ds, n) = ctrl_rounds o rounds (ctrl o n ds)

  abbrev pub my_ctrl : Counter → List Drive × ℕ
  my_ctrl o = (start_drives o 0 0 n_drives, n_drives)
