-- ===== src/MotionControl/Control/Tests.antt =====
-- Drives whose floats are whole numbers without a sign.
use rtbench.Common.{ℕ, ◌+◌, ◌-◌, ◌*◌, ◌/◌, ◌^◌, ◌≡◌, refl, arith, ltb}
use rtbench.MotionControl.{Counter}
use rtbench.MotionControl.Control.{
  Floats, Drive, own_memset, own_memset_loop, pid_update, ctrl_rounds, my_ctrl,
}
use rtbench.MotionControl.Control.Change.{IsAsymmetric}
use rtbench.MotionControl.Control.Steady.{IsSteady, ctrl_rounds-IsSteady}

abbrev whole : Floats
whole = record {
  F = ℕ;
  add = λ x y. x + y;
  sub = λ x y. x - y;
  mul = λ x y. x * y;
  div = λ x y. x / y;
  neg = λ x. 0;
  lt = ltb;
  literal = λ n k. n / 10 ^ k;
  of_nat = λ n. n;
}

-- Five milliseconds between two reads.
abbrev counter : Counter
counter = record { eax = λ n. 5000 * n; edx = λ n. 0 }

-- Four bytes from 8 on: only the byte 12 is written.
own_memset_runs :
    (own_memset (λ a. 7) 8 0 4 8 ≡ 7)
    × (own_memset (λ a. 7) 8 0 4 11 ≡ 7)
    × (own_memset (λ a. 7) 8 0 4 12 ≡ 0)
unfolding own_memset own_memset_loop
own_memset_runs = (refl, refl, refl)

-- The factor `kp` is a summand: with kp = 2, ki = 0 and kd = 0 the error 3 gives 5 and not 6.
abbrev gains : Drive whole
gains = record {
  speed = 4;
  time = 0;
  last_position = 0;
  position = 0;
  min = 0;
  max = 100;
  e = 0;
  i = 0;
  kp = 2;
  ki = 0;
  kd = 0;
}

pid_update_runs : (pid_update whole gains 7).1 ≡ 5
unfolding pid_update
pid_update_runs = refl

whole-IsAsymmetric : IsAsymmetric whole
whole-IsAsymmetric x y e = ground arith

ctrl_rounds-IsSteady_example :
    IsSteady whole counter 2 (ctrl_rounds whole counter 2 (my_ctrl whole counter))
ctrl_rounds-IsSteady_example = ctrl_rounds-IsSteady whole counter 2 whole-IsAsymmetric refl
