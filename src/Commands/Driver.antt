-- ===== src/Commands/Driver.antt =====
-- mp_main.c: core 0, which runs the tests and answers the serial line.
use rtbench.Common.{◌%◌, ◌^◌, ℕ, zero, suc, ◌+◌, ◌/◌, ◌==◌, ltb, if◌then◌else◌, List, [], ◌∷◌}
use rtbench.Commands.{System, stores, step, mwait_cmd_eu, result_word, cmd_501, cmd_502}

-- What `run_rt_tests` prints: the average and the maximum of each test.
pub record Report : Type 0 where
  pub average_501 : ℕ
  pub maximum_501 : ℕ
  pub average_502 : ℕ
  pub maximum_502 : ℕ

pub data Printed : Type 0 where
  report : Report → Printed
  help : Printed

-- `wait us` is what the other cores do to the system while core 0 sleeps for `us` microseconds.
module _ (wait : ℕ → System → System) where
  -- A round of a test, up to the read of the result.
  unfoldable pub rt_round : ℕ → System → System
  rt_round cmd s = wait 800000 (step (wait 300000 s) (stores (mwait_cmd_eu 3) cmd))

  abbrev pub rt_result : System → ℕ
  rt_result s = s.words (result_word (mwait_cmd_eu 3))

  abbrev pub add_result : System → ℕ → ℕ
  add_result s avg = (avg + rt_result s) % 2 ^ 32

  abbrev pub raise_max : System → ℕ → ℕ
  raise_max s max = if ltb max (rt_result s) then rt_result s else max

  -- The loop over `n` rounds, with its sum and its maximum.
  unfoldable pub rt_loop : ℕ → ℕ → ℕ → ℕ → System → ℕ × ℕ × System
  rt_loop zero cmd avg max s = (avg, max, s)
  rt_loop (suc n) cmd avg max s =
      let t = rt_round cmd s in rt_loop n cmd (add_result t avg) (raise_max t max) t

  abbrev pub report_of : ℕ × ℕ × System → ℕ × ℕ × System → Report × System
  report_of (avg1, max1, s1) (avg2, max2, s2) = (
    record {
      average_501 = avg1 / 10;
      maximum_501 = max1;
      average_502 = avg2 / 10;
      maximum_502 = max2;
    },
    s2,
  )

  unfoldable pub run_rt_tests : System → Report × System
  run_rt_tests s =
      let first = rt_loop 10 cmd_501 0 0 s in
      report_of first (rt_loop 10 cmd_502 0 0 (wait 5000000 first.2))

  -- `lwrte_eu0`, over the characters that `read_serial` returns.
  unfoldable pub serve : List ℕ → System → List Printed
  serve [] s = []
  serve (ch ∷ rest) s =
      if ch == b'h'
      then help ∷ serve rest s
      else if ch == b'r'
      then report (run_rt_tests s).0 ∷ serve rest (run_rt_tests s).1
      else serve rest s

  unfoldable pub lwrte_eu0 : List ℕ → System → List Printed
  lwrte_eu0 chars s = report (run_rt_tests s).0 ∷ serve chars (run_rt_tests s).1
