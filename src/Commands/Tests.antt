-- ===== src/Commands/Tests.antt =====
-- mwaitTester.c and mp_main.c at concrete inputs.
use rtbench.Common.{ℕ, ◌+◌, ◌*◌, ◌≤◌, ◌≡◌, List, [], ◌∷◌, inr, refl, arith}
use rtbench.Commands.{
  Benchmark, main_501, main_502, System, arm, Action, moves, wakes, stores, step, run, lwrte_eu,
  mwait_cmd_eu, cmd_501, cmd_502,
}
use rtbench.Commands.Driver.{Report, run_rt_tests}
use rtbench.Commands.Once.{run-at_most_once}
use rtbench.Commands.Report.{IsSummary, reads, first_test_end, run_rt_tests-IsSummary}
use rtbench.Commands.Answer.{results, wait, run_rt_tests-alone}

abbrev fresh : System
fresh = record {
  globals = (lwrte_eu 3 (λ a. 0)).0;
  words = λ a. 0;
  pc = λ i. arm;
  runs = λ i. 0;
  commands = 0;
}

abbrev bench : ℕ → Benchmark → ℕ
bench k main_501 = 100 + k
bench k b = 7 * k

-- Two cores see the same command; a second command is lost.
abbrev schedule : List Action
schedule =
    moves 1 0
    ∷ moves 2 0
    ∷ moves 1 0
    ∷ moves 2 0
    ∷ stores (mwait_cmd_eu 3) cmd_501
    ∷ moves 1 0
    ∷ moves 1 0
    ∷ moves 2 0
    ∷ moves 2 0
    ∷ stores (mwait_cmd_eu 3) cmd_502
    ∷ moves 1 55
    ∷ moves 1 0
    ∷ wakes 2
    ∷ []

both_cores_run : ((run fresh schedule).runs 1 ≡ 1) × ((run fresh schedule).runs 2 ≡ 1)
unfolding run step
both_cores_run = (refl, refl)

run-at_most_once_example : (run fresh schedule).runs 1 ≤ (run fresh schedule).commands
run-at_most_once_example = run-at_most_once 3 fresh schedule 1 (omega arith) refl refl refl refl

run_rt_tests-IsSummary_example :
    IsSummary
      (reads (λ us s. s) 10 cmd_501 fresh)
      (run_rt_tests (λ us s. s) fresh).0.average_501
      (run_rt_tests (λ us s. s) fresh).0.maximum_501
    × IsSummary
        (reads (λ us s. s) 10 cmd_502 (first_test_end (λ us s. s) fresh))
        (run_rt_tests (λ us s. s) fresh).0.average_502
        (run_rt_tests (λ us s. s) fresh).0.maximum_502
run_rt_tests-IsSummary_example = run_rt_tests-IsSummary (λ us s. s) fresh

abbrev tests : Report
tests = (run_rt_tests (wait bench 1 (λ us. 9)) fresh).0

run_rt_tests-alone_example :
    IsSummary (results bench main_501 10 0) tests.average_501 tests.maximum_501
    × IsSummary (results bench main_502 10 10) tests.average_502 tests.maximum_502
run_rt_tests-alone_example =
    run_rt_tests-alone bench 1 (λ us. 9) fresh 0 (omega arith) (omega arith) (omega arith)
      (refl, inr (refl, refl))
