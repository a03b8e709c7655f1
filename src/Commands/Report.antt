-- ===== src/Commands/Report.antt =====
-- mp_main.c: the numbers that the tests print.
use rtbench.Common.{
  subst, ◌%◌, ◌^◌, ℕ, zero, suc, ◌+◌, ◌*◌, ◌/◌, ◌≤◌, ◌<◌, ◌≡◌, refl, sym, ltb, if◌then◌else◌, List,
  [], ◌∷◌, max, arith, length, ap, ap₂,
}
use rtbench.Commands.{System, cmd_501, cmd_502}
use rtbench.Commands.Driver.{rt_round, rt_result, rt_loop, run_rt_tests}

abbrev pub sum : List ℕ → ℕ
sum [] = 0
sum (x ∷ xs) = x + sum xs

abbrev pub maximum : List ℕ → ℕ
maximum [] = 0
maximum (x ∷ xs) = max x (maximum xs)

-- The average and the maximum of ten 32-bit results. The sum is kept in 32 bits.
pub record IsSummary (results : List ℕ) (average greatest : ℕ) : Type 0 where
  pub averaged : average ≡ sum results % 2 ^ 32 / 10
  pub greatest_of : greatest ≡ maximum results
  pub average_le : average ≤ greatest
  pub exact : sum results < 2 ^ 32 → average ≡ sum results / 10

add_wraps : (a t : ℕ) → (a % 2 ^ 32 + t) % 2 ^ 32 ≡ (a + t) % 2 ^ 32
add_wraps a t = omega arith

raised : (a t : ℕ) → (if ltb a t then t else a) ≡ max a t
raised a t = ground arith

sum_le : (xs : List ℕ) → sum xs ≤ length xs * maximum xs
sum_le [] = omega arith
sum_le (x ∷ xs) = grind (arith, sum_le xs)

sum-IsSummary :
    (rs : List ℕ) → length rs ≡ 10 → IsSummary rs ((0 + sum rs) % 2 ^ 32 / 10) (max 0 (maximum rs))
sum-IsSummary rs e =
    let le : sum rs ≤ 10 * maximum rs = subst (λ k. sum rs ≤ k * maximum rs) e (sum_le rs) in
    record {
      averaged = omega arith;
      greatest_of = omega arith;
      average_le = omega arith;
      exact = λ lt. omega arith;
    }

module _ (wait : ℕ → System → System) where
  -- The results that a test reads.
  unfoldable pub reads : ℕ → ℕ → System → List ℕ
  reads zero cmd s = []
  reads (suc n) cmd s = let t = rt_round wait cmd s in rt_result wait t ∷ reads n cmd t

  -- The system after `n` rounds.
  unfoldable pub after : ℕ → ℕ → System → System
  after zero cmd s = s
  after (suc n) cmd s = after n cmd (rt_round wait cmd s)

  rt_loop_lem :
      (n cmd avg greatest : ℕ) (s : System)
      → rt_loop wait n cmd (avg % 2 ^ 32) greatest s ≡ (
        (avg + sum (reads n cmd s)) % 2 ^ 32,
        max greatest (maximum (reads n cmd s)),
        after n cmd s,
      )
  unfolding rt_loop reads after
  rt_loop_lem zero cmd avg greatest s = ap₂ (λ a b. (a, b, s)) (omega arith) (omega arith)
  rt_loop_lem (suc n) cmd avg greatest s =
      let t = rt_round wait cmd s in
      let r = rt_result wait t in
      let rest = reads n cmd t in
      rw (add_wraps avg r, raised greatest r, rt_loop_lem n cmd (avg + r) (max greatest r) t)
        (ap₂ (λ a b. (a, b, after n cmd t)) (omega arith) (omega arith))

  length-reads : (n cmd : ℕ) (s : System) → length (reads n cmd s) ≡ n
  unfolding reads
  length-reads zero cmd s = refl
  length-reads (suc n) cmd s = ap suc (length-reads n cmd (rt_round wait cmd s))

  loop-IsSummary :
      (cmd : ℕ) (s : System)
      → IsSummary
          (reads 10 cmd s)
          ((rt_loop wait 10 cmd 0 0 s).0 / 10)
          (rt_loop wait 10 cmd 0 0 s).1
  loop-IsSummary cmd s =
      let rs = reads 10 cmd s in
      rw (rt_loop_lem 10 cmd 0 0 s) (sum-IsSummary rs (length-reads 10 cmd s))

  loop_end : (cmd : ℕ) (s : System) → (rt_loop wait 10 cmd 0 0 s).2 ≡ after 10 cmd s
  loop_end cmd s = rw (rt_loop_lem 10 cmd 0 0 s) refl

  abbrev pub first_test_end : System → System
  first_test_end s = wait 5000000 (after 10 cmd_501 s)

  -- Both tests print the average, in 32 bits, and the maximum of the ten results that they read. The
  -- average is the true one when the sum stays below 2 ^ 32, and is never above the maximum. `wait`,
  -- which stands for what the other cores do during uSleep, may be any function.
  pub run_rt_tests-IsSummary :
      (s : System)
      → let r = (run_rt_tests wait s).0 in
        IsSummary (reads 10 cmd_501 s) r.average_501 r.maximum_501
        × IsSummary (reads 10 cmd_502 (first_test_end s)) r.average_502 r.maximum_502
  unfolding run_rt_tests
  run_rt_tests-IsSummary s = (
    loop-IsSummary cmd_501 s,
    rw (sym (loop_end cmd_501 s))
        (loop-IsSummary cmd_502 (wait 5000000 (rt_loop wait 10 cmd_501 0 0 s).2)),
  )
