-- ===== src/Commands/Answer.antt =====
-- mwaitTester.c and mp_main.c together: one core that answers while core 0 sleeps.
use native.Mathlib.Nat.{add-zero, suc-add, zero-add}
use rtbench.Common.{
  ap₂, ◌⊎◌, inl, inr, ◌∙◌, ◌%◌, ◌^◌, ℕ, zero, suc, ◌+◌, ◌-◌, ◌≤◌, ◌≡◌, refl, sym, subst, ap, List,
  [], ◌∷◌, arith, eq→==, true,
}
use rtbench.Commands.{
  cmd_503_2, cmd_503_3, has_result, testvalue, cmd_501, cmd_502, cmd_503_1, Globals, Benchmark,
  main_501, main_502, main_503_1, main_503_2, main_503_3, Pc, arm, asleep, running, mwait_loop,
  lwrte_eu, mwait_cmd_eu, result_word, System, moves, stores, step, is_running, put_word,
}
use rtbench.Commands.Driver.{rt_round, rt_result, run_rt_tests}
use rtbench.Commands.Report.{IsSummary, run_rt_tests-IsSummary, first_test_end, reads, after}

-- The pointers of a core that `lwrte_eu3` has started.
abbrev pub globals_eu3 : Globals
globals_eu3 = (lwrte_eu 3 (λ a. 0)).0

-- The core's place, the memory, and the number of benchmarks that it has started.
abbrev pub State : Type 0
State = Pc × (ℕ → ℕ) × ℕ

-- `bench k b` is what the core's `k`-th benchmark, `b`, returns.
module _ (bench : ℕ → Benchmark → ℕ) where
  abbrev pub returned : Pc → ℕ → ℕ
  returned (running b) k = bench (k - 1) b
  returned pc k = 0

  abbrev pub counted : ℕ → Pc × (ℕ → ℕ) → State
  counted k (pc, w) = (pc, w, k + is_running pc)

  abbrev pub turn : State → State
  turn (pc, w, k) = counted k (mwait_loop globals_eu3 (returned pc k) pc w)

  unfoldable pub turns : ℕ → State → State
  turns zero x = x
  turns (suc n) x = turns n (turn x)

  -- The system in which only core `i` takes steps.
  unfoldable pub alone : ℕ → ℕ → System → System
  alone i zero s = s
  alone i (suc n) s = alone i n (step s (moves i (returned (s.pc i) (s.runs i))))

  abbrev pub view : ℕ → System → State
  view i s = (s.pc i, s.words, s.runs i)

  step-view :
      (i : ℕ) (s : System)
      → s.globals ≡ globals_eu3
      → view i (step s (moves i (returned (s.pc i) (s.runs i)))) ≡ turn (view i s)
  unfolding step
  step-view i s g = rw (g, eq→== i i refl) refl

  alone-view :
      (i n : ℕ) (s : System)
      → s.globals ≡ globals_eu3
      → ((alone i n s).globals ≡ globals_eu3) × (view i (alone i n s) ≡ turns n (view i s))
  unfolding alone turns step
  alone-view i zero s g = (g, refl)
  alone-view i (suc n) s g =
      let s' = step s (moves i (returned (s.pc i) (s.runs i))) in
      let (g', e) = alone-view i n s' g in (g', e ∙ ap (turns n) (step-view i s g))

  turns-add : (m n : ℕ) (x : State) → turns (m + n) x ≡ turns n (turns m x)
  unfolding turns
  turns-add zero n x = ap (λ t. turns t x) (zero-add n)
  turns-add (suc m) n x = rw suc-add (turns-add m n (turn x))

  -- A core that waits in MWAIT for another word than TESTVALUE.
  pub record IsIdle (x : State) (k : ℕ) : Type 0 where
    pub place : x.0 ≡ asleep
    pub word : x.1 (mwait_cmd_eu 3) ≡ testvalue
    pub number : x.2 ≡ k

  turns-IsIdle : (n : ℕ) (x : State) (k : ℕ) → IsIdle x k → turns n x ≡ x
  unfolding turns
  turns-IsIdle zero x k h = refl
  turns-IsIdle (suc n) (pc, w, r) k h =
      let same : turn (pc, w, r) ≡ (pc, w, r) =
        rw h.place (rw h.word (ap (λ t. (asleep, w, t)) (add-zero r))) in
      ap (turns n) same ∙ turns-IsIdle n (pc, w, r) k h

  from_arm : (w : ℕ → ℕ) (k : ℕ) → IsIdle (turns 3 (arm, w, k)) k
  unfolding turns
  from_arm w k = record { place = refl; word = refl; number = omega arith }

  -- The commands that core 0 sends.
  abbrev pub code : Benchmark → ℕ
  code main_501 = cmd_501
  code main_502 = cmd_502
  code main_503_1 = cmd_503_1
  code main_503_2 = cmd_503_2
  code main_503_3 = cmd_503_3

  commanded : Benchmark → (ℕ → ℕ) → ℕ → State
  commanded b w k = (asleep, put_word (mwait_cmd_eu 3) (code b) w, k)

  record IsAnswered (b : Benchmark) (k : ℕ) (x : State) : Type 0 where
    idle : IsIdle x (k + 1)
    result : x.1 (result_word (mwait_cmd_eu 3)) ≡ bench k b % 2 ^ 32

  same_run : (b : Benchmark) (k : ℕ) → bench (k + 0 + 0 + 1 - 1) b % 2 ^ 32 ≡ bench k b % 2 ^ 32
  same_run b k = ap (λ t. bench t b % 2 ^ 32) (omega arith)

  from_command :
      (b : Benchmark) (w : ℕ → ℕ) (k : ℕ)
      → has_result b ≡ true
      → IsAnswered b k (turns 8 (asleep, put_word (mwait_cmd_eu 3) (code b) w, k))
  unfolding turns
  from_command main_501 w k e = record {
    idle = record { place = refl; word = refl; number = omega arith };
    result = same_run main_501 k;
  }
  from_command main_502 w k e = record {
    idle = record { place = refl; word = refl; number = omega arith };
    result = same_run main_502 k;
  }
  from_command main_503_1 w k e = record {
    idle = record { place = refl; word = refl; number = omega arith };
    result = same_run main_503_1 k;
  }
  from_command main_503_2 w k e = absurd (ground arith)
  from_command main_503_3 w k e = absurd (ground arith)

  -- A core that is about to arm the word, or waits already.
  abbrev pub IsWaiting : State → ℕ → Type 0
  IsWaiting x k = IsIdle x k ⊎ ((x.0 ≡ arm) × (x.2 ≡ k))

  idle_later : (n : ℕ) (x : State) (k : ℕ) → IsIdle x k → IsIdle (turns n x) k
  idle_later n x k h = rw (turns-IsIdle n x k h) h

  settles : (n : ℕ) (x : State) (k : ℕ) → IsWaiting x k → 3 ≤ n → IsIdle (turns n x) k
  settles n x k (inl h) le = idle_later n x k h
  settles n (pc, w, r) k (inr (p, e)) le =
      rw (e, p)
        (subst (λ t. IsIdle (turns t (arm, w, k)) k) split
          (rw (turns-add 3 (n - 3) (arm, w, k)) (idle_later (n - 3) _ k (from_arm w k))))
    where
      split : 3 + (n - 3) ≡ n
      split = omega arith

  answers :
      (n : ℕ) (b : Benchmark) (w : ℕ → ℕ) (k : ℕ)
      → has_result b ≡ true
      → 8 ≤ n
      → IsAnswered b k (turns n (asleep, put_word (mwait_cmd_eu 3) (code b) w, k))
  answers n b w k e le =
      let x : State = (asleep, put_word (mwait_cmd_eu 3) (code b) w, k) in
      let h = from_command b w k e in
      let split : 8 + (n - 8) ≡ n = omega arith in
      subst (λ t. IsAnswered b k (turns t x)) split
        (rw (turns-add 8 (n - 8) x, turns-IsIdle (n - 8) (turns 8 x) (k + 1) h.idle) h)

  -- What the next `n` benchmarks, from the `k`-th, return.
  abbrev pub results : Benchmark → ℕ → ℕ → List ℕ
  results b zero k = []
  results b (suc n) k = bench k b % 2 ^ 32 ∷ results b n (k + 1)

  -- `speed us` is how many steps the core takes while core 0 sleeps for `us` microseconds.
  module _ (i : ℕ) (speed : ℕ → ℕ) where
    abbrev pub wait : ℕ → System → System
    wait us = alone i (speed us)

    -- A system whose core waits at the word of the third EU.
    abbrev pub Waits : System → ℕ → Type 0
    Waits s k = (s.globals ≡ globals_eu3) × IsWaiting (view i s) k

    sent-view :
        (a v : ℕ) (s : System) (k : ℕ)
        → IsIdle (view i s) k
        → view i (step s (stores a v)) ≡ (asleep, put_word a v s.words, k)
    unfolding step
    sent-view a v s k h = ap₂ (λ p r. (p, put_word a v s.words, r)) h.place h.number

    rt_round-Waits :
        (b : Benchmark) (s : System) (k : ℕ)
        → has_result b ≡ true
        → 3 ≤ speed 300000
        → 8 ≤ speed 800000
        → Waits s k
        → Waits (rt_round wait (code b) s) (k + 1)
          × (rt_result wait (rt_round wait (code b) s) ≡ bench k b % 2 ^ 32)
    unfolding rt_round step
    rt_round-Waits b s k e slow fast (g, h) =
        let (g1, e1) = alone-view i (speed 300000) s g in
        let s1 = wait 300000 s in
        let ready : IsIdle (view i s1) k = rw e1 (settles (speed 300000) (view i s) k h slow) in
        let sent = step s1 (stores (mwait_cmd_eu 3) (code b)) in
        let (g2, e2) = alone-view i (speed 800000) sent g1 in
        let done : IsAnswered b k (view i (wait 800000 sent)) =
          rw (e2, sent-view (mwait_cmd_eu 3) (code b) s1 k ready)
            (answers (speed 800000) b s1.words k e fast) in
        ((g2, inl done.idle), done.result)

    -- `n` rounds read the next `n` results.
    rounds :
        (b : Benchmark) (n : ℕ) (s : System) (k : ℕ)
        → has_result b ≡ true
        → 3 ≤ speed 300000
        → 8 ≤ speed 800000
        → Waits s k
        → (reads wait n (code b) s ≡ results b n k) × Waits (after wait n (code b) s) (k + n)
    unfolding reads after
    rounds b zero s k e slow fast h = (refl, rw (add-zero k) h)
    rounds b (suc n) s k e slow fast h =
        let (h', r) = rt_round-Waits b s k e slow fast h in
        let (rs, last) = rounds b n (rt_round wait (code b) s) (k + 1) e slow fast h' in
        (
          ap₂ (λ x xs. x ∷ xs) r rs,
          subst (Waits (after wait n (code b) (rt_round wait (code b) s))) (omega arith) last,
        )

    -- Sleeping longer does not matter to a core that waits, whatever the time is.
    wait-Waits : (us : ℕ) (s : System) (k : ℕ) → 3 ≤ speed us → Waits s k → Waits (wait us s) k
    wait-Waits us s k slow (g, h) =
        let (g1, e1) = alone-view i (speed us) s g in
        (g1, inl (rw e1 (settles (speed us) (view i s) k h slow)))

    -- When one core waits at the word of the third EU and is the only one to take steps, and enough of
    -- them while core 0 sleeps, both tests report on exactly the results that its benchmarks return,
    -- ten for each command and in their order.
    pub run_rt_tests-alone :
        (s : System) (k : ℕ)
        → 3 ≤ speed 300000
        → 8 ≤ speed 800000
        → 3 ≤ speed 5000000
        → Waits s k
        → IsSummary
            (results main_501 10 k)
            (run_rt_tests wait s).0.average_501
            (run_rt_tests wait s).0.maximum_501
          × IsSummary
              (results main_502 10 (k + 10))
              (run_rt_tests wait s).0.average_502
              (run_rt_tests wait s).0.maximum_502
    run_rt_tests-alone s k slow fast pause h =
        let (first, second) = run_rt_tests-IsSummary wait s in
        let (r1, h1) = rounds main_501 10 s k refl slow fast h in
        let h2 = wait-Waits 5000000 (after wait 10 cmd_501 s) (k + 10) pause h1 in
        let (r2, h3) = rounds main_502 10 (first_test_end wait s) (k + 10) refl slow fast h2 in
        (rw (sym r1) first, rw (sym r2) second)
