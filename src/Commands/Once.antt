-- ===== src/Commands/Once.antt =====
-- mwaitTester.c: how often a command runs.
use rtbench.Common.{
  ℕ_discrete, ne→==, Bool, ◌%◌, ◌^◌, ℕ, ◌+◌, ◌≤◌, ◌<◌, ◌≡◌, ◌≢◌, ◌⊎◌, inl, inr, refl, ◌==◌,
  if◌then◌else◌, List, [], ◌∷◌, Bool-cases, true, false, arith, sym, subst, ==→eq, ==→ne, eq→==,
}
use rtbench.Commands.{
  put_move, cmd_501, cmd_502, cmd_503_1, cmd_503_2, cmd_503_3, cmd_halt, Benchmark, main_501,
  main_502, main_503_1, main_503_2, main_503_3, store_result, switch_command, call_main, increment,
  testvalue, Globals, Pc, arm, first_test, second_test, asleep, woken, switching, running, halted,
  mwait_loop, System, Action, moves, wakes, stores, is_running, wake, step, run, put_word, lwrte_eu,
}

-- The words that a core stores to are not the command word.
pub record GlobalsIsDisjoint (g : Globals) : Type 0 where
  pub count_ne : g.count ≢ g.mon_addr
  pub count2_ne : g.count2 ≢ g.mon_addr
  pub mark_ne : g.mon_addr ≢ 0x1100

-- A core between the store of TESTVALUE and the `switch` has a command pending when the word is
-- another.
abbrev pub listens : Pc → ℕ
listens first_test = 1
listens second_test = 1
listens asleep = 1
listens woken = 1
listens switching = 1
listens pc = 0

abbrev pub pending : Pc → ℕ → ℕ
pending pc c = if c == testvalue then 0 else listens pc

pub data Moved (g : Globals) (pc : Pc) (w : ℕ → ℕ) : Pc × (ℕ → ℕ) → Type 0 where
  moved :
      {pc' : Pc} {w' : ℕ → ℕ}
      → is_running pc' + pending pc' (w' g.mon_addr) ≤ pending pc (w g.mon_addr)
      → ((w' g.mon_addr ≡ w g.mon_addr) ⊎ (w' g.mon_addr ≡ testvalue))
      → Moved g pc w (pc', w')

put_word-other : (a v b : ℕ) (w : ℕ → ℕ) → a ≢ b → put_word a v w b ≡ w b
put_word-other a v b w ne = ground (arith, ne)

store_result-other : (m : ℕ) (b : Benchmark) (v : ℕ) (w : ℕ → ℕ) → store_result m b v w m ≡ w m
store_result-other m main_501 v w = put_word-other (m + 40) v m w (λ e. omega arith)
store_result-other m main_502 v w = put_word-other (m + 40) v m w (λ e. omega arith)
store_result-other m main_503_1 v w = put_word-other (m + 40) v m w (λ e. omega arith)
store_result-other m main_503_2 v w = refl
store_result-other m main_503_3 v w = refl

module _ (g : Globals) (d : GlobalsIsDisjoint g) where
  call_main-Moved :
      (b : Benchmark) (w : ℕ → ℕ)
      → (w g.mon_addr == testvalue) ≡ false
      → Moved g switching w (call_main g.mon_addr b w)
  call_main-Moved b w e =
      moved (ground (arith, store_result-other g.mon_addr b 0 w))
        (inl (store_result-other g.mon_addr b 0 w))

  either-Moved :
      (b : Bool) {pc : Pc} {w : ℕ → ℕ} {x y : Pc × (ℕ → ℕ)}
      → Moved g pc w x
      → Moved g pc w y
      → Moved g pc w (if b then x else y)
  either-Moved true hx hy = hx
  either-Moved false hx hy = hy

  back-Moved : (w : ℕ → ℕ) → Moved g switching w (arm, w)
  back-Moved w = moved (ground arith) (inl refl)

  halt-Moved : (w : ℕ → ℕ) → Moved g switching w (halted, put_word 0x1100 0xdead w)
  halt-Moved w =
      let same : put_word 0x1100 0xdead w g.mon_addr ≡ w g.mon_addr =
        put_word-other 0x1100 0xdead g.mon_addr w (λ e. d.mark_ne (sym e)) in
      moved (ground arith) (inl same)

  command-Moved :
      (c : ℕ) (w : ℕ → ℕ)
      → (w g.mon_addr == testvalue) ≡ false
      → Moved g switching w (switch_command g.mon_addr c w)
  command-Moved c w e = either-Moved (c == cmd_halt) (halt-Moved w) (
      either-Moved (c == cmd_501) (call_main-Moved main_501 w e) (
        either-Moved (c == cmd_502) (call_main-Moved main_502 w e) (
          either-Moved (c == cmd_503_1) (call_main-Moved main_503_1 w e) (
            either-Moved (c == cmd_503_2) (call_main-Moved main_503_2 w e)
              (either-Moved (c == cmd_503_3) (call_main-Moved main_503_3 w e) (back-Moved w))))))

  switch_command-Moved :
      (c : ℕ) (w : ℕ → ℕ) → w g.mon_addr ≡ c → Moved g switching w (switch_command g.mon_addr c w)
  switch_command-Moved c w e = elim (Bool-cases (c == testvalue)) [
    | inl same ↦ rw (==→eq c testvalue same) (back-Moved w)
    | inr other ↦ command-Moved c w (rw e other)
  ]

  woken-Moved : (a : ℕ) (w : ℕ → ℕ) → a ≢ g.mon_addr → Moved g woken w (switching, increment a w)
  woken-Moved a w ne =
      let same : increment a w g.mon_addr ≡ w g.mon_addr =
        put_word-other a ((w a + 1) % 2 ^ 32) g.mon_addr w ne in
      moved (rw same (ground arith)) (inl same)

  mwait_loop-Moved : (t : ℕ) (pc : Pc) (w : ℕ → ℕ) → Moved g pc w (mwait_loop g t pc w)
  mwait_loop-Moved t arm w = moved (ground arith) (inr (ground arith))
  mwait_loop-Moved t first_test w = moved (ground arith) (inl refl)
  mwait_loop-Moved t second_test w = moved (ground arith) (inl refl)
  mwait_loop-Moved t asleep w = moved (ground arith) (inl refl)
  mwait_loop-Moved t woken w = elim (Bool-cases (w g.mon_addr == testvalue)) [
    | inl e ↦ rw e (woken-Moved g.count2 w d.count2_ne)
    | inr e ↦ rw e (woken-Moved g.count w d.count_ne)
  ]
  mwait_loop-Moved t switching w = switch_command-Moved (w g.mon_addr) w refl
  mwait_loop-Moved t (running b) w =
      moved (ground (arith, store_result-other g.mon_addr b (t % 2 ^ 32) w))
        (inl (store_result-other g.mon_addr b (t % 2 ^ 32) w))
  mwait_loop-Moved t halted w = moved (ground arith) (inl refl)

abbrev pub room : System → ℕ → ℕ
room s i = s.runs i + pending (s.pc i) (s.words s.globals.mon_addr)

listens_le : (pc : Pc) → listens pc ≤ 1
listens_le pc = ground arith

pending_le : (pc : Pc) (c : ℕ) → pending pc c ≤ 1
pending_le pc c = ground (arith, listens_le pc)

pending_kept : (pc : Pc) (c c' : ℕ) → ((c' ≡ c) ⊎ (c' ≡ testvalue)) → pending pc c' ≤ pending pc c
pending_kept pc c c' (inl e) = rw e (omega arith)
pending_kept pc c c' (inr e) = rw e (omega arith)

put_move-room :
    (s : System) (i j : ℕ) {r : Pc × (ℕ → ℕ)}
    → Moved s.globals (s.pc j) s.words r
    → room (put_move s j r) i ≤ room s i
put_move-room s i j (moved {pc'} {w'} less frame) = elim (ℕ_discrete i j) [
  | yes e ↦ rw (e, eq→== j j refl) (omega (arith, less))
  | no ne ↦ rw (ne→== i j ne) (
      omega
        (arith, pending_kept (s.pc i) (s.words s.globals.mon_addr) (w' s.globals.mon_addr) frame))
]

pending-wake : (pc : Pc) (c : ℕ) → pending (wake pc) c ≤ pending pc c
pending-wake pc c = ground arith

stores-room :
    (s : System) (a v : ℕ) (i : ℕ)
    → s.runs i + pending (s.pc i) (put_word a v s.words s.globals.mon_addr) + s.commands
      ≤ room s i + (s.commands + (if a == s.globals.mon_addr then 1 else 0))
stores-room s a v i = elim (Bool-cases (a == s.globals.mon_addr)) [
  | inl e ↦ rw e (omega (arith, pending_le (s.pc i) (put_word a v s.words s.globals.mon_addr)))
  | inr e ↦
      rw (put_word-other a v s.globals.mon_addr s.words (==→ne a s.globals.mon_addr e))
        (omega arith)
]

step-IsDisjoint :
    (s : System) (a : Action) → GlobalsIsDisjoint s.globals → GlobalsIsDisjoint (step s a).globals
unfolding step
step-IsDisjoint s (moves j t) d = d
step-IsDisjoint s (wakes j) d = d
step-IsDisjoint s (stores a v) d = d

step-room :
    (s : System) (a : Action) (i : ℕ)
    → GlobalsIsDisjoint s.globals
    → room (step s a) i + s.commands ≤ room s i + (step s a).commands
unfolding step
step-room s (moves j t) i d =
    omega (arith, put_move-room s i j (mwait_loop-Moved s.globals d t (s.pc j) s.words))
step-room s (wakes j) i d = elim (ℕ_discrete i j) [
  | yes e ↦
      rw (e, eq→== j j refl) (omega (arith, pending-wake (s.pc j) (s.words s.globals.mon_addr)))
  | no ne ↦ rw (ne→== i j ne) (omega arith)
]
step-room s (stores a v) i d = stores-room s a v i

run-room :
    (s : System) (acts : List Action) (i : ℕ)
    → GlobalsIsDisjoint s.globals
    → room (run s acts) i + s.commands ≤ room s i + (run s acts).commands
unfolding run
run-room s [] i d = omega arith
run-room s (a ∷ rest) i d =
    omega (arith, step-room s a i d, run-room (step s a) rest i (step-IsDisjoint s a d))

eu-IsDisjoint : (x : ℕ) (w : ℕ → ℕ) → x < 4 → GlobalsIsDisjoint (lwrte_eu x w).0
eu-IsDisjoint x w lt = record {
  count_ne = λ e. omega arith;
  count2_ne = λ e. omega arith;
  mark_ne = λ e. omega arith;
}

-- Whatever the order in which the cores, the wake-ups and the stores of core 0 come, each core
-- starts at most as many benchmarks as commands were stored to the word that the last core to start
-- gave them, and stores to other words start none. All cores are taken to be about to arm their
-- word, as `mwaitInit` leaves them, with no benchmark started and no command stored.
pub run-at_most_once :
    (x : ℕ) (s : System) (acts : List Action) (i : ℕ)
    → x < 4
    → s.globals ≡ (lwrte_eu x s.words).0
    → s.pc i ≡ arm
    → s.runs i ≡ 0
    → s.commands ≡ 0
    → (run s acts).runs i ≤ (run s acts).commands
run-at_most_once x s acts i lt g p r c =
    let idle : pending (s.pc i) (s.words s.globals.mon_addr) ≡ 0 = rw p (ground arith) in
    omega (arith, run-room s acts i (subst GlobalsIsDisjoint (sym g) (eu-IsDisjoint x s.words lt)))
