-- ===== src/Commands.antt =====
-- The command loop of the benchmark cores, apps/mwaitTester.c with include/mwaitTester.h, and the
-- core that commands them, src_c/mp_main.c, all under tools/src/baremetal/smallos. Each access of a
-- core to the command word is a step of its own, so that the cores interleave between them. Memory
-- is a map from addresses of aligned 32-bit words to their values.
pub mod Driver
pub mod Once
pub mod Answer
pub mod Report
mod Tests
use rtbench.Common.{
  ◌%◌, ◌^◌, ℕ, zero, suc, ◌+◌, ◌*◌, ◌/◌, ◌==◌, ltb, if◌then◌else◌, List, [], ◌∷◌, Bool, true, false,
  Option, none, some,
}

-- A store of one word.
abbrev pub put_word : ℕ → ℕ → (ℕ → ℕ) → ℕ → ℕ
put_word a v w = λ b. if b == a then v else w b

-- The addresses of the build with LWRTE_MP.
abbrev pub mwait_cmd : ℕ
mwait_cmd = 0x19000080

abbrev pub mwait_cmd_arg : ℕ
mwait_cmd_arg = 0x19003000

abbrev pub mwait_cnt : ℕ
mwait_cnt = 0x19005000

abbrev pub mwait_cmd_eu : ℕ → ℕ
mwait_cmd_eu x = mwait_cmd + 0x128 * x

abbrev pub mwait_cnt_eu : ℕ → ℕ → ℕ
mwait_cnt_eu x y = mwait_cnt + (x * 2 + y) * 0x10

abbrev pub testvalue : ℕ
testvalue = 0x12345678

abbrev pub cstate_ptr : ℕ
cstate_ptr = 0x17000000

abbrev pub c1 : ℕ
c1 = 0

abbrev pub cmd_halt : ℕ
cmd_halt = 17

abbrev pub cmd_501 : ℕ
cmd_501 = 24

abbrev pub cmd_502 : ℕ
cmd_502 = 25

abbrev pub cmd_503_1 : ℕ
cmd_503_1 = 26

abbrev pub cmd_503_2 : ℕ
cmd_503_2 = 27

abbrev pub cmd_503_3 : ℕ
cmd_503_3 = 28

-- The word of a result stands ten words after the command word.
abbrev pub result_word : ℕ → ℕ
result_word mon_addr = mon_addr + 40

-- The static pointers of mwaitTester.c, which all cores share.
pub record Globals : Type 0 where
  pub mon_addr : ℕ
  pub mon_addr_arg : ℕ
  pub count : ℕ
  pub count2 : ℕ
  pub cstate : ℕ

pub data Benchmark : Type 0 where
  main_501 main_502 main_503_1 main_503_2 main_503_3 : Benchmark

-- Where a core stands in `mwaitLoop` and `mwait_run`. `woken` is the place after MWAIT, and `running`
-- the call of a benchmark.
pub data Pc : Type 0 where
  arm : Pc
  first_test : Pc
  second_test : Pc
  asleep : Pc
  woken : Pc
  switching : Pc
  running : Benchmark → Pc
  halted : Pc

-- Which benchmarks the loop stores the result of.
abbrev pub has_result : Benchmark → Bool
has_result main_501 = true
has_result main_502 = true
has_result main_503_1 = true
has_result main_503_2 = false
has_result main_503_3 = false

-- `store_result g b v` stores `v` in the result word, for a benchmark that has one.
abbrev pub store_result : ℕ → Benchmark → ℕ → (ℕ → ℕ) → ℕ → ℕ
store_result mon_addr b v w = if has_result b then put_word (result_word mon_addr) v w else w

abbrev pub call_main : ℕ → Benchmark → (ℕ → ℕ) → Pc × (ℕ → ℕ)
call_main mon_addr b w = (running b, store_result mon_addr b 0 w)

-- The `switch` over the command.
abbrev pub switch_command : ℕ → ℕ → (ℕ → ℕ) → Pc × (ℕ → ℕ)
switch_command mon_addr c w =
    if c == cmd_halt
    then (halted, put_word 0x1100 0xdead w)
    else if c == cmd_501
    then call_main mon_addr main_501 w
    else if c == cmd_502
    then call_main mon_addr main_502 w
    else if c == cmd_503_1
    then call_main mon_addr main_503_1 w
    else if c == cmd_503_2
    then call_main mon_addr main_503_2 w
    else if c == cmd_503_3
    then call_main mon_addr main_503_3 w
    else (arm, w)

abbrev pub increment : ℕ → (ℕ → ℕ) → ℕ → ℕ
increment a w = put_word a ((w a + 1) % 2 ^ 32) w

-- One step of a core. MWAIT waits as long as the monitored word is the one it was armed with. `t` is
-- what a benchmark returns.
abbrev pub mwait_loop : Globals → ℕ → Pc → (ℕ → ℕ) → Pc × (ℕ → ℕ)
mwait_loop g t arm w = (first_test, put_word g.mon_addr testvalue w)
mwait_loop g t first_test w = (if w g.mon_addr == testvalue then second_test else switching, w)
mwait_loop g t second_test w = (if w g.mon_addr == testvalue then asleep else switching, w)
mwait_loop g t asleep w = (if w g.mon_addr == testvalue then asleep else woken, w)
mwait_loop g t woken w =
    (switching, increment (if w g.mon_addr == testvalue then g.count2 else g.count) w)
mwait_loop g t switching w = switch_command g.mon_addr (w g.mon_addr) w
mwait_loop g t (running b) w = (arm, store_result g.mon_addr b (t % 2 ^ 32) w)
mwait_loop g t halted w = (halted, w)

-- `mwaitInit` up to its call of `mwaitLoop`.
abbrev pub mwait_init : ℕ → ℕ → ℕ → ℕ → (ℕ → ℕ) → Globals × (ℕ → ℕ)
mwait_init m_addr m_addr_arg cnt_change cnt_other w = (
  record {
    mon_addr = m_addr;
    mon_addr_arg = m_addr_arg;
    count = cnt_change;
    count2 = cnt_other;
    cstate = cstate_ptr;
  },
  put_word cstate_ptr c1 (put_word cnt_other 0 (put_word cnt_change 0 (put_word m_addr_arg 0 w))),
)

-- `lwrte_eu1`, `lwrte_eu2` and `lwrte_eu3`.
abbrev pub lwrte_eu : ℕ → (ℕ → ℕ) → Globals × (ℕ → ℕ)
lwrte_eu x = mwait_init (mwait_cmd_eu x) mwait_cmd_arg (mwait_cnt_eu x 1) (mwait_cnt_eu x 2)

abbrev pub mail_box : ℕ
mail_box = 0x9000

-- Which of them `smp_idle_loop` enters, by the APIC number in the mailbox.
abbrev pub eu_of : ℕ → Option ℕ
eu_of lapic_id =
    if lapic_id == 2
    then some 1
    else if lapic_id == 4
    then some 2
    else if lapic_id == 6
    then some 3
    else none

-- The end of `smp_idle_loop`: the mailbox is answered, and the core starts its command loop, or it
-- returns to its caller and leaves all as it is.
abbrev pub enter_eu : Option ℕ → (ℕ → ℕ) → Option (Globals × (ℕ → ℕ))
enter_eu none w = none
enter_eu (some x) w = some (lwrte_eu x (put_word mail_box 0xffffffff w))

unfoldable pub smp_idle_loop : (ℕ → ℕ) → Option (Globals × (ℕ → ℕ))
smp_idle_loop w = enter_eu (eu_of (w mail_box)) w

-- The cores and the memory, with two counts that the program does not keep: how many benchmarks each
-- core has started, and how often core 0 has stored to the word that the cores watch.
pub record System : Type 0 where
  pub globals : Globals
  pub words : ℕ → ℕ
  pub pc : ℕ → Pc
  pub runs : ℕ → ℕ
  pub commands : ℕ

-- What happens next: a core takes a step, in which a benchmark that ends returns `t`; MWAIT of a core
-- ends for another reason, such as an interrupt; core 0 stores to a word.
pub data Action : Type 0 where
  moves : (i t : ℕ) → Action
  wakes : (i : ℕ) → Action
  stores : (a v : ℕ) → Action

abbrev pub is_running : Pc → ℕ
is_running (running b) = 1
is_running pc = 0

abbrev pub wake : Pc → Pc
wake asleep = woken
wake pc = pc

abbrev pub put_at {ℓ} : {A : Type ℓ} → ℕ → A → (ℕ → A) → ℕ → A
put_at i v f = λ j. if j == i then v else f j

abbrev pub put_move : System → ℕ → Pc × (ℕ → ℕ) → System
put_move s i (pc, w) = record s {
  words = w;
  pc = put_at i pc s.pc;
  runs = put_at i (s.runs i + is_running pc) s.runs;
}

unfoldable pub step : System → Action → System
step s (moves i t) = put_move s i (mwait_loop s.globals t (s.pc i) s.words)
step s (wakes i) = record s { pc = put_at i (wake (s.pc i)) s.pc }
step s (stores a v) = record s {
  words = put_word a v s.words;
  commands = s.commands + (if a == s.globals.mon_addr then 1 else 0);
}

unfoldable pub run : System → List Action → System
run s [] = s
run s (a ∷ rest) = run (step s a) rest
