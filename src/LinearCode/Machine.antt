-- ===== src/LinearCode/Machine.antt =====
-- The processor that runs the generated code, as far as it uses it. The instructions are those of the
-- 32-bit mode, in which the first byte of a function is DEC EAX; the stack is apart from the code.
use rtbench.Common.{
  ℕ, zero, suc, ◌+◌, ◌-◌, ◌%◌, ◌^◌, ◌<◌, ◌≡◌, refl, ap, ◌∙◌, arith, List, [], ◌∷◌, Option, some,
  none, ◌>>=◌, if◌then◌else◌, ◌==◌,
}
use rtbench.Memory.{Mem, read32}
use rtbench.LinearCode.Calls.{IsCall}

-- The registers that the code uses, and the return addresses on the stack.
pub record Cpu : Type 0 where
  pub eip : ℕ
  pub eax : ℕ
  pub ecx : ℕ
  pub returns : List ℕ

-- RET; none without a return address.
abbrev pub pop_return : Cpu → List ℕ → Option Cpu
pop_return c [] = none
pop_return c (r ∷ rs) = some (record c { eip = r; returns = rs })

abbrev pub next_to : Cpu → ℕ → ℕ
next_to c n = (c.eip + n) % 2 ^ 32

-- CALL rel32, ADD EAX imm32, DEC EAX, MOV ECX imm32, RET; none for another opcode.
unfoldable pub step : Mem → Cpu → Option Cpu
step m c =
    let op = m c.eip in
    if op == 0xe8
    then some (record c {
      eip = (c.eip + 5 + read32 m (c.eip + 1)) % 2 ^ 32;
      returns = next_to c 5 ∷ c.returns;
    })
    else if op == 0x05
    then some (record c { eip = next_to c 5; eax = (c.eax + read32 m (c.eip + 1)) % 2 ^ 32 })
    else if op == 0x48
    then some (record c { eip = next_to c 1; eax = (c.eax + (2 ^ 32 - 1)) % 2 ^ 32 })
    else if op == 0xc7
    then (if m (c.eip + 1) == 0xc1
        then some (record c { eip = next_to c 6; ecx = read32 m (c.eip + 2) })
        else none)
    else if op == 0xc3
    then pop_return c c.returns
    else none

-- `n` instructions.
unfoldable pub run : ℕ → Mem → Cpu → Option Cpu
run zero m c = some c
run (suc n) m c = step m c >>= λ c'. run n m c'

pub run_more :
    (n : ℕ) (m : Mem) (c c' : Cpu) {r : Option Cpu}
    → step m c ≡ some c'
    → run n m c' ≡ r
    → run (suc n) m c ≡ r
unfolding run
run_more n m c c' e h = rw e h

abbrev pub at : ℕ → ℕ → ℕ → List ℕ → Cpu
at eip eax ecx rs = record { eip = eip; eax = eax; ecx = ecx; returns = rs }

pub step_call :
    (m : Mem) (p t eax ecx : ℕ) (rs : List ℕ)
    → IsCall m p t
    → t < 2 ^ 32
    → p + 5 < 2 ^ 32
    → step m (at p eax ecx rs) ≡ some (at t eax ecx ((p + 5) ∷ rs))
unfolding step
step_call m p t eax ecx rs h small below =
    let target : (p + 5 + read32 m (p + 1)) % 2 ^ 32 ≡ t = omega (arith, h.to) in
    let behind : (p + 5) % 2 ^ 32 ≡ p + 5 = omega arith in
    rw h.call (
      ap (λ x. some (at x eax ecx ((p + 5) % 2 ^ 32 ∷ rs))) target
      ∙ ap (λ x. some (at t eax ecx (x ∷ rs))) behind)

pub step_dec :
    (m : Mem) (p eax ecx : ℕ) (rs : List ℕ)
    → m p ≡ 0x48
    → p + 1 < 2 ^ 32
    → step m (at p eax ecx rs) ≡ some (at (p + 1) ((eax + (2 ^ 32 - 1)) % 2 ^ 32) ecx rs)
unfolding step
step_dec m p eax ecx rs h small =
    let behind : (p + 1) % 2 ^ 32 ≡ p + 1 = omega arith in
    rw h (ap (λ x. some (at x ((eax + (2 ^ 32 - 1)) % 2 ^ 32) ecx rs)) behind)

pub step_mov :
    (m : Mem) (p v eax ecx : ℕ) (rs : List ℕ)
    → m p ≡ 0xc7
    → m (p + 1) ≡ 0xc1
    → read32 m (p + 2) ≡ v
    → p + 6 < 2 ^ 32
    → step m (at p eax ecx rs) ≡ some (at (p + 6) eax v rs)
unfolding step
step_mov m p v eax ecx rs h h' immediate small =
    let behind : (p + 6) % 2 ^ 32 ≡ p + 6 = omega arith in
    rw (h, h')
      (ap (λ x. some (at x eax (read32 m (p + 2)) rs)) behind
        ∙ ap (λ x. some (at (p + 6) eax x rs)) immediate)

pub step_ret :
    (m : Mem) (p eax ecx r : ℕ) (rs : List ℕ)
    → m p ≡ 0xc3
    → step m (at p eax ecx (r ∷ rs)) ≡ some (at r eax ecx rs)
unfolding step
step_ret m p eax ecx r rs h = rw h refl

pub step_add :
    (m : Mem) (p v eax ecx : ℕ) (rs : List ℕ)
    → m p ≡ 0x05
    → read32 m (p + 1) ≡ v
    → p + 5 < 2 ^ 32
    → step m (at p eax ecx rs) ≡ some (at (p + 5) ((eax + v) % 2 ^ 32) ecx rs)
unfolding step
step_add m p v eax ecx rs h immediate small =
    let behind : (p + 5) % 2 ^ 32 ≡ p + 5 = omega arith in
    rw h (
      ap (λ x. some (at x ((eax + read32 m (p + 1)) % 2 ^ 32) ecx rs)) behind
      ∙ ap (λ x. some (at (p + 5) ((eax + x) % 2 ^ 32) ecx rs)) immediate)
